-- ===== src/Tests/Devices.antt =====
-- The theorems on terminals, the screen, the keyboard and the devices, at a concrete input.
use os.Common.{
  ℕ, ◌+◌, ◌-◌, ◌≤◌, ◌<◌, ◌≡◌, refl, ◌≢◌, ◌⊎◌, inl, true, false, ◌&&◌, [], ◌∷◌, ◌++◌, arith, ltb,
  leb, ◌==◌, if◌then◌else◌, minus_one, Bytes, update, char_at,
}
use os.Tests.{machine, zeros, four, lines}
use os.Terminal.Switch.{switch_terminals_back}
use os.Terminal.Line.{terminal_read_lem}
use os.Console.Bounds.{putc-IsPlaced}
use os.Keyboard.Typed.{keyboard_handler-Edited}
use os.Pic.Masks.{irq_masks}
use os.Rtc.Rate.{rtc_write_lem}
use os.Rtc.Tick.{ticks-clears}
use os.Format.Digits.{itoa_lem}
use os.Memory.Blocks.{memcpy_lem}
use os.Memory.Blocks.{memmove_lem}
use os.Keyboard.Typed.{Edited}
use os.Pic.Masks.{HasByteMasks}
use os.Rtc.Rate.{IsFrequency}
use os.Format.Digits.{IsNumeral}
use os.Console.Bounds.{IsPlaced}
use os.Pic.Masks.{IsSent}
use os.Machine.{Kernel}
use os.Console.Bounds.{SameOutside}
use os.Machine.{cli}
use os.Pic.{disable_irq}
use os.Keyboard.Edit.{edit_of}
use os.Pic.{enable_irq}
use os.Pic.Masks.{is_masked}
use os.Format.{itoa}
use os.Keyboard.{keyboard_handler}
use os.Files.{load32}
use os.Memory.{memcpy}
use os.Memory.{memmove}
use os.Format.Digits.{number}
use os.Terminal.Switch.{page}
use os.Console.{putc}
use os.Machine.{returns}
use os.Rtc.{rtc_read}
use os.Rtc.{rtc_write}
use os.Machine.{sti}
use os.Terminal.{switch_terminals}
use os.Terminal.{terminal_read}
use os.Rtc.Tick.{ticks}

switch_terminals_back_example :
    let k' = switch_terminals 2 0 (switch_terminals 0 2 machine) in
    (k'.terminal_num ≡ 0)
    × (k'.console.screen_x ≡ machine.console.screen_x)
    × (k'.console.screen_y ≡ machine.console.screen_y)
    × ((j : ℕ) → j < 4096 → k'.console.video j ≡ machine.console.video j)
    × ((t j : ℕ) → t ≢ 0 → j < 4096 → page k' t j ≡ page machine t j)
switch_terminals_back_example = switch_terminals_back 0 2 machine (λ e. omega arith)

terminal_read_lem_example :
    let t = machine.terminal machine.terminal_num in
    (buf' : Bytes) × (k' : Kernel) × (terminal_read 0 zeros 128 machine
      ≡ returns (t.buffer_ct + 1) buf' k')
    × ((j : ℕ) → j < t.buffer_ct → buf' j ≡ t.keyboard_buffer j)
    × ((buf' t.buffer_ct ≡ b'\n') ⊎ (buf' t.buffer_ct ≡ 0))
    × (((k'.terminal machine.terminal_num).buffer_ct ≡ 0)
        × ((k'.terminal machine.terminal_num).enter_read ≡ 0))
terminal_read_lem_example =
    terminal_read_lem machine 0 zeros 128
      (record { own = refl; shown = refl; entered = λ e. omega arith }) (omega arith)
      ((omega arith, omega arith, omega arith))

putc-IsPlaced_example :
    IsPlaced (putc (b'a') (machine.console))
    × SameOutside (machine.console) (putc (b'a') (machine.console))
putc-IsPlaced_example =
    putc-IsPlaced (b'a') (machine.console) (inl ((omega arith, inl (omega arith)), omega arith))
      (λ e. omega arith)

keyboard_handler-Edited_example :
    Edited (edit_of machine.keys 0x1E) machine (keyboard_handler 0x1E machine)
    × ((j : ℕ) → ((keyboard_handler 0x1E machine).terminal j).buffer_ct ≤ 127)
keyboard_handler-Edited_example = keyboard_handler-Edited 0x1E machine (λ j. omega arith)

irq_masks_example :
    (is_masked (enable_irq 8 (machine.hardware)) 2
      ≡ (if 8 == 2 then false else is_masked (machine.hardware) 2))
    × (is_masked (disable_irq 8 (machine.hardware)) 2
        ≡ (if 8 == 2 then true else is_masked (machine.hardware) 2))
    × HasByteMasks (enable_irq 8 (machine.hardware))
    × HasByteMasks (disable_irq 8 (machine.hardware))
    × IsSent 8 (machine.hardware) (enable_irq 8 (machine.hardware))
    × IsSent 8 (machine.hardware) (disable_irq 8 (machine.hardware))
irq_masks_example =
    irq_masks (machine.hardware) 8 2 (record { master = omega arith; slave = omega arith })
      (omega arith) (omega arith)

rtc_write_lem_example :
    ((four ≡ 4) × IsFrequency (load32 (char_at (64 ∷ [])) 0)
      → rtc_write 2 (char_at (64 ∷ [])) four machine ≡ (
        0,
        sti (record machine {
          rtc = record (machine.rtc) {
            desired_virtualized_frequency =
                update machine.rtc.desired_virtualized_frequency machine.schedule_idx
                  (load32 (char_at (64 ∷ [])) 0);
          };
        }),
      ))
    × (¬ ((four ≡ 4) × IsFrequency (load32 (char_at (64 ∷ [])) 0))
        → rtc_write 2 (char_at (64 ∷ [])) four machine ≡ (minus_one, cli machine))
rtc_write_lem_example = rtc_write_lem 2 (char_at (64 ∷ [])) four machine (ground arith)

ticks-clears_example :
    let r' = ticks ((1 ∷ 2 ∷ 1 ∷ 1 ∷ 2 ∷ 2 ∷ 1 ∷ 2 ∷ []) ++ 0 ∷ []) (machine.rtc) in
    (r'.interrupt_flag 0 ≡ 0)
    × (k' : Kernel) × (rtc_read 2 zeros 4 (record machine { rtc = r'; schedule_idx = 0 })
        ≡ returns 0 zeros k')
    × (k'.rtc.interrupt_flag 0 ≡ 1)
ticks-clears_example =
    ticks-clears (1 ∷ 2 ∷ 1 ∷ 1 ∷ 2 ∷ 2 ∷ 1 ∷ 2 ∷ []) 0 (machine.rtc) 2 4 zeros machine
      (record { terminal = omega arith; turn = omega arith; low = omega arith; high = omega arith })
      (omega arith) (ground arith)

itoa_lem_example :
    (n : ℕ) × IsNumeral 16 n (itoa 0x1E zeros 16) × (number 16 n (itoa 0x1E zeros 16) ≡ 0x1E)
itoa_lem_example = itoa_lem 0x1E 16 zeros (omega arith) (omega arith) (omega arith)

memcpy_lem_example :
    memcpy 2 5 6 lines 4 ≡ (if leb 2 4 && ltb 4 (2 + 6) then lines (5 + (4 - 2)) else lines 4)
memcpy_lem_example = memcpy_lem 2 5 6 lines 4 (inl (omega arith))

memmove_lem_example :
    memmove 5 2 6 lines 7 ≡ (if leb 5 7 && ltb 7 (5 + 6) then lines (2 + (7 - 5)) else lines 7)
memmove_lem_example = memmove_lem 5 2 6 lines 7
