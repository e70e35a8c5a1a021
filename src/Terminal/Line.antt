-- ===== src/Terminal/Line.antt =====
-- `terminal_read`: the line that was typed reaches the process.
use os.Terminal.{rounds}
use os.Common.{
  ℕ, ◌+◌, ◌^◌, ◌≤◌, ◌<◌, ◌≡◌, refl, ◌≢◌, ◌⊎◌, true, false, ◌||◌, arith, ◌==◌, if◌then◌else◌, sub32,
  is_neg, slt, Bytes, copy_lem,
}
use os.Machine.{Terminal, Kernel, scheduled, returns}
use os.Pic.{disable_irq_of}
use os.Terminal.{clear_buffer, copy_line, final_line, line_taken, terminal_read}

-- The scheduled process belongs to the terminal on the screen, and enter was pressed there.
pub record IsReady (k : Kernel) : Type 0 where
  pub own : (k.pcbs (scheduled k)).terminal_num ≡ k.terminal_num
  pub shown : k.terminal_num ≡ k.schedule_idx
  pub entered : (k.terminal k.terminal_num).enter_read ≢ 0

-- The line with its newline fits the buffer of the process.
abbrev pub Fits : Kernel → ℕ → Type 0
Fits k n =
    ((k.terminal k.terminal_num).buffer_ct < n)
    × ((k.terminal k.terminal_num).buffer_ct ≤ 127)
    × (n < 2 ^ 31)

copy_line_lem :
    (t : Terminal) (buf : Bytes) (n j : ℕ)
    → t.buffer_ct < n
    → t.buffer_ct ≤ 127
    → n < 2 ^ 31
    → j ≤ t.buffer_ct
    → copy_line t buf n j ≡ (if j == t.buffer_ct then b'\n' else t.keyboard_buffer j)
unfolding copy_line
copy_line_lem t buf n j h1 h2 h3 hj = ground (
  arith,
  copy_lem 127 0 0 t.keyboard_buffer buf j,
  copy_lem (rounds (sub32 n 1)) 0 0 t.keyboard_buffer buf j,
)

terminal_read-ready :
    (k : Kernel) (fd : ℕ) (buf : Bytes) (n : ℕ)
    → IsReady k
    → fd ≤ 1
    → n < 2 ^ 31
    → let masked = disable_irq_of 0 (disable_irq_of 0 k) in
      terminal_read fd buf n k
      ≡ returns
          ((k.terminal k.terminal_num).buffer_ct + 1)
          (final_line k.terminal_num buf n masked)
          (line_taken k.terminal_num masked)
unfolding terminal_read
terminal_read-ready k fd buf n ready hf hn =
    let pressed : ((k.terminal k.terminal_num).enter_read == 0) ≡ false = ground arith in
    let here : (k.terminal_num == k.schedule_idx) ≡ true = ground arith in
    let good : (is_neg n || slt 1 fd) ≡ false = ground arith in rw (ready.own, pressed, here, good)

module _ (t : ℕ) (buf : Bytes) (n : ℕ) (k : Kernel) (own : t ≡ k.terminal_num)
    (fits : Fits k n) where
  final_line-chars :
      (j : ℕ)
      → j < (k.terminal t).buffer_ct
      → final_line t buf n k j ≡ (k.terminal t).keyboard_buffer j
  unfolding final_line
  final_line-chars j h = ground (arith, copy_line_lem (k.terminal t) buf n j)

  final_line-end :
      (final_line t buf n k (k.terminal t).buffer_ct ≡ b'\n')
      ⊎ (final_line t buf n k (k.terminal t).buffer_ct ≡ 0)
  unfolding final_line
  final_line-end = ground (arith, copy_line_lem (k.terminal t) buf n (k.terminal t).buffer_ct)

  line_taken-empty :
      (((line_taken t k).terminal t).buffer_ct ≡ 0) × (((line_taken t k).terminal t).enter_read ≡ 0)
  unfolding line_taken clear_buffer
  line_taken-empty = ground arith

-- When the line is ready and with its newline fits the count, `terminal_read` of `fd` 0 or 1 returns
-- its length with the newline. The buffer holds the
-- characters of the line, and a newline or a NUL behind them. The terminal's line is empty
-- afterwards, and the next read waits for enter again.
pub terminal_read_lem :
    (k : Kernel) (fd : ℕ) (buf : Bytes) (n : ℕ)
    → IsReady k
    → fd ≤ 1
    → Fits k n
    → let t = k.terminal k.terminal_num in
      (buf' : Bytes) × (k' : Kernel) × (terminal_read fd buf n k
        ≡ returns (t.buffer_ct + 1) buf' k')
      × ((j : ℕ) → j < t.buffer_ct → buf' j ≡ t.keyboard_buffer j)
      × ((buf' t.buffer_ct ≡ b'\n') ⊎ (buf' t.buffer_ct ≡ 0))
      × (((k'.terminal k.terminal_num).buffer_ct ≡ 0)
          × ((k'.terminal k.terminal_num).enter_read ≡ 0))
terminal_read_lem k fd buf n ready hf fits =
    let t = k.terminal_num in
    let masked = disable_irq_of 0 (disable_irq_of 0 k) in
    (
      final_line t buf n masked,
      line_taken t masked,
      terminal_read-ready k fd buf n ready hf fits.2,
      λ j h. final_line-chars t buf n masked refl fits j h,
      final_line-end t buf n masked refl fits,
      line_taken-empty t buf n masked refl fits,
    )
