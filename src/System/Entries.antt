-- ===== src/System/Entries.antt =====
-- Each entry of the kernel keeps it sound.
use os.Common.{ap}
use os.Common.{ℕ, ◌<◌, ◌≡◌, ◌⊎◌, inl, inr, true, false, none, some, arith, ◌==◌, slt, Bytes}
use os.Machine.{Kernel, cli, sti}
use os.Pic.{send_eoi, send_eoi_of}
use os.Rtc.{tick, rtc_handler}
use os.Terminal.{switch_terminals, switch_video_mem}
use os.Keyboard.{
  wrap_row, space_handler, press_enter, clear_screen, press_backspace, press_space, press_tab,
  press_symbol, press_printable, press, push, key_action, keyboard_handler,
}
use os.Keyboard.Typed.{keyboard_handler-Edited}
use os.Scheduler.{finish_launch, restore, switch_process, scheduler}
use os.Processes.{Outcome, returned, halt}
use os.Terminal.{on_console}
use os.Console.{puts}
use os.Processes.Halt.{last_kernel}
use os.Interrupts.{pit_handler, hardware_handler, exc_handler, exception_name}
use os.Common.{by_branch}
use os.System.Frame.{Keeps, flag_set, shows}
use os.System.Programs.{halt-Keeps}
use os.System.{IsSound}

pub Keeps-IsSound : {k k' : Kernel} → Keeps k k' → IsSound k → IsSound k'
Keeps-IsSound {k} {k'} f s = record {
  lines = λ t. rw (f.lines t) (s.lines t);
  shown = rw (f.shown) s.shown;
  turn = rw (f.turn) s.turn;
  all_run = rw (f.all_run) s.all_run;
  settled = rw (f.all_run) s.settled;
  masks = record { master = rw (f.master) s.masks.master; slave = rw (f.slave) s.masks.slave };
  clock = rw (f.rtc) s.clock;
  rates = rw (f.rtc) s.rates;
}

-- what a key leaves alone, and where it can lead
pub record IsKeyed (k k' : Kernel) : Type 0 where
  pub shown : (k'.terminal_num ≡ k.terminal_num) ⊎ (k'.terminal_num < 3)
  pub turn : k'.schedule_idx ≡ k.schedule_idx
  pub tasks : k'.tasks ≡ k.tasks
  pub current : k'.process_num ≡ k.process_num
  pub pcbs : k'.pcbs ≡ k.pcbs
  pub fs : k'.fs ≡ k.fs
  pub master : k'.hardware.master_mask ≡ k.hardware.master_mask
  pub slave : k'.hardware.slave_mask ≡ k.hardware.slave_mask
  pub rtc : k'.rtc ≡ k.rtc

press-IsKeyed : (c : ℕ) (k : Kernel) → IsKeyed k (press c k)
unfolding press press_backspace press_space press_tab press_symbol press_printable push
    space_handler wrap_row
press-IsKeyed c k = record {
  shown = inl (ground arith);
  turn = ground arith;
  tasks = ground arith;
  current = ground arith;
  pcbs = ground arith;
  fs = ground arith;
  master = ground arith;
  slave = ground arith;
  rtc = ground arith;
}

pub key_action-IsKeyed : (c : ℕ) (k : Kernel) → IsKeyed k (key_action c k)
unfolding key_action press_enter clear_screen switch_terminals switch_video_mem
key_action-IsKeyed c k =
    let pressed = press-IsKeyed c k in
    record {
      shown = ground (arith, pressed.shown);
      turn = ground (arith, pressed.turn);
      tasks = ground (arith, pressed.tasks);
      current = ground (arith, pressed.current);
      pcbs = ground (arith, pressed.pcbs);
      fs = ground (arith, pressed.fs);
      master = ground (arith, pressed.master);
      slave = ground (arith, pressed.slave);
      rtc = ground (arith, pressed.rtc);
    }

keyboard_handler-IsSound : (c : ℕ) (k : Kernel) → IsSound k → IsSound (keyboard_handler c k)
unfolding keyboard_handler send_eoi
keyboard_handler-IsSound c k s =
    let f = key_action-IsKeyed c (cli k) in
    record {
      lines = (keyboard_handler-Edited c k s.lines).1;
      shown = elim f.shown [ inl e ↦ rw e s.shown | inr h ↦ h ];
      turn = rw (f.turn) s.turn;
      all_run = rw (ap (λ t. t.pit_count) f.tasks) s.all_run;
      settled = rw (ap (λ t. t.pit_count) f.tasks) s.settled;
      masks = record { master = rw (f.master) s.masks.master; slave = rw (f.slave) s.masks.slave };
      clock = rw (f.rtc) s.clock;
      rates = rw (f.rtc) s.rates;
    }

rtc_handler-IsSound : (k : Kernel) → IsSound k → IsSound (rtc_handler k)
unfolding rtc_handler tick
rtc_handler-IsSound k s = record {
  lines = s.lines;
  shown = s.shown;
  turn = s.turn;
  all_run = s.all_run;
  settled = s.settled;
  masks = record { master = s.masks.master; slave = s.masks.slave };
  clock = ground (arith, s.clock);
  rates = λ t h. let r = s.rates t h in (ground (arith, r.0), ground (arith, r.1));
}

switch_process-IsSound : (k : Kernel) → IsSound k → IsSound (switch_process k)
unfolding switch_process restore finish_launch send_eoi
switch_process-IsSound k s = record {
  lines = λ t. ground (arith, s.lines t);
  shown = ground (arith, s.shown);
  turn = ground arith;
  all_run = ground (arith, s.all_run);
  settled = ground (arith, s.settled);
  masks = record { master = ground (arith, s.masks.master); slave = ground (arith, s.masks.slave) };
  clock = ground (arith, s.clock);
  rates = λ t h. let r = s.rates t h in (ground (arith, r.0), ground (arith, r.1));
}

pub pit_handler-IsSound :
    (garbage : Bytes) (k : Kernel) → IsSound k → IsSound (last_kernel (pit_handler garbage k))
unfolding pit_handler scheduler
pit_handler-IsSound garbage k s =
    let late : (k.tasks.pit_count == 0) ≡ false = ground (arith, s.all_run) in
    let done : slt k.tasks.pit_count 3 ≡ false = ground (arith, s.all_run, s.settled) in
    let off : IsSound (cli k) = Keeps-IsSound (flag_set k false) s in
    let on = switch_process-IsSound (cli k) off in
    rw (pit_handler, scheduler, late, done)
      (Keeps-IsSound (flag_set (switch_process (cli k)) true) on)

send_eoi-IsSound : (n : ℕ) (k : Kernel) → IsSound k → IsSound (send_eoi_of n k)
unfolding send_eoi
send_eoi-IsSound n k s = record {
  lines = s.lines;
  shown = s.shown;
  turn = s.turn;
  all_run = s.all_run;
  settled = s.settled;
  masks = record { master = ground (arith, s.masks.master); slave = ground (arith, s.masks.slave) };
  clock = s.clock;
  rates = s.rates;
}

pub hardware_handler-IsSound :
    (vector scan_code : ℕ) (garbage : Bytes) (k : Kernel)
    → IsSound k
    → IsSound (last_kernel (hardware_handler vector scan_code garbage k))
unfolding hardware_handler
hardware_handler-IsSound vector scan_code garbage k s =
    let P = λ (o : Outcome). IsSound (last_kernel o) in
    let off : IsSound (cli k) = Keeps-IsSound (flag_set k false) s in
    let key = keyboard_handler scan_code (cli k) in
    let clock = rtc_handler (cli k) in
    by_branch P (vector == 32) (pit_handler-IsSound garbage (cli k) off) (
      by_branch P (vector == 33)
        (send_eoi-IsSound 1 (sti key)
          (Keeps-IsSound (flag_set key true) (keyboard_handler-IsSound scan_code (cli k) off)))
        (by_branch P (vector == 40)
          (send_eoi-IsSound 8 (sti clock)
            (Keeps-IsSound (flag_set clock true) (rtc_handler-IsSound (cli k) off)))
          off))

pub exc_handler-IsSound :
    (vector garbage : ℕ) (k : Kernel)
    → IsSound k
    → IsSound (last_kernel (exc_handler vector garbage k))
unfolding exc_handler
exc_handler-IsSound vector garbage k s =
    elim (exception_name vector)
      as (λ name. IsSound (
        last_kernel (elim name [
          | none ↦ returned 0 k
          | some text ↦ halt 256 garbage (on_console (puts text) (cli k))
        ]))) [
          | none ↦ s
          | some text ↦
              let k1 = on_console (puts text) (cli k) in
              let shown : IsSound k1 =
                Keeps-IsSound (shows (puts text) (cli k)) (Keeps-IsSound (flag_set k false) s) in
              Keeps-IsSound (halt-Keeps 256 garbage k1 s.all_run s.settled) shown
        ]
