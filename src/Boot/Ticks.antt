-- ===== src/Boot/Ticks.antt =====
-- Interrupts of any kind, with no call of a program between them, up to the third tick of the timer.
use os.Common.{
  ℕ, suc, ◌+◌, ◌≤◌, ◌≡◌, inl, inr, true, false, arith, ◌==◌, if◌then◌else◌, Bool-cases, Bytes,
}
use os.Machine.{Kernel, cli, sti}
use os.Pic.{send_eoi, send_eoi_of}
use os.Keyboard.{keyboard_handler}
use os.Rtc.{rtc_handler}
use os.Processes.{Outcome}
use os.Processes.Halt.{last_kernel}
use os.Interrupts.{hardware_handler}
use os.Keyboard.Typed.{keyboard_handler-Edited}
use os.System.Entries.{key_action-IsKeyed}
use os.Common.{by_branch}
use os.Rtc.{tick}
use os.System.{IsSound}
use os.Boot.Launch.{IsStarting, masked_flag, tick-IsStarting}

key-IsStarting : (t c : ℕ) (k : Kernel) → IsStarting t k → IsStarting t (keyboard_handler c k)
unfolding keyboard_handler send_eoi
key-IsStarting t c k s =
    let f = key_action-IsKeyed c (cli k) in
    record {
      few = s.few;
      count = rw (f.tasks) s.count;
      current = rw (f.current) s.current;
      turn = rw (f.turn) s.turn;
      shells = rw (f.tasks) s.shells;
      free = rw (f.pcbs) s.free;
      queued = rw (f.tasks) s.queued;
      lines = (keyboard_handler-Edited c k s.lines).1;
      shown = elim f.shown [ inl e ↦ rw e s.shown | inr h ↦ h ];
      masks = record { master = rw (f.master) s.masks.master; slave = rw (f.slave) s.masks.slave };
      clock = rw (f.rtc) s.clock;
      rates = rw (f.rtc) s.rates;
      image_shell = rw (f.fs) s.image_shell;
    }

clock-IsStarting : (t : ℕ) (k : Kernel) → IsStarting t k → IsStarting t (rtc_handler k)
unfolding rtc_handler tick
clock-IsStarting t k s = record {
  few = s.few;
  count = s.count;
  current = s.current;
  turn = s.turn;
  shells = s.shells;
  free = s.free;
  queued = s.queued;
  lines = s.lines;
  shown = s.shown;
  masks = record { master = s.masks.master; slave = s.masks.slave };
  clock = ground (arith, s.clock);
  rates = λ i h. let r = s.rates i h in (ground (arith, r.0), ground (arith, r.1));
  image_shell = s.image_shell;
}

eoi-IsStarting : (t n : ℕ) (k : Kernel) → IsStarting t k → IsStarting t (send_eoi_of n k)
unfolding send_eoi
eoi-IsStarting t n k s = record {
  few = s.few;
  count = s.count;
  current = s.current;
  turn = s.turn;
  shells = s.shells;
  free = s.free;
  queued = s.queued;
  lines = s.lines;
  shown = s.shown;
  masks = record { master = ground (arith, s.masks.master); slave = ground (arith, s.masks.slave) };
  clock = s.clock;
  rates = s.rates;
  image_shell = s.image_shell;
}

-- the ticks of the timer, counted
abbrev pub ticks_with : ℕ → ℕ → ℕ
ticks_with vector n = if vector == 32 then n + 1 else n

-- A kernel after interrupts that came one after the other, `n` of them from the timer. Behind a tick
-- it is the kernel of the shell that the tick has started.
pub data Interrupted (k : Kernel) : ℕ → Kernel → Type 0 where
  none_yet : Interrupted k 0 k
  interrupt :
      {n : ℕ} {m : Kernel} (vector scan_code : ℕ) (garbage : Bytes)
      → Interrupted k n m
      → Interrupted k
          (ticks_with vector n)
          (last_kernel (hardware_handler vector scan_code garbage m))

hardware-IsStarting :
    (t vector scan_code : ℕ) (garbage : Bytes) (k : Kernel)
    → IsStarting t k
    → ticks_with vector t ≤ 3
    → IsStarting (ticks_with vector t) (last_kernel (hardware_handler vector scan_code garbage k))
unfolding hardware_handler
hardware-IsStarting t vector scan_code garbage k s few =
    let off = masked_flag t k false s in
    let key = keyboard_handler scan_code (cli k) in
    let clock = rtc_handler (cli k) in
    elim (Bool-cases (vector == 32)) [
      | inl e ↦
          let up : t + 1 ≡ suc t = omega arith in
          let fewer = rw e at few in
          rw (hardware_handler, e, up)
            (tick-IsStarting t (cli k) garbage off (omega (arith, fewer)))
      | inr e ↦
          rw (hardware_handler, e)
            (by_branch (λ (o : Outcome). IsStarting t (last_kernel o)) (vector == 33)
              (eoi-IsStarting t 1 (sti key)
                (masked_flag t key true (key-IsStarting t scan_code (cli k) off)))
              (by_branch (λ (o : Outcome). IsStarting t (last_kernel o)) (vector == 40)
                (eoi-IsStarting t 8 (sti clock)
                  (masked_flag t clock true (clock-IsStarting t (cli k) off)))
                off))
    ]

-- From a kernel that has started no shell, whatever interrupts of the timer, the keyboard, the clock
-- and other lines come, with scan codes as they may be: up to the third tick of the timer, each tick
-- has started one more shell.
pub Interrupted-IsStarting :
    {k : Kernel} {n : ℕ} {k' : Kernel}
    → Interrupted k n k'
    → IsStarting 0 k
    → n ≤ 3
    → IsStarting n k'
Interrupted-IsStarting none_yet s few = s
Interrupted-IsStarting (interrupt {n} {m} vector scan_code garbage before) s few =
    hardware-IsStarting n vector scan_code garbage m
      (Interrupted-IsStarting before s (ground arith)) few

-- With three shells started the kernel is sound, and each terminal's place of the queue holds its
-- shell.
pub IsStarting-IsSound : (k : Kernel) → IsStarting 3 k → IsSound k
IsStarting-IsSound k s = record {
  lines = s.lines;
  shown = s.shown;
  turn = omega (arith, s.turn);
  all_run = omega (arith, s.count);
  settled = omega (arith, s.count);
  masks = s.masks;
  clock = s.clock;
  rates = s.rates;
}
