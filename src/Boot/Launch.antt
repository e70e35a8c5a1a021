-- ===== src/Boot/Launch.antt =====
-- A tick of the timer starts a shell while there are fewer than three.
use os.Common.{
  ℕ, zero, suc, ◌+◌, ◌-◌, ◌≤◌, ◌<◌, ◌≡◌, refl, ap, ◌∙◌, ◌≢◌, Bool, true, false, arith, ◌==◌, add32,
  sub32, slt, Bytes, codes,
}
use os.Machine.{Kernel, slot, cli}
use os.Pic.{send_eoi, send_eoi_of}
use os.Pic.Masks.{HasByteMasks}
use os.Console.{clear}
use os.Terminal.{on_console, switch_terminals, switch_video_mem}
use os.Processes.{enters, pcb_of, with_pcb, execute}
use os.Processes.Halt.{last_kernel}
use os.Scheduler.{save_registers, scheduler}
use os.Interrupts.{pit_handler}
use os.Boot.Shell.{HasShell, IsLaunched, execute-IsLaunched}

-- The kernel when `t` shells are started and no other program is.
pub record IsStarting (t : ℕ) (k : Kernel) : Type 0 where
  pub few : t ≤ 3
  pub count : k.tasks.pit_count ≡ t
  pub current : k.process_num ≡ sub32 t 1
  pub turn : k.schedule_idx ≡ t - 1
  pub shells : k.tasks.shell_process_count ≡ t
  pub free : (q : ℕ) → t ≤ q → q < 3 → (k.pcbs (slot q)).active ≡ 0
  pub queued : (i : ℕ) → i < t → k.tasks.schedule_array i ≡ i
  pub lines : (i : ℕ) → (k.terminal i).buffer_ct ≤ 127
  pub shown : k.terminal_num < 3
  pub masks : HasByteMasks k.hardware
  pub clock : k.rtc.rtc_idx < 3
  pub rates :
      (i : ℕ)
      → i < 3
      → (0 < k.rtc.desired_virtualized_frequency i) × (k.rtc.desired_virtualized_frequency i ≤ 1024)
  pub image_shell : HasShell k.fs

-- the kernel `m` in which the scheduler calls `execute`, when it was entered in `k`
record IsPrepared (t : ℕ) (k m : Kernel) : Type 0 where
  tasks : m.tasks ≡ k.tasks
  current : m.process_num ≡ k.process_num
  turn : m.schedule_idx ≡ t
  pcbs : (q : ℕ) → q ≢ slot k.process_num → m.pcbs q ≡ k.pcbs q
  lines : (i : ℕ) → (m.terminal i).buffer_ct ≡ (k.terminal i).buffer_ct
  shown : m.terminal_num ≡ t
  master : m.hardware.master_mask ≡ k.hardware.master_mask
  slave : m.hardware.slave_mask ≡ k.hardware.slave_mask
  rtc : m.rtc ≡ k.rtc
  fs : m.fs ≡ k.fs

-- the two kernels that the scheduler prepares
abbrev first : Kernel → Kernel
first k = switch_terminals 0 0 (on_console clear (send_eoi_of 0 k))

abbrev next : Kernel → Kernel
next k =
    let t = k.tasks.pit_count in
    let saved = save_registers k in
    let p = record (pcb_of saved k.process_num) { is_shell = 1; active = 1 } in
    let waiting = send_eoi_of 0 (with_pcb k.process_num p saved) in
    switch_terminals (t - 1) t (record waiting { schedule_idx = add32 k.schedule_idx 1 })

first-IsPrepared : (k : Kernel) → IsStarting 0 k → IsPrepared 0 k (first k)
unfolding send_eoi switch_terminals switch_video_mem
first-IsPrepared k s = record {
  tasks = refl;
  current = refl;
  turn = s.turn ∙ ground arith;
  pcbs = λ q other. refl;
  lines = λ i. ground arith;
  shown = refl;
  master = ground arith;
  slave = ground arith;
  rtc = refl;
  fs = refl;
}

next-IsPrepared :
    (t : ℕ) (k : Kernel) → IsStarting (suc t) k → suc t < 3 → IsPrepared (suc t) k (next k)
unfolding send_eoi switch_terminals switch_video_mem
next-IsPrepared t k s early = record {
  tasks = refl;
  current = refl;
  turn = ground (arith, s.turn);
  pcbs = λ q other. ground arith;
  lines = λ i. ground arith;
  shown = s.count;
  master = ground arith;
  slave = ground arith;
  rtc = refl;
  fs = refl;
}

launched-IsStarting :
    (t : ℕ) (k m after : Kernel)
    → t < 3
    → IsStarting t k
    → IsPrepared t k m
    → IsLaunched t m after
    → after.tasks.shell_process_count ≡ m.tasks.shell_process_count + 1
    → IsStarting (suc t) after
launched-IsStarting t k m after early s p l shells =
    let count : m.tasks.pit_count ≡ t = ap (λ a. a.pit_count) p.tasks ∙ s.count in
    record {
      few = omega arith;
      count = l.count ∙ omega (arith, count);
      current = l.current ∙ omega arith;
      turn = l.turn ∙ p.turn ∙ omega arith;
      shells = shells ∙ omega (arith, ap (λ a. a.shell_process_count) p.tasks, s.shells);
      free = λ q low high.
          let other : slot q ≢ slot t = λ e. omega (arith, e) in
          let older : slot q ≢ slot k.process_num = λ e. omega (arith, s.current, e) in
          ap (λ c. c.active) (l.others (slot q) other ∙ p.pcbs (slot q) older)
          ∙ s.free q (omega arith) high;
      queued = λ i low.
          ap (λ f. f i) l.queued
          ∙ ground (arith, count, ap (λ a. a.schedule_array i) p.tasks, s.queued i);
      lines = λ i. rw (l.lines i ∙ p.lines i) (s.lines i);
      shown = rw (l.shown ∙ p.shown) early;
      masks = record {
        master = rw (l.master ∙ p.master) s.masks.master;
        slave = rw (l.slave ∙ p.slave) s.masks.slave;
      };
      clock = rw (l.rtc ∙ p.rtc) s.clock;
      rates = rw (l.rtc ∙ p.rtc) s.rates;
      image_shell = rw (l.fs ∙ p.fs) s.image_shell;
    }

pub masked_flag :
    (t : ℕ) (k : Kernel) (b : Bool)
    → IsStarting t k
    → IsStarting t (record k { hardware = record (k.hardware) { interrupts = b } })
masked_flag t k b s = record {
  few = s.few;
  count = s.count;
  current = s.current;
  turn = s.turn;
  shells = s.shells;
  free = s.free;
  queued = s.queued;
  lines = s.lines;
  shown = s.shown;
  masks = record { master = s.masks.master; slave = s.masks.slave };
  clock = s.clock;
  rates = s.rates;
  image_shell = s.image_shell;
}

-- the outcome of a tick, where the scheduler starts a shell
starts :
    (t : ℕ) (k m : Kernel) (garbage : Bytes)
    → t < 3
    → IsStarting t k
    → IsPrepared t k m
    → (entry_point : ℕ) × (after : Kernel) × (execute (codes "shell") garbage m
        ≡ enters entry_point after)
      × IsStarting (suc t) after
starts t k m garbage early s p =
    let count : m.tasks.pit_count ≡ t = ap (λ a. a.pit_count) p.tasks ∙ s.count in
    let number : m.tasks.shell_process_count ≡ t =
      ap (λ a. a.shell_process_count) p.tasks ∙ s.shells in
    let at : m.process_num ≡ sub32 t 1 = p.current ∙ s.current in
    let older : slot t ≢ slot k.process_num = λ e. omega (arith, s.current, e) in
    let free = ap (λ c. c.active) (p.pcbs (slot t) older) ∙ s.free t (omega arith) early in
    let run =
      execute-IsLaunched garbage t m (rw p.fs s.image_shell) (omega (arith, at)) (omega (arith, at))
        early free (omega (arith, count)) (omega (arith, number)) in
    (run.0, run.1, run.2, launched-IsStarting t k m run.1 early s p run.3 run.4)

tick-first :
    (k : Kernel) (garbage : Bytes)
    → IsStarting 0 k
    → IsStarting 1 (last_kernel (pit_handler garbage k))
unfolding pit_handler scheduler
tick-first k garbage s =
    let s0 = masked_flag 0 k false s in
    let t : (k.tasks.pit_count == 0) ≡ true = ground (arith, s.count) in
    let run =
      starts 0 (cli k) (first (cli k)) garbage (omega arith) s0 (first-IsPrepared (cli k) s0) in
    rw (pit_handler, scheduler, t, run.2) run.3

tick-next :
    (t : ℕ) (k : Kernel) (garbage : Bytes)
    → IsStarting (suc t) k
    → suc t < 3
    → IsStarting (suc (suc t)) (last_kernel (pit_handler garbage k))
unfolding pit_handler scheduler
tick-next t k garbage s early =
    let s0 = masked_flag (suc t) k false s in
    let t0 : (k.tasks.pit_count == 0) ≡ false = ground (arith, s.count) in
    let t1 : slt k.tasks.pit_count 3 ≡ true = ground (arith, s.count) in
    let run =
      starts (suc t) (cli k) (next (cli k)) garbage early s0 (next-IsPrepared t (cli k) s0 early) in
    rw (pit_handler, scheduler, t0, t1, run.2) run.3

-- a tick while fewer than three shells are started
pub tick-IsStarting :
    (t : ℕ) (k : Kernel) (garbage : Bytes)
    → IsStarting t k
    → t < 3
    → IsStarting (suc t) (last_kernel (pit_handler garbage k))
tick-IsStarting zero k garbage s early = tick-first k garbage s
tick-IsStarting (suc t) k garbage s early = tick-next t k garbage s early
