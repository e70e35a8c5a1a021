-- ===== src/Boot/Entry.antt =====
-- What `entry` leaves: a kernel that waits for the timer.
use os.Common.{ℕ, ◌+◌, ◌≤◌, ◌<◌, ◌≡◌, refl, true, false, ◌&&◌, [], arith, ◌==◌, codes}
use os.Machine.{Console, Kernel, Hardware, sti, slot}
use os.Pic.{enable_irq, clear_bit, i8259_init}
use os.Keyboard.{keyboard_init}
use os.Rtc.{rtc_init}
use os.Files.{load32, FileSystem, init_filesys}
use os.Scheduler.{pit_init}
use os.Interrupts.{init_idt, populate_idt}
use os.Boot.{
  Environment, left_by, running, SegDesc, info, check_flag, say, say_info, say_rest, init_devices,
  start_tasks, entry,
}
use os.Boot.Shell.{HasShell}
use os.Boot.Launch.{IsStarting}
use os.Boot.Ticks.{Interrupted, Interrupted-IsStarting, IsStarting-IsSound}
use os.System.{IsSound, Reach}
use os.System.Invariant.{Reach-IsSound}
use os.Console.{clear}
use os.Terminal.{on_console}

-- The globals as the compiler initialises them, as far as they matter, and no process in the memory
-- of the first three PCBs.
pub record IsFresh (k : Kernel) : Type 0 where
  pub master : k.hardware.master_mask ≡ 0xFF
  pub slave : k.hardware.slave_mask ≡ 0xFF
  pub lines : (i : ℕ) → (k.terminal i).buffer_ct ≤ 127
  pub shown : k.terminal_num < 3
  pub clock : k.rtc.rtc_idx < 3
  pub rates : (i : ℕ) → i < 3 → k.rtc.desired_virtualized_frequency i ≡ 2
  pub free : (q : ℕ) → q < 3 → (k.pcbs (slot q)).active ≡ 0

-- the image that the first module holds
abbrev pub image : Environment → ℕ → FileSystem
image env addr =
    let mod_start = load32 env.memory (info env.memory addr 6) in
    init_filesys (λ i. env.memory (mod_start + i))

-- Neither the interrupt flag nor the screen matters to it.
shown-IsStarting :
    (f : Console → Console) (k : Kernel) → IsStarting 0 k → IsStarting 0 (sti (on_console f k))
shown-IsStarting f k s = record {
  few = s.few;
  count = s.count;
  current = s.current;
  turn = s.turn;
  shells = s.shells;
  free = s.free;
  queued = s.queued;
  lines = s.lines;
  shown = s.shown;
  masks = record { master = s.masks.master; slave = s.masks.slave };
  clock = s.clock;
  rates = s.rates;
  image_shell = s.image_shell;
}

-- the masks that the four initialisations leave
masks_lem :
    (h : Hardware)
    → h.master_mask ≡ 0xFF
    → h.slave_mask ≡ 0xFF
    → let h' = enable_irq 0 (enable_irq 8 (enable_irq 1 (i8259_init h))) in
      (h'.master_mask ≡ 0xF8) × (h'.slave_mask ≡ 0xFE)
unfolding enable_irq clear_bit i8259_init
masks_lem h master slave = (rw master refl, rw slave refl)

devices_lem :
    (env : Environment) (addr : ℕ) (k : Kernel)
    → IsFresh k
    → HasShell (image env addr)
    → let k' = start_tasks (init_devices env addr k) in
      (k'.hardware.master_mask ≡ 0xF8) × (k'.hardware.slave_mask ≡ 0xFE) × IsStarting 0 k'
unfolding init_devices start_tasks pit_init keyboard_init rtc_init enable_irq
devices_lem env addr k s shell =
    let m = masks_lem k.hardware s.master s.slave in
    (
      m.0,
      m.1,
      record {
        few = omega arith;
        count = refl;
        current = refl;
        turn = refl;
        shells = refl;
        free = λ q low high. s.free q high;
        queued = λ i none_below. absurd (omega arith);
        lines = s.lines;
        shown = s.shown;
        masks = record { master = rw m.0 (omega arith); slave = rw m.1 (omega arith) };
        clock = s.clock;
        rates = λ i h. (ground (arith, s.rates i h), ground (arith, s.rates i h));
        image_shell = shell;
      },
    )

-- the kernel when `entry` has printed what the loader tells
abbrev before : Environment → ℕ → Kernel → Kernel
before env addr k =
    let k1 = on_console (say_rest env addr) (on_console (say_info env addr) (on_console clear k)) in
    record k1 { tasks = record (k1.tasks) { esp0 = 0x800000 } }

before-IsFresh :
    (env : Environment) (addr : ℕ) (k : Kernel) → IsFresh k → IsFresh (before env addr k)
before-IsFresh env addr k fresh = record {
  master = fresh.master;
  slave = fresh.slave;
  lines = fresh.lines;
  shown = fresh.shown;
  clock = fresh.clock;
  rates = fresh.rates;
  free = fresh.free;
}

entry-running :
    (env : Environment) (magic addr : ℕ) (k : Kernel)
    → magic ≡ 0x2BADB002
    → (check_flag (info env.memory addr 0) 4 && check_flag (info env.memory addr 0) 5) ≡ false
    → (ldt tss : SegDesc) × (entry env magic addr k
        ≡ running ldt tss (populate_idt env.linkage (init_idt env.idt)) (
            sti (
              on_console
                (say env (codes "Enabling Interrupts\n") [])
                (start_tasks (init_devices env addr (before env addr k))))))
unfolding entry
entry-running env magic addr k valid exclusive =
    let t : (magic == 0x2BADB002) ≡ true = ground arith in rw (entry, t, exclusive) (_, _, refl)

-- From a boot loader that gives the magic number of the Multiboot specification, does not set both
-- of the flags 4 and 5, and gives as first module an image with an executable `shell`: `entry` comes
-- to its end, with the lines of the timer, the keyboard, the slave and the clock unmasked and all
-- others masked, and with interrupts enabled. Whatever interrupts come then, with no call of a
-- program between them, when three of them were the timer's the queue of the scheduler holds the
-- three shells, and after any sequence of interrupts, exceptions and calls from there on the kernel
-- is sound. The globals are as the compiler initialises them, and no interrupt comes before the end
-- of `entry`.
pub entry_lem :
    (env : Environment) (magic addr : ℕ) (k third later : Kernel)
    → magic ≡ 0x2BADB002
    → (check_flag (info env.memory addr 0) 4 && check_flag (info env.memory addr 0) 5) ≡ false
    → HasShell (image env addr)
    → IsFresh k
    → Interrupted (left_by (entry env magic addr k)) 3 third
    → Reach third later
    → let booted = left_by (entry env magic addr k) in
      (ldt tss : SegDesc) × (entry env magic addr k
        ≡ running ldt tss (populate_idt env.linkage (init_idt env.idt)) booted)
      × (booted.hardware.master_mask ≡ 0xF8)
      × (booted.hardware.slave_mask ≡ 0xFE)
      × (booted.hardware.interrupts ≡ true)
      × ((i : ℕ) → i < 3 → third.tasks.schedule_array i ≡ i)
      × IsSound later
entry_lem env magic addr k third later valid exclusive shell fresh come reached =
    let run = entry-running env magic addr k valid exclusive in
    let (master, slave, starting) =
      devices_lem env addr _ (before-IsFresh env addr k fresh) shell in
    let hello = say env (codes "Enabling Interrupts\n") [] in
    let on = shown-IsStarting hello _ starting in
    let started = Interrupted-IsStarting (rw run.2 at come) on (omega arith) in
    (
      run.0,
      run.1,
      rw run.2 refl,
      rw run.2 master,
      rw run.2 slave,
      rw run.2 refl,
      started.queued,
      Reach-IsSound reached (IsStarting-IsSound third started),
    )
