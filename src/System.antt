-- ===== src/System.antt =====
-- The kernel as a whole, once the three shells run: every way in which control enters it, from
-- intr_linkage.S, and what holds between two entries.
pub mod Frame
pub mod Invariant
pub mod Calls
pub mod Entries
pub mod Programs
pub mod Tables
use os.Common.{
  ℕ, zero, suc, ◌+◌, ◌-◌, ◌*◌, ◌/◌, ◌%◌, ◌^◌, ◌≤◌, ◌<◌, min, ◌≡◌, refl, sym, ap, ◌∙◌, ◌≢◌, ◌↔◌, ◌⊎◌,
  inl, inr, Bool, true, false, not, ◌&&◌, ◌||◌, Option, none, some, List, [], ◌∷◌, ◌++◌, arith,
  dec_lt, ℕ_discrete, ltb, leb, ◌==◌, if◌then◌else◌, ltb→lt, lt→ltb, leb→le, ==_iff, Bool-cases,
  Option-cases, u8, u32, add32, sub32, minus_one, is_neg, slt, sign_extend8, Array, Bytes, update,
  length, get_or, get_elem?, get_elem?_lem, set, char_at, copy, copy_lem, tests, holds_up_to,
  holds_at, bit_and, bit_or, codes,
}
use os.Machine.{Kernel}
use os.Pic.Masks.{HasByteMasks}
use os.Keyboard.{keyboard_handler}
use os.Rtc.{rtc_handler}
use os.Syscalls.{read, write, open_file, close, getargs}
use os.Paging.{vidmap}
use os.Syscalls.Dispatch.{after}
use os.Processes.{Outcome, halt, execute}
use os.Processes.Halt.{last_kernel}
use os.Interrupts.{pit_handler, exc_handler, hardware_handler}

-- One entry of the kernel: an interrupt, an exception or a call. The arguments are those that the
-- device, the processor or the program gives. For a call that leaves the kernel in another program
-- the kernel afterwards is the one in which that program runs. `set_handler` and `sigreturn` change
-- nothing and have no step.
pub data Step (k : Kernel) : Kernel → Type 0 where
  hardware :
      (vector scan_code : ℕ) (garbage : Bytes)
      → Step k (last_kernel (hardware_handler vector scan_code garbage k))
  exception : (vector garbage : ℕ) → Step k (last_kernel (exc_handler vector garbage k))
  halts : (status garbage : ℕ) → Step k (last_kernel (halt (u8 status) garbage k))
  executes : (command : List ℕ) (garbage : Bytes) → Step k (last_kernel (execute command garbage k))
  reads : (fd n : ℕ) (buf : Option Bytes) → Step k (after (read fd buf n k))
  writes : (fd n : ℕ) (buf : Bytes) → ((i : ℕ) → buf i < 256) → Step k (write fd (some buf) n k).1
  writes_null : (fd n : ℕ) → Step k (write fd none n k).1
  opens : (filename : Option (List ℕ)) (garbage : ℕ) → Step k (open_file filename garbage k).1
  closes : (fd : ℕ) → Step k (close fd k).1
  gets_arguments : (buf : Bytes) (nbytes : ℕ) → Step k (getargs buf nbytes k).2
  maps_video : (screen_start : ℕ) → Step k (vidmap screen_start k).2

-- any number of entries
pub data Reach (k : Kernel) : Kernel → Type 0 where
  start : Reach k k
  step : {mid end : Kernel} → Reach k mid → Step mid end → Reach k end

-- The three shells are all_run, the indices into the arrays of three are in range, every line
-- fits its buffer, the masks are bytes, and each terminal has a clock rate that can be divided by.
pub record IsSound (k : Kernel) : Type 0 where
  pub lines : (t : ℕ) → (k.terminal t).buffer_ct ≤ 127
  pub shown : k.terminal_num < 3
  pub turn : k.schedule_idx < 3
  pub all_run : 3 ≤ k.tasks.pit_count
  pub settled : k.tasks.pit_count ≤ 4
  pub masks : HasByteMasks k.hardware
  pub clock : k.rtc.rtc_idx < 3
  pub rates :
      (t : ℕ)
      → t < 3
      → (0 < k.rtc.desired_virtualized_frequency t) × (k.rtc.desired_virtualized_frequency t ≤ 1024)
