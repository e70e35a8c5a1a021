-- ===== src/System/Invariant.antt =====
-- What holds of the kernel after any number of entries.
use os.Common.{◌*◌, ◌≤◌, ◌<◌, true, arith, u8, u32}
use os.Machine.{Kernel}
use os.System.{
  Step, Reach, IsSound, hardware, exception, halts, executes, reads, writes, writes_null, opens,
  closes, gets_arguments, maps_video, start, step,
}
use os.System.Frame.{flag_set}
use os.System.Programs.{close-Keeps, halt-Keeps, execute-Keeps, vidmap-Keeps}
use os.System.Entries.{Keeps-IsSound, hardware_handler-IsSound, exc_handler-IsSound}
use os.System.Calls.{read-IsSound, write-IsSound, open_file-IsSound, getargs-IsSound}
use os.Syscalls.{write}

-- Every entry of a kernel that is sound leaves it sound: an interrupt of any vector with any scan
-- code, an exception, and each system call with any arguments, where the bytes that `write` is given
-- are below 256.
pub Step-IsSound : {k k' : Kernel} → Step k k' → IsSound k → IsSound k'
unfolding write
Step-IsSound {k} (hardware vector scan_code garbage) s =
    hardware_handler-IsSound vector scan_code garbage k s
Step-IsSound {k} (exception vector garbage) s = exc_handler-IsSound vector garbage k s
Step-IsSound {k} (halts status garbage) s =
    Keeps-IsSound (halt-Keeps (u8 status) garbage k s.all_run s.settled) s
Step-IsSound {k} (executes command garbage) s =
    Keeps-IsSound (execute-Keeps command garbage k s.all_run s.settled) s
Step-IsSound {k} (reads fd n buf) s = read-IsSound fd n buf k s
Step-IsSound {k} (writes fd n buf bytes) s = write-IsSound fd n buf k bytes s
Step-IsSound {k} (writes_null fd n) s = Keeps-IsSound (flag_set k true) s
Step-IsSound {k} (opens filename garbage) s = open_file-IsSound filename garbage k s
Step-IsSound {k} (closes fd) s = Keeps-IsSound (close-Keeps fd k) s
Step-IsSound {k} (gets_arguments buf nbytes) s = getargs-IsSound buf nbytes k s
Step-IsSound {k} (maps_video screen_start) s = Keeps-IsSound (vidmap-Keeps screen_start k) s

-- A kernel that any sequence of entries reaches from a sound one is sound.
pub Reach-IsSound : {k k' : Kernel} → Reach k k' → IsSound k → IsSound k'
Reach-IsSound start s = s
Reach-IsSound (step before last) s = Step-IsSound last (Reach-IsSound before s)

-- The divisor of `rtc_handler` is never 0: in every kernel that entries reach from a sound one, the
-- rate of the scheduled terminal times 3, as a 32-bit number, is between 1 and 3072. The indices
-- that the handlers use are inside their arrays of three there.
pub Reach-clock :
    {k k' : Kernel}
    → Reach k k'
    → IsSound k
    → let divisor = u32 (k'.rtc.desired_virtualized_frequency k'.schedule_idx * 3) in
      (0 < divisor) × (divisor ≤ 3072) × (k'.rtc.rtc_idx < 3) × (k'.schedule_idx < 3)
Reach-clock r s =
    let t = Reach-IsSound r s in
    let rate = t.rates _ t.turn in
    (omega (arith, rate.0, rate.1), omega (arith, rate.0, rate.1), t.clock, t.turn)
