-- ===== src/System/Tables/Reached.antt =====
-- No call goes through a null table, whatever entries the kernel has had.
use os.Common.{ℕ, ◌≡◌, ◌≢◌, true, false, none, some, arith, ◌==◌, u8, Bytes}
use os.Machine.{FileDescriptor, no_fop, Kernel, cli, descriptors}
use os.Keyboard.{keyboard_handler}
use os.Rtc.{rtc_handler}
use os.Syscalls.{getargs}
use os.Paging.{vidmap}
use os.Processes.{Outcome}
use os.Processes.Halt.{last_kernel}
use os.Interrupts.{hardware_handler}
use os.System.{
  Step, Reach, hardware, exception, halts, executes, reads, writes, writes_null, opens, closes,
  gets_arguments, maps_video, start, step,
}
use os.Common.{by_branch}
use os.System.Entries.{key_action-IsKeyed}
use os.System.Tables.{HasTables, has_table}
use os.System.Tables.Calls.{write-pcbs, read-HasTables, open_file-HasTables, close-HasTables}
use os.System.Tables.Programs.{
  execute-HasTables, halt-HasTables, exc_handler-HasTables, pit_handler-HasTables,
}

keyboard_handler-pcbs : (c : ℕ) (k : Kernel) → (keyboard_handler c k).pcbs ≡ k.pcbs
unfolding keyboard_handler
keyboard_handler-pcbs c k = (key_action-IsKeyed c (cli k)).pcbs

hardware_handler-HasTables :
    (vector scan_code : ℕ) (garbage : Bytes) (k : Kernel)
    → HasTables k.pcbs
    → HasTables (last_kernel (hardware_handler vector scan_code garbage k)).pcbs
unfolding hardware_handler rtc_handler
hardware_handler-HasTables vector scan_code garbage k h =
    let P = λ (o : Outcome). HasTables (last_kernel o).pcbs in
    by_branch P (vector == 32) (pit_handler-HasTables garbage (cli k) h) (
      by_branch P (vector == 33) (rw (keyboard_handler-pcbs scan_code (cli k)) h)
        (by_branch P (vector == 40) h h))

getargs-pcbs : (buf : Bytes) (nbytes : ℕ) (k : Kernel) → (getargs buf nbytes k).2.pcbs ≡ k.pcbs
unfolding getargs
getargs-pcbs buf nbytes k = ground arith

vidmap-pcbs : (screen_start : ℕ) (k : Kernel) → (vidmap screen_start k).2.pcbs ≡ k.pcbs
unfolding vidmap
vidmap-pcbs screen_start k = ground arith

pub Step-HasTables : {k k' : Kernel} → Step k k' → HasTables k.pcbs → HasTables k'.pcbs
Step-HasTables {k} (hardware vector scan_code garbage) h =
    hardware_handler-HasTables vector scan_code garbage k h
Step-HasTables {k} (exception vector garbage) h = exc_handler-HasTables vector garbage k h
Step-HasTables {k} (halts status garbage) h = halt-HasTables (u8 status) garbage k h
Step-HasTables {k} (executes command garbage) h = execute-HasTables command garbage k h
Step-HasTables {k} (reads fd n buf) h = read-HasTables fd n buf k h
Step-HasTables {k} (writes fd n buf bytes) h = rw (write-pcbs fd n (some buf) k) h
Step-HasTables {k} (writes_null fd n) h = rw (write-pcbs fd n none k) h
Step-HasTables {k} (opens filename garbage) h = open_file-HasTables filename garbage k h
Step-HasTables {k} (closes fd) h = close-HasTables fd k h
Step-HasTables {k} (gets_arguments buf nbytes) h = rw (getargs-pcbs buf nbytes k) h
Step-HasTables {k} (maps_video screen_start) h = rw (vidmap-pcbs screen_start k) h

Reach-HasTables : {k k' : Kernel} → Reach k k' → HasTables k.pcbs → HasTables k'.pcbs
Reach-HasTables start h = h
Reach-HasTables (step before last) h = Step-HasTables last (Reach-HasTables before h)

open_has_table : (d : FileDescriptor) → has_table d ≡ true → d.flags ≢ 0 → d.operations ≢ no_fop
open_has_table d typed is_open e =
    let shut : (d.flags == 0) ≡ false = ground (arith, is_open) in
    absurd (ground (arith, rw (shut, e) at typed))

-- In every kernel that entries reach from one in which each open descriptor points to a table of
-- functions, a descriptor of any process whose flags are not 0 points to a table: the calls that
-- go through the descriptor behind that test never go through the null pointer. It holds for any
-- interrupts and exceptions, and for the calls of programs with any arguments.
pub Reach-tables :
    {k k' : Kernel} (p fd : ℕ)
    → Reach k k'
    → HasTables k.pcbs
    → (descriptors k' p fd).flags ≢ 0
    → (descriptors k' p fd).operations ≢ no_fop
Reach-tables {k} {k'} p fd reached h =
    open_has_table (descriptors k' p fd) (((Reach-HasTables reached h).of p).each fd)
