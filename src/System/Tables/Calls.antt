-- ===== src/System/Tables/Calls.antt =====
-- The calls on descriptors leave every open descriptor with a table.
use os.Common.{
  ℕ, ◌≡◌, refl, not, ◌||◌, Option, none, some, List, ◌==◌, minus_one, is_neg, slt, Bytes,
}
use os.Machine.{
  FileOps, no_fop, stdin_fop, stdout_fop, rtc_fop, directory_fop, file_fop, Kernel, scheduled,
  descriptors, cli, Reply, waits, returns,
}
use os.Files.{read_dentry_by_name, load32}
use os.Descriptors.{blank, file_write, directory_write}
use os.Rtc.{rtc_read, rtc_write, is_rate}
use os.Terminal.Frame.{terminal_write-IsBeside}
use os.Terminal.{terminal_read, line_taken, clear_buffer}
use os.Syscalls.{
  read_of, write_of, open_of, is_bad, finish_read, enter_read_call, read, write, open_file, close,
  invalid_terminal_read, invalid_terminal_write,
}
use os.Syscalls.Dispatch.{after}
use os.Common.{by_branch}
use os.System.Tables.{
  HasTables, close_of-HasTables, file_read-HasTables, directory_read-HasTables, file_open-HasTables,
  directory_open-HasTables, rtc_open-HasTables,
}

rtc_write-pcbs : (fd n : ℕ) (buf : Bytes) (k : Kernel) → (rtc_write fd buf n k).1.pcbs ≡ k.pcbs
unfolding rtc_write
rtc_write-pcbs fd n buf k =
    let P = λ (r : ℕ × Kernel). r.1.pcbs ≡ k.pcbs in
    by_branch P (not (n == 4)) refl (by_branch P (not (is_rate (load32 buf 0))) refl refl)

write_of-pcbs :
    (ops : FileOps) (fd n : ℕ) (buf : Bytes) (k : Kernel)
    → (write_of ops fd buf n k).1.pcbs ≡ k.pcbs
unfolding write_of invalid_terminal_write file_write directory_write
write_of-pcbs stdout_fop fd n buf k = (terminal_write-IsBeside fd n buf k).pcbs
write_of-pcbs rtc_fop fd n buf k = rtc_write-pcbs fd n buf k
write_of-pcbs no_fop fd n buf k = refl
write_of-pcbs stdin_fop fd n buf k = refl
write_of-pcbs directory_fop fd n buf k = refl
write_of-pcbs file_fop fd n buf k = refl

-- A write changes no descriptor.
pub write-pcbs : (fd n : ℕ) (buf : Option Bytes) (k : Kernel) → (write fd buf n k).1.pcbs ≡ k.pcbs
unfolding write
write-pcbs fd n none k = refl
write-pcbs fd n (some buf) k =
    let P = λ (r : ℕ × Kernel). r.1.pcbs ≡ k.pcbs in
    let fds = descriptors k (scheduled k) in
    let done = write_of-pcbs (fds fd).operations fd n buf (cli k) in
    by_branch P (is_bad fd n fds) refl
      (by_branch P ((write_of (fds fd).operations fd buf n (cli k)).0 == minus_one) done done)

terminal_read-pcbs :
    (fd n : ℕ) (buf : Bytes) (k : Kernel) → (after (terminal_read fd buf n k)).pcbs ≡ k.pcbs
unfolding terminal_read line_taken clear_buffer
terminal_read-pcbs fd n buf k =
    let t = (k.pcbs (scheduled k)).terminal_num in
    let P = λ (r : Reply). (after r).pcbs ≡ k.pcbs in
    by_branch P ((k.terminal t).enter_read == 0 || not (k.terminal_num == k.schedule_idx)) refl
      (by_branch P (is_neg n || slt 1 fd) refl refl)

rtc_read-pcbs : (fd n : ℕ) (buf : Bytes) (k : Kernel) → (after (rtc_read fd buf n k)).pcbs ≡ k.pcbs
unfolding rtc_read
rtc_read-pcbs fd n buf k =
    by_branch (λ (r : Reply). (after r).pcbs ≡ k.pcbs) (k.rtc.interrupt_flag k.schedule_idx == 1)
      refl refl

read_of-HasTables :
    (ops : FileOps) (fd n : ℕ) (buf : Bytes) (k : Kernel)
    → HasTables k.pcbs
    → HasTables (after (read_of ops fd buf n k)).pcbs
unfolding read_of invalid_terminal_read
read_of-HasTables no_fop fd n buf k h = h
read_of-HasTables stdin_fop fd n buf k h = rw (terminal_read-pcbs fd n buf k) h
read_of-HasTables stdout_fop fd n buf k h = h
read_of-HasTables rtc_fop fd n buf k h = rw (rtc_read-pcbs fd n buf k) h
read_of-HasTables directory_fop fd n buf k h = directory_read-HasTables fd n buf k h
read_of-HasTables file_fop fd n buf k h = file_read-HasTables fd n buf k h

finish_read-pcbs : (n : ℕ) (r : Reply) → (after (finish_read n r)).pcbs ≡ (after r).pcbs
unfolding finish_read
finish_read-pcbs n (waits k) = refl
finish_read-pcbs n (returns r buf k) =
    let P = λ (r' : Reply). (after r').pcbs ≡ k.pcbs in
    by_branch P (r == 0) refl (by_branch P (r == minus_one) refl refl)

enter_read_call-pcbs : (fd : ℕ) (k : Kernel) → (enter_read_call fd k).pcbs ≡ k.pcbs
unfolding enter_read_call
enter_read_call-pcbs fd k = by_branch (λ (k' : Kernel). k'.pcbs ≡ k.pcbs) (fd == 0) refl refl

pub read-HasTables :
    (fd n : ℕ) (buf : Option Bytes) (k : Kernel)
    → HasTables k.pcbs
    → HasTables (after (read fd buf n k)).pcbs
unfolding read
read-HasTables fd n none k h = rw (enter_read_call-pcbs fd k) h
read-HasTables fd n (some buf) k h =
    let k1 = enter_read_call fd k in
    let fds = descriptors k1 (scheduled k1) in
    let entered : HasTables k1.pcbs = rw (enter_read_call-pcbs fd k) h in
    by_branch (λ (r : Reply). HasTables (after r).pcbs) (is_bad fd n fds) entered
      (rw (finish_read-pcbs n (read_of (fds fd).operations fd buf n k1))
        (read_of-HasTables (fds fd).operations fd n buf k1 entered))

pub open_file-HasTables :
    (filename : Option (List ℕ)) (garbage : ℕ) (k : Kernel)
    → HasTables k.pcbs
    → HasTables (open_file filename garbage k).1.pcbs
unfolding open_file open_of
open_file-HasTables none garbage k h = h
open_file-HasTables (some filename) garbage k h =
    let P = λ (r : ℕ × Kernel). HasTables r.1.pcbs in
    let entry = read_dentry_by_name k.fs filename blank in
    let file_type = entry.1.file_type in
    by_branch P (entry.0 == minus_one) h (
      by_branch P (file_type == 0) (rtc_open-HasTables filename (cli k) h) (
        by_branch P (file_type == 1) (directory_open-HasTables filename (cli k) h)
          (by_branch P (file_type == 2) (file_open-HasTables filename (cli k) h) h)))

pub close-HasTables : (fd : ℕ) (k : Kernel) → HasTables k.pcbs → HasTables (close fd k).1.pcbs
unfolding close
close-HasTables fd k h =
    let fds = descriptors k (scheduled k) in
    by_branch (λ (r : ℕ × Kernel). HasTables r.1.pcbs)
      ((fds fd).flags == 0 || (slt fd 2 || slt 7 fd)) h
      (close_of-HasTables (fds fd).operations fd (cli k) h)
