-- ===== src/System/Tables.antt =====
-- The tables of functions that open descriptors point to.
pub mod Calls
pub mod Programs
pub mod Reached
use os.Common.{
  ℕ, zero, suc, ◌+◌, ◌-◌, ◌*◌, ◌/◌, ◌%◌, ◌^◌, ◌≤◌, ◌<◌, min, ◌≡◌, refl, sym, ap, ◌∙◌, ◌≢◌, ◌↔◌, ◌⊎◌,
  inl, inr, Bool, true, false, not, ◌&&◌, ◌||◌, Option, none, some, List, [], ◌∷◌, ◌++◌, arith,
  dec_lt, ℕ_discrete, ltb, leb, ◌==◌, if◌then◌else◌, ltb→lt, lt→ltb, leb→le, ==_iff, Bool-cases,
  Option-cases, u8, u32, add32, sub32, minus_one, is_neg, slt, sign_extend8, Array, Bytes, update,
  length, get_or, get_elem?, get_elem?_lem, set, char_at, copy, copy_lem, tests, holds_up_to,
  holds_at, bit_and, bit_or, codes,
}
use os.Machine.{
  FileOps, no_fop, stdin_fop, stdout_fop, rtc_fop, directory_fop, file_fop, FileDescriptor, Pcb,
  Kernel, slot, cli, sti, descriptors, scheduled, with_descriptors, Reply, waits, returns,
}
use os.Files.{read_data, read_dentry_by_index, read_dentry_by_name, FileSystem, Dentry}
use os.Descriptors.{
  blank, clear_bytes, is_outside, free_slot, open_descriptor, opened, moved, closed, file_open,
  file_close, file_read, directory_open, directory_close, directory_read,
}
use os.Rtc.{rtc_open, rtc_close}
use os.Terminal.{terminal_close}
use os.Syscalls.{close_of}
use os.Syscalls.Dispatch.{after}
use os.Common.{by_branch}

abbrev is_table : FileOps → Bool
is_table no_fop = false
is_table _ = true

-- a descriptor that is not open, or points to a table
abbrev pub has_table : FileDescriptor → Bool
has_table d = d.flags == 0 || is_table d.operations

pub record IsTyped (fds : Array FileDescriptor) : Type 0 where
  pub each : (i : ℕ) → has_table (fds i) ≡ true

-- all descriptors of all processes
pub record HasTables (pcbs : Array Pcb) : Type 0 where
  pub of : (p : ℕ) → IsTyped (pcbs p).file_descriptor

pub update-IsTyped :
    (fds : Array FileDescriptor) (fd : ℕ) (d : FileDescriptor)
    → IsTyped fds
    → has_table d ≡ true
    → IsTyped (update fds fd d)
update-IsTyped fds fd d h new = record {
  each = λ i. by_branch (λ (d' : FileDescriptor). has_table d' ≡ true) (fd == i) new (h.each i);
}

pub update-HasTables :
    (pcbs : Array Pcb) (p : ℕ) (pcb : Pcb)
    → HasTables pcbs
    → IsTyped pcb.file_descriptor
    → HasTables (update pcbs p pcb)
update-HasTables pcbs p pcb h new = record {
  of = λ q. by_branch (λ (pcb' : Pcb). IsTyped pcb'.file_descriptor) (p == q) new (h.of q);
}

-- one descriptor of one process becomes another
pub redescribed :
    (k : Kernel) (p fd : ℕ) (d : FileDescriptor)
    → HasTables k.pcbs
    → has_table d ≡ true
    → HasTables (with_descriptors k p (update (descriptors k p) fd d)).pcbs
redescribed k p fd d h new =
    update-HasTables k.pcbs p _ h (update-IsTyped (descriptors k p) fd d (h.of p) new)

open_descriptor-IsTyped :
    (fs : FileSystem) (file_type : ℕ) (ops : FileOps) (inode : Dentry → ℕ) (filename : List ℕ)
    (fds : Array FileDescriptor)
    → is_table ops ≡ true
    → IsTyped fds
    → IsTyped (open_descriptor fs file_type ops inode filename fds).1
unfolding open_descriptor
open_descriptor-IsTyped fs file_type ops inode filename fds table h =
    let P = λ (r : ℕ × Array FileDescriptor). IsTyped r.1 in
    let fd = free_slot 6 2 fds in
    let (code, dentry) = read_dentry_by_name fs filename blank in
    by_branch P (fd == minus_one || is_outside fd) h (
      by_branch P (code == minus_one) h (
        by_branch P (not (dentry.file_type == file_type)) h (
          by_branch P ((fds fd).flags == 0)
            (update-IsTyped fds fd (opened ops (inode dentry)) h table) h)))

pub file_open-HasTables :
    (filename : List ℕ) (k : Kernel) → HasTables k.pcbs → HasTables (file_open filename k).1.pcbs
unfolding file_open
file_open-HasTables filename k h =
    update-HasTables k.pcbs _ _ h
      (open_descriptor-IsTyped k.fs 2 file_fop (λ d. d.inode_num) filename _ refl (h.of _))

pub directory_open-HasTables :
    (filename : List ℕ) (k : Kernel)
    → HasTables k.pcbs
    → HasTables (directory_open filename k).1.pcbs
unfolding directory_open
directory_open-HasTables filename k h =
    update-HasTables k.pcbs _ _ h
      (open_descriptor-IsTyped k.fs 1 directory_fop (λ _. 0) filename _ refl (h.of _))

pub rtc_open-HasTables :
    (filename : List ℕ) (k : Kernel) → HasTables k.pcbs → HasTables (rtc_open filename k).1.pcbs
unfolding rtc_open
rtc_open-HasTables filename k h =
    update-HasTables k.pcbs _ _ h
      (open_descriptor-IsTyped k.fs 0 rtc_fop (λ _. 0) filename _ refl (h.of _))

pub close_of-HasTables :
    (ops : FileOps) (fd : ℕ) (k : Kernel) → HasTables k.pcbs → HasTables (close_of ops fd k).1.pcbs
unfolding close_of terminal_close rtc_close file_close directory_close
close_of-HasTables no_fop fd k h = h
close_of-HasTables stdin_fop fd k h = h
close_of-HasTables stdout_fop fd k h = h
close_of-HasTables rtc_fop fd k h =
    let P = λ (r : ℕ × Kernel). HasTables r.1.pcbs in
    let d = descriptors k (scheduled k) fd in
    by_branch P (is_outside fd) h
      (by_branch P (d.flags == 1) (redescribed k (scheduled k) fd (closed d) h refl) h)
close_of-HasTables directory_fop fd k h =
    let P = λ (r : ℕ × Kernel). HasTables r.1.pcbs in
    let p = slot k.process_num in
    let d = descriptors k p fd in
    by_branch P (is_outside fd) h
      (by_branch P (d.flags == 1) (redescribed k p fd (closed d) h refl) h)
close_of-HasTables file_fop fd k h =
    let P = λ (r : ℕ × Kernel). HasTables r.1.pcbs in
    let p = slot k.process_num in
    let d = descriptors k p fd in
    by_branch P (is_outside fd) h
      (by_branch P (d.flags == 1) (redescribed k p fd (closed d) h refl) h)

pub file_read-HasTables :
    (fd n : ℕ) (buf : Bytes) (k : Kernel)
    → HasTables k.pcbs
    → HasTables (after (file_read fd buf n k)).pcbs
unfolding file_read
file_read-HasTables fd n buf k h =
    let P = λ (r : Reply). HasTables (after r).pcbs in
    let p = slot k.process_num in
    let d = descriptors k p fd in
    let count = (read_data k.fs d.inode d.file_position (clear_bytes n buf) n).0 in
    by_branch P (d.flags == 0) h
      (by_branch P (count == minus_one) h (redescribed k p fd (moved d count) h ((h.of p).each fd)))

pub directory_read-HasTables :
    (fd n : ℕ) (buf : Bytes) (k : Kernel)
    → HasTables k.pcbs
    → HasTables (after (directory_read fd buf n k)).pcbs
unfolding directory_read
directory_read-HasTables fd n buf k h =
    let P = λ (r : Reply). HasTables (after r).pcbs in
    let p = slot k.process_num in
    let d = descriptors k p fd in
    let found = read_dentry_by_index k.fs d.file_position blank in
    by_branch P (is_outside fd) h (
      by_branch P (d.flags == 0) h (
        by_branch P (leb k.fs.dir_count d.file_position) h (
          by_branch P (found.0 == minus_one) h
            (redescribed k p fd (moved d 1) h ((h.of p).each fd)))))
