-- ===== src/Descriptors.antt =====
-- The file operations of student-distrib/filesys.c: opening, reading and closing through the
-- descriptors of the process `process_num`.
pub mod Open
pub mod Read
pub mod Close
use os.Common.{
  ℕ, zero, suc, ◌+◌, ◌-◌, ◌*◌, ◌/◌, ◌%◌, ◌^◌, ◌≤◌, ◌<◌, min, ◌≡◌, refl, sym, ap, ◌∙◌, ◌≢◌, ◌↔◌, ◌⊎◌,
  inl, inr, Bool, true, false, not, ◌&&◌, ◌||◌, Option, none, some, List, [], ◌∷◌, ◌++◌, arith,
  dec_lt, ℕ_discrete, ltb, leb, ◌==◌, if◌then◌else◌, ltb→lt, lt→ltb, leb→le, ==_iff, Bool-cases,
  Option-cases, u8, u32, add32, sub32, minus_one, is_neg, slt, sign_extend8, Array, Bytes, update,
  length, get_or, set, char_at, copy, copy_lem, tests, holds_up_to, holds_at, bit_and, bit_or,
}
use os.Strings.{fill}
use os.Files.{FileSystem, Dentry, read_dentry_by_name, read_dentry_by_index, read_data, rounds}
use os.Machine.{
  FileOps, no_fop, stdin_fop, stdout_fop, rtc_fop, directory_fop, file_fop, FileDescriptor, Kernel,
  slot, descriptors, with_descriptors, Reply, waits, returns,
}

-- FD_MIN is 2 and FD_MAX is 7.
abbrev pub is_outside : ℕ → Bool
is_outside fd = slt fd 2 || slt 7 fd

-- the loop that looks for an open slot, with `k` rounds left
unfoldable pub free_slot : ℕ → ℕ → Array FileDescriptor → ℕ
free_slot zero i fds = minus_one
free_slot (suc k) i fds =
    let rest = free_slot k (i + 1) fds in if (fds i).flags == 0 then i else rest

-- an uninitialised `dentry_t` on the stack, which is read only after it is filled in
abbrev pub blank : Dentry
blank = record { filename = λ _. 0; file_type = 0; inode_num = 0 }

abbrev pub opened : FileOps → ℕ → FileDescriptor
opened ops inode = record { operations = ops; inode = inode; file_position = 0; flags = 1 }

-- What `file_open`, `directory_open` and `rtc_open` share: they differ in the type of file that
-- they accept, in the table, and in the inode that they store.
unfoldable pub open_descriptor :
    FileSystem
    → ℕ
    → FileOps
    → (Dentry → ℕ)
    → List ℕ
    → Array FileDescriptor
    → ℕ × Array FileDescriptor
open_descriptor fs file_type ops inode filename fds =
    let fd = free_slot 6 2 fds in
    let (code, dentry) = read_dentry_by_name fs filename blank in
    if fd == minus_one || is_outside fd
    then (minus_one, fds)
    else if code == minus_one
    then (minus_one, fds)
    else if not (dentry.file_type == file_type)
    then (minus_one, fds)
    else if (fds fd).flags == 0
    then (fd, update fds fd (opened ops (inode dentry)))
    else (minus_one, fds)

unfoldable pub file_open : List ℕ → Kernel → ℕ × Kernel
file_open filename k =
    let p = slot k.process_num in
    let (fd, fds) = open_descriptor k.fs 2 file_fop (λ d. d.inode_num) filename (descriptors k p) in
    (fd, with_descriptors k p fds)

unfoldable pub directory_open : List ℕ → Kernel → ℕ × Kernel
directory_open filename k =
    let p = slot k.process_num in
    let (fd, fds) = open_descriptor k.fs 1 directory_fop (λ _. 0) filename (descriptors k p) in
    (fd, with_descriptors k p fds)

abbrev pub closed : FileDescriptor → FileDescriptor
closed d = record d { flags = 0 }

unfoldable pub file_close : ℕ → Kernel → ℕ × Kernel
file_close fd k =
    let p = slot k.process_num in
    let d = descriptors k p fd in
    if is_outside fd
    then (minus_one, k)
    else if d.flags == 1
    then (0, with_descriptors k p (update (descriptors k p) fd (closed d)))
    else (0, k)

unfoldable pub directory_close : ℕ → Kernel → ℕ × Kernel
directory_close fd k =
    let p = slot k.process_num in
    let d = descriptors k p fd in
    if is_outside fd
    then (minus_one, k)
    else if d.flags == 1
    then (0, with_descriptors k p (update (descriptors k p) fd (closed d)))
    else (minus_one, k)

-- The loop that fills the buffer with NULs, then `memset`, whose count is unsigned.
abbrev pub clear_bytes : ℕ → Bytes → Bytes
clear_bytes nbytes buf = fill nbytes 0 0 (fill (rounds nbytes) 0 0 buf)

abbrev pub moved : FileDescriptor → ℕ → FileDescriptor
moved d by = record d { file_position = add32 d.file_position by }

unfoldable pub file_read : ℕ → Bytes → ℕ → Kernel → Reply
file_read fd buf nbytes k =
    let p = slot k.process_num in
    let d = descriptors k p fd in
    let (read_bytes, buf') =
      read_data k.fs d.inode d.file_position (clear_bytes nbytes buf) nbytes in
    if d.flags == 0
    then returns minus_one buf k
    else if read_bytes == minus_one
    then returns minus_one buf' k
    else returns read_bytes buf'
        (with_descriptors k p (update (descriptors k p) fd (moved d read_bytes)))

unfoldable pub directory_read : ℕ → Bytes → ℕ → Kernel → Reply
directory_read fd buf nbytes k =
    let p = slot k.process_num in
    let d = descriptors k p fd in
    let (code, dentry) = read_dentry_by_index k.fs d.file_position blank in
    let cleared = clear_bytes nbytes buf in
    if is_outside fd
    then returns minus_one buf k
    else if d.flags == 0
    then returns minus_one buf k
    else if leb k.fs.dir_count d.file_position
    then returns 0 buf k
    else if code == minus_one
    then returns minus_one cleared k
    else returns 32 (copy 32 0 0 dentry.filename cleared)
        (with_descriptors k p (update (descriptors k p) fd (moved d 1)))

unfoldable pub file_write : ℕ → Bytes → ℕ → Kernel → ℕ × Kernel
file_write fd buf nbytes k = (minus_one, k)

unfoldable pub directory_write : ℕ → Bytes → ℕ → Kernel → ℕ × Kernel
directory_write fd buf nbytes k = (minus_one, k)
