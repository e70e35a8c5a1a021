-- ===== src/Syscalls.antt =====
-- student-distrib/system_call.c: the calls that work on descriptors and arguments.
pub mod Dispatch
pub mod ReadFile
pub mod Arguments
use os.Common.{
  ℕ, zero, suc, ◌+◌, ◌-◌, ◌*◌, ◌/◌, ◌%◌, ◌^◌, ◌≤◌, ◌<◌, min, ◌≡◌, refl, sym, ap, ◌∙◌, ◌≢◌, ◌↔◌, ◌⊎◌,
  inl, inr, Bool, true, false, not, ◌&&◌, ◌||◌, Option, none, some, List, [], ◌∷◌, ◌++◌, arith,
  dec_lt, ℕ_discrete, ltb, leb, ◌==◌, if◌then◌else◌, ltb→lt, lt→ltb, leb→le, ==_iff, Bool-cases,
  Option-cases, u8, u32, add32, sub32, minus_one, is_neg, slt, sign_extend8, Array, Bytes, update,
  length, get_or, set, char_at, copy, copy_lem, tests, holds_up_to, holds_at, bit_and, bit_or,
  codes,
}
use os.Strings.{fill}
use os.Files.{FileSystem, read_dentry_by_name}
use os.Machine.{
  FileOps, no_fop, stdin_fop, stdout_fop, rtc_fop, directory_fop, file_fop, FileDescriptor, Kernel,
  scheduled, descriptors, cli, sti, Reply, waits, returns,
}
use os.Pic.{enable_irq_of, disable_irq_of}
use os.Descriptors.{
  blank, file_open, file_close, file_read, file_write, directory_open, directory_close,
  directory_read, directory_write,
}
use os.Rtc.{rtc_open, rtc_close, rtc_read, rtc_write}
use os.Terminal.{terminal_close, terminal_read, terminal_write, on_console}
use os.Console.{puts}

unfoldable pub invalid_terminal_read : ℕ → Bytes → ℕ → Kernel → Reply
invalid_terminal_read fd buf n k = returns minus_one buf k

unfoldable pub invalid_terminal_write : ℕ → Kernel → ℕ × Kernel
invalid_terminal_write fd k = (minus_one, k)

-- The tables `stdin_fop`, `stdout_fop`, `rtc_fop`, `directory_fop` and `file_fop`. A call through
-- the null table is a fault of the processor; here it fails.
unfoldable pub read_of : FileOps → ℕ → Bytes → ℕ → Kernel → Reply
read_of stdin_fop = terminal_read
read_of stdout_fop = invalid_terminal_read
read_of rtc_fop = rtc_read
read_of directory_fop = directory_read
read_of file_fop = file_read
read_of no_fop = invalid_terminal_read

unfoldable pub write_of : FileOps → ℕ → Bytes → ℕ → Kernel → ℕ × Kernel
write_of stdin_fop fd buf n k = invalid_terminal_write fd k
write_of stdout_fop fd buf n k = terminal_write fd (some buf) n k
write_of rtc_fop fd buf n k = rtc_write fd buf n k
write_of directory_fop fd buf n k = directory_write fd buf n k
write_of file_fop fd buf n k = file_write fd buf n k
write_of no_fop fd buf n k = invalid_terminal_write fd k

unfoldable pub close_of : FileOps → ℕ → Kernel → ℕ × Kernel
close_of stdin_fop fd k = terminal_close fd k
close_of stdout_fop fd k = terminal_close fd k
close_of rtc_fop fd k = rtc_close fd k
close_of directory_fop fd k = directory_close fd k
close_of file_fop fd k = file_close fd k
close_of no_fop fd k = (minus_one, k)

-- the test for bad input of `read` and `write`
abbrev pub is_bad : ℕ → ℕ → Array FileDescriptor → Bool
is_bad fd n fds = slt fd 0 || (slt 7 fd || (is_neg n || (fds fd).flags == 0))

-- what `read` makes of the result of the descriptor's own read
unfoldable pub finish_read : ℕ → Reply → Reply
finish_read n (waits k) = waits k
finish_read n (returns r buf k) =
    if r == 0
    then returns 0 buf (sti k)
    else if r == minus_one
    then returns minus_one buf (sti k)
    else returns n buf (sti k)

-- the statements of `read` before the test
unfoldable pub enter_read_call : ℕ → Kernel → Kernel
enter_read_call fd k =
    let k1 = disable_irq_of 0 (cli k) in cli (if fd == 0 then k1 else enable_irq_of 0 k1)

-- `none` stands for the pointer NULL. The buffer of a refused call is not touched.
unfoldable pub read : ℕ → Option Bytes → ℕ → Kernel → Reply
read fd none n k = returns minus_one (λ _. 0) (sti (enter_read_call fd k))
read fd (some buf) n k =
    let k1 = enter_read_call fd k in
    let fds = descriptors k1 (scheduled k1) in
    if is_bad fd n fds
    then returns minus_one buf (sti k1)
    else finish_read n (read_of (fds fd).operations fd buf n k1)

unfoldable pub write : ℕ → Option Bytes → ℕ → Kernel → ℕ × Kernel
write fd none n k = (minus_one, sti k)
write fd (some buf) n k =
    let fds = descriptors k (scheduled k) in
    let (r, k1) = write_of (fds fd).operations fd buf n (cli k) in
    if is_bad fd n fds
    then (minus_one, sti k)
    else if r == minus_one
    then (minus_one, sti k1)
    else (n, sti k1)

-- The result of the open functions is kept in an `int8_t`, which holds -1 and the descriptors. For
-- a file of another type the result is not initialised: `garbage` stands for it.
unfoldable pub open_of : ℕ → List ℕ → ℕ → Kernel → ℕ × Kernel
open_of file_type filename garbage k =
    if file_type == 0
    then rtc_open filename k
    else if file_type == 1
    then directory_open filename k
    else if file_type == 2
    then file_open filename k
    else (garbage, k)

-- `open`
unfoldable pub open_file : Option (List ℕ) → ℕ → Kernel → ℕ × Kernel
open_file none garbage k = (minus_one, sti k)
open_file (some filename) garbage k =
    let (code, dentry) = read_dentry_by_name k.fs filename blank in
    let (fd, k1) = open_of dentry.file_type filename garbage (cli k) in
    if code == minus_one then (minus_one, sti k) else (fd, sti k1)

-- The flags are read before `fd` is tested; out of range that reads memory of no meaning, and both
-- ways the call fails. A descriptor that is open is closed, and 1 is returned.
unfoldable pub close : ℕ → Kernel → ℕ × Kernel
close fd k =
    let fds = descriptors k (scheduled k) in
    let (_, k1) = close_of (fds fd).operations fd (cli k) in
    if (fds fd).flags == 0 || (slt fd 2 || slt 7 fd) then (minus_one, sti k) else (1, sti k1)

-- `getargs`, its first loop: newlines in the first `left` bytes of `stored_buf` become NULs
unfoldable pub strip_newlines : ℕ → ℕ → Bytes → Bytes
strip_newlines zero i stored = stored
strip_newlines (suc left) i stored =
    strip_newlines left (i + 1) (if stored i == b'\n' then update stored i 0 else stored)

-- Its second loop, with `left` bytes of room: the count and the bytes at `buf`, `none` if the
-- arguments do not fit. The room ends the loop.
unfoldable pub copy_args : ℕ → ℕ → Bytes → Bytes → Option ℕ × Bytes
copy_args zero count stored buf = (if stored count == 0 then some count else none, buf)
copy_args (suc left) count stored buf =
    let rest = copy_args left (count + 1) stored (update buf count (stored count)) in
    if stored count == 0 then (some count, buf) else rest

-- `getargs` for a count of bytes that is not negative: the result, the buffer and the kernel
unfoldable pub getargs : Bytes → ℕ → Kernel → ℕ × Bytes × Kernel
getargs buf nbytes k =
    let stored = strip_newlines nbytes 0 k.stored_buf in
    let (count, buf') = copy_args nbytes 0 stored buf in
    let k1 = sti (record k { stored_buf = stored }) in
    elim count [
      | none ↦ (minus_one, buf', k1)
      | some c ↦
          if c == 0
          then (minus_one, buf', on_console (puts (codes "Error, No arguments! \n")) k1)
          else if c == nbytes
          then (minus_one, buf', k1)
          else (0, update buf' c (stored c), k1)
    ]

unfoldable pub skip_spaces : List ℕ → List ℕ
skip_spaces [] = []
skip_spaces (c ∷ s) = let rest = skip_spaces s in if c == b' ' then rest else c ∷ s

-- `parse_args` from the command's name on: the text behind the first space, or `none`
unfoldable pub skip_name : List ℕ → Option (List ℕ)
skip_name [] = none
skip_name (c ∷ s) =
    let rest = skip_name s in if c == b' ' then some s else if c == 0 then none else rest

-- the loop that stores the arguments, with `left` bytes of room: the index and the bytes
unfoldable pub store_args : ℕ → ℕ → List ℕ → Bytes → ℕ × Bytes
store_args zero idx s stored = (idx, stored)
store_args (suc left) idx [] stored = (idx, stored)
store_args (suc left) idx (c ∷ s) stored =
    let rest = store_args left (idx + 1) s (update stored idx c) in
    if c == 0 then (idx, stored) else rest

-- the new contents of `stored_buf`
unfoldable pub parse_args : List ℕ → Bytes → Bytes
parse_args command stored = elim (skip_name (skip_spaces command)) [
  | none ↦ fill 1024 0 0 stored
  | some args ↦
      let (idx, stored') = store_args 1024 0 args stored in
      if ltb idx 1023 then update stored' idx (char_at args idx) else stored'
]

-- the name up to a space, a NUL or a newline
unfoldable pub take_name : List ℕ → List ℕ
take_name [] = []
take_name (c ∷ s) =
    let rest = take_name s in if c == b' ' || (c == 0 || c == b'\n') then [] else c ∷ rest

-- `get_file_name`: the command, cut behind its name. Spaces in front stay.
unfoldable pub get_file_name : List ℕ → List ℕ
get_file_name [] = []
get_file_name (c ∷ s) =
    let rest = get_file_name s in if c == b' ' then c ∷ rest else take_name (c ∷ s)

unfoldable pub is_executable : Bytes → ℕ
is_executable buffer =
    if buffer 0 == 0x7f && (buffer 1 == 0x45 && (buffer 2 == 0x4c && buffer 3 == 0x46))
    then 0
    else minus_one

unfoldable pub set_handler : ℕ
set_handler = minus_one

unfoldable pub sigreturn : ℕ
sigreturn = minus_one
