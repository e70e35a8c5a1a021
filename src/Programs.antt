-- ===== src/Programs.antt =====
-- The user programs of syscalls/, over the system calls as they see them.
pub mod Cat
pub mod Counter
pub mod Errors
pub mod Grep
pub mod Ls
pub mod OnKernel
pub mod Pingpong
pub mod Refused
pub mod Screen
pub mod Shell
use os.Common.{
  ℕ, zero, suc, ◌+◌, ◌-◌, ◌*◌, ◌/◌, ◌%◌, ◌^◌, ◌≤◌, ◌<◌, min, ◌≡◌, refl, sym, ap, ◌∙◌, ◌≢◌, ◌↔◌, ◌⊎◌,
  inl, inr, Bool, true, false, not, ◌&&◌, ◌||◌, Option, none, some, List, [], ◌∷◌, ◌++◌, arith,
  dec_lt, ℕ_discrete, ltb, leb, ◌==◌, if◌then◌else◌, ltb→lt, lt→ltb, leb→le, ==_iff, Bool-cases,
  Option-cases, u8, u32, add32, sub32, minus_one, is_neg, slt, sign_extend8, Array, Bytes, update,
  length, get_or, get_elem?, get_elem?_lem, set, char_at, copy, copy_lem, tests, holds_up_to,
  holds_at, bit_and, bit_or, codes,
}
use os.Strings.{strlen}

-- The calls of ece391syscall.h that the programs make. `S` is what a call can read and change: the
-- kernel, the files and the devices. A buffer goes in as it is and comes out as the call leaves it.
pub record Calls (S : Type 0) : Type 0 where
  pub sys_read : ℕ → Bytes → ℕ → S → ℕ × Bytes × S
  pub sys_write : ℕ → Bytes → ℕ → S → ℕ × S
  pub sys_open_file : Bytes → S → ℕ × S
  pub sys_close : ℕ → S → ℕ × S
  pub sys_getargs : Bytes → ℕ → S → ℕ × Bytes × S
  pub sys_vidmap : ℕ → S → ℕ × S
  -- `INT $0x80` with another number
  pub sys_call : ℕ → S → ℕ × S
  pub sys_execute : Bytes → S → ℕ × S

-- `ece391_strlen` of a text that ends in a buffer of `room` bytes; it looks no further
unfoldable pub text_length : ℕ → ℕ → Bytes → ℕ
text_length zero i s = 0
text_length (suc room) i s =
    let rest = text_length room (i + 1) s in if s i == 0 then 0 else suc rest

-- `ece391_strcmp`, on texts of which one ends within `room` bytes; the bytes are unsigned
unfoldable pub strcmp : ℕ → ℕ → Bytes → Bytes → ℕ
strcmp zero i s1 s2 = 0
strcmp (suc room) i s1 s2 =
    let rest = strcmp room (i + 1) s1 s2 in
    if not (s1 i == s2 i) then sub32 (s1 i) (s2 i) else if s1 i == 0 then 0 else rest

module _ {S : Type 0} (calls : Calls S) where
  -- `ece391_fdputs` of a text of the program, and of one in a buffer of 1024 bytes
  unfoldable pub fdputs : ℕ → List ℕ → S → S
  fdputs fd s st = (calls.sys_write fd (char_at s) (strlen s) st).1

  unfoldable pub fdputs_buffer : ℕ → Bytes → S → S
  fdputs_buffer fd buf st = (calls.sys_write fd buf (text_length 1024 0 buf) st).1

  -- the loop of `cat`, with `fuel` rounds left; `none` if they run out
  unfoldable pub cat_loop : ℕ → ℕ → Bytes → S → Option (ℕ × S)
  cat_loop zero fd buf st = none
  cat_loop (suc fuel) fd buf st =
      let (cnt, buf1, st1) = calls.sys_read fd buf 1024 st in
      let (written, st2) = calls.sys_write 1 buf1 cnt st1 in
      let rest = cat_loop fuel fd buf1 st2 in
      if cnt == 0
      then some (0, st1)
      else if cnt == minus_one
      then some (3, fdputs 1 (codes "file read failed\n") st1)
      else if written == minus_one
      then some (3, st2)
      else rest

  -- `main` of ece391cat.c: the status and the state. `garbage` is the buffer before it is filled.
  unfoldable pub cat : ℕ → Bytes → S → Option (ℕ × S)
  cat fuel garbage st =
      let (failed, buf, st1) = calls.sys_getargs garbage 1024 st in
      let (fd, st2) = calls.sys_open_file buf st1 in
      let run = cat_loop fuel fd buf st2 in
      if not (failed == 0)
      then some (3, fdputs 1 (codes "could not read arguments\n") st1)
      else if fd == minus_one
      then some (2, fdputs 1 (codes "file not found\n") st2)
      else run

  -- the loop of `ls`: a newline is put behind each name, in the place that the count gives
  unfoldable pub ls_loop : ℕ → ℕ → Bytes → S → Option (ℕ × S)
  ls_loop zero fd buf st = none
  ls_loop (suc fuel) fd buf st =
      let (cnt, buf1, st1) = calls.sys_read fd buf 32 st in
      let buf2 = update buf1 cnt b'\n' in
      let (written, st2) = calls.sys_write 1 buf2 (cnt + 1) st1 in
      let rest = ls_loop fuel fd buf2 st2 in
      if cnt == 0
      then some (0, st1)
      else if cnt == minus_one
      then some (3, fdputs 1 (codes "directory entry read failed\n") st1)
      else if written == minus_one
      then some (3, st2)
      else rest

  -- `main` of ece391ls.c
  unfoldable pub ls : ℕ → Bytes → S → Option (ℕ × S)
  ls fuel garbage st =
      let (fd, st1) = calls.sys_open_file (char_at (codes ".")) st in
      let run = ls_loop fuel fd garbage st1 in
      if fd == minus_one then some (2, fdputs 1 (codes "directory open failed\n") st1) else run

  -- `main` of ece391hello.c
  unfoldable pub hello : Bytes → S → ℕ × S
  hello garbage st =
      let asked = fdputs 1 (codes "Hi, what's your name? ") st in
      let (cnt, buf, st1) = calls.sys_read 0 garbage 1023 asked in
      if cnt == minus_one
      then (3, fdputs 1 (codes "Can't read name from keyboard.\n") st1)
      else (0, fdputs_buffer 1 (update buf cnt 0) (fdputs 1 (codes "Hello, ") st1))

  -- what the shell prints of the result of a command
  unfoldable pub report : ℕ → S → S
  report rval st =
      if rval == minus_one
      then fdputs 1 (codes "no such command\n") st
      else if rval == 256
      then fdputs 1 (codes "program terminated by exception\n") st
      else if not (rval == 0)
      then fdputs 1 (codes "program terminated abnormally\n") st
      else st

  -- the loop of the shell, which only `exit` and a failed read end
  unfoldable pub shell_loop : ℕ → Bytes → S → Option (ℕ × S)
  shell_loop zero buf st = none
  shell_loop (suc fuel) buf st =
      let (cnt, line, st1) = calls.sys_read 0 buf 1023 (fdputs 1 (codes "391OS> ") st) in
      let end = if slt 0 cnt && line (cnt - 1) == b'\n' then cnt - 1 else cnt in
      let command = update line end 0 in
      let (rval, st2) = calls.sys_execute command st1 in
      let blank = shell_loop fuel command st1 in
      let rest = shell_loop fuel command (report rval st2) in
      if cnt == minus_one
      then some (3, fdputs 1 (codes "read from keyboard failed\n") st1)
      else if strcmp 1024 0 command (char_at (codes "exit")) == 0
      then some (0, st1)
      else if command 0 == 0
      then blank
      else rest

  -- `main` of ece391shell.c
  unfoldable pub shell : ℕ → Bytes → S → Option (ℕ × S)
  shell fuel garbage st = shell_loop fuel garbage (fdputs 1 (codes "Starting 391 Shell\n") st)
