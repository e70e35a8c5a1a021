-- ===== src/Programs/Errors.antt =====
-- syscalls/ece391syserr.c: the program that tests how the system calls fail.
use os.Common.{
  ℕ, zero, suc, ◌+◌, ◌-◌, ◌^◌, not, List, [], ◌==◌, if◌then◌else◌, sub32, minus_one, Bytes, char_at,
  codes,
}
use os.Programs.{Calls, fdputs}

abbrev pub neg_fd : ℕ
neg_fd = 2 ^ 32 - 1073741823

abbrev pub big_fd : ℕ
big_fd = 1073741823

module _ {S : Type 0} (calls : Calls S) where
  -- what each test does with a result that is to be -1: the fault so far, and the state
  unfoldable pub expect_failure : ℕ → List ℕ → ℕ × S → ℕ × S
  expect_failure result message (fail, st) =
      if not (result == minus_one) then (2, fdputs calls 1 message st) else (fail, st)

  -- how each test ends
  unfoldable pub verdict : List ℕ → List ℕ → ℕ × S → ℕ × S
  verdict failed passed (fail, st) =
      (fail, fdputs calls 1 (if not (fail == 0) then failed else passed) st)

  abbrev pub try_close : ℕ → List ℕ → ℕ × S → ℕ × S
  try_close fd message (fail, st) =
      let (result, st1) = calls.sys_close fd st in expect_failure result message (fail, st1)

  abbrev pub try_write : ℕ → Bytes → List ℕ → ℕ × S → ℕ × S
  try_write fd buf message (fail, st) =
      let (result, st1) = calls.sys_write fd buf 31 st in expect_failure result message (fail, st1)

  abbrev pub try_read : ℕ → Bytes → List ℕ → ℕ × S → ℕ × Bytes × S
  try_read fd buf message (fail, st) =
      let (result, buf1, st1) = calls.sys_read fd buf 31 st in
      let (fail1, st2) = expect_failure result message (fail, st1) in (fail1, buf1, st2)

  -- the part that `err_neg_fd` and `err_big_fd` share
  unfoldable pub bad_fd : ℕ → Bytes → S → ℕ × S
  bad_fd fd buf st =
      let (fail, buf1, st1) = try_read fd buf (codes "read fail\n") (0, st) in
      try_close fd (codes "close fail\n") (try_write fd buf1 (codes "write fail\n") (fail, st1))

  unfoldable pub err_neg_fd : Bytes → S → ℕ × S
  err_neg_fd buf st =
      verdict (codes "err_neg_fd: FAIL\n") (codes "err_neg_fd: PASS\n") (bad_fd neg_fd buf st)

  unfoldable pub err_big_fd : Bytes → S → ℕ × S
  err_big_fd buf st =
      verdict (codes "err_big_fd: FAIL\n") (codes "err_big_fd: PASS\n") (bad_fd big_fd buf st)

  -- the loops of `err_open_lots`: the number of failures, and the state
  unfoldable pub open_lots : ℕ → ℕ × S → ℕ × S
  open_lots zero r = r
  open_lots (suc rounds) (cnt, st) =
      let (fd, st1) = calls.sys_open_file (char_at (codes ".")) st in
      open_lots rounds (if fd == minus_one then cnt + 1 else cnt, st1)

  unfoldable pub close_lots : ℕ → ℕ → S → S
  close_lots zero i st = st
  close_lots (suc rounds) i st = close_lots rounds (i + 1) (calls.sys_close i st).1

  unfoldable pub err_open_lots : S → ℕ × S
  err_open_lots st =
      let (cnt, st1) = open_lots 7 (0, st) in
      let st2 = close_lots 6 2 st1 in
      if cnt == 1
      then (0, fdputs calls 1 (codes "err_open_lots: PASS\n") st2)
      else (2, fdputs calls 1 (codes "err_open_lots: FAIL\n") st2)

  abbrev pub try_open : List ℕ → List ℕ → ℕ × S → ℕ × S
  try_open filename message (fail, st) =
      let (result, st1) = calls.sys_open_file (char_at filename) st in
      expect_failure result message (fail, st1)

  unfoldable pub err_open : S → ℕ × S
  err_open st =
      let longer = try_open (codes "helloo") (codes "'helloo' fail\n") (0, st) in
      let shorter = try_open (codes "shel") (codes "'shel' fail\n") longer in
      let empty = try_open [] (codes "empty string fail\n") shorter in
      verdict (codes "err_open: FAIL\n") (codes "err_open: PASS\n") empty

  -- the three loops of `err_unopened`, with `rounds` left
  unfoldable pub close_each : ℕ → ℕ → ℕ × S → ℕ × S
  close_each zero i r = r
  close_each (suc rounds) i r =
      close_each rounds (i + 1) (try_close i (codes "close unopened or invalid fd fail\n") r)

  unfoldable pub read_each : ℕ → ℕ → Bytes → ℕ × S → ℕ × Bytes × S
  read_each zero i buf (fail, st) = (fail, buf, st)
  read_each (suc rounds) i buf r =
      let (fail, buf1, st) = try_read i buf (codes "read from unopened fd fail\n") r in
      read_each rounds (i + 1) buf1 (fail, st)

  unfoldable pub write_each : ℕ → ℕ → Bytes → ℕ × S → ℕ × S
  write_each zero i buf r = r
  write_each (suc rounds) i buf r =
      write_each rounds (i + 1) buf (try_write i buf (codes "write to unopened fd fail\n") r)

  unfoldable pub err_unopened : Bytes → S → ℕ × S
  err_unopened buf st =
      let (fail, buf1, st1) = read_each 6 2 buf (close_each 8 0 (0, st)) in
      verdict (codes "err_unopened: FAIL\n") (codes "err_unopened: PASS\n")
        (write_each 6 2 buf1 (fail, st1))

  abbrev pub try_vidmap : ℕ → List ℕ → ℕ × S → ℕ × S
  try_vidmap at message (fail, st) =
      let (result, st1) = calls.sys_vidmap at st in expect_failure result message (fail, st1)

  unfoldable pub err_vidmap : S → ℕ × S
  err_vidmap st = verdict (codes "err_vidmap: FAIL\n") (codes "err_vidmap: PASS\n") (
      try_vidmap 0x400000 (codes "Kernel pointer fail fail\n")
        (try_vidmap 0 (codes "Null pointer fail\n") (0, st)))

  unfoldable pub err_stdin_out : Bytes → S → ℕ × S
  err_stdin_out buf st =
      let (fail, _, st1) =
        try_read 1 buf (codes "read from stdout fail\n")
          (try_write 0 buf (codes "write to stdin fail\n") (0, st)) in
      verdict (codes "err_stdin_out: FAIL\n") (codes "err_stdin_out: PASS\n") (fail, st1)

  abbrev pub try_call : ℕ → List ℕ → ℕ × S → ℕ × S
  try_call number message (fail, st) =
      let (result, st1) = calls.sys_call number st in expect_failure result message (fail, st1)

  unfoldable pub err_syscall_num : S → ℕ × S
  err_syscall_num st =
      let big = try_call big_fd (codes "syscall 0 fail\n") (0, st) in
      let negative = try_call neg_fd (codes "big num syscall fail\n") big in
      let none_such = try_call 0 (codes "neg num syscall fail\n") negative in
      verdict (codes "err_syscall_num: FAIL\n") (codes "err_syscall_num: PASS\n") none_such

  -- One test behind another: the sum of their results. Each has a buffer of its own on the stack.
  abbrev pub next_test : (S → ℕ × S) → ℕ × S → ℕ × S
  next_test test (fail, st) = let (result, st1) = test st in (fail + result, st1)

  unfoldable pub all_tests : (ℕ → Bytes) → S → ℕ × S
  all_tests garbage st =
      let four = next_test err_open (
        next_test err_open_lots
          (next_test (err_big_fd (garbage 2)) (next_test (err_neg_fd (garbage 1)) (0, st)))) in
      let eight = next_test err_syscall_num (
        next_test (err_stdin_out (garbage 7))
          (next_test err_vidmap (next_test (err_unopened (garbage 5)) four))) in
      let (fail, st1) = eight in
      (
        fail,
        fdputs calls 1
            (if not (fail == 0)
              then codes "\nOverall Tests: FAIL\n"
              else codes "\nOverall Tests: PASS\n")
            st1,
      )

  -- `main`
  unfoldable pub syserr : (ℕ → Bytes) → S → ℕ × S
  syserr garbage st =
      let asked = fdputs calls 1 (codes "Choose from tests 1-8. 0 to run all: ") st in
      let (cnt, buf, st1) = calls.sys_read 0 (garbage 0) 127 asked in
      let select = sub32 (buf 0) b'0' in
      if cnt == minus_one
      then (2, fdputs calls 1 (codes "Can't read test #\n") st1)
      else if select == 0
      then all_tests garbage st1
      else if select == 1
      then err_neg_fd (garbage 1) st1
      else if select == 2
      then err_big_fd (garbage 2) st1
      else if select == 3
      then err_open_lots st1
      else if select == 4
      then err_open st1
      else if select == 5
      then err_unopened (garbage 5) st1
      else if select == 6
      then err_vidmap st1
      else if select == 7
      then err_stdin_out (garbage 7) st1
      else if select == 8
      then err_syscall_num st1
      else (0, fdputs calls 1 (codes "Invalid test number. Choose from tests 1-8 or 0") st1)
