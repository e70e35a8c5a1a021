-- ===== src/Programs/Refused.antt =====
-- The tests of syscalls/ece391syserr.c for calls that the kernel is to refuse, on the kernel.
use os.Common.{
  ℕ, zero, suc, ◌+◌, ◌≤◌, ◌<◌, ◌≡◌, refl, ap, ◌∙◌, Bool, true, ◌||◌, some, List, arith, dec_lt,
  ◌==◌, if◌then◌else◌, minus_one, slt, Array, Bytes, codes,
}
use os.Machine.{
  Kernel, FileDescriptor, stdin_fop, stdout_fop, scheduled, descriptors, sti, Reply, returns,
}
use os.Paging.{vidmap}
use os.Syscalls.{
  read_of, write_of, finish_read, invalid_terminal_read, invalid_terminal_write, read, write, close,
  is_bad, enter_read_call,
}
use os.Common.{by_branch}
use os.Programs.{Calls}
use os.Programs.OnKernel.{replied, kernel_calls}
use os.Programs.Errors.{
  neg_fd, big_fd, expect_failure, verdict, try_close, try_write, try_read, bad_fd, err_neg_fd,
  err_big_fd, close_each, read_each, write_each, err_unopened, err_vidmap, err_stdin_out,
}

-- the descriptors of the process that runs
abbrev pub table : Kernel → Array FileDescriptor
table k = descriptors k (scheduled k)

-- a process that has opened nothing: its first two descriptors are the terminal
pub record IsNew (fds : Array FileDescriptor) : Type 0 where
  pub stdin : (fds 0).operations ≡ stdin_fop
  pub stdout : (fds 1).operations ≡ stdout_fop
  pub unused : (i : ℕ) → 2 ≤ i → i < 8 → (fds i).flags ≡ 0

if_true {ℓ} : {A : Type ℓ} {b : Bool} (x y : A) → b ≡ true → (if b then x else y) ≡ x
if_true x y e = ap (λ b. if b then x else y) e

write-bad :
    (fd n : ℕ) (buf : Bytes) (k : Kernel)
    → is_bad fd n (table k) ≡ true
    → write fd (some buf) n k ≡ (minus_one, sti k)
unfolding write
write-bad fd n buf k e = if_true _ _ e

write-stdin :
    (n : ℕ) (buf : Bytes) (k : Kernel)
    → (table k 0).operations ≡ stdin_fop
    → write 0 (some buf) n k ≡ (minus_one, sti k)
unfolding write write_of invalid_terminal_write
write-stdin n buf k e =
    rw e (by_branch (λ (r : ℕ × Kernel). r ≡ (minus_one, sti k)) (is_bad 0 n (table k)) refl refl)

close-bad :
    (fd : ℕ) (k : Kernel)
    → ((table k fd).flags == 0 || (slt fd 2 || slt 7 fd)) ≡ true
    → close fd k ≡ (minus_one, sti k)
unfolding close
close-bad fd k e = if_true _ _ e

enter-table : (fd : ℕ) (k : Kernel) → table (enter_read_call fd k) ≡ table k
unfolding enter_read_call
enter-table fd k = by_branch (λ (k' : Kernel). table k' ≡ table k) (fd == 0) refl refl

read-bad :
    (fd n : ℕ) (buf : Bytes) (k : Kernel)
    → is_bad fd n (table k) ≡ true
    → read fd (some buf) n k ≡ returns minus_one buf (sti (enter_read_call fd k))
unfolding read
read-bad fd n buf k e = if_true _ _ (ap (is_bad fd n) (enter-table fd k) ∙ e)

close-refused :
    (fds : Array FileDescriptor) (fd : ℕ)
    → IsNew fds
    → fd < 8
    → ((fds fd).flags == 0 || (slt fd 2 || slt 7 fd)) ≡ true
close-refused fds i new h = elim (dec_lt i 2) [
  | yes low ↦ ground arith
  | no high ↦ ground (arith, new.unused i (omega (arith, high)) h)
]

bad-unused :
    (fds : Array FileDescriptor) (i : ℕ) → IsNew fds → 2 ≤ i → i < 8 → is_bad i 31 fds ≡ true
bad-unused fds i new low h = ground (arith, new.unused i low h)

read-stdout :
    (n : ℕ) (buf : Bytes) (k : Kernel)
    → (table k 1).operations ≡ stdout_fop
    → read 1 (some buf) n k ≡ returns minus_one buf (sti (enter_read_call 1 k))
unfolding read read_of finish_read invalid_terminal_read enter_read_call
read-stdout n buf k e = rw e (
    by_branch (λ (r : Reply). r ≡ returns minus_one buf (sti (enter_read_call 1 k)))
      (is_bad 1 n (table k)) refl refl)

-- a result of a test so far, when the kernel has refused what it was to refuse
pub record IsRefused (fds : Array FileDescriptor) (fail : ℕ) (k : Kernel) : Type 0 where
  pub passed : fail ≡ 0
  pub kept : table k ≡ fds

module _ (woken : ℕ → Bytes → ℕ → Kernel → ℕ × Bytes × Kernel) (ran : Bytes → Kernel → ℕ × Kernel)
    (linkage : ℕ → Kernel → ℕ × Kernel) (garbage : ℕ) where
  abbrev calls : Calls Kernel
  calls = kernel_calls woken ran linkage garbage

  try_close-IsRefused :
      (fds : Array FileDescriptor) (fd : ℕ) (message : List ℕ) (r : ℕ × Kernel)
      → ((fds fd).flags == 0 || (slt fd 2 || slt 7 fd)) ≡ true
      → IsRefused fds r.0 r.1
      → let (fail, k) = try_close calls fd message r in IsRefused fds fail k
  unfolding expect_failure
  try_close-IsRefused fds fd message (fail, k) shut v =
      rw (close-bad fd k (rw v.kept shut)) (record { passed = v.passed; kept = v.kept })

  try_write-IsRefused :
      (fds : Array FileDescriptor) (fd : ℕ) (buf : Bytes) (message : List ℕ) (r : ℕ × Kernel)
      → is_bad fd 31 fds ≡ true
      → IsRefused fds r.0 r.1
      → let (fail, k) = try_write calls fd buf message r in IsRefused fds fail k
  unfolding expect_failure
  try_write-IsRefused fds fd buf message (fail, k) bad v =
      rw (write-bad fd 31 buf k (rw v.kept bad)) (record { passed = v.passed; kept = v.kept })

  try_read-IsRefused :
      (fds : Array FileDescriptor) (fd : ℕ) (buf : Bytes) (message : List ℕ) (r : ℕ × Kernel)
      → is_bad fd 31 fds ≡ true
      → IsRefused fds r.0 r.1
      → let (fail, buf1, k) = try_read calls fd buf message r in IsRefused fds fail k
  unfolding expect_failure replied
  try_read-IsRefused fds fd buf message (fail, k) bad v =
      rw (read-bad fd 31 buf k (rw v.kept bad))
        (record { passed = v.passed; kept = enter-table fd k ∙ v.kept })

  bad_fd-IsRefused :
      (fd : ℕ) (buf : Bytes) (k : Kernel)
      → is_bad fd 31 (table k) ≡ true
      → ((table k fd).flags == 0 || (slt fd 2 || slt 7 fd)) ≡ true
      → (bad_fd calls fd buf k).0 ≡ 0
  unfolding bad_fd
  bad_fd-IsRefused fd buf k bad shut =
      let begun : IsRefused (table k) 0 k = record { passed = refl; kept = refl } in
      let read1 = try_read-IsRefused (table k) fd buf (codes "read fail\n") (0, k) bad begun in
      let written = try_write-IsRefused (table k) fd _ (codes "write fail\n") _ bad read1 in
      (try_close-IsRefused (table k) fd (codes "close fail\n") _ shut written).passed

  close_each-IsRefused :
      (rounds i : ℕ) (fds : Array FileDescriptor) (r : ℕ × Kernel)
      → IsNew fds
      → i + rounds ≤ 8
      → IsRefused fds r.0 r.1
      → let (fail, k) = close_each calls rounds i r in IsRefused fds fail k
  unfolding close_each
  close_each-IsRefused zero i fds r new h v = v
  close_each-IsRefused (suc rounds) i fds r new h v =
      close_each-IsRefused rounds (i + 1) fds _ new (omega (arith, h)) (
        try_close-IsRefused fds i (codes "close unopened or invalid fd fail\n") r
          (close-refused fds i new (omega (arith, h))) v)

  read_each-IsRefused :
      (rounds i : ℕ) (fds : Array FileDescriptor) (buf : Bytes) (r : ℕ × Kernel)
      → IsNew fds
      → 2 ≤ i
      → i + rounds ≤ 8
      → IsRefused fds r.0 r.1
      → let (fail, buf1, k) = read_each calls rounds i buf r in IsRefused fds fail k
  unfolding read_each
  read_each-IsRefused zero i fds buf r new low h v = v
  read_each-IsRefused (suc rounds) i fds buf r new low h v =
      read_each-IsRefused rounds (i + 1) fds _ _ new (omega (arith, low)) (omega (arith, h)) (
        try_read-IsRefused fds i buf (codes "read from unopened fd fail\n") r
          (bad-unused fds i new low (omega (arith, h))) v)

  write_each-IsRefused :
      (rounds i : ℕ) (fds : Array FileDescriptor) (buf : Bytes) (r : ℕ × Kernel)
      → IsNew fds
      → 2 ≤ i
      → i + rounds ≤ 8
      → IsRefused fds r.0 r.1
      → let (fail, k) = write_each calls rounds i buf r in IsRefused fds fail k
  unfolding write_each
  write_each-IsRefused zero i fds buf r new low h v = v
  write_each-IsRefused (suc rounds) i fds buf r new low h v =
      write_each-IsRefused rounds (i + 1) fds buf _ new (omega (arith, low)) (omega (arith, h)) (
        try_write-IsRefused fds i buf (codes "write to unopened fd fail\n") r
          (bad-unused fds i new low (omega (arith, h))) v)

  err_unopened-passes :
      (buf : Bytes) (k : Kernel) → IsNew (table k) → (err_unopened calls buf k).0 ≡ 0
  unfolding err_unopened verdict
  err_unopened-passes buf k new =
      (write_each-IsRefused 6 2 (table k) _ _ new (omega arith) (omega arith) (
        read_each-IsRefused 6 2 (table k) buf _ new (omega arith) (omega arith) (
          close_each-IsRefused 8 0 (table k) (0, k) new (omega arith)
            (record { passed = refl; kept = refl })))).passed

  err_vidmap-passes : (k : Kernel) → (err_vidmap calls k).0 ≡ 0
  unfolding err_vidmap verdict vidmap expect_failure
  err_vidmap-passes k = refl

  err_neg_fd-passes : (buf : Bytes) (k : Kernel) → (err_neg_fd calls buf k).0 ≡ 0
  unfolding err_neg_fd verdict
  err_neg_fd-passes buf k = bad_fd-IsRefused neg_fd buf k (ground arith) (ground arith)

  err_big_fd-passes : (buf : Bytes) (k : Kernel) → (err_big_fd calls buf k).0 ≡ 0
  unfolding err_big_fd verdict
  err_big_fd-passes buf k = bad_fd-IsRefused big_fd buf k (ground arith) (ground arith)

  err_stdin_out-passes :
      (buf : Bytes) (k : Kernel) → IsNew (table k) → (err_stdin_out calls buf k).0 ≡ 0
  unfolding err_stdin_out verdict expect_failure replied
  err_stdin_out-passes buf k new =
      rw (write-stdin 31 buf k new.stdin) (rw (read-stdout 31 buf (sti k) new.stdout) refl)

  -- On the kernel, the tests `err_neg_fd`, `err_big_fd`, `err_unopened`, `err_vidmap` and
  -- `err_stdin_out` return 0, their PASS, in a process whose descriptor 0 is stdin, whose
  -- descriptor 1 is stdout and whose other six are not open: the kernel refuses each read, write,
  -- close and `vidmap` that they make, also after the ones it has refused before. It holds for any
  -- contents of the buffers and whatever the rest of the kernel holds.
  pub refusals_pass :
      (buf : Bytes) (k : Kernel)
      → IsNew (table k)
      → ((err_neg_fd calls buf k).0 ≡ 0)
        × ((err_big_fd calls buf k).0 ≡ 0)
        × ((err_unopened calls buf k).0 ≡ 0)
        × ((err_vidmap calls k).0 ≡ 0)
        × ((err_stdin_out calls buf k).0 ≡ 0)
  refusals_pass buf k new = (
    err_neg_fd-passes buf k,
    err_big_fd-passes buf k,
    err_unopened-passes buf k new,
    err_vidmap-passes k,
    err_stdin_out-passes buf k new,
  )
