-- ===== src/Syscalls/Dispatch.antt =====
-- What a process can rely on when it calls `read`, `write`, `open` and `close`.
use os.Common.{
  ℕ, ◌≡◌, refl, ap, ◌∙◌, ◌⊎◌, inl, inr, Bool, true, Option, none, some, List, arith, ℕ_discrete,
  ◌==◌, if◌then◌else◌, Bool-cases, minus_one, Bytes,
}
use os.Machine.{
  FileOps, no_fop, stdout_fop, Kernel, scheduled, descriptors, cli, sti, Reply, waits, returns,
}
use os.Pic.{enable_irq, disable_irq}
use os.Pic.Masks.{HasByteMasks, is_masked, irq_masks}
use os.Descriptors.{file_read, directory_read}
use os.Rtc.{rtc_read}
use os.Terminal.{terminal_read}
use os.Syscalls.{
  read_of, is_bad, finish_read, enter_read_call, read, write, open_file, close,
  invalid_terminal_read,
}

-- the interrupt flag with which a read returns or waits
abbrev pub interrupts_after : Reply → Bool
interrupts_after (waits k) = k.hardware.interrupts
interrupts_after (returns r buf k) = k.hardware.interrupts

-- the flag of a read that waits; one that returns is not looked at
abbrev interrupts_in_wait : Reply → Bool
interrupts_in_wait (waits k) = k.hardware.interrupts
interrupts_in_wait (returns r buf k) = true

finish_read-enabled :
    (n : ℕ) (r : Reply) → interrupts_in_wait r ≡ true → interrupts_after (finish_read n r) ≡ true
unfolding finish_read
finish_read-enabled n (waits k) h = h
finish_read-enabled n (returns r buf k) h = ground arith

read_of-wait :
    (ops : FileOps) (fd : ℕ) (buf : Bytes) (n : ℕ) (k : Kernel)
    → interrupts_in_wait (read_of ops fd buf n k) ≡ true
unfolding read_of terminal_read rtc_read file_read directory_read invalid_terminal_read enable_irq
    disable_irq
read_of-wait no_fop fd buf n k = refl
read_of-wait stdout_fop fd buf n k = refl
read_of-wait _ fd buf n k = ground arith

read-enabled :
    (fd : ℕ) (buf : Option Bytes) (n : ℕ) (k : Kernel) → interrupts_after (read fd buf n k) ≡ true
unfolding read
read-enabled fd none n k = refl
read-enabled fd (some buf) n k =
    let k1 = enter_read_call fd k in
    let fds = descriptors k1 (scheduled k1) in
    elim (Bool-cases (is_bad fd n fds)) [
      | inl e ↦
          ap
            (λ b. interrupts_after (
              if b
              then returns minus_one buf (sti k1)
              else finish_read n (read_of (fds fd).operations fd buf n k1)))
            e
      | inr e ↦
          ap
            (λ b. interrupts_after (
              if b
              then returns minus_one buf (sti k1)
              else finish_read n (read_of (fds fd).operations fd buf n k1)))
            e
          ∙ finish_read-enabled n (read_of (fds fd).operations fd buf n k1)
              (read_of-wait (fds fd).operations fd buf n k1)
    ]

write-enabled :
    (fd : ℕ) (buf : Option Bytes) (n : ℕ) (k : Kernel)
    → (write fd buf n k).1.hardware.interrupts ≡ true
unfolding write
write-enabled fd none n k = refl
write-enabled fd (some buf) n k = ground arith

open_file-enabled :
    (filename : Option (List ℕ)) (garbage : ℕ) (k : Kernel)
    → (open_file filename garbage k).1.hardware.interrupts ≡ true
unfolding open_file
open_file-enabled none garbage k = refl
open_file-enabled (some filename) garbage k = ground arith

-- The kernel that `read`, `write`, `open` and `close` return with has interrupts enabled, and so
-- has the kernel in which a `read` waits. It holds for all arguments, those that are refused and
-- NULL pointers included, and for every kernel.
pub calls_enable_interrupts :
    (fd : ℕ) (buf : Option Bytes) (filename : Option (List ℕ)) (garbage n : ℕ) (k : Kernel)
    → (interrupts_after (read fd buf n k) ≡ true)
      × ((write fd buf n k).1.hardware.interrupts ≡ true)
      × ((open_file filename garbage k).1.hardware.interrupts ≡ true)
      × ((close fd k).1.hardware.interrupts ≡ true)
unfolding close
calls_enable_interrupts fd buf filename garbage n k = (
  read-enabled fd buf n k,
  write-enabled fd buf n k,
  open_file-enabled filename garbage k,
  ground arith,
)

-- the kernel in which a read waits or returns
abbrev pub after : Reply → Kernel
after (waits k) = k
after (returns r buf k) = k

abbrev pub result : Reply → Option ℕ
result (waits k) = none
result (returns r buf k) = some r

-- the results that `read` can give for a count `n`; `none` while it waits
abbrev pub IsReadResult : ℕ → Option ℕ → Type 0
IsReadResult n r = (r ≡ none) ⊎ ((r ≡ some 0) ⊎ ((r ≡ some minus_one) ⊎ (r ≡ some n)))

finish_read-result : (n : ℕ) (r : Reply) → IsReadResult n (result (finish_read n r))
unfolding finish_read
finish_read-result n (waits k) = inl refl
finish_read-result n (returns r buf k) = ground arith

-- Whatever number of bytes the read of the device returned, a `read` that returns gives 0, -1 or
-- `n`, the number of bytes asked for.
pub read_result :
    (fd : ℕ) (buf : Option Bytes) (n : ℕ) (k : Kernel) → IsReadResult n (result (read fd buf n k))
unfolding read
read_result fd none n k = inr (inr (inl refl))
read_result fd (some buf) n k =
    let k1 = enter_read_call fd k in
    let fds = descriptors k1 (scheduled k1) in
    elim (Bool-cases (is_bad fd n fds)) [
      | inl e ↦ inr (
          inr (
            inl (
              ap
                (λ b. result (
                  if b
                  then returns minus_one buf (sti k1)
                  else finish_read n (read_of (fds fd).operations fd buf n k1)))
                e)))
      | inr e ↦
          rw
            (ap
              (λ b. result (
                if b
                then returns minus_one buf (sti k1)
                else finish_read n (read_of (fds fd).operations fd buf n k1)))
              e)
            (finish_read-result n (read_of (fds fd).operations fd buf n k1))
    ]

-- A `read` with a NULL pointer ends with the line of the timer masked if `fd` is 0, and unmasked
-- for every other `fd`; its result is -1.
pub read_null_masks_timer :
    (fd n : ℕ) (k : Kernel)
    → HasByteMasks k.hardware
    → (result (read fd none n k) ≡ some minus_one)
      × (is_masked (after (read fd none n k)).hardware 0 ≡ (fd == 0))
unfolding read enter_read_call is_masked
read_null_masks_timer fd n k v =
    let v0 : HasByteMasks (cli k).hardware = record { master = v.master; slave = v.slave } in
    let off = irq_masks (cli k).hardware 0 0 v0 (omega arith) (omega arith) in
    let on = irq_masks (disable_irq 0 (cli k).hardware) 0 0 off.3 (omega arith) (omega arith) in
    (refl, elim (ℕ_discrete fd 0) [ yes e ↦ ground (arith, off.1) | no e ↦ ground (arith, on.0) ])
