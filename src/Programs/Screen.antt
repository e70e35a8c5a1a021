-- ===== src/Programs/Screen.antt =====
-- What a program on the kernel relies on when it writes to the screen.
use os.Common.{
  ℕ, ◌^◌, ◌<◌, ◌≡◌, refl, sym, ap, ◌∙◌, ◌≢◌, false, some, arith, ◌==◌, minus_one, Bytes,
}
use os.Machine.{Kernel, stdout_fop, slot, scheduled, descriptors, cli, sti}
use os.Descriptors.Read.{descriptor}
use os.Terminal.{terminal_write}
use os.Terminal.Output.{terminal_write_count}
use os.Terminal.Frame.{scheduled-same, terminal_write-IsBeside}
use os.Syscalls.{write, write_of, is_bad}
use os.Programs.Ls.OfKernel.{length-printed}
use os.Programs.OnKernel.{kernel_calls, logged}
use os.Programs.Counter.Numerals.{Prints}

-- the kernel when the process that runs has the screen open at descriptor 1
pub record IsShowing (k : Kernel) : Type 0 where
  pub mine : scheduled k ≡ slot k.process_num
  pub out : (descriptor k 1).operations ≡ stdout_fop
  pub out_open : (descriptor k 1).flags ≢ 0

-- the kernel behind a write
abbrev pub written : Bytes → ℕ → Kernel → Kernel
written buf n k = sti (terminal_write 1 (some buf) n (cli k)).1

pub write-shown :
    (k : Kernel) (buf : Bytes) (n : ℕ)
    → IsShowing k
    → n < 2 ^ 31
    → write 1 (some buf) n k ≡ (n, written buf n k)
unfolding write write_of
write-shown k buf n v h =
    let screen : (descriptors k (scheduled k) 1).operations ≡ stdout_fop = rw (v.mine) (v.out) in
    let fine : is_bad 1 n (descriptors k (scheduled k)) ≡ false =
      rw (v.mine) (ground (arith, v.out_open)) in
    let count = (terminal_write_count 1 buf n (cli k) (omega arith)).0 h in
    let few = length-printed n 0 buf in
    let t : ((terminal_write 1 (some buf) n (cli k)).0 == minus_one) ≡ false =
      ground (arith, count, few) in
    rw (write, screen, fine, t) refl

pub written-descriptors :
    (k : Kernel) (buf : Bytes) (n : ℕ)
    → descriptors (written buf n k) (slot (written buf n k).process_num)
      ≡ descriptors k (slot k.process_num)
written-descriptors k buf n =
    let b = terminal_write-IsBeside 1 n buf (cli k) in
    ap (λ f. (f (slot (written buf n k).process_num)).file_descriptor) (b.pcbs)
    ∙ ap (λ n. descriptors k (slot n)) (b.current)

pub written-IsShowing :
    (k : Kernel) (buf : Bytes) (n : ℕ) → IsShowing k → IsShowing (written buf n k)
written-IsShowing k buf n v =
    let b = terminal_write-IsBeside 1 n buf (cli k) in
    let same = written-descriptors k buf n in
    record {
      mine = scheduled-same (cli k) _ b ∙ v.mine ∙ ap slot (sym (b.current));
      out = rw same (v.out);
      out_open = rw same (v.out_open);
    }

-- The log of the bytes that are written to descriptor 1 grows by those that the program writes.
pub kernel-Prints :
    (woken : ℕ → Bytes → ℕ → Kernel → ℕ × Bytes × Kernel) (ran : Bytes → Kernel → ℕ × Kernel)
    (linkage : ℕ → Kernel → ℕ × Kernel) (garbage : ℕ)
    → Prints (logged (kernel_calls woken ran linkage garbage)) (λ st. IsShowing st.0) (λ st. st.1)
kernel-Prints woken ran linkage garbage = record {
  prints = λ buf n st v h.
      let t : (n == minus_one) ≡ false = ground (arith, h) in
      rw (write-shown st.0 buf n v h) (rw t refl, written-IsShowing st.0 buf n v);
}
