-- ===== src/Programs/OnKernel.antt =====
-- The system calls of the kernel, as a program sees them.
use os.Terminal.Output.{printed}
use os.Common.{ℕ, not, ◌&&◌, some, List, ◌++◌, ◌==◌, if◌then◌else◌, minus_one, Bytes}
use os.Machine.{Kernel, Reply, waits, returns}
use os.Strings.{c_string}
use os.Paging.{vidmap}
use os.Syscalls.{read, write, open_file, close, getargs}
use os.Programs.{Calls}

-- What the calls that leave the kernel come to is the interrupts' and other programs' doing: `woken`
-- for a read that waits, `ran` for a program that `execute` enters, and `linkage` for what the
-- assembly does with another number of a call. `garbage` is what `open` returns for a file of an
-- unknown type. A name is read up to its NUL, and is in a buffer of 1024 bytes.
module _ (woken : ℕ → Bytes → ℕ → Kernel → ℕ × Bytes × Kernel) (ran : Bytes → Kernel → ℕ × Kernel)
    (linkage : ℕ → Kernel → ℕ × Kernel) (garbage : ℕ) where
  unfoldable pub replied : ℕ → Bytes → ℕ → Reply → ℕ × Bytes × Kernel
  replied fd buf n (waits k) = woken fd buf n k
  replied fd buf n (returns r buf' k) = (r, buf', k)

  abbrev pub kernel_calls : Calls Kernel
  kernel_calls = record {
    sys_read = λ fd buf n k. replied fd buf n (read fd (some buf) n k);
    sys_write = λ fd buf n k. write fd (some buf) n k;
    sys_open_file = λ name k. open_file (some (c_string 1024 0 name)) garbage k;
    sys_close = close;
    sys_getargs = getargs;
    sys_vidmap = λ at k. let r = vidmap at k in (r.0, r.2);
    sys_call = linkage;
    sys_execute = ran;
  }

-- The calls with a log of the bytes, less NULs, that successful writes to descriptor 1 hand over.
abbrev pub logged : {S : Type 0} → Calls S → Calls (S × List ℕ)
logged calls = record {
  sys_read = λ fd buf n st. let r = calls.sys_read fd buf n st.0 in (r.0, r.1, (r.2, st.1));
  sys_write = λ fd buf n st.
      let r = calls.sys_write fd buf n st.0 in
      let heard = fd == 1 && not (r.0 == minus_one) in
      (r.0, (r.1, if heard then st.1 ++ printed n 0 buf else st.1));
  sys_open_file = λ name st. let r = calls.sys_open_file name st.0 in (r.0, (r.1, st.1));
  sys_close = λ fd st. let r = calls.sys_close fd st.0 in (r.0, (r.1, st.1));
  sys_getargs = λ buf n st. let r = calls.sys_getargs buf n st.0 in (r.0, r.1, (r.2, st.1));
  sys_vidmap = λ at st. let r = calls.sys_vidmap at st.0 in (r.0, (r.1, st.1));
  sys_call = λ number st. let r = calls.sys_call number st.0 in (r.0, (r.1, st.1));
  sys_execute = λ command st. let r = calls.sys_execute command st.0 in (r.0, (r.1, st.1));
}
