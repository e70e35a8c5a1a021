-- ===== src/Tests/Users.antt =====
-- The theorems on the programs of syscalls/, at a concrete input.
use os.Strings.{c_string}
use os.Common.{Bool, true, ◌&&◌}
use os.Common.{
  ℕ, ◌-◌, ◌≡◌, refl, ◌≢◌, false, none, some, List, [], ◌∷◌, ◌++◌, arith, ltb, leb, ◌==◌,
  if◌then◌else◌, minus_one, Bytes, length, get_or, char_at, codes,
}
use os.Files.{read_dentry_by_name, search_dentry, read_dentry_by_index}
use os.Descriptors.{blank}
use os.Strings.{strncmp, strncmp_from, strncpy, copy_until_nul, fill}
use os.Tests.{disk}
use os.Programs.{ls}
use os.Programs.OnKernel.{logged}
use os.Programs.Ls.Directory.{directory_text, ls-directory}
use os.Programs.{fdputs, Calls, cat}
use os.Programs.Counter.{counter, question}
use os.Programs.Counter.Numerals.{AreCounted, Prints, counter_lem}
use os.Programs.{text_length, fdputs_buffer}
use os.Programs.Grep.{search_lines, find_line_end, search_line, strncmp_bytes}
use os.Strings.{strlen}
use os.Machine.{stdin_fop, stdout_fop, no_fop, Kernel}
use os.Tests.{process, machine, zeros}
use os.Programs.OnKernel.{kernel_calls}
use os.Programs.Errors.{err_neg_fd, err_big_fd, err_unopened, err_vidmap, err_stdin_out}
use os.Programs.Refused.{table, IsNew, refusals_pass}
use os.Programs.Cat.{Serves, drop, visible, cat_lem}
use os.Terminal.Output.{printed}

-- A file that one descriptor reads, as the bytes that are left, and a screen, as those it was sent.
abbrev tape : Calls (List ℕ × List ℕ)
tape = record {
  sys_read = λ fd buf n st.
      (if leb (length st.0) 0 then 0 else n, (λ i. get_or st.0 i 0), (drop n st.0, st.1));
  sys_write = λ fd buf n st. (n, (st.0, st.1 ++ printed n 0 buf));
  sys_open_file = λ name st. (2, st);
  sys_close = λ fd st. (1, st);
  sys_getargs = λ buf n st. (0, char_at (codes "notes"), st);
  sys_vidmap = λ at st. (0, st);
  sys_call = λ number st. (minus_one, st);
  sys_execute = λ command st. (0, st);
}

some_left : (l : List ℕ) → l ≢ [] → leb (length l) 0 ≡ false
some_left [] e = absurd (e refl)
some_left (c ∷ l) e = ground arith

tape-Serves : Serves tape 2 (λ st. Unit {0}) (λ st. st.0) (λ st. st.1)
tape-Serves = record {
  at_end = λ buf st _ e. (ground (arith, e), refl);
  more = λ buf st _ e. (ground (arith, some_left st.0 e), λ i h. refl, refl, refl, _);
  prints = λ buf n st _ h. (λ e. omega (arith, e), refl, refl, _);
}

abbrev three_bytes : List ℕ × List ℕ
three_bytes = (codes "hi\n", [])

cat_lem_example :
    (end : List ℕ × List ℕ) × (cat tape 4 zeros three_bytes ≡ some (0, end))
    × (end.1 ≡ [] ++ visible (codes "hi\n"))
cat_lem_example =
    cat_lem tape 2 (λ st. Unit {0}) (λ st. st.0) (λ st. st.1) tape-Serves 4 zeros three_bytes refl
      refl (λ e. omega (arith, e)) _ (omega arith)

-- the same machine, but with the terminal and no file open
abbrev idle : Kernel
idle = record machine {
  pcbs = λ n. record (process (n - 1)) {
    file_descriptor = λ i. record {
      operations = if i == 0 then stdin_fop else if i == 1 then stdout_fop else no_fop;
      inode = 0;
      file_position = 0;
      flags = if ltb i 2 then 1 else 0;
    };
  };
}

idle-IsNew : IsNew (table idle)
idle-IsNew = record { stdin = refl; stdout = refl; unused = λ i low high. ground (arith, low) }

-- what the calls do that the tests do not wait for
abbrev wakes : ℕ → Bytes → ℕ → Kernel → ℕ × Bytes × Kernel
wakes fd buf n k = (0, buf, k)

abbrev runs : Bytes → Kernel → ℕ × Kernel
runs command k = (0, k)

abbrev links : ℕ → Kernel → ℕ × Kernel
links number k = (minus_one, k)

refusals_pass_example :
    let calls = kernel_calls wakes runs links 0 in
    ((err_neg_fd calls zeros idle).0 ≡ 0)
    × ((err_big_fd calls zeros idle).0 ≡ 0)
    × ((err_unopened calls zeros idle).0 ≡ 0)
    × ((err_vidmap calls idle).0 ≡ 0)
    × ((err_stdin_out calls zeros idle).0 ≡ 0)
refusals_pass_example = refusals_pass wakes runs links 0 zeros idle idle-IsNew

-- a terminal on which `1` is answered, as the bytes that it shows
abbrev answering : Calls (List ℕ)
answering = record {
  sys_read = λ fd buf n st. (n, char_at (codes "1\n"), st);
  sys_write = λ fd buf n st. (n, st ++ printed n 0 buf);
  sys_open_file = λ name st. (2, st);
  sys_close = λ fd st. (1, st);
  sys_getargs = λ buf n st. (minus_one, buf, st);
  sys_vidmap = λ at st. (0, st);
  sys_call = λ number st. (minus_one, st);
  sys_execute = λ command st. (0, st);
}

answering-Prints : Prints answering (λ st. Unit {0}) (λ st. st)
answering-Prints = record { prints = λ buf n st _ h. (refl, _) }

abbrev asked : List ℕ
asked = fdputs answering 1 question []

counter_lem_example :
    (shown : List ℕ) × (end : List ℕ) × (counter answering zeros [] ≡ (0, end))
    × (end ≡ asked ++ shown)
    × AreCounted 10000 0 shown
counter_lem_example =
    counter_lem answering (λ st. Unit {0}) (λ st. st) answering-Prints zeros (char_at (codes "1\n"))
      1023 1 [] asked (omega arith) refl (λ e. omega (arith, e)) (omega arith) _ refl refl refl

-- what a search for `x` shows of a file `f` of two lines
grep_shows :
    elim (search_lines answering
      (char_at (codes "x"))
      (char_at (codes "f"))
      4
      6
      6
      0
      (char_at (codes "ab\nxb\n"))
      []) [ none ↦ [] | some r ↦ r.2 ]
    ≡ codes "f:xb\n"
unfolding search_lines find_line_end search_line strncmp_bytes text_length fdputs fdputs_buffer
    printed strlen
grep_shows = refl

-- the idle machine with a directory of two entries
abbrev listed : Kernel
listed = record idle {
  fs = record disk {
    dir_count = 2;
    direntries = λ i. record {
      filename = char_at (if i == 0 then codes "." else codes "notes");
      file_type = if i == 0 then 1 else 2;
      inode_num = 0;
    };
  };
}

dot_entry :
    ((read_dentry_by_name listed.fs (codes ".") blank).0 ≡ 0)
    × ((read_dentry_by_name listed.fs (codes ".") blank).1.file_type ≡ 1)
unfolding read_dentry_by_name search_dentry read_dentry_by_index strlen strncmp strncmp_from strncpy
    copy_until_nul fill
dot_entry = (refl, refl)

ls-directory_example :
    (end : Kernel) × (ls (logged (kernel_calls wakes runs links 0)) 3 zeros (listed, [])
      ≡ some (0, (end, directory_text listed.fs 2 0)))
ls-directory_example =
    ls-directory wakes runs links 0 2 3 zeros listed (omega arith) refl refl (λ e. omega (arith, e))
      (omega arith, omega arith, refl, λ j low high. absurd (omega (arith, low, high))) dot_entry.0
      dot_entry.1 (omega arith)

abbrev same : List ℕ → List ℕ → Bool
same [] [] = true
same [] (b ∷ k) = false
same (a ∷ l) [] = false
same (a ∷ l) (b ∷ k) = a == b && same l k

-- what a read gives of a line
abbrev handed : List ℕ → List ℕ
handed l = if same l (codes "exit") then l else l ++ codes "\n"

-- a keyboard with lines that are pending, and the commands that were executed
abbrev commanded : Calls (List (List ℕ) × List (List ℕ))
commanded = record {
  sys_read = λ fd buf n st. elim st.0 [
    | [] ↦ (minus_one, buf, st)
    | l ∷ rest ↦ (1023, char_at (handed l), (rest, st.1))
  ];
  sys_write = λ fd buf n st. (n, st);
  sys_open_file = λ name st. (2, st);
  sys_close = λ fd st. (1, st);
  sys_getargs = λ buf n st. (minus_one, buf, st);
  sys_vidmap = λ at st. (0, st);
  sys_call = λ number st. (minus_one, st);
  sys_execute = λ buf st. (0, (st.0, st.1 ++ c_string 1024 0 buf ∷ []));
}

abbrev typed_lines : List (List ℕ)
typed_lines = codes "ls" ∷ [] ∷ codes "cat frame0.txt" ∷ []
