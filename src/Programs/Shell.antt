-- ===== src/Programs/Shell.antt =====
-- What the shell does with the lines that it is given.
use os.Common.{Bool}
use os.Common.{
  ℕ, ◌-◌, ◌<◌, ◌≡◌, ◌≢◌, false, ◌&&◌, ◌||◌, List, [], ◌∷◌, ◌++◌, ◌==◌, if◌then◌else◌, slt, Bytes,
  update, length, codes,
}
use os.Strings.{c_string}
use os.Strings.Compare.{AreBytes, IsString}
use os.Programs.{Calls, fdputs}

-- A read of the keyboard in `st` gives the text, with NULs behind, and the count that was asked for;
-- the lines `rest` are pending then. `ran` is the list of the commands that were executed.
abbrev pub Hears :
    {S : Type 0}
    → Calls S
    → (S → List (List ℕ))
    → (S → List (List ℕ))
    → Bytes
    → S
    → List ℕ
    → List (List ℕ)
    → Type 0
Hears calls pending ran buf st text rest =
    let r = calls.sys_read 0 buf 1023 st in
    (r.0 ≡ 1023)
    × (c_string 1022 0 r.1 ≡ text)
    × AreBytes r.1
    × (pending r.2 ≡ rest)
    × (ran r.2 ≡ ran st)

-- What the shell relies on, which is how student-distrib/terminal.c hands over a line: a read gives
-- the next line that is pending, with its newline, but `exit` without; a program that is executed is
-- the one of the command, and leaves the lines that are pending to the shell; writes change neither.
pub record Obeys {S : Type 0} (calls : Calls S) (pending ran : S → List (List ℕ)) : Type 0 where
  pub reads :
      (buf : Bytes) (st : S) (l : List ℕ) (rest : List (List ℕ))
      → pending st ≡ l ∷ rest
      → l ≢ codes "exit"
      → IsString l
      → length l < 1021
      → Hears calls pending ran buf st (l ++ b'\n' ∷ []) rest
  pub reads_exit :
      (buf : Bytes) (st : S) (rest : List (List ℕ))
      → pending st ≡ codes "exit" ∷ rest
      → Hears calls pending ran buf st (codes "exit") rest
  pub writes :
      (buf : Bytes) (n : ℕ) (st : S)
      → let r = calls.sys_write 1 buf n st in (pending r.1 ≡ pending st) × (ran r.1 ≡ ran st)
  pub executes :
      (buf : Bytes) (st : S)
      → let r = calls.sys_execute buf st in
        (pending r.1 ≡ pending st) × (ran r.1 ≡ ran st ++ c_string 1024 0 buf ∷ [])

-- the commands that lines give: each line with its newline, the empty ones too
abbrev pub commands : List (List ℕ) → List (List ℕ)
commands [] = []
commands (l ∷ ls) = (l ++ b'\n' ∷ []) ∷ commands ls

-- lines that the shell can read, and none of them `exit`
abbrev pub AreLines : List (List ℕ) → Type 0
AreLines [] = Unit {0}
AreLines (l ∷ ls) = IsString l × (length l < 1021) × (l ≢ codes "exit") × AreLines ls

abbrev has_newline : List ℕ → Bool
has_newline [] = false
has_newline (c ∷ l) = c == b'\n' || has_newline l

-- the end of the command in the buffer, where the shell puts a NUL
abbrev cut : ℕ → Bytes → Bytes
cut cnt line = update line (if slt 0 cnt && line (cnt - 1) == b'\n' then cnt - 1 else cnt) 0

module _ {S : Type 0} (calls : Calls S) (pending ran : S → List (List ℕ))
    (obeys : Obeys calls pending ran) where
  abbrev KeepsTurn : S → S → Type 0
  KeepsTurn st st' = (pending st' ≡ pending st) × (ran st' ≡ ran st)

  -- the state and the buffer behind a line that is read, with the NUL in its place
  abbrev asked : Bytes → S → ℕ × Bytes × S
  asked buf st = calls.sys_read 0 buf 1023 (fdputs calls 1 (codes "391OS> ") st)
