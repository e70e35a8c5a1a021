-- ===== src/Programs/Counter.antt =====
-- syscalls/ece391counter.c and syscalls/ece391testprint.c. `ece391_itoa` is, statement by statement,
-- `itoa` of student-distrib/lib.c.
pub mod Numerals
use os.Common.{
  ℕ, zero, suc, ◌+◌, ◌-◌, ◌*◌, ◌/◌, ◌%◌, ◌^◌, ◌≤◌, ◌<◌, min, ◌≡◌, refl, sym, ap, ◌∙◌, ◌≢◌, ◌↔◌, ◌⊎◌,
  inl, inr, Bool, true, false, not, ◌&&◌, ◌||◌, Option, none, some, List, [], ◌∷◌, ◌++◌, arith,
  dec_lt, ℕ_discrete, ltb, leb, ◌==◌, if◌then◌else◌, ltb→lt, lt→ltb, leb→le, ==_iff, Bool-cases,
  Option-cases, u8, u32, add32, sub32, minus_one, is_neg, slt, sign_extend8, Array, Bytes, update,
  length, get_or, get_elem?, get_elem?_lem, set, char_at, copy, copy_lem, tests, holds_up_to,
  holds_at, bit_and, bit_or, codes,
}
use os.Format.{itoa}
use os.Programs.{Calls, text_length, fdputs, fdputs_buffer}

-- `max` for the first byte of the answer
unfoldable pub max_of : ℕ → ℕ
max_of c = if c == b'0' then 100 else if c == b'1' then 10000 else if c == b'2' then 100000 else 0

abbrev pub question : List ℕ
question = codes "Enter the Test Number: (0): 100, (1): 10000, (2): 100000\n"

module _ {S : Type 0} (calls : Calls S) where
  -- the loop, with `rounds` left: each number and a newline
  unfoldable pub count_from : ℕ → ℕ → Bytes → S → S
  count_from zero i buf st = st
  count_from (suc rounds) i buf st =
      let buf1 = itoa (i + 1) buf 10 in
      count_from rounds (i + 1) buf1 (fdputs calls 1 (codes "\n") (fdputs_buffer calls 1 buf1 st))

  -- `main`
  unfoldable pub counter : Bytes → S → ℕ × S
  counter garbage st =
      let (cnt, buf, st1) = calls.sys_read 0 garbage 1023 (fdputs calls 1 question st) in
      let buf1 = update buf cnt 0 in
      let len = text_length 1024 0 buf1 in
      let counted = count_from (max_of (buf1 0)) 0 buf1 st1 in
      if cnt == minus_one
      then (3, fdputs calls 1 (codes "Can't read the number from keyboard.\n") st1)
      else if ltb 2 len || (len == 2 && (ltb (buf1 0) b'0' || ltb b'2' (buf1 0)))
      then (0, fdputs calls 1 (codes "Wrong Choice!\n") st1)
      else (0, counted)

  -- `main` of ece391testprint.c
  unfoldable pub testprint : S → ℕ × S
  testprint st =
      (0, fdputs calls 1 (codes "Hello, if this ran, the program was correct. Yay!\n") st)
