-- ===== src/Programs/Ls.antt =====
-- What `ls` prints.
pub mod OfKernel
pub mod Directory
use mathlib.Core.List.{append_assoc, append-nil}
use os.Common.{
  ℕ, zero, suc, ◌+◌, ◌-◌, ◌*◌, ◌/◌, ◌%◌, ◌^◌, ◌≤◌, ◌<◌, min, ◌≡◌, refl, sym, ap, ◌∙◌, ◌≢◌, ◌↔◌, ◌⊎◌,
  inl, inr, Bool, true, false, not, ◌&&◌, ◌||◌, Option, none, some, List, [], ◌∷◌, ◌++◌, arith,
  dec_lt, ℕ_discrete, ltb, leb, ◌==◌, if◌then◌else◌, ltb→lt, lt→ltb, leb→le, ==_iff, Bool-cases,
  Option-cases, u8, u32, add32, sub32, minus_one, is_neg, slt, sign_extend8, Array, Bytes, update,
  length, get_or, get_elem?, get_elem?_lem, set, char_at, copy, copy_lem, tests, holds_up_to,
  holds_at, bit_and, bit_or, codes,
}
use os.Terminal.Output.{printed}
use os.Programs.{Calls, ls_loop, ls}

-- What `ls` relies on, in the states in which the directory is open: a read of 32 bytes of `fd`
-- gives the bytes of the next of `count` names and the count 32, or 0 at the end; a write to
-- descriptor 1 shows the bytes that are not NUL. `position` is the number of names that are read,
-- `name` the bytes of each, and `shown` all that the screen was sent.
pub record Lists {S : Type 0} (calls : Calls S) (fd count : ℕ) (name : ℕ → Bytes)
    (IsOpen : S → Type 0) (position : S → ℕ) (shown : S → List ℕ) : Type 0 where
  pub at_end :
      (buf : Bytes) (st : S)
      → IsOpen st
      → count ≤ position st
      → let r = calls.sys_read fd buf 32 st in (r.0 ≡ 0) × (shown r.2 ≡ shown st)
  pub more :
      (buf : Bytes) (st : S)
      → IsOpen st
      → position st < count
      → let r = calls.sys_read fd buf 32 st in
        (r.0 ≡ 32)
        × ((i : ℕ) → i < 32 → r.1 i ≡ name (position st) i)
        × (position r.2 ≡ position st + 1)
        × (shown r.2 ≡ shown st)
        × IsOpen r.2
  pub prints :
      (buf : Bytes) (st : S)
      → IsOpen st
      → let r = calls.sys_write 1 buf 33 st in
        (r.0 ≢ minus_one)
        × (shown r.1 ≡ shown st ++ printed 33 0 buf)
        × (position r.1 ≡ position st)
        × IsOpen r.1

-- `rounds` names from number `i` on, each on a line
abbrev pub listing : (ℕ → Bytes) → ℕ → ℕ → List ℕ
listing name zero i = []
listing name (suc rounds) i = printed 32 0 (name i) ++ b'\n' ∷ listing name rounds (i + 1)

printed-last :
    (n i : ℕ) (buf : Bytes)
    → buf (i + n) ≡ b'\n'
    → printed (suc n) i buf ≡ printed n i buf ++ b'\n' ∷ []
unfolding printed
printed-last zero i buf e = let first : buf i ≡ b'\n' = ap buf (omega arith) ∙ e in rw first refl
printed-last (suc n) i buf e =
    let rest = printed-last n (i + 1) buf (ap buf (omega arith) ∙ e) in
    elim (Bool-cases (buf i == 0)) [ inl t ↦ rw t rest | inr t ↦ rw t (ap (λ l. buf i ∷ l) rest) ]

printed-same :
    (n i : ℕ) (buf name : Bytes)
    → ((j : ℕ) → i ≤ j → j < i + n → buf j ≡ name j)
    → printed n i buf ≡ printed n i name
unfolding printed
printed-same zero i buf name same = refl
printed-same (suc n) i buf name same =
    let first : buf i ≡ name i = same i (omega arith) (omega arith) in
    let rest =
      printed-same n (i + 1) buf name (λ j low high. same j (omega arith) (omega (arith, high))) in
    rw (first, rest) refl

-- the text that the program makes of a name
line_lem :
    (buf name : Bytes)
    → ((j : ℕ) → j < 32 → buf j ≡ name j)
    → printed 33 0 (update buf 32 b'\n') ≡ printed 32 0 name ++ b'\n' ∷ []
line_lem buf name same =
    printed-last 32 0 (update buf 32 b'\n') refl
    ∙ ap (λ l. l ++ b'\n' ∷ [])
        (printed-same 32 0 (update buf 32 b'\n') name
          (λ j low high. ground (arith, same j (omega (arith, high)))))

module _ {S : Type 0} (calls : Calls S) (fd count : ℕ) (name : ℕ → Bytes) (IsOpen : S → Type 0)
    (position : S → ℕ) (shown : S → List ℕ)
    (lists : Lists calls fd count name IsOpen position shown) where
  ls_loop_lem :
      (fuel : ℕ) (buf : Bytes) (st : S)
      → IsOpen st
      → count - position st < fuel
      → (end : S) × (ls_loop calls fuel fd buf st ≡ some (0, end))
        × (shown end ≡ shown st ++ listing name (count - position st) (position st))
  unfolding ls_loop
  ls_loop_lem zero buf st is_open h = absurd (omega arith)
  ls_loop_lem (suc fuel) buf st is_open h =
      let r = calls.sys_read fd buf 32 st in
      elim (dec_lt (position st) count) [
        | no past ↦
            let (count0, same) = lists.at_end buf st is_open (omega (arith, past)) in
            let t : (r.0 == 0) ≡ true = ground arith in
            let none_left : count - position st ≡ 0 = omega (arith, past) in
            rw (ls_loop, t, none_left) (r.2, refl, same ∙ sym (append-nil (shown st)))
        | yes some_left ↦
            let (cnt, bytes, next, same, still) = lists.more buf st is_open some_left in
            let buf2 = update r.1 32 b'\n' in
            let (written, now, kept, open') = lists.prints buf2 r.2 still in
            let w = calls.sys_write 1 buf2 33 r.2 in
            let t2 : (w.0 == minus_one) ≡ false = ground arith in
            let at : position w.1 ≡ position st + 1 = kept ∙ next in
            let (end, runs, finally) = ls_loop_lem fuel buf2 w.1 open' (omega (arith, at, h)) in
            let left_over : count - position st ≡ suc (count - position w.1) = omega (arith, at) in
            let first = printed 32 0 (name (position st)) in
            let rest = listing name (count - position w.1) (position w.1) in
            let sent : shown w.1 ≡ shown st ++ (first ++ b'\n' ∷ []) =
              now
              ∙ ap (λ a. a ++ printed 33 0 buf2) same
              ∙ ap (λ a. shown st ++ a) (line_lem r.1 (name (position st)) bytes) in
            rw (ls_loop, cnt, t2, left_over)
              (
                end,
                runs,
                finally
                    ∙ ap (λ a. a ++ rest) sent
                    ∙ append_assoc (shown st) (first ++ b'\n' ∷ []) rest
                    ∙ ap (λ a. shown st ++ a) (append_assoc first (b'\n' ∷ []) rest)
                    ∙ ap (λ p. shown st ++ (first ++ b'\n' ∷ listing name (count - position w.1) p))
                        at,
              )
      ]

  -- Where the directory opens as `fd`, and the calls behave as `Lists` says, `ls` ends with status
  -- 0, and the screen has been sent each name from the position on, in their order, each with a
  -- newline, and no more. One round of the loop more than there are names is enough.
  pub ls_lem :
      (fuel : ℕ) (garbage : Bytes) (st opened : S)
      → calls.sys_open_file (char_at (codes ".")) st ≡ (fd, opened)
      → fd ≢ minus_one
      → IsOpen opened
      → count - position opened < fuel
      → (end : S) × (ls calls fuel garbage st ≡ some (0, end))
        × (shown end ≡ shown opened ++ listing name (count - position opened) (position opened))
  unfolding ls
  ls_lem fuel garbage st opened found real is_open enough =
      let t : (fd == minus_one) ≡ false = ground arith in
      rw (ls, found, t) (ls_loop_lem fuel garbage opened is_open enough)
