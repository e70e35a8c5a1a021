-- ===== src/Programs/Counter/Numerals.antt =====
-- What `counter` shows: the numbers from 1 on, each on a line.
use os.Common.{minus_one}
use os.Programs.{strlen}
use mathlib.Core.List.{append_assoc, append-nil}
use os.Strings.{strlen}
use os.Common.{
  ℕ, zero, suc, ◌+◌, ◌^◌, ◌≤◌, ◌<◌, ◌≡◌, refl, sym, ap, ◌∙◌, ◌≢◌, true, false, ◌||◌, List, [], ◌∷◌,
  ◌++◌, arith, ℕ_discrete, ltb, ◌==◌, Bytes, update, get_or, char_at, codes,
}
use os.Format.{itoa}
use os.Format.Digits.{IsNumeral, number, itoa_lem}
use os.Terminal.Output.{printed}
use os.Programs.{Calls, text_length, fdputs, fdputs_buffer}
use os.Programs.Counter.{count_from, max_of, question, counter}

-- A text of lines with the numbers from `i + 1` on, in decimal digits; each line is given by a
-- buffer and the number of digits in it.
pub data AreCounted : ℕ → ℕ → List ℕ → Type 0 where
  no_more : {i : ℕ} → AreCounted 0 i []
  line :
      {rounds i : ℕ} {rest : List ℕ} (digits : ℕ) (buf : Bytes)
      → IsNumeral 10 digits buf
      → number 10 digits buf ≡ i + 1
      → AreCounted rounds (i + 1) rest
      → AreCounted (suc rounds) i (printed digits 0 buf ++ b'\n' ∷ rest)

text_length-stops :
    (n room i : ℕ) (s : Bytes)
    → n < room
    → ((j : ℕ) → i ≤ j → j < i + n → s j ≢ 0)
    → s (i + n) ≡ 0
    → text_length room i s ≡ n
unfolding text_length
text_length-stops n zero i s h full end = absurd (omega arith)
text_length-stops zero (suc room) i s h full end =
    let t : (s i == 0) ≡ true = ground (arith, end) in rw (text_length, t) refl
text_length-stops (suc n) (suc room) i s h full end =
    let t : (s i == 0) ≡ false = ground (arith, full i (omega arith) (omega arith)) in
    let rest =
      text_length-stops n room (i + 1) s (omega (arith, h))
        (λ j low high. full j (omega (arith, low)) (omega (arith, high)))
        (ap s (omega arith) ∙ end) in
    rw (text_length, t, rest) refl

IsNumeral-length : (n : ℕ) (buf : Bytes) → IsNumeral 10 n buf → text_length 1024 0 buf ≡ n
IsNumeral-length n buf v =
    text_length-stops n 1024 0 buf (omega (arith, v.few_digits))
      (λ j low high. (v.digits j (omega (arith, high))).0) (ap buf (omega arith) ∙ v.end)

max_of_lem : (c : ℕ) → c < 3 → max_of (b'0' + c) ≡ get_or (100 ∷ 10000 ∷ 100000 ∷ []) c 0
unfolding max_of
max_of_lem zero h = refl
max_of_lem (suc zero) h = refl
max_of_lem (suc (suc zero)) h = refl
max_of_lem (suc (suc (suc c))) h = absurd (omega arith)

max_bound : (c : ℕ) → c < 3 → 0 + get_or (100 ∷ 10000 ∷ 100000 ∷ []) c 0 < 2 ^ 32
max_bound zero h = omega arith
max_bound (suc zero) h = omega arith
max_bound (suc (suc zero)) h = omega arith
max_bound (suc (suc (suc c))) h = absurd (omega arith)

-- the length of an answer of two bytes
answer-length : (buf : Bytes) → buf 0 ≢ 0 → buf 1 ≢ 0 → buf 2 ≡ 0 → text_length 1024 0 buf ≡ 2
answer-length buf first second end =
    text_length-stops 2 1024 0 buf (omega arith)
      (λ j low high. elim (ℕ_discrete j 0) [
        | yes e ↦ rw e first
        | no e ↦ let one : j ≡ 1 = omega (arith, e, high) in rw one second
      ])
      end

-- what the program needs of `write` on descriptor 1, while that is open: all bytes but NULs are
-- shown
pub record Prints {S : Type 0} (calls : Calls S) (IsOpen : S → Type 0) (shown : S → List ℕ)
    : Type 0 where
  pub prints :
      (buf : Bytes) (n : ℕ) (st : S)
      → IsOpen st
      → n < 2 ^ 31
      → (shown (calls.sys_write 1 buf n st).1 ≡ shown st ++ printed n 0 buf)
        × IsOpen (calls.sys_write 1 buf n st).1

module _ {S : Type 0} (calls : Calls S) (IsOpen : S → Type 0) (shown : S → List ℕ)
    (p : Prints calls IsOpen shown) where
  newline-shown :
      (st : S)
      → IsOpen st
      → (shown (fdputs calls 1 (codes "\n") st) ≡ shown st ++ (b'\n' ∷ []))
        × IsOpen (fdputs calls 1 (codes "\n") st)
  unfolding fdputs strlen printed
  newline-shown st is_open = p.prints (char_at (codes "\n")) 1 st is_open (omega arith)

  numeral-shown :
      (n : ℕ) (buf : Bytes) (st : S)
      → IsOpen st
      → IsNumeral 10 n buf
      → (shown (fdputs_buffer calls 1 buf st) ≡ shown st ++ printed n 0 buf)
        × IsOpen (fdputs_buffer calls 1 buf st)
  unfolding fdputs_buffer
  numeral-shown n buf st is_open v =
      rw (fdputs_buffer, IsNumeral-length n buf v)
        (p.prints buf n st is_open (omega (arith, v.few_digits)))

  count_from-AreCounted :
      (rounds i : ℕ) (buf : Bytes) (st : S)
      → IsOpen st
      → i + rounds < 2 ^ 32
      → (text : List ℕ) × AreCounted rounds i text
        × (shown (count_from calls rounds i buf st) ≡ shown st ++ text)
  unfolding count_from
  count_from-AreCounted zero i buf st is_open h = ([], no_more, sym (append-nil (shown st)))
  count_from-AreCounted (suc rounds) i buf st is_open h =
      let buf1 = itoa (i + 1) buf 10 in
      let (n, numeral, value) =
        itoa_lem (i + 1) 10 buf (omega (arith, h)) (omega arith) (omega arith) in
      let st1 = fdputs_buffer calls 1 buf1 st in
      let st2 = fdputs calls 1 (codes "\n") st1 in
      let (digits, open1) = numeral-shown n buf1 st is_open numeral in
      let (ended, open2) = newline-shown st1 open1 in
      let (text, counted, rest) =
        count_from-AreCounted rounds (i + 1) buf1 st2 open2 (omega (arith, h)) in
      (
        printed n 0 buf1 ++ b'\n' ∷ text,
        line n buf1 numeral value counted,
        rest
            ∙ ap (λ l. l ++ text) ended
            ∙ append_assoc (shown st1) (b'\n' ∷ []) text
            ∙ ap (λ l. l ++ b'\n' ∷ text) digits
            ∙ append_assoc (shown st) (printed n 0 buf1) (b'\n' ∷ text),
      )

  -- If the answer to the question is one byte from `0` to `2` and a newline, with a NUL behind, the
  -- `counter` returns 0 and shows the numbers from 1 to 100, 10000 or 100000 in decimal digits, each
  -- on a line. The count that the read returns may be any of at least 2 bytes, so also the 1023 that
  -- were asked for, and the calls any with a `write` that shows the bytes, less NULs, on descriptor 1
  -- while that is open.
  pub counter_lem :
      (garbage buf : Bytes) (cnt choice : ℕ) (st st1 : S)
      → choice < 3
      → calls.sys_read 0 garbage 1023 (fdputs calls 1 question st) ≡ (cnt, buf, st1)
      → cnt ≢ minus_one
      → 2 ≤ cnt
      → IsOpen st1
      → buf 0 ≡ b'0' + choice
      → buf 1 ≡ b'\n'
      → buf 2 ≡ 0
      → (text : List ℕ) × (end : S) × (counter calls garbage st ≡ (0, end))
        × (shown end ≡ shown st1 ++ text)
        × AreCounted (get_or (100 ∷ 10000 ∷ 100000 ∷ []) choice 0) 0 text
  unfolding counter
  counter_lem garbage buf cnt choice st st1 h read fine enough is_open first second end =
      let buf1 = update buf cnt 0 in
      let first' : buf1 0 ≡ b'0' + choice = ground (arith, first) in
      let second' : buf1 1 ≡ b'\n' = ground (arith, second) in
      let len =
        answer-length buf1 (λ e. omega (arith, first', e)) (λ e. omega (arith, second', e))
          (ground (arith, end)) in
      let t : (cnt == minus_one) ≡ false = ground (arith, fine) in
      let good : (ltb (buf1 0) b'0' || ltb b'2' (buf1 0)) ≡ false = ground (arith, first', h) in
      let max = ap max_of first' ∙ max_of_lem choice h in
      let (text, counted, seen) =
        count_from-AreCounted (get_or (100 ∷ 10000 ∷ 100000 ∷ []) choice 0) 0 buf1 st1 is_open
          (max_bound choice h) in
      rw (counter, read, t, len, good, max) (text, _, refl, seen, counted)
