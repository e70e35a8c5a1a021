-- ===== src/Format/Digits.antt =====
-- The text that `itoa` writes reads back as the number.
use os.Common.{
  ℕ, zero, suc, ◌+◌, ◌-◌, ◌*◌, ◌/◌, ◌%◌, ◌^◌, ◌≤◌, ◌<◌, ◌≡◌, refl, sym, ap, ◌∙◌, ◌≢◌, true, false,
  not, ◌&&◌, arith, ℕ_discrete, ltb, leb, ◌==◌, if◌then◌else◌, Bytes, update, holds_up_to, holds_at,
}
use native.Mathlib.Nat.{pow-suc, div-lt_iff_lt-mul, div-add-mod, mod-lt}
use os.Format.{lookup, put_digits, strrev, itoa}
use os.Format.Reverse.{IsText, strrev_lem}

-- the value of a digit: `0` to `9`, then `A` to `Z`
abbrev pub digit : ℕ → ℕ
digit c = if leb c b'9' then c - b'0' else c - 55

-- the number that `n` bytes from the start stand for, the highest digit first
unfoldable pub number : ℕ → ℕ → Bytes → ℕ
number radix zero s = 0
number radix (suc n) s = number radix n s * radix + digit (s n)

-- the number that `n` bytes from `i` on stand for, the lowest digit first
pub low_first : ℕ → ℕ → ℕ → Bytes → ℕ
low_first radix zero i s = 0
low_first radix (suc n) i s = digit (s i) + radix * low_first radix n (i + 1) s

lookup_table : holds_up_to 36 (λ d. not (lookup d == 0) && (digit (lookup d) == d)) ≡ true
unfolding holds_up_to
lookup_table = refl

lookup-digit : (d : ℕ) → d < 36 → (lookup d ≢ 0) × (digit (lookup d) ≡ d)
lookup-digit d h = let row = holds_at 36 _ d lookup_table h in ground (arith, row)

low_first-reverse :
    (radix n m : ℕ) (s t : Bytes)
    → m ≤ n
    → ((j : ℕ) → j < n → t j ≡ s (n - 1 - j))
    → number radix m t ≡ low_first radix m (n - m) s
unfolding number low_first
low_first-reverse radix n zero s t h turned = refl
low_first-reverse radix n (suc m) s t h turned =
    let rest = low_first-reverse radix n m s t (omega arith) turned in
    let here : t m ≡ s (n - suc m) = turned m (omega arith) ∙ ap s (omega arith) in
    let next : n - suc m + 1 ≡ n - m = omega arith in rw (rest, here, next) (grind arith)

quotient : (v r k : ℕ) → 2 ≤ r → v < 2 ^ suc k → v / r < 2 ^ k
quotient v r k h l =
    let twice : v < 2 ^ k * 2 = omega (arith, pow-suc 2 k) in
    (div-lt_iff_lt-mul {k = r} {x = v} {y = 2 ^ k} (omega arith)).1 (grind arith)

-- what the loop has written
pub record IsWritten (rounds radix v i : ℕ) (r : ℕ × Bytes) (old : Bytes) : Type 0 where
  pub count : i ≤ r.0
  pub most : r.0 ≤ i + rounds
  pub value : low_first radix (r.0 - i) i r.1 ≡ v
  pub before : (j : ℕ) → j < i → r.1 j ≡ old j
  pub digits : (j : ℕ) → i ≤ j → j < r.0 → (r.1 j ≢ 0) × (digit (r.1 j) < radix)

sub_same : (i : ℕ) → i - i ≡ 0
sub_same i = omega arith

unwritten : (rounds radix i : ℕ) (buf : Bytes) → IsWritten rounds radix 0 i (i, buf) buf
unfolding low_first
unwritten rounds radix i buf = record {
  count = omega arith;
  most = omega arith;
  value = rw (sub_same i);
  before = λ j h. refl;
  digits = λ j a b. absurd (omega arith);
}

one_more :
    (rounds radix v i : ℕ) (r : ℕ × Bytes) (buf : Bytes)
    → 2 ≤ radix
    → radix ≤ 36
    → IsWritten rounds radix (v / radix) (i + 1) r (update buf i (lookup (v % radix)))
    → IsWritten (suc rounds) radix v i r buf
unfolding low_first
one_more rounds radix v i r buf low high w =
    let small : v % radix < radix = mod-lt v (omega arith) in
    let (visible, back) = lookup-digit (v % radix) (omega arith) in
    let here : r.1 i ≡ lookup (v % radix) = w.before i (omega arith) ∙ ground arith in
    let size : r.0 - i ≡ suc (r.0 - (i + 1)) = omega (arith, w.count) in
    record {
      count = omega (arith, w.count);
      most = omega (arith, w.most);
      value = rw (size, w.value, here, back) (omega (arith, div-add-mod v radix));
      before = λ j h. w.before j (omega arith) ∙ ground arith;
      digits = λ j a b. elim (ℕ_discrete i j) [
        | yes e ↦
            let at : r.1 j ≡ lookup (v % radix) = ap r.1 (sym e) ∙ here in
            rw at (visible, rw back small)
        | no other ↦ w.digits j (omega arith) b
      ];
    }

put_digits-IsWritten :
    (rounds radix v i : ℕ) (buf : Bytes)
    → 2 ≤ radix
    → radix ≤ 36
    → v < 2 ^ rounds
    → IsWritten rounds radix v i (put_digits rounds radix v i buf) buf
unfolding put_digits
put_digits-IsWritten zero radix v i buf low high few =
    let none_left : v ≡ 0 = omega arith in rw none_left (unwritten 0 radix i buf)
put_digits-IsWritten (suc rounds) radix v i buf low high few = elim (ℕ_discrete v 0) [
  | yes done ↦ rw done (unwritten (suc rounds) radix i buf)
  | no more ↦
      let positive : ltb 0 v ≡ true = ground arith in
      let d = v % radix in
      let rest =
        put_digits-IsWritten rounds radix (v / radix) (i + 1) (update buf i (lookup d)) low high
          (quotient v radix rounds low few) in
      rw (put_digits, positive) (one_more rounds radix v i _ buf low high rest)
]

-- `s` holds a text of `n` digits for `radix`, and a NUL behind them.
pub record IsNumeral (radix n : ℕ) (s : Bytes) : Type 0 where
  pub some_digits : 0 < n
  pub few_digits : n ≤ 32
  pub digits : (j : ℕ) → j < n → (s j ≢ 0) × (digit (s j) < radix)
  pub end : s n ≡ 0

low_first-same :
    (radix n i : ℕ) (s t : Bytes)
    → ((j : ℕ) → i ≤ j → j < i + n → s j ≡ t j)
    → low_first radix n i s ≡ low_first radix n i t
unfolding low_first
low_first-same radix zero i s t same = refl
low_first-same radix (suc n) i s t same =
    let here : s i ≡ t i = same i (omega arith) (omega arith) in
    rw (here, low_first-same radix n (i + 1) s t (λ j a b. same j (omega arith) (omega arith)))

reversed :
    (radix n v : ℕ) (s : Bytes)
    → v ≢ 0
    → IsWritten 32 radix v 0 (n, s) s
    → s n ≡ 0
    → IsNumeral radix n (strrev 33 s) × (number radix n (strrev 33 s) ≡ v)
unfolding low_first
reversed radix zero v s more w stop = absurd (more (sym w.value))
reversed radix (suc m) v s more w stop =
    let n = suc m in
    let text : IsText n 0 s = (
      (λ k b e. (w.digits k (omega arith) (omega arith)).0 (ap s (omega arith) ∙ e)),
      ap s (omega arith) ∙ stop,
    ) in
    let turned : (j : ℕ) → strrev 33 s j ≡ (if ltb j n then s (n - 1 - j) else s j) =
      λ j. strrev_lem 33 n s j text (omega (arith, w.most)) (omega arith) in
    let inside : (j : ℕ) → j < n → strrev 33 s j ≡ s (n - 1 - j) = λ j b. turned j ∙ ground arith in
    let below : n - n ≡ 0 = omega arith in
    let size : n ≡ n - 0 = omega arith in
    (
      record {
        some_digits = omega arith;
        few_digits = omega (arith, w.most);
        digits = λ j b. rw (inside j b) (w.digits (n - 1 - j) (omega arith) (omega arith));
        end = turned n ∙ ground (arith, stop);
      },
      low_first-reverse radix n n s (strrev 33 s) (omega arith) inside
          ∙ ap (λ i. low_first radix n i s) below
          ∙ ap (λ k. low_first radix k 0 s) size
          ∙ w.value,
    )

terminated :
    (radix v : ℕ) (r : ℕ × Bytes) (old : Bytes)
    → IsWritten 32 radix v 0 r old
    → IsWritten 32 radix v 0 (r.0, update r.1 r.0 0) (update r.1 r.0 0)
terminated radix v r old w = record {
  count = w.count;
  most = w.most;
  value = low_first-same radix (r.0 - 0) 0 (update r.1 r.0 0) r.1 (λ j a b. ground arith) ∙ w.value;
  before = λ j b. absurd (omega arith);
  digits = λ j a b. ground (arith, w.digits j a b);
}

-- For a 32-bit number and a radix from 2 to 36, `itoa` leaves a text in the buffer: at least one
-- and at most 32 digits of that radix, and a NUL. Read with the highest digit first, they are the
-- number.
pub itoa_lem :
    (value radix : ℕ) (buf : Bytes)
    → value < 2 ^ 32
    → 2 ≤ radix
    → radix ≤ 36
    → (n : ℕ) × IsNumeral radix n (itoa value buf radix)
      × (number radix n (itoa value buf radix) ≡ value)
unfolding itoa number
itoa_lem value radix buf h low high = elim (ℕ_discrete value 0) [
  | yes none_left ↦
      let is_zero : (value == 0) ≡ true = ground arith in
      rw (itoa, is_zero)
        (
          1,
          record {
            some_digits = omega arith;
            few_digits = omega arith;
            digits = λ j b. ground arith;
            end = refl;
          },
          omega arith,
        )
  | no more ↦
      let not_zero : (value == 0) ≡ false = ground arith in
      let written = put_digits 32 radix value 0 buf in
      let w = put_digits-IsWritten 32 radix value 0 buf low high h in
      let turned =
        reversed radix written.0 value (update written.1 written.0 0) more
          (terminated radix value written buf w) (ground arith) in
      rw (itoa, not_zero) (written.0, turned.0, turned.1)
]
