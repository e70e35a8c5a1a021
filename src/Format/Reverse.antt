-- ===== src/Format/Reverse.antt =====
-- `strrev` turns a string round in place.
use os.Common.{
  ℕ, zero, suc, ◌+◌, ◌-◌, ◌^◌, ◌≤◌, ◌<◌, ◌≡◌, ap, ◌∙◌, ◌≢◌, true, false, ◌&&◌, arith, dec_lt, ltb,
  leb, if◌then◌else◌, sub32, slt, Bytes, update,
}
use os.Format.{length_in, swap_ends, strrev}

-- a string of `n` bytes from index `i` on
abbrev pub IsText : ℕ → ℕ → Bytes → Type 0
IsText n i s = ((j : ℕ) → j < n → s (i + j) ≢ 0) × (s (i + n) ≡ 0)

pub length_in_lem : (room n i : ℕ) (s : Bytes) → IsText n i s → n < room → length_in room i s ≡ n
unfolding length_in
length_in_lem zero n i s h l = absurd (omega arith)
length_in_lem (suc room) zero i s h l =
    let stop : s i ≡ 0 = ap s (omega arith) ∙ h.1 in ground (arith, stop)
length_in_lem (suc room) (suc n) i s h l =
    let go : s i ≢ 0 = λ e. h.0 0 (omega arith) (ap s (omega arith) ∙ e) in
    let rest =
      length_in_lem room n (i + 1) s
        ((λ j b e. h.0 (suc j) (omega arith) (ap s (omega arith) ∙ e)), ap s (omega arith) ∙ h.1)
        (omega arith) in
    ground (arith, go, rest)

swap_ends_lem :
    (rounds beg last : ℕ) (s : Bytes) (j : ℕ)
    → last < 2 ^ 31 - 1
    → beg ≤ last + 1
    → last < beg + rounds
    → swap_ends rounds beg last s j ≡ (if leb beg j && leb j last then s (beg + last - j) else s j)
unfolding swap_ends
swap_ends_lem zero beg last s j small near few = ground arith
swap_ends_lem (suc rounds) beg last s j small near few = elim (dec_lt beg last) [
  | no past ↦
      let stop : slt beg last ≡ false = ground arith in
      let same : beg ≤ j → j ≤ last → s (beg + last - j) ≡ s j = λ a b. ap s (omega arith) in
      rw (swap_ends, stop) (ground (arith, same))
  | yes inside ↦
      let go : slt beg last ≡ true = ground arith in
      let less : sub32 last 1 ≡ last - 1 = omega arith in
      let swapped : Bytes = update (update s last (s beg)) beg (s last) in
      let rest =
        swap_ends_lem rounds (beg + 1) (last - 1) swapped j (omega arith) (omega arith)
          (omega arith) in
      let at_beg : j ≡ beg → s (beg + last - j) ≡ s last = λ e. ap s (omega arith) in
      let at_last : j ≡ last → s (beg + last - j) ≡ s beg = λ e. ap s (omega arith) in
      let mirror : beg + 1 + (last - 1) - j ≡ beg + last - j = omega arith in
      rw (swap_ends, go, less) (rest ∙ rw mirror (ground (arith, at_beg, at_last)))
]

-- `strrev` of a string of `n` bytes that fits its buffer puts its bytes in reverse order, and
-- changes nothing from its NUL on.
pub strrev_lem :
    (room n : ℕ) (s : Bytes) (j : ℕ)
    → IsText n 0 s
    → n < room
    → room < 2 ^ 31
    → strrev room s j ≡ (if ltb j n then s (n - 1 - j) else s j)
unfolding strrev swap_ends
strrev_lem room zero s j text fits small =
    let size = length_in_lem room 0 0 s text fits in rw (strrev, size, swap_ends) (ground arith)
strrev_lem room (suc n) s j text fits small =
    let size = length_in_lem room (suc n) 0 s text fits in
    let last : sub32 (suc n) 1 ≡ n = omega arith in
    let turned = swap_ends_lem (suc n) 0 n s j (omega arith) (omega arith) (omega arith) in
    let mirror : 0 + n - j ≡ suc n - 1 - j = omega arith in
    rw (strrev, size, last) (turned ∙ rw mirror (ground arith))
