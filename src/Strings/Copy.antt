-- ===== src/Strings/Copy.antt =====
-- `strncpy` copies a bounded C string and pads it with NULs.
use os.Common.{
  ℕ, zero, suc, ◌+◌, ◌-◌, ◌≤◌, ◌<◌, ◌≡◌, refl, ◌⊎◌, inl, inr, arith, ◌==◌, Bool-cases, Bytes,
  update,
}
use os.Strings.Compare.{AreBytes}
use os.Strings.{copy_until_nul, fill, strncpy, c_string}

pub fill_outside : (k i c : ℕ) (d : Bytes) (j : ℕ) → (j < i) ⊎ (i + k ≤ j) → fill k i c d j ≡ d j
unfolding fill
fill_outside zero i c d j h = refl
fill_outside (suc k) i c d j h = ground (arith, fill_outside k (i + 1) c (update d i c) j)

pub fill_inside : (k i c : ℕ) (d : Bytes) (j : ℕ) → i ≤ j → j < i + k → fill k i c d j ≡ c
unfolding fill
fill_inside zero i c d j h l = absurd (omega arith)
fill_inside (suc k) i c d j h l =
    ground
      (arith, fill_inside k (i + 1) c (update d i c) j, fill_outside k (i + 1) c (update d i c) j)

-- both loops of a `strncpy` of `n` bytes, from index `i` on, with `k` rounds left
abbrev pub loops : ℕ → ℕ → ℕ → Bytes → Bytes → Bytes
loops n k i src d = let (i', d') = copy_until_nul k i src d in fill (n - i') i' 0 d'

pub loops_outside :
    (n k i : ℕ) (src d : Bytes) (j : ℕ) → i + k ≡ n → (j < i) ⊎ (n ≤ j) → loops n k i src d j ≡ d j
unfolding copy_until_nul
loops_outside n zero i src d j e h = ground (arith, fill_outside (n - i) i 0 d j)
loops_outside n (suc k) i src d j e h =
    ground
      (arith, fill_outside (n - i) i 0 d j, loops_outside n k (i + 1) src (update d i (src i)) j)

loops_string :
    (n k i : ℕ) (src d : Bytes) → i + k ≡ n → c_string k i (loops n k i src d) ≡ c_string k i src
unfolding copy_until_nul c_string
loops_string n zero i src d e = refl
loops_string n (suc k) i src d e = elim (Bool-cases (src i == 0)) [
  | inl nul ↦ rw nul (ground (arith, fill_inside (n - i) i 0 d i))
  | inr more ↦ rw more (
      ground (
        arith,
        loops_outside n k (i + 1) src (update d i (src i)) i,
        loops_string n k (i + 1) src (update d i (src i)),
      ))
]

-- `strncpy` leaves the string of `src`, cut at `n` bytes, in `dest`, and writes nothing from index
-- `n` on.
pub strncpy_lem :
    (dest src : Bytes) (n : ℕ)
    → (c_string n 0 (strncpy dest src n) ≡ c_string n 0 src)
      × ((j : ℕ) → n ≤ j → strncpy dest src n j ≡ dest j)
unfolding strncpy
strncpy_lem dest src n = (
  loops_string n n 0 src dest (omega arith),
  λ j h. loops_outside n n 0 src dest j (omega arith) (inr h),
)

fill-AreBytes : (k i c : ℕ) (d : Bytes) → c < 256 → AreBytes d → AreBytes (fill k i c d)
unfolding fill
fill-AreBytes zero i c d h b = b
fill-AreBytes (suc k) i c d h b =
    fill-AreBytes k (i + 1) c (update d i c) h (λ j. ground (arith, b j))

copy_until_nul-AreBytes :
    (k i : ℕ) (src d : Bytes) → AreBytes src → AreBytes d → AreBytes (copy_until_nul k i src d).1
unfolding copy_until_nul
copy_until_nul-AreBytes zero i src d bs bd = bd
copy_until_nul-AreBytes (suc k) i src d bs bd = elim (Bool-cases (src i == 0)) [
  | inl nul ↦ rw nul bd
  | inr more ↦ rw more (
      copy_until_nul-AreBytes k (i + 1) src (update d i (src i)) bs
        (λ j. ground (arith, bd j, bs i)))
]

pub strncpy-AreBytes :
    (dest src : Bytes) (n : ℕ) → AreBytes dest → AreBytes src → AreBytes (strncpy dest src n)
unfolding strncpy
strncpy-AreBytes dest src n bd bs =
    fill-AreBytes (n - (copy_until_nul n 0 src dest).0) (copy_until_nul n 0 src dest).0 0 _
      (omega arith) (copy_until_nul-AreBytes n 0 src dest bs bd)
