-- ===== src/Strings/Compare.antt =====
-- `strncmp` decides equality of bounded C strings.
use os.Strings.{strlen}
use os.Common.{
  ℕ, zero, suc, ◌+◌, ◌≤◌, ◌<◌, ◌≡◌, refl, ◌↔◌, List, [], ◌∷◌, arith, Bytes, length, char_at,
}
use os.Strings.{strncmp_from, strncmp, c_string}

abbrev pub AreBytes : Bytes → Type 0
AreBytes s = (i : ℕ) → s i < 256

strncmp_from_iff :
    (k i : ℕ) (s1 s2 : Bytes)
    → AreBytes s1
    → AreBytes s2
    → (strncmp_from k i s1 s2 ≡ 0) ↔ (c_string k i s1 ≡ c_string k i s2)
unfolding strncmp_from c_string
strncmp_from_iff zero i s1 s2 b1 b2 = ((λ _. refl), (λ _. refl))
strncmp_from_iff (suc k) i s1 s2 b1 b2 =
    ground (arith, b1 i, b2 i, strncmp_from_iff k (i + 1) s1 s2 b1 b2)

-- On bytes, `strncmp` returns 0 exactly when the two strings, cut at `n` bytes, are the same.
pub strncmp_iff :
    (s1 s2 : Bytes) (n : ℕ)
    → AreBytes s1
    → AreBytes s2
    → (strncmp s1 s2 n ≡ 0) ↔ (c_string n 0 s1 ≡ c_string n 0 s2)
unfolding strncmp
strncmp_iff s1 s2 n b1 b2 = strncmp_from_iff n 0 s1 s2 b1 b2

-- a C string held in a list: its bytes are not NUL
abbrev pub IsString : List ℕ → Type 0
IsString [] = Unit {0}
IsString (c ∷ s) = (0 < c) × (c < 256) × IsString s

pub strlen-length : (s : List ℕ) → IsString s → strlen s ≡ length s
unfolding strlen
strlen-length [] h = refl
strlen-length (c ∷ s) h = ground (arith, strlen-length s h.2)

pub char_at-AreBytes : (s : List ℕ) → IsString s → AreBytes (char_at s)
char_at-AreBytes [] h i = omega arith
char_at-AreBytes (c ∷ s) h zero = h.1
char_at-AreBytes (c ∷ s) h (suc i) = char_at-AreBytes s h.2 i

c_string_shift :
    (n i : ℕ) (c : ℕ) (s : List ℕ) → c_string n (suc i) (char_at (c ∷ s)) ≡ c_string n i (char_at s)
unfolding c_string
c_string_shift zero i c s = refl
c_string_shift (suc n) i c s =
    let next : suc i + 1 ≡ suc (i + 1) = omega arith in rw (next, c_string_shift n (i + 1) c s)

-- A list that fits the bound is its own C string.
pub c_string_of_list :
    (s : List ℕ) (n : ℕ) → IsString s → length s ≤ n → c_string n 0 (char_at s) ≡ s
unfolding c_string
c_string_of_list [] zero h l = refl
c_string_of_list [] (suc n) h l = refl
c_string_of_list (c ∷ s) zero h l = absurd (omega arith)
c_string_of_list (c ∷ s) (suc n) h l =
    ground (arith, c_string_shift n 0 c s, c_string_of_list s n h.2 (omega arith))
