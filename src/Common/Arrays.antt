-- ===== src/Common/Arrays.antt =====
-- C arrays as functions of the index, and the loops that copy and clear bytes.
use Prim.Native.Nat.{ℕ, zero, suc, ◌+◌, ◌-◌, ◌<◌}
use mathlib.Core.Path.{◌≡◌, refl}
use mathlib.Core.Bool.{◌&&◌}
use mathlib.Core.Option.{Option, none, some}
use mathlib.Core.List.{List, [], ◌∷◌}
use native.Mathlib.Omega.{arith}
use os.Common.Tests.{ltb, leb, ◌==◌, if◌then◌else◌}

abbrev pub Array {ℓ} : Type ℓ → Type ℓ
Array A = ℕ → A

abbrev pub Bytes : Type 0
Bytes = Array ℕ

-- `a[i] = v`
abbrev pub update {ℓ} : {A : Type ℓ} → Array A → ℕ → A → Array A
update a i v j = if i == j then v else a j

module _ {ℓ} {A : Type ℓ} where
  abbrev pub length : List A → ℕ
  length [] = 0
  length (x ∷ xs) = suc (length xs)

  abbrev pub get_or : List A → ℕ → A → A
  get_or [] i d = d
  get_or (x ∷ xs) zero d = x
  get_or (x ∷ xs) (suc i) d = get_or xs i d

  abbrev pub get_elem? : List A → ℕ → Option A
  get_elem? [] i = none
  get_elem? (x ∷ xs) zero = some x
  get_elem? (x ∷ xs) (suc i) = get_elem? xs i

  abbrev pub set : List A → ℕ → A → List A
  set [] i v = []
  set (x ∷ xs) zero v = v ∷ xs
  set (x ∷ xs) (suc i) v = x ∷ set xs i v

-- The memory from a pointer on: the bytes of the list, then NULs.
abbrev pub char_at : List ℕ → Bytes
char_at s i = get_or s i 0

-- `for (count = c; count < c + n; count++) dst[off + count] = src[count];`
unfoldable pub copy : ℕ → ℕ → ℕ → Bytes → Bytes → Bytes
copy zero c off src dst = dst
copy (suc n) c off src dst = copy n (c + 1) off src (update dst (off + c) (src c))

pub copy_lem :
    (n c off : ℕ) (src dst : Bytes) (j : ℕ)
    → copy n c off src dst j
      ≡ (if leb (off + c) j && ltb j (off + c + n) then src (j - off) else dst j)
unfolding copy
copy_lem zero c off src dst j = ground arith
copy_lem (suc n) c off src dst j =
    ground (arith, copy_lem n (c + 1) off src (update dst (off + c) (src c)) j)

module _ {ℓ} {A : Type ℓ} where
  pub get_elem?_lem : (xs : List A) (i : ℕ) → i < length xs → (x : A) × (get_elem? xs i ≡ some x)
  get_elem?_lem [] i h = ground arith
  get_elem?_lem (x ∷ xs) zero h = (x, refl)
  get_elem?_lem (x ∷ xs) (suc i) h = get_elem?_lem xs i (omega arith)
