-- ===== src/Strings.antt =====
-- student-distrib/lib.c: the string functions. A string argument that is scanned to its NUL is the
-- list of its bytes (the memory behind the list is NUL); one that is read up to a bound is an array.
pub mod Compare
pub mod Copy
use os.Common.{
  ℕ, zero, suc, ◌+◌, ◌-◌, ◌%◌, Bool, ◌||◌, not, List, [], ◌∷◌, ◌==◌, if◌then◌else◌, sub32,
  sign_extend8, Bytes, update, char_at,
}

-- `len` counts bytes of memory, so it stays below 2 ^ 32.
unfoldable pub strlen : List ℕ → ℕ
strlen [] = 0
strlen (c ∷ s) = let rest = strlen s in if c == 0 then 0 else suc rest

-- the loop of `strncmp` with `k` rounds left
unfoldable pub strncmp_from : ℕ → ℕ → Bytes → Bytes → ℕ
strncmp_from zero i s1 s2 = 0
strncmp_from (suc k) i s1 s2 =
    let rest = strncmp_from k (i + 1) s1 s2 in
    if not (s1 i == s2 i) || s1 i == 0
    then sub32 (sign_extend8 (s1 i)) (sign_extend8 (s2 i))
    else rest

unfoldable pub strncmp : Bytes → Bytes → ℕ → ℕ
unfolding strncmp_from
strncmp s1 s2 n = strncmp_from n 0 s1 s2

-- the two loops of `strncpy`, each with `k` rounds left; the first returns its index
unfoldable pub copy_until_nul : ℕ → ℕ → Bytes → Bytes → ℕ × Bytes
copy_until_nul zero i src dest = (i, dest)
copy_until_nul (suc k) i src dest =
    let rest = copy_until_nul k (i + 1) src (update dest i (src i)) in
    if src i == 0 then (i, dest) else rest

unfoldable pub fill : ℕ → ℕ → ℕ → Bytes → Bytes
fill zero i c dest = dest
fill (suc k) i c dest = fill k (i + 1) c (update dest i c)

unfoldable pub strncpy : Bytes → Bytes → ℕ → Bytes
unfolding copy_until_nul fill
strncpy dest src n = let (i, d) = copy_until_nul n 0 src dest in fill (n - i) i 0 d

unfoldable pub strcpy_from : List ℕ → ℕ → Bytes → Bytes
strcpy_from [] i dest = update dest i 0
strcpy_from (c ∷ s) i dest =
    let rest = strcpy_from s (i + 1) (update dest i c) in if c == 0 then update dest i 0 else rest

unfoldable pub strcpy : Bytes → List ℕ → Bytes
unfolding strcpy_from
strcpy dest src = strcpy_from src 0 dest

-- What the functions are about: the bytes from index `i` up to a NUL, at most `n` of them.
unfoldable pub c_string : ℕ → ℕ → Bytes → List ℕ
c_string zero i s = []
c_string (suc n) i s = let rest = c_string n (i + 1) s in if s i == 0 then [] else s i ∷ rest
