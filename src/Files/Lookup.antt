-- ===== src/Files/Lookup.antt =====
-- `read_dentry_by_name` finds the first directory entry of that name.
use os.Strings.Compare.{char_at-AreBytes}
use os.Strings.Compare.{strlen-length}
use os.Common.{
  ℕ, zero, suc, ◌+◌, ◌≤◌, ◌<◌, ◌≡◌, refl, ◌∙◌, ◌≢◌, ◌↔◌, ◌⊎◌, inl, inr, true, false, List, arith,
  dec_lt, ℕ_discrete, ltb, leb, minus_one, Bytes, length, char_at,
}
use os.Strings.{strlen, strncmp, strncpy, c_string}
use os.Strings.Compare.{
  AreBytes, IsString, strncmp_iff, c_string_of_list, strlen-length, char_at-AreBytes,
}
use os.Strings.Copy.{strncpy_lem, strncpy-AreBytes}
use os.Files.{FileSystem, Dentry, read_dentry_by_index, search_dentry, read_dentry_by_name}

-- the name of entry `i`: the bytes of its `filename` up to a NUL, at most 32
abbrev pub name_of : FileSystem → ℕ → List ℕ
name_of fs i = c_string 32 0 (fs.direntries i).filename

-- The directory holds bytes.
abbrev pub IsDirectory : FileSystem → Type 0
IsDirectory fs = (i : ℕ) → AreBytes (fs.direntries i).filename

-- The comparison of the loop, against the name as a list.
matches_iff :
    (fs : FileSystem) (fname : List ℕ) (str1 : Bytes) (i : ℕ)
    → IsDirectory fs
    → AreBytes str1
    → IsString fname
    → length fname ≤ 32
    → (strncmp (strncpy str1 (fs.direntries i).filename 32) (char_at fname) 32 ≡ 0)
      ↔ (name_of fs i ≡ fname)
matches_iff fs fname str1 i b b1 hf hl =
    let copied = (strncpy_lem str1 (fs.direntries i).filename 32).0 in
    let compared =
      strncmp_iff (strncpy str1 (fs.direntries i).filename 32) (char_at fname) 32
        (strncpy-AreBytes str1 (fs.direntries i).filename 32 b1 (b i))
        (char_at-AreBytes fname hf) in
    ground (arith, copied, compared, c_string_of_list fname 32 hf hl)

module _ (fs : FileSystem) (fname : List ℕ) (dentry : Dentry) (bytes : IsDirectory fs)
    (string : IsString fname) (short : length fname ≤ 32) where
  search_dentry-hit :
      (k i target : ℕ) (str1 : Bytes)
      → AreBytes str1
      → i ≤ target
      → target < i + k
      → name_of fs target ≡ fname
      → ((j : ℕ) → j < target → name_of fs j ≢ fname)
      → search_dentry k i str1 fs fname dentry ≡ read_dentry_by_index fs target dentry
  unfolding search_dentry
  search_dentry-hit zero i target str1 b1 l h e first = absurd (omega arith)
  search_dentry-hit (suc k) i target str1 b1 l h e first = elim (ℕ_discrete i target) [
    | yes here ↦ ground (arith, matches_iff fs fname str1 i bytes b1 string short)
    | no later ↦ ground (
      arith,
      matches_iff fs fname str1 i bytes b1 string short,
      first i,
      search_dentry-hit k (i + 1) target (strncpy str1 (fs.direntries i).filename 32)
          (strncpy-AreBytes str1 (fs.direntries i).filename 32 b1 (bytes i)) (omega arith)
          (omega arith) e first,
    )
  ]

  search_dentry-miss :
      (k i : ℕ) (str1 : Bytes)
      → AreBytes str1
      → ((j : ℕ) → j < i + k → name_of fs j ≢ fname)
      → search_dentry k i str1 fs fname dentry ≡ (minus_one, dentry)
  unfolding search_dentry
  search_dentry-miss zero i str1 b1 none_such = refl
  search_dentry-miss (suc k) i str1 b1 none_such = ground (
    arith,
    matches_iff fs fname str1 i bytes b1 string short,
    none_such i,
    search_dentry-miss k (i + 1) (strncpy str1 (fs.direntries i).filename 32)
        (strncpy-AreBytes str1 (fs.direntries i).filename 32 b1 (bytes i))
        (λ j h. none_such j (omega arith)),
  )

-- In a directory of bytes, a name of at most 32 bytes that some entry bears is found: the routine copies the first entry
-- that bears it to `dentry` and returns 0.
pub read_dentry_by_name-hit :
    (fs : FileSystem) (fname : List ℕ) (dentry : Dentry) (target : ℕ)
    → IsDirectory fs
    → IsString fname
    → length fname ≤ 32
    → target < fs.dir_count
    → name_of fs target ≡ fname
    → ((j : ℕ) → j < target → name_of fs j ≢ fname)
    → let (code, found) = read_dentry_by_name fs fname dentry in
      (code ≡ 0)
      × (c_string 32 0 found.filename ≡ fname)
      × (found.file_type ≡ (fs.direntries target).file_type)
      × (found.inode_num ≡ (fs.direntries target).inode_num)
unfolding read_dentry_by_name read_dentry_by_index
read_dentry_by_name-hit fs fname dentry target b s l h e first =
    let short : ltb 32 (strlen fname) ≡ false = rw (strlen-length fname s) (ground arith) in
    let inside : leb fs.dir_count target ≡ false = ground arith in
    rw
      (
        short,
        search_dentry-hit fs fname dentry b s l fs.dir_count 0 target (λ _. 0) (λ _. omega arith)
            (omega arith) (omega arith) e first,
        inside,
      )
      (refl, (strncpy_lem dentry.filename (fs.direntries target).filename 32).0 ∙ e, refl, refl)

-- In a directory of bytes, a name that is longer than 32 bytes, or that no entry bears, is refused with -1, and `dentry`
-- is left alone.
pub read_dentry_by_name-miss :
    (fs : FileSystem) (fname : List ℕ) (dentry : Dentry)
    → IsDirectory fs
    → IsString fname
    → (32 < length fname) ⊎ ((j : ℕ) → j < fs.dir_count → name_of fs j ≢ fname)
    → read_dentry_by_name fs fname dentry ≡ (minus_one, dentry)
unfolding read_dentry_by_name
read_dentry_by_name-miss fs fname dentry b s h = elim (dec_lt 32 (length fname)) [
  | yes long ↦
      let refused : ltb 32 (strlen fname) ≡ true = rw (strlen-length fname s) (ground arith) in
      rw refused
  | no fits ↦
      let short : ltb 32 (strlen fname) ≡ false = rw (strlen-length fname s) (ground arith) in
      rw (
        short,
        search_dentry-miss fs fname dentry b s (omega arith) fs.dir_count 0 (λ _. 0)
            (λ _. omega arith) (absent fits h),
      )
]
  where
    absent :
        ¬ (32 < length fname)
        → (32 < length fname) ⊎ ((j : ℕ) → j < fs.dir_count → name_of fs j ≢ fname)
        → (j : ℕ) → j < 0 + fs.dir_count
        → name_of fs j ≢ fname
    absent fits (inl long) j l = absurd (fits long)
    absent fits (inr none_such) j l = none_such j (omega arith)
