-- ===== src/Syscalls/Arguments.antt =====
-- The text behind a command's name, on its way from the shell to the program that asks for it.
use os.Common.{
  ℕ, zero, suc, ◌+◌, ◌-◌, ◌≤◌, ◌<◌, ◌≡◌, refl, ap, ◌∙◌, ◌≢◌, true, false, ◌&&◌, some, List, [], ◌∷◌,
  ◌++◌, arith, dec_lt, ℕ_discrete, ltb, leb, ◌==◌, if◌then◌else◌, Bytes, update, length, char_at,
}
use os.Machine.{Kernel}
use os.Syscalls.{strip_newlines, copy_args, getargs, skip_spaces, skip_name, store_args, parse_args}

-- the name of a command: neither spaces nor NULs
abbrev pub IsWord : List ℕ → Type 0
IsWord [] = Unit {0}
IsWord (c ∷ s) = (0 < c) × (c ≢ b' ') × IsWord s

-- arguments as one line: neither NULs nor newlines
abbrev pub IsLine : List ℕ → Type 0
IsLine [] = Unit {0}
IsLine (c ∷ s) = (0 < c) × (c ≢ b'\n') × IsLine s

-- `old` with the bytes of `s` from `from` on
abbrev pub overlay : ℕ → List ℕ → Bytes → Bytes
overlay from s old j = if leb from j && ltb j (from + length s) then char_at s (j - from) else old j

overlay-cons :
    (from c : ℕ) (s : List ℕ) (old : Bytes) (j : ℕ)
    → overlay (from + 1) s (update old from c) j ≡ overlay from (c ∷ s) old j
overlay-cons from c s old j = elim (dec_lt from j) [
  | yes p ↦ let next : j - from ≡ suc (j - (from + 1)) = omega arith in rw (next) (ground arith)
  | no p ↦ elim (ℕ_discrete from j) [
    | yes q ↦ let zero_at : j - from ≡ 0 = omega arith in rw (zero_at) (ground arith)
    | no q ↦ ground arith
  ]
]

skip_name-word : (w args : List ℕ) → IsWord w → skip_name (w ++ (b' ' ∷ args)) ≡ some args
unfolding skip_name
skip_name-word [] args h = refl
skip_name-word (c ∷ w) args h = ground (arith, skip_name-word w args h.2)

skip-command :
    (c : ℕ) (w args : List ℕ)
    → IsWord (c ∷ w)
    → skip_name (skip_spaces ((c ∷ w) ++ (b' ' ∷ args))) ≡ some args
unfolding skip_spaces
skip-command c w args word = ground (arith, skip_name-word (c ∷ w) args word)

store_args_lem :
    (left idx : ℕ) (s : List ℕ) (stored : Bytes)
    → IsLine s
    → length s ≤ left
    → ((store_args left idx s stored).0 ≡ idx + length s)
      × ((j : ℕ) → (store_args left idx s stored).1 j ≡ overlay idx s stored j)
unfolding store_args
store_args_lem zero idx [] stored h l = (omega arith, λ j. ground arith)
store_args_lem (suc left) idx [] stored h l = (omega arith, λ j. ground arith)
store_args_lem zero idx (c ∷ s) stored h l = absurd (omega arith)
store_args_lem (suc left) idx (c ∷ s) stored h l =
    let rest = store_args_lem left (idx + 1) s (update stored idx c) h.2 (omega arith) in
    (ground (arith, rest.0), λ j. ground (arith, rest.1 j, overlay-cons idx c s stored j))

strip_newlines_lem :
    (left i : ℕ) (stored : Bytes) (j : ℕ)
    → strip_newlines left i stored j
      ≡ (if leb i j && (ltb j (i + left) && stored j == b'\n') then 0 else stored j)
unfolding strip_newlines
strip_newlines_lem zero i stored j = ground arith
strip_newlines_lem (suc left) i stored j = ground (
  arith,
  strip_newlines_lem left (i + 1) (if stored i == b'\n' then update stored i 0 else stored) j,
)

copy_args_lem :
    (left count : ℕ) (s : List ℕ) (stored buf : Bytes)
    → IsLine s
    → length s ≤ left
    → ((i : ℕ) → i ≤ length s → stored (count + i) ≡ char_at s i)
    → ((copy_args left count stored buf).0 ≡ some (count + length s))
      × ((j : ℕ) → (copy_args left count stored buf).1 j ≡ overlay count s buf j)
unfolding copy_args
copy_args_lem zero count [] stored buf h l held =
    let at = held 0 (omega arith) in ground (arith, at)
copy_args_lem (suc left) count [] stored buf h l held =
    let at = held 0 (omega arith) in ground (arith, at)
copy_args_lem zero count (c ∷ s) stored buf h l held = absurd (omega arith)
copy_args_lem (suc left) count (c ∷ s) stored buf h l held =
    let at : stored count ≡ c = ap stored (omega arith) ∙ held 0 (omega arith) in
    let rest =
      copy_args_lem left (count + 1) s stored (update buf count (stored count)) h.2 (omega arith)
        (λ i b. ap stored (omega arith) ∙ held (suc i) (omega arith)) in
    (ground (arith, at, rest.0), λ j. ground (arith, at, rest.1 j, overlay-cons count c s buf j))

char_at-line : (s : List ℕ) (i : ℕ) → IsLine s → char_at s i ≢ b'\n'
char_at-line [] i h = λ e. omega arith
char_at-line (c ∷ s) zero h = h.1
char_at-line (c ∷ s) (suc i) h = char_at-line s i h.2

char_at-end : (s : List ℕ) → char_at s (length s) ≡ 0
char_at-end [] = refl
char_at-end (c ∷ s) = char_at-end s

-- The text behind a name and a space is what `parse_args` stores, with its NUL, if it is shorter
-- than 1023 bytes.
pub parse_args_lem :
    (c : ℕ) (w args : List ℕ) (old : Bytes) (i : ℕ)
    → IsWord (c ∷ w)
    → IsLine args
    → length args < 1023
    → i ≤ length args
    → parse_args ((c ∷ w) ++ (b' ' ∷ args)) old i ≡ char_at args i
unfolding parse_args
parse_args_lem c w args old i word line short b =
    let found = skip-command c w args word in
    let kept = store_args_lem 1024 0 args old line (omega arith) in
    let end : ltb (store_args 1024 0 args old).0 1023 ≡ true = ground (arith, kept.0) in
    let last : char_at args (length args) ≡ 0 = char_at-end args in
    rw (parse_args, found, end) (ground (arith, kept.0, kept.1 i, last))

-- If `stored_buf` holds a line of arguments that is not empty and is shorter than the buffer, then
-- `getargs` returns 0 and fills the buffer with the line and a NUL, and nothing behind them.
pub getargs_lem :
    (args : List ℕ) (buf : Bytes) (nbytes : ℕ) (k : Kernel)
    → IsLine args
    → 0 < length args
    → length args < nbytes
    → ((i : ℕ) → i ≤ length args → k.stored_buf i ≡ char_at args i)
    → ((getargs buf nbytes k).0 ≡ 0)
      × ((i : ℕ)
          → (getargs buf nbytes k).1 i ≡ (if leb i (length args) then char_at args i else buf i))
unfolding getargs
getargs_lem args buf nbytes k line some_args fits held =
    let stripped = strip_newlines nbytes 0 k.stored_buf in
    let same : (i : ℕ) → i ≤ length args → stripped (0 + i) ≡ char_at args i = λ i b.
      ground
        (arith, strip_newlines_lem nbytes 0 k.stored_buf i, held i b, char_at-line args i line) in
    let copied = copy_args_lem nbytes 0 args stripped buf line (omega arith) same in
    let count : (copy_args nbytes 0 stripped buf).0 ≡ some (length args) =
      copied.0 ∙ ap some (omega arith) in
    let some_bytes : (length args == 0) ≡ false = ground arith in
    let room : (length args == nbytes) ≡ false = ground arith in
    let last : char_at args (length args) ≡ 0 = char_at-end args in
    rw (getargs, count, some_bytes, room)
      (refl, λ i. ground (arith, copied.1 i, same (length args) (omega arith), last))
