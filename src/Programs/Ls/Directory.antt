-- ===== src/Programs/Ls/Directory.antt =====
-- What a user of the kernel sees of `ls`: the names in the directory of the image.
use os.Common.{
  ℕ, zero, suc, ◌+◌, ◌-◌, ◌^◌, ◌≤◌, ◌<◌, ◌≡◌, refl, ap, ◌∙◌, ◌≢◌, inl, inr, some, List, [], ◌∷◌,
  ◌++◌, arith, ◌==◌, Bool-cases, Bytes, update, char_at, codes,
}
use os.Strings.{copy_until_nul, fill, strncpy, c_string}
use os.Strings.Copy.{loops, loops_outside, fill_inside}
use os.Files.{FileSystem, read_dentry_by_name}
use os.Files.Lookup.{name_of}
use os.Machine.{Kernel, stdout_fop, slot, scheduled, descriptors}
use os.Descriptors.{blank}
use os.Descriptors.Open.{IsLowestFree}
use os.Descriptors.Read.{descriptor}
use os.Terminal.Output.{printed}
use os.Syscalls.{open_file}
use os.Programs.{ls}
use os.Programs.OnKernel.{kernel_calls, logged}
use os.Programs.Ls.{listing, ls_lem}
use os.Programs.Ls.OfKernel.{kernel-Lists, opened_kernel, opened_kernel-IsListing, open-directory}

printed-nuls :
    (n i : ℕ) (buf : Bytes) → ((j : ℕ) → i ≤ j → j < i + n → buf j ≡ 0) → printed n i buf ≡ []
unfolding printed
printed-nuls zero i buf nuls = refl
printed-nuls (suc n) i buf nuls =
    let first : buf i ≡ 0 = nuls i (omega arith) (omega arith) in
    let rest =
      printed-nuls n (i + 1) buf (λ j low high. nuls j (omega arith) (omega (arith, high))) in
    rw (first, rest) refl

printed-loops :
    (n k i : ℕ) (src d : Bytes) → i + k ≡ n → printed k i (loops n k i src d) ≡ c_string k i src
unfolding copy_until_nul c_string printed
printed-loops n zero i src d e = refl
printed-loops n (suc k) i src d e = elim (Bool-cases (src i == 0)) [
  | inl nul ↦
      let pad =
        printed-nuls (suc k) i (fill (n - i) i 0 d)
          (λ j low high. fill_inside (n - i) i 0 d j low (omega (arith, e, high))) in
      rw nul pad
  | inr more ↦
      let stored : loops n k (i + 1) src (update d i (src i)) i ≡ src i =
        ground (arith, loops_outside n k (i + 1) src (update d i (src i)) i) in
      let rest = printed-loops n k (i + 1) src (update d i (src i)) (omega (arith, e)) in
      rw more (rw (stored, more, rest) refl)
]

-- A name that `strncpy` has copied shows as the name.
strncpy-printed : (dest src : Bytes) (n : ℕ) → printed n 0 (strncpy dest src n) ≡ c_string n 0 src
unfolding strncpy
strncpy-printed dest src n = printed-loops n n 0 src dest (omega arith)

-- the names from entry `i` on, `rounds` of them, each on a line
abbrev pub directory_text : FileSystem → ℕ → ℕ → List ℕ
directory_text fs zero i = []
directory_text fs (suc rounds) i = name_of fs i ++ b'\n' ∷ directory_text fs rounds (i + 1)

listing-directory :
    (fs : FileSystem) (rounds i : ℕ)
    → listing (λ j. strncpy blank.filename (fs.direntries j).filename 32) rounds i
      ≡ directory_text fs rounds i
listing-directory fs zero i = refl
listing-directory fs (suc rounds) i =
    rw
      (
        strncpy-printed blank.filename (fs.direntries i).filename 32,
        listing-directory fs rounds (i + 1),
      )
      refl

dot_name : c_string 1024 0 (char_at (codes ".")) ≡ codes "."
unfolding c_string
dot_name = refl

-- On the kernel, `ls` in a process with a free descriptor and the terminal at descriptor 1, where
-- the image has a directory `.`, ends with status 0, and the bytes it has handed to the terminal
-- are the names of all entries, in their order, each with a newline. The process is the one that
-- the scheduler runs and the kernel counts as the current one, and one round of the loop more than
-- there are entries is enough.
pub ls-directory :
    (woken : ℕ → Bytes → ℕ → Kernel → ℕ × Bytes × Kernel) (ran : Bytes → Kernel → ℕ × Kernel)
    (linkage : ℕ → Kernel → ℕ × Kernel) (garbage fd fuel : ℕ) (buf : Bytes) (k : Kernel)
    → k.fs.dir_count < 2 ^ 32
    → scheduled k ≡ slot k.process_num
    → (descriptor k 1).operations ≡ stdout_fop
    → (descriptor k 1).flags ≢ 0
    → IsLowestFree (descriptors k (slot k.process_num)) fd
    → (read_dentry_by_name k.fs (codes ".") blank).0 ≡ 0
    → (read_dentry_by_name k.fs (codes ".") blank).1.file_type ≡ 1
    → k.fs.dir_count < fuel
    → (end : Kernel) × (ls (logged (kernel_calls woken ran linkage garbage)) fuel buf (k, [])
        ≡ some (0, (end, directory_text k.fs k.fs.dir_count 0)))
ls-directory woken ran linkage garbage fd fuel buf k small mine out out_open free named typed
      enough =
    let opens = open-directory k.fs fd small free.0 free.1 k garbage named typed free in
    let opened = opened_kernel k.fs fd small free.0 free.1 k in
    let is_listing = opened_kernel-IsListing k.fs fd small free.0 free.1 k refl mine out out_open in
    let at_start : (descriptor opened fd).file_position ≡ 0 = is_listing.1 in
    let text = listing-directory k.fs k.fs.dir_count 0 in
    let (end, runs, sent) =
      ls_lem (logged (kernel_calls woken ran linkage garbage)) fd k.fs.dir_count _ _ _ _
        (kernel-Lists k.fs fd small free.0 free.1 woken ran linkage garbage) fuel buf (k, [])
        (opened, [])
        (ap (λ (r : ℕ × Kernel). (r.0, (r.1, [])))
          (ap (λ n. open_file (some n) garbage k) dot_name ∙ opens))
        (λ e. omega (arith, e, free.1)) is_listing.0 (rw at_start (omega (arith, enough))) in
    let whole : k.fs.dir_count - (descriptor opened fd).file_position ≡ k.fs.dir_count =
      omega (arith, at_start) in
    (end.0, runs ∙ ap (λ t. some (0, (end.0, t))) (sent ∙ rw (whole, at_start) text))
