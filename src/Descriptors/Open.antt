-- ===== src/Descriptors/Open.antt =====
-- Opening: which descriptor is handed out, and what a refusal leaves behind.
use os.Common.{
  ℕ, zero, suc, ◌+◌, ◌≤◌, ◌<◌, ◌≡◌, refl, ◌≢◌, List, arith, ℕ_discrete, minus_one, Array, update,
}
use os.Files.{FileSystem, Dentry, read_dentry_by_name}
use os.Machine.{FileOps, FileDescriptor}
use os.Descriptors.{free_slot, open_descriptor, opened, blank}

-- descriptor `i` is free, and is the lowest free one from 2 on
abbrev pub IsLowestFree : Array FileDescriptor → ℕ → Type 0
IsLowestFree fds i =
    (2 ≤ i) × (i ≤ 7) × ((fds i).flags ≡ 0) × ((j : ℕ) → 2 ≤ j → j < i → (fds j).flags ≢ 0)

free_slot-hit :
    (k i target : ℕ) (fds : Array FileDescriptor)
    → i ≤ target
    → target < i + k
    → (fds target).flags ≡ 0
    → ((j : ℕ) → i ≤ j → j < target → (fds j).flags ≢ 0)
    → free_slot k i fds ≡ target
unfolding free_slot
free_slot-hit zero i target fds l h free first = absurd (omega arith)
free_slot-hit (suc k) i target fds l h free first = elim (ℕ_discrete i target) [
  | yes here ↦ ground arith
  | no later ↦ ground (
    arith,
    first i,
    free_slot-hit k (i + 1) target fds (omega arith) (omega arith) free
        (λ j a b. first j (omega arith) b),
  )
]

free_slot-miss :
    (k i : ℕ) (fds : Array FileDescriptor)
    → ((j : ℕ) → i ≤ j → j < i + k → (fds j).flags ≢ 0)
    → free_slot k i fds ≡ minus_one
unfolding free_slot
free_slot-miss zero i fds full = refl
free_slot-miss (suc k) i fds full =
    ground
      (arith, full i, free_slot-miss k (i + 1) fds (λ j a b. full j (omega arith) (omega arith)))

module _ (fs : FileSystem) (file_type : ℕ) (ops : FileOps) (inode : Dentry → ℕ) (filename : List ℕ)
    (fds : Array FileDescriptor) where
  -- If the name is found, its file is of the right type and a descriptor from 2 to 7 is free, the
  -- lowest free one is handed out, with the table, the inode of the call and position 0.
  pub open_descriptor-hit :
      (fd : ℕ)
      → IsLowestFree fds fd
      → (read_dentry_by_name fs filename blank).0 ≡ 0
      → (read_dentry_by_name fs filename blank).1.file_type ≡ file_type
      → open_descriptor fs file_type ops inode filename fds
        ≡ (fd, update fds fd (opened ops (inode (read_dentry_by_name fs filename blank).1)))
  unfolding open_descriptor
  open_descriptor-hit fd (lo, hi, free, first) named typed =
      let slot : free_slot 6 2 fds ≡ fd = free_slot-hit 6 2 fd fds lo (omega arith) free first in
      ground (arith, slot)

  -- A refusal changes no descriptor.
  pub open_descriptor-refused :
      (open_descriptor fs file_type ops inode filename fds).0 ≡ minus_one
      → (open_descriptor fs file_type ops inode filename fds).1 ≡ fds
  unfolding open_descriptor
  open_descriptor-refused h = ground arith

-- An attempt to open changes no descriptor but the one that it returns.
pub open_descriptor-others :
    (fs : FileSystem) (file_type : ℕ) (ops : FileOps) (inode : Dentry → ℕ) (filename : List ℕ)
    (fds : Array FileDescriptor) (j : ℕ)
    → (open_descriptor fs file_type ops inode filename fds).0 ≢ j
    → (open_descriptor fs file_type ops inode filename fds).1 j ≡ fds j
unfolding open_descriptor
open_descriptor-others fs file_type ops inode filename fds j h = ground arith
