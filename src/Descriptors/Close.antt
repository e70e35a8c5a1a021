-- ===== src/Descriptors/Close.antt =====
-- Opening and closing belong together.
use os.Common.{ℕ, ◌≡◌, ◌≢◌, false, List, arith, minus_one}
use os.Descriptors.{is_outside, open_descriptor, file_open, file_close}
use os.Machine.{file_fop, Kernel, slot, descriptors}

-- what a successful open has done: the descriptor was free and is in use, and no other changed
open_descriptor-frame :
    (k : Kernel) (filename : List ℕ)
    → let r =
        open_descriptor k.fs 2 file_fop
          (λ d. d.inode_num)
          filename
          (descriptors k (slot k.process_num)) in
      r.0 ≢ minus_one
      → (is_outside r.0 ≡ false)
        × ((descriptors k (slot k.process_num) r.0).flags ≡ 0)
        × ((r.1 r.0).flags ≡ 1)
        × ((j : ℕ) → j ≢ r.0 → r.1 j ≡ descriptors k (slot k.process_num) j)
unfolding open_descriptor
open_descriptor-frame k filename h = (ground arith, ground arith, ground arith, λ j n. ground arith)

-- A file that was opened is closed by `file_close`, which returns 0: its descriptor was free before
-- the open, is in use after it and is free again after the close, and at the end every other
-- descriptor of the process is as it was before the open.
pub file_open-file_close :
    (filename : List ℕ) (k : Kernel)
    → (file_open filename k).0 ≢ minus_one
    → let fd = (file_open filename k).0 in
      let k1 = (file_open filename k).1 in
      let p = slot k.process_num in
      ((file_close fd k1).0 ≡ 0)
      × ((descriptors k p fd).flags ≡ 0)
      × ((descriptors k1 p fd).flags ≡ 1)
      × ((descriptors (file_close fd k1).1 p fd).flags ≡ 0)
      × ((j : ℕ) → j ≢ fd → descriptors (file_close fd k1).1 p j ≡ descriptors k p j)
unfolding file_open file_close
file_open-file_close filename k h =
    let (inside, free, used, others) = open_descriptor-frame k filename h in
    (ground arith, free, ground arith, ground arith, λ j n. ground (arith, others j n))
