-- ===== src/Programs/Ls/OfKernel.antt =====
-- `ls` on the kernel: the directory of the image, from the system calls down to the entries.
use os.Common.{
  ℕ, zero, suc, ◌+◌, ◌^◌, ◌≤◌, ◌<◌, ◌≡◌, refl, sym, ap, ◌∙◌, ◌≢◌, true, false, some, arith, ◌==◌,
  minus_one, Bytes, update, length, codes,
}
use os.Files.{FileSystem, read_dentry_by_name}
use os.Strings.{strncpy}
use os.Machine.{
  Kernel, directory_fop, stdout_fop, slot, scheduled, descriptors, with_descriptors, cli, sti,
  returns,
}
use os.Descriptors.Open.{IsLowestFree, open_descriptor-hit}
use os.Descriptors.{opened, directory_open, blank, moved}
use os.Descriptors.Read.{descriptor, directory_read_lem}
use os.Terminal.{terminal_write}
use os.Terminal.Output.{printed, terminal_write_count}
use os.Terminal.Frame.{scheduled-same, terminal_write-IsBeside}
use os.Syscalls.{open_file, open_of, read, write, read_of, write_of, is_bad, finish_read}
use os.Syscalls.ReadFile.{entered, read-device, finish_read-some}
use os.Programs.OnKernel.{kernel_calls, replied, logged}
use os.Programs.Ls.{Lists}

pub length-printed : (n i : ℕ) (buf : Bytes) → length (printed n i buf) ≤ n
unfolding printed
length-printed zero i buf = omega arith
length-printed (suc n) i buf = ground (arith, length-printed n (i + 1) buf)

-- the kernel when the process that runs lists the directory of `fs` by descriptor `fd`
pub record IsListing (fs : FileSystem) (fd : ℕ) (k : Kernel) : Type 0 where
  pub same : k.fs ≡ fs
  pub mine : scheduled k ≡ slot k.process_num
  pub directory : (descriptor k fd).operations ≡ directory_fop
  pub is_open : (descriptor k fd).flags ≢ 0
  pub out : (descriptor k 1).operations ≡ stdout_fop
  pub out_open : (descriptor k 1).flags ≢ 0

module _ (fs : FileSystem) (fd : ℕ) (small : fs.dir_count < 2 ^ 32) (low : 2 ≤ fd)
    (high : fd ≤ 7) where
  -- the kernel behind a read of an entry
  abbrev advanced : Kernel → Kernel
  advanced k =
      let k1 = entered k in
      sti (
        with_descriptors k1 (slot k1.process_num)
          (update (descriptors k1 (slot k1.process_num)) fd (moved (descriptor k1 fd) 1)))

  good : (k : Kernel) → IsListing fs fd k → is_bad fd 32 (descriptors k (scheduled k)) ≡ false
  good k v = rw (v.mine) (ground (arith, v.is_open))

  advanced-IsListing : (k : Kernel) → IsListing fs fd k → IsListing fs fd (advanced k)
  advanced-IsListing k v = record {
    same = v.same;
    mine = v.mine;
    directory = ground (arith, v.directory);
    is_open = ground (arith, v.is_open);
    out = ground (arith, v.out);
    out_open = ground (arith, v.out_open);
  }

  read-end :
      (k : Kernel) (buf : Bytes)
      → IsListing fs fd k
      → fs.dir_count ≤ (descriptor k fd).file_position
      → read fd (some buf) 32 k ≡ returns 0 buf (sti (entered k))
  unfolding read_of finish_read
  read-end k buf v past =
      let own : (descriptors k (scheduled k) fd).operations ≡ directory_fop =
        rw (v.mine) (v.directory) in
      let last =
        (directory_read_lem (entered k) fd buf 32 low high v.is_open (omega arith)).1
          (rw (v.same) past) in
      read-device fd buf 32 k (λ e. omega arith) (good k v)
      ∙ ap (λ o. finish_read 32 (read_of o fd buf 32 (entered k))) own
      ∙ ap (finish_read 32) last

  read-entry :
      (k : Kernel) (buf : Bytes)
      → IsListing fs fd k
      → (descriptor k fd).file_position < fs.dir_count
      → (buf' : Bytes) × (read fd (some buf) 32 k ≡ returns 32 buf' (advanced k))
        × ((j : ℕ)
            → j < 32
            → buf' j
              ≡ strncpy blank.filename
                  (fs.direntries (descriptor k fd).file_position).filename
                  32
                  j)
  unfolding read_of
  read-entry k buf v inside =
      let own : (descriptors k (scheduled k) fd).operations ≡ directory_fop =
        rw (v.mine) (v.directory) in
      let (buf', reads, bytes) =
        (directory_read_lem (entered k) fd buf 32 low high v.is_open (omega arith)).0
          (rw (v.same) inside) in
      (
        buf',
        read-device fd buf 32 k (λ e. omega arith) (good k v)
            ∙ ap (λ o. finish_read 32 (read_of o fd buf 32 (entered k))) own
            ∙ ap (finish_read 32) reads
            ∙ finish_read-some 32 32 buf' _ (λ e. omega arith) (omega arith),
        λ j h.
            bytes j h
            ∙ ap
                (λ (f : FileSystem).
                  strncpy blank.filename (f.direntries (descriptor k fd).file_position).filename 32
                    j)
                (v.same),
      )

  -- the kernel behind a write of a line
  abbrev written : Bytes → Kernel → Kernel
  written buf k = sti (terminal_write 1 (some buf) 33 (cli k)).1

  write-line :
      (k : Kernel) (buf : Bytes) → IsListing fs fd k → write 1 (some buf) 33 k ≡ (33, written buf k)
  unfolding write write_of
  write-line k buf v =
      let own : (descriptors k (scheduled k) 1).operations ≡ stdout_fop = rw (v.mine) (v.out) in
      let fine : is_bad 1 33 (descriptors k (scheduled k)) ≡ false =
        rw (v.mine) (ground (arith, v.out_open)) in
      let count = (terminal_write_count 1 buf 33 (cli k) (omega arith)).0 (omega arith) in
      let few = length-printed 33 0 buf in
      let t : ((terminal_write 1 (some buf) 33 (cli k)).0 == minus_one) ≡ false =
        ground (arith, count, few) in
      rw (write, own, fine, t) refl

  written-IsListing :
      (k : Kernel) (buf : Bytes)
      → IsListing fs fd k
      → IsListing fs fd (written buf k)
        × ((descriptor (written buf k) fd).file_position ≡ (descriptor k fd).file_position)
  written-IsListing k buf v =
      let b = terminal_write-IsBeside 1 33 buf (cli k) in
      let same : descriptors (written buf k) (slot (written buf k).process_num)
          ≡ descriptors k (slot k.process_num) =
        ap (λ f. (f (slot (written buf k).process_num)).file_descriptor) (b.pcbs)
        ∙ ap (λ n. descriptors k (slot n)) (b.current) in
      (
        record {
          same = b.fs ∙ v.same;
          mine = scheduled-same (cli k) _ b ∙ v.mine ∙ ap slot (sym (b.current));
          directory = rw same (v.directory);
          is_open = rw same (v.is_open);
          out = rw same (v.out);
          out_open = rw same (v.out_open);
        },
        ap (λ f. (f fd).file_position) same,
      )

  module _ (woken : ℕ → Bytes → ℕ → Kernel → ℕ × Bytes × Kernel) (ran : Bytes → Kernel → ℕ × Kernel)
      (linkage : ℕ → Kernel → ℕ × Kernel) (garbage : ℕ) where
    -- the kernel does for `ls` what `Lists` says
    pub kernel-Lists :
        Lists
          (logged (kernel_calls woken ran linkage garbage))
          fd
          fs.dir_count
          (λ i. strncpy blank.filename (fs.direntries i).filename 32)
          (λ st. IsListing fs fd st.0)
          (λ st. (descriptor st.0 fd).file_position)
          (λ st. st.1)
    unfolding replied
    kernel-Lists = record {
      at_end = λ buf st v past. rw (read-end st.0 buf v past) (refl, refl);
      more = λ buf st v inside.
          let (buf', reads, bytes) = read-entry st.0 buf v inside in
          rw reads (refl, bytes, ground (arith, inside, small), refl, advanced-IsListing st.0 v);
      prints = λ buf st v.
          rw (write-line st.0 buf v)
            (let w = written-IsListing st.0 buf v in (λ e. omega (arith, e), refl, w.1, w.0));
    }

  -- the kernel behind `open` of the directory
  abbrev pub opened_kernel : Kernel → Kernel
  opened_kernel k =
      let p = slot k.process_num in
      sti (with_descriptors (cli k) p (update (descriptors k p) fd (opened directory_fop 0)))

  pub opened_kernel-IsListing :
      (k : Kernel)
      → k.fs ≡ fs
      → scheduled k ≡ slot k.process_num
      → (descriptor k 1).operations ≡ stdout_fop
      → (descriptor k 1).flags ≢ 0
      → IsListing fs fd (opened_kernel k) × ((descriptor (opened_kernel k) fd).file_position ≡ 0)
  opened_kernel-IsListing k same mine out out_open = (
    record {
      same = same;
      mine = mine;
      directory = ground arith;
      is_open = ground arith;
      out = ground (arith, out);
      out_open = ground (arith, out_open);
    },
    ground arith,
  )

  pub open-directory :
      (k : Kernel) (garbage : ℕ)
      → (read_dentry_by_name k.fs (codes ".") blank).0 ≡ 0
      → (read_dentry_by_name k.fs (codes ".") blank).1.file_type ≡ 1
      → IsLowestFree (descriptors k (slot k.process_num)) fd
      → open_file (some (codes ".")) garbage k ≡ (fd, opened_kernel k)
  unfolding open_file open_of directory_open
  open-directory k garbage named typed free =
      let t0 : ((read_dentry_by_name k.fs (codes ".") blank).0 == minus_one) ≡ false =
        ground arith in
      let t1 : ((read_dentry_by_name k.fs (codes ".") blank).1.file_type == 0) ≡ false =
        ground arith in
      let t2 : ((read_dentry_by_name k.fs (codes ".") blank).1.file_type == 1) ≡ true =
        ground arith in
      let hit =
        open_descriptor-hit k.fs 1 directory_fop (λ _. 0) (codes ".")
          (descriptors k (slot k.process_num)) fd free named typed in
      rw (open_file, t0, t1, t2, hit) refl
