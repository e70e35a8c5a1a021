-- ===== src/Programs/Cat/OfKernel.antt =====
-- `cat` on the kernel: the bytes of a file of the image, through the system calls.
use os.Common.{
  ℕ, zero, suc, ◌+◌, ◌-◌, ◌^◌, ◌≤◌, ◌<◌, min, ◌≡◌, refl, sym, ap, ◌∙◌, ◌≢◌, ◌↔◌, false, some, List,
  [], ◌∷◌, arith, dec_lt, ltb, ◌==◌, if◌then◌else◌, minus_one, Bytes, update, get_or,
}
use os.Files.{FileSystem, Inode}
use os.Files.Transfer.{file_byte}
use os.Machine.{
  Kernel, file_fop, stdout_fop, slot, scheduled, descriptors, with_descriptors, cli, sti, returns,
}
use os.Descriptors.{moved, clear_bytes}
use os.Descriptors.Read.{descriptor, inode_of, file_read_lem, file_read-end}
use os.Terminal.Frame.{terminal_write-IsBeside}
use os.Syscalls.{read, read_of, is_bad, finish_read}
use os.Syscalls.ReadFile.{entered, read-device, finish_read-some}
use os.Programs.OnKernel.{kernel_calls, replied, logged}
use os.Programs.Screen.{IsShowing, written, write-shown, written-descriptors, written-IsShowing}
use os.Programs.Cat.{drop, Serves}

-- `n` bytes of a file from position `p` on
abbrev pub file_bytes : FileSystem → Inode → ℕ → ℕ → List ℕ
file_bytes fs node p zero = []
file_bytes fs node p (suc n) = file_byte fs node p ∷ file_bytes fs node (p + 1) n

file_bytes-empty :
    (fs : FileSystem) (node : Inode) (p n : ℕ) → (file_bytes fs node p n ≡ []) ↔ (n ≡ 0)
file_bytes-empty fs node p zero = ((λ _. refl), (λ _. refl))
file_bytes-empty fs node p (suc n) = ((λ e. ground (arith, e)), (λ e. absurd (omega (arith, e))))

get_or-file_bytes :
    (fs : FileSystem) (node : Inode) (p n i : ℕ)
    → get_or (file_bytes fs node p n) i 0 ≡ (if ltb i n then file_byte fs node (p + i) else 0)
get_or-file_bytes fs node p zero i = ground arith
get_or-file_bytes fs node p (suc n) zero = ground arith
get_or-file_bytes fs node p (suc n) (suc i) = get_or-file_bytes fs node (p + 1) n i ∙ ground arith

file_bytes-same :
    (fs : FileSystem) (node : Inode) (p p' n n' : ℕ)
    → p ≡ p'
    → n ≡ n'
    → file_bytes fs node p n ≡ file_bytes fs node p' n'
file_bytes-same fs node p p' n n' e e' =
    ap (λ q. file_bytes fs node q n) e ∙ ap (file_bytes fs node p') e'

drop-file_bytes :
    (fs : FileSystem) (node : Inode) (p n m : ℕ)
    → drop m (file_bytes fs node p n) ≡ file_bytes fs node (p + min m n) (n - m)
drop-file_bytes fs node p n zero =
    file_bytes-same fs node p (p + min 0 n) n (n - 0) (omega arith) (omega arith)
drop-file_bytes fs node p zero (suc m) =
    file_bytes-same fs node p (p + min (suc m) 0) 0 (0 - suc m) (omega arith) (omega arith)
drop-file_bytes fs node p (suc n) (suc m) =
    drop-file_bytes fs node (p + 1) n m
    ∙ file_bytes-same fs node (p + 1 + min m n) (p + min (suc m) (suc n)) (n - m) (suc n - suc m)
        (omega arith) (omega arith)

-- the kernel when the process that runs has the file of inode `inode` of `fs` open at `fd`
pub record IsServing (fs : FileSystem) (inode fd : ℕ) (k : Kernel) : Type 0 where
  pub same : k.fs ≡ fs
  pub mine : scheduled k ≡ slot k.process_num
  pub regular : (descriptor k fd).operations ≡ file_fop
  pub is_open : (descriptor k fd).flags ≢ 0
  pub number : (descriptor k fd).inode ≡ inode
  pub out : (descriptor k 1).operations ≡ stdout_fop
  pub out_open : (descriptor k 1).flags ≢ 0

module _ (fs : FileSystem) (inode fd : ℕ) (known : inode < fs.inode_count)
    (small : (fs.inodes inode).length < 2 ^ 31) (low : 2 ≤ fd) (high : fd ≤ 7) where
  -- the kernel behind a read of `m` bytes
  abbrev advanced : ℕ → Kernel → Kernel
  advanced m k =
      let k1 = entered k in
      sti (
        with_descriptors k1 (slot k1.process_num)
          (update (descriptors k1 (slot k1.process_num)) fd (moved (descriptor k1 fd) m)))

  good :
      (n : ℕ) (k : Kernel)
      → n < 2 ^ 31
      → IsServing fs inode fd k
      → is_bad fd n (descriptors k (scheduled k)) ≡ false
  good n k h v = rw (v.mine) (ground (arith, v.is_open))

  own :
      (k : Kernel)
      → IsServing fs inode fd k
      → (descriptors k (scheduled k) fd).operations ≡ file_fop
  own k v = rw (v.mine) (v.regular)

  advanced-IsServing :
      (m : ℕ) (k : Kernel) → IsServing fs inode fd k → IsServing fs inode fd (advanced m k)
  advanced-IsServing m k v = record {
    same = v.same;
    mine = v.mine;
    regular = ground (arith, v.regular);
    is_open = ground (arith, v.is_open);
    number = ground (arith, v.number);
    out = ground (arith, v.out);
    out_open = ground (arith, v.out_open);
  }

  -- what is left of the file
  abbrev pub rest_of_file : Kernel → List ℕ
  rest_of_file k =
      let p = (descriptor k fd).file_position in
      file_bytes fs (fs.inodes inode) p ((fs.inodes inode).length - p)

  read-end :
      (k : Kernel) (buf : Bytes)
      → IsServing fs inode fd k
      → (fs.inodes inode).length ≤ (descriptor k fd).file_position
      → read fd (some buf) 1024 k ≡ returns 0 (clear_bytes 1024 buf) (advanced 0 k)
  unfolding read_of finish_read
  read-end k buf v past =
      read-device fd buf 1024 k (λ e. omega (arith, e, low)) (good 1024 k (omega arith) v)
      ∙ ap (λ o. finish_read 1024 (read_of o fd buf 1024 (entered k))) (own k v)
      ∙ ap (finish_read 1024) (
          file_read-end (entered k) fd buf 1024 v.is_open (rw (v.same, v.number) known)
            (rw (v.same, v.number) past))

  read-block :
      (k : Kernel) (buf : Bytes)
      → IsServing fs inode fd k
      → (descriptor k fd).file_position < (fs.inodes inode).length
      → let p = (descriptor k fd).file_position in
        let m = min 1024 ((fs.inodes inode).length - p) in
        (buf' : Bytes) × (read fd (some buf) 1024 k ≡ returns 1024 buf' (advanced m k))
        × ((j : ℕ)
            → j < 1024
            → buf' j ≡ (if ltb j m then file_byte fs (fs.inodes inode) (p + j) else 0))
  unfolding read_of
  read-block k buf v inside =
      let p = (descriptor k fd).file_position in
      let node : inode_of k fd ≡ fs.inodes inode = rw (v.same, v.number) refl in
      let m = min 1024 ((inode_of k fd).length - p) in
      let (buf', reads, bytes) =
        file_read_lem (entered k) fd buf 1024 v.is_open (rw (v.same, v.number) known)
          (rw node inside) (rw node small) (omega arith) in
      let full : m ≢ 0 = λ e. omega (arith, ap (λ (i : Inode). i.length) node, inside, e) in
      let asked : read fd (some buf) 1024 k ≡ returns 1024 buf' (advanced m k) =
        read-device fd buf 1024 k (λ e. omega (arith, e, low)) (good 1024 k (omega arith) v)
        ∙ ap (λ o. finish_read 1024 (read_of o fd buf 1024 (entered k))) (own k v)
        ∙ ap (finish_read 1024) reads
        ∙ finish_read-some 1024 m buf' _ full (omega arith) in
      let amount : m ≡ min 1024 ((fs.inodes inode).length - p) =
        ap (λ (i : Inode). min 1024 (i.length - p)) node in
      let inside_block : (j : ℕ)
          → j < 1024
          → buf' j ≡ (if ltb j m then file_byte k.fs (inode_of k fd) (p + j) else 0) =
        λ j h. bytes j ∙ ground arith in
      (
        buf',
        asked ∙ ap (λ m. returns 1024 buf' (advanced m k)) amount,
        λ j h.
            inside_block j h
            ∙ ap (λ m. if ltb j m then file_byte k.fs (inode_of k fd) (p + j) else 0) amount
            ∙ ap (λ b. if ltb j (min 1024 ((fs.inodes inode).length - p)) then b else 0)
                (ap (λ f. file_byte f (inode_of k fd) (p + j)) v.same
                  ∙ ap (λ i. file_byte fs i (p + j)) node),
      )

  showing : (k : Kernel) → IsServing fs inode fd k → IsShowing k
  showing k v = record { mine = v.mine; out = v.out; out_open = v.out_open }

  written-IsServing :
      (k : Kernel) (buf : Bytes) (n : ℕ)
      → IsServing fs inode fd k
      → IsServing fs inode fd (written buf n k) × (rest_of_file (written buf n k) ≡ rest_of_file k)
  written-IsServing k buf n v =
      let b = terminal_write-IsBeside 1 n buf (cli k) in
      let same = written-descriptors k buf n in
      let shows = written-IsShowing k buf n (showing k v) in
      (
        record {
          same = b.fs ∙ v.same;
          mine = shows.mine;
          regular = rw same (v.regular);
          is_open = rw same (v.is_open);
          number = rw same (v.number);
          out = shows.out;
          out_open = shows.out_open;
        },
        ap
            (λ f.
              let p = (f fd).file_position in
              file_bytes fs (fs.inodes inode) p ((fs.inodes inode).length - p))
            same,
      )

  module _ (woken : ℕ → Bytes → ℕ → Kernel → ℕ × Bytes × Kernel) (ran : Bytes → Kernel → ℕ × Kernel)
      (linkage : ℕ → Kernel → ℕ × Kernel) (garbage : ℕ) where
    -- The kernel does for `cat` what `Serves` says: the log of the bytes that are written is what was
    -- shown.
    pub kernel-Serves :
        Serves
          (logged (kernel_calls woken ran linkage garbage))
          fd
          (λ st. IsServing fs inode fd st.0)
          (λ st. rest_of_file st.0)
          (λ st. st.1)
    unfolding replied
    kernel-Serves = record {
      at_end = λ buf st v none_left.
          let past = (file_bytes-empty fs (fs.inodes inode) _ _).0 none_left in
          rw (read-end st.0 buf v (omega (arith, past))) (refl, refl);
      more = λ buf st v some_left.
          let p = (descriptor st.0 fd).file_position in
          let len = (fs.inodes inode).length in
          let inside : p < len = elim (dec_lt p len) [
            | yes h ↦ h
            | no past ↦ absurd (
                some_left
                  ((file_bytes-empty fs (fs.inodes inode) p (len - p)).1 (omega (arith, past))))
          ] in
          let m = min 1024 (len - p) in
          let (buf', reads, bytes) = read-block st.0 buf v inside in
          let at : (descriptor (advanced m st.0) fd).file_position ≡ p + m =
            ground (arith, inside, small) in
          let next : rest_of_file (advanced m st.0) ≡ drop 1024 (rest_of_file st.0) =
            file_bytes-same fs (fs.inodes inode) (descriptor (advanced m st.0) fd).file_position
              (p + m) (len - (descriptor (advanced m st.0) fd).file_position) (len - p - 1024) at
              (omega (arith, at))
            ∙ sym (drop-file_bytes fs (fs.inodes inode) p (len - p) 1024) in
          let within : (j : ℕ) → j < 1024 → ltb j m ≡ ltb j (len - p) = λ j h. ground (arith, h) in
          rw reads (
            refl,
            (λ j h.
                bytes j h
                ∙ ap (λ b. if b then file_byte fs (fs.inodes inode) (p + j) else 0) (within j h)
                ∙ sym (get_or-file_bytes fs (fs.inodes inode) p (len - p) j)),
            next,
            refl,
            advanced-IsServing m st.0 v,
          );
      prints = λ buf n st v h. rw (write-shown st.0 buf n (showing st.0 v) h) (
          let w = written-IsServing st.0 buf n v in
          (
            (λ e. omega (arith, e, h)),
            (let t : (n == minus_one) ≡ false = ground (arith, h) in rw t refl),
            w.1,
            w.0,
          ));
    }
