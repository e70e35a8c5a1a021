-- ===== src/Syscalls/ReadFile.antt =====
-- The call `read` on an open regular file, from the system call down to the image.
use os.Common.{
  ℕ, ◌+◌, ◌-◌, ◌^◌, ◌≤◌, ◌<◌, min, ◌≡◌, refl, ap, ◌∙◌, ◌≢◌, false, some, arith, ltb, ◌==◌,
  if◌then◌else◌, minus_one, Bytes,
}
use os.Machine.{file_fop, Kernel, slot, scheduled, descriptors, cli, sti, returns}
use os.Files.Transfer.{file_byte}
use os.Descriptors.Read.{descriptor, inode_of, file_read_lem}
use os.Pic.{enable_irq_of, disable_irq_of}
use os.Syscalls.{read, read_of, is_bad, finish_read, enter_read_call}

-- the kernel in which `read` of a descriptor other than 0 calls the device
abbrev pub entered : Kernel → Kernel
entered k = cli (enable_irq_of 0 (disable_irq_of 0 (cli k)))

pub read-device :
    (fd : ℕ) (buf : Bytes) (n : ℕ) (k : Kernel)
    → fd ≢ 0
    → is_bad fd n (descriptors k (scheduled k)) ≡ false
    → read fd (some buf) n k
      ≡ finish_read n (read_of (descriptors k (scheduled k) fd).operations fd buf n (entered k))
unfolding read enter_read_call
read-device fd buf n k above good =
    let t : (fd == 0) ≡ false = ground arith in rw (read, enter_read_call, t, good) refl

-- what is read of a file with the position inside it
pub finish_read-some :
    (n m : ℕ) (buf : Bytes) (k : Kernel)
    → m ≢ 0
    → m < 2 ^ 31
    → finish_read n (returns m buf k) ≡ returns n buf (sti k)
unfolding finish_read
finish_read-some n m buf k some_read small =
    let t0 : (m == 0) ≡ false = ground arith in
    let t1 : (m == minus_one) ≡ false = ground arith in rw (t0, t1) refl

-- `read` of a regular file that the scheduled process has open at descriptor 2 to 7, with the
-- position inside the file, a count from 1 on and below 2 ^ 31, and a length below 2 ^ 31: it
-- returns the count, the buffer holds the bytes of the file from the position on and NULs behind
-- the last, and the position has moved past the bytes that were read.
pub read-file_lem :
    (k : Kernel) (fd : ℕ) (buf : Bytes) (n : ℕ)
    → scheduled k ≡ slot k.process_num
    → 2 ≤ fd
    → fd ≤ 7
    → (descriptor k fd).operations ≡ file_fop
    → (descriptor k fd).flags ≢ 0
    → (descriptor k fd).inode < k.fs.inode_count
    → (descriptor k fd).file_position < (inode_of k fd).length
    → (inode_of k fd).length < 2 ^ 31
    → 0 < n
    → n < 2 ^ 31
    → let d = descriptor k fd in
      let m = min n ((inode_of k fd).length - d.file_position) in
      (buf' : Bytes) × (k' : Kernel) × (read fd (some buf) n k ≡ returns n buf' k')
      × ((j : ℕ)
          → j < n
          → buf' j ≡ (if ltb j m then file_byte k.fs (inode_of k fd) (d.file_position + j) else 0))
      × ((descriptor k' fd).file_position ≡ d.file_position + m)
unfolding read_of
read-file_lem k fd buf n mine low high regular used hi hp hl some_asked hn =
    let m = min n ((inode_of k fd).length - (descriptor k fd).file_position) in
    let good : is_bad fd n (descriptors k (scheduled k)) ≡ false = rw mine (ground arith) in
    let (buf', reads, bytes) = file_read_lem (entered k) fd buf n used hi hp hl hn in
    let own : (descriptors k (scheduled k) fd).operations ≡ file_fop = rw mine regular in
    let filled : m ≢ 0 = λ e. ground (arith, e) in
    let small : m < 2 ^ 31 = ground arith in
    (
      buf',
      _,
      read-device fd buf n k (λ e. omega (arith, e)) good
          ∙ ap (λ o. finish_read n (read_of o fd buf n (entered k))) own
          ∙ ap (finish_read n) reads
          ∙ finish_read-some n m buf' _ filled small,
      λ j h. bytes j ∙ ground arith,
      ground arith,
    )
