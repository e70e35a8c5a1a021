-- ===== src/Descriptors/Read.antt =====
-- Reading: a file is read from its position on, a directory entry by entry.
use os.Common.{
  ℕ, ◌+◌, ◌-◌, ◌^◌, ◌≤◌, ◌<◌, min, ◌≡◌, ◌≢◌, arith, dec_lt, ltb, if◌then◌else◌, Bytes, update, copy,
  copy_lem,
}
use os.Strings.{fill, strncpy}
use os.Strings.Copy.{fill_inside, fill_outside}
use os.Files.{Inode, read_dentry_by_index, read_data, rounds}
use os.Files.Transfer.{file_byte}
use os.Files.ReadData.{read_data_lem}
use os.Machine.{FileDescriptor, Kernel, slot, descriptors, with_descriptors, returns}
use os.Descriptors.{file_read, directory_read, clear_bytes, moved, blank}

clear_bytes_lem :
    (n : ℕ) (buf : Bytes) (j : ℕ)
    → n < 2 ^ 31
    → clear_bytes n buf j ≡ (if ltb j n then 0 else buf j)
clear_bytes_lem n buf j h = elim (dec_lt j n) [
  | yes p ↦ ground (arith, fill_inside n 0 0 (fill (rounds n) 0 0 buf) j)
  | no p ↦ ground (arith, fill_outside n 0 0 (fill (rounds n) 0 0 buf) j, fill_outside n 0 0 buf j)
]

-- the descriptor `fd` of the running process
abbrev pub descriptor : Kernel → ℕ → FileDescriptor
descriptor k fd = descriptors k (slot k.process_num) fd

-- the inode that a descriptor of a regular file leads to
abbrev pub inode_of : Kernel → ℕ → Inode
inode_of k fd = k.fs.inodes (descriptor k fd).inode

-- A read of an open file, with an inode that the file system has, from a position inside the file
-- and with a length and a count below 2 ^ 31, returns as many bytes as were asked for or as
-- are left, puts the file's bytes from the position on into the buffer, fills the rest of the
-- request with NULs, leaves the buffer behind the request alone, and moves the position of this one
-- descriptor past the bytes that were read.
pub file_read_lem :
    (k : Kernel) (fd : ℕ) (buf : Bytes) (n : ℕ)
    → (descriptor k fd).flags ≢ 0
    → (descriptor k fd).inode < k.fs.inode_count
    → (descriptor k fd).file_position < (inode_of k fd).length
    → (inode_of k fd).length < 2 ^ 31
    → n < 2 ^ 31
    → let m = min n ((inode_of k fd).length - (descriptor k fd).file_position) in
      (buf' : Bytes) × (file_read fd buf n k
        ≡ returns m buf' (
            with_descriptors k
              (slot k.process_num)
              (update (descriptors k (slot k.process_num)) fd (moved (descriptor k fd) m))))
      × ((j : ℕ)
          → buf' j ≡ (
              if ltb j m
              then file_byte k.fs (inode_of k fd) ((descriptor k fd).file_position + j)
              else if ltb j n
              then 0
              else buf j))
unfolding file_read
file_read_lem k fd buf n used hi hp hl hn =
    let d = descriptor k fd in
    let (count, holds) =
      read_data_lem k.fs d.inode d.file_position (clear_bytes n buf) n hi hp hl hn in
    (
      (read_data k.fs d.inode d.file_position (clear_bytes n buf) n).1,
      ground (arith, count),
      λ j. ground (arith, holds j, clear_bytes_lem n buf j hn),
    )

-- A read at or behind the end of an open file, with an inode that the file system has, returns 0,
-- clears the request and moves the position by 0.
pub file_read-end :
    (k : Kernel) (fd : ℕ) (buf : Bytes) (n : ℕ)
    → (descriptor k fd).flags ≢ 0
    → (descriptor k fd).inode < k.fs.inode_count
    → (inode_of k fd).length ≤ (descriptor k fd).file_position
    → file_read fd buf n k
      ≡ returns 0 (clear_bytes n buf) (
          with_descriptors k
            (slot k.process_num)
            (update (descriptors k (slot k.process_num)) fd (moved (descriptor k fd) 0)))
unfolding file_read read_data
file_read-end k fd buf n used hi hp = ground arith

-- A read through an open descriptor from 2 to 7, with a count that is not negative: while the
-- position is that of an entry, it returns 32, puts the name of the entry into the first 32 bytes
-- of the buffer and moves on by one entry; behind the last entry it returns 0 and changes nothing.
pub directory_read_lem :
    (k : Kernel) (fd : ℕ) (buf : Bytes) (n : ℕ)
    → 2 ≤ fd
    → fd ≤ 7
    → (descriptor k fd).flags ≢ 0
    → n < 2 ^ 31
    → let d = descriptor k fd in
      (d.file_position < k.fs.dir_count
        → (buf' : Bytes) × (directory_read fd buf n k
            ≡ returns 32 buf' (
                with_descriptors k
                  (slot k.process_num)
                  (update (descriptors k (slot k.process_num)) fd (moved d 1))))
          × ((j : ℕ)
              → j < 32
              → buf' j ≡ strncpy blank.filename (k.fs.direntries d.file_position).filename 32 j))
      × (k.fs.dir_count ≤ d.file_position → directory_read fd buf n k ≡ returns 0 buf k)
unfolding directory_read read_dentry_by_index
directory_read_lem k fd buf n lo hi used hn =
    let from =
      strncpy blank.filename (k.fs.direntries (descriptor k fd).file_position).filename 32 in
    (
      λ more. (
        copy 32 0 0 from (clear_bytes n buf),
        ground arith,
        λ j h. ground (arith, copy_lem 32 0 0 from (clear_bytes n buf) j),
      ),
      λ past. ground arith,
    )
