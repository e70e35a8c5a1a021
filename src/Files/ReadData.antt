-- ===== src/Files/ReadData.antt =====
-- `read_data` against the file as one sequence of bytes.
use os.Common.{
  ℕ, ◌+◌, ◌-◌, ◌*◌, ◌/◌, ◌%◌, ◌^◌, ◌<◌, min, ◌≡◌, refl, inl, inr, false, arith, ltb, leb,
  if◌then◌else◌, sub32, slt, Bytes, length,
}
use os.Files.{
  FileSystem, Inode, Cursor, clip_length, read_from, read_data, read_last_block, read_whole_blocks,
  read_first_block,
}
use os.Files.Transfer.{
  Holds, IsAligned, read_first_block-cases, read_whole_blocks-IsAligned, read_last_block-Holds,
}

-- The request is cut at the end of the file.
clip_length-min :
    (offset n length : ℕ)
    → offset < length
    → length < 2 ^ 31
    → n < 2 ^ 31
    → clip_length offset n length ≡ min n (length - offset)
unfolding clip_length
clip_length-min offset n length h l m = ground arith

module _ (fs : FileSystem) (src : Inode) (offset n : ℕ) (buf : Bytes)
    (small : offset + n < 2 ^ 31) where
  abbrev Reads : Cursor → Type 0
  Reads s = (s.result ≡ n) × Holds fs src offset buf n s.buf

  abbrev first : Cursor
  first = record {
    i = offset / 4096;
    curr_data_block = src.data_blocks (offset / 4096);
    bytes_to_read = n;
    buf_offset = 0;
    result = 0;
    buf = buf;
  }

  abbrev behind_first : Cursor
  behind_first = read_first_block fs src (offset % 4096) first

  -- A complete cursor is left as it is.
  rest_of_complete :
      (s : Cursor)
      → s.bytes_to_read ≡ 0
      → Reads s
      → Reads (read_last_block fs (read_whole_blocks (s.bytes_to_read / 4096) fs src s))
  unfolding read_last_block read_whole_blocks
  rest_of_complete s e r =
      let none_left : s.bytes_to_read / 4096 ≡ 0 = omega arith in
      let nothing : slt 0 s.bytes_to_read ≡ false = ground arith in rw none_left (rw nothing r)

  rest_of_aligned :
      (s : Cursor)
      → IsAligned fs src offset n buf s
      → Reads (read_last_block fs (read_whole_blocks (s.bytes_to_read / 4096) fs src s))
  rest_of_aligned s v =
      let (aligned, ended) =
        read_whole_blocks-IsAligned fs src offset n buf (s.bytes_to_read / 4096) s (omega arith)
          v in
      read_last_block-Holds fs src offset n buf _ ended aligned

  read_from-Reads : Reads (read_from fs src offset n buf)
  unfolding read_from
  read_from-Reads =
      let start : (if ltb 0 (offset / 4096) then sub32 offset (offset / 4096 * 4096) else offset)
          ≡ offset % 4096 =
        ground arith in
      rw start
        (elim (read_first_block-cases fs src offset n buf first small refl refl refl refl refl
          (λ j. refl)) [
            | inl v ↦ rest_of_aligned behind_first v
            | inr (e, r, h) ↦ rest_of_complete behind_first e (r, h)
          ])

-- A read of an inode that the file system has, from an offset inside the file, returns as many
-- bytes as were asked for or as the file still has, whichever is less, writes exactly those of the
-- file to the buffer, and leaves the rest of the buffer as it was. The length of the file and the
-- count are below 2 ^ 31.
pub read_data_lem :
    (fs : FileSystem) (inode_index offset : ℕ) (buf : Bytes) (len : ℕ)
    → inode_index < fs.inode_count
    → offset < (fs.inodes inode_index).length
    → (fs.inodes inode_index).length < 2 ^ 31
    → len < 2 ^ 31
    → let n = min len ((fs.inodes inode_index).length - offset) in
      let (result, buf') = read_data fs inode_index offset buf len in
      (result ≡ n) × Holds fs (fs.inodes inode_index) offset buf n buf'
unfolding read_data
read_data_lem fs k offset buf len hi ho hl hn =
    let src = fs.inodes k in
    let found : leb fs.inode_count k ≡ false = ground arith in
    let inside : leb src.length offset ≡ false = ground arith in
    rw (found, inside, clip_length-min offset len src.length ho hl hn)
      (read_from-Reads fs src offset (min len (src.length - offset)) buf (omega arith))
