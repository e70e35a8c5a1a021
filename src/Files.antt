-- ===== src/Files.antt =====
-- student-distrib/filesys.c: the read-only file system image and the three routines that read it.
pub mod Lookup
pub mod Transfer
pub mod ReadData
use os.Common.{
  ℕ, zero, suc, ◌+◌, ◌-◌, ◌*◌, ◌/◌, ◌^◌, Bool, false, List, ltb, leb, ◌==◌, if◌then◌else◌,
  minus_one, add32, sub32, u32, is_neg, slt, Array, Bytes, char_at, copy,
}
use os.Strings.{strlen, strncmp, strncpy}

pub record Dentry : Type 0 where
  pub filename : Bytes
  pub file_type : ℕ
  pub inode_num : ℕ

pub record Inode : Type 0 where
  pub length : ℕ
  pub data_blocks : Array ℕ

-- `bb`, `inodes` and `data`: the boot block, the inodes and the bytes behind them.
pub record FileSystem : Type 0 where
  pub dir_count : ℕ
  pub inode_count : ℕ
  pub data_count : ℕ
  pub direntries : Array Dentry
  pub inodes : Array Inode
  pub data_bytes : Bytes

-- a little-endian `uint32_t`
abbrev pub load32 : Bytes → ℕ → ℕ
load32 m a = m a + 2 ^ 8 * m (a + 1) + 2 ^ 16 * m (a + 2) + 2 ^ 24 * m (a + 3)

-- `init_filesys`, its part that sets the pointers: `m` is the memory from `addr` on. Nothing writes
-- to the image, so the structures that the pointers give are read once.
unfoldable pub init_filesys : Bytes → FileSystem
init_filesys m = record {
  dir_count = load32 m 0;
  inode_count = load32 m 4;
  data_count = load32 m 8;
  direntries = λ i. record {
    filename = λ j. m (64 + 64 * i + j);
    file_type = load32 m (64 + 64 * i + 32);
    inode_num = load32 m (64 + 64 * i + 36);
  };
  inodes = λ i. record {
    length = load32 m (4096 + 4096 * i);
    data_blocks = λ j. load32 m (4096 + 4096 * i + 4 + 4 * j);
  };
  data_bytes = λ k. m ((load32 m 4 + 1) * 4096 + k);
}

-- The result and the `dentry_t` that the pointer argument leads to.
unfoldable pub read_dentry_by_index : FileSystem → ℕ → Dentry → ℕ × Dentry
read_dentry_by_index fs index dentry =
    let found = fs.direntries index in
    if leb fs.dir_count index then (minus_one, dentry) else (
      0,
      record {
        filename = strncpy dentry.filename found.filename 32;
        file_type = found.file_type;
        inode_num = found.inode_num;
      },
    )

-- the loop over the directory from index `i` on, with `k` rounds left
unfoldable pub search_dentry : ℕ → ℕ → Bytes → FileSystem → List ℕ → Dentry → ℕ × Dentry
search_dentry zero i str1 fs fname dentry = (minus_one, dentry)
search_dentry (suc k) i str1 fs fname dentry =
    let str1' = strncpy str1 (fs.direntries i).filename 32 in
    let rest = search_dentry k (i + 1) str1' fs fname dentry in
    if strncmp str1' (char_at fname) 32 == 0 then read_dentry_by_index fs i dentry else rest

-- `str1` is not initialised: any value serves, since `strncpy` writes all of it.
unfoldable pub read_dentry_by_name : FileSystem → List ℕ → Dentry → ℕ × Dentry
unfolding search_dentry
read_dentry_by_name fs fname dentry =
    if ltb 32 (strlen fname)
    then (minus_one, dentry)
    else search_dentry fs.dir_count 0 (λ _. 0) fs fname dentry

-- The byte at `data + block * FOUR_KB + k`, addresses taken modulo 2 ^ 32.
abbrev pub block_byte : FileSystem → ℕ → Bytes
block_byte fs block k = fs.data_bytes (u32 (block * 4096 + k))

-- the local variables of `read_data`, and the bytes at `buf`
pub record Cursor : Type 0 where
  pub i : ℕ
  pub curr_data_block : ℕ
  pub bytes_to_read : ℕ
  pub buf_offset : ℕ
  pub result : ℕ
  pub buf : Bytes

-- the rounds of `for (count = 0; count < n; count++)`
abbrev pub rounds : ℕ → ℕ
rounds n = if is_neg n then 0 else n

-- `bytes_to_read` after the test for the end of the file
unfoldable pub clip_length : ℕ → ℕ → ℕ → ℕ
clip_length offset n length =
    if ltb length (add32 offset n) then sub32 n (sub32 (add32 offset n) length) else n

-- the part before the first block boundary
unfoldable pub read_first_block : FileSystem → Inode → ℕ → Cursor → Cursor
read_first_block fs src block_offset s =
    let from = λ (k : ℕ). block_byte fs s.curr_data_block (block_offset + k) in
    let part = 4096 - block_offset in
    if block_offset == 0
    then s
    else if slt (add32 block_offset s.bytes_to_read) 4096
    then record s {
      buf = copy (rounds s.bytes_to_read) 0 0 from s.buf;
      result = add32 s.result s.bytes_to_read;
      bytes_to_read = 0;
    }
    else record s {
      buf = copy part 0 0 from s.buf;
      bytes_to_read = sub32 s.bytes_to_read part;
      buf_offset = add32 s.buf_offset part;
      result = add32 s.result part;
      i = s.i + 1;
      curr_data_block = src.data_blocks (s.i + 1);
    }

-- one round of the loop over whole blocks
unfoldable pub read_whole_block : FileSystem → Inode → Cursor → Cursor
read_whole_block fs src s = record s {
  buf = copy 4096 0 s.buf_offset (block_byte fs s.curr_data_block) s.buf;
  bytes_to_read = sub32 s.bytes_to_read 4096;
  buf_offset = add32 s.buf_offset 4096;
  result = add32 s.result 4096;
  i = s.i + 1;
  curr_data_block = src.data_blocks (s.i + 1);
}

-- `bytes_to_read / FOUR_KB > 0`
abbrev pub has_whole_block : Cursor → Bool
has_whole_block s = if is_neg s.bytes_to_read then false else ltb 0 (s.bytes_to_read / 4096)

unfoldable pub read_whole_blocks : ℕ → FileSystem → Inode → Cursor → Cursor
read_whole_blocks zero fs src s = s
read_whole_blocks (suc fuel) fs src s =
    let rest = read_whole_blocks fuel fs src (read_whole_block fs src s) in
    if has_whole_block s then rest else s

-- the part behind the last block boundary
unfoldable pub read_last_block : FileSystem → Cursor → Cursor
read_last_block fs s =
    if slt 0 s.bytes_to_read
    then record s {
      buf = copy (rounds s.bytes_to_read) 0 s.buf_offset (block_byte fs s.curr_data_block) s.buf;
      result = add32 s.result s.bytes_to_read;
    }
    else s

unfoldable pub read_from : FileSystem → Inode → ℕ → ℕ → Bytes → Cursor
read_from fs src offset n buf =
    let i = offset / 4096 in
    let block_offset = if ltb 0 i then sub32 offset (i * 4096) else offset in
    let s = read_first_block fs src block_offset (record {
      i = i;
      curr_data_block = src.data_blocks i;
      bytes_to_read = n;
      buf_offset = 0;
      result = 0;
      buf = buf;
    }) in
    read_last_block fs (read_whole_blocks (s.bytes_to_read / 4096) fs src s)

-- The result, and the bytes at `buf` afterwards.
unfoldable pub read_data : FileSystem → ℕ → ℕ → Bytes → ℕ → ℕ × Bytes
read_data fs inode_index offset buf length =
    let src = fs.inodes inode_index in
    let s = read_from fs src offset (clip_length offset length src.length) buf in
    if leb fs.inode_count inode_index
    then (minus_one, buf)
    else if leb src.length offset
    then (0, buf)
    else (s.result, s.buf)
