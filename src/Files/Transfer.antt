-- ===== src/Files/Transfer.antt =====
-- The loops of `read_data`: how far each part of it has read, and what it has written.
use os.Common.{
  ℕ, zero, suc, ◌+◌, ◌-◌, ◌*◌, ◌/◌, ◌%◌, ◌^◌, ◌≤◌, ◌<◌, ◌≡◌, refl, ◌⊎◌, inl, inr, true, false,
  arith, dec_lt, ltb, ◌==◌, if◌then◌else◌, add32, slt, Bytes, copy_lem,
}
use os.Files.{
  FileSystem, Inode, Cursor, block_byte, read_whole_block, read_first_block, read_whole_blocks,
  read_last_block,
}

-- byte `p` of a file: its block is found through the inode
abbrev pub file_byte : FileSystem → Inode → ℕ → ℕ
file_byte fs src p = block_byte fs (src.data_blocks (p / 4096)) (p % 4096)

-- `buf` holds the first `m` bytes of the file from `offset` on, then what it held before.
abbrev pub Holds : FileSystem → Inode → ℕ → Bytes → ℕ → Bytes → Type 0
Holds fs src offset buf0 m buf =
    (j : ℕ) → buf j ≡ (if ltb j m then file_byte fs src (offset + j) else buf0 j)

module _ (fs : FileSystem) (src : Inode) (offset n : ℕ) (buf0 : Bytes) where
  -- `read_data` stands at a block boundary, with `n - bytes_to_read` bytes read.
  pub record IsAligned (s : Cursor) : Type 0 where
    pub small : offset + n < 2 ^ 31
    pub left : s.bytes_to_read + s.buf_offset ≡ n
    pub counted : s.result ≡ s.buf_offset
    pub boundary : offset + s.buf_offset ≡ s.i * 4096
    pub block : s.curr_data_block ≡ src.data_blocks s.i
    pub holds : Holds fs src offset buf0 s.buf_offset s.buf

  read_whole_block-IsAligned :
      {s : Cursor} → 4096 ≤ s.bytes_to_read → IsAligned s → IsAligned (read_whole_block fs src s)
  unfolding read_whole_block
  read_whole_block-IsAligned {s} h v = record {
    small = v.small;
    left = ground arith;
    counted = ground arith;
    boundary = ground arith;
    block = refl;
    holds = λ j. ground (
      arith,
      v.holds j,
      v.block,
      copy_lem 4096 0 s.buf_offset (block_byte fs s.curr_data_block) s.buf j,
    );
  }

  -- With enough fuel the loop ends by its test.
  pub read_whole_blocks-IsAligned :
      (fuel : ℕ) (s : Cursor)
      → s.bytes_to_read / 4096 ≤ fuel
      → IsAligned s
      → IsAligned (read_whole_blocks fuel fs src s)
        × ((read_whole_blocks fuel fs src s).bytes_to_read < 4096)
  unfolding read_whole_blocks
  read_whole_blocks-IsAligned zero s h v = (v, omega arith)
  read_whole_blocks-IsAligned (suc fuel) s h v = elim (dec_lt s.bytes_to_read 4096) [
    | yes p ↦ ground (arith, v.left, v.small)
    | no p ↦
        let next = read_whole_block-IsAligned {s = s} (omega arith) v in
        let smaller : (read_whole_block fs src s).bytes_to_read / 4096 ≤ fuel =
          unfold read_whole_block in omega arith in
        ground (
          arith,
          v.left,
          v.small,
          read_whole_blocks-IsAligned fuel (read_whole_block fs src s) smaller next,
        )
  ]

  -- The file's bytes are all in `buf`, and `result` counts them.
  pub read_last_block-Holds :
      (s : Cursor)
      → s.bytes_to_read < 4096
      → IsAligned s
      → ((read_last_block fs s).result ≡ n) × Holds fs src offset buf0 n (read_last_block fs s).buf
  unfolding read_last_block
  read_last_block-Holds s h v = (
    ground (arith, v.left, v.counted, v.small),
    λ j. ground (
      arith,
      v.holds j,
      v.left,
      v.small,
      v.boundary,
      v.block,
      copy_lem s.bytes_to_read 0 s.buf_offset (block_byte fs s.curr_data_block) s.buf j,
    ),
  )

  -- A read that ends inside its first block is complete at once; any other stands at a boundary.
  pub read_first_block-cases :
      (s : Cursor)
      → offset + n < 2 ^ 31
      → s.i ≡ offset / 4096
      → s.curr_data_block ≡ src.data_blocks s.i
      → s.bytes_to_read ≡ n
      → s.buf_offset ≡ 0
      → s.result ≡ 0
      → ((j : ℕ) → s.buf j ≡ buf0 j)
      → let s' = read_first_block fs src (offset % 4096) s in
        IsAligned s'
        ⊎ ((s'.bytes_to_read ≡ 0) × (s'.result ≡ n) × Holds fs src offset buf0 n s'.buf)
  unfolding read_first_block
  read_first_block-cases s h1 ei eb en eo er ebuf = elim (dec_lt 0 (offset % 4096)) [
    | no p ↦ inl (record {
      small = h1;
      left = ground arith;
      counted = ground arith;
      boundary = ground arith;
      block = ground arith;
      holds = λ j. ground (arith, ebuf j);
    })
    | yes p ↦
        let started : (offset % 4096 == 0) ≡ false = ground arith in
        elim (dec_lt (offset % 4096 + n) 4096) [
          | yes q ↦
              let ends : slt (add32 (offset % 4096) s.bytes_to_read) 4096 ≡ true = ground arith in
              rw (started, ends)
                (inr (
                  refl,
                  ground arith,
                  λ j. ground (
                    arith,
                    ebuf j,
                    copy_lem s.bytes_to_read 0 0
                        (λ k. block_byte fs s.curr_data_block (offset % 4096 + k)) s.buf j,
                  ),
                ))
          | no q ↦
              let ends : slt (add32 (offset % 4096) s.bytes_to_read) 4096 ≡ false = ground arith in
              rw (started, ends)
                (inl (record {
                  small = h1;
                  left = ground arith;
                  counted = ground arith;
                  boundary = ground arith;
                  block = ground arith;
                  holds = λ j. ground (
                    arith,
                    ebuf j,
                    copy_lem (4096 - offset % 4096) 0 0
                        (λ k. block_byte fs s.curr_data_block (offset % 4096 + k)) s.buf j,
                  );
                }))
        ]
  ]
