-- ===== src/Programs/Grep.antt =====
-- syscalls/ece391grep.c, with ece391_strncmp and ece391_strcpy of syscalls/ece391support.c.
use os.Common.{
  ℕ, zero, suc, ◌+◌, ◌-◌, Bool, true, false, not, ◌&&◌, Option, none, some, ltb, leb, ◌==◌,
  if◌then◌else◌, sub32, minus_one, sign_extend8, Bytes, update, char_at, codes,
}
use os.Programs.{Calls, text_length, fdputs, fdputs_buffer}

-- `ece391_strncmp`, where `n` bytes are left to compare
unfoldable pub strncmp_bytes : ℕ → ℕ → Bytes → ℕ → Bytes → ℕ
strncmp_bytes zero i s1 j s2 = 0
strncmp_bytes (suc n) i s1 j s2 =
    let rest = strncmp_bytes n (i + 1) s1 (j + 1) s2 in
    if not (s1 i == s2 j) then sub32 (s1 i) (s2 j) else if s1 i == 0 then 0 else rest

-- `ece391_strcpy` inside one buffer, from `src` to `dst`, for a text that ends within `room` bytes
unfoldable pub strcpy_down : ℕ → ℕ → ℕ → Bytes → Bytes
strcpy_down zero dst src bytes = bytes
strcpy_down (suc room) dst src bytes =
    let bytes1 = update bytes dst (bytes src) in
    let rest = strcpy_down room (dst + 1) (src + 1) bytes1 in
    if bytes src == 0 then bytes1 else rest

-- the end of the line, with `rounds` bytes up to `last`
unfoldable pub find_line_end : ℕ → ℕ → Bytes → ℕ
find_line_end zero line_end bytes = line_end
find_line_end (suc rounds) line_end bytes =
    let rest = find_line_end rounds (line_end + 1) bytes in
    if bytes line_end == b'\n' then line_end else rest

-- whether the search finds `s`, of `s_len` bytes, in the `rounds` bytes from `check` on
unfoldable pub search_line : ℕ → ℕ → Bytes → ℕ → Bytes → Bool
search_line zero check s s_len bytes = false
search_line (suc rounds) check s s_len bytes =
    let rest = search_line rounds (check + 1) s s_len bytes in
    if sign_extend8 (s 0) == bytes check && strncmp_bytes s_len check bytes 0 s == 0
    then true
    else rest

module _ {S : Type 0} (calls : Calls S) (s fname : Bytes) where
  abbrev pub show_line : ℕ → Bytes → S → S
  show_line line_start bytes st = fdputs calls 1 (codes "\n") (
      fdputs_buffer calls 1 (λ i. bytes (line_start + i))
        (fdputs calls 1 (codes ":") (fdputs_buffer calls 1 fname st)))

  -- The loop over the lines, with `fuel` rounds left: `last`, the buffer and the state. Each round
  -- but the last is a line of at least one byte.
  unfoldable pub search_lines : ℕ → ℕ → ℕ → ℕ → Bytes → S → Option (ℕ × Bytes × S)
  search_lines zero cnt last line_start bytes st = none
  search_lines (suc fuel) cnt last line_start bytes st =
      let line_end = find_line_end (last - line_start) line_start bytes in
      let cut = update bytes line_end 0 in
      let hit = search_line (line_end - line_start) line_start s (text_length 1024 0 s) cut in
      let st1 = if hit then show_line line_start cut st else st in
      let rest = search_lines fuel cnt last (line_end + 1) cut st1 in
      if not (bytes line_end == b'\n') && (not (cnt == 0) && not (line_start == 0))
      then some (last - line_start, strcpy_down 1025 0 line_start cut, st)
      else if leb last (line_end + 1)
      then some (0, cut, st1)
      else rest

  abbrev pub close_file : ℕ → S → ℕ × S
  close_file fd st =
      let (result, st1) = calls.sys_close fd st in
      if result == minus_one
      then (minus_one, fdputs calls 1 (codes "file close failed\n") st1)
      else (0, st1)

  -- The loop over the blocks of the file, with `fuel` rounds left: the result and the state. A block
  -- has at most 1024 lines.
  unfoldable pub search_blocks : ℕ → ℕ → ℕ → Bytes → S → Option (ℕ × S)
  search_blocks zero fd last bytes st = none
  search_blocks (suc fuel) fd last bytes st =
      let (cnt, block, st1) = calls.sys_read fd (λ i. bytes (last + i)) (1024 - last) st in
      let bytes1 = λ (i : ℕ). if ltb i last then bytes i else block (i - last) in
      if cnt == minus_one
      then some (minus_one, fdputs calls 1 (codes "file read failed\n") st1)
      else elim (search_lines 1026 cnt (last + cnt) 0 bytes1 st1) [
        | none ↦ none
        | some r ↦ if cnt == 0 then some (close_file fd r.2) else search_blocks fuel fd r.0 r.1 r.2
      ]

  -- `do_one_file`; `stack` is the buffer before it is filled
  unfoldable pub do_one_file : ℕ → Bytes → S → Option (ℕ × S)
  do_one_file fuel stack st =
      let (fd, st1) = calls.sys_open_file fname st in
      let searched = search_blocks fuel fd 0 stack st1 in
      if fd == minus_one
      then some (minus_one, fdputs calls 1 (codes "file open failed\n") st1)
      else searched

module _ {S : Type 0} (calls : Calls S) where
  -- the loop of `main` over the names, with `fuel` rounds left
  unfoldable pub grep_loop : ℕ → ℕ → Bytes → Bytes → Bytes → S → Option (ℕ × S)
  grep_loop zero fd search stack buf st = none
  grep_loop (suc fuel) fd search stack buf st =
      let (cnt, name, st1) = calls.sys_read fd buf 32 st in
      let fname = update name cnt 0 in
      let skipped = grep_loop fuel fd search stack name st1 in
      if cnt == 0
      then some (0, st1)
      else if cnt == minus_one
      then some (3, fdputs calls 1 (codes "directory entry read failed\n") st1)
      else if name 0 == b'.'
      then skipped
      else elim (do_one_file calls search fname fuel stack st1) [
        | none ↦ none
        | some r ↦
            if not (r.0 == 0) then some (3, r.1) else grep_loop fuel fd search stack fname r.1
      ]

  -- `main`: `search_garbage`, `buf` and `stack` are the three buffers before they are filled.
  unfoldable pub grep : ℕ → Bytes → Bytes → Bytes → S → Option (ℕ × S)
  grep fuel search_garbage buf stack st =
      let (failed, search, st1) = calls.sys_getargs search_garbage 1024 st in
      let (fd, st2) = calls.sys_open_file (char_at (codes ".")) st1 in
      let run = grep_loop fuel fd search stack buf st2 in
      if not (failed == 0)
      then some (3, fdputs calls 1 (codes "could not read argument\n") st1)
      else if fd == minus_one
      then some (2, fdputs calls 1 (codes "directory open failed\n") st2)
      else run
