-- ===== src/Fish.antt =====
-- fish/fish.c: the program that blinks the characters of two pictures on the screen.
use os.Common.{
  ℕ, zero, suc, ◌+◌, ◌*◌, ◌%◌, ◌^◌, true, false, not, ◌&&◌, ◌||◌, Option, none, some, [], ◌∷◌, ◌==◌,
  if◌then◌else◌, minus_one, is_neg, Bytes, update, char_at, codes,
}
use os.Files.{load32}
use os.Programs.{Calls}

-- `struct mp1_blink_struct`, less what only fish/blink.S reads and writes
pub record Blink : Type 0 where
  pub location : ℕ
  pub on_char : ℕ
  pub off_char : ℕ
  pub on_length : ℕ
  pub off_length : ℕ

-- What the program stands on: the system calls, the array `blink_array` as 16 bytes for each of its
-- structures, the variable that `vidmap` stores to, and the routines of fish/blink.S, which are
-- assembly: `mp1_ioctl` with its three commands, and `mp1_rtc_tasklet`.
pub record Machinery (S : Type 0) : Type 0 where
  pub calls : Calls S
  pub blink_array : S → Bytes
  pub with_array : Bytes → S → S
  pub vmem_base_addr : S → ℕ
  pub vmem_base_addr_at : ℕ
  pub ioctl_add : Blink → S → S
  pub ioctl_sync : ℕ → S → S
  pub ioctl_remove : ℕ → S → S
  pub tasklet : ℕ → S → S

-- `ece391_memset` from `at` on, with `n` bytes left, and `ece391_memcpy` between two blocks
unfoldable pub set_memory : ℕ → ℕ → ℕ → Bytes → Bytes
set_memory zero at c memory = memory
set_memory (suc n) at c memory = set_memory n (at + 1) c (update memory at c)

unfoldable pub copy_memory : ℕ → ℕ → Bytes → Bytes → Bytes
copy_memory zero i src dest = dest
copy_memory (suc n) i src dest = copy_memory n (i + 1) src (update dest i (src i))

-- `mp1_malloc`: the loop over the structures, and the offset of the first whose location is 0
unfoldable pub find_structure : ℕ → ℕ → Bytes → Option ℕ
find_structure zero i array = none
find_structure (suc rounds) i array =
    let rest = find_structure rounds (i + 1) array in
    if array (16 * i) + 256 * array (16 * i + 1) == 0 then some (16 * i) else rest

unfoldable pub mp1_malloc : Bytes → Option ℕ
mp1_malloc array = find_structure 2000 0 array

unfoldable pub mp1_free : ℕ → Bytes → Bytes
mp1_free at array = set_memory 16 at 0 array

-- how the program ends: it returns, or it has halted before
pub data Ending (S : Type 0) : Type 0 where
  ends : ℕ → S → Ending S
  halted : S → Ending S

-- the variables of the loops of `add_frames`
pub record Drawing (S : Type 0) : Type 0 where
  pub c0 : ℕ
  pub eof0 : ℕ
  pub c1 : ℕ
  pub eof1 : ℕ
  pub state : S

-- The blink of two characters at a place. Of `blink_struct` all other fields stay as they are.
abbrev pub blink_of : Blink → ℕ → ℕ → ℕ → ℕ → Blink
blink_of blink_struct row col a b = record blink_struct {
  on_char = a;
  off_char = b;
  location = (row * 80 + col + 40) % 2 ^ 16;
}

module _ {S : Type 0} (m : Machinery S) where
  -- the next character of one file, unless its line has ended
  unfoldable pub read_char : ℕ → ℕ → ℕ → S → ℕ × ℕ × S
  read_char fd c eof st =
      let (num_bytes, buf, st1) = m.calls.sys_read fd (char_at (c ∷ [])) 1 st in
      if c == b'\n'
      then (c, eof, st)
      else if num_bytes == 0
      then (b'\n', 1, st1)
      else (buf 0, eof, st1)

  -- a round of the loop over the columns: the two reads, and the character that is shown
  unfoldable pub read_chars : ℕ → ℕ → Drawing S → Drawing S
  read_chars fd0 fd1 d =
      let (c0, eof0, st0) = read_char fd0 d.c0 d.eof0 d.state in
      let (c1, eof1, st1) = read_char fd1 d.c1 d.eof1 st0 in
      record { c0 = c0; eof0 = eof0; c1 = c1; eof1 = eof1; state = st1 }

  unfoldable pub draw_column : ℕ → ℕ → Blink → Drawing S → Drawing S
  draw_column row col blink_struct d =
      let seen =
        not (d.c0 == b' ') && not (d.c0 == b'\n') || not (d.c1 == b' ') && not (d.c1 == b'\n') in
      let on = if d.c0 == b'\n' then b' ' else d.c0 in
      let off = if d.c1 == b'\n' then b' ' else d.c1 in
      record d {
        state =
            if seen then m.ioctl_add (blink_of blink_struct row col on off) d.state else d.state;
      }

  -- the loop over the columns of a row, with `fuel` rounds left; `none` if they run out
  unfoldable pub draw_row : ℕ → ℕ → ℕ → ℕ → ℕ → Blink → Drawing S → Option (Drawing S)
  draw_row zero fd0 fd1 row col blink_struct d = none
  draw_row (suc fuel) fd0 fd1 row col blink_struct d =
      let d1 = read_chars fd0 fd1 d in
      let rest =
        draw_row fuel fd0 fd1 row (col + 1) blink_struct (draw_column row col blink_struct d1) in
      if d1.c0 == b'\n' && d1.c1 == b'\n' then some d1 else rest

  -- the statements behind the row
  unfoldable pub end_row : ℕ → ℕ → Drawing S → Drawing S
  end_row fd0 fd1 d =
      let st1 = if d.eof0 == 0 then d.state else (m.calls.sys_close fd0 d.state).1 in
      record d {
        c0 = if d.eof0 == 0 then b'0' else b'\n';
        c1 = if d.eof1 == 0 then b'0' else b'\n';
        state = if d.eof1 == 0 then st1 else (m.calls.sys_close fd1 st1).1;
      }

  -- the loop over the rows, with `fuel` rounds left and at most `width` columns
  unfoldable pub draw_rows : ℕ → ℕ → ℕ → ℕ → ℕ → Blink → Drawing S → Option (Drawing S)
  draw_rows zero width fd0 fd1 row blink_struct d = none
  draw_rows (suc fuel) width fd0 fd1 row blink_struct d = elim (d.eof0 == 0 || d.eof1 == 0) [
    | false ↦ some d
    | true ↦ elim (draw_row width fd0 fd1 row 0 blink_struct d) [
      | none ↦ none
      | some d1 ↦ draw_rows fuel width fd0 fd1 (row + 1) blink_struct (end_row fd0 fd1 d1)
    ]
  ]

  -- `add_frames`: `blink_struct` is the structure on the stack before its lengths are set. A halt
  -- does not return.
  unfoldable pub add_frames : ℕ → ℕ → Bytes → Bytes → Blink → S → Option (Ending S)
  add_frames fuel width f0 f1 blink_struct st =
      let (fd0, st1) = m.calls.sys_open_file f0 st in
      let (fd1, st2) = m.calls.sys_open_file f1 st1 in
      let blink = record blink_struct { on_length = 15; off_length = 15 } in
      let start : Drawing S = record { c0 = b'0'; eof0 = 0; c1 = b'0'; eof1 = 0; state = st2 } in
      if is_neg fd0
      then some (halted st1)
      else if is_neg fd1
      then some (halted st2)
      else elim (draw_rows fuel width fd0 fd1 0 blink start) [
        | none ↦ none
        | some d ↦ some (ends 0 d.state)
      ]

  -- `mp1_set_video_mode`: the pointer, 0 for NULL
  unfoldable pub set_video_mode : S → ℕ × S
  set_video_mode st =
      let (result, st1) = m.calls.sys_vidmap m.vmem_base_addr_at st in
      (if result == minus_one then 0 else m.vmem_base_addr st1, st1)

  -- a loop of `main` that waits for ticks of the clock, with `rounds` left
  unfoldable pub wait_ticks : ℕ → ℕ → Bytes → S → Bytes × S
  wait_ticks zero rtc_fd garbage st = (garbage, st)
  wait_ticks (suc rounds) rtc_fd garbage st =
      let (_, garbage1, st1) = m.calls.sys_read rtc_fd garbage 4 st in
      wait_ticks rounds rtc_fd garbage1 (m.tasklet (load32 garbage1 0) st1)

  -- `main` behind `add_frames`
  unfoldable pub animate : ℕ → Bytes → S → S
  animate rtc_fd garbage st =
      let rate = char_at (32 ∷ []) in
      let (g1, st1) = wait_ticks 100 rtc_fd garbage (m.calls.sys_write rtc_fd rate 4 st).1 in
      let fish : Blink = record {
        location = 540;
        on_char = b'I';
        off_char = b'M';
        on_length = 7;
        off_length = 6;
      } in
      let (g2, st2) = wait_ticks 100 rtc_fd g1 (m.ioctl_add fish st1) in
      let (g3, st3) = wait_ticks 100 rtc_fd g2 (m.ioctl_sync (40 * 2 ^ 16 + 540) st2) in
      let (_, st4) = wait_ticks 100 rtc_fd g3 (m.ioctl_remove 540 st3) in
      (m.calls.sys_close rtc_fd st4).1

  -- `main`
  unfoldable pub fish : ℕ → ℕ → Blink → Bytes → S → Option (Ending S)
  fish fuel width blink_struct garbage st =
      let cleared = m.with_array (set_memory 32000 0 0 (m.blink_array st)) st in
      let (video, st1) = set_video_mode cleared in
      let (rtc_fd, st2) = m.calls.sys_open_file (char_at (codes "rtc")) st1 in
      let file0 = char_at (codes "frame0.txt") in
      let file1 = char_at (codes "frame1.txt") in
      let drawn = add_frames fuel width file0 file1 blink_struct st2 in
      if video == 0 then some (ends minus_one st1) else elim drawn [
        | none ↦ none
        | some (halted st3) ↦ some (halted st3)
        | some (ends _ st3) ↦ some (ends 0 (animate rtc_fd garbage st3))
      ]
