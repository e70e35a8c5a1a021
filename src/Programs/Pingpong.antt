-- ===== src/Programs/Pingpong.antt =====
-- syscalls/ece391pingpong.c. BUFMAX is 81, and LOOPMAX, whose text is `79+2-2-1`, is 78.
use os.Common.{
  ℕ, zero, suc, ◌+◌, ◌-◌, [], ◌∷◌, ◌==◌, if◌then◌else◌, u8, Bytes, update, char_at, codes,
}
use os.Strings.{fill}
use os.Programs.{Calls, fdputs_buffer}

-- the two loops and the four assignments that set up the buffer
unfoldable pub walls : Bytes → Bytes
walls garbage =
    update (update (update (update (fill 81 0 b' ' garbage) 80 0) 79 b'\n') 78 b'|') 1 b'|'

unfoldable pub next_char : ℕ → ℕ
next_char curchar = if curchar == b'Z' then b'A' else u8 (curchar + 1)

module _ {S : Type 0} (calls : Calls S) where
  -- The statements in both loops over `j`: the two variables that change, `buf` and `garbage`, and
  -- the state.
  unfoldable pub show_ball : ℕ → ℕ → ℕ → Bytes × Bytes × S → Bytes × Bytes × S
  show_ball rtc_fd curchar j (buf, garbage, st) =
      let buf1 = update (fill 76 2 b' ' buf) j curchar in
      let (_, garbage1, st1) = calls.sys_read rtc_fd garbage 4 (fdputs_buffer calls 1 buf1 st) in
      (buf1, garbage1, st1)

  unfoldable pub move_out : ℕ → ℕ → ℕ → ℕ → Bytes × Bytes × S → Bytes × Bytes × S
  move_out zero rtc_fd curchar j r = r
  move_out (suc rounds) rtc_fd curchar j r =
      move_out rounds rtc_fd curchar (j + 1) (show_ball rtc_fd curchar j r)

  unfoldable pub bounce_back : ℕ → ℕ → ℕ → ℕ → Bytes × Bytes × S → Bytes × Bytes × S
  bounce_back zero rtc_fd curchar j r = r
  bounce_back (suc rounds) rtc_fd curchar j r =
      bounce_back rounds rtc_fd curchar (j - 1) (show_ball rtc_fd curchar j r)

  -- the first `rounds` rounds of the loop that does not end
  unfoldable pub pingpong_loop : ℕ → ℕ → ℕ → Bytes × Bytes × S → Bytes × Bytes × S
  pingpong_loop zero rtc_fd curchar r = r
  pingpong_loop (suc rounds) rtc_fd curchar r =
      pingpong_loop rounds rtc_fd (next_char curchar)
        (bounce_back 76 rtc_fd curchar 77 (move_out 76 rtc_fd curchar 2 r))

  -- `main`, cut off after `rounds` rounds: the state. The frequency is written from a variable.
  unfoldable pub pingpong : ℕ → Bytes → Bytes → S → S
  pingpong rounds stack garbage st =
      let (rtc_fd, st1) = calls.sys_open_file (char_at (codes "rtc")) st in
      let (_, st2) = calls.sys_write rtc_fd (char_at (32 ∷ [])) 4 st1 in
      (pingpong_loop rounds rtc_fd b'A' (walls stack, garbage, st2)).2
