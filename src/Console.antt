-- ===== src/Console.antt =====
-- student-distrib/lib.c: the screen. A position is `80 * y + x`, its two bytes hold the character and
-- the attribute; `base` is where `video_mem` points, counted from `VIDEO`.
pub mod Bounds
use os.Common.{
  ℕ, zero, suc, ◌+◌, ◌-◌, ◌*◌, ◌/◌, ◌%◌, ◌^◌, ◌≤◌, ◌<◌, min, ◌≡◌, refl, sym, ap, ◌∙◌, ◌≢◌, ◌↔◌, ◌⊎◌,
  inl, inr, Bool, true, false, not, ◌&&◌, ◌||◌, Option, none, some, List, [], ◌∷◌, ◌++◌, arith,
  dec_lt, ℕ_discrete, ltb, leb, ◌==◌, if◌then◌else◌, ltb→lt, lt→ltb, leb→le, ==_iff, Bool-cases,
  Option-cases, u8, u32, add32, sub32, minus_one, is_neg, slt, sign_extend8, Array, Bytes, update,
  length, get_or, set, char_at, copy, copy_lem, tests, holds_up_to, holds_at, bit_and, bit_or,
}
use os.Machine.{Console}

-- `%` and `/` of an `int32_t` by a positive number
abbrev pub srem : ℕ → ℕ → ℕ
srem a n = if is_neg a then sub32 0 (sub32 0 a % n) else a % n

abbrev pub sdiv : ℕ → ℕ → ℕ
sdiv a n = if is_neg a then sub32 0 (sub32 0 a / n) else a / n

unfoldable pub write_cell : ℕ → ℕ → ℕ → Bytes → Bytes
write_cell base pos c video =
    update (update video (u32 (base + 2 * pos)) c) (u32 (base + 2 * pos + 1)) 0x7

-- blanks `k` positions from `pos` on
unfoldable pub blank_cells : ℕ → ℕ → ℕ → Bytes → Bytes
blank_cells zero pos base video = video
blank_cells (suc k) pos base video = blank_cells k (pos + 1) base (write_cell base pos b' ' video)

unfoldable pub update_cursor : Console → Console
update_cursor con =
    let pos = (con.screen_y * 80 + con.screen_x) % 2 ^ 16 in
    record con {
      ports =
          (pos / 2 ^ 8 % 2 ^ 8, 0x3D5)
          ∷ (0x0E, 0x3D4)
          ∷ (pos % 2 ^ 8, 0x3D5)
          ∷ (0x0F, 0x3D4)
          ∷ con.ports;
    }

unfoldable pub clear : Console → Console
clear con =
    update_cursor
      (record con { video = blank_cells 2000 0 0 con.video; screen_x = 0; screen_y = 0 })

unfoldable pub clear_screen_row : ℕ → ℕ → Bytes → Bytes
clear_screen_row row base video = blank_cells 80 (row * 80) base video

-- one round of the loop that moves the rows up: character, then attribute
unfoldable pub move_cell : ℕ → ℕ → Bytes → Bytes
move_cell idx base video =
    let video' = update video (u32 (base + 2 * idx)) (video (u32 (base + 2 * (idx + 80)))) in
    update video' (u32 (base + 2 * idx + 1)) (video' (u32 (base + 2 * (idx + 80) + 1)))

-- moves `k` positions from `idx` on up by one row
unfoldable pub move_up : ℕ → ℕ → ℕ → Bytes → Bytes
move_up zero idx base video = video
move_up (suc k) idx base video = move_up k (idx + 1) base (move_cell idx base video)

unfoldable pub scroll : ℕ → Bytes → Bytes
scroll base video = clear_screen_row 24 base (move_up 1920 0 base video)

-- `putc` has set `video_mem` to `VIDEO` before.
unfoldable pub vertical_scroll : Console → Console
vertical_scroll con = record con { video = scroll 0 con.video; screen_x = 0; screen_y = 24 }

abbrev pub is_below_screen : ℕ → ℕ → Bool
is_below_screen x y = not (slt (add32 (80 * y) x) 2000)

-- the first statement of `putc`
unfoldable pub scroll_if_needed : Console → Console
scroll_if_needed con =
    if is_below_screen con.screen_x con.screen_y then vertical_scroll con else con

-- `screen_x %= NUM_COLS; screen_y = (screen_y + screen_x / NUM_COLS) % NUM_ROWS`, from a column `x`
unfoldable pub move_to : ℕ → Console → Console
move_to x con =
    let x' = srem x 80 in
    record con { screen_x = x'; screen_y = srem (add32 con.screen_y (sdiv x' 80)) 25 }

-- writes at the cursor
unfoldable pub show : ℕ → Console → Console
show c con = record con { video = write_cell 0 (80 * con.screen_y + con.screen_x) c con.video }

-- the branches of `putc`
unfoldable pub put_backspace : Console → Console
put_backspace con = update_cursor (show b' ' (move_to (sub32 con.screen_x 1) con))

unfoldable pub put_newline : Console → Console
put_newline con = update_cursor (record con { screen_y = add32 con.screen_y 1; screen_x = 0 })

unfoldable pub put_char : ℕ → Console → Console
put_char c con = let shown = show c con in update_cursor (move_to (add32 shown.screen_x 1) shown)

-- one round of the loop of a tab
unfoldable pub put_tab_round : Console → Console
put_tab_round con =
    let wrapped = record (put_newline (scroll_if_needed con)) { row_letter_ct = 0 } in
    let con' = if con.row_letter_ct == 80 then wrapped else con in
    let counted = record con' { row_letter_ct = u8 (con'.row_letter_ct + 1) } in
    update_cursor (show b' ' (move_to (add32 counted.screen_x 1) counted))

unfoldable pub put_tab : ℕ → Console → Console
put_tab zero con = con
put_tab (suc k) con = put_tab k (put_tab_round con)

unfoldable pub putc : ℕ → Console → Console
putc c con =
    let con' = scroll_if_needed con in
    if c == 8
    then put_backspace con'
    else if c == 9
    then put_tab 4 con'
    else if c == 10 || c == 13
    then put_newline con'
    else put_char c con'

-- `puts`, and `printf` of a text without `%`
unfoldable pub puts : List ℕ → Console → Console
puts [] con = con
puts (c ∷ s) con = let rest = puts s (putc c con) in if c == 0 then con else rest
