-- ===== src/Console/Bounds.antt =====
-- Where the cursor can be, and which bytes of video memory `putc` writes.
use os.Common.{
  ℕ, zero, suc, ◌+◌, ◌-◌, ◌*◌, ◌%◌, ◌^◌, ◌≤◌, ◌<◌, ◌≡◌, refl, ◌∙◌, ◌⊎◌, inl, inr, ◌||◌, arith, ◌==◌,
  if◌then◌else◌, Bool-cases, u8, add32, sub32, Bytes,
}
use os.Machine.{Console}
use os.Console.{
  write_cell, blank_cells, update_cursor, clear_screen_row, move_up, move_cell, scroll,
  vertical_scroll, scroll_if_needed, move_to, show, put_backspace, put_newline, put_char, put_tab,
  put_tab_round, putc,
}

-- The column is that of the screen, or negative after a backspace in the first column: it then
-- counts back from the start of the row.
abbrev IsColumn : ℕ → Type 0
IsColumn x = (x < 80) ⊎ ((2 ^ 32 - 80 < x) × (x < 2 ^ 32))

-- The cursor is in one of the 25 rows.
abbrev pub IsInRows : Console → Type 0
IsInRows con = (con.screen_y < 25) × IsColumn con.screen_x

-- the number of the cell that the cursor is at, as the code computes it
abbrev pub cell : Console → ℕ
cell con = add32 (80 * con.screen_y) con.screen_x

-- The cursor is at one of the 2000 cells of the screen, or at the start of the row below, from which
-- `putc` scrolls before it writes.
abbrev pub IsPlaced : Console → Type 0
IsPlaced con = (IsInRows con × (cell con < 2000)) ⊎ ((con.screen_y ≡ 25) × (con.screen_x ≡ 0))

-- The two agree outside the 4000 bytes of the screen.
abbrev pub SameOutside : Console → Console → Type 0
SameOutside con con' = (j : ℕ) → 4000 ≤ j → con'.video j ≡ con.video j

move_to-IsInRows :
    (x : ℕ) (con : Console)
    → con.screen_y ≤ 25
    → (x ≤ 80) ⊎ ((2 ^ 32 - 81 < x) × (x < 2 ^ 32))
    → IsInRows (move_to x con)
unfolding move_to
move_to-IsInRows x con hy hx = ground arith

write_cell-outside :
    (pos c : ℕ) (video : Bytes) (j : ℕ)
    → pos % 2 ^ 32 < 2000
    → 4000 ≤ j
    → write_cell 0 pos c video j ≡ video j
unfolding write_cell
write_cell-outside pos c video j h l = ground arith

blank_cells-outside :
    (k pos : ℕ) (video : Bytes) (j : ℕ)
    → pos + k ≤ 2000
    → 4000 ≤ j
    → blank_cells k pos 0 video j ≡ video j
unfolding blank_cells
blank_cells-outside zero pos video j h l = refl
blank_cells-outside (suc k) pos video j h l = ground (
  arith,
  blank_cells-outside k (pos + 1) (write_cell 0 pos b' ' video) j,
  write_cell-outside pos b' ' video j,
)

move_cell-outside :
    (idx : ℕ) (video : Bytes) (j : ℕ) → idx < 1920 → 4000 ≤ j → move_cell idx 0 video j ≡ video j
unfolding move_cell
move_cell-outside idx video j h l = ground arith

move_up-outside :
    (k idx : ℕ) (video : Bytes) (j : ℕ)
    → idx + k ≤ 1920
    → 4000 ≤ j
    → move_up k idx 0 video j ≡ video j
unfolding move_up
move_up-outside zero idx video j h l = refl
move_up-outside (suc k) idx video j h l =
    ground
      (arith, move_up-outside k (idx + 1) (move_cell idx 0 video) j, move_cell-outside idx video j)

scroll-outside : (video : Bytes) (j : ℕ) → 4000 ≤ j → scroll 0 video j ≡ video j
unfolding scroll clear_screen_row
scroll-outside video j l =
    blank_cells-outside 80 (24 * 80) (move_up 1920 0 0 video) j (omega arith) l
    ∙ move_up-outside 1920 0 video j (omega arith) l

scroll_if_needed-IsInRows :
    (con : Console)
    → IsPlaced con
    → IsInRows (scroll_if_needed con) × SameOutside con (scroll_if_needed con)
unfolding scroll_if_needed vertical_scroll
scroll_if_needed-IsInRows con v = (ground arith, λ j l. ground (arith, scroll-outside con.video j))

-- The cell is on the screen after the scrolling.
scroll_if_needed-cell :
    (con : Console)
    → IsPlaced con
    → (cell (scroll_if_needed con) < 2000) × (0 < cell con → 0 < cell (scroll_if_needed con))
unfolding scroll_if_needed vertical_scroll
scroll_if_needed-cell con v = ground arith

show-outside : (c : ℕ) (con : Console) → cell con < 2000 → SameOutside con (show c con)
unfolding show
show-outside c con h j l = write_cell-outside (80 * con.screen_y + con.screen_x) c con.video j h l

-- One column further, from a cell of the screen or the one behind it.
advance-lem :
    (con : Console)
    → IsPlaced con
    → let con' = move_to (add32 con.screen_x 1) con in
      IsInRows con' × (cell con' < 2000) × SameOutside con con'
unfolding move_to
advance-lem con v = (ground arith, ground arith, λ j l. refl)

-- What a step of `putc` keeps: the cursor stays in the rows and on the screen, and no byte outside
-- the screen changes.
abbrev Keeps : Console → Console → Type 0
Keeps con con' = IsInRows con' × (cell con' < 2000) × SameOutside con con'

put_char-Keeps :
    (c : ℕ) (con : Console) → IsInRows con → cell con < 2000 → Keeps con (put_char c con)
unfolding put_char update_cursor
put_char-Keeps c con v h =
    let (rows, on, same) = advance-lem (show c con) (unfold show in inl (v, h)) in
    (rows, on, λ j l. same j l ∙ show-outside c con h j l)

put_newline-IsPlaced :
    (con : Console) → IsInRows con → IsPlaced (put_newline con) × SameOutside con (put_newline con)
unfolding put_newline update_cursor
put_newline-IsPlaced con v = (ground arith, λ j l. refl)

put_tab_round-Keeps :
    (con : Console) → IsInRows con → cell con < 2000 → Keeps con (put_tab_round con)
unfolding put_tab_round update_cursor put_newline show move_to
put_tab_round-Keeps con v h = elim (Bool-cases (con.row_letter_ct == 80)) [
  | inl full ↦
      let (scrolled, same) = scroll_if_needed-IsInRows con (inl (v, h)) in
      let con' : Console = record (put_newline (scroll_if_needed con)) {
        row_letter_ct = u8 (0 + 1);
      } in
      let (rows, on, moved) =
        advance-lem con' (put_newline-IsPlaced (scroll_if_needed con) scrolled).0 in
      rw full (
        rows,
        on,
        λ j l.
            show-outside b' ' (move_to (add32 con'.screen_x 1) con') on j l ∙ moved j l ∙ same j l,
      )
  | inr room ↦
      let con' : Console = record con { row_letter_ct = u8 (con.row_letter_ct + 1) } in
      let (rows, on, moved) = advance-lem con' (inl (v, h)) in
      rw room (
        rows,
        on,
        λ j l. show-outside b' ' (move_to (add32 con'.screen_x 1) con') on j l ∙ moved j l,
      )
]

put_tab-Keeps : (k : ℕ) (con : Console) → IsInRows con → cell con < 2000 → Keeps con (put_tab k con)
unfolding put_tab
put_tab-Keeps zero con v h = (v, h, λ j l. refl)
put_tab-Keeps (suc k) con v h =
    let (rows, on, same) = put_tab_round-Keeps con v h in
    let (rows', on', same') = put_tab-Keeps k (put_tab_round con) rows on in
    (rows', on', λ j l. same' j l ∙ same j l)

put_backspace-Keeps :
    (con : Console) → IsInRows con → cell con < 2000 → 0 < cell con → Keeps con (put_backspace con)
unfolding put_backspace update_cursor show
put_backspace-Keeps con v h pos =
    let con' = move_to (sub32 con.screen_x 1) con in
    let rows : IsInRows con' =
      move_to-IsInRows (sub32 con.screen_x 1) con (omega arith) (ground arith) in
    let on : cell con' < 2000 = unfold move_to in ground arith in
    (rows, on, λ j l. show-outside b' ' con' on j l ∙ (unfold move_to in refl))

-- `putc` keeps the cursor at one of the 2000 cells of the screen, where a negative column counts
-- back from the start of its row, or at the start of the row below, and leaves every byte outside
-- the 80 by 25 screen as it was, if for a backspace the cursor was not at the first cell.
pub putc-IsPlaced :
    (c : ℕ) (con : Console)
    → IsPlaced con
    → (c ≡ 8 → 0 < cell con)
    → IsPlaced (putc c con) × SameOutside con (putc c con)
unfolding putc
putc-IsPlaced c con v back =
    let (rows, same) = scroll_if_needed-IsInRows con v in
    let (on', pos) = scroll_if_needed-cell con v in
    let step : IsPlaced (branch (scroll_if_needed con))
        × SameOutside (scroll_if_needed con) (branch (scroll_if_needed con)) =
      branches (scroll_if_needed con) rows on' (λ e. pos (back e)) in
    (step.0, λ j l. step.1 j l ∙ same j l)
  where
    branch : Console → Console
    branch con' =
        if c == 8
        then put_backspace con'
        else if c == 9
        then put_tab 4 con'
        else if c == 10 || c == 13
        then put_newline con'
        else put_char c con'

    placed : (s s' : Console) → Keeps s s' → IsPlaced s' × SameOutside s s'
    placed s s' (rows, on, same) = (inl (rows, on), same)

    branches :
        (s : Console)
        → IsInRows s
        → cell s < 2000
        → (c ≡ 8 → 0 < cell s)
        → IsPlaced (branch s) × SameOutside s (branch s)
    branches s rows on first = elim (Bool-cases (c == 8)) [
      | inl is8 ↦
          rw is8 (placed s (put_backspace s) (put_backspace-Keeps s rows on (first (ground arith))))
      | inr not8 ↦ rw not8 (elim (Bool-cases (c == 9)) [
        | inl is9 ↦ rw is9 (placed s (put_tab 4 s) (put_tab-Keeps 4 s rows on))
        | inr not9 ↦ rw not9 (elim (Bool-cases (c == 10 || c == 13)) [
          | inl line ↦ rw line (put_newline-IsPlaced s rows)
          | inr other ↦ rw other (placed s (put_char c s) (put_char-Keeps c s rows on))
        ])
      ])
    ]
