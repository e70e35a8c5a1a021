-- ===== src/Keyboard/Typed.antt =====
-- The handler of the keyboard is the editor of Keyboard/Edit.antt.
use os.Machine.{cli}
use os.Console.{puts}
use os.Terminal.{on_console}
use os.Common.{
  ℕ, zero, suc, ◌+◌, ◌-◌, ◌≤◌, ◌≡◌, refl, ◌≢◌, not, ◌||◌, List, [], ◌∷◌, arith, ◌==◌, if◌then◌else◌,
  Bytes, update, length,
}
use os.Machine.{Kernel}
use os.Terminal.{switch_video_mem, switch_terminals}
use os.Keyboard.{
  decode, on_screen, push, wrap_row, space_handler, press_enter, clear_screen, press_backspace,
  press_space, press_tab, press_symbol, press_printable, press, key_action, keyboard_handler,
  count_row,
}
use os.Keyboard.Edit.{
  prefix-update, length-prefix, prefix, typed, Edit, apply, plain_edit, edit_of, keep, erase_last,
  add,
}

prefix-pred :
    (n : ℕ) (c : ℕ) (buf : Bytes)
    → n ≢ 0
    → prefix (n - 1) (update buf (n - 1) c) ≡ apply erase_last (prefix n buf)
unfolding apply
prefix-pred zero c buf h = absurd (h refl)
prefix-pred (suc n) c buf h =
    let e : suc n - 1 ≡ n = omega arith in rw (e, prefix-update n n c buf (omega arith))

prefix-add : (n c : ℕ) (buf : Bytes) → prefix (n + 1) (update buf n c) ≡ c ∷ prefix n buf
prefix-add n c buf =
    let e : n + 1 ≡ suc n = omega arith in
    rw e (ground (arith, prefix-update n n c buf (omega arith)))

prefix-empty : (n : ℕ) (buf : Bytes) → n ≡ 0 → apply erase_last (prefix n buf) ≡ prefix n buf
unfolding apply
prefix-empty zero buf h = refl
prefix-empty (suc n) buf h = absurd (omega arith)

keeps : (l : List ℕ) → apply keep l ≡ l
unfolding apply
keeps l = refl

-- the line on the screen after a step that may change it
abbrev line_after : Kernel → Kernel → List ℕ
line_after k k' = typed (k'.terminal k.terminal_num)

push-typed :
    (c : ℕ) (k : Kernel)
    → (on_screen k).buffer_ct ≤ 127
    → typed ((push c k).terminal k.terminal_num) ≡ apply (add c) (typed (on_screen k))
unfolding push apply
push-typed c k h = ground (
  arith,
  prefix-add (on_screen k).buffer_ct c (on_screen k).keyboard_buffer,
  length-prefix (on_screen k).buffer_ct (on_screen k).keyboard_buffer,
)

-- The screen steps leave the terminals alone.
wrap_row-terminal :
    (k : Kernel)
    → ((wrap_row k).terminal ≡ k.terminal)
      × ((wrap_row k).terminal_num ≡ k.terminal_num)
      × ((wrap_row k).keys.shift ≡ k.keys.shift)
unfolding wrap_row
wrap_row-terminal k = ground arith

module _ (k : Kernel) (bound : (on_screen k).buffer_ct ≤ 127) where
  -- the edit of a key that types `c`, when ctrl and alt may be down
  abbrev typing : ℕ → List ℕ
  typing c =
      if not (k.keys.ctrl == 0) || not (k.keys.alt == 0)
      then typed (on_screen k)
      else apply (add c) (typed (on_screen k))

  full_line :
      (c : ℕ)
      → (on_screen k).buffer_ct ≡ 127
      → apply (add c) (typed (on_screen k)) ≡ typed (on_screen k)
  unfolding apply
  full_line c e =
      ground (arith, length-prefix (on_screen k).buffer_ct (on_screen k).keyboard_buffer)

  press_space-typed : line_after k (press_space k) ≡ typing b' '
  unfolding press_space space_handler
  press_space-typed =
      ground (arith, full_line b' ', wrap_row-terminal k, push-typed b' ' (space_handler k))

  press_tab-typed : line_after k (press_tab k) ≡ typing b'\t'
  unfolding press_tab
  press_tab-typed = ground (arith, full_line b'\t', push-typed b'\t' k)

  press_printable-typed : (c : ℕ) → line_after k (press_printable c k) ≡ typing (decode k.keys c)
  unfolding press_printable
  press_printable-typed c = ground (
    arith,
    full_line (decode k.keys c),
    wrap_row-terminal k,
    push-typed (decode k.keys c) (count_row (wrap_row k)),
  )

  press_backspace-typed : line_after k (press_backspace k) ≡ (
      if not (k.keys.ctrl == 0) || not (k.keys.alt == 0)
      then typed (on_screen k)
      else apply erase_last (typed (on_screen k)))
  unfolding press_backspace
  press_backspace-typed = ground (
    arith,
    prefix-pred (on_screen k).buffer_ct 0 (on_screen k).keyboard_buffer,
    prefix-empty (on_screen k).buffer_ct (on_screen k).keyboard_buffer,
  )

  press_symbol-typed :
      (plain shifted : ℕ)
      → line_after k (press_symbol plain shifted k)
        ≡ typing (if k.keys.shift == 0 then plain else shifted)
  unfolding press_symbol
  press_symbol-typed plain shifted =
      let c = if k.keys.shift == 0 then plain else shifted in
      let shown = on_console (puts (c ∷ [])) (wrap_row k) in
      ground (arith, full_line c, wrap_row-terminal k, push-typed c shown)

  press-typed :
      (c : ℕ)
      → line_after k (press c k) ≡ (
          if not (k.keys.ctrl == 0) || not (k.keys.alt == 0)
          then typed (on_screen k)
          else apply (plain_edit k.keys c) (typed (on_screen k)))
  unfolding press plain_edit
  press-typed c = ground (
    arith,
    press_backspace-typed,
    press_space-typed,
    press_tab-typed,
    press_symbol-typed b'\'' b'"',
    press_symbol-typed b'`' b'~',
    press_symbol-typed b'\\' b'|',
    press_printable-typed c,
    keeps (typed (on_screen k)),
  )

push-others :
    (c : ℕ) (k : Kernel) (j : ℕ) → j ≢ k.terminal_num → (push c k).terminal j ≡ k.terminal j
unfolding push
push-others c k j h = ground arith

-- A key edits no other line than the one on the screen.
press-others :
    (c : ℕ) (k : Kernel) (j : ℕ) → j ≢ k.terminal_num → (press c k).terminal j ≡ k.terminal j
unfolding press press_backspace press_space press_tab press_symbol press_printable space_handler
press-others c k j h = ground (
  arith,
  wrap_row-terminal k,
  push-others b' ' (space_handler k) j,
  push-others b'\t' k j,
  push-others (decode k.keys c) (count_row (wrap_row k)) j,
  push-others b'\'' (on_console (puts (b'\'' ∷ [])) (wrap_row k)) j,
  push-others b'"' (on_console (puts (b'"' ∷ [])) (wrap_row k)) j,
  push-others b'`' (on_console (puts (b'`' ∷ [])) (wrap_row k)) j,
  push-others b'~' (on_console (puts (b'~' ∷ [])) (wrap_row k)) j,
  push-others b'\\' (on_console (puts (b'\\' ∷ [])) (wrap_row k)) j,
  push-others b'|' (on_console (puts (b'|' ∷ [])) (wrap_row k)) j,
)

switch-typed :
    (previous next : ℕ) (k : Kernel) (j : ℕ)
    → typed ((switch_terminals previous next k).terminal j) ≡ typed (k.terminal j)
unfolding switch_terminals switch_video_mem
switch-typed previous next k j = ground arith

-- every line after a step
abbrev pub Edited : Edit → Kernel → Kernel → Type 0
Edited e k k' =
    (j : ℕ)
    → typed (k'.terminal j)
      ≡ (if j == k.terminal_num then apply e (typed (k.terminal j)) else typed (k.terminal j))

press-Edited :
    (c : ℕ) (k : Kernel)
    → (on_screen k).buffer_ct ≤ 127
    → Edited
        (if not (k.keys.ctrl == 0) || not (k.keys.alt == 0) then keep else plain_edit k.keys c)
        k
        (press c k)
press-Edited c k h j =
    ground (arith, press-typed k h c, press-others c k j, keeps (typed (k.terminal j)))

key_action-Edited :
    (c : ℕ) (k : Kernel)
    → (on_screen k).buffer_ct ≤ 127
    → Edited (edit_of k.keys c) k (key_action c k)
unfolding key_action edit_of press_enter clear_screen
key_action-Edited c k h j = ground (
  arith,
  press-Edited c k h j,
  keeps (typed (k.terminal j)),
  switch-typed k.terminal_num 0 k j,
  switch-typed k.terminal_num 1 k j,
  switch-typed k.terminal_num 2 k j,
)

length-apply : (e : Edit) (l : List ℕ) → length l ≤ 127 → length (apply e l) ≤ 127
unfolding apply
length-apply keep l h = h
length-apply erase_last [] h = h
length-apply erase_last (c ∷ l) h = omega arith
length-apply (add c) l h = ground arith

-- If no line is longer than the 127 characters that its buffer holds, a keyboard interrupt edits the line of the terminal on the screen as the key says, edits no other
-- line, and leaves every line within the 127 characters.
pub keyboard_handler-Edited :
    (c : ℕ) (k : Kernel)
    → ((j : ℕ) → (k.terminal j).buffer_ct ≤ 127)
    → Edited (edit_of k.keys c) k (keyboard_handler c k)
      × ((j : ℕ) → ((keyboard_handler c k).terminal j).buffer_ct ≤ 127)
unfolding keyboard_handler
keyboard_handler-Edited c k h =
    let edited = key_action-Edited c (cli k) (h k.terminal_num) in (edited, λ j. bound j (edited j))
  where
    bound :
        (j : ℕ)
        → typed ((key_action c (cli k)).terminal j) ≡ (
            if j == k.terminal_num
            then apply (edit_of k.keys c) (typed (k.terminal j))
            else typed (k.terminal j))
        → ((key_action c (cli k)).terminal j).buffer_ct ≤ 127
    bound j e =
        let t' = (key_action c (cli k)).terminal j in
        ground (
          arith,
          h j,
          e,
          length-prefix t'.buffer_ct t'.keyboard_buffer,
          length-prefix (k.terminal j).buffer_ct (k.terminal j).keyboard_buffer,
          length-apply (edit_of k.keys c) (typed (k.terminal j)),
        )
