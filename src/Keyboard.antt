-- ===== src/Keyboard.antt =====
-- student-distrib/keyboard.c: the keyboard interrupt. `scan_code` is the byte that the port gives.
pub mod Decode
pub mod Edit
pub mod Typed
use os.Common.{
  ℕ, zero, suc, ◌+◌, ◌-◌, ◌*◌, ◌/◌, ◌%◌, ◌^◌, ◌≤◌, ◌<◌, min, ◌≡◌, refl, sym, ap, ◌∙◌, ◌≢◌, ◌↔◌, ◌⊎◌,
  inl, inr, Bool, true, false, not, ◌&&◌, ◌||◌, Option, none, some, List, [], ◌∷◌, ◌++◌, arith,
  dec_lt, ℕ_discrete, ltb, leb, ◌==◌, if◌then◌else◌, ltb→lt, lt→ltb, leb→le, ==_iff, Bool-cases,
  Option-cases, u8, u32, add32, sub32, minus_one, is_neg, slt, sign_extend8, Array, Bytes, update,
  length, get_or, set, char_at, copy, copy_lem, tests, holds_up_to, holds_at, bit_and, bit_or,
  codes,
}
use os.Machine.{Console, Keys, Terminal, Kernel, cli, sti}
use os.Pic.{send_eoi_of, enable_irq}
use os.Console.{clear, puts, putc}
use os.Terminal.{on_console, with_row, switch_terminals}

-- `scan_to_char` and `shift_scan`; the entries behind the last are 0.
unfoldable pub scan_to_char : Bytes
scan_to_char = char_at (codes "..1234567890-=..qwertyuiop[]..asdfghjkl;.`..zxcvbnm,./")

unfoldable pub shift_scan : Bytes
shift_scan = char_at (codes "..!@#$%^&*()_+..QWERTYUIOP{}..ASDFGHJKL:....ZXCVBNM<>?")

abbrev between : ℕ → ℕ → ℕ → Bool
between lo hi c = leb lo c && leb c hi

unfoldable pub is_printable : ℕ → Bool
is_printable c =
    between 0x02 0x0D c || (between 0x10 0x1B c || (between 0x1E 0x27 c || between 0x2C 0x35 c))

unfoldable pub is_letter : ℕ → Bool
is_letter c = between 0x10 0x19 c || (between 0x1E 0x26 c || between 0x2C 0x32 c)

-- `flag_setters`: the keys afterwards, if the scan code is one that sets a flag
unfoldable pub flag_setters : ℕ → Keys → Option Keys
flag_setters c s =
    if c == 0x2A || c == 0x36
    then some (record s { shift = 1 })
    else if c == 0xAA || c == 0xB6
    then some (record s { shift = 0 })
    else if c == 0x1D
    then some (record s { ctrl = 1 })
    else if c == 0x9D
    then some (record s { ctrl = 0 })
    else if c == 0x38
    then some (record s { alt = 1 })
    else if c == 0xB8
    then some (record s { alt = 0 })
    else if c == 0x3A
    then some (record s { caps = if s.caps == 0 then 1 else 0 })
    else none

-- the character of a printable scan code
unfoldable pub decode : Keys → ℕ → ℕ
decode s c =
    if s.caps == 0 && s.shift == 0
    then scan_to_char c
    else if s.shift == 0 && is_letter c
    then shift_scan c
    else if s.shift == 0
    then scan_to_char c
    else if s.caps == 0
    then shift_scan c
    else if is_letter c
    then scan_to_char c
    else shift_scan c

abbrev pub on_screen : Kernel → Terminal
on_screen k = k.terminal k.terminal_num

abbrev pub with_terminal : Terminal → Kernel → Kernel
with_terminal t k = record k { terminal = update k.terminal k.terminal_num t }

-- puts a character behind the line, if there is room
unfoldable pub push : ℕ → Kernel → Kernel
push c k =
    let t = on_screen k in
    if ltb t.buffer_ct 127
    then with_terminal
        (record t {
          keyboard_buffer = update t.keyboard_buffer t.buffer_ct c;
          buffer_ct = t.buffer_ct + 1;
        })
        k
    else k

-- ctrl or alt is down, or the buffer is full
abbrev pub is_blocked : Kernel → Bool
is_blocked k = not (k.keys.ctrl == 0) || (not (k.keys.alt == 0) || (on_screen k).buffer_ct == 127)

abbrev pub count_row : Kernel → Kernel
count_row k = with_row (u8 (k.console.row_letter_ct + 1)) k

-- a new line on the screen when the row is full
unfoldable pub wrap_row : Kernel → Kernel
wrap_row k =
    let k1 = with_row 0 (on_console (puts (codes "\n")) k) in
    if k.console.row_letter_ct == 80
    then record k1 { keys = record (k1.keys) { newline_bs_flag = 0 } }
    else k

unfoldable pub space_handler : Kernel → Kernel
space_handler k = count_row (on_console (puts (codes " ")) (wrap_row k))

-- the branches of `keyboard_handler`, without the end of interrupt that each has
unfoldable pub press_enter : Kernel → Kernel
press_enter k =
    let k1 = with_terminal (record (on_screen k) { enter_read = 1 }) k in
    let k2 = with_row 7 (on_console (puts (codes "\n")) k1) in
    record k2 { keys = record (k2.keys) { newline_bs_flag = 1 } }

unfoldable pub clear_screen : Kernel → Kernel
clear_screen k = on_console (puts (codes "391OS> ")) (with_row 7 (on_console clear k))

-- the characters that a backspace takes from the screen
abbrev pub erase : ℕ → Kernel → Kernel
erase n k = on_console (puts (if n == b'\t' then 8 ∷ 8 ∷ 8 ∷ 8 ∷ [] else 8 ∷ [])) k

unfoldable pub press_backspace : Kernel → Kernel
press_backspace k =
    let t = on_screen k in
    let k1 = erase (t.keyboard_buffer (t.buffer_ct - 1)) k in
    let k2 = with_row (u8 (k1.console.row_letter_ct + 255)) k1 in
    if not (k.keys.ctrl == 0) || not (k.keys.alt == 0)
    then k
    else if t.buffer_ct == 0
    then k
    else with_terminal
        (record t {
          keyboard_buffer = update t.keyboard_buffer (t.buffer_ct - 1) 0;
          buffer_ct = t.buffer_ct - 1;
        })
        k2

unfoldable pub press_space : Kernel → Kernel
press_space k = if is_blocked k then k else push b' ' (space_handler k)

unfoldable pub press_tab : Kernel → Kernel
press_tab k = if is_blocked k then k else on_console (putc b'\t') (push b'\t' k)

-- the single quote, the back tick and the backslash
unfoldable pub press_symbol : ℕ → ℕ → Kernel → Kernel
press_symbol plain shifted k =
    let c = if k.keys.shift == 0 then plain else shifted in
    if is_blocked k then k else count_row (push c (on_console (puts (c ∷ [])) (wrap_row k)))

unfoldable pub press_printable : ℕ → Kernel → Kernel
press_printable scan_code k =
    let c = decode k.keys scan_code in
    if is_blocked k then k else on_console (putc c) (push c (count_row (wrap_row k)))

unfoldable pub press : ℕ → Kernel → Kernel
press c k =
    if c == 0x0E
    then press_backspace k
    else if c == 0x39
    then press_space k
    else if c == 0x0F
    then press_tab k
    else if c == 0x28
    then press_symbol b'\'' b'"' k
    else if c == 0x29
    then press_symbol b'`' b'~' k
    else if c == 0x2B
    then press_symbol b'\\' b'|' k
    else if is_printable c
    then press_printable c k
    else k

-- what a key does between `cli` and the end of interrupt
unfoldable pub key_action : ℕ → Kernel → Kernel
key_action c k =
    let alt = not (k.keys.alt == 0) in
    if c == 0x1C
    then press_enter k
    else if alt && c == 0x3B
    then switch_terminals k.terminal_num 0 k
    else if alt && c == 0x3C
    then switch_terminals k.terminal_num 1 k
    else if alt && c == 0x3D
    then switch_terminals k.terminal_num 2 k
    else if not (k.keys.ctrl == 0) && c == 0x26
    then clear_screen k
    else elim (flag_setters c k.keys) [ some keys ↦ record k { keys = keys } | none ↦ press c k ]

unfoldable pub keyboard_handler : ℕ → Kernel → Kernel
keyboard_handler scan_code k = sti (send_eoi_of 1 (key_action scan_code (cli k)))

-- `keyboard_init`, less the two arrays that nothing reads
unfoldable pub keyboard_init : Kernel → Kernel
keyboard_init k = record k { hardware = enable_irq 1 k.hardware }
