-- ===== src/Keyboard/Edit.antt =====
-- The line that is being typed, as a list, and what each key does to it.
use os.Common.{
  ℕ, zero, suc, ◌≤◌, ◌≡◌, refl, ap, not, ◌||◌, none, some, List, [], ◌∷◌, arith, ◌==◌,
  if◌then◌else◌, Bytes, update, length,
}
use os.Machine.{Keys, Terminal}
use os.Keyboard.{is_printable, flag_setters, decode}

-- the first `n` characters of a buffer, the latest first
abbrev pub prefix : ℕ → Bytes → List ℕ
prefix zero buf = []
prefix (suc n) buf = buf n ∷ prefix n buf

-- the line of a terminal, the latest character first
abbrev pub typed : Terminal → List ℕ
typed t = prefix t.buffer_ct t.keyboard_buffer

pub data Edit : Type 0 where
  keep erase_last : Edit
  add : ℕ → Edit

-- A line holds 127 characters.
unfoldable pub apply : Edit → List ℕ → List ℕ
apply keep l = l
apply erase_last [] = []
apply erase_last (c ∷ l) = l
apply (add c) l = if length l == 127 then l else c ∷ l

-- The editing key that a scan code is, when neither ctrl nor alt is down.
unfoldable pub plain_edit : Keys → ℕ → Edit
plain_edit s c =
    if c == 0x0E
    then erase_last
    else if c == 0x39
    then add b' '
    else if c == 0x0F
    then add b'\t'
    else if c == 0x28
    then add (if s.shift == 0 then b'\'' else b'"')
    else if c == 0x29
    then add (if s.shift == 0 then b'`' else b'~')
    else if c == 0x2B
    then add (if s.shift == 0 then b'\\' else b'|')
    else if is_printable c
    then add (decode s c)
    else keep

-- Enter, the shift, control, alt and caps lock keys, and every key with ctrl or alt edit nothing.
unfoldable pub edit_of : Keys → ℕ → Edit
edit_of s c =
    if c == 0x1C
    then keep
    else if not (s.ctrl == 0) || not (s.alt == 0)
    then keep
    else elim (flag_setters c s) [ some _ ↦ keep | none ↦ plain_edit s c ]

pub prefix-update : (n m c : ℕ) (buf : Bytes) → n ≤ m → prefix n (update buf m c) ≡ prefix n buf
prefix-update zero m c buf h = refl
prefix-update (suc n) m c buf h = ground (arith, prefix-update n m c buf (omega arith))

pub length-prefix : (n : ℕ) (buf : Bytes) → length (prefix n buf) ≡ n
length-prefix zero buf = refl
length-prefix (suc n) buf = ap suc (length-prefix n buf)
