-- ===== src/Keyboard/Decode.antt =====
-- The characters that the letter keys give.
use os.Common.{
  ℕ, ◌+◌, ◌-◌, ◌≤◌, ◌<◌, ◌≡◌, refl, Bool, true, false, not, ◌&&◌, arith, leb, ◌==◌, if◌then◌else◌,
  holds_up_to, holds_at,
}
use os.Machine.{Keys}
use os.Keyboard.{scan_to_char, shift_scan, is_letter, is_printable, decode}

letters_table :
    holds_up_to 256 (λ c.
      (if is_letter c
        then is_printable c
          && (leb b'a' (scan_to_char c)
              && (leb (scan_to_char c) b'z' && (shift_scan c + 32 == scan_to_char c)))
        else true))
    ≡ true
unfolding holds_up_to is_letter is_printable scan_to_char shift_scan
letters_table = refl

letter_row :
    (c : ℕ)
    → c < 256
    → is_letter c ≡ true
    → (b'a' ≤ scan_to_char c) × (scan_to_char c ≤ b'z') × (shift_scan c + 32 ≡ scan_to_char c)
letter_row c h e = let row = holds_at 256 _ c letters_table h in ground (arith, row)

-- exactly one of caps lock and shift is on
abbrev pub is_upper : Keys → Bool
is_upper s = if s.caps == 0 then not (s.shift == 0) else s.shift == 0

-- For a scan code below 256: a letter key gives a letter of the alphabet, a capital if exactly one
-- of caps lock and shift is on, and the same letter in lower case otherwise. Any other key ignores
-- caps lock.
pub decode_lem :
    (s : Keys) (c : ℕ)
    → c < 256
    → (is_letter c ≡ true
        → (b'a' ≤ scan_to_char c)
          × (scan_to_char c ≤ b'z')
          × (decode s c ≡ (if is_upper s then scan_to_char c - 32 else scan_to_char c)))
      × (is_letter c ≡ false → decode s c ≡ (if s.shift == 0 then scan_to_char c else shift_scan c))
unfolding decode
decode_lem s c h = (λ e. ground (arith, letter_row c h e), λ e. ground arith)
