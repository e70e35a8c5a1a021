-- ===== src/Format.antt =====
-- student-distrib/lib.c: itoa, strrev and printf.
pub mod Reverse
pub mod Digits
pub mod Print
use os.Common.{
  ℕ, zero, suc, ◌+◌, ◌-◌, ◌*◌, ◌/◌, ◌%◌, ◌^◌, ◌≤◌, ◌<◌, min, ◌≡◌, refl, sym, ap, ◌∙◌, ◌≢◌, ◌↔◌, ◌⊎◌,
  inl, inr, Bool, true, false, not, ◌&&◌, ◌||◌, Option, none, some, List, [], ◌∷◌, ◌++◌, arith,
  dec_lt, ℕ_discrete, ltb, leb, ◌==◌, if◌then◌else◌, ltb→lt, lt→ltb, leb→le, ==_iff, Bool-cases,
  Option-cases, u8, u32, add32, sub32, minus_one, is_neg, slt, sign_extend8, Array, Bytes, update,
  length, get_or, set, char_at, copy, copy_lem, tests, holds_up_to, holds_at, bit_and, bit_or,
  codes,
}
use os.Strings.{c_string}
use os.Machine.{Console}
use os.Console.{putc, puts}

-- the scan of `strlen` over memory from index `i` on, with `room` bytes left
unfoldable pub length_in : ℕ → ℕ → Bytes → ℕ
length_in zero i s = 0
length_in (suc room) i s = let rest = length_in room (i + 1) s in if s i == 0 then 0 else suc rest

-- the loop of `strrev`, with `rounds` left
unfoldable pub swap_ends : ℕ → ℕ → ℕ → Bytes → Bytes
swap_ends zero beg last s = s
swap_ends (suc rounds) beg last s =
    let rest =
      swap_ends rounds (beg + 1) (sub32 last 1) (update (update s last (s beg)) beg (s last)) in
    if slt beg last then rest else s

-- `strrev` of a string in a buffer of `room` bytes
unfoldable pub strrev : ℕ → Bytes → Bytes
strrev room s = let n = length_in room 0 s in swap_ends n 0 (sub32 n 1) s

abbrev pub lookup : Bytes
lookup = char_at (codes "0123456789ABCDEFGHIJKLMNOPQRSTUVWXYZ")

-- The loop of `itoa`, with `rounds` left: the index of `newbuf` and the buffer. Numbers of 32 bits
-- have at most 32 digits.
unfoldable pub put_digits : ℕ → ℕ → ℕ → ℕ → Bytes → ℕ × Bytes
put_digits zero radix newval i buf = (i, buf)
put_digits (suc rounds) radix newval i buf =
    let rest =
      put_digits rounds radix (newval / radix) (i + 1) (update buf i (lookup (newval % radix))) in
    if ltb 0 newval then rest else (i, buf)

unfoldable pub itoa : ℕ → Bytes → ℕ → Bytes
itoa value buf radix =
    let (i, written) = put_digits 32 radix value 0 buf in
    if value == 0 then update (update buf 0 b'0') 1 0 else strrev 33 (update written i 0)

-- Where `printf` stands: between conversions, or behind a `%`, with `alternate`.
pub data Mode : Type 0 where
  plain : Mode
  conversion : ℕ → Mode

-- `garbage` is the buffer `conv_buf` on the stack before `itoa` writes to it.
module _ (garbage : Bytes) where
  unfoldable pub put_number : ℕ → ℕ → Console → Console
  put_number value radix = puts (c_string 64 0 (itoa value garbage radix))

  -- the loop that pads a number to eight digits, with `left` rounds left
  unfoldable pub pad_zeros : ℕ → ℕ → Bytes → Bytes
  pad_zeros zero i s = s
  pad_zeros (suc left) i s = pad_zeros left (i + 1) (update s i b'0')

  -- `%#x`: the number is written at index 8, and zeros before it
  unfoldable pub put_padded : ℕ → Console → Console
  put_padded value con =
      let digits = itoa value (λ i. garbage (8 + i)) 16 in
      let start = length_in 33 0 digits in
      let conv_buf =
        pad_zeros (8 - start) start (λ j. if leb 8 j then digits (j - 8) else garbage j) in
      puts (c_string 64 start conv_buf) con

  unfoldable pub put_signed : ℕ → Console → Console
  put_signed value con =
      let digits = itoa (sub32 0 value) (λ i. garbage (1 + i)) 10 in
      let negative = λ (j : ℕ). if leb 1 j then digits (j - 1) else b'-' in
      if is_neg value then puts (c_string 64 0 negative) con else put_number value 10 con

  -- A conversion: how many words of the stack it takes, and the screen afterwards. `text_at` is the
  -- memory as strings.
  unfoldable pub convert : (ℕ → List ℕ) → ℕ → ℕ → ℕ → Console → ℕ × Console
  convert text_at alternate c word con =
      if c == b'%'
      then (0, putc b'%' con)
      else if c == b'x'
      then (1, if alternate == 0 then put_number word 16 con else put_padded word con)
      else if c == b'u'
      then (1, put_number word 10 con)
      else if c == b'd'
      then (1, put_signed word con)
      else if c == b'c'
      then (1, putc (u8 word) con)
      else if c == b's'
      then (1, puts (text_at word) con)
      else (0, con)

  -- The loop of `printf` over the rest of the format: the number of bytes it passes, and the screen.
  -- `stack` holds the arguments, and `esp` is the index of the next one.
  unfoldable pub print_from : (ℕ → List ℕ) → Array ℕ → List ℕ → Mode → ℕ → Console → ℕ × Console
  print_from text_at stack [] plain esp con = (0, con)
  print_from text_at stack [] (conversion alternate) esp con = (1, con)
  print_from text_at stack (c ∷ s) plain esp con =
      let (n, con') = print_from text_at stack s plain esp (putc c con) in
      let (m, con'') = print_from text_at stack s (conversion 0) esp con in
      if c == 0 then (0, con) else if c == b'%' then (m + 1, con'') else (n + 1, con')
  print_from text_at stack (c ∷ s) (conversion alternate) esp con =
      let (taken, shown) = convert text_at alternate c (stack esp) con in
      let (n, con') = print_from text_at stack s plain (esp + taken) shown in
      let (m, con'') = print_from text_at stack s (conversion 1) esp con in
      if c == b'#' then (m + 1, con'') else (n + 1, con')

  -- `printf`
  unfoldable pub printf : (ℕ → List ℕ) → Array ℕ → List ℕ → Console → ℕ × Console
  printf text_at stack format con = print_from text_at stack format plain 0 con
