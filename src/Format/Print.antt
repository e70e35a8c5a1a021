-- ===== src/Format/Print.antt =====
-- `printf` against a list of the pieces that a format stands for.
use os.Common.{
  ℕ, suc, ◌+◌, ◌<◌, ◌≡◌, refl, ap, ◌∙◌, ◌≢◌, List, [], ◌∷◌, ◌++◌, arith, u8, Array, Bytes, length,
  get_or, codes,
}
use os.Machine.{Console}
use os.Console.{putc, puts}
use os.Format.{plain, convert, put_number, put_padded, put_signed, print_from, printf}

-- What a programmer means by a part of a format, with its argument.
pub data Piece : Type 0 where
  literal : List ℕ → Piece
  percent : Piece
  hexadecimal padded unsigned signed character string : ℕ → Piece

-- Literal text has neither conversions nor NULs.
abbrev pub IsLiteral : List ℕ → Type 0
IsLiteral [] = Unit {0}
IsLiteral (c ∷ s) = (c ≢ b'%') × (c ≢ 0) × IsLiteral s

abbrev pub IsPiece : Piece → Type 0
IsPiece (literal s) = IsLiteral s
IsPiece _ = Unit {0}

abbrev pub ArePieces : List Piece → Type 0
ArePieces [] = Unit {0}
ArePieces (p ∷ ps) = IsPiece p × ArePieces ps

abbrev pub format_of : Piece → List ℕ
format_of (literal s) = s
format_of percent = codes "%%"
format_of (hexadecimal v) = codes "%x"
format_of (padded v) = codes "%#x"
format_of (unsigned v) = codes "%u"
format_of (signed v) = codes "%d"
format_of (character v) = codes "%c"
format_of (string v) = codes "%s"

unfoldable pub format : List Piece → List ℕ
format [] = []
format (p ∷ ps) = format_of p ++ format ps

-- the words that the caller pushes
abbrev pub words_of : Piece → List ℕ
words_of (literal s) = []
words_of percent = []
words_of (hexadecimal v) = v ∷ []
words_of (padded v) = v ∷ []
words_of (unsigned v) = v ∷ []
words_of (signed v) = v ∷ []
words_of (character v) = v ∷ []
words_of (string v) = v ∷ []

unfoldable pub words : List Piece → List ℕ
words [] = []
words (p ∷ ps) = words_of p ++ words ps

length-append : (xs ys : List ℕ) → length (xs ++ ys) ≡ length xs + length ys
length-append [] ys = omega arith
length-append (x ∷ xs) ys = omega (arith, length-append xs ys)

module _ (garbage : Bytes) (text_at : ℕ → List ℕ) where
  abbrev pub show_piece : Piece → Console → Console
  show_piece (literal s) = puts s
  show_piece percent = putc b'%'
  show_piece (hexadecimal v) = put_number garbage v 16
  show_piece (padded v) = put_padded garbage v
  show_piece (unsigned v) = put_number garbage v 10
  show_piece (signed v) = put_signed garbage v
  show_piece (character v) = putc (u8 v)
  show_piece (string v) = puts (text_at v)

  unfoldable pub show_all : List Piece → Console → Console
  show_all [] con = con
  show_all (p ∷ ps) con = show_all ps (show_piece p con)

  -- The stack holds the words `ws` from index `esp` on.
  abbrev HoldsWords : ℕ → List ℕ → Array ℕ → Type 0
  HoldsWords esp ws stack = (i : ℕ) → i < length ws → stack (esp + i) ≡ get_or ws i 0

  first_word :
      (esp v : ℕ) (ws : List ℕ) (stack : Array ℕ) → HoldsWords esp (v ∷ ws) stack → stack esp ≡ v
  first_word esp v ws stack w = ap stack (omega arith) ∙ w 0 (omega arith)

  next_words :
      (esp v : ℕ) (ws : List ℕ) (stack : Array ℕ)
      → HoldsWords esp (v ∷ ws) stack
      → HoldsWords (esp + 1) ws stack
  next_words esp v ws stack w i b = ap stack (omega arith) ∙ w (suc i) (omega arith)

  print_from-literal :
      (stack : Array ℕ) (s rest : List ℕ) (esp : ℕ) (con : Console)
      → IsLiteral s
      → print_from garbage text_at stack (s ++ rest) plain esp con ≡ (
        length s + (print_from garbage text_at stack rest plain esp (puts s con)).0,
        (print_from garbage text_at stack rest plain esp (puts s con)).1,
      )
  unfolding print_from puts
  print_from-literal stack [] rest esp con h = ground arith
  print_from-literal stack (c ∷ s) rest esp con h =
      ground (arith, print_from-literal stack s rest esp (putc c con) h.2)

  print_from_lem :
      (stack : Array ℕ) (ps : List Piece) (esp : ℕ) (con : Console)
      → ArePieces ps
      → HoldsWords esp (words ps) stack
      → print_from garbage text_at stack (format ps) plain esp con
        ≡ (length (format ps), show_all ps con)
  unfolding print_from format words show_all convert
  print_from_lem stack [] esp con h w = refl
  print_from_lem stack (literal s ∷ ps) esp con h w =
      let rest = print_from_lem stack ps esp (puts s con) h.1 w in
      print_from-literal stack s (format ps) esp con h.0
      ∙ rw rest (ground (arith, length-append s (format ps)))
  print_from_lem stack (percent ∷ ps) esp con h w =
      let same : esp ≡ esp + 0 = omega arith in
      let rest = print_from_lem stack ps esp (putc b'%' con) h.1 w in
      rw (← same, rest) (ground arith)
  print_from_lem stack (hexadecimal v ∷ ps) esp con h w =
      let rest =
        print_from_lem stack ps (esp + 1) (show_piece (hexadecimal v) con) h.1
          (next_words esp v (words ps) stack w) in
      rw (first_word esp v (words ps) stack w, rest) (ground arith)
  print_from_lem stack (padded v ∷ ps) esp con h w =
      let rest =
        print_from_lem stack ps (esp + 1) (show_piece (padded v) con) h.1
          (next_words esp v (words ps) stack w) in
      rw (first_word esp v (words ps) stack w, rest) (ground arith)
  print_from_lem stack (unsigned v ∷ ps) esp con h w =
      let rest =
        print_from_lem stack ps (esp + 1) (show_piece (unsigned v) con) h.1
          (next_words esp v (words ps) stack w) in
      rw (first_word esp v (words ps) stack w, rest) (ground arith)
  print_from_lem stack (signed v ∷ ps) esp con h w =
      let rest =
        print_from_lem stack ps (esp + 1) (show_piece (signed v) con) h.1
          (next_words esp v (words ps) stack w) in
      rw (first_word esp v (words ps) stack w, rest) (ground arith)
  print_from_lem stack (character v ∷ ps) esp con h w =
      let rest =
        print_from_lem stack ps (esp + 1) (show_piece (character v) con) h.1
          (next_words esp v (words ps) stack w) in
      rw (first_word esp v (words ps) stack w, rest) (ground arith)
  print_from_lem stack (string v ∷ ps) esp con h w =
      let rest =
        print_from_lem stack ps (esp + 1) (show_piece (string v) con) h.1
          (next_words esp v (words ps) stack w) in
      rw (first_word esp v (words ps) stack w, rest) (ground arith)

  -- For a format that is put together from literal text and conversions, with the words on the
  -- stack that the conversions take, `printf` shows the pieces one after the other, each with its
  -- own word, and returns the length of the format.
  pub printf_lem :
      (stack : Array ℕ) (ps : List Piece) (con : Console)
      → ArePieces ps
      → ((i : ℕ) → i < length (words ps) → stack i ≡ get_or (words ps) i 0)
      → printf garbage text_at stack (format ps) con ≡ (length (format ps), show_all ps con)
  unfolding printf
  printf_lem stack ps con h w =
      print_from_lem stack ps 0 con h (λ i b. ap stack (omega arith) ∙ w i b)
