-- ===== src/Memory.antt =====
-- student-distrib/lib.c: the block operations, which are loops of instructions. Memory is an array
-- of bytes indexed by the address. No block runs over the end of the address space.
pub mod Blocks
use os.Common.{
  ℕ, zero, suc, ◌+◌, ◌-◌, ◌*◌, ◌/◌, ◌%◌, ◌^◌, ◌≤◌, ◌<◌, min, ◌≡◌, refl, sym, ap, ◌∙◌, ◌≢◌, ◌↔◌, ◌⊎◌,
  inl, inr, Bool, true, false, not, ◌&&◌, ◌||◌, Option, none, some, List, [], ◌∷◌, ◌++◌, arith,
  dec_lt, ℕ_discrete, ltb, leb, ◌==◌, if◌then◌else◌, ltb→lt, lt→ltb, leb→le, ==_iff, Bool-cases,
  Option-cases, u8, u32, add32, sub32, minus_one, is_neg, slt, sign_extend8, Array, Bytes, update,
  length, get_or, set, char_at, copy, copy_lem, tests, holds_up_to, holds_at, bit_and, bit_or,
  codes,
}

-- `movb %al, (%edi)` until the address is a multiple of 4 or nothing is left, with `rounds` left:
-- `edi`, `ecx` and the memory
unfoldable pub set_unaligned : ℕ → ℕ → ℕ → ℕ → Bytes → ℕ × ℕ × Bytes
set_unaligned zero c edi ecx m = (edi, ecx, m)
set_unaligned (suc rounds) c edi ecx m =
    let rest = set_unaligned rounds c (edi + 1) (ecx - 1) (update m edi c) in
    if ecx == 0 || edi % 4 == 0 then (edi, ecx, m) else rest

-- four bytes of a register, the lowest first
abbrev pub store32 : Bytes → ℕ → ℕ → Bytes
store32 m edi v =
    update
      (update (update (update m edi (v % 256)) (edi + 1) (v / 256 % 256)) (edi + 2)
        (v / 65536 % 256))
      (edi + 3) (v / 16777216 % 256)

abbrev pub store16 : Bytes → ℕ → ℕ → Bytes
store16 m edi v = update (update m edi (v % 256)) (edi + 1) (v / 256 % 256)

-- `rep stosl` and `rep stosw`
unfoldable pub rep_stosl : ℕ → ℕ → ℕ → Bytes → Bytes
rep_stosl zero eax edi m = m
rep_stosl (suc ecx) eax edi m = rep_stosl ecx eax (edi + 4) (store32 m edi eax)

unfoldable pub rep_stosw : ℕ → ℕ → ℕ → Bytes → Bytes
rep_stosw zero ax edi m = m
rep_stosw (suc ecx) ax edi m = rep_stosw ecx ax (edi + 2) (store16 m edi ax)

-- the loop at `.memset_bottom`
unfoldable pub set_bytes : ℕ → ℕ → ℕ → Bytes → Bytes
set_bytes zero c edi m = m
set_bytes (suc edx) c edi m = set_bytes edx c (edi + 1) (update m edi c)

unfoldable pub memset : ℕ → ℕ → ℕ → Bytes → Bytes
memset s c n m =
    let al = c % 256 in
    let (edi, ecx, m1) = set_unaligned n al s n m in
    let words = rep_stosl (ecx / 4) (al * 16777216 + al * 65536 + al * 256 + al) edi m1 in
    if ecx == 0 then m1 else set_bytes (ecx % 4) al (edi + 4 * (ecx / 4)) words

unfoldable pub memset_word : ℕ → ℕ → ℕ → Bytes → Bytes
memset_word s c n m = rep_stosw n (c % 65536) s m

unfoldable pub memset_dword : ℕ → ℕ → ℕ → Bytes → Bytes
memset_dword s c n m = rep_stosl n c s m

-- `memcpy`: bytes until the destination is aligned
unfoldable pub copy_unaligned : ℕ → ℕ → ℕ → ℕ → Bytes → ℕ × ℕ × ℕ × Bytes
copy_unaligned zero edi esi ecx m = (edi, esi, ecx, m)
copy_unaligned (suc rounds) edi esi ecx m =
    let rest = copy_unaligned rounds (edi + 1) (esi + 1) (ecx - 1) (update m edi (m esi)) in
    if ecx == 0 || edi % 4 == 0 then (edi, esi, ecx, m) else rest

-- `rep movsl`: the four bytes are read before they are written
unfoldable pub rep_movsl : ℕ → ℕ → ℕ → Bytes → Bytes
rep_movsl zero edi esi m = m
rep_movsl (suc ecx) edi esi m = rep_movsl ecx (edi + 4) (esi + 4) (
    update (update (update (update m edi (m esi)) (edi + 1) (m (esi + 1))) (edi + 2) (m (esi + 2)))
      (edi + 3) (m (esi + 3)))

-- the loop at `.memcpy_bottom`, and `rep movsb` upwards
unfoldable pub copy_up : ℕ → ℕ → ℕ → Bytes → Bytes
copy_up zero edi esi m = m
copy_up (suc n) edi esi m = copy_up n (edi + 1) (esi + 1) (update m edi (m esi))

unfoldable pub memcpy : ℕ → ℕ → ℕ → Bytes → Bytes
memcpy dest src n m =
    let (edi, esi, ecx, m1) = copy_unaligned n dest src n m in
    let words = rep_movsl (ecx / 4) edi esi m1 in
    if ecx == 0 then m1 else copy_up (ecx % 4) (edi + 4 * (ecx / 4)) (esi + 4 * (ecx / 4)) words

-- `rep movsb` downwards, to and from the blocks that start at `dest` and `src`
unfoldable pub copy_down : ℕ → ℕ → ℕ → Bytes → Bytes
copy_down zero dest src m = m
copy_down (suc n) dest src m = copy_down n dest src (update m (dest + n) (m (src + n)))

unfoldable pub memmove : ℕ → ℕ → ℕ → Bytes → Bytes
memmove dest src n m = if leb dest src then copy_up n dest src m else copy_down n dest src m
