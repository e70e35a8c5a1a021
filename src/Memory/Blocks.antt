-- ===== src/Memory/Blocks.antt =====
-- The block operations against their effect on each byte.
use os.Common.{
  ℕ, zero, suc, ◌+◌, ◌-◌, ◌*◌, ◌/◌, ◌%◌, ◌≤◌, ◌<◌, ◌≡◌, refl, ap, ◌⊎◌, inl, inr, true, false, ◌&&◌,
  ◌||◌, arith, dec_lt, ltb, leb, ◌==◌, if◌then◌else◌, Bool-cases, Bytes, update,
}
use os.Memory.{
  set_unaligned, store32, rep_stosl, set_bytes, memset, copy_unaligned, rep_movsl, copy_up, memcpy,
  copy_down, memmove,
}

-- `n` bytes from `s` on are `c`, and the rest is as it was
abbrev pub IsFilled : ℕ → ℕ → ℕ → Bytes → Bytes → Type 0
IsFilled s c n m m' = (j : ℕ) → m' j ≡ (if leb s j && ltb j (s + n) then c else m j)

set_unaligned_lem :
    (rounds c edi ecx : ℕ) (m : Bytes)
    → ecx ≤ rounds
    → let r = set_unaligned rounds c edi ecx m in
      (r.0 + r.1 ≡ edi + ecx) × (edi ≤ r.0) × IsFilled edi c (r.0 - edi) m r.2
unfolding set_unaligned
set_unaligned_lem zero c edi ecx m h = (refl, omega arith, λ j. ground arith)
set_unaligned_lem (suc rounds) c edi ecx m h =
    let (total, up, done) =
      set_unaligned_lem rounds c (edi + 1) (ecx - 1) (update m edi c) (omega arith) in
    (ground (arith, total), ground (arith, up), λ j. ground (arith, up, done j))

rep_stosl-IsFilled :
    (n c edi : ℕ) (m : Bytes)
    → c < 256
    → IsFilled edi c (4 * n) m (rep_stosl n (c * 16777216 + c * 65536 + c * 256 + c) edi m)
unfolding rep_stosl
rep_stosl-IsFilled zero c edi m h j = ground arith
rep_stosl-IsFilled (suc n) c edi m h j =
    let v = c * 16777216 + c * 65536 + c * 256 + c in
    let b0 : v % 256 ≡ c = omega arith in
    let b1 : v / 256 % 256 ≡ c = omega arith in
    let b2 : v / 65536 % 256 ≡ c = omega arith in
    let b3 : v / 16777216 % 256 ≡ c = omega arith in
    ground (arith, b0, b1, b2, b3, rep_stosl-IsFilled n c (edi + 4) (store32 m edi v) h j)

set_bytes-IsFilled : (n c edi : ℕ) (m : Bytes) → IsFilled edi c n m (set_bytes n c edi m)
unfolding set_bytes
set_bytes-IsFilled zero c edi m j = ground arith
set_bytes-IsFilled (suc n) c edi m j =
    ground (arith, set_bytes-IsFilled n c (edi + 1) (update m edi c) j)

-- `memset` writes the low byte of `c` to the `n` bytes from `s` on, however they are aligned, and
-- to no other.
pub memset_lem :
    (s c n : ℕ) (m : Bytes) (j : ℕ)
    → memset s c n m j ≡ (if leb s j && ltb j (s + n) then c % 256 else m j)
unfolding memset
memset_lem s c n m j =
    let al = c % 256 in
    let r = set_unaligned n al s n m in
    let (total, up, done) = set_unaligned_lem n al s n m (omega arith) in
    let words = rep_stosl (r.1 / 4) (al * 16777216 + al * 65536 + al * 256 + al) r.0 r.2 in
    let by_words = rep_stosl-IsFilled (r.1 / 4) al r.0 r.2 (omega arith) in
    let by_bytes = set_bytes-IsFilled (r.1 % 4) al (r.0 + 4 * (r.1 / 4)) words in
    ground (arith, total, up, done j, by_words j, by_bytes j)

-- `n` bytes from `src` on stand from `dest` on, and the rest is as it was
abbrev pub IsCopy : ℕ → ℕ → ℕ → Bytes → Bytes → Type 0
IsCopy dest src n m m' =
    (j : ℕ) → m' j ≡ (if leb dest j && ltb j (dest + n) then m (src + (j - dest)) else m j)

-- A block that is copied upwards may be copied in two parts.
IsCopy-append :
    (a b dest src : ℕ) (m m1 m2 : Bytes)
    → (dest ≤ src) ⊎ (src + (a + b) ≤ dest)
    → IsCopy dest src a m m1
    → IsCopy (dest + a) (src + a) b m1 m2
    → IsCopy dest src (a + b) m m2
IsCopy-append a b dest src m m1 m2 apart low high j =
    let from = src + a + (j - (dest + a)) in
    let same : dest + a ≤ j → m from ≡ m (src + (j - dest)) = λ l. ap m (omega arith) in
    ground (arith, apart, low j, low from, high j, same)

IsCopy-byte : (edi esi : ℕ) (m : Bytes) → IsCopy edi esi 1 m (update m edi (m esi))
IsCopy-byte edi esi m j =
    let here : edi ≡ j → m (esi + (j - edi)) ≡ m esi = λ e. ap m (omega arith) in
    ground (arith, here)

IsCopy-word :
    (edi esi : ℕ) (m : Bytes)
    → IsCopy edi esi 4 m (
        update
          (update (update (update m edi (m esi)) (edi + 1) (m (esi + 1))) (edi + 2) (m (esi + 2)))
          (edi + 3)
          (m (esi + 3)))
IsCopy-word edi esi m j =
    let b0 : edi ≡ j → m (esi + (j - edi)) ≡ m esi = λ e. ap m (omega arith) in
    let b1 : edi + 1 ≡ j → m (esi + (j - edi)) ≡ m (esi + 1) = λ e. ap m (omega arith) in
    let b2 : edi + 2 ≡ j → m (esi + (j - edi)) ≡ m (esi + 2) = λ e. ap m (omega arith) in
    let b3 : edi + 3 ≡ j → m (esi + (j - edi)) ≡ m (esi + 3) = λ e. ap m (omega arith) in
    ground (arith, b0, b1, b2, b3)

copy_up-IsCopy :
    (n dest src : ℕ) (m : Bytes)
    → (dest ≤ src) ⊎ (src + n ≤ dest)
    → IsCopy dest src n m (copy_up n dest src m)
unfolding copy_up
copy_up-IsCopy zero dest src m h = λ j. ground arith
copy_up-IsCopy (suc n) dest src m h =
    let size : 1 + n ≡ suc n = omega arith in
    rw (← size) (
      IsCopy-append 1 n dest src m (update m dest (m src)) _ (ground arith) (IsCopy-byte dest src m)
        (copy_up-IsCopy n (dest + 1) (src + 1) (update m dest (m src)) (ground arith)))

copy_down-IsCopy :
    (n dest src : ℕ) (m : Bytes) → src < dest → IsCopy dest src n m (copy_down n dest src m)
unfolding copy_down
copy_down-IsCopy zero dest src m h j = ground arith
copy_down-IsCopy (suc n) dest src m h j =
    let top : dest + n ≡ j → m (src + (j - dest)) ≡ m (src + n) = λ e. ap m (omega arith) in
    ground (arith, top, copy_down-IsCopy n dest src (update m (dest + n) (m (src + n))) h j)

copy_unaligned_lem :
    (rounds edi esi ecx : ℕ) (m : Bytes)
    → ecx ≤ rounds
    → (edi ≤ esi) ⊎ (esi + ecx ≤ edi)
    → let r = copy_unaligned rounds edi esi ecx m in
      (r.0 + r.2 ≡ edi + ecx)
      × (edi ≤ r.0)
      × (r.1 + edi ≡ esi + r.0)
      × IsCopy edi esi (r.0 - edi) m r.3
unfolding copy_unaligned
copy_unaligned_lem zero edi esi ecx m h apart = (refl, omega arith, omega arith, λ j. ground arith)
copy_unaligned_lem (suc rounds) edi esi ecx m h apart =
    elim (Bool-cases (ecx == 0 || edi % 4 == 0)) [
      | inl stop ↦ rw (copy_unaligned, stop) (refl, omega arith, omega arith, λ j. ground arith)
      | inr go ↦
          let more : 0 < ecx = ground arith in
          let m1 = update m edi (m esi) in
          let r = copy_unaligned rounds (edi + 1) (esi + 1) (ecx - 1) m1 in
          let (total, up, along, done) =
            copy_unaligned_lem rounds (edi + 1) (esi + 1) (ecx - 1) m1 (omega arith)
              (ground arith) in
          let size : 1 + (r.0 - (edi + 1)) ≡ r.0 - edi = omega (arith, up) in
          rw (copy_unaligned, go)
            (
              omega (arith, total),
              omega (arith, up),
              omega (arith, along),
              rw (← size) (
                  IsCopy-append 1 (r.0 - (edi + 1)) edi esi m m1 r.3 (ground (arith, total, up))
                    (IsCopy-byte edi esi m) done),
            )
    ]

rep_movsl-IsCopy :
    (n edi esi : ℕ) (m : Bytes)
    → (edi ≤ esi) ⊎ (esi + 4 * n ≤ edi)
    → IsCopy edi esi (4 * n) m (rep_movsl n edi esi m)
unfolding rep_movsl
rep_movsl-IsCopy zero edi esi m h = λ j. ground arith
rep_movsl-IsCopy (suc n) edi esi m h =
    let size : 4 + 4 * n ≡ 4 * suc n = omega arith in
    rw (← size) (
      IsCopy-append 4 (4 * n) edi esi m _ _ (ground arith) (IsCopy-word edi esi m)
        (rep_movsl-IsCopy n (edi + 4) (esi + 4) _ (ground arith)))

-- `memcpy` leaves at `dest` the `n` bytes that stood at `src`, however the blocks are aligned, and
-- changes no other byte, if the blocks do not overlap or the destination is the lower one.
pub memcpy_lem :
    (dest src n : ℕ) (m : Bytes) (j : ℕ)
    → (dest ≤ src) ⊎ (src + n ≤ dest)
    → memcpy dest src n m j ≡ (if leb dest j && ltb j (dest + n) then m (src + (j - dest)) else m j)
unfolding memcpy
memcpy_lem dest src n m j apart =
    let r = copy_unaligned n dest src n m in
    let (total, up, along, done) = copy_unaligned_lem n dest src n m (omega arith) apart in
    let a = r.0 - dest in
    let words = rep_movsl (r.2 / 4) r.0 r.1 r.3 in
    elim (Bool-cases (r.2 == 0)) [
      | inl all_done ↦
          let size : a ≡ n = ground (arith, total, up) in
          rw (memcpy, all_done) (rw size at (done j))
      | inr more ↦
          let end = copy_up (r.2 % 4) (r.0 + 4 * (r.2 / 4)) (r.1 + 4 * (r.2 / 4)) words in
          let tail =
            copy_up-IsCopy (r.2 % 4) (r.0 + 4 * (r.2 / 4)) (r.1 + 4 * (r.2 / 4)) words
              (ground (arith, total, up, along)) in
          let block = rep_movsl-IsCopy (r.2 / 4) r.0 r.1 r.3 (ground (arith, total, up, along)) in
          let behind =
            IsCopy-append (4 * (r.2 / 4)) (r.2 % 4) r.0 r.1 r.3 words end
              (ground (arith, total, up, along)) block tail in
          let to : r.0 ≡ dest + a = omega (arith, up) in
          let from : r.1 ≡ src + a = omega (arith, up, along) in
          let joined =
            IsCopy-append a (4 * (r.2 / 4) + r.2 % 4) dest src m r.3 end (ground (arith, total, up))
              done (rw (← to, ← from) behind) in
          let size : a + (4 * (r.2 / 4) + r.2 % 4) ≡ n = omega (arith, total, up) in
          rw (memcpy, more) (rw size at (joined j))
    ]

-- `memmove` leaves at `dest` the `n` bytes that stood at `src`, also where the blocks overlap, and
-- changes no other byte.
pub memmove_lem :
    (dest src n : ℕ) (m : Bytes) (j : ℕ)
    → memmove dest src n m j
      ≡ (if leb dest j && ltb j (dest + n) then m (src + (j - dest)) else m j)
unfolding memmove
memmove_lem dest src n m j = elim (dec_lt src dest) [
  | yes below ↦
      let down : leb dest src ≡ false = ground arith in
      rw (memmove, down) (copy_down-IsCopy n dest src m below j)
  | no above ↦
      let up : leb dest src ≡ true = ground arith in
      rw (memmove, up) (copy_up-IsCopy n dest src m (inl (omega arith)) j)
]
