-- ===== src/Pic/Masks.antt =====
-- What the mask operations do to each interrupt line.
use os.Common.{
  ℕ, ◌-◌, ◌/◌, ◌%◌, ◌^◌, ◌<◌, ◌≡◌, refl, Bool, true, false, ◌&&◌, arith, dec_lt, ltb, ◌==◌, ◌∷◌,
  inl, inr, Bool-cases, if◌then◌else◌, holds_up_to, holds_at,
}
use os.Machine.{Hardware}
use os.Pic.{clear_bit, set_bit, enable_irq, disable_irq}

abbrev bit_of : ℕ → ℕ → ℕ
bit_of mask j = mask / 2 ^ j % 2

-- Line `j` of the sixteen is masked.
unfoldable pub is_masked : Hardware → ℕ → Bool
is_masked h j = if ltb j 8 then bit_of h.master_mask j == 1 else bit_of h.slave_mask (j - 8) == 1

bit_table :
    holds_up_to 256 (λ m. holds_up_to 8 (λ i. holds_up_to 8 (λ j.
      (bit_of (clear_bit m i) j == (if i == j then 0 else bit_of m j))
      && (bit_of (set_bit m i) j == (if i == j then 1 else bit_of m j)))))
    ≡ true
unfolding holds_up_to clear_bit set_bit
bit_table = refl

bits_of_masks :
    (m i j : ℕ)
    → m < 256
    → i < 8
    → j < 8
    → (bit_of (clear_bit m i) j ≡ (if i == j then 0 else bit_of m j))
      × (bit_of (set_bit m i) j ≡ (if i == j then 1 else bit_of m j))
bits_of_masks m i j hm hi hj =
    let row = holds_at 8 _ j (holds_at 8 _ i (holds_at 256 _ m bit_table hm) hi) hj in
    ground (arith, row)

byte : (m i : ℕ) → (clear_bit m i < 256) × (set_bit m i < 256)
unfolding clear_bit set_bit
byte m i = omega arith

pub record HasByteMasks (h : Hardware) : Type 0 where
  pub master : h.master_mask < 256
  pub slave : h.slave_mask < 256

-- The data port of the controller that line `irq` is on: 0x21 of the first, 0xA1 of the second.
abbrev data_port : ℕ → ℕ
data_port irq = if ltb irq 8 then 0x21 else 0xA1

-- the variable that keeps the mask of that controller
abbrev mask_of : Hardware → ℕ → ℕ
mask_of h irq = if ltb irq 8 then h.master_mask else h.slave_mask

-- What a controller is sent when line `irq` has changed: one byte, the mask that the variable then
-- has, to the data port of the controller of the line.
abbrev pub IsSent : ℕ → Hardware → Hardware → Type 0
IsSent irq h h' = h'.ports ≡ (mask_of h' irq, data_port irq) ∷ h.ports

irq_bits :
    (h : Hardware) (irq j : ℕ)
    → HasByteMasks h
    → irq < 16
    → j < 16
    → (is_masked (enable_irq irq h) j ≡ (if irq == j then false else is_masked h j))
      × (is_masked (disable_irq irq h) j ≡ (if irq == j then true else is_masked h j))
      × HasByteMasks (enable_irq irq h)
      × HasByteMasks (disable_irq irq h)
unfolding is_masked enable_irq disable_irq
irq_bits h irq j v hi hj = elim (dec_lt irq 8) [
  | yes p ↦ elim (dec_lt j 8) [
    | yes q ↦ ground (arith, bits_of_masks h.master_mask irq j v.master p q, byte h.master_mask irq)
    | no q ↦ ground (arith, byte h.master_mask irq)
  ]
  | no p ↦ elim (dec_lt j 8) [
    | yes q ↦ ground (arith, byte h.slave_mask (irq - 8))
    | no q ↦ ground (
      arith,
      bits_of_masks h.slave_mask (irq - 8) (j - 8) v.slave (omega arith) (omega arith),
      byte h.slave_mask (irq - 8),
    )
  ]
]

irq-IsSent :
    (h : Hardware) (irq : ℕ) → IsSent irq h (enable_irq irq h) × IsSent irq h (disable_irq irq h)
unfolding enable_irq disable_irq
irq-IsSent h irq = elim (Bool-cases (ltb irq 8)) [
  | inl t ↦ rw t (refl, refl)
  | inr t ↦ rw t (refl, refl)
]

-- For the sixteen lines, and masks that are bytes: `enable_irq` unmasks its own line, `disable_irq`
-- masks it, neither changes another line, the masks are still bytes, and each sends one byte, to
-- the data port of the controller that has the line: that controller's new mask.
pub irq_masks :
    (h : Hardware) (irq j : ℕ)
    → HasByteMasks h
    → irq < 16
    → j < 16
    → (is_masked (enable_irq irq h) j ≡ (if irq == j then false else is_masked h j))
      × (is_masked (disable_irq irq h) j ≡ (if irq == j then true else is_masked h j))
      × HasByteMasks (enable_irq irq h)
      × HasByteMasks (disable_irq irq h)
      × IsSent irq h (enable_irq irq h)
      × IsSent irq h (disable_irq irq h)
irq_masks h irq j v hi hj =
    let (on, off, bytes, bytes') = irq_bits h irq j v hi hj in
    let (sent, sent') = irq-IsSent h irq in (on, off, bytes, bytes', sent, sent')
