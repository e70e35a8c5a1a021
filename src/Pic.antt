-- ===== src/Pic.antt =====
-- student-distrib/i8259.c: the interrupt controllers.
pub mod Masks
use os.Common.{
  ℕ, zero, suc, ◌+◌, ◌-◌, ◌*◌, ◌/◌, ◌%◌, ◌^◌, ◌≤◌, ◌<◌, min, ◌≡◌, refl, sym, ap, ◌∙◌, ◌≢◌, ◌↔◌, ◌⊎◌,
  inl, inr, Bool, true, false, not, ◌&&◌, ◌||◌, Option, none, some, List, [], ◌∷◌, ◌++◌, arith,
  dec_lt, ℕ_discrete, ltb, leb, ◌==◌, if◌then◌else◌, ltb→lt, lt→ltb, leb→le, ==_iff, Bool-cases,
  Option-cases, u8, u32, add32, sub32, minus_one, is_neg, slt, sign_extend8, Array, Bytes, update,
  length, get_or, set, char_at, copy, copy_lem, tests, holds_up_to, holds_at, bit_and, bit_or,
}
use os.Machine.{Hardware, Kernel}

abbrev pub outb : ℕ → ℕ → Hardware → Hardware
outb value port h = record h { ports = (value, port) ∷ h.ports }

-- `mask & ~(1 << irq)` and `mask | (1 << irq)`, stored in a `uint8_t`
unfoldable pub clear_bit : ℕ → ℕ → ℕ
clear_bit mask irq = u8 (bit_and mask (2 ^ 32 - 1 - 2 ^ irq))

unfoldable pub set_bit : ℕ → ℕ → ℕ
set_bit mask irq = u8 (bit_or mask (2 ^ irq))

unfoldable pub enable_irq : ℕ → Hardware → Hardware
enable_irq irq_num h =
    let master = clear_bit h.master_mask irq_num in
    let slave = clear_bit h.slave_mask (irq_num - 8) in
    if ltb irq_num 8
    then outb master 0x21 (record h { master_mask = master })
    else outb slave 0xA1 (record h { slave_mask = slave })

-- `cli` first and `sti` last: the call leaves interrupts enabled.
unfoldable pub disable_irq : ℕ → Hardware → Hardware
disable_irq irq_num h =
    let master = set_bit h.master_mask irq_num in
    let slave = set_bit h.slave_mask (irq_num - 8) in
    if ltb irq_num 8
    then outb master 0x21 (record h { interrupts = true; master_mask = master })
    else outb slave 0xA1 (record h { interrupts = true; slave_mask = slave })

unfoldable pub send_eoi : ℕ → Hardware → Hardware
send_eoi irq_num h =
    if leb 8 irq_num
    then outb (u8 (bit_or 0x60 2)) 0x20 (outb (u8 (bit_or 0x60 (irq_num - 8))) 0xA0 h)
    else outb (u8 (bit_or 0x60 irq_num)) 0x20 h

unfoldable pub i8259_init : Hardware → Hardware
unfolding enable_irq
i8259_init h = enable_irq 2 (
    outb 0x01 0xA1 (
      outb 0x02 0xA1 (
        outb 0x28 0xA1 (
          outb 0x11 0xA0 (
            outb 0x01 0x21 (
              outb 0x04 0x21
                (outb 0x20 0x21 (outb 0x11 0x20 (outb 0xFF 0xA1 (outb 0xFF 0x21 h))))))))))

abbrev pub enable_irq_of : ℕ → Kernel → Kernel
enable_irq_of n k = record k { hardware = enable_irq n k.hardware }

abbrev pub disable_irq_of : ℕ → Kernel → Kernel
disable_irq_of n k = record k { hardware = disable_irq n k.hardware }

abbrev pub send_eoi_of : ℕ → Kernel → Kernel
send_eoi_of n k = record k { hardware = send_eoi n k.hardware }
