-- ===== src/Interrupts.antt =====
-- student-distrib/idt_helper.c and idt_handler.c: the table of interrupt gates, and what the two
-- handlers do that the assembly of intr_linkage.S calls. `pit_handler` of pit.c stands here too.
pub mod Gates
pub mod Dispatch
use os.Common.{
  ℕ, zero, suc, ◌+◌, ◌-◌, ◌*◌, ◌/◌, ◌%◌, ◌^◌, ◌≤◌, ◌<◌, min, ◌≡◌, refl, sym, ap, ◌∙◌, ◌≢◌, ◌↔◌, ◌⊎◌,
  inl, inr, Bool, true, false, not, ◌&&◌, ◌||◌, Option, none, some, List, [], ◌∷◌, ◌++◌, arith,
  dec_lt, ℕ_discrete, ltb, leb, ◌==◌, if◌then◌else◌, ltb→lt, lt→ltb, leb→le, ==_iff, Bool-cases,
  Option-cases, u8, u32, add32, sub32, minus_one, is_neg, slt, sign_extend8, Array, Bytes, update,
  length, get_or, set, char_at, copy, copy_lem, tests, holds_up_to, holds_at, bit_and, bit_or,
  codes, get_elem?,
}
use os.Machine.{Kernel, cli, sti}
use os.Pic.{send_eoi_of}
use os.Console.{puts}
use os.Terminal.{on_console}
use os.Keyboard.{keyboard_handler}
use os.Rtc.{rtc_handler}
use os.Processes.{Outcome, returned, left, enters, halt}
use os.Scheduler.{scheduler}

-- `idt_desc_t`, less the byte `reserved4`, which nothing writes
pub record Gate : Type 0 where
  pub offset_15_00 : ℕ
  pub offset_31_16 : ℕ
  pub seg_selector : ℕ
  pub reserved3 : ℕ
  pub reserved2 : ℕ
  pub reserved1 : ℕ
  pub size : ℕ
  pub reserved0 : ℕ
  pub dpl : ℕ
  pub present : ℕ

-- the nine assignments of `init_idt`: a gate with its kind and its privilege level
abbrev pub prepared : ℕ → ℕ → Gate → Gate
prepared trap dpl g = record g {
  seg_selector = 0x10;
  reserved3 = trap;
  reserved2 = 1;
  reserved1 = 1;
  size = 1;
  reserved0 = 0;
  dpl = dpl;
  present = 1;
}

-- a loop over `rounds` gates from index `i` on
unfoldable pub prepare_from : ℕ → ℕ → ℕ → Array Gate → Array Gate
prepare_from zero i trap idt = idt
prepare_from (suc rounds) i trap idt =
    prepare_from rounds (i + 1) trap (update idt i (prepared trap 0 (idt i)))

unfoldable pub init_idt : Array Gate → Array Gate
init_idt idt =
    let kernel_gates = prepare_from 16 32 0 (prepare_from 256 0 1 idt) in
    update kernel_gates 0x80 (prepared 1 3 (kernel_gates 0x80))

-- `SET_IDT_ENTRY`, with the two masks as remainders
unfoldable pub set_idt_entry : ℕ → ℕ → Array Gate → Array Gate
set_idt_entry vector handler idt =
    update idt vector
      (record (idt vector) { offset_31_16 = u32 handler / 2 ^ 16; offset_15_00 = handler % 2 ^ 16 })

-- `populate_idt`: `linkage` gives for each vector the address of its entry in intr_linkage.S
unfoldable pub set_entries : ℕ → ℕ → (ℕ → ℕ) → Array Gate → Array Gate
set_entries zero i linkage idt = idt
set_entries (suc rounds) i linkage idt =
    set_entries rounds (i + 1) linkage (set_idt_entry i (linkage i) idt)

unfoldable pub populate_idt : (ℕ → ℕ) → Array Gate → Array Gate
populate_idt linkage idt =
    set_idt_entry 0x80 (linkage 0x80) (set_entries 16 32 linkage (set_entries 20 0 linkage idt))

-- what the cases of `exc_handler` print, each with its newline
unfoldable pub exception_names : List (List ℕ)
exception_names =
    codes "div_by_zero\n"
    ∷ codes "single_step\n"
    ∷ codes "nmi\n"
    ∷ codes "breakpoint\n"
    ∷ codes "overflow\n"
    ∷ codes "bound_range\n"
    ∷ codes "inv_opcode\n"
    ∷ codes "coprocessor_na\n"
    ∷ codes "double_fault\n"
    ∷ codes "coprocessor_seg_ovr\n"
    ∷ codes "inv_task\n"
    ∷ codes "seg_not_present\n"
    ∷ codes "stack_segfault\n"
    ∷ codes "general_protection\n"
    ∷ codes "page\n"
    ∷ codes "reserved\n"
    ∷ codes "x87_float\n"
    ∷ codes "alignment\n"
    ∷ codes "machine\n"
    ∷ codes "simd\n"
    ∷ []

unfoldable pub exception_name : ℕ → Option (List ℕ)
exception_name vector = get_elem? exception_names vector

-- `exc_handler`. A vector that is no exception falls through the switch. `garbage` is that of
-- `halt`; the `sti` behind `exception_halt` is reached only where that returns, which it does not.
unfoldable pub exc_handler : ℕ → ℕ → Kernel → Outcome
exc_handler vector garbage k = elim (exception_name vector) [
  | none ↦ returned 0 k
  | some name ↦ halt 256 garbage (on_console (puts name) (cli k))
]

abbrev pub sti_after : Outcome → Outcome
sti_after (returned r k) = returned r (sti k)
sti_after (left k) = left (sti k)
sti_after (enters entry k) = enters entry k

-- The timer's handler: where the scheduler launches a shell, control does not come back to `sti`.
unfoldable pub pit_handler : Bytes → Kernel → Outcome
pit_handler garbage k = sti_after (scheduler garbage (cli k))

-- `hardware_handler`. The end of the interrupt is signalled a second time here, for the keyboard
-- and the clock; `scan_code` is what the keyboard's port gives.
unfoldable pub hardware_handler : ℕ → ℕ → Bytes → Kernel → Outcome
hardware_handler vector scan_code garbage k =
    if vector == 32
    then pit_handler garbage (cli k)
    else if vector == 33
    then returned 0 (send_eoi_of 1 (sti (keyboard_handler scan_code (cli k))))
    else if vector == 40
    then returned 0 (send_eoi_of 8 (sti (rtc_handler (cli k))))
    else returned 0 (cli k)
