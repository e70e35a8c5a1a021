-- ===== src/Rtc.antt =====
-- student-distrib/rtc.c: the real-time clock, one virtual clock for each terminal.
pub mod Rate
pub mod Tick
use os.Common.{
  ℕ, zero, suc, ◌+◌, ◌-◌, ◌*◌, ◌/◌, ◌%◌, ◌^◌, ◌≤◌, ◌<◌, min, ◌≡◌, refl, sym, ap, ◌∙◌, ◌≢◌, ◌↔◌, ◌⊎◌,
  inl, inr, Bool, true, false, not, ◌&&◌, ◌||◌, Option, none, some, List, [], ◌∷◌, ◌++◌, arith,
  dec_lt, ℕ_discrete, ltb, leb, ◌==◌, if◌then◌else◌, ltb→lt, lt→ltb, leb→le, ==_iff, Bool-cases,
  Option-cases, u8, u32, add32, sub32, minus_one, is_neg, slt, sign_extend8, Array, Bytes, update,
  length, get_or, set, char_at, copy, copy_lem, tests, holds_up_to, holds_at, bit_and, bit_or,
}
use os.Files.{load32}
use os.Machine.{
  rtc_fop, FileDescriptor, Kernel, Rtc, scheduled, descriptors, with_descriptors, cli, sti, Reply,
  waits, returns,
}
use os.Pic.{outb, enable_irq}
use os.Machine.{Hardware}
use os.Descriptors.{open_descriptor, is_outside, closed}

-- `rtc_init`, after `cli`: `prev_a` and `prev_b` are what the two reads of the CMOS port give that
-- are used, and `index` is what the read of the index port gives.
unfoldable pub rtc_init : ℕ → ℕ → ℕ → Kernel → Kernel
unfolding enable_irq
rtc_init prev_a prev_b index k =
    let h = (cli k).hardware in
    let h1 =
      outb (u8 (bit_or (bit_and prev_a 0xF0) 0x06)) 0x71 (outb 0x8A 0x70 (outb 0x8A 0x70 h)) in
    let h2 = outb 0x8B 0x70 (outb 0x8B 0x70 (outb 0x8A 0x70 h1)) in
    let h3 = outb 0x8B 0x70 (outb (u8 (bit_or prev_b 0x40)) 0x71 h2) in
    let h4 = outb (bit_and index 0x7F) 0x70 h3 in
    let rtc = record (k.rtc) {
      desired_virtualized_frequency = update k.rtc.desired_virtualized_frequency k.schedule_idx 2;
    } in
    sti (record k { hardware = enable_irq 8 h4; rtc = rtc })

-- One turn of the loop of `rtc_read`: it waits while the flag of the scheduled terminal is up.
unfoldable pub rtc_read : ℕ → Bytes → ℕ → Kernel → Reply
rtc_read fd buf nbytes k =
    let rtc = record (k.rtc) { interrupt_flag = update k.rtc.interrupt_flag k.schedule_idx 1 } in
    if k.rtc.interrupt_flag k.schedule_idx == 1
    then waits (sti k)
    else returns 0 buf (sti (record k { rtc = rtc }))

-- the frequencies that `rtc_write` accepts
unfoldable pub is_rate : ℕ → Bool
is_rate rate = not (
    slt 1024 rate
    || not (slt 0 rate)
    || not (not (rate == 0) && (bit_and rate (sub32 rate 1) == 0)))

-- The two refusals return with interrupts disabled.
unfoldable pub rtc_write : ℕ → Bytes → ℕ → Kernel → ℕ × Kernel
rtc_write fd buf nbytes k =
    let rate = load32 buf 0 in
    let rtc = record (k.rtc) {
      desired_virtualized_frequency =
          update k.rtc.desired_virtualized_frequency k.schedule_idx rate;
    } in
    if not (nbytes == 4)
    then (minus_one, cli k)
    else if not (is_rate rate)
    then (minus_one, cli k)
    else (0, sti (record k { rtc = rtc }))

unfoldable pub rtc_open : List ℕ → Kernel → ℕ × Kernel
rtc_open filename k =
    let s = k.schedule_idx in
    let rtc = record (k.rtc) {
      desired_virtualized_frequency = update k.rtc.desired_virtualized_frequency s 2;
      interrupt_count = update k.rtc.interrupt_count s 0;
      interrupt_flag = update k.rtc.interrupt_flag s 1;
    } in
    let (fd, fds) =
      open_descriptor k.fs 0 rtc_fop (λ _. 0) filename (descriptors k (scheduled k)) in
    (fd, sti (with_descriptors (record k { rtc = rtc }) (scheduled k) fds))

unfoldable pub rtc_close : ℕ → Kernel → ℕ × Kernel
rtc_close fd k =
    let p = scheduled k in
    let d = descriptors k p fd in
    if is_outside fd
    then (minus_one, sti k)
    else if d.flags == 1
    then (0, sti (with_descriptors k p (update (descriptors k p) fd (closed d))))
    else (0, sti k)

-- The part of `rtc_handler` that counts, for the scheduled terminal `s`.
unfoldable pub tick : ℕ → Rtc → Rtc
tick s r =
    let count = update r.interrupt_count r.rtc_idx (add32 (r.interrupt_count r.rtc_idx) 1) in
    let counted = record r {
      interrupt_count = count;
      rtc_idx = if ltb r.rtc_idx 2 then r.rtc_idx + 1 else 0;
    } in
    if leb (1024 / u32 (r.desired_virtualized_frequency s * 3)) (count s)
    then record counted {
      interrupt_flag = update r.interrupt_flag s 0;
      interrupt_count = update count s 0;
    }
    else counted

unfoldable pub rtc_handler : Kernel → Kernel
unfolding tick
rtc_handler k =
    sti (record k { rtc = tick k.schedule_idx k.rtc; hardware = outb 0x0C 0x70 k.hardware })
