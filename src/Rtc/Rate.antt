-- ===== src/Rtc/Rate.antt =====
-- Which frequencies the clock can be set to.
use os.Machine.{cli}
use os.Machine.{sti}
use os.Common.{
  ℕ, zero, suc, ◌^◌, ◌≤◌, ◌<◌, ◌≡◌, refl, ◌↔◌, inl, inr, true, ◌&&◌, arith, ℕ_discrete, leb, ◌==◌,
  if◌then◌else◌, Bool-cases, minus_one, Bytes, update, holds_up_to, holds_at,
}
use os.Files.{load32}
use os.Machine.{Kernel}
use os.Rtc.{is_rate, rtc_write}

-- a frequency that the documentation allows: a power of 2 up to 1024 Hz
abbrev pub IsFrequency : ℕ → Type 0
IsFrequency rate = (e : ℕ) × (e ≤ 10) × (rate ≡ 2 ^ e)

log_of : ℕ → ℕ → ℕ
log_of zero rate = 0
log_of (suc e) rate = if 2 ^ e == rate then e else log_of e rate

rate_table :
    holds_up_to 1025
      (λ r. (if is_rate r then 2 ^ log_of 11 r == r && leb (log_of 11 r) 10 else true))
    ≡ true
unfolding holds_up_to is_rate log_of
rate_table = refl

powers_table : holds_up_to 11 (λ e. is_rate (2 ^ e)) ≡ true
unfolding holds_up_to is_rate
powers_table = refl

is_rate-le : (rate : ℕ) → rate < 2 ^ 32 → is_rate rate ≡ true → rate < 1025
unfolding is_rate
is_rate-le rate h e = ground arith

-- The test of `rtc_write` accepts a 32-bit pattern exactly if it is a power of 2 up to 1024.
pub is_rate_iff : (rate : ℕ) → rate < 2 ^ 32 → (is_rate rate ≡ true) ↔ IsFrequency rate
is_rate_iff rate h = (
  λ e. (
    log_of 11 rate,
    ground (arith, holds_at 1025 _ rate rate_table (is_rate-le rate h e)),
    ground (arith, holds_at 1025 _ rate rate_table (is_rate-le rate h e)),
  ),
  λ (e, l, q). rw q (holds_at 11 _ e powers_table (omega arith)),
)

-- For a request that is a 32-bit pattern, `rtc_write` takes a 4-byte request for a frequency that is allowed, sets it for the scheduled
-- terminal alone, and returns 0 with interrupts enabled. Any other request is refused with -1: it
-- changes nothing but the interrupt flag, which is left cleared.
pub rtc_write_lem :
    (fd : ℕ) (buf : Bytes) (nbytes : ℕ) (k : Kernel)
    → load32 buf 0 < 2 ^ 32
    → ((nbytes ≡ 4) × IsFrequency (load32 buf 0)
        → rtc_write fd buf nbytes k ≡ (
          0,
          sti (record k {
            rtc = record (k.rtc) {
              desired_virtualized_frequency =
                  update k.rtc.desired_virtualized_frequency k.schedule_idx (load32 buf 0);
            };
          }),
        ))
      × (¬ ((nbytes ≡ 4) × IsFrequency (load32 buf 0))
          → rtc_write fd buf nbytes k ≡ (minus_one, cli k))
unfolding rtc_write
rtc_write_lem fd buf nbytes k h =
    let iff = is_rate_iff (load32 buf 0) h in
    (
      λ (four, rate). let ok : is_rate (load32 buf 0) ≡ true = iff.1 rate in ground (arith, ok),
      λ refused. elim (ℕ_discrete nbytes 4) [
        | yes four ↦ elim (Bool-cases (is_rate (load32 buf 0))) [
          | inl ok ↦ absurd (refused (four, iff.0 ok))
          | inr bad ↦ ground (arith, bad)
        ]
        | no other ↦ ground arith
      ],
    )
