-- ===== src/Rtc/Tick.antt =====
-- The clock interrupt: a reader is let go on time, whatever turns the terminals take.
use os.Common.{List, [], ◌∷◌, ◌++◌, length, refl, Bytes, dec_lt, ◌==◌, false}
use os.Common.{ℕ, ◌+◌, ◌-◌, ◌*◌, ◌/◌, ◌%◌, ◌^◌, ◌≤◌, ◌<◌, ◌≡◌, ◌⊎◌, inl, inr, arith}
use os.Machine.{Rtc, Kernel, returns}
use os.Rtc.{tick, rtc_read}

-- the handler's part that counts, once for each interrupt, each with the terminal then scheduled
unfoldable pub ticks : List ℕ → Rtc → Rtc
ticks [] r = r
ticks (s ∷ turns) r = ticks turns (tick s r)

-- after so many counts of its own a terminal's flag is cleared
abbrev pub period : ℕ → Rtc → ℕ
period s r = 1024 / (r.desired_virtualized_frequency s * 3)

pub record IsRunning (s : ℕ) (r : Rtc) : Type 0 where
  pub terminal : s < 3
  pub turn : r.rtc_idx < 3
  pub low : 0 < r.desired_virtualized_frequency s
  pub high : r.desired_virtualized_frequency s ≤ 1024

-- the interrupts that may still pass
abbrev pub remaining : ℕ → Rtc → ℕ
remaining s r = 3 * (period s r - r.interrupt_count s) + (s + 3 - r.rtc_idx) % 3

tick-IsRunning :
    (s t : ℕ) (r : Rtc)
    → IsRunning s r
    → r.interrupt_count s < 2 ^ 32 - 1
    → IsRunning s (tick t r) × ((tick t r).interrupt_count s ≤ r.interrupt_count s + 1)
unfolding tick
tick-IsRunning s t r v few = (
  record {
    terminal = v.terminal;
    turn = ground (arith, v.turn);
    low = ground (arith, v.low);
    high = ground (arith, v.high);
  },
  ground arith,
)

-- An interrupt in the turn of terminal `t` clears the flag of `s`, or brings the count nearer.
tick-nearer :
    (s t : ℕ) (r : Rtc)
    → IsRunning s r
    → r.interrupt_count s < 2 ^ 32 - 1
    → r.interrupt_count s < period s r
    → ((tick t r).interrupt_flag s ≡ 0)
      ⊎ (period s (tick t r) ≤ (tick t r).interrupt_count s)
      ⊎ (remaining s (tick t r) < remaining s r)
unfolding tick
tick-nearer s t r v few low = ground arith

-- A count that is reached stays so until the terminal's turn.
tick-reached :
    (s t : ℕ) (r : Rtc)
    → IsRunning s r
    → r.interrupt_count s < 2 ^ 32 - 1
    → period s r ≤ r.interrupt_count s
    → ((tick t r).interrupt_flag s ≡ 0) ⊎ (period s (tick t r) ≤ (tick t r).interrupt_count s)
unfolding tick
tick-reached s t r v few high = ground arith

tick-clears :
    (s : ℕ) (r : Rtc)
    → IsRunning s r
    → r.interrupt_count s < 2 ^ 32 - 1
    → period s r ≤ r.interrupt_count s
    → (tick s r).interrupt_flag s ≡ 0
unfolding tick
tick-clears s r v few high = ground arith

tick-flag : (s t : ℕ) (r : Rtc) → r.interrupt_flag s ≡ 0 → (tick t r).interrupt_flag s ≡ 0
unfolding tick
tick-flag s t r h = ground arith

ticks-flag :
    (turns : List ℕ) (s : ℕ) (r : Rtc)
    → r.interrupt_flag s ≡ 0
    → (ticks turns r).interrupt_flag s ≡ 0
unfolding ticks
ticks-flag [] s r h = h
ticks-flag (t ∷ turns) s r h = ticks-flag turns s (tick t r) (tick-flag s t r h)

ticks-flagged :
    (turns : List ℕ) (s : ℕ) (r : Rtc)
    → IsRunning s r
    → r.interrupt_count s + length turns < 2 ^ 32 - 1
    → (period s r ≤ r.interrupt_count s) ⊎ (remaining s r ≤ length turns)
    → (ticks (turns ++ s ∷ []) r).interrupt_flag s ≡ 0
unfolding ticks
ticks-flagged [] s r v few h =
    tick-clears s r v (omega (arith, few))
      (elim h [ inl high ↦ high | inr near ↦ omega (arith, near) ])
ticks-flagged (t ∷ turns) s r v few h =
    let (next, one) = tick-IsRunning s t r v (omega (arith, few)) in
    let go = ticks-flagged turns s (tick t r) next (omega (arith, few, one)) in
    let keep = ticks-flag (turns ++ s ∷ []) s (tick t r) in
    elim (dec_lt (r.interrupt_count s) (period s r)) [
      | yes low ↦ elim (tick-nearer s t r v (omega (arith, few)) low) [
        | inl now ↦ keep now
        | inr (inl high) ↦ go (inl high)
        | inr (inr nearer) ↦ go (
            inr (elim h [
              | inl high ↦ absurd (omega (arith, high, low))
              | inr near ↦ omega (arith, near, nearer)
            ]))
      ]
      | no high ↦ elim (tick-reached s t r v (omega (arith, few)) (omega (arith, high))) [
        | inl now ↦ keep now
        | inr still ↦ go (inl still)
      ]
    ]

rtc_read-returns :
    (fd nbytes : ℕ) (buf : Bytes) (k : Kernel)
    → k.rtc.interrupt_flag k.schedule_idx ≡ 0
    → (k' : Kernel) × (rtc_read fd buf nbytes k ≡ returns 0 buf k')
      × (k'.rtc.interrupt_flag k.schedule_idx ≡ 1)
unfolding rtc_read
rtc_read-returns fd nbytes buf k cleared =
    let t : (k.rtc.interrupt_flag k.schedule_idx == 1) ≡ false = ground (arith, cleared) in
    rw (rtc_read, t) (_, refl, ground arith)

-- A terminal with a frequency from 1 to 1024 and `remaining` more interrupts of the clock, in any
-- order of the terminals' turns, and then one in its own turn: its flag is cleared, and `rtc_read` in
-- its turn returns 0 at once and raises the flag again. The count of the terminal is to stay below
-- 2 ^ 32 - 1 meanwhile.
pub ticks-clears :
    (turns : List ℕ) (s : ℕ) (r : Rtc) (fd nbytes : ℕ) (buf : Bytes) (k : Kernel)
    → IsRunning s r
    → r.interrupt_count s + length turns < 2 ^ 32 - 1
    → remaining s r ≤ length turns
    → let r' = ticks (turns ++ s ∷ []) r in
      (r'.interrupt_flag s ≡ 0)
      × (k' : Kernel) × (rtc_read fd buf nbytes (record k { rtc = r'; schedule_idx = s })
          ≡ returns 0 buf k')
      × (k'.rtc.interrupt_flag s ≡ 1)
ticks-clears turns s r fd nbytes buf k v few near =
    let cleared = ticks-flagged turns s r v few (inr near) in
    let k1 = record k { rtc = ticks (turns ++ s ∷ []) r; schedule_idx = s } in
    let (k', runs, up) = rtc_read-returns fd nbytes buf k1 cleared in (cleared, k', runs, up)
