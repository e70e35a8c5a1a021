-- ===== src/Terminal/Output.antt =====
-- `terminal_write`: what it counts, and where the characters go.
use os.Common.{
  ℕ, zero, suc, ◌+◌, ◌^◌, ◌≤◌, ◌<◌, ◌≡◌, refl, none, some, List, [], ◌∷◌, arith, ◌==◌,
  if◌then◌else◌, minus_one, Bytes, length,
}
use os.Machine.{Kernel}
use os.Terminal.{Progress, write_start, write_step, write_loop, terminal_write}

-- the bytes from index `i` on that are not NUL, among `n`
unfoldable pub printed : ℕ → ℕ → Bytes → List ℕ
printed zero i buf = []
printed (suc n) i buf =
    let rest = printed n (i + 1) buf in if buf i == 0 then rest else buf i ∷ rest

write_step-count :
    (c : ℕ) (s : Progress)
    → (write_step c s).bytes_written ≡ s.bytes_written + (if c == 0 then 0 else 1)
unfolding write_step
write_step-count c s = ground arith

write_loop-count :
    (n i : ℕ) (buf : Bytes) (s : Progress)
    → (write_loop n i buf s).bytes_written ≡ s.bytes_written + length (printed n i buf)
unfolding write_loop printed
write_loop-count zero i buf s = omega arith
write_loop-count (suc n) i buf s =
    ground
      (arith, write_step-count (buf i) s, write_loop-count n (i + 1) buf (write_step (buf i) s))

-- For `fd` 0 or 1, `terminal_write` with a count that is not negative returns the number of bytes
-- in that part of the buffer that are not NUL, which are those it prints; a negative count and a
-- NULL pointer are refused with -1, and nothing changes.
pub terminal_write_count :
    (fd : ℕ) (buf : Bytes) (n : ℕ) (k : Kernel)
    → fd ≤ 1
    → (n < 2 ^ 31 → (terminal_write fd (some buf) n k).0 ≡ length (printed n 0 buf))
      × (2 ^ 31 ≤ n → terminal_write fd (some buf) n k ≡ (minus_one, k))
      × (terminal_write fd none n k ≡ (minus_one, k))
unfolding terminal_write
terminal_write_count fd buf n k hf =
    (λ hn. ground (arith, write_loop-count n 0 buf (write_start buf k)), λ hn. ground arith, refl)
