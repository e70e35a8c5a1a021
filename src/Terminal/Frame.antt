-- ===== src/Terminal/Frame.antt =====
-- What `terminal_write` leaves alone: the processes, the file system, and which of them run.
use os.Common.{by_branch}
use os.Common.{
  ℕ, zero, suc, ◌+◌, ◌≡◌, refl, ap, ◌∙◌, not, ◌&&◌, ◌||◌, some, arith, ◌==◌, if◌then◌else◌, is_neg,
  slt, Bytes,
}
use os.Machine.{slot, Kernel, scheduled}
use os.Terminal.{
  Progress, emit, background_putc, write_step, write_loop, write_prepare, write_start, write_finish,
  terminal_write,
}

pub record IsBeside (k k' : Kernel) : Type 0 where
  pub pcbs : k'.pcbs ≡ k.pcbs
  pub fs : k'.fs ≡ k.fs
  pub current : k'.process_num ≡ k.process_num
  pub turn : k'.schedule_idx ≡ k.schedule_idx
  pub owner : (t : ℕ) → (k'.terminal t).curr_pid ≡ (k.terminal t).curr_pid

IsBeside-refl : (k : Kernel) → IsBeside k k
IsBeside-refl k = record { pcbs = refl; fs = refl; current = refl; turn = refl; owner = λ t. refl }

IsBeside-trans : (k k' k'' : Kernel) → IsBeside k k' → IsBeside k' k'' → IsBeside k k''
IsBeside-trans k k' k'' a b = record {
  pcbs = b.pcbs ∙ a.pcbs;
  fs = b.fs ∙ a.fs;
  current = b.current ∙ a.current;
  turn = b.turn ∙ a.turn;
  owner = λ t. b.owner t ∙ a.owner t;
}

-- the scheduled process stays the same
pub scheduled-same : (k k' : Kernel) → IsBeside k k' → scheduled k' ≡ scheduled k
scheduled-same k k' b = ap slot (b.owner k'.schedule_idx ∙ ap (λ t. (k.terminal t).curr_pid) b.turn)

emit-IsBeside : (c : ℕ) (k : Kernel) → IsBeside k (emit c k)
unfolding emit background_putc
emit-IsBeside c k = record {
  pcbs = ground arith;
  fs = ground arith;
  current = ground arith;
  turn = ground arith;
  owner = λ t. ground arith;
}

write_step-IsBeside : (c : ℕ) (s : Progress) → IsBeside s.kernel (write_step c s).kernel
unfolding write_step
write_step-IsBeside c s =
    let full = s.line_ct == 80 && (not (c == 0) && not (c == b'\n')) in
    let k = s.kernel in
    let first = by_branch (IsBeside k) full (emit-IsBeside b'\n' k) (IsBeside-refl k) in
    by_branch (λ (s' : Progress). IsBeside k s'.kernel) (c == 0) first
      (IsBeside-trans k (if full then emit b'\n' k else k) _ first (emit-IsBeside c _))

write_loop-IsBeside :
    (rounds i : ℕ) (buf : Bytes) (s : Progress)
    → IsBeside s.kernel (write_loop rounds i buf s).kernel
unfolding write_loop
write_loop-IsBeside zero i buf s = IsBeside-refl s.kernel
write_loop-IsBeside (suc rounds) i buf s =
    IsBeside-trans s.kernel (write_step (buf i) s).kernel _ (write_step-IsBeside (buf i) s)
      (write_loop-IsBeside rounds (i + 1) buf (write_step (buf i) s))

write_prepare-IsBeside : (buf : Bytes) (k : Kernel) → IsBeside k (write_prepare buf k)
unfolding write_prepare
write_prepare-IsBeside buf k = record {
  pcbs = ground arith;
  fs = ground arith;
  current = ground arith;
  turn = ground arith;
  owner = λ t. ground arith;
}

write_finish-IsBeside : (buf : Bytes) (k : Kernel) → IsBeside k (write_finish buf k)
unfolding write_finish
write_finish-IsBeside buf k = record {
  pcbs = ground arith;
  fs = ground arith;
  current = ground arith;
  turn = ground arith;
  owner = λ t. ground arith;
}

pub terminal_write-IsBeside :
    (fd n : ℕ) (buf : Bytes) (k : Kernel) → IsBeside k (terminal_write fd (some buf) n k).1
unfolding terminal_write
terminal_write-IsBeside fd n buf k =
    let s = write_loop n 0 buf (write_start buf k) in
    let written =
      IsBeside-trans k (write_prepare buf k) s.kernel (write_prepare-IsBeside buf k)
        (write_loop-IsBeside n 0 buf (write_start buf k)) in
    by_branch (λ (r : ℕ × Kernel). IsBeside k r.1) (is_neg n || slt 1 fd) (IsBeside-refl k)
      (IsBeside-trans k s.kernel _ written (write_finish-IsBeside buf s.kernel))
