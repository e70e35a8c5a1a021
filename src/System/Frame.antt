-- ===== src/System/Frame.antt =====
-- The parts of the kernel that most operations leave alone.
use os.Common.{by_branch}
use os.Common.{
  ℕ, zero, suc, ◌+◌, ◌≡◌, refl, ◌∙◌, Bool, not, ◌&&◌, ◌||◌, some, arith, ◌==◌, if◌then◌else◌,
  is_neg, slt, Array, Bytes,
}
use os.Machine.{FileDescriptor, Kernel}
use os.Machine.{Console, with_descriptors}
use os.Terminal.{
  on_console, Progress, emit, background_putc, write_step, write_loop, write_prepare, write_start,
  write_finish, terminal_write,
}

-- what a kernel keeps of another: all that its soundness speaks of
pub record Keeps (k k' : Kernel) : Type 0 where
  pub lines : (t : ℕ) → (k'.terminal t).buffer_ct ≡ (k.terminal t).buffer_ct
  pub shown : k'.terminal_num ≡ k.terminal_num
  pub turn : k'.schedule_idx ≡ k.schedule_idx
  pub all_run : k'.tasks.pit_count ≡ k.tasks.pit_count
  pub master : k'.hardware.master_mask ≡ k.hardware.master_mask
  pub slave : k'.hardware.slave_mask ≡ k.hardware.slave_mask
  pub rtc : k'.rtc ≡ k.rtc

pub Keeps-refl : (k : Kernel) → Keeps k k
Keeps-refl k = record {
  lines = λ t. refl;
  shown = refl;
  turn = refl;
  all_run = refl;
  master = refl;
  slave = refl;
  rtc = refl;
}

pub Keeps-trans : (k k' k'' : Kernel) → Keeps k k' → Keeps k' k'' → Keeps k k''
Keeps-trans k k' k'' a b = record {
  lines = λ t. b.lines t ∙ a.lines t;
  shown = b.shown ∙ a.shown;
  turn = b.turn ∙ a.turn;
  all_run = b.all_run ∙ a.all_run;
  master = b.master ∙ a.master;
  slave = b.slave ∙ a.slave;
  rtc = b.rtc ∙ a.rtc;
}

-- the interrupt flag is no part of it
pub flag_set :
    (k : Kernel) (b : Bool)
    → Keeps k (record k { hardware = record (k.hardware) { interrupts = b } })
flag_set k b = record {
  lines = λ t. refl;
  shown = refl;
  turn = refl;
  all_run = refl;
  master = refl;
  slave = refl;
  rtc = refl;
}

pub shows : (f : Console → Console) (k : Kernel) → Keeps k (on_console f k)
shows f k = record {
  lines = λ t. refl;
  shown = refl;
  turn = refl;
  all_run = refl;
  master = refl;
  slave = refl;
  rtc = refl;
}

pub redescribed :
    (k : Kernel) (p : ℕ) (fds : Array FileDescriptor) → Keeps k (with_descriptors k p fds)
redescribed k p fds = record {
  lines = λ t. refl;
  shown = refl;
  turn = refl;
  all_run = refl;
  master = refl;
  slave = refl;
  rtc = refl;
}

emit-Keeps : (c : ℕ) (k : Kernel) → Keeps k (emit c k)
unfolding emit background_putc
emit-Keeps c k = record {
  lines = λ t. ground arith;
  shown = ground arith;
  turn = ground arith;
  all_run = ground arith;
  master = ground arith;
  slave = ground arith;
  rtc = ground arith;
}

write_step-Keeps : (c : ℕ) (s : Progress) → Keeps s.kernel (write_step c s).kernel
unfolding write_step
write_step-Keeps c s =
    let full = s.line_ct == 80 && (not (c == 0) && not (c == b'\n')) in
    let first = by_branch (Keeps s.kernel) full (emit-Keeps b'\n' s.kernel) (Keeps-refl s.kernel) in
    by_branch (λ (s' : Progress). Keeps s.kernel s'.kernel) (c == 0) first
      (Keeps-trans s.kernel (if full then emit b'\n' s.kernel else s.kernel) _ first
        (emit-Keeps c _))

write_loop-Keeps :
    (rounds i : ℕ) (buf : Bytes) (s : Progress) → Keeps s.kernel (write_loop rounds i buf s).kernel
unfolding write_loop
write_loop-Keeps zero i buf s = Keeps-refl s.kernel
write_loop-Keeps (suc rounds) i buf s =
    Keeps-trans s.kernel (write_step (buf i) s).kernel _ (write_step-Keeps (buf i) s)
      (write_loop-Keeps rounds (i + 1) buf (write_step (buf i) s))

write_prepare-Keeps : (buf : Bytes) (k : Kernel) → Keeps k (write_prepare buf k)
unfolding write_prepare
write_prepare-Keeps buf k = record {
  lines = λ t. ground arith;
  shown = ground arith;
  turn = ground arith;
  all_run = ground arith;
  master = ground arith;
  slave = ground arith;
  rtc = ground arith;
}

write_finish-Keeps : (buf : Bytes) (k : Kernel) → Keeps k (write_finish buf k)
unfolding write_finish
write_finish-Keeps buf k = record {
  lines = λ t. ground arith;
  shown = ground arith;
  turn = ground arith;
  all_run = ground arith;
  master = ground arith;
  slave = ground arith;
  rtc = ground arith;
}

pub terminal_write-Keeps :
    (fd n : ℕ) (buf : Bytes) (k : Kernel) → Keeps k (terminal_write fd (some buf) n k).1
unfolding terminal_write
terminal_write-Keeps fd n buf k =
    let s = write_loop n 0 buf (write_start buf k) in
    let written =
      Keeps-trans k (write_prepare buf k) s.kernel (write_prepare-Keeps buf k)
        (write_loop-Keeps n 0 buf (write_start buf k)) in
    by_branch (λ (r : ℕ × Kernel). Keeps k r.1) (is_neg n || slt 1 fd) (Keeps-refl k)
      (Keeps-trans k s.kernel _ written (write_finish-Keeps buf s.kernel))
