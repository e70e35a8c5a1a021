-- ===== src/Processes/Halt.antt =====
-- What the parent finds when a process halts.
use os.Common.{sym}
use os.Machine.{Pcb}
use os.Common.{
  ℕ, zero, suc, ◌+◌, ◌<◌, ◌≡◌, refl, ap, ◌∙◌, ◌≢◌, true, false, Option, none, some, arith,
  ℕ_discrete, ◌==◌, sub32,
}
use os.Machine.{FileOps, no_fop, stdin_fop, stdout_fop, Tasks, Kernel, slot, descriptors}
use os.Descriptors.{file_close, directory_close}
use os.Rtc.{rtc_close}
use os.Terminal.{terminal_close}
use os.Syscalls.{close_of, invalid_terminal_write}
use os.Paging.{disable_child_page}
use os.Paging.Entries.{large_base, is_present, paging_execute_lem}
use os.Processes.{
  Outcome, returned, left, enters, pcb_of, close_all, resume_parent, leave_program, halt,
}

-- the two PCBs agree in all that a halt reads of one, its descriptors apart
abbrev IsSameProcess : Pcb → Pcb → Type 0
IsSameProcess p p' =
    (p'.parent_id ≡ p.parent_id)
    × (p'.pid ≡ p.pid)
    × (p'.terminal_num ≡ p.terminal_num)
    × (p'.saved_parents_esp ≡ p.saved_parents_esp)
    × (p'.saved_parents_ebp ≡ p.saved_parents_ebp)

IsSameProcess-trans : (p q r : Pcb) → IsSameProcess p q → IsSameProcess q r → IsSameProcess p r
IsSameProcess-trans p q r (a, b, c, d, e) (a', b', c', d', e') =
    (a' ∙ a, b' ∙ b, c' ∙ c, d' ∙ d, e' ∙ e)

-- what the closing of descriptors leaves alone
abbrev IsFrame : Kernel → Kernel → Type 0
IsFrame k k' =
    (k'.process_num ≡ k.process_num)
    × (k'.pages ≡ k.pages)
    × ((q : ℕ) → IsSameProcess (k.pcbs q) (k'.pcbs q))

close_of-IsFrame : (ops : FileOps) (fd : ℕ) (k : Kernel) → IsFrame k (close_of ops fd k).1
unfolding close_of terminal_close rtc_close file_close directory_close invalid_terminal_write
close_of-IsFrame no_fop fd k = (refl, refl, λ q. (refl, refl, refl, refl, refl))
close_of-IsFrame stdin_fop fd k = (refl, refl, λ q. (refl, refl, refl, refl, refl))
close_of-IsFrame stdout_fop fd k = (refl, refl, λ q. (refl, refl, refl, refl, refl))
close_of-IsFrame _ fd k = (ground arith, ground arith, λ q. ground arith)

close_all-IsFrame : (rounds i p : ℕ) (k : Kernel) → IsFrame k (close_all rounds i p k)
unfolding close_all
close_all-IsFrame zero i p k = (refl, refl, λ q. (refl, refl, refl, refl, refl))
close_all-IsFrame (suc rounds) i p k =
    let one = close_of-IsFrame (descriptors k p i).operations i k in
    elim (ℕ_discrete (descriptors k p i).flags 1) [
      | yes e ↦
          let t : ((descriptors k p i).flags == 1) ≡ true = ground arith in
          rw (close_all, t)
            (let k1 = (close_of (descriptors k p i).operations i k).1 in
              let rest = close_all-IsFrame rounds (i + 1) p k1 in
              (
                rest.0 ∙ one.0,
                rest.1 ∙ one.1,
                λ q.
                    IsSameProcess-trans (k.pcbs q) (k1.pcbs q)
                      ((close_all rounds (i + 1) p k1).pcbs q) (one.2 q) (rest.2 q),
              ))
      | no e ↦
          let t : ((descriptors k p i).flags == 1) ≡ false = ground arith in
          rw (close_all, t) (close_all-IsFrame rounds (i + 1) p k)
    ]

-- The parent `parent` goes on where the process `child` stood: it has that process's place in the
-- queue of its terminal, and the stack pointers that were saved when the child was started.
pub record IsResumed (child parent : Pcb) (k : Kernel) : Type 0 where
  pub turn : k.tasks.schedule_array child.terminal_num ≡ parent.pid
  pub owner : (k.terminal child.terminal_num).curr_pid ≡ child.parent_id
  pub stack : k.tasks.esp ≡ child.saved_parents_esp
  pub frame : k.tasks.ebp ≡ child.saved_parents_ebp

-- It speaks of the two processes, and not of their descriptors.
IsResumed-same :
    (child child' parent parent' : Pcb) (k : Kernel)
    → IsSameProcess child child'
    → IsSameProcess parent parent'
    → IsResumed child' parent' k
    → IsResumed child parent k
IsResumed-same child child' parent parent' k (above, _, place, esp, ebp) (_, pid, _, _, _) r =
    record {
      turn = ap k.tasks.schedule_array (sym place) ∙ r.turn ∙ pid;
      owner = ap (λ t. (k.terminal t).curr_pid) (sym place) ∙ r.owner ∙ above;
      stack = r.stack ∙ esp;
      frame = r.frame ∙ ebp;
    }

resume_parent_lem :
    (k : Kernel) (n parent : ℕ)
    → k.process_num ≡ n
    → (pcb_of k n).parent_id ≡ parent
    → slot parent ≢ slot n
    → ((resume_parent k).process_num ≡ parent)
      × ((resume_parent k).pages ≡ k.pages)
      × ((pcb_of (resume_parent k) n).active ≡ 0)
      × ((pcb_of (resume_parent k) parent).active ≡ 1)
      × IsResumed (pcb_of k n) (pcb_of k parent) (resume_parent k)
unfolding resume_parent
resume_parent_lem k n parent current owner apart =
    let found : (pcb_of k k.process_num).parent_id ≡ parent = rw (current) owner in
    (
      found,
      refl,
      ground (arith, found),
      ground (arith, found),
      record {
        turn = ground (arith, found, current);
        owner = ground (arith, found, current);
        stack = ground (arith, current);
        frame = ground (arith, current);
      },
    )

-- The page of the parent is mapped when the program's loop of closings starts.
leave_program_lem :
    (parent : ℕ) (t : Tasks) (k : Kernel)
    → parent < 1022
    → k.process_num < 1000
    → k.process_num ≢ 29
    → (is_present ((leave_program parent t k).pages.page_dir 32) ≡ true)
      × (large_base ((leave_program parent t k).pages.page_dir 32) ≡ parent + 2)
unfolding leave_program disable_child_page
leave_program_lem parent t k small low usual =
    let mapped = paging_execute_lem parent k.pages small in
    (ground (arith, mapped.0), ground (arith, mapped.2))

-- the kernel that an outcome ends with
abbrev pub last_kernel : Outcome → Kernel
last_kernel (returned r k) = k
last_kernel (left k) = k
last_kernel (enters entry k) = k

abbrev pub returned_status : Outcome → Option ℕ
returned_status (returned r k) = some r
returned_status (left k) = none
returned_status (enters entry k) = none

-- A process `n` that is not a base shell and has another process as parent halts: `execute` in the
-- parent returns the status, the parent is the current process and is active, `n` is not active,
-- 128 MB is mapped to the parent's page of memory, the parent has the place of `n` in the queue of
-- the terminal of `n` and is that terminal's process, and the stack pointers are those that `n` has
-- of its parent, if the parent is below 1022 and `n` is below 1000 and is not 29.
pub halt_lem :
    (status garbage : ℕ) (k : Kernel)
    → (pcb_of k k.process_num).is_base_shell ≡ 0
    → slot (pcb_of k k.process_num).parent_id ≢ slot k.process_num
    → (pcb_of k k.process_num).parent_id < 1022
    → k.process_num < 1000
    → k.process_num ≢ 29
    → let parent = (pcb_of k k.process_num).parent_id in
      let end = last_kernel (halt status garbage k) in
      (returned_status (halt status garbage k) ≡ some status)
      × (end.process_num ≡ parent)
      × ((pcb_of end parent).active ≡ 1)
      × ((pcb_of end k.process_num).active ≡ 0)
      × (is_present (end.pages.page_dir 32) ≡ true)
      × (large_base (end.pages.page_dir 32) ≡ parent + 2)
      × IsResumed (pcb_of k k.process_num) (pcb_of k parent) end
unfolding halt leave_program
halt_lem status garbage k child apart small low usual =
    let n = k.process_num in
    let parent = (pcb_of k n).parent_id in
    let t = record (k.tasks) {
      process_count = sub32 k.tasks.process_count 1;
      saved_status_num = status;
    } in
    let k0 = leave_program parent t k in
    let page = leave_program_lem parent t k small low usual in
    let frame = close_all-IsFrame 7 0 (slot n) k0 in
    let k1 = close_all 7 0 (slot n) k0 in
    let back = resume_parent_lem k1 n parent frame.0 (frame.2 (slot n)).0 apart in
    let base : ((pcb_of k n).is_base_shell == 0) ≡ true = ground arith in
    let pages = back.1 ∙ frame.1 in
    rw (halt, base)
      (
        refl,
        back.0,
        back.3,
        back.2,
        ap (λ g. is_present (g.page_dir 32)) pages ∙ page.0,
        ap (λ g. large_base (g.page_dir 32)) pages ∙ page.1,
        IsResumed-same (pcb_of k n) (pcb_of k1 n) (pcb_of k parent) (pcb_of k1 parent)
            (resume_parent k1) (frame.2 (slot n)) (frame.2 (slot parent)) back.4,
      )
