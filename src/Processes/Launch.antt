-- ===== src/Processes/Launch.antt =====
-- What `execute` does with a command: the search for a process number, and the process it enters.
use os.Processes.{read_data}
use os.Common.{◌⊎◌, inl, inr}
use os.Common.{
  ℕ, zero, suc, ◌+◌, ◌-◌, ◌^◌, ◌≤◌, ◌<◌, ◌≡◌, refl, sym, ap, ◌∙◌, ◌≢◌, true, false, arith,
  ℕ_discrete, ◌==◌, minus_one, add32, slt, Array, update,
}
use os.Machine.{stdin_fop, stdout_fop, Pcb, Kernel, slot, descriptors}
use os.Processes.{
  enters, pcb_of, with_pcb, with_tasks, queue, fresh, find_process, search_rounds, enqueue,
  start_process, load_process,
}
use os.Paging.{paging_execute}
use os.Paging.Entries.{is_present, large_base, paging_execute_lem}

-- the loop with any number of rounds
find_process-rounds :
    (fuel n : ℕ) (pcbs : Array Pcb)
    → n + fuel < 2 ^ 32
    → let found = find_process fuel n pcbs in
      (n ≤ found)
      × (found ≤ n + fuel)
      × (found < n + fuel → (pcbs (slot (found + 1))).active ≡ 0)
      × ((j : ℕ) → n ≤ j → j < found → (pcbs (slot (j + 1))).active ≢ 0)
unfolding find_process
find_process-rounds zero n pcbs small =
    (omega arith, omega arith, λ h. ground arith, λ j low high. ground arith)
find_process-rounds (suc fuel) n pcbs small =
    let up : add32 n 1 ≡ n + 1 = omega arith in
    let next = find_process-rounds fuel (n + 1) pcbs (omega arith) in
    elim (ℕ_discrete (pcbs (slot (n + 1))).active 0) [
      | yes e ↦
          let t : ((pcbs (slot (n + 1))).active == 0) ≡ true = ground arith in
          rw (find_process, up, t) (omega arith, omega arith, λ h. e, λ j low high. ground arith)
      | no e ↦
          let t : ((pcbs (slot (n + 1))).active == 0) ≡ false = ground arith in
          rw (find_process, up, t)
            (
              omega (arith, next.0),
              omega (arith, next.1),
              λ h. next.2 (omega arith),
              λ j low high. elim (ℕ_discrete j n) [
                | yes same ↦ rw same e
                | no other ↦ next.3 j (omega arith) high
              ],
            )
    ]

-- The loop that looks for a free process number, from a number of at most 512 on, ends at one of at
-- most 512: there its condition fails, since that number is 512 or the process behind it is not
-- active, and it has passed only numbers whose successor is the number of an active process.
pub find_process_lem :
    (n : ℕ) (pcbs : Array Pcb)
    → n ≤ 512
    → let found = find_process (search_rounds n) n pcbs in
      (n ≤ found)
      × (found ≤ 512)
      × ((found ≡ 512) ⊎ ((pcbs (slot (found + 1))).active ≡ 0))
      × ((j : ℕ) → n ≤ j → j < found → (pcbs (slot (j + 1))).active ≢ 0)
find_process_lem n pcbs h =
    let rounds : search_rounds n ≡ 512 - n = ground (arith, h) in
    let (low, high, free, passed) = find_process-rounds (512 - n) n pcbs (omega arith) in
    rw rounds (
      low,
      omega (arith, high),
      elim (ℕ_discrete (find_process (512 - n) n pcbs) 512) [
        | yes e ↦ inl e
        | no e ↦ inr (free (omega (arith, e, high)))
      ],
      passed,
    )

-- the process `n` in the terminal of its parent
abbrev joined : ℕ → Pcb → Kernel → Kernel
joined n p k =
    let tn = (pcb_of k p.parent_id).terminal_num in
    queue tn n n (with_pcb n (record p { terminal_num = tn }) k)

enqueue_lem :
    (n : ℕ) (p : Pcb) (k : Kernel)
    → 3 ≤ k.tasks.pit_count
    → k.tasks.pit_count < 2 ^ 31
    → p.is_base_shell ≢ 1
    → slot p.parent_id ≢ slot n
    → enqueue n p k ≡ joined n p k
unfolding enqueue
enqueue_lem n p k running small child apart =
    let t2 : (p.is_base_shell == 1) ≡ false = ground arith in
    let t3 : slt k.tasks.pit_count 3 ≡ false = ground arith in
    let t4 : (slot n == slot p.parent_id) ≡ false = ground arith in rw (enqueue, t2, t3, t4) refl

-- the process `n` as `execute` starts it from another process, before it joins the queue
abbrev started : ℕ → ℕ → ℕ → Kernel → Pcb
started is_shell n entry k = fresh n k.process_num entry is_shell k.tasks (pcb_of k n)

start_process-joined :
    (is_shell n entry_point : ℕ) (k : Kernel)
    → k.tasks.shell_halt_flag ≡ 0
    → 3 ≤ k.tasks.pit_count
    → k.tasks.pit_count < 2 ^ 31
    → (pcb_of k n).is_base_shell ≢ 1
    → (pcb_of k n).parent_id ≢ minus_one
    → slot k.process_num ≢ slot n
    → (kernel : Kernel) × (start_process is_shell n entry_point k ≡ enters entry_point kernel)
      × (kernel.process_num ≡ n)
      × (kernel.pcbs ≡ (joined n (started is_shell n entry_point k) k).pcbs)
      × (kernel.terminal ≡ (joined n (started is_shell n entry_point k) k).terminal)
      × (kernel.tasks.schedule_array
          ≡ (joined n (started is_shell n entry_point k) k).tasks.schedule_array)
      × (kernel.pages ≡ k.pages)
      × (kernel.programs ≡ k.programs)
unfolding start_process
start_process-joined is_shell n entry_point k going running small child marked apart =
    let t0 : (k.tasks.shell_halt_flag == 1) ≡ false = ground arith in
    let t1 : ((pcb_of k n).parent_id == minus_one) ≡ false = ground arith in
    let k0 = with_tasks (record (k.tasks) { shell_halt_flag = k.tasks.shell_halt_flag }) k in
    let p = started is_shell n entry_point k in
    let k1 = enqueue_lem n p k0 running small child apart in
    rw (start_process, t0, t1)
      (
        _,
        refl,
        refl,
        ap (λ g. g.pcbs) k1,
        ap (λ g. g.terminal) k1,
        ap (λ g. g.tasks.schedule_array) k1,
        ap (λ g. g.pages) k1,
        ap (λ g. g.programs) k1,
      )

-- The process `n` in the kernel `after`, as `execute` starts it from the kernel `before`: its parent
-- is the process that called, its descriptors 0 and 1 are open on the keyboard and the screen, it
-- has its parent's terminal and that terminal's turn, and the other PCBs are as before.
pub record IsStarted (n : ℕ) (before after : Kernel) : Type 0 where
  pub current : after.process_num ≡ n
  pub pid : (pcb_of after n).pid ≡ n
  pub parent : (pcb_of after n).parent_id ≡ before.process_num
  pub active : (pcb_of after n).active ≡ 1
  pub reads : (descriptors after (slot n) 0).operations ≡ stdin_fop
  pub writes : (descriptors after (slot n) 1).operations ≡ stdout_fop
  pub in_use :
      ((descriptors after (slot n) 0).flags ≡ 1) × ((descriptors after (slot n) 1).flags ≡ 1)
  pub place : (pcb_of after n).terminal_num ≡ (pcb_of before before.process_num).terminal_num
  pub turn : after.tasks.schedule_array (pcb_of before before.process_num).terminal_num ≡ n
  pub owner : (after.terminal (pcb_of before before.process_num).terminal_num).curr_pid ≡ n
  pub others : (q : ℕ) → q ≢ slot n → after.pcbs q ≡ before.pcbs q

-- It speaks of the PCBs and the current process of the kernel before, and of nothing else there.
pub IsStarted-before :
    {n : ℕ} (b b' after : Kernel)
    → b'.process_num ≡ b.process_num
    → b'.pcbs ≡ b.pcbs
    → IsStarted n b after
    → IsStarted n b' after
IsStarted-before {n} b b' after current pcbs s =
    let same = ap (λ f. f (slot b.process_num)) pcbs in
    let place : (pcb_of b' b'.process_num).terminal_num ≡ (pcb_of b b.process_num).terminal_num =
      ap (λ i. (b'.pcbs (slot i)).terminal_num) current ∙ ap (λ p. p.terminal_num) same in
    record {
      current = s.current;
      pid = s.pid;
      parent = s.parent ∙ sym current;
      active = s.active;
      reads = s.reads;
      writes = s.writes;
      in_use = s.in_use;
      place = s.place ∙ sym place;
      turn = rw place s.turn;
      owner = rw place s.owner;
      others = λ q other. s.others q other ∙ sym (ap (λ f. f q) pcbs);
    }

own : (n : ℕ) → (n == n) ≡ true
own n = ground arith

joined-IsStarted :
    (is_shell n entry_point : ℕ) (before after : Kernel)
    → after.process_num ≡ n
    → after.pcbs ≡ (joined n (started is_shell n entry_point before) before).pcbs
    → after.terminal ≡ (joined n (started is_shell n entry_point before) before).terminal
    → after.tasks.schedule_array
      ≡ (joined n (started is_shell n entry_point before) before).tasks.schedule_array
    → IsStarted n before after
joined-IsStarted is_shell n entry_point before after current pcbs terminal turns =
    let here = (pcb_of before before.process_num).terminal_num in
    let p = record (started is_shell n entry_point before) { terminal_num = here } in
    let mine : pcb_of after n ≡ p = ap (λ f. f (slot n)) pcbs ∙ rw (own (slot n)) refl in
    record {
      current = current;
      pid = ap (λ q. q.pid) mine;
      parent = ap (λ q. q.parent_id) mine;
      active = ap (λ q. q.active) mine;
      reads = ap (λ q. (q.file_descriptor 0).operations) mine;
      writes = ap (λ q. (q.file_descriptor 1).operations) mine;
      in_use =
          (ap (λ q. (q.file_descriptor 0).flags) mine, ap (λ q. (q.file_descriptor 1).flags) mine);
      place = ap (λ q. q.terminal_num) mine;
      turn = ap (λ f. f here) turns ∙ rw (own here) refl;
      owner = ap (λ f. (f here).curr_pid) terminal ∙ rw (own here) refl;
      others =
          λ q other. let t : (slot n == q) ≡ false = ground arith in ap (λ f. f q) pcbs ∙ rw t refl;
    }

-- What `execute` does behind the checks of the file when the search ends before 512 and the process
-- it finds is not marked as a base shell: the program starts at `entry_point` in that process, which
-- was not active; 128 MB is mapped to the process's page of memory, and that page holds what the
-- kernel reads of the file.
pub load_process_lem :
    (is_shell inode entry_point : ℕ) (k : Kernel)
    → k.process_num ≤ 512
    → find_process (512 - k.process_num) k.process_num k.pcbs ≢ 512
    → k.tasks.shell_halt_flag ≡ 0
    → 3 ≤ k.tasks.pit_count
    → k.tasks.pit_count < 2 ^ 31
    → (pcb_of k (find_process (512 - k.process_num) k.process_num k.pcbs + 1)).is_base_shell ≢ 1
    → (pcb_of k (find_process (512 - k.process_num) k.process_num k.pcbs + 1)).parent_id ≢ minus_one
    → let n = find_process (512 - k.process_num) k.process_num k.pcbs + 1 in
      (after : Kernel) × (load_process is_shell inode entry_point k ≡ enters entry_point after)
      × ((pcb_of k n).active ≡ 0)
      × IsStarted n k after
      × (is_present (after.pages.page_dir 32) ≡ true)
      × (large_base (after.pages.page_dir 32) ≡ n + 2)
      × (after.programs (n + 2)
          ≡ (read_data k.fs inode 0 (k.programs (n + 2)) (k.fs.inodes inode).length).1)
unfolding load_process
load_process_lem is_shell inode entry_point k low more going running small child marked =
    let found = find_process-rounds (512 - k.process_num) k.process_num k.pcbs (omega arith) in
    let rounds : search_rounds k.process_num ≡ 512 - k.process_num = ground arith in
    let up : add32 (find_process (512 - k.process_num) k.process_num k.pcbs) 1
        ≡ find_process (512 - k.process_num) k.process_num k.pcbs + 1 =
      omega (arith, found.1) in
    let n = find_process (512 - k.process_num) k.process_num k.pcbs + 1 in
    let t : (find_process (512 - k.process_num) k.process_num k.pcbs == 512) ≡ false =
      ground arith in
    let apart : slot k.process_num ≢ slot n = omega (arith, found.0, found.1) in
    let mapped = paging_execute_lem n k.pages (omega (arith, found.0, found.1)) in
    let loaded = read_data k.fs inode 0 (k.programs (n + 2)) (k.fs.inodes inode).length in
    let k0 = record k {
      pages = paging_execute n k.pages;
      programs = update k.programs (n + 2) loaded.1;
    } in
    let start =
      start_process-joined is_shell n entry_point k0 going running small child marked apart in
    rw (load_process, rounds, up, t, mapped.2)
      (
        start.0,
        start.1,
        found.2 (omega (arith, found.0, found.1)),
        joined-IsStarted is_shell n entry_point k start.0 start.2 start.3 start.4 start.5,
        ap (λ g. is_present (g.page_dir 32)) start.6 ∙ mapped.0,
        ap (λ g. large_base (g.page_dir 32)) start.6 ∙ mapped.2,
        ap (λ f. f (n + 2)) start.7 ∙ rw (own (n + 2)) refl,
      )
