-- ===== src/System/Tables/Programs.antt =====
-- The start, the end and the switch of programs leave every open descriptor with a table.
use os.Common.{
  ℕ, zero, suc, ◌+◌, ◌≡◌, refl, not, ◌&&◌, none, some, List, ◌==◌, if◌then◌else◌, minus_one, slt,
  Array, Bytes, update, codes,
}
use os.Machine.{FileDescriptor, Pcb, Kernel, slot, descriptors, cli}
use os.Files.{read_data, read_dentry_by_name, load32}
use os.Descriptors.{blank}
use os.Console.{puts}
use os.Terminal.{on_console, switch_terminals, switch_video_mem}
use os.Syscalls.{close_of, get_file_name, is_executable}
use os.Processes.{
  Outcome, returned, left, enters, pcb_of, with_pcb, find_process, search_rounds, standard,
  standard_output, enqueue, start_process, load_process, find_program, is_named, execute, close_all,
  resume_parent, leave_program, halt,
}
use os.Processes.Halt.{last_kernel}
use os.Scheduler.{launched, save_registers, finish_launch, restore, switch_process, scheduler}
use os.Interrupts.{sti_after, pit_handler, exception_name, exc_handler}
use os.Common.{by_branch}
use os.System.Tables.{IsTyped, HasTables, update-IsTyped, update-HasTables, close_of-HasTables}

enqueue-HasTables :
    (n : ℕ) (p : Pcb) (k : Kernel)
    → IsTyped p.file_descriptor
    → HasTables k.pcbs
    → HasTables (enqueue n p k).pcbs
unfolding enqueue
enqueue-HasTables n p k typed h =
    by_branch (λ (k' : Kernel). HasTables k'.pcbs) (slt k.tasks.pit_count 3)
      (update-HasTables k.pcbs (slot n) _ h typed) (update-HasTables k.pcbs (slot n) _ h typed)

-- the two descriptors of a process that `execute` starts
standard-IsTyped :
    (fds : Array FileDescriptor)
    → IsTyped fds
    → IsTyped (update (update fds 0 (standard (fds 0))) 1 (standard_output (fds 1)))
standard-IsTyped fds h =
    update-IsTyped (update fds 0 (standard (fds 0))) 1 _ (update-IsTyped fds 0 _ h refl) refl

start_process-HasTables :
    (is_shell n entry_point : ℕ) (k : Kernel)
    → HasTables k.pcbs
    → HasTables (last_kernel (start_process is_shell n entry_point k)).pcbs
unfolding start_process
start_process-HasTables is_shell n entry_point k h =
    enqueue-HasTables _ _ _ (standard-IsTyped _ (h.of _)) h

load_process-HasTables :
    (is_shell inode entry_point : ℕ) (k : Kernel)
    → HasTables k.pcbs
    → HasTables (last_kernel (load_process is_shell inode entry_point k)).pcbs
unfolding load_process
load_process-HasTables is_shell inode entry_point k h =
    by_branch (λ (o : Outcome). HasTables (last_kernel o).pcbs)
      (find_process (search_rounds k.process_num) k.process_num k.pcbs == 512) h
      (start_process-HasTables is_shell _ entry_point _ h)

find_program-HasTables :
    (is_shell : ℕ) (file_name : List ℕ) (garbage : Bytes) (k : Kernel)
    → HasTables k.pcbs
    → HasTables (last_kernel (find_program is_shell file_name garbage k)).pcbs
unfolding find_program
find_program-HasTables is_shell file_name garbage k h =
    let P = λ (o : Outcome). HasTables (last_kernel o).pcbs in
    let entry = read_dentry_by_name k.fs file_name blank in
    let buffer = (read_data k.fs entry.1.inode_num 0 garbage 40).1 in
    by_branch P (entry.0 == minus_one) h (
      by_branch P (is_executable buffer == 0)
        (load_process-HasTables is_shell entry.1.inode_num (load32 buffer 24) k h) h)

pub execute-HasTables :
    (command : List ℕ) (garbage : Bytes) (k : Kernel)
    → HasTables k.pcbs
    → HasTables (last_kernel (execute command garbage k)).pcbs
unfolding execute
execute-HasTables command garbage k h =
    let file_name = get_file_name command in
    let shell = is_named file_name (codes "shell") 5 in
    by_branch (λ (o : Outcome). HasTables (last_kernel o).pcbs)
      (shell && not (slt k.tasks.shell_process_count 6)) h
      (find_program-HasTables (if shell then 1 else 0) file_name garbage _ h)

close_all-HasTables :
    (rounds i p : ℕ) (k : Kernel) → HasTables k.pcbs → HasTables (close_all rounds i p k).pcbs
unfolding close_all
close_all-HasTables zero i p k h = h
close_all-HasTables (suc rounds) i p k h =
    let d = descriptors k p i in
    let k1 = (close_of d.operations i k).1 in
    close_all-HasTables rounds (i + 1) p (if d.flags == 1 then k1 else k) (
      by_branch (λ (k' : Kernel). HasTables k'.pcbs) (d.flags == 1)
        (close_of-HasTables d.operations i k h) h)

resume_parent-HasTables : (k : Kernel) → HasTables k.pcbs → HasTables (resume_parent k).pcbs
unfolding resume_parent
resume_parent-HasTables k h =
    let pcb = pcb_of k k.process_num in
    let ended = record pcb { active = 0 } in
    let first = update-HasTables k.pcbs (slot k.process_num) ended h (h.of _) in
    update-HasTables (update k.pcbs (slot k.process_num) ended) (slot pcb.parent_id) _ first
      (first.of _)

pub halt-HasTables :
    (status garbage : ℕ) (k : Kernel)
    → HasTables k.pcbs
    → HasTables (last_kernel (halt status garbage k)).pcbs
unfolding halt leave_program
halt-HasTables status garbage k h =
    by_branch (λ (o : Outcome). HasTables (last_kernel o).pcbs)
      ((pcb_of k k.process_num).is_base_shell == 0)
      (resume_parent-HasTables _ (close_all-HasTables 7 0 (slot k.process_num) _ h))
      (start_process-HasTables garbage 0 _ _ (close_all-HasTables 7 0 (slot k.process_num) _ h))

pub exc_handler-HasTables :
    (vector garbage : ℕ) (k : Kernel)
    → HasTables k.pcbs
    → HasTables (last_kernel (exc_handler vector garbage k)).pcbs
unfolding exc_handler
exc_handler-HasTables vector garbage k h =
    elim (exception_name vector)
      as (λ name.
        HasTables
          (last_kernel (elim name [
            | none ↦ returned 0 k
            | some text ↦ halt 256 garbage (on_console (puts text) (cli k))
          ])).pcbs) [
            | none ↦ h
            | some text ↦ halt-HasTables 256 garbage (on_console (puts text) (cli k)) h
          ]

-- the scheduler's own changes of a PCB
repcb :
    (k : Kernel) (n : ℕ) (p : Pcb)
    → HasTables k.pcbs
    → p.file_descriptor ≡ (pcb_of k n).file_descriptor
    → HasTables (with_pcb n p k).pcbs
repcb k n p h same = update-HasTables k.pcbs (slot n) p h (rw same (h.of (slot n)))

switch_process-HasTables : (k : Kernel) → HasTables k.pcbs → HasTables (switch_process k).pcbs
unfolding switch_process restore finish_launch
switch_process-HasTables k h =
    let saved = save_registers k in
    let h1 : HasTables saved.pcbs = repcb k k.process_num _ h refl in
    by_branch (λ (k' : Kernel). HasTables k'.pcbs) (saved.tasks.pit_count == 3)
      (repcb saved saved.process_num (launched (pcb_of saved saved.process_num)) h1 refl) h1

scheduler-HasTables :
    (garbage : Bytes) (k : Kernel)
    → HasTables k.pcbs
    → HasTables (last_kernel (scheduler garbage k)).pcbs
unfolding scheduler switch_terminals switch_video_mem
scheduler-HasTables garbage k h =
    let P = λ (o : Outcome). HasTables (last_kernel o).pcbs in
    let t = k.tasks.pit_count in
    let saved = save_registers k in
    let h1 : HasTables saved.pcbs = repcb k k.process_num _ h refl in
    let p = record (pcb_of saved k.process_num) { is_shell = 1; active = 1 } in
    by_branch P (t == 0) (execute-HasTables (codes "shell") garbage _ h) (
      by_branch P (slt t 3)
        (execute-HasTables (codes "shell") garbage _ (repcb saved k.process_num p h1 refl))
        (switch_process-HasTables k h))

sti_after-pcbs : (o : Outcome) → (last_kernel (sti_after o)).pcbs ≡ (last_kernel o).pcbs
sti_after-pcbs (returned r k) = refl
sti_after-pcbs (left k) = refl
sti_after-pcbs (enters entry k) = refl

pub pit_handler-HasTables :
    (garbage : Bytes) (k : Kernel)
    → HasTables k.pcbs
    → HasTables (last_kernel (pit_handler garbage k)).pcbs
unfolding pit_handler
pit_handler-HasTables garbage k h =
    rw (sti_after-pcbs (scheduler garbage (cli k))) (scheduler-HasTables garbage (cli k) h)
