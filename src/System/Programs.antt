-- ===== src/System/Programs.antt =====
-- What the calls that close descriptors and that start and end programs keep.
use os.Processes.{stack_top}
use os.Processes.{pcb_of}
use os.Machine.{Tasks}
use os.Machine.{cli}
use os.Common.{
  ℕ, zero, suc, ◌+◌, ◌/◌, ◌^◌, ◌≤◌, ◌≡◌, refl, not, ◌&&◌, ◌||◌, List, arith, ◌==◌, if◌then◌else◌,
  sub32, minus_one, add32, slt, Bytes, update, codes,
}
use os.Machine.{FileOps, no_fop, stdin_fop, stdout_fop, Kernel, Pcb, slot, descriptors}
use os.Descriptors.{file_close, directory_close}
use os.Rtc.{rtc_close}
use os.Terminal.{terminal_close}
use os.Syscalls.{close_of, close}
use os.Processes.{
  Outcome, enqueue, start_process, load_process, find_program, execute, close_all, resume_parent,
  leave_program, halt, is_named, with_tasks, stack_top, find_process, search_rounds,
}
use os.Syscalls.{get_file_name, is_executable}
use os.Files.{read_data, read_dentry_by_name, load32}
use os.Paging.{vidmap, paging_execute}
use os.Descriptors.{blank}
use os.Machine.{Tasks, cli}
use os.Processes.Halt.{last_kernel}
use os.Common.{by_branch}
use os.System.Frame.{Keeps, Keeps-refl, Keeps-trans}

close_of-Keeps : (ops : FileOps) (fd : ℕ) (k : Kernel) → Keeps k (close_of ops fd k).1
unfolding close_of terminal_close rtc_close file_close directory_close
close_of-Keeps no_fop fd k = Keeps-refl k
close_of-Keeps stdin_fop fd k = Keeps-refl k
close_of-Keeps stdout_fop fd k = Keeps-refl k
close_of-Keeps _ fd k = record {
  lines = λ t. ground arith;
  shown = ground arith;
  turn = ground arith;
  all_run = ground arith;
  master = ground arith;
  slave = ground arith;
  rtc = ground arith;
}

pub close-Keeps : (fd : ℕ) (k : Kernel) → Keeps k (close fd k).1
unfolding close
close-Keeps fd k =
    let fds = descriptors k (slot (k.terminal k.schedule_idx).curr_pid) in
    let closed = close_of-Keeps (fds fd).operations fd (cli k) in
    by_branch (λ (r : ℕ × Kernel). Keeps k r.1) ((fds fd).flags == 0 || (slt fd 2 || slt 7 fd))
      (record {
        lines = λ t. refl;
        shown = refl;
        turn = refl;
        all_run = refl;
        master = refl;
        slave = refl;
        rtc = refl;
      })
      (record {
        lines = λ t. closed.lines t;
        shown = closed.shown;
        turn = closed.turn;
        all_run = closed.all_run;
        master = closed.master;
        slave = closed.slave;
        rtc = closed.rtc;
      })

close_all-Keeps : (rounds i p : ℕ) (k : Kernel) → Keeps k (close_all rounds i p k)
unfolding close_all
close_all-Keeps zero i p k = Keeps-refl k
close_all-Keeps (suc rounds) i p k =
    let d = descriptors k p i in
    let k1 = (close_of d.operations i k).1 in
    let one = by_branch (Keeps k) (d.flags == 1) (close_of-Keeps d.operations i k) (Keeps-refl k) in
    Keeps-trans k (if d.flags == 1 then k1 else k) _ one (close_all-Keeps rounds (i + 1) p _)

resume_parent-Keeps : (k : Kernel) → Keeps k (resume_parent k)
unfolding resume_parent
resume_parent-Keeps k = record {
  lines = λ t. ground arith;
  shown = ground arith;
  turn = ground arith;
  all_run = ground arith;
  master = ground arith;
  slave = ground arith;
  rtc = ground arith;
}

enqueue-Keeps :
    (n : ℕ) (p : Pcb) (k : Kernel)
    → 3 ≤ k.tasks.pit_count
    → k.tasks.pit_count ≤ 4
    → Keeps k (enqueue n p k)
unfolding enqueue
enqueue-Keeps n p k low high = record {
  lines = λ t. ground arith;
  shown = ground arith;
  turn = ground arith;
  all_run = ground arith;
  master = ground arith;
  slave = ground arith;
  rtc = ground arith;
}

pub start_process-Keeps :
    (is_shell n entry_point : ℕ) (k : Kernel)
    → 3 ≤ k.tasks.pit_count
    → k.tasks.pit_count ≤ 4
    → Keeps k (last_kernel (start_process is_shell n entry_point k))
unfolding start_process
start_process-Keeps is_shell n entry_point k low high = record {
  lines = λ t. (enqueue-Keeps _ _ _ low high).lines t;
  shown = (enqueue-Keeps _ _ _ low high).shown;
  turn = (enqueue-Keeps _ _ _ low high).turn;
  all_run = (enqueue-Keeps _ _ _ low high).all_run;
  master = (enqueue-Keeps _ _ _ low high).master;
  slave = (enqueue-Keeps _ _ _ low high).slave;
  rtc = (enqueue-Keeps _ _ _ low high).rtc;
}

leave_program-Keeps :
    (parent : ℕ) (t : Tasks) (k : Kernel)
    → t.pit_count ≡ k.tasks.pit_count
    → Keeps k (leave_program parent t k)
unfolding leave_program
leave_program-Keeps parent t k same = record {
  lines = λ t. refl;
  shown = refl;
  turn = refl;
  all_run = same;
  master = refl;
  slave = refl;
  rtc = refl;
}

pub halt-Keeps :
    (status garbage : ℕ) (k : Kernel)
    → 3 ≤ k.tasks.pit_count
    → k.tasks.pit_count ≤ 4
    → Keeps k (last_kernel (halt status garbage k))
unfolding halt
halt-Keeps status garbage k low high =
    let pcb = pcb_of k k.process_num in
    let t = record (k.tasks) {
      process_count = sub32 k.tasks.process_count 1;
      saved_status_num = status;
    } in
    let k0 = leave_program pcb.parent_id t k in
    let k1 = close_all 7 0 (slot k.process_num) k0 in
    let to_itself =
      with_tasks
        (record t { shell_halt_flag = 1; esp0 = stack_top pcb.pid; base_shell_id = pcb.pid })
        (cli k) in
    let k2 = close_all 7 0 (slot k.process_num) to_itself in
    let closed : Keeps to_itself k2 = close_all-Keeps 7 0 (slot k.process_num) to_itself in
    let alike : Keeps k to_itself = record {
      lines = λ t. refl;
      shown = refl;
      turn = refl;
      all_run = refl;
      master = refl;
      slave = refl;
      rtc = refl;
    } in
    by_branch (λ (o : Outcome). Keeps k (last_kernel o)) (pcb.is_base_shell == 0)
      (Keeps-trans k k0 (resume_parent k1) (leave_program-Keeps pcb.parent_id t k refl) (
        Keeps-trans k0 k1 _ (close_all-Keeps 7 0 (slot k.process_num) k0) (resume_parent-Keeps k1)))
      (Keeps-trans k to_itself _ alike (
        Keeps-trans to_itself k2 _ closed (
          start_process-Keeps garbage 0 pcb.entry_point k2 (omega (arith, closed.all_run))
            (omega (arith, closed.all_run)))))

load_process-Keeps :
    (is_shell inode entry_point : ℕ) (k : Kernel)
    → 3 ≤ k.tasks.pit_count
    → k.tasks.pit_count ≤ 4
    → Keeps k (last_kernel (load_process is_shell inode entry_point k))
unfolding load_process
load_process-Keeps is_shell inode entry_point k low high =
    let n = add32 (find_process (search_rounds k.process_num) k.process_num k.pcbs) 1 in
    let pages = paging_execute n k.pages in
    let page = pages.page_dir 32 / 2 ^ 22 in
    let program = (read_data k.fs inode 0 (k.programs page) (k.fs.inodes inode).length).1 in
    let k1 = record k { pages = pages; programs = update k.programs page program } in
    let alike : Keeps k k1 = record {
      lines = λ t. refl;
      shown = refl;
      turn = refl;
      all_run = refl;
      master = refl;
      slave = refl;
      rtc = refl;
    } in
    by_branch (λ (o : Outcome). Keeps k (last_kernel o))
      (find_process (search_rounds k.process_num) k.process_num k.pcbs == 512) (Keeps-refl k)
      (Keeps-trans k k1 _ alike (start_process-Keeps is_shell n entry_point k1 low high))

find_program-Keeps :
    (is_shell : ℕ) (file_name : List ℕ) (garbage : Bytes) (k : Kernel)
    → 3 ≤ k.tasks.pit_count
    → k.tasks.pit_count ≤ 4
    → Keeps k (last_kernel (find_program is_shell file_name garbage k))
unfolding find_program
find_program-Keeps is_shell file_name garbage k low high =
    let entry = read_dentry_by_name k.fs file_name blank in
    let buffer = (read_data k.fs entry.1.inode_num 0 garbage 40).1 in
    by_branch (λ (o : Outcome). Keeps k (last_kernel o)) (entry.0 == minus_one) (Keeps-refl k)
      (by_branch (λ (o : Outcome). Keeps k (last_kernel o)) (is_executable buffer == 0)
        (load_process-Keeps is_shell entry.1.inode_num (load32 buffer 24) k low high)
        (Keeps-refl k))

pub execute-Keeps :
    (command : List ℕ) (garbage : Bytes) (k : Kernel)
    → 3 ≤ k.tasks.pit_count
    → k.tasks.pit_count ≤ 4
    → Keeps k (last_kernel (execute command garbage k))
unfolding execute
execute-Keeps command garbage k low high =
    let file_name = get_file_name command in
    let shell = is_named file_name (codes "shell") 5 in
    by_branch (λ (o : Outcome). Keeps k (last_kernel o))
      (shell && not (slt k.tasks.shell_process_count 6))
      (record {
        lines = λ t. refl;
        shown = refl;
        turn = refl;
        all_run = refl;
        master = refl;
        slave = refl;
        rtc = refl;
      })
      (Keeps-trans k _ _
        (record {
          lines = λ t. refl;
          shown = refl;
          turn = refl;
          all_run = refl;
          master = refl;
          slave = refl;
          rtc = refl;
        })
        (find_program-Keeps (if shell then 1 else 0) file_name garbage _ low high))

pub vidmap-Keeps : (screen_start : ℕ) (k : Kernel) → Keeps k (vidmap screen_start k).2
unfolding vidmap
vidmap-Keeps screen_start k = record {
  lines = λ t. ground arith;
  shown = ground arith;
  turn = ground arith;
  all_run = ground arith;
  master = ground arith;
  slave = ground arith;
  rtc = ground arith;
}
