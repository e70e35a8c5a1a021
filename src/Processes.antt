-- ===== src/Processes.antt =====
-- student-distrib/system_call.c: `execute` and `halt`.
pub mod Halt
pub mod Launch
pub mod Command
use os.Machine.{descriptors}
use os.Common.{
  ℕ, zero, suc, ◌+◌, ◌-◌, ◌*◌, ◌/◌, ◌%◌, ◌^◌, ◌≤◌, ◌<◌, min, ◌≡◌, refl, sym, ap, ◌∙◌, ◌≢◌, ◌↔◌, ◌⊎◌,
  inl, inr, Bool, true, false, not, ◌&&◌, ◌||◌, Option, none, some, List, [], ◌∷◌, ◌++◌, arith,
  dec_lt, ℕ_discrete, ltb, leb, ◌==◌, if◌then◌else◌, ltb→lt, lt→ltb, leb→le, ==_iff, Bool-cases,
  Option-cases, u8, u32, add32, sub32, minus_one, is_neg, slt, sign_extend8, Array, Bytes, update,
  length, get_or, set, char_at, copy, copy_lem, tests, holds_up_to, holds_at, bit_and, bit_or,
  codes,
}
use os.Strings.{strncmp}
use os.Files.{read_dentry_by_name, read_data, load32}
use os.Machine.{stdin_fop, stdout_fop, FileDescriptor, Pcb, Terminal, Tasks, Kernel, slot, cli}
use os.Descriptors.{blank}
use os.Console.{puts}
use os.Terminal.{on_console}
use os.Paging.{paging_execute, disable_child_page}
use os.Syscalls.{close_of, parse_args, get_file_name, is_executable}

-- What `execute` does: it returns a result, it leaves with whatever `eax` holds, or it enters user
-- code at an entry point.
pub data Outcome : Type 0 where
  returned : ℕ → Kernel → Outcome
  left : Kernel → Outcome
  enters : ℕ → Kernel → Outcome

abbrev pub pcb_of : Kernel → ℕ → Pcb
pcb_of k n = k.pcbs (slot n)

abbrev pub with_pcb : ℕ → Pcb → Kernel → Kernel
with_pcb n p k = record k { pcbs = update k.pcbs (slot n) p }

abbrev pub with_tasks : Tasks → Kernel → Kernel
with_tasks t k = record k { tasks = t }

-- `schedule_array[terminal] = pid; terminal[terminal].curr_pid = curr_pid`
abbrev pub queue : ℕ → ℕ → ℕ → Kernel → Kernel
queue t pid curr_pid k = record k {
  tasks = record (k.tasks) { schedule_array = update k.tasks.schedule_array t pid };
  terminal = update k.terminal t (record (k.terminal t) { curr_pid = curr_pid });
}

-- `EIGHT_MB - EIGHT_KB*n - FOUR_BYTES`, the top of the kernel's stack of a process
abbrev pub stack_top : ℕ → ℕ
stack_top n = sub32 (sub32 0x800000 (u32 (8192 * n))) 4

-- the loop that looks for a PCB, with `fuel` rounds left: it ends at 512
unfoldable pub find_process : ℕ → ℕ → Array Pcb → ℕ
find_process zero n pcbs = n
find_process (suc fuel) n pcbs =
    let rest = find_process fuel (add32 n 1) pcbs in
    if (pcbs (slot (add32 n 1))).active == 0 then n else rest

-- the rounds until then, from a number that is -1 before the first process
abbrev pub search_rounds : ℕ → ℕ
search_rounds n = if is_neg n then 512 + (2 ^ 32 - n) else 512 - n

abbrev pub standard : FileDescriptor → FileDescriptor
standard d = record d { operations = stdin_fop; flags = 1 }

abbrev pub standard_output : FileDescriptor → FileDescriptor
standard_output d = record d { operations = stdout_fop; flags = 1 }

-- the process `n` as every call of `execute` leaves its PCB, given its parent
abbrev pub fresh : ℕ → ℕ → ℕ → ℕ → Tasks → Pcb → Pcb
fresh n parent entry is_shell t p = record p {
  pid = n;
  parent_id = parent;
  active = 1;
  entry_point = entry;
  is_shell = is_shell;
  saved_parents_esp = t.esp;
  saved_parents_ebp = t.ebp;
  file_descriptor =
      update (update p.file_descriptor 0 (standard (p.file_descriptor 0))) 1
        (standard_output (p.file_descriptor 1));
}

-- the part that puts the process in its terminal's place of the queue
unfoldable pub enqueue : ℕ → Pcb → Kernel → Kernel
enqueue n p k =
    let t = k.tasks in
    let base = record p { terminal_num = t.pit_count; is_base_shell = 1; parent_id = minus_one } in
    let tn =
      if p.is_base_shell == 1
      then p.terminal_num
      else (update k.pcbs (slot n) p (slot p.parent_id)).terminal_num in
    let k1 = queue t.pit_count t.pit_count t.pit_count (with_pcb n base k) in
    if slt t.pit_count 3
    then with_tasks (record (k1.tasks) { pit_count = add32 t.pit_count 1 }) k1
    else queue tn n n (with_pcb n (record p { terminal_num = tn }) k)

-- `execute` from the label `shell_halt` on. A base shell that has halted starts again.
unfoldable pub start_process : ℕ → ℕ → ℕ → Kernel → Outcome
start_process is_shell local_process_num entry_point k =
    let again = k.tasks.shell_halt_flag == 1 in
    let n = if again then k.tasks.base_shell_id else local_process_num in
    let old = pcb_of k n in
    let entry = if again then old.entry_point else entry_point in
    let base = if again then 1 else old.is_base_shell in
    let parent = if again || old.parent_id == minus_one then minus_one else k.process_num in
    let halted = if again then 0 else k.tasks.shell_halt_flag in
    let p = fresh n parent entry is_shell k.tasks (record old { is_base_shell = base }) in
    let k1 = enqueue n p (with_tasks (record (k.tasks) { shell_halt_flag = halted }) k) in
    enters entry (record k1 { process_num = n; tasks = record (k1.tasks) { esp0 = stack_top n } })

-- `execute` from the search for a PCB on
unfoldable pub load_process : ℕ → ℕ → ℕ → Kernel → Outcome
load_process is_shell inode entry_point k =
    let temp = find_process (search_rounds k.process_num) k.process_num k.pcbs in
    let n = add32 temp 1 in
    let pages = paging_execute n k.pages in
    let page = pages.page_dir 32 / 2 ^ 22 in
    let (_, program) = read_data k.fs inode 0 (k.programs page) (k.fs.inodes inode).length in
    if temp == 512
    then left k
    else start_process is_shell n entry_point
        (record k { pages = pages; programs = update k.programs page program })

-- `execute` from the lookup of the file on. `garbage` is the buffer on the stack before it is
-- filled.
unfoldable pub find_program : ℕ → List ℕ → Bytes → Kernel → Outcome
find_program is_shell file_name garbage k =
    let (code, dentry) = read_dentry_by_name k.fs file_name blank in
    let (_, buffer) = read_data k.fs dentry.inode_num 0 garbage 40 in
    if code == minus_one
    then returned minus_one k
    else if is_executable buffer == 0
    then load_process is_shell dentry.inode_num (load32 buffer 24) k
    else returned minus_one k

unfoldable pub is_named : List ℕ → List ℕ → ℕ → Bool
is_named file_name program n = strncmp (char_at file_name) (char_at program) n == 0

unfoldable pub execute : List ℕ → Bytes → Kernel → Outcome
execute command garbage k =
    let file_name = get_file_name command in
    let k0 = record (cli k) {
      stored_buf = parse_args command k.stored_buf;
      tasks = record (k.tasks) { shell_halt_flag = 0 };
    } in
    let cat = if is_named file_name (codes "cat") 3 then 1 else 0 in
    let shell = is_named file_name (codes "shell") 5 in
    let shells = k.tasks.shell_process_count in
    let k1 =
      with_tasks
        (record (k0.tasks) { shell_process_count = if shell then add32 shells 1 else shells })
        (record k0 { cat_flag = update k.cat_flag k.schedule_idx cat }) in
    if shell && not (slt shells 6)
    then left (on_console (puts (codes "Already at 6th Shell! Can't open more \n")) k0)
    else find_program (if shell then 1 else 0) file_name garbage k1

-- the loop of `halt` that closes descriptors, with `left` rounds to go
unfoldable pub close_all : ℕ → ℕ → ℕ → Kernel → Kernel
close_all zero i p k = k
close_all (suc rounds) i p k =
    let d = descriptors k p i in
    let (_, k1) = close_of d.operations i k in
    close_all rounds (i + 1) p (if d.flags == 1 then k1 else k)

-- `halt` of a process that is not a base shell, behind its loop
unfoldable pub resume_parent : Kernel → Kernel
resume_parent k =
    let pcb = pcb_of k k.process_num in
    let parent = pcb.parent_id in
    let k1 = queue pcb.terminal_num (pcb_of k parent).pid parent k in
    let k2 = with_pcb k.process_num (record pcb { active = 0 }) k1 in
    let k3 = with_pcb parent (record (pcb_of k2 parent) { active = 1 }) k2 in
    let shells = k.tasks.shell_process_count in
    record k3 {
      process_num = parent;
      tasks = record (k3.tasks) {
        shell_process_count = if pcb.is_shell == 1 then sub32 shells 1 else shells;
        esp = pcb.saved_parents_esp;
        ebp = pcb.saved_parents_ebp;
      };
    }

-- `halt` before its loop, for a process that is not a base shell
unfoldable pub leave_program : ℕ → Tasks → Kernel → Kernel
leave_program parent t k = record (cli k) {
  pages = disable_child_page k.process_num (paging_execute parent k.pages);
  tasks = record t { esp0 = stack_top parent };
}

-- `system_halt`, and `exception_halt` with its own status. The jump to `return_to_exe` returns
-- from the call of `execute` that the parent made; `garbage` is the local variable that a base
-- shell finds on the stack of the halted one.
unfoldable pub halt : ℕ → ℕ → Kernel → Outcome
halt status garbage k =
    let n = k.process_num in
    let pcb = pcb_of k n in
    let t = record (k.tasks) {
      process_count = sub32 k.tasks.process_count 1;
      saved_status_num = status;
    } in
    let to_itself =
      with_tasks
        (record t { shell_halt_flag = 1; esp0 = stack_top pcb.pid; base_shell_id = pcb.pid })
        (cli k) in
    if pcb.is_base_shell == 0
    then returned status (resume_parent (close_all 7 0 (slot n) (leave_program pcb.parent_id t k)))
    else start_process garbage 0 pcb.entry_point (close_all 7 0 (slot n) to_itself)
