-- ===== src/Boot/Shell.antt =====
-- The start of one of the first three shells.
use os.Common.{
  ℕ, zero, suc, ◌+◌, ◌/◌, ◌^◌, ◌<◌, ◌≡◌, refl, ap, ◌∙◌, ◌≢◌, true, false, arith, ◌==◌, add32,
  minus_one, slt, Array, Bytes, update, codes,
}
use os.Machine.{Pcb, Kernel, slot, cli}
use os.Strings.{strncmp, strncmp_from}
use os.Files.{FileSystem, read_dentry_by_name, read_data, load32}
use os.Descriptors.{blank}
use os.Syscalls.{parse_args, get_file_name, take_name, is_executable}
use os.Paging.{paging_execute}
use os.Processes.{
  enters, pcb_of, with_pcb, with_tasks, queue, stack_top, find_process, search_rounds, enqueue,
  start_process, load_process, find_program, is_named, execute,
}

-- The image has a file `shell`, and it is executable.
pub record HasShell (fs : FileSystem) : Type 0 where
  pub found : (read_dentry_by_name fs (codes "shell") blank).0 ≢ minus_one
  pub good :
      (garbage : Bytes)
      → let inode = (read_dentry_by_name fs (codes "shell") blank).1.inode_num in
        is_executable (read_data fs inode 0 garbage 40).1 ≡ 0

abbrev pub entry_bytes : Bytes → Kernel → Bytes
entry_bytes garbage k =
    (read_data k.fs (read_dentry_by_name k.fs (codes "shell") blank).1.inode_num 0 garbage 40).1

-- A shell is started in the process `n`, as the base shell of the terminal that the count of launches
-- gives.
pub record IsLaunched (n : ℕ) (k k' : Kernel) : Type 0 where
  pub current : k'.process_num ≡ n
  pub count : k'.tasks.pit_count ≡ add32 k.tasks.pit_count 1
  pub queued :
      k'.tasks.schedule_array ≡ update k.tasks.schedule_array k.tasks.pit_count k.tasks.pit_count
  pub base : ((pcb_of k' n).is_base_shell ≡ 1) × ((pcb_of k' n).parent_id ≡ minus_one)
  pub place : (pcb_of k' n).terminal_num ≡ k.tasks.pit_count
  pub others : (q : ℕ) → q ≢ slot n → k'.pcbs q ≡ k.pcbs q
  pub lines : (t : ℕ) → (k'.terminal t).buffer_ct ≡ (k.terminal t).buffer_ct
  pub shown : k'.terminal_num ≡ k.terminal_num
  pub turn : k'.schedule_idx ≡ k.schedule_idx
  pub master : k'.hardware.master_mask ≡ k.hardware.master_mask
  pub slave : k'.hardware.slave_mask ≡ k.hardware.slave_mask
  pub rtc : k'.rtc ≡ k.rtc
  pub fs : k'.fs ≡ k.fs

-- the kernel behind `enqueue` for one of the first three calls
abbrev based : ℕ → Pcb → Kernel → Kernel
based n p k =
    let t = k.tasks.pit_count in
    let base = record p { terminal_num = t; is_base_shell = 1; parent_id = minus_one } in
    let k1 = queue t t t (with_pcb n base k) in
    with_tasks (record (k1.tasks) { pit_count = add32 t 1 }) k1

enqueue-based : (n : ℕ) (p : Pcb) (k : Kernel) → k.tasks.pit_count < 3 → enqueue n p k ≡ based n p k
unfolding enqueue
enqueue-based n p k early =
    let t : slt k.tasks.pit_count 3 ≡ true = ground arith in rw (enqueue, t) refl

-- the names that `execute` looks for
names :
    (get_file_name (codes "shell") ≡ codes "shell")
    × (is_named (codes "shell") (codes "shell") 5 ≡ true)
    × (is_named (codes "shell") (codes "cat") 3 ≡ false)
unfolding get_file_name take_name is_named strncmp strncmp_from
names = (refl, refl, refl)

own : (n : ℕ) → (n == n) ≡ true
own n = ground arith

-- where `execute` leaves for user code
abbrev entered : ℕ → Kernel → Kernel
entered n k = record k { process_num = n; tasks = record (k.tasks) { esp0 = stack_top n } }

entered-IsLaunched :
    (n : ℕ) (p : Pcb) (k : Kernel)
    → k.tasks.pit_count < 3
    → IsLaunched n k (entered n (enqueue n p k))
      × ((enqueue n p k).tasks.shell_process_count ≡ k.tasks.shell_process_count)
entered-IsLaunched n p k early = rw (enqueue-based n p k early) (
  record {
    current = refl;
    count = refl;
    queued = refl;
    base = (rw (own (slot n)) refl, rw (own (slot n)) refl);
    place = rw (own (slot n)) refl;
    others = λ q other. let t : (slot n == q) ≡ false = ground arith in rw t refl;
    lines = λ t. ground arith;
    shown = refl;
    turn = refl;
    master = refl;
    slave = refl;
    rtc = refl;
    fs = refl;
  },
  refl,
)

start_process-IsLaunched :
    (is_shell n entry_point : ℕ) (k : Kernel)
    → k.tasks.shell_halt_flag ≡ 0
    → k.tasks.pit_count < 3
    → (after : Kernel) × (start_process is_shell n entry_point k ≡ enters entry_point after)
      × IsLaunched n k after
      × (after.tasks.shell_process_count ≡ k.tasks.shell_process_count)
unfolding start_process
start_process-IsLaunched is_shell n entry_point k going early =
    let t0 : (k.tasks.shell_halt_flag == 1) ≡ false = ground arith in
    rw (start_process, t0)
      (_, refl, (entered-IsLaunched n _ k early).0, (entered-IsLaunched n _ k early).1)

-- It speaks of these parts of the kernel before, and of nothing else there.
IsLaunched-before :
    {n : ℕ} (k0 k k' : Kernel)
    → k0.tasks.pit_count ≡ k.tasks.pit_count
    → k0.tasks.schedule_array ≡ k.tasks.schedule_array
    → k0.pcbs ≡ k.pcbs
    → k0.terminal ≡ k.terminal
    → k0.terminal_num ≡ k.terminal_num
    → k0.schedule_idx ≡ k.schedule_idx
    → k0.hardware.master_mask ≡ k.hardware.master_mask
    → k0.hardware.slave_mask ≡ k.hardware.slave_mask
    → k0.rtc ≡ k.rtc
    → k0.fs ≡ k.fs
    → IsLaunched n k0 k'
    → IsLaunched n k k'
IsLaunched-before k0 k k' count queued pcbs terminal shown turn master slave rtc fs s = record {
  current = s.current;
  count = s.count ∙ ap (λ t. add32 t 1) count;
  queued =
      s.queued
      ∙ ap (λ t. update k0.tasks.schedule_array t t) count
      ∙ ap (λ a. update a k.tasks.pit_count k.tasks.pit_count) queued;
  base = s.base;
  place = s.place ∙ count;
  others = λ q other. s.others q other ∙ ap (λ f. f q) pcbs;
  lines = λ t. s.lines t ∙ ap (λ f. (f t).buffer_ct) terminal;
  shown = s.shown ∙ shown;
  turn = s.turn ∙ turn;
  master = s.master ∙ master;
  slave = s.slave ∙ slave;
  rtc = s.rtc ∙ rtc;
  fs = s.fs ∙ fs;
}

find_process-first :
    (rounds n : ℕ) (pcbs : Array Pcb)
    → 0 < rounds
    → (pcbs (slot (add32 n 1))).active ≡ 0
    → find_process rounds n pcbs ≡ n
unfolding find_process
find_process-first zero n pcbs some_left free = absurd (omega arith)
find_process-first (suc rounds) n pcbs some_left free =
    let t : ((pcbs (slot (add32 n 1))).active == 0) ≡ true = ground arith in
    rw (find_process, t) refl

load_process-IsLaunched :
    (inode entry_point n : ℕ) (k : Kernel)
    → k.process_num < 2 ^ 32
    → add32 k.process_num 1 ≡ n
    → n < 3
    → (k.pcbs (slot n)).active ≡ 0
    → k.tasks.shell_halt_flag ≡ 0
    → k.tasks.pit_count < 3
    → (after : Kernel) × (load_process 1 inode entry_point k ≡ enters entry_point after)
      × IsLaunched n k after
      × (after.tasks.shell_process_count ≡ k.tasks.shell_process_count)
unfolding load_process
load_process-IsLaunched inode entry_point n k word next low free going early =
    let some_left : 0 < search_rounds k.process_num = ground arith in
    let found =
      find_process-first (search_rounds k.process_num) k.process_num k.pcbs some_left
        (rw next free) in
    let t : (k.process_num == 512) ≡ false = ground arith in
    let page = (paging_execute n k.pages).page_dir 32 / 2 ^ 22 in
    let k0 = record k {
      pages = paging_execute n k.pages;
      programs =
          update k.programs page
            (read_data k.fs inode 0 (k.programs page) (k.fs.inodes inode).length).1;
    } in
    let (after, enters_it, launched, shells) =
      start_process-IsLaunched 1 n entry_point k0 going early in
    rw (load_process, found, next, t)
      (
        after,
        enters_it,
        IsLaunched-before k0 k after refl refl refl refl refl refl refl refl refl refl launched,
        shells,
      )

-- `execute` of the shell, with fewer than six of them, as the scheduler calls it at first
pub execute-IsLaunched :
    (garbage : Bytes) (n : ℕ) (k : Kernel)
    → HasShell k.fs
    → k.process_num < 2 ^ 32
    → add32 k.process_num 1 ≡ n
    → n < 3
    → (k.pcbs (slot n)).active ≡ 0
    → k.tasks.pit_count < 3
    → k.tasks.shell_process_count < 6
    → (entry_point : ℕ) × (after : Kernel) × (execute (codes "shell") garbage k
        ≡ enters entry_point after)
      × IsLaunched n k after
      × (after.tasks.shell_process_count ≡ k.tasks.shell_process_count + 1)
unfolding execute find_program
execute-IsLaunched garbage n k shell word next low free early few =
    let t0 : ((read_dentry_by_name k.fs (codes "shell") blank).0 == minus_one) ≡ false =
      ground (arith, shell.found) in
    let t1 : (is_executable (entry_bytes garbage k) == 0) ≡ true =
      ground (arith, shell.good garbage) in
    let t2 : slt k.tasks.shell_process_count 6 ≡ true = ground arith in
    let k0 = record (cli k) {
      stored_buf = parse_args (codes "shell") k.stored_buf;
      tasks = record (k.tasks) {
        shell_halt_flag = 0;
        shell_process_count = add32 k.tasks.shell_process_count 1;
      };
      cat_flag = update k.cat_flag k.schedule_idx 0;
    } in
    let start =
      load_process-IsLaunched (read_dentry_by_name k.fs (codes "shell") blank).1.inode_num
        (load32 (entry_bytes garbage k) 24) n k0 word next low free refl early in
    rw (execute, find_program, names.0, names.1, names.2, t0, t1, t2)
      (
        _,
        start.0,
        start.1,
        IsLaunched-before k0 k start.0 refl refl refl refl refl refl refl refl refl refl start.2,
        start.3 ∙ omega arith,
      )
