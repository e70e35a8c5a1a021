-- ===== src/Processes/Command.antt =====
-- `execute` as a whole, on a command for a program of the image and on one for none.
use os.Common.{
  ℕ, ◌+◌, ◌-◌, ◌^◌, ◌≤◌, ◌<◌, ◌≡◌, refl, ◌≢◌, ◌⊎◌, true, false, List, arith, ℕ_discrete, ◌==◌,
  if◌then◌else◌, minus_one, Bytes, update, codes,
}
use os.Machine.{Kernel, cli}
use os.Files.{Dentry, read_dentry_by_name, read_data, load32}
use os.Descriptors.{blank}
use os.Syscalls.{parse_args, get_file_name, is_executable}
use os.Processes.{returned, enters, pcb_of, find_process, find_program, is_named, execute}
use os.Paging.Entries.{is_present, large_base}
use os.Processes.Launch.{IsStarted, IsStarted-before, load_process_lem}

-- the directory entry and the first bytes that `execute` reads for a command
abbrev pub entry_of : List ℕ → Kernel → ℕ × Dentry
entry_of command k = read_dentry_by_name k.fs (get_file_name command) blank

abbrev pub header_of : List ℕ → Bytes → Kernel → Bytes
header_of command garbage k = (read_data k.fs (entry_of command k).1.inode_num 0 garbage 40).1

-- the number of the process that `execute` gives a program
abbrev pub next_process : Kernel → ℕ
next_process k = find_process (512 - k.process_num) k.process_num k.pcbs + 1

-- what a call of `execute` that fails has left alone
pub record IsUnchanged (before after : Kernel) : Type 0 where
  pub pcbs : after.pcbs ≡ before.pcbs
  pub current : after.process_num ≡ before.process_num
  pub pages : after.pages ≡ before.pages
  pub programs : after.programs ≡ before.programs
  pub terminal : after.terminal ≡ before.terminal
  pub turns : after.tasks.schedule_array ≡ before.tasks.schedule_array
  pub shells : after.tasks.shell_process_count ≡ before.tasks.shell_process_count

-- A command whose file is not in the image, or is not an executable, and does not start with the
-- letters of `shell`: `execute` returns -1, and no PCB, page, program, terminal nor turn has
-- changed, nor the count of shells.
pub execute-refuses :
    (command : List ℕ) (garbage : Bytes) (k : Kernel)
    → is_named (get_file_name command) (codes "shell") 5 ≡ false
    → ((entry_of command k).0 ≡ minus_one) ⊎ (is_executable (header_of command garbage k) ≢ 0)
    → (after : Kernel) × (execute command garbage k ≡ returned minus_one after)
      × IsUnchanged k after
unfolding execute find_program
execute-refuses command garbage k plain why = elim (ℕ_discrete (entry_of command k).0 minus_one) [
  | yes e ↦
      let t : ((entry_of command k).0 == minus_one) ≡ true = ground arith in
      rw (execute, find_program, plain, t)
        (
          _,
          refl,
          record {
            pcbs = refl;
            current = refl;
            pages = refl;
            programs = refl;
            terminal = refl;
            turns = refl;
            shells = refl;
          },
        )
  | no e ↦
      let t : ((entry_of command k).0 == minus_one) ≡ false = ground arith in
      let u : (is_executable (header_of command garbage k) == 0) ≡ false = ground arith in
      rw (execute, find_program, plain, t, u)
        (
          _,
          refl,
          record {
            pcbs = refl;
            current = refl;
            pages = refl;
            programs = refl;
            terminal = refl;
            turns = refl;
            shells = refl;
          },
        )
]

-- A command for an executable file of the image that does not start with the letters of `shell`,
-- once the three shells run, where the caller's number is at most 512, a process after it below 513
-- is free, and the PCB of the first such process is not marked as a base shell nor as without
-- parent: `execute` enters the program at the address that bytes 24 to 27 of the file hold, in that
-- process, whose PCB it fills in; 128 MB is mapped to the process's page of memory, which holds
-- what the kernel reads of the file.
pub execute_lem :
    (command : List ℕ) (garbage : Bytes) (k : Kernel)
    → is_named (get_file_name command) (codes "shell") 5 ≡ false
    → (entry_of command k).0 ≢ minus_one
    → is_executable (header_of command garbage k) ≡ 0
    → k.process_num ≤ 512
    → next_process k ≢ 513
    → 3 ≤ k.tasks.pit_count
    → k.tasks.pit_count < 2 ^ 31
    → (pcb_of k (next_process k)).is_base_shell ≢ 1
    → (pcb_of k (next_process k)).parent_id ≢ minus_one
    → let inode = (entry_of command k).1.inode_num in
      let n = next_process k in
      (after : Kernel) × (execute command garbage k
        ≡ enters (load32 (header_of command garbage k) 24) after)
      × ((pcb_of k n).active ≡ 0)
      × IsStarted n k after
      × (is_present (after.pages.page_dir 32) ≡ true)
      × (large_base (after.pages.page_dir 32) ≡ n + 2)
      × (after.programs (n + 2)
          ≡ (read_data k.fs inode 0 (k.programs (n + 2)) (k.fs.inodes inode).length).1)
unfolding execute find_program
execute_lem command garbage k plain found good low more running small child marked =
    let t : ((entry_of command k).0 == minus_one) ≡ false = ground arith in
    let u : (is_executable (header_of command garbage k) == 0) ≡ true = ground arith in
    let k1 = record (cli k) {
      stored_buf = parse_args command k.stored_buf;
      tasks = record (k.tasks) { shell_halt_flag = 0 };
      cat_flag =
          update k.cat_flag k.schedule_idx
            (if is_named (get_file_name command) (codes "cat") 3 then 1 else 0);
    } in
    let start =
      load_process_lem 0 (entry_of command k).1.inode_num (load32 (header_of command garbage k) 24)
        k1 low (λ e. more (omega (arith, e))) refl running small child marked in
    rw (execute, find_program, plain, t, u)
      (
        start.0,
        start.1,
        start.2,
        IsStarted-before k1 k start.0 refl refl start.3,
        start.4,
        start.5,
        start.6,
      )
