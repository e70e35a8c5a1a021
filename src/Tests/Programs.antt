-- ===== src/Tests/Programs.antt =====
-- The theorems on the start of programs and on the kernel as a whole, at a concrete input.
use os.Common.{◌⊎◌, inl}
use os.Common.{
  ℕ, ◌+◌, ◌*◌, ◌≤◌, ◌<◌, ◌≡◌, refl, ◌≢◌, inl, true, ◌&&◌, some, arith, ltb, u32, minus_one, length,
  copy, codes,
}
use os.Machine.{FileDescriptor, descriptors, no_fop, Kernel, slot}
use os.Descriptors.{file_open, open_descriptor, free_slot}
use os.Syscalls.{open_file, open_of, get_file_name, take_name, is_executable}
use os.System.{opens, IsSound, hardware, start, step}
use os.Common.{◌⊎◌, inl}
use os.Common.{by_branch}
use os.System.Tables.{HasTables, has_table}
use os.System.Tables.Reached.{Reach-tables}
use os.Tests.{machine, ready, zeros, three, text, stack, pieces, pieces-ArePieces, pieces-pushed}
use os.Files.{
  read_dentry_by_name, search_dentry, read_dentry_by_index, read_data, read_from, read_first_block,
  clip_length, read_whole_blocks, read_last_block, load32,
}
use os.Interrupts.{hardware_handler}
use os.Strings.{strncmp, strncmp_from, strlen, strncpy, copy_until_nul, fill}
use os.Processes.{find_process, execute, is_named, returned, enters, pcb_of}
use os.Processes.{search_rounds}
use os.Processes.Launch.{find_process_lem, IsStarted}
use os.Processes.Command.{
  execute-refuses, execute_lem, IsUnchanged, entry_of, header_of, next_process,
}
use os.Format.{printf}
use os.Format.Print.{format, show_all, printf_lem}
use os.Paging.Entries.{is_present, large_base}
use os.Processes.Halt.{last_kernel}
use os.System.Invariant.{Step-IsSound, Reach-clock}

find_process_lem_example :
    let found = find_process (search_rounds three) three ready.pcbs in
    (3 ≤ found)
    × (found ≤ 512)
    × ((found ≡ 512) ⊎ ((ready.pcbs (slot (found + 1))).active ≡ 0))
    × ((j : ℕ) → 3 ≤ j → j < found → (ready.pcbs (slot (j + 1))).active ≢ 0)
find_process_lem_example = find_process_lem three ready.pcbs (omega arith)

execute-refuses_example :
    (after : Kernel) × (execute (codes "ls") zeros machine ≡ returned minus_one after)
    × IsUnchanged machine after
unfolding is_named strncmp strncmp_from read_dentry_by_name search_dentry strlen strncpy
    copy_until_nul fill get_file_name take_name read_dentry_by_index
execute-refuses_example = execute-refuses (codes "ls") zeros machine refl (inl refl)

next : next_process ready ≡ 5
unfolding find_process
next = refl

found : (entry_of (codes "hi") ready).0 ≡ 0
unfolding read_dentry_by_name search_dentry read_dentry_by_index strlen strncmp strncmp_from strncpy
    copy_until_nul fill get_file_name take_name
found = refl

executable : is_executable (header_of (codes "hi") zeros ready) ≡ 0
unfolding read_dentry_by_name search_dentry read_dentry_by_index strlen strncmp strncmp_from strncpy
    copy_until_nul fill get_file_name take_name is_executable read_data read_from read_first_block
    clip_length copy read_whole_blocks read_last_block
executable = refl

execute_lem_example :
    let inode = (entry_of (codes "hi") ready).1.inode_num in
    let n = next_process ready in
    (after : Kernel) × (execute (codes "hi") zeros ready
      ≡ enters (load32 (header_of (codes "hi") zeros ready) 24) after)
    × ((pcb_of ready n).active ≡ 0)
    × IsStarted n ready after
    × (is_present (after.pages.page_dir 32) ≡ true)
    × (large_base (after.pages.page_dir 32) ≡ n + 2)
    × (after.programs (n + 2)
        ≡ (read_data ready.fs inode 0 (ready.programs (n + 2)) (ready.fs.inodes inode).length).1)
unfolding is_named strncmp strncmp_from get_file_name take_name
execute_lem_example =
    execute_lem (codes "hi") zeros ready refl (λ e. omega (arith, found, e)) executable
      (omega arith) (λ e. omega (arith, next, e)) (omega arith) (omega arith) (λ e. omega arith)
      (λ e. omega arith)

machine-IsSound : IsSound machine
machine-IsSound = record {
  lines = λ t. omega arith;
  shown = omega arith;
  turn = omega arith;
  all_run = omega arith;
  settled = omega arith;
  masks = record { master = omega arith; slave = omega arith };
  clock = omega arith;
  rates = λ t h. (omega arith, omega arith);
}

abbrev key_pressed : Kernel
key_pressed = last_kernel (hardware_handler 33 0x1E zeros machine)

Step-IsSound_example : IsSound (last_kernel (hardware_handler 33 0x1E zeros machine))
Step-IsSound_example = Step-IsSound (hardware 33 0x1E zeros) machine-IsSound

Reach-clock_example :
    let divisor =
      u32 (key_pressed.rtc.desired_virtualized_frequency key_pressed.schedule_idx * 3) in
    (0 < divisor)
    × (divisor ≤ 3072)
    × (key_pressed.rtc.rtc_idx < 3)
    × (key_pressed.schedule_idx < 3)
Reach-clock_example = Reach-clock (step start (hardware 33 0x1E zeros)) machine-IsSound

printf_lem_example :
    printf zeros text stack (format pieces) machine.console
    ≡ (length (format pieces), show_all zeros text pieces machine.console)
printf_lem_example =
    printf_lem zeros text stack pieces machine.console pieces-ArePieces pieces-pushed

-- the machine after `open("notes")`
abbrev reopened : Kernel
reopened = (open_file (some (codes "notes")) 0 machine).1

machine-HasTables : HasTables machine.pcbs
machine-HasTables = record {
  of = λ p. record {
    each =
        λ i. by_branch (λ (d : FileDescriptor). has_table d ≡ true) (ltb 1 i && ltb i 5) refl refl;
  };
}

reopened-flags : (descriptors reopened 4 5).flags ≡ 1
unfolding open_file open_of file_open open_descriptor free_slot read_dentry_by_name search_dentry
    read_dentry_by_index strlen strncmp strncmp_from strncpy copy_until_nul fill
reopened-flags = refl

Reach-tables_example : (descriptors reopened 4 5).operations ≢ no_fop
Reach-tables_example =
    Reach-tables 4 5 (step start (opens (some (codes "notes")) 0)) machine-HasTables
      (λ e. omega (arith, reopened-flags, e))
