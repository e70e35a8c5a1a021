-- ===== src/Tests/Calls.antt =====
-- The theorems on processes, paging and the calls, at a concrete input.
use os.Common.{
  ℕ, ◌+◌, ◌-◌, ◌%◌, ◌<◌, min, ◌≡◌, refl, true, none, some, ◌∷◌, ◌++◌, arith, ltb, leb, ◌==◌,
  if◌then◌else◌, minus_one, Bytes, length, char_at, codes,
}
use os.Tests.{machine, zeros, three}
use os.Processes.Halt.{halt_lem}
use os.Scheduler.Turn.{switch_process_lem}
use os.Syscalls.Arguments.{getargs_lem}
use os.Syscalls.Arguments.{parse_args_lem}
use os.Syscalls.Dispatch.{calls_enable_interrupts}
use os.Syscalls.Dispatch.{read_result}
use os.Syscalls.Dispatch.{read_null_masks_timer}
use os.Paging.Entries.{paging_execute-isolates}
use os.Interrupts.Dispatch.{exc_handler_lem}
use os.Syscalls.ReadFile.{read-file_lem}
use os.Syscalls.Dispatch.{IsReadResult}
use os.Processes.Halt.{IsResumed}
use os.Machine.{Kernel}
use os.Syscalls.Dispatch.{after}
use os.Syscalls.{close}
use os.Descriptors.Read.{descriptor}
use os.Interrupts.{exc_handler}
use os.Files.Transfer.{file_byte}
use os.Syscalls.{getargs}
use os.Processes.{halt}
use os.Descriptors.Read.{inode_of}
use os.Syscalls.Dispatch.{interrupts_after}
use os.Pic.Masks.{is_masked}
use os.Paging.Entries.{is_present}
use os.Paging.Entries.{large_base}
use os.Processes.Halt.{last_kernel}
use os.Syscalls.{open_file}
use os.Syscalls.{parse_args}
use os.Processes.{pcb_of}
use os.Syscalls.{read}
use os.Syscalls.Dispatch.{result}
use os.Processes.Halt.{returned_status}
use os.Machine.{returns}
use os.Scheduler.{switch_process}
use os.Syscalls.{write}

halt_lem_example :
    let parent = (pcb_of machine machine.process_num).parent_id in
    let end = last_kernel (halt 7 0 machine) in
    (returned_status (halt 7 0 machine) ≡ some 7)
    × (end.process_num ≡ parent)
    × ((pcb_of end parent).active ≡ 1)
    × ((pcb_of end machine.process_num).active ≡ 0)
    × (is_present (end.pages.page_dir 32) ≡ true)
    × (large_base (end.pages.page_dir 32) ≡ parent + 2)
    × IsResumed (pcb_of machine machine.process_num) (pcb_of machine parent) end
halt_lem_example =
    halt_lem 7 0 machine refl (λ e. omega arith) (omega arith) (omega arith) (λ e. omega arith)

switch_process_lem_example :
    let end = switch_process machine in
    (end.schedule_idx ≡ (machine.schedule_idx + 1) % 3)
    × (end.process_num ≡ machine.tasks.schedule_array end.schedule_idx)
    × (end.tasks.esp ≡ (pcb_of end end.process_num).saved_esp)
    × (end.tasks.ebp ≡ (pcb_of end end.process_num).saved_ebp)
    × ((pcb_of end machine.process_num).saved_esp ≡ machine.tasks.esp)
    × ((pcb_of end machine.process_num).saved_ebp ≡ machine.tasks.ebp)
switch_process_lem_example = switch_process_lem machine (omega arith)

getargs_lem_example :
    ((getargs zeros 16 machine).0 ≡ 0)
    × ((i : ℕ)
        → (getargs zeros 16 machine).1 i
          ≡ (if leb i (length (codes "notes")) then char_at (codes "notes") i else zeros i))
getargs_lem_example =
    getargs_lem (codes "notes") zeros 16 machine (ground arith) (omega arith) (omega arith)
      (λ i h. refl)

parse_args_lem_example :
    parse_args (((b'c') ∷ (codes "at")) ++ (b' ' ∷ (codes "notes"))) zeros 5
    ≡ char_at (codes "notes") 5
parse_args_lem_example =
    parse_args_lem (b'c') (codes "at") (codes "notes") zeros 5 (ground arith) (ground arith)
      (omega arith) (omega arith)

calls_enable_interrupts_example :
    (interrupts_after (read 2 (some zeros) 10 machine) ≡ true)
    × ((write 2 (some zeros) 10 machine).1.hardware.interrupts ≡ true)
    × ((open_file (some (codes "notes")) 0 machine).1.hardware.interrupts ≡ true)
    × ((close 2 machine).1.hardware.interrupts ≡ true)
calls_enable_interrupts_example =
    calls_enable_interrupts 2 (some zeros) (some (codes "notes")) 0 10 machine

read_result_example : IsReadResult 10 (result (read 2 (some zeros) 10 machine))
read_result_example = read_result 2 (some zeros) 10 machine

read_null_masks_timer_example :
    (result (read 0 none 10 machine) ≡ some minus_one)
    × (is_masked (after (read 0 none 10 machine)).hardware 0 ≡ (0 == 0))
read_null_masks_timer_example =
    read_null_masks_timer 0 10 machine (record { master = omega arith; slave = omega arith })

paging_execute-isolates_example : three ≡ three
paging_execute-isolates_example =
    paging_execute-isolates three three (machine.pages) (omega arith) (omega arith) refl

exc_handler_lem_example :
    let end = exc_handler 14 0 machine in
    (returned_status end ≡ some 256)
    × ((last_kernel end).process_num ≡ (pcb_of machine machine.process_num).parent_id)
    × ((pcb_of (last_kernel end) machine.process_num).active ≡ 0)
exc_handler_lem_example =
    exc_handler_lem 14 0 machine (omega arith) refl (λ e. omega arith) (omega arith) (omega arith)
      (λ e. omega arith)

read-file_lem_example :
    let d = descriptor machine 2 in
    let m = min 10 ((inode_of machine 2).length - d.file_position) in
    (buf' : Bytes) × (k' : Kernel) × (read 2 (some zeros) 10 machine ≡ returns 10 buf' k')
    × ((j : ℕ)
        → j < 10
        → buf' j ≡ (
            if ltb j m then file_byte machine.fs (inode_of machine 2) (d.file_position + j) else 0))
    × ((descriptor k' 2).file_position ≡ d.file_position + m)
read-file_lem_example =
    read-file_lem machine 2 zeros 10 refl (omega arith) (omega arith) refl (λ e. omega arith)
      (omega arith) (omega arith) (omega arith) (omega arith) (omega arith)
