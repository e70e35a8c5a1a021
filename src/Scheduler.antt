-- ===== src/Scheduler.antt =====
-- student-distrib/scheduling.c: the scheduler, which the timer of pit.c calls.
pub mod Turn
use os.Common.{
  ℕ, zero, suc, ◌+◌, ◌-◌, ◌*◌, ◌/◌, ◌%◌, ◌^◌, ◌≤◌, ◌<◌, min, ◌≡◌, refl, sym, ap, ◌∙◌, ◌≢◌, ◌↔◌, ◌⊎◌,
  inl, inr, Bool, true, false, not, ◌&&◌, ◌||◌, Option, none, some, List, [], ◌∷◌, ◌++◌, arith,
  dec_lt, ℕ_discrete, ltb, leb, ◌==◌, if◌then◌else◌, ltb→lt, lt→ltb, leb→le, ==_iff, Bool-cases,
  Option-cases, u8, u32, add32, sub32, minus_one, is_neg, slt, sign_extend8, Array, Bytes, update,
  length, get_or, set, char_at, copy, copy_lem, tests, holds_up_to, holds_at, bit_and, bit_or,
  codes,
}
use os.Machine.{Pcb, Kernel, cli, sti}
use os.Pic.{send_eoi_of, enable_irq_of}
use os.Console.{clear}
use os.Terminal.{on_console, switch_terminals}
use os.Paging.{map_video, paging_execute}
use os.Processes.{Outcome, returned, pcb_of, with_pcb, with_tasks, stack_top, execute}

-- the page of memory that a program of terminal `t` sees at 132 MB
abbrev pub video_page_of : ℕ → ℕ → ℕ
video_page_of shown t = if t == shown then 0xB8 else add32 (add32 0xB8 t) 1

-- a base shell, as the scheduler marks the one that it has launched
abbrev pub launched : Pcb → Pcb
launched p = record p { is_shell = 1; is_base_shell = 1; parent_id = minus_one; active = 1 }

-- the registers go to the PCB of the current process
abbrev pub save_registers : Kernel → Kernel
save_registers k =
    with_pcb k.process_num
      (record (pcb_of k k.process_num) { saved_esp = k.tasks.esp; saved_ebp = k.tasks.ebp }) k

-- what happens once, when all three shells run
unfoldable pub finish_launch : Kernel → Kernel
finish_launch k =
    if k.tasks.pit_count == 3
    then with_tasks (record (k.tasks) { pit_count = 4 })
        (with_pcb k.process_num (launched (pcb_of k k.process_num)) k)
    else k

abbrev pub next_turn : ℕ → ℕ
next_turn schedule_idx = if ltb schedule_idx 2 then schedule_idx + 1 else 0

-- the registers and the tables of the process whose turn it is
unfoldable pub restore : Kernel → Kernel
restore k =
    let idx = next_turn k.schedule_idx in
    let next_pid = k.tasks.schedule_array idx in
    let next = pcb_of k next_pid in
    record k {
      schedule_idx = idx;
      process_num = next_pid;
      pages =
          paging_execute next.pid
            (map_video (video_page_of k.terminal_num next.terminal_num) k.pages);
      tasks = record (k.tasks) {
        esp0 = stack_top next.pid;
        esp = next.saved_esp;
        ebp = next.saved_ebp;
      };
    }

unfoldable pub switch_process : Kernel → Kernel
switch_process k = send_eoi_of 0 (restore (finish_launch (save_registers k)))

-- `scheduler`. The first three calls launch the shells and do not come back unless `execute` does.
unfoldable pub scheduler : Bytes → Kernel → Outcome
scheduler garbage k =
    let t = k.tasks.pit_count in
    let first = switch_terminals 0 0 (on_console clear (send_eoi_of 0 k)) in
    let saved = save_registers k in
    let p = record (pcb_of saved k.process_num) { is_shell = 1; active = 1 } in
    let waiting = send_eoi_of 0 (with_pcb k.process_num p saved) in
    let more =
      switch_terminals (t - 1) t (record waiting { schedule_idx = add32 k.schedule_idx 1 }) in
    if t == 0
    then execute (codes "shell") garbage first
    else if slt t 3
    then execute (codes "shell") garbage more
    else returned 0 (switch_process k)

unfoldable pub pit_init : Kernel → Kernel
pit_init k = sti (enable_irq_of 0 (cli k))
