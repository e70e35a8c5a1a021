-- ===== src/Scheduler/Turn.antt =====
-- What a turn of the scheduler does once the three shells run.
use os.Common.{◌+◌, ◌%◌, ◌<◌, ◌≡◌, arith}
use os.Machine.{Kernel}
use os.Processes.{pcb_of}
use os.Scheduler.{finish_launch, restore, switch_process}

-- If the turn is that of one of the three terminals, a switch of processes moves it to the next of
-- the three terminals, and makes the process that is queued there the current one. Its own
-- registers are loaded, as they stand in its PCB, and the registers of the process that ran before
-- are kept in that one's PCB.
pub switch_process_lem :
    (k : Kernel)
    → k.schedule_idx < 3
    → let end = switch_process k in
      (end.schedule_idx ≡ (k.schedule_idx + 1) % 3)
      × (end.process_num ≡ k.tasks.schedule_array end.schedule_idx)
      × (end.tasks.esp ≡ (pcb_of end end.process_num).saved_esp)
      × (end.tasks.ebp ≡ (pcb_of end end.process_num).saved_ebp)
      × ((pcb_of end k.process_num).saved_esp ≡ k.tasks.esp)
      × ((pcb_of end k.process_num).saved_ebp ≡ k.tasks.ebp)
unfolding switch_process restore finish_launch
switch_process_lem k turn =
    (ground arith, ground arith, ground arith, ground arith, ground arith, ground arith)
