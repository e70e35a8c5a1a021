-- ===== src/Machine.antt =====
-- The kernel's global state: the structures of filesys.h, lib.h and system_call.h, the globals of
-- the other files, and what the processor and the devices hold.
use os.Common.{ℕ, ◌+◌, ◌%◌, ◌^◌, Bool, true, false, List, Array, Bytes, update}
use os.Files.{FileSystem}

-- `fop_table_t`: which of the tables a descriptor points to. `no_fop` is the null pointer of a
-- descriptor that was never opened.
pub data FileOps : Type 0 where
  no_fop stdin_fop stdout_fop rtc_fop directory_fop file_fop : FileOps

pub record FileDescriptor : Type 0 where
  pub operations : FileOps
  pub inode : ℕ
  pub file_position : ℕ
  pub flags : ℕ

pub record Pcb : Type 0 where
  pub pid : ℕ
  pub parent_id : ℕ
  pub saved_esp : ℕ
  pub saved_ebp : ℕ
  pub saved_parents_esp : ℕ
  pub saved_parents_ebp : ℕ
  pub active : ℕ
  pub entry_point : ℕ
  pub is_shell : ℕ
  pub is_base_shell : ℕ
  pub terminal_num : ℕ
  pub file_descriptor : Array FileDescriptor

-- `terminal_storage`, less the pointers that only remember where a buffer is
pub record Terminal : Type 0 where
  pub curr_pid : ℕ
  pub save_x : ℕ
  pub save_y : ℕ
  pub keyboard_buffer : Bytes
  pub buffer_ct : ℕ
  pub enter_read : ℕ
  pub active : ℕ

-- The interrupt flag of the processor, the masks of i8259.c, and the bytes sent to the ports of
-- the interrupt controllers, as (value, port), the latest first.
pub record Hardware : Type 0 where
  pub interrupts : Bool
  pub master_mask : ℕ
  pub slave_mask : ℕ
  pub ports : List (ℕ × ℕ)

-- the globals of rtc.c
pub record Rtc : Type 0 where
  pub desired_virtualized_frequency : Array ℕ
  pub interrupt_flag : Array ℕ
  pub interrupt_count : Array ℕ
  pub rtc_idx : ℕ

-- The cursor and the video memory of lib.c, `row_letter_ct` of keyboard.c, and the bytes sent to
-- the ports of the display. `video` is indexed from `VIDEO` on, so terminal `t` has its own page
-- from `(t + 1) * 4096` on.
pub record Console : Type 0 where
  pub screen_x : ℕ
  pub screen_y : ℕ
  pub video : Bytes
  pub row_letter_ct : ℕ
  pub ports : List (ℕ × ℕ)

-- the key flags of keyboard.c
pub record Keys : Type 0 where
  pub ctrl : ℕ
  pub shift : ℕ
  pub caps : ℕ
  pub alt : ℕ
  pub newline_bs_flag : ℕ

-- The tables of paging.h, and the addresses where the linker put the last two.
pub record Pages : Type 0 where
  pub page_dir : Array ℕ
  pub first_page_table : Array ℕ
  pub vidmap_page_table : Array ℕ
  pub first_page_table_at : ℕ
  pub vidmap_page_table_at : ℕ

-- The globals that say which processes run: those of scheduling.c and system_call.c, the field
-- `esp0` of the task state segment, and the registers that `asm` statements read and write.
pub record Tasks : Type 0 where
  pub pit_count : ℕ
  pub schedule_array : Array ℕ
  pub process_count : ℕ
  pub shell_process_count : ℕ
  pub shell_halt_flag : ℕ
  pub base_shell_id : ℕ
  pub saved_status_num : ℕ
  pub esp0 : ℕ
  pub esp : ℕ
  pub ebp : ℕ

pub record Kernel : Type 0 where
  pub fs : FileSystem
  pub pcbs : Array Pcb
  pub process_num : ℕ
  pub schedule_idx : ℕ
  pub terminal_num : ℕ
  pub terminal : Array Terminal
  pub hardware : Hardware
  pub rtc : Rtc
  pub console : Console
  pub keys : Keys
  pub pages : Pages
  pub tasks : Tasks
  -- for each large page of physical memory, its bytes from offset 0x48000 on
  pub programs : Array Bytes
  pub hello_flag : ℕ
  pub cat_flag : Array ℕ
  pub stored_buf : Bytes

-- The PCB of process `n` is at `EIGHT_MB - EIGHT_KB * (n + 1)`, addresses taken modulo 2 ^ 32: so
-- the PCBs are numbered by `n + 1` modulo 2 ^ 19.
abbrev pub slot : ℕ → ℕ
slot n = (n + 1) % 2 ^ 19

-- the process that owns the processor for the scheduler: `terminal[schedule_idx].curr_pid`
abbrev pub scheduled : Kernel → ℕ
scheduled k = slot (k.terminal k.schedule_idx).curr_pid

abbrev pub descriptors : Kernel → ℕ → Array FileDescriptor
descriptors k p = (k.pcbs p).file_descriptor

-- the kernel with other descriptors in the PCB number `p`
abbrev pub with_descriptors : Kernel → ℕ → Array FileDescriptor → Kernel
with_descriptors k p fds = record k {
  pcbs = update k.pcbs p (record (k.pcbs p) { file_descriptor = fds });
}

-- `cli` and `sti`
abbrev pub cli : Kernel → Kernel
cli k = record k { hardware = record (k.hardware) { interrupts = false } }

abbrev pub sti : Kernel → Kernel
sti k = record k { hardware = record (k.hardware) { interrupts = true } }

-- What a read does: it still waits for an interrupt, or returns a result and fills the buffer.
pub data Reply : Type 0 where
  waits : Kernel → Reply
  returns : ℕ → Bytes → Kernel → Reply
