-- ===== src/Lib.antt =====
-- A model of the 391OS kernel (student-distrib/) and what holds of it.
--
-- The kernel runs three terminals on one processor. A keyboard interrupt edits the line of the
-- terminal on the screen; the timer passes the processor from one terminal's process to the next;
-- a process works on files, the clock and its terminal by system calls on its eight descriptors.
--
-- - Common: Boolean tests, arrays as functions of the index, machine words as bit patterns.
-- - Strings: the string functions of student-distrib/lib.c. A C string that is an argument is the
--   list of its bytes, with NULs behind. Format: printf, itoa and strrev of that file. Memory: its
--   memset, memcpy and memmove, which are assembly, on memory as an array of bytes.
-- - Files: the image of student-distrib/filesys.c (read_dentry_by_name, read_dentry_by_index,
--   read_data). Descriptors: the operations of that file on the descriptors of a process.
-- - Machine: the structures and the global variables, as the record `Kernel`.
-- - Pic: student-distrib/i8259.c. Rtc: student-distrib/rtc.c.
-- - Console: the screen of student-distrib/lib.c (putc, puts, clear, vertical_scroll).
-- - Terminal: student-distrib/terminal.c, with background_putc, switch_video_mem and
--   switch_terminals. Keyboard: student-distrib/keyboard.c, the whole handler.
-- - Syscalls: the calls of student-distrib/system_call.c on descriptors and arguments, through the
--   tables of functions. Processes: its execute and halt.
-- - Paging: student-distrib/paging.c, paging_execute, disable_child_page and vidmap.
-- - Scheduler: student-distrib/scheduling.c and pit_init of student-distrib/pit.c.
-- - Interrupts: student-distrib/idt_helper.c, student-distrib/idt_handler.c and pit_handler. The
--   addresses of the assembly entries are an argument.
-- - System: every way into the kernel as one step of a relation, and what holds between two steps
--   once the three shells run. System/Tables: the tables that open descriptors point to.
-- - Boot: entry of student-distrib/kernel.c, with enable_cursor of student-distrib/lib.c and the
--   segment descriptors of student-distrib/x86_desc.h. The record `Environment` is what it finds: the
--   memory that the boot loader filled, what ports give that are read, and the addresses that the
--   linker chose. Boot/Shell, Boot/Launch and Boot/Ticks: the start of the three shells.
-- - Programs: cat, ls, hello, grep, counter, pingpong, testprint and the shell of syscalls/, and what
--   they use of syscalls/ece391support.c, over a record of the system calls. What `cat` needs of
--   `read` is what Syscalls/ReadFile shows of the kernel's `read`. Programs/Errors:
--   syscalls/ece391syserr.c; Programs/OnKernel fills the record with the calls of the kernel. What a
--   program that `execute` enters and a read that waits come to is an argument there.
--   Programs/Ls: `ls` over the calls of a directory, and, in Programs/Ls/Directory, on the kernel
--   down to the image; Programs/Cat/OfKernel: what `cat` relies on, shown of the calls of the
--   kernel; Programs/Screen: the same of what `counter` does; Programs/Shell: the shell over the
--   lines that the user types, as student-distrib/terminal.c hands them over.
-- - Fish: fish/fish.c over the same record and the routines of fish/blink.S, which are assembly and
--   arguments.
-- - Tests: the theorems at concrete inputs.
--
-- An `int32_t` is its bit pattern below 2 ^ 32, and -1 is `minus_one`; sums wrap around by
-- `add32`. A function that changes the kernel takes it and returns it. A read that waits for an
-- interrupt is a `Reply`: one turn of its loop, which waits or returns. The PCBs stand at addresses
-- that repeat modulo 2 ^ 19 processes, so they are an array with that index. Memory of user
-- programs is an array of pages. Loops recurse on the number of rounds that their bound gives; the
-- search for a PCB ends at 512, which is its number of rounds; `itoa` divides at most 32 times.
-- The loop of `entry` over the memory map has at most as many rounds as the map has bytes.
-- The loops of the programs run on fuel, and the result is `none` where it runs out; `pingpong`,
-- which never ends, is cut off after a number of rounds.
--
-- Not modelled: assembly files (boot, interrupt linkage, context_switch), the TLB, the segment
-- registers, the kernel's own tests, the signal test, and the emulation layer for another system in
-- syscalls/ and fish/.
-- What an uninitialised variable holds is an argument (`garbage`).
pub mod Common
pub mod Strings
pub mod Files
pub mod Fish
pub mod Machine
pub mod Pic
pub mod Console
pub mod Descriptors
pub mod Rtc
pub mod Terminal
pub mod Keyboard
pub mod Syscalls
pub mod Paging
pub mod Processes
pub mod Scheduler
pub mod Tests
pub mod Format
pub mod Memory
pub mod Interrupts
pub mod System
pub mod Programs
pub mod Boot
