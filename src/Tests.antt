-- ===== src/Tests.antt =====
-- A small machine: one process with an open file, a directory of one file, and three terminals.
pub mod Storage
pub mod Devices
pub mod Calls
pub mod Programs
pub mod Start
pub mod Users
use os.Common.{
  ℕ, zero, suc, ◌+◌, ◌-◌, ◌*◌, ◌/◌, ◌%◌, ◌^◌, ◌≤◌, ◌<◌, min, ◌≡◌, refl, sym, ap, ◌∙◌, ◌≢◌, ◌↔◌, ◌⊎◌,
  inl, inr, Bool, true, false, not, ◌&&◌, ◌||◌, Option, none, some, List, [], ◌∷◌, ◌++◌, arith,
  dec_lt, ℕ_discrete, ltb, leb, ◌==◌, if◌then◌else◌, ltb→lt, lt→ltb, leb→le, ==_iff, Bool-cases,
  Option-cases, u8, u32, add32, sub32, minus_one, is_neg, slt, sign_extend8, Array, Bytes, update,
  length, get_or, set, char_at, copy, copy_lem, tests, holds_up_to, holds_at, bit_and, bit_or,
  codes,
}
use os.Format.Print.{Piece, literal, padded, percent, string, ArePieces, words}
use os.Interrupts.{Gate}
use os.Files.{Dentry, Inode, FileSystem}
use os.Machine.{
  stdin_fop, stdout_fop, file_fop, no_fop, FileDescriptor, Pcb, Terminal, Hardware, Rtc, Console,
  Keys, Pages, Tasks, Kernel,
}

abbrev pub disk : FileSystem
disk = record {
  dir_count = 1;
  inode_count = 1;
  data_count = 1;
  direntries = λ _. record { filename = char_at (codes "notes"); file_type = 2; inode_num = 0 };
  inodes = λ _. record { length = 6; data_blocks = λ _. 0 };
  data_bytes = char_at (codes "hello\n");
}

abbrev pub fds : Array FileDescriptor
fds i =
    if ltb 1 i && ltb i 5
    then record {
      operations = file_fop;
      inode = 0;
      file_position = if i == 2 then 1 else if i == 3 then 6 else 0;
      flags = 1;
    }
    else record { operations = no_fop; inode = 0; file_position = 0; flags = 0 }

-- process `n`, a child of process 0 in terminal 0
abbrev pub process : ℕ → Pcb
process n = record {
  pid = n;
  parent_id = 0;
  saved_esp = 100 + n;
  saved_ebp = 200 + n;
  saved_parents_esp = 300;
  saved_parents_ebp = 400;
  active = 1;
  entry_point = 0x08048000;
  is_shell = 0;
  is_base_shell = 0;
  terminal_num = 0;
  file_descriptor = fds;
}

abbrev pub screen : Terminal
screen = record {
  curr_pid = 3;
  save_x = 0;
  save_y = 0;
  keyboard_buffer = char_at (codes "ls");
  buffer_ct = 2;
  enter_read = 1;
  active = 1;
}

abbrev pub machine : Kernel
machine = record {
  fs = disk;
  pcbs = λ n. process (n - 1);
  process_num = 3;
  schedule_idx = 0;
  terminal_num = 0;
  terminal = λ _. screen;
  hardware = record { interrupts = true; master_mask = 0xF8; slave_mask = 0xEE; ports = [] };
  rtc = record {
    desired_virtualized_frequency = λ _. 1024;
    interrupt_flag = λ _. 1;
    interrupt_count = λ _. 0;
    rtc_idx = 0;
  };
  console = record { screen_x = 3; screen_y = 2; video = λ _. 32; row_letter_ct = 3; ports = [] };
  keys = record { ctrl = 0; shift = 0; caps = 0; alt = 0; newline_bs_flag = 0 };
  pages = record {
    page_dir = λ _. 0;
    first_page_table = λ _. 0;
    vidmap_page_table = λ _. 0;
    first_page_table_at = 0x410000;
    vidmap_page_table_at = 0x411000;
  };
  tasks = record {
    pit_count = 4;
    schedule_array = λ i. i;
    process_count = 4;
    shell_process_count = 3;
    shell_halt_flag = 0;
    base_shell_id = 0;
    saved_status_num = 0;
    esp0 = 0;
    esp = 500;
    ebp = 600;
  };
  programs = λ _ _. 0;
  hello_flag = 0;
  cat_flag = λ _. 0;
  stored_buf = char_at (codes "notes");
}

abbrev pub zeros : Bytes
zeros _ = 0

abbrev pub three : ℕ
three = 3

abbrev pub four : ℕ
four = 4

abbrev pub inode_number : Dentry → ℕ
inode_number d = d.inode_num

-- a call of `printf` with a format of four pieces
abbrev pub text : ℕ → List ℕ
text _ = codes "ls"

abbrev pub stack : Array ℕ
stack i = get_or (0x1E ∷ 7 ∷ []) i 0

abbrev pub pieces : List Piece
pieces = literal (codes "at ") ∷ padded 0x1E ∷ percent ∷ string 7 ∷ []

pub pieces-ArePieces : ArePieces pieces
pieces-ArePieces = (
  (
    λ e. omega arith,
    λ e. omega arith,
    (λ e. omega arith, λ e. omega arith, (λ e. omega arith, λ e. omega arith, _)),
  ),
  (_, (_, (_, _))),
)

pub pieces-pushed : (i : ℕ) → i < length (words pieces) → stack i ≡ get_or (words pieces) i 0
unfolding words
pieces-pushed i h = refl

abbrev pub lines : Bytes
lines i = i

abbrev pub addresses : ℕ → ℕ
addresses vector = 0x400000 + 16 * vector

abbrev pub no_gates : Array Gate
no_gates _ = record {
  offset_15_00 = 0;
  offset_31_16 = 0;
  seg_selector = 0;
  reserved3 = 0;
  reserved2 = 0;
  reserved1 = 0;
  size = 0;
  reserved0 = 0;
  dpl = 0;
  present = 0;
}

-- the machine with a program of 28 bytes on its disk, and the processes from 5 on free
abbrev pub ready : Kernel
ready = record machine {
  fs = record disk {
    direntries = λ _. record { filename = char_at (codes "hi"); file_type = 2; inode_num = 0 };
    inodes = λ _. record { length = 28; data_blocks = λ _. 0 };
    data_bytes = λ i.
        if i == 0
        then 0x7F
        else if i == 25
        then 0x80
        else if i == 26
        then 4
        else if i == 27
        then 8
        else char_at (codes ".ELF") i;
  };
  pcbs = λ n. record (process (n - 1)) { active = if ltb n 6 then 1 else 0 };
}
