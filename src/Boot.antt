-- ===== src/Boot.antt =====
-- student-distrib/kernel.c: `entry`, which the assembly of boot.S calls, with the descriptors of
-- x86_desc.h and the structures of multiboot.h, and enable_cursor of lib.c.
pub mod Shell
pub mod Entry
pub mod Launch
pub mod Ticks
use os.Common.{
  ℕ, zero, suc, ◌+◌, ◌-◌, ◌*◌, ◌/◌, ◌%◌, ◌^◌, ◌≤◌, ◌<◌, min, ◌≡◌, refl, sym, ap, ◌∙◌, ◌≢◌, ◌↔◌, ◌⊎◌,
  inl, inr, Bool, true, false, not, ◌&&◌, ◌||◌, Option, none, some, List, [], ◌∷◌, ◌++◌, arith,
  dec_lt, ℕ_discrete, ltb, leb, ◌==◌, if◌then◌else◌, ltb→lt, lt→ltb, leb→le, ==_iff, Bool-cases,
  Option-cases, u8, u32, add32, sub32, minus_one, is_neg, slt, sign_extend8, Array, Bytes, update,
  length, get_or, get_elem?, get_elem?_lem, set, char_at, copy, copy_lem, tests, holds_up_to,
  holds_at, bit_and, bit_or, codes,
}
use os.Machine.{Console, Kernel, cli, sti}
use os.Files.{load32, init_filesys}
use os.Format.{printf}
use os.Console.{clear}
use os.Terminal.{on_console}
use os.Pic.{i8259_init}
use os.Keyboard.{keyboard_init}
use os.Rtc.{rtc_init}
use os.Paging.{init_paging}
use os.Scheduler.{pit_init}
use os.Interrupts.{Gate, init_idt, populate_idt}

-- `seg_desc_t`, an entry of the table of segments
pub record SegDesc : Type 0 where
  pub seg_lim_15_00 : ℕ
  pub base_15_00 : ℕ
  pub base_23_16 : ℕ
  pub type : ℕ
  pub sys : ℕ
  pub dpl : ℕ
  pub present : ℕ
  pub seg_lim_19_16 : ℕ
  pub avail : ℕ
  pub reserved : ℕ
  pub opsize : ℕ
  pub granularity : ℕ
  pub base_31_24 : ℕ

-- `SET_LDT_PARAMS` and `SET_TSS_PARAMS`, whose text is the same
unfoldable pub set_params : ℕ → ℕ → SegDesc → SegDesc
set_params addr lim str = record str {
  base_31_24 = addr / 2 ^ 24 % 2 ^ 8;
  base_23_16 = addr / 2 ^ 16 % 2 ^ 8;
  base_15_00 = addr % 2 ^ 16;
  seg_lim_19_16 = lim / 2 ^ 16 % 2 ^ 4;
  seg_lim_15_00 = lim % 2 ^ 16;
}

-- The two descriptors before their base and limit are set: what `str` holds there is overwritten.
abbrev pub the_ldt_desc : SegDesc → SegDesc
the_ldt_desc str = record str {
  granularity = 0;
  opsize = 1;
  reserved = 0;
  avail = 0;
  present = 1;
  dpl = 0;
  sys = 0;
  type = 2;
}

abbrev pub the_tss_desc : SegDesc → SegDesc
the_tss_desc str = record str {
  granularity = 0;
  opsize = 0;
  reserved = 0;
  avail = 0;
  seg_lim_19_16 = 0;
  present = 1;
  dpl = 0;
  sys = 0;
  type = 9;
  seg_lim_15_00 = 104;
}

-- `CHECK_FLAG`
abbrev pub check_flag : ℕ → ℕ → Bool
check_flag flags bit = flags / 2 ^ bit % 2 == 1

-- The fields of `multiboot_info_t` at `mbi`, in the memory `m`, by their number.
abbrev pub info : Bytes → ℕ → ℕ → ℕ
info m mbi i = load32 m (mbi + 4 * i)

-- `enable_cursor`: `low` and `high` are what the two reads of the port give.
unfoldable pub enable_cursor : ℕ → ℕ → ℕ → ℕ → Console → Console
enable_cursor low high cursor_start cursor_end con = record con {
  ports =
      (u8 (bit_or (bit_and high 0xE0) cursor_end), 0x3D5)
      ∷ (0x0B, 0x3D4)
      ∷ (u8 (bit_or (bit_and low 0xC0) cursor_start), 0x3D5)
      ∷ (0x0A, 0x3D4)
      ∷ con.ports;
}

-- What the kernel finds: the memory, also as strings, what lies on the stack where `printf` puts its
-- digits, what ports give that are read, the addresses that the linker and the assembler chose, and
-- the two descriptors on the stack before they are filled in.
pub record Environment : Type 0 where
  pub memory : Bytes
  pub text_at : ℕ → List ℕ
  pub garbage : Bytes
  pub cursor_low : ℕ
  pub cursor_high : ℕ
  pub rtc_a : ℕ
  pub rtc_b : ℕ
  pub rtc_index : ℕ
  pub linkage : ℕ → ℕ
  pub ldt : ℕ
  pub ldt_size : ℕ
  pub tss : ℕ
  pub tss_size : ℕ
  pub idt : Array Gate
  pub some_desc : SegDesc

-- where `entry` ends: it returns to the assembly, or it halts with interrupts enabled
pub data Start : Type 0 where
  stopped : Kernel → Start
  running : SegDesc → SegDesc → Array Gate → Kernel → Start

abbrev pub left_by : Start → Kernel
left_by (stopped k) = k
left_by (running ldt tss idt k) = k

-- the globals that `entry` sets, and the timer
unfoldable pub start_tasks : Kernel → Kernel
start_tasks k = pit_init (record k {
  process_num = minus_one;
  schedule_idx = 0;
  tasks = record (k.tasks) { shell_process_count = 0; pit_count = 0; process_count = 0 };
})

module _ (env : Environment) where
  abbrev pub say : List ℕ → List ℕ → Console → Console
  say format words con = (printf env.garbage env.text_at (char_at words) format con).1

  abbrev pub say_if : Bool → List ℕ → List ℕ → Console → Console
  say_if b format words con = if b then say format words con else con

  -- the loop over the first bytes of a module, with `rounds` bytes left
  unfoldable pub say_bytes : ℕ → ℕ → Console → Console
  say_bytes zero at con = con
  say_bytes (suc rounds) at con =
      say_bytes rounds (at + 1) (say (codes "0x%x ") (sign_extend8 (env.memory at) ∷ []) con)

  -- the loop over the modules, with `rounds` left; a `module_t` has 16 bytes
  unfoldable pub say_modules : ℕ → ℕ → ℕ → Console → Console
  say_modules zero mod_count at con = con
  say_modules (suc rounds) mod_count at con =
      let mod_start = load32 env.memory at in
      let mod_end = load32 env.memory (at + 4) in
      let begins =
        say (codes "Module %d loaded at address: 0x%#x\n") (mod_count ∷ mod_start ∷ []) con in
      let ends =
        say (codes "Module %d ends at address: 0x%#x\n") (mod_count ∷ mod_end ∷ []) begins in
      let listed = say_bytes 16 mod_start (say (codes "First few bytes of module:\n") [] ends) in
      say_modules rounds (mod_count + 1) (at + 16) (say (codes "\n") [] listed)

  -- the loop over the memory map, with `rounds` left: an entry has at least four bytes
  unfoldable pub say_map : ℕ → ℕ → ℕ → Console → Console
  say_map zero at end con = con
  say_map (suc rounds) at end con =
      let w = λ (i : ℕ). load32 env.memory (at + 4 * i) in
      let shown =
        say
          (codes "    size = 0x%x, base_addr = 0x%#x%#x\n    type = 0x%x,  length    = 0x%#x%#x\n")
          (w 0 ∷ w 2 ∷ w 1 ∷ w 5 ∷ w 4 ∷ w 3 ∷ []) con in
      let rest = say_map rounds (add32 at (w 0 + 4)) end shown in if ltb at end then rest else con

  -- what is printed before the test of the flags 4 and 5
  unfoldable pub say_info : ℕ → Console → Console
  say_info mbi con =
      let at = info env.memory mbi in
      let flags = say (codes "flags = 0x%#x\n") (at 0 ∷ []) con in
      let mem =
        say_if (check_flag (at 0) 0) (codes "mem_lower = %uKB, mem_upper = %uKB\n")
          (at 1 ∷ at 2 ∷ []) flags in
      let device = say_if (check_flag (at 0) 1) (codes "boot_device = 0x%#x\n") (at 3 ∷ []) mem in
      let cmdline = say_if (check_flag (at 0) 2) (codes "cmdline = %s\n") (at 4 ∷ []) device in
      if check_flag (at 0) 3 then say_modules (at 5) 0 (at 6) cmdline else cmdline

  -- and what is printed behind it
  unfoldable pub say_rest : ℕ → Console → Console
  say_rest mbi con =
      let at = info env.memory mbi in
      let elf =
        say_if (check_flag (at 0) 5)
          (codes "elf_sec: num = %u, size = 0x%#x, addr = 0x%#x, shndx = 0x%#x\n")
          (at 7 ∷ at 8 ∷ at 9 ∷ at 10 ∷ []) con in
      let header = say (codes "mmap_addr = 0x%#x, mmap_length = 0x%x\n") (at 12 ∷ at 11 ∷ []) elf in
      if check_flag (at 0) 6 then say_map (at 11) (at 12) (add32 (at 12) (at 11)) header else elf

  -- the initialisations, in their order, with interrupts off as the loader leaves them
  unfoldable pub init_devices : ℕ → Kernel → Kernel
  init_devices mbi k =
      let mod_start = load32 env.memory (info env.memory mbi 6) in
      let k1 = record k {
        fs = init_filesys (λ i. env.memory (mod_start + i));
        pages = init_paging k.pages;
        hardware = i8259_init k.hardware;
      } in
      let k2 = on_console (enable_cursor env.cursor_low env.cursor_high 0 15) k1 in
      rtc_init env.rtc_a env.rtc_b env.rtc_index (keyboard_init k2)

  unfoldable pub entry : ℕ → ℕ → Kernel → Start
  entry magic addr k =
      let greeted = on_console clear k in
      let told = on_console (say_info addr) greeted in
      let k1 = on_console (say_rest addr) told in
      let esp0 = record k1 { tasks = record (k1.tasks) { esp0 = 0x800000 } } in
      let k2 = start_tasks (init_devices addr esp0) in
      let flags = info env.memory addr 0 in
      if not (magic == 0x2BADB002)
      then stopped (on_console (say (codes "Invalid magic number: 0x%#x\n") (magic ∷ [])) greeted)
      else if check_flag flags 4 && check_flag flags 5
      then stopped (on_console (say (codes "Both bits 4 and 5 are set.\n") []) told)
      else running (set_params env.ldt env.ldt_size (the_ldt_desc env.some_desc))
          (set_params env.tss env.tss_size (the_tss_desc env.some_desc))
          (populate_idt env.linkage (init_idt env.idt))
          (sti (on_console (say (codes "Enabling Interrupts\n") []) k2))
