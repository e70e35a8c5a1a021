-- ===== src/Tests/Start.antt =====
-- The theorem on `entry`, with a loader's memory that holds a file `shell`.
use os.Common.{
  ℕ, ◌-◌, ◌<◌, ◌≡◌, refl, true, false, ◌&&◌, [], arith, ltb, ◌==◌, if◌then◌else◌, Bytes, char_at,
  copy, codes,
}
use os.Machine.{Kernel}
use os.Descriptors.{blank}
use os.Syscalls.{is_executable}
use os.System.{IsSound, hardware, start, step}
use os.Tests.{process, addresses, no_gates, machine, zeros}
use os.Files.{
  init_filesys, read_dentry_by_name, search_dentry, read_dentry_by_index, read_data, read_from,
  read_first_block, clip_length, read_whole_blocks, read_last_block,
}
use os.Interrupts.{init_idt, populate_idt, hardware_handler}
use os.Boot.{SegDesc, Environment, running, left_by, entry}
use os.Boot.Shell.{HasShell}
use os.Boot.Ticks.{Interrupted, none_yet, interrupt}
use os.Boot.Entry.{IsFresh, image, entry_lem}
use os.Strings.{strncmp, strncmp_from, strlen, strncpy, copy_until_nul, fill}
use os.Processes.Halt.{last_kernel}

-- A loader's memory: the image is at 4096, and holds a file `shell` of 28 bytes.
abbrev loaded : Bytes
loaded i =
    if i == 24
    then 28
    else if i == 29
    then 0x10
    else if i == 4096
    then 1
    else if i == 4100
    then 1
    else if i == 4104
    then 1
    else if ltb 4159 i && ltb i 4165
    then char_at (codes "shell") (i - 4160)
    else if i == 4192
    then 2
    else if i == 8192
    then 28
    else if i == 12288
    then 0x7F
    else if ltb 12288 i && ltb i 12292
    then char_at (codes "ELF") (i - 12289)
    else 0

abbrev loader : Environment
loader = record {
  memory = loaded;
  text_at = λ _. [];
  garbage = zeros;
  cursor_low = 0;
  cursor_high = 0;
  rtc_a = 0;
  rtc_b = 0;
  rtc_index = 0;
  linkage = addresses;
  ldt = 0x410000;
  ldt_size = 16;
  tss = 0x420000;
  tss_size = 104;
  idt = no_gates;
  some_desc = record {
    seg_lim_15_00 = 0;
    base_15_00 = 0;
    base_23_16 = 0;
    type = 0;
    sys = 0;
    dpl = 0;
    present = 0;
    seg_lim_19_16 = 0;
    avail = 0;
    reserved = 0;
    opsize = 0;
    granularity = 0;
    base_31_24 = 0;
  };
}

-- the kernel before `entry`
abbrev fresh_kernel : Kernel
fresh_kernel = record machine {
  hardware = record { interrupts = false; master_mask = 0xFF; slave_mask = 0xFF; ports = [] };
  pcbs = λ n. record (process (n - 1)) { active = 0 };
  rtc = record {
    desired_virtualized_frequency = λ _. 2;
    interrupt_flag = λ _. 0;
    interrupt_count = λ _. 0;
    rtc_idx = 0;
  };
}

fresh_kernel-IsFresh : IsFresh fresh_kernel
fresh_kernel-IsFresh = record {
  master = refl;
  slave = refl;
  lines = λ i. omega arith;
  shown = omega arith;
  clock = omega arith;
  rates = λ i h. refl;
  free = λ q h. refl;
}

shell_found : (read_dentry_by_name (image loader 0) (codes "shell") blank).0 ≡ 0
unfolding read_dentry_by_name search_dentry read_dentry_by_index strlen strncmp strncmp_from strncpy
    copy_until_nul fill init_filesys
shell_found = refl

loader-HasShell : HasShell (image loader 0)
unfolding read_dentry_by_name search_dentry read_dentry_by_index strlen strncmp strncmp_from strncpy
    copy_until_nul fill is_executable read_data read_from read_first_block clip_length copy
    read_whole_blocks read_last_block init_filesys
loader-HasShell = record { found = λ e. omega (arith, shell_found, e); good = λ garbage. refl }

abbrev booted : Kernel
booted = left_by (entry loader 0x2BADB002 0 fresh_kernel)

-- the timer three times, and a key before the last
abbrev third_tick : Kernel
third_tick = last_kernel (
    hardware_handler 32 0 zeros (
      last_kernel (
        hardware_handler 33 0x1E zeros (
          last_kernel
            (hardware_handler 32 0 zeros (last_kernel (hardware_handler 32 0 zeros booted)))))))

ticks : Interrupted booted 3 third_tick
ticks =
    interrupt 32 0 zeros
      (interrupt 33 0x1E zeros (interrupt 32 0 zeros (interrupt 32 0 zeros none_yet)))

entry_lem_example :
    (ldt tss : SegDesc) × (entry loader 0x2BADB002 0 fresh_kernel
      ≡ running ldt tss (populate_idt addresses (init_idt no_gates)) booted)
    × (booted.hardware.master_mask ≡ 0xF8)
    × (booted.hardware.slave_mask ≡ 0xFE)
    × (booted.hardware.interrupts ≡ true)
    × ((i : ℕ) → i < 3 → third_tick.tasks.schedule_array i ≡ i)
    × IsSound (last_kernel (hardware_handler 40 0 zeros third_tick))
entry_lem_example =
    entry_lem loader 0x2BADB002 0 fresh_kernel third_tick _ refl refl loader-HasShell
      fresh_kernel-IsFresh ticks (step start (hardware 40 0 zeros))
