-- ===== src/Paging.antt =====
-- student-distrib/paging.c, and the functions of system_call.c that change the page tables.
pub mod Entries
use os.Common.{
  ℕ, zero, suc, ◌+◌, ◌-◌, ◌*◌, ◌/◌, ◌%◌, ◌^◌, ◌≤◌, ◌<◌, min, ◌≡◌, refl, sym, ap, ◌∙◌, ◌≢◌, ◌↔◌, ◌⊎◌,
  inl, inr, Bool, true, false, not, ◌&&◌, ◌||◌, Option, none, some, List, [], ◌∷◌, ◌++◌, arith,
  dec_lt, ℕ_discrete, ltb, leb, ◌==◌, if◌then◌else◌, ltb→lt, lt→ltb, leb→le, ==_iff, Bool-cases,
  Option-cases, u8, u32, add32, sub32, minus_one, is_neg, slt, sign_extend8, Array, Bytes, update,
  length, get_or, set, char_at, copy, copy_lem, tests, holds_up_to, holds_at, bit_and, bit_or,
  codes,
}
use os.Machine.{Pages, Kernel, cli, sti}

-- The bit fields of the three unions. Bit 7 of an entry is the size of the page in a directory and
-- a part of the cache type in a table; bit 6 is `dirty` or ignored.
pub record Entry : Type 0 where
  pub present : ℕ
  pub r_w : ℕ
  pub u_s : ℕ
  pub pcd : ℕ
  pub page_size : ℕ
  pub global : ℕ

-- the low twelve bits: all other fields are 0 wherever an entry is made
unfoldable pub flag_bits : Entry → ℕ
flag_bits e = e.present + 2 * e.r_w + 4 * e.u_s + 16 * e.pcd + 128 * e.page_size + 256 * e.global

-- `val` of a `pd_entry_pt` or a `pt_entry_page`, whose base has 20 bits
unfoldable pub table_entry : Entry → ℕ → ℕ
table_entry e page_base = flag_bits e + 2 ^ 12 * (page_base % 2 ^ 20)

-- `val` of a `pd_entry_page`, whose base has 10 bits
unfoldable pub large_entry : Entry → ℕ → ℕ
large_entry e page_base = flag_bits e + 2 ^ 22 * (page_base % 2 ^ 10)

abbrev pub no_flags : Entry
no_flags = record { present = 0; r_w = 0; u_s = 0; pcd = 0; page_size = 0; global = 0 }

abbrev pub writable : Entry
writable = record no_flags { r_w = 1 }

abbrev pub user_page : Entry
user_page = record { present = 1; r_w = 1; u_s = 1; pcd = 1; page_size = 1; global = 0 }

abbrev pub kernel_page : Entry
kernel_page = record { present = 1; r_w = 1; u_s = 0; pcd = 1; page_size = 1; global = 1 }

-- video memory and the pages of the three terminals
abbrev pub is_video_page : ℕ → Bool
is_video_page i = i == 0xB8 || (i == 0xB9 || (i == 0xBA || i == 0xBB))

-- a loop over the `KB` entries of a table
unfoldable pub fill_table : ℕ → ℕ → (ℕ → ℕ) → Array ℕ → Array ℕ
fill_table zero i entry table = table
fill_table (suc left) i entry table = fill_table left (i + 1) entry (update table i (entry i))

-- entry `i` of the table for the first 4 MB
unfoldable pub low_entry : ℕ → ℕ
low_entry i = table_entry (record writable { present = if is_video_page i then 1 else 0 }) i

-- Entry `i` of the table for 132 MB to 136 MB. The user bit, set for the first entry, stays set.
unfoldable pub video_entry : ℕ → ℕ → ℕ
video_entry video_page i =
    if i == 0
    then table_entry (record writable { present = 1; u_s = 1 }) video_page
    else table_entry (record writable { u_s = 1 }) i

unfoldable pub init_paging : Pages → Pages
init_paging g =
    let cleared =
      fill_table 1024 0 (λ _. large_entry (record no_flags { page_size = 1 }) 0) g.page_dir in
    let first = table_entry (record writable { present = 1 }) (g.first_page_table_at / 4096) in
    let kernel = large_entry kernel_page 1 in
    record g {
      page_dir = update (update cleared 0 first) 1 kernel;
      first_page_table = fill_table 1024 0 low_entry g.first_page_table;
    }

-- `paging_execute`: the entry for 128 MB to 132 MB
unfoldable pub paging_execute : ℕ → Pages → Pages
paging_execute local_process_num g =
    let physical_memory_addr = add32 8 (u32 (local_process_num * 4)) in
    record g { page_dir = update g.page_dir 32 (large_entry user_page (physical_memory_addr / 4)) }

-- The entry that it clears is the one numbered like the page of memory.
unfoldable pub disable_child_page : ℕ → Pages → Pages
disable_child_page process_num g =
    let physical_memory_addr = add32 8 (u32 ((process_num + 1) * 4)) in
    let phys_mem_val = physical_memory_addr / 4 in
    record g { page_dir = update g.page_dir phys_mem_val (large_entry no_flags phys_mem_val) }

-- The statements that `vidmap` and `scheduler` share: the table for 132 MB to 136 MB maps its first
-- page to `video_page`.
unfoldable pub map_video : ℕ → Pages → Pages
map_video video_page g = record g {
  vidmap_page_table = fill_table 1024 0 (video_entry video_page) g.vidmap_page_table;
  page_dir =
      update g.page_dir 33
        (table_entry (record writable { present = 1; u_s = 1 }) (g.vidmap_page_table_at / 4096));
}

-- the result, and what is stored at `screen_start`
unfoldable pub vidmap : ℕ → Kernel → ℕ × Option ℕ × Kernel
vidmap screen_start k =
    if ltb screen_start 0x8000000 || ltb 0x8400000 screen_start
    then (minus_one, none, sti (cli k))
    else (0, some 0x8400000, sti (record (cli k) { pages = map_video 0xB8 k.pages }))
