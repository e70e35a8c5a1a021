-- ===== src/Paging/Entries.antt =====
-- What the processor reads from the entries that the kernel writes.
use os.Paging.{low_entry}
use os.Paging.{video_entry}
use os.Common.{
  ℕ, zero, suc, ◌+◌, ◌/◌, ◌%◌, ◌^◌, ◌<◌, ◌≡◌, ◌≢◌, Bool, true, false, ◌&&◌, arith, ltb, leb, ◌==◌,
  if◌then◌else◌, Array, update,
}
use os.Machine.{Pages}
use os.Paging.{
  flag_bits, table_entry, large_entry, fill_table, paging_execute, map_video, is_video_page,
  init_paging,
}

-- bit 0, the user bit, and the two forms of a base address
abbrev pub is_present : ℕ → Bool
is_present val = val % 2 == 1

abbrev pub is_user : ℕ → Bool
is_user val = val / 4 % 2 == 1

abbrev pub large_base : ℕ → ℕ
large_base val = val / 2 ^ 22

abbrev pub table_base : ℕ → ℕ
table_base val = val / 2 ^ 12

pub fill_table_lem :
    (left i : ℕ) (entry : ℕ → ℕ) (table : Array ℕ) (j : ℕ)
    → fill_table left i entry table j ≡ (if leb i j && ltb j (i + left) then entry j else table j)
unfolding fill_table
fill_table_lem zero i entry table j = ground arith
fill_table_lem (suc left) i entry table j =
    ground (arith, fill_table_lem left (i + 1) entry (update table i (entry i)) j)

-- For a process below 1022, `paging_execute` maps 128 MB to the large page `n + 2` of physical
-- memory, present and open to user code, and no other entry of the directory changes.
pub paging_execute_lem :
    (n : ℕ) (g : Pages)
    → n < 1022
    → (is_present ((paging_execute n g).page_dir 32) ≡ true)
      × (is_user ((paging_execute n g).page_dir 32) ≡ true)
      × (large_base ((paging_execute n g).page_dir 32) ≡ n + 2)
      × ((j : ℕ) → j ≢ 32 → (paging_execute n g).page_dir j ≡ g.page_dir j)
unfolding paging_execute large_entry flag_bits
paging_execute_lem n g h = (ground arith, ground arith, ground arith, λ j d. ground arith)

-- Two processes below 1022 whose page at 128 MB is the same page of memory are the same process.
pub paging_execute-isolates :
    (n m : ℕ) (g : Pages)
    → n < 1022
    → m < 1022
    → large_base ((paging_execute n g).page_dir 32) ≡ large_base ((paging_execute m g).page_dir 32)
    → n ≡ m
paging_execute-isolates n m g hn hm e =
    let a = (paging_execute_lem n g hn).2 in let b = (paging_execute_lem m g hm).2 in omega arith

-- After `map_video`, for a page of memory below 2 ^ 20, the first page of the table is present,
-- open to user code and mapped to that page, and no other entry of the table is present.
pub map_video_lem :
    (video_page : ℕ) (g : Pages)
    → video_page < 2 ^ 20
    → (is_present ((map_video video_page g).vidmap_page_table 0) ≡ true)
      × (is_user ((map_video video_page g).vidmap_page_table 0) ≡ true)
      × (table_base ((map_video video_page g).vidmap_page_table 0) ≡ video_page)
      × ((j : ℕ)
          → 0 < j
          → j < 1024
          → is_present ((map_video video_page g).vidmap_page_table j) ≡ false)
unfolding map_video video_entry table_entry flag_bits
map_video_lem v g h =
    let first = fill_table_lem 1024 0 (video_entry v) g.vidmap_page_table 0 in
    (
      ground (arith, first),
      ground (arith, first),
      ground (arith, first),
      λ j a b. ground (arith, fill_table_lem 1024 0 (video_entry v) g.vidmap_page_table j),
    )

-- After `init_paging`, the pages of the first 4 MB that are present are video memory and the pages
-- of the three terminals. They are mapped to themselves, and none is open to user code.
pub init_paging_lem :
    (g : Pages) (i : ℕ)
    → i < 1024
    → (is_present ((init_paging g).first_page_table i) ≡ is_video_page i)
      × (is_user ((init_paging g).first_page_table i) ≡ false)
      × (table_base ((init_paging g).first_page_table i) ≡ i)
unfolding init_paging low_entry table_entry flag_bits
init_paging_lem g i h =
    let entry = fill_table_lem 1024 0 low_entry g.first_page_table i in
    (ground (arith, entry), ground (arith, entry), ground (arith, entry))
