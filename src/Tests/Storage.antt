-- ===== src/Tests/Storage.antt =====
-- The theorems on strings, files and descriptors, at a concrete input.
use os.Common.{
  ℕ, ◌+◌, ◌-◌, min, ◌≡◌, refl, ◌≢◌, inr, arith, ltb, if◌then◌else◌, minus_one, Bytes, update, codes,
}
use os.Tests.{disk, machine, zeros}
use os.Files.ReadData.{read_data_lem}
use os.Files.Lookup.{read_dentry_by_name-hit}
use os.Files.Lookup.{read_dentry_by_name-miss}
use os.Descriptors.Close.{file_open-file_close}
use os.Descriptors.Read.{file_read_lem}
use os.Files.Transfer.{Holds}
use os.Descriptors.{blank}
use os.Strings.{c_string}
use os.Strings.Compare.{char_at-AreBytes}
use os.Strings.{copy_until_nul}
use os.Descriptors.Read.{descriptor}
use os.Machine.{descriptors}
use os.Files.Transfer.{file_byte}
use os.Descriptors.{file_close}
use os.Descriptors.{file_open}
use os.Descriptors.{file_read}
use os.Strings.{fill}
use os.Descriptors.{free_slot}
use os.Descriptors.Read.{inode_of}
use os.Descriptors.{moved}
use os.Descriptors.{open_descriptor}
use os.Files.{read_data}
use os.Files.{read_dentry_by_index}
use os.Files.{read_dentry_by_name}
use os.Syscalls.Dispatch.{result}
use os.Machine.{returns}
use os.Files.{search_dentry}
use os.Machine.{slot}
use os.Strings.{strlen}
use os.Strings.{strncmp}
use os.Strings.{strncmp_from}
use os.Strings.{strncpy}
use os.Machine.{with_descriptors}

read_data_lem_example :
    let n = min 3 ((disk.inodes 0).length - 1) in
    let (result, buf') = read_data disk 0 1 zeros 3 in
    (result ≡ n) × Holds disk (disk.inodes 0) 1 zeros n buf'
read_data_lem_example =
    read_data_lem disk 0 1 zeros 3 (omega arith) (omega arith) (omega arith) (omega arith)

read_dentry_by_name-hit_example :
    let (code, found) = read_dentry_by_name disk (codes "notes") blank in
    (code ≡ 0)
    × (c_string 32 0 found.filename ≡ (codes "notes"))
    × (found.file_type ≡ (disk.direntries 0).file_type)
    × (found.inode_num ≡ (disk.direntries 0).inode_num)
unfolding c_string
read_dentry_by_name-hit_example =
    read_dentry_by_name-hit disk (codes "notes") blank 0
      (λ i. char_at-AreBytes (codes "notes") (ground arith)) (ground arith) (omega arith)
      (omega arith) refl (λ j h. absurd (omega arith))

read_dentry_by_name-miss_example : read_dentry_by_name disk (codes "x") blank ≡ (minus_one, blank)
unfolding c_string
read_dentry_by_name-miss_example =
    read_dentry_by_name-miss disk (codes "x") blank
      (λ i. char_at-AreBytes (codes "notes") (ground arith)) (ground arith)
      (inr (λ j h. ground arith))

file_open-file_close_example :
    let fd = (file_open (codes "notes") machine).0 in
    let k1 = (file_open (codes "notes") machine).1 in
    let p = slot machine.process_num in
    ((file_close fd k1).0 ≡ 0)
    × ((descriptors machine p fd).flags ≡ 0)
    × ((descriptors k1 p fd).flags ≡ 1)
    × ((descriptors (file_close fd k1).1 p fd).flags ≡ 0)
    × ((j : ℕ) → j ≢ fd → descriptors (file_close fd k1).1 p j ≡ descriptors machine p j)
unfolding file_open open_descriptor free_slot read_dentry_by_name search_dentry read_dentry_by_index
    strlen strncmp strncmp_from strncpy copy_until_nul fill
file_open-file_close_example = file_open-file_close (codes "notes") machine (λ e. ground arith)

file_read_lem_example :
    let m = min 10 ((inode_of machine 2).length - (descriptor machine 2).file_position) in
    (buf' : Bytes) × (file_read 2 zeros 10 machine
      ≡ returns m buf' (
          with_descriptors machine (slot machine.process_num) (
            update
              (descriptors machine (slot machine.process_num))
              2
              (moved (descriptor machine 2) m))))
    × ((j : ℕ)
        → buf' j ≡ (
            if ltb j m
            then file_byte machine.fs
                (inode_of machine 2)
                ((descriptor machine 2).file_position + j)
            else if ltb j 10
            then 0
            else zeros j))
file_read_lem_example =
    file_read_lem machine 2 zeros 10 (λ e. omega arith) (omega arith) (omega arith) (omega arith)
      (omega arith)
