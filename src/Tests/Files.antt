-- ===== src/Tests/Files.antt =====
-- Files added and deleted on a raid of one NVMe.
use nvme_dpdk_pcapreplay.Prelude.{
  ℕ, ◌+◌, ◌≤◌, ◌≡◌, ◌*◌, length, refl, true, none, some, List, [], ◌∷◌, ◌++◌, arith, replicate,
}
use nvme_dpdk_pcapreplay.Layout.{MetaFile, max_files, NvmeRaid, active, name_length}
use nvme_dpdk_pcapreplay.Table.{
  EntryRef, entry_where, modify_entry, set_total, find_file, cmp_file, is_free, right_free_block,
  right_free_blocks, total_files, new_entry, add_entry, memcpy_bytes, clear_entry, del_entry,
}
use nvme_dpdk_pcapreplay.Table.Names.{cstr}
use nvme_dpdk_pcapreplay.Table.Search.{entries}
use nvme_dpdk_pcapreplay.Table.Invariant.{IsValid, count_used}
use nvme_dpdk_pcapreplay.Table.Files.{
  added, add_entry-IsValid, find_file-add_entry, deleted, del_entry-IsValid, find_file-del_entry,
  del_entry-add_entry,
}
use nvme_dpdk_pcapreplay.Fs.{format_raid}
use nvme_dpdk_pcapreplay.Fs.Writes.{
  Stores, tables, AddOutcome, DelOutcome, add_file-AddOutcome, del_file-DelOutcome,
}
use nvme_dpdk_pcapreplay.Fs.Format.{format_raid-IsValid}
use nvme_dpdk_pcapreplay.Tests.Fixtures.{
  good_driver, good_driver-Works, start, one_disk, one_disk-IsValid, empty_file,
}

-- "a.scap"
abbrev pub name : List ℕ
name = b'a' ∷ b'.' ∷ b's' ∷ b'c' ∷ b'a' ∷ b'p' ∷ []

abbrev pub first_slot : EntryRef
first_slot = record { disk = 0; slot = 0 }

-- The raid with that file, of 512 blocks.
abbrev pub with_file : NvmeRaid
with_file = added one_disk name 512 first_slot

pub adds : add_entry one_disk name 512 ≡ some (first_slot, with_file)
unfolding add_entry find_file entry_where right_free_blocks right_free_block total_files
adds = refl

pub with_file-IsValid : IsValid with_file
with_file-IsValid = add_entry-IsValid name 512 first_slot with_file one_disk-IsValid adds

deletes : del_entry with_file name ≡ some (deleted with_file first_slot)
unfolding del_entry find_file entry_where cmp_file modify_entry set_total memcpy_bytes
deletes = refl

add_entry-IsValid_example : IsValid with_file
add_entry-IsValid_example = add_entry-IsValid name 512 first_slot with_file one_disk-IsValid adds

find_file-add_entry_example :
    (find_file with_file name ≡ some first_slot)
    × (before : List MetaFile) × (hit : MetaFile) × (file : MetaFile) × (after : List MetaFile)
    × (entries (active one_disk) ≡ before ++ hit ∷ after)
    × (is_free hit ≡ true)
    × (entries (active with_file) ≡ before ++ file ∷ after)
    × (cstr name_length file.name ≡ cstr name_length name)
    × (file.start_block ≡ right_free_block one_disk)
    × (file.end_block ≡ right_free_block one_disk + 512)
find_file-add_entry_example =
    find_file-add_entry name 512 first_slot with_file one_disk-IsValid adds

del_entry-IsValid_example : IsValid (deleted with_file first_slot)
del_entry-IsValid_example =
    del_entry-IsValid name (deleted with_file first_slot) with_file-IsValid deletes

find_file-del_entry_example :
    (find_file (deleted with_file first_slot) name ≡ none)
    × (before : List MetaFile) × (hit : MetaFile) × (after : List MetaFile) × (entries
          (active with_file)
        ≡ before ++ hit ∷ after)
    × (cstr name_length hit.name ≡ cstr name_length name)
    × (entries (active (deleted with_file first_slot)) ≡ before ++ clear_entry hit ∷ after)
find_file-del_entry_example =
    find_file-del_entry name (deleted with_file first_slot) with_file-IsValid deletes

add_file-AddOutcome_example :
    AddOutcome good_driver one_disk name 512 start (add_entry one_disk name 512)
add_file-AddOutcome_example =
    add_file-AddOutcome good_driver one_disk name 512 start good_driver-Works one_disk-IsValid

del_file-DelOutcome_example : DelOutcome good_driver with_file name start (del_entry with_file name)
del_file-DelOutcome_example =
    del_file-DelOutcome good_driver with_file name start good_driver-Works with_file-IsValid

last_entry :
    entries (active with_file)
    ≡ (new_entry one_disk name 512 ∷ replicate 10 empty_file) ++ empty_file ∷ []
unfolding modify_entry set_total
last_entry = refl

del_entry-add_entry_example :
    (raid'' : NvmeRaid) × (del_entry with_file name ≡ some raid'')
    × IsValid raid''
    × (find_file raid'' name ≡ none)
    × (total_files raid'' ≡ total_files one_disk)
    × (right_free_block raid'' ≡ right_free_block one_disk)
del_entry-add_entry_example =
    del_entry-add_entry name 512 first_slot with_file one_disk-IsValid adds

-- Tables with a file, of a raid that was found just now.
abbrev found_raid : NvmeRaid
found_raid = record with_file { num_files = 0 }

full_tables : length (entries (active found_raid)) ≡ max_files * 1
unfolding modify_entry set_total
full_tables = refl

fits : 1 ≤ length found_raid.disk
unfolding modify_entry set_total
fits = omega arith

format_raid-IsValid_example :
    (raid' : NvmeRaid) × IsValid raid'
    × (count_used (entries (active raid')) ≡ 0)
    × Stores good_driver start (tables (active raid')) raid' (format_raid good_driver found_raid)
format_raid-IsValid_example =
    format_raid-IsValid good_driver found_raid start good_driver-Works (omega arith) (omega arith)
      fits full_tables (omega arith) (omega arith) refl
