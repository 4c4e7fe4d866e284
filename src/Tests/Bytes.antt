-- ===== src/Tests/Bytes.antt =====
-- What transfers do to the bytes, with a driver that reports every task at the next look.
use nvme_dpdk_pcapreplay.Prelude.{
  ℕ, zero, suc, ◌+◌, ◌*◌, ◌≤◌, ◌≡◌, refl, inl, some, List, [], ◌∷◌, ◌++◌, done, arith, replicate,
}
use nvme_dpdk_pcapreplay.Layout.{NvmeRaid, active}
use nvme_dpdk_pcapreplay.Table.{
  EntryRef, find_file, entry_where, cmp_file, modify_entry, set_total, memcpy_bytes,
  right_free_block, right_free_blocks, total_files, new_entry, add_entry,
}
use nvme_dpdk_pcapreplay.Table.Search.{entries}
use nvme_dpdk_pcapreplay.Table.Invariant.{IsValid}
use nvme_dpdk_pcapreplay.Table.Files.{added, add_entry-IsValid}
use nvme_dpdk_pcapreplay.Driver.{Sio}
use nvme_dpdk_pcapreplay.Transfer.{sio_rread, sio_rwrite, sio_waittasks, giga_sector_length}
use nvme_dpdk_pcapreplay.Transfer.Tasks.{Counted, rounds, sio_waittasks-returns}
use nvme_dpdk_pcapreplay.Store.{Store}
use nvme_dpdk_pcapreplay.Store.Places.{Distinct}
use nvme_dpdk_pcapreplay.Store.RoundTrip.{
  after, Keeps, sio_rread-sio_rwrite, sio_rwrite-Keeps_files,
}
use nvme_dpdk_pcapreplay.Pinned.{sio_rread_pinit, sio_rwrite_pinit}
use nvme_dpdk_pcapreplay.Pinned.Chunk.{Wrote, Read}
use nvme_dpdk_pcapreplay.Pinned.RoundTrip.{
  sio_rwrite_pinit-Wrote, sio_rread_pinit-Read, sio_rread_pinit-sio_rwrite_pinit,
}
use nvme_dpdk_pcapreplay.Tests.Drivers.{prompt_driver, prompt_driver-Reports, start-Counted}
use nvme_dpdk_pcapreplay.Tests.Fixtures.{start, one_disk, two_disks, empty_file}
use nvme_dpdk_pcapreplay.Tests.Files.{with_file, with_file-IsValid}

two_disks-Distinct : Distinct two_disks
two_disks-Distinct zero zero lt lt' e = refl
two_disks-Distinct zero (suc zero) lt lt' e = e
two_disks-Distinct zero (suc (suc j)) lt lt' e = absurd (omega arith)
two_disks-Distinct (suc zero) zero lt lt' e = e
two_disks-Distinct (suc zero) (suc zero) lt lt' e = refl
two_disks-Distinct (suc zero) (suc (suc j)) lt lt' e = absurd (omega arith)
two_disks-Distinct (suc (suc i)) j lt lt' e = absurd (omega arith)

-- Each byte of the memory is its own address.
abbrev plain : Store
plain = record { memory = λ a. a; disk = λ ns l o. 0 }

sio_waittasks-returns_example :
    (s' : Sio) × (m : ℕ) × (sio_waittasks prompt_driver two_disks start ≡ done (tt, s'))
    × (s'.history ≡ rounds (active two_disks) m start.history)
    × Counted prompt_driver s'
    × (s'.task_scheduled ≤ s'.task_completed)
sio_waittasks-returns_example =
    sio_waittasks-returns prompt_driver two_disks start prompt_driver-Reports start-Counted

-- The byte 7 of block 300, of a write of the blocks 250 to 799.
sio_rread-sio_rwrite_example :
    (s1 : Sio) × (s2 : Sio) × (sio_rwrite prompt_driver two_disks 4096 250 550 start ≡ done (0, s1))
    × (sio_rread prompt_driver two_disks 600000 250 550 s1 ≡ done (0, s2))
    × ((after prompt_driver s2 plain).memory (600000 + 50 * 512 + 7)
        ≡ (after prompt_driver start plain).memory (4096 + 50 * 512 + 7))
sio_rread-sio_rwrite_example =
    sio_rread-sio_rwrite prompt_driver two_disks 4096 600000 250 550 start plain 50 7 (λ h. refl)
      (omega arith) two_disks-Distinct (omega arith) (omega arith) (omega arith)

-- The raid with a second file, of 100 blocks, behind the first.
abbrev second_name : List ℕ
second_name = b'b' ∷ []

abbrev second_slot : EntryRef
second_slot = record { disk = 0; slot = 1 }

abbrev with_two : NvmeRaid
with_two = added with_file second_name 100 second_slot

adds_second : add_entry with_file second_name 100 ≡ some (second_slot, with_two)
unfolding add_entry find_file entry_where right_free_blocks right_free_block total_files
    modify_entry set_total cmp_file memcpy_bytes
adds_second = refl

with_two-IsValid : IsValid with_two
with_two-IsValid =
    add_entry-IsValid second_name 100 second_slot with_two with_file-IsValid adds_second

with_two-Distinct : Distinct with_two
with_two-Distinct zero zero lt lt' e = refl
with_two-Distinct zero (suc j) lt lt' e = absurd (omega arith)
with_two-Distinct (suc i) j lt lt' e = absurd (omega arith)

two_entries :
    entries (active with_two)
    ≡ []
      ++ new_entry one_disk (b'a' ∷ b'.' ∷ b's' ∷ b'c' ∷ b'a' ∷ b'p' ∷ []) 512
        ∷ ([] ++ new_entry with_file second_name 100 ∷ replicate 10 empty_file)
unfolding modify_entry set_total
two_entries = refl

-- A write to the blocks 300 to 309 of the first file, and one to 800 to 809 of the second.
sio_rwrite-Keeps_files_example :
    Keeps prompt_driver with_two 4096 300 10 start plain 800 7
    × Keeps prompt_driver with_two 4096 800 10 start plain 300 7
unfolding right_free_block set_total modify_entry
sio_rwrite-Keeps_files_example =
    sio_rwrite-Keeps_files prompt_driver with_two []
      (new_entry one_disk (b'a' ∷ b'.' ∷ b's' ∷ b'c' ∷ b'a' ∷ b'p' ∷ []) 512) []
      (new_entry with_file second_name 100) (replicate 10 empty_file) 4096 300 10 800 10 start plain
      800 300 7 (λ h. refl) with_two-IsValid with_two-Distinct (omega arith) two_entries
      (omega arith, omega arith) (omega arith, omega arith) (omega arith, omega arith)
      (omega arith, omega arith)

-- 1100 blocks, two parts of 512 and a rest, through the buffer.
sio_rwrite_pinit-Wrote_example :
    (s' : Sio) × (sio_rwrite_pinit prompt_driver two_disks 4096 250 1100 start ≡ done (0, s'))
    × Counted prompt_driver s'
    × Wrote two_disks 1000000000
        (giga_sector_length two_disks)
        4096
        250
        1100
        (after prompt_driver start plain)
        (after prompt_driver s' plain)
sio_rwrite_pinit-Wrote_example =
    sio_rwrite_pinit-Wrote prompt_driver two_disks 4096 250 1100 1000000000 start plain (λ h. refl)
      (omega arith) two_disks-Distinct prompt_driver-Reports start-Counted refl (inl (omega arith))
      (omega arith)

sio_rread_pinit-Read_example :
    (s' : Sio) × (sio_rread_pinit prompt_driver two_disks 4096 250 1100 start ≡ done (0, s'))
    × Counted prompt_driver s'
    × Read two_disks 1000000000
        (giga_sector_length two_disks)
        4096
        250
        1100
        (after prompt_driver start plain)
        (after prompt_driver s' plain)
sio_rread_pinit-Read_example =
    sio_rread_pinit-Read prompt_driver two_disks 4096 250 1100 1000000000 start plain (λ h. refl)
      (omega arith) two_disks-Distinct prompt_driver-Reports start-Counted refl (inl (omega arith))
      (omega arith)

sio_rread_pinit-sio_rwrite_pinit_example :
    (s1 : Sio) × (s2 : Sio) × (sio_rwrite_pinit prompt_driver two_disks 4096 250 1100 start
      ≡ done (0, s1))
    × (sio_rread_pinit prompt_driver two_disks 600000 250 1100 s1 ≡ done (0, s2))
    × ((after prompt_driver s2 plain).memory (600000 + 900 * 512 + 7)
        ≡ (after prompt_driver start plain).memory (4096 + 900 * 512 + 7))
sio_rread_pinit-sio_rwrite_pinit_example =
    sio_rread_pinit-sio_rwrite_pinit prompt_driver two_disks 4096 600000 250 1100 start plain 900 7
      (λ h. refl) (omega arith) two_disks-Distinct prompt_driver-Reports start-Counted
      (λ n h. (1000000000, refl, inl (omega arith))) (λ n h. (1000000000, refl, inl (omega arith)))
      (omega arith) (omega arith) (omega arith)
