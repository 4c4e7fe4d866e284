-- ===== src/Fs/Restart.antt =====
-- src/fs.c, `createRaid`: what the next run of a program finds.
use nvme_dpdk_pcapreplay.Prelude.{
  ℕ, zero, suc, ◌≤◌, ◌<◌, ◌≡◌, refl, sym, ap, ◌∙◌, true, false, List, [], ◌∷◌, ◌++◌, ◌==◌, ltb,
  length, take, drop, get_or, done, arith,
}
use mathlib.Core.Path.{subst}
use nvme_dpdk_pcapreplay.Layout.{MetaSector, Idisk, NvmeRaid, null_disk, active}
use nvme_dpdk_pcapreplay.Table.{total_files}
use nvme_dpdk_pcapreplay.Table.Invariant.{IsValid, count_used}
use nvme_dpdk_pcapreplay.Table.Search.{entries}
use nvme_dpdk_pcapreplay.Driver.{Driver, Sio, ◌>>=◌}
use nvme_dpdk_pcapreplay.Simpleio.Sync.{Works}
use nvme_dpdk_pcapreplay.Fs.{
  set_active, cmp_idisk, insert_disk, qsort_disks, integrity, update_raid, order_raid, create_raid,
}
use nvme_dpdk_pcapreplay.Fs.Reads.{
  Remembers, DifferentNs, Holding, Formatted, SameHandles, SameHandles-blanked, sector_zero,
  blanked, write_tables-Holding, load_disks-Holding,
}

-- The disks carry the numbers of their places, from `i` on.
abbrev pub Numbered : ℕ → List Idisk → Type 0
Numbered i [] = Unit
Numbered i (d ∷ ds) = (d.msector.disk_id ≡ i) × Numbered (suc i) ds

-- The raid as `main` finds it in the next run: the tables are to be read.
abbrev pub rebooted : MetaSector → NvmeRaid → NvmeRaid
rebooted blank raid = record raid { disk = blanked blank raid.disk; num_files = 0 }

take-blanked :
    (blank : MetaSector) (n : ℕ) (ds : List Idisk)
    → take n (blanked blank ds) ≡ blanked blank (take n ds)
take-blanked blank zero ds = refl
take-blanked blank (suc n) [] = refl
take-blanked blank (suc n) (d ∷ ds) =
    ap (λ es. record d { msector = blank } ∷ es) (take-blanked blank n ds)

pub SameHandles-rebooted :
    (blank : MetaSector) (raid : NvmeRaid)
    → SameHandles (active raid) (active (rebooted blank raid))
SameHandles-rebooted blank raid =
    subst (SameHandles (active raid)) (sym (take-blanked blank raid.numdisks raid.disk))
      (SameHandles-blanked blank (active raid))

length-take : (n : ℕ) (ds : List Idisk) → n ≤ length ds → length (take n ds) ≡ n
length-take zero ds le = refl
length-take (suc n) [] le = absurd (omega arith)
length-take (suc n) (d ∷ ds) le = ap suc (length-take n ds (omega arith))

length-take_le : (n : ℕ) (ds : List Idisk) → length (take n ds) ≤ length ds
length-take_le zero ds = omega arith
length-take_le (suc n) [] = omega arith
length-take_le (suc n) (d ∷ ds) = omega (arith, length-take_le n ds)

take-append : (xs ys : List Idisk) → take (length xs) (xs ++ ys) ≡ xs
take-append [] ys = refl
take-append (x ∷ xs) ys = ap (λ zs. x ∷ zs) (take-append xs ys)

-- Disks in the order of their numbers stay.
qsort_disks-Numbered : (i : ℕ) (ds : List Idisk) → Numbered i ds → qsort_disks ds ≡ ds
unfolding qsort_disks insert_disk cmp_idisk
qsort_disks-Numbered i [] numbered = refl
qsort_disks-Numbered i (d ∷ []) numbered = refl
qsort_disks-Numbered i (d ∷ e ∷ ds) numbered =
    let before : ltb e.msector.disk_id d.msector.disk_id ≡ false =
      ground (arith, numbered.0, numbered.1.0) in
    ap (insert_disk d) (qsort_disks-Numbered (suc i) (e ∷ ds) numbered.1) ∙ rw before

integrity-Numbered : (n i : ℕ) (ds : List Idisk) → Numbered i ds → integrity n i ds ≡ true
unfolding integrity
integrity-Numbered n i [] numbered = refl
integrity-Numbered n i (d ∷ ds) numbered =
    ground (arith, numbered.0, integrity-Numbered n (suc i) ds numbered.1)

total_files-active :
    (raid : NvmeRaid)
    → 0 < raid.numdisks
    → total_files raid ≡ (get_or (active raid) 0 null_disk).msector.total_files
unfolding total_files
total_files-active raid some_disk = first raid.numdisks raid.disk some_disk
  where
    first :
        (n : ℕ) (ds : List Idisk)
        → 0 < n
        → (get_or ds 0 null_disk).msector.total_files
          ≡ (get_or (take n ds) 0 null_disk).msector.total_files
    first zero ds lt = absurd (omega arith)
    first (suc n) [] lt = refl
    first (suc n) (d ∷ ds) lt = refl

active-set_active :
    (raid : NvmeRaid) (ds : List Idisk)
    → length ds ≡ raid.numdisks
    → active (set_active raid ds) ≡ ds
active-set_active raid ds same =
    ap (λ n. take n (ds ++ drop raid.numdisks raid.disk)) (sym same) ∙ take-append ds _

-- The raid that the order and the integrity check leave, when the disks are numbered.
order_raid-Numbered :
    (D : Driver) (raid : NvmeRaid) (ds : List Idisk) (s : Sio)
    → active raid ≡ ds
    → length ds ≡ raid.numdisks
    → 0 < raid.numdisks
    → Numbered 0 ds
    → (raid' : NvmeRaid) × (order_raid D raid s ≡ done (raid', s))
      × (active raid' ≡ ds)
      × (raid'.num_files ≡ (get_or ds 0 null_disk).msector.total_files)
      × (raid'.numdisks ≡ raid.numdisks)
      × (raid'.total_blocks ≡ raid.total_blocks)
unfolding order_raid
order_raid-Numbered D raid ds s is same some_disk numbered =
    let sorted : NvmeRaid = set_active raid (qsort_disks (active raid)) in
    let stays : qsort_disks (active raid) ≡ ds =
      ap qsort_disks is ∙ qsort_disks-Numbered 0 ds numbered in
    let there : active sorted ≡ ds =
      ap (λ es. active (set_active raid es)) stays ∙ active-set_active raid ds same in
    let good : integrity raid.numdisks 0 (active sorted) ≡ true =
      ap (integrity raid.numdisks 0) there ∙ integrity-Numbered raid.numdisks 0 ds numbered in
    (
      record sorted { num_files = total_files sorted },
      rw (order_raid, good),
      there,
      total_files-active sorted some_disk
          ∙ ap (λ es. (get_or es 0 null_disk).msector.total_files) there,
      refl,
      refl,
    )

-- The raid is in order if it has the tables, the numbers and the blocks of one that is.
pub IsValid-same :
    (raid raid' : NvmeRaid)
    → IsValid raid
    → active raid' ≡ active raid
    → raid'.num_files ≡ raid.num_files
    → raid'.numdisks ≡ raid.numdisks
    → raid'.total_blocks ≡ raid.total_blocks
    → IsValid raid'
IsValid-same raid raid' v there files disks blocks =
    let total : total_files raid' ≡ total_files raid =
      total_files-active raid' (omega (arith, v.some_disk, disks))
      ∙ ap (λ ds. (get_or ds 0 null_disk).msector.total_files) there
      ∙ sym (total_files-active raid v.some_disk) in
    let full : length (active raid') ≡ raid.numdisks =
      ap length there ∙ length-take raid.numdisks raid.disk v.array in
    record {
      some_disk = omega (arith, v.some_disk, disks);
      few_disks = omega (arith, v.few_disks, disks);
      array = omega (arith, disks, full, length-take_le raid'.numdisks raid'.disk);
      full_tables = omega (arith, v.full_tables, disks, ap (λ ds. length (entries ds)) there);
      range = omega (arith, v.range, blocks);
      reserved = omega (arith, v.reserved, blocks, disks);
      in_range = rw (there, blocks, disks) v.in_range;
      apart = rw there v.apart;
      differ = rw there v.differ;
      counted = total ∙ v.counted ∙ ap (λ ds. count_used (entries ds)) (sym there);
      same_count = files ∙ v.same_count ∙ sym total;
    }

-- When the first sectors of the NVMes hold the tables of a raid in order, whose disks are formatted and
-- numbered, `createRaid` finds the raid, whatever tables are in memory.
pub create_raid-Holding :
    (D : Driver) (raid raid0 : NvmeRaid) (s : Sio)
    → Works D
    → Remembers D
    → IsValid raid
    → Formatted (active raid)
    → Numbered 0 (active raid)
    → Holding D s (active raid)
    → SameHandles (active raid) (active raid0)
    → raid0.numdisks ≡ raid.numdisks
    → (raid' : NvmeRaid) × (s' : Sio) × (create_raid D raid0 s ≡ done (raid', s'))
      × (active raid' ≡ active raid)
      × (raid'.num_files ≡ raid.num_files)
      × (raid'.numdisks ≡ raid.numdisks)
      × (raid'.total_blocks ≡ raid0.total_blocks)
      × ((ns : ℕ) → sector_zero D ns s'.history ≡ sector_zero D ns s.history)
unfolding create_raid
create_raid-Holding D raid raid0 s w remembers v formatted numbered holding handles disks0 =
    let ds : List Idisk = active raid in
    let (s2, start, keep) =
      load_disks-Holding D ds (active raid0) s w remembers handles holding formatted in
    let same : length ds ≡ raid0.numdisks =
      length-take raid.numdisks raid.disk v.array ∙ sym disks0 in
    let loaded : NvmeRaid = set_active raid0 ds in
    let (raid', ordered, there, files, disks, blocks) =
      order_raid-Numbered D loaded ds s2 (active-set_active raid0 ds same) same
        (omega (arith, v.some_disk, disks0)) numbered in
    let some_there : (length ds == 0) ≡ false = ground (arith, same, disks0, v.some_disk) in
    let all_there : ltb (length ds) raid0.numdisks ≡ false = ground (arith, same) in
    (
      raid',
      s2,
      rw (create_raid, ◌>>=◌, start, some_there, all_there) ordered,
      there,
      files ∙ sym (total_files-active raid v.some_disk) ∙ sym v.same_count,
      disks ∙ disks0,
      blocks,
      keep,
    )

-- With a working driver whose reads of a first sector give the table that was written there last, on a
-- raid in order whose NVMes have different handles, are formatted and carry the numbers of their
-- places: after `updateRaid`, `createRaid` on NVMes whose tables are not known yet returns, and the
-- raid has the same tables, files and blocks as before.
pub create_raid-update_raid :
    (D : Driver) (raid : NvmeRaid) (blank : MetaSector) (s : Sio)
    → Works D
    → Remembers D
    → IsValid raid
    → DifferentNs (active raid)
    → Formatted (active raid)
    → Numbered 0 (active raid)
    → (s1 : Sio) × (raid' : NvmeRaid) × (s2 : Sio) × (update_raid D raid s ≡ done (tt, s1))
      × (create_raid D (rebooted blank raid) s1 ≡ done (raid', s2))
      × (active raid' ≡ active raid)
      × (raid'.num_files ≡ raid.num_files)
      × (raid'.numdisks ≡ raid.numdisks)
      × (raid'.total_blocks ≡ raid.total_blocks)
unfolding update_raid
create_raid-update_raid D raid blank s w remembers v different formatted numbered =
    let (s1, stored, keep, holding) = write_tables-Holding D (active raid) s w different in
    let (raid', s2, e, there, files, disks, blocks, _) =
      create_raid-Holding D raid (rebooted blank raid) s1 w remembers v formatted numbered holding
        (SameHandles-rebooted blank raid) refl in
    (s1, raid', s2, stored, e, there, files, disks, blocks)
