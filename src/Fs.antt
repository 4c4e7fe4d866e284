-- ===== src/Fs.antt =====
-- src/fs.c with its writes: the operations on the raid that store the file tables on the NVMes.
pub mod Writes
pub mod Quiet
pub mod Reads
pub mod Restart
pub mod Labels
pub mod Kept
pub mod Session
pub mod Format
use nvme_dpdk_pcapreplay.Prelude.{
  ℕ, zero, suc, ◌+◌, Bool, true, false, Option, none, some, List, [], ◌∷◌, ltb, ◌==◌, if◌then◌else◌,
  take, drop, get_or, ◌++◌, ◌&&◌, not,
}
use nvme_dpdk_pcapreplay.Layout.{MetaSector, Idisk, NvmeRaid, null_disk, active, sector_length, u8}
use nvme_dpdk_pcapreplay.Table.{
  EntryRef, check_meta, init_meta, add_entry, del_entry, find_file, total_files,
}
use nvme_dpdk_pcapreplay.Driver.{sector, Driver, Io, ◌>>=◌, ◌>>◌, return, exit_failure}
use nvme_dpdk_pcapreplay.Simpleio.{sio_write_pinit, sio_read_pinit}

-- The raid after a loop over its disks has left these in place of those in use.
abbrev pub set_active : NvmeRaid → List Idisk → NvmeRaid
set_active raid ds = record raid { disk = ds ++ drop raid.numdisks raid.disk }

-- `cmpIDisk (a, b)`, which is 1 or 0.
unfoldable pub cmp_idisk : Idisk → Idisk → Bool
cmp_idisk a b = ltb b.msector.disk_id a.msector.disk_id

-- `qsort`: stable, as the C library's merge sort is, which keeps `a` before `b` unless the
-- comparison says 1.
unfoldable pub insert_disk : Idisk → List Idisk → List Idisk
unfolding cmp_idisk
insert_disk d [] = d ∷ []
insert_disk d (e ∷ es) = if cmp_idisk d e then (e ∷ insert_disk d es) else (d ∷ e ∷ es)

unfoldable pub qsort_disks : List Idisk → List Idisk
unfolding insert_disk
qsort_disks [] = []
qsort_disks (d ∷ ds) = insert_disk d (qsort_disks ds)

-- The test of the integrity loop of `createRaid`, from disk `i` on.
unfoldable pub integrity : ℕ → ℕ → List Idisk → Bool
integrity numdisks i [] = true
integrity numdisks i (d ∷ ds) =
    not (not (d.msector.disk_id == i) && not (d.msector.total_disks == numdisks))
    && integrity numdisks (suc i) ds

module _ (D : Driver) where
  -- The loop of `updateRaid`; the status of a write is dropped.
  unfoldable pub write_tables : List Idisk → Io Unit
  write_tables [] = return tt
  write_tables (d ∷ ds) = sio_write_pinit D d d.msector 0 1 >>= λ rc. write_tables ds

  unfoldable pub update_raid : NvmeRaid → Io Unit
  unfolding write_tables
  update_raid raid = write_tables (active raid)

  -- The loop of `formatRaid` from disk `i` on.
  unfoldable pub format_disks : ℕ → ℕ → List Idisk → Io (List Idisk)
  format_disks numdisks i [] = return []
  format_disks numdisks i (d ∷ ds) =
      let d' : Idisk = record d { msector = init_meta d.msector (u8 i) (u8 numdisks) } in
      do
        sio_write_pinit D d' d'.msector 0 1
        rest ← format_disks numdisks (suc i) ds
        return (d' ∷ rest)

  unfoldable pub format_raid : NvmeRaid → Io NvmeRaid
  unfolding format_disks
  format_raid raid = do ds ← format_disks raid.numdisks 0 (active raid); return (set_active raid ds)

  -- The first loop of `createRaid`: the disks as read, and how many of them are initialised. A wrong
  -- sector size is only reported.
  unfoldable pub load_disks : List Idisk → Io (List Idisk × ℕ)
  load_disks [] = return ([], 0)
  load_disks (d ∷ ds) = do
    (rc, m) ← sio_read_pinit D d d.msector 0 1
    (rest, cnt) ← load_disks ds
    return (record d { msector = m } ∷ rest, (if check_meta m then cnt + 1 else cnt))

  -- The last part of `createRaid`: order, integrity, number of files.
  unfoldable pub order_raid : NvmeRaid → Io NvmeRaid
  unfolding qsort_disks integrity
  order_raid raid =
      let sorted : NvmeRaid = set_active raid (qsort_disks (active raid)) in
      if integrity raid.numdisks 0 (active sorted)
      then return (record sorted { num_files = total_files sorted })
      else exit_failure

  unfoldable pub create_raid : NvmeRaid → Io NvmeRaid
  unfolding load_disks format_raid order_raid
  create_raid raid = do
    (ds, cnt) ← load_disks (active raid)
    let loaded = set_active raid ds
    (if cnt == 0
        then format_raid loaded >>= order_raid
        else (if ltb cnt raid.numdisks then exit_failure else order_raid loaded))

  unfoldable pub add_file : NvmeRaid → List ℕ → ℕ → Io (Option EntryRef × NvmeRaid)
  add_file raid name blsize = elim (add_entry raid name blsize) [
    | none ↦ return (none, raid)
    | some (p, raid') ↦ update_raid raid' >> return (some p, raid')
  ]

  unfoldable pub del_file : NvmeRaid → List ℕ → Io (ℕ × NvmeRaid)
  del_file raid name = elim (del_entry raid name) [
    | none ↦ return (0, raid)
    | some raid' ↦ update_raid raid' >> return (1, raid')
  ]
