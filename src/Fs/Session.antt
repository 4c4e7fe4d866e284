-- ===== src/Fs/Session.antt =====
-- src/fs.c: a raid is formatted, files are added and deleted, and the next run of a program finds it.
use nvme_dpdk_pcapreplay.Prelude.{ℕ, ◌≡◌, refl, ◌∙◌, none, some, Option, List, [], ◌∷◌, done}
use nvme_dpdk_pcapreplay.Layout.{MetaSector, NvmeRaid, active}
use nvme_dpdk_pcapreplay.Table.{EntryRef, add_entry, del_entry}
use nvme_dpdk_pcapreplay.Table.Invariant.{IsValid}
use nvme_dpdk_pcapreplay.Table.Files.{add_entry-IsValid, del_entry-IsValid}
use nvme_dpdk_pcapreplay.Driver.{Driver, Sio, Io, return, ◌>>=◌, ◌>>◌, bind-done}
use nvme_dpdk_pcapreplay.Simpleio.Sync.{Works}
use nvme_dpdk_pcapreplay.Fs.{format_raid, add_file, del_file, create_raid}
use nvme_dpdk_pcapreplay.Fs.Reads.{Remembers}
use nvme_dpdk_pcapreplay.Fs.Restart.{rebooted, SameHandles-rebooted}
use nvme_dpdk_pcapreplay.Fs.Format.{formatted}
use nvme_dpdk_pcapreplay.Fs.Kept.{
  Kept, Keeps, stored-Kept, CanFormat, format_raid-Kept, create_raid-Kept,
}
use nvme_dpdk_pcapreplay.Fs.Labels.{
  SameRaid-refl, SameRaid-trans, add_entry-Labelled, del_entry-Labelled,
}

-- What a tool asks of the file table.
pub data Change : Type 0 where
  add : List ℕ → ℕ → Change
  delete : List ℕ → Change

module _ (D : Driver) where
  unfoldable pub change : Change → NvmeRaid → Io NvmeRaid
  change (add name blsize) raid = do out ← add_file D raid name blsize; return (out.1)
  change (delete name) raid = do out ← del_file D raid name; return (out.1)

  unfoldable pub changes : List Change → NvmeRaid → Io NvmeRaid
  unfolding change
  changes [] raid = return raid
  changes (c ∷ cs) raid = change c raid >>= changes cs

  add-Keeps :
      (raid : NvmeRaid) (name : List ℕ) (blsize : ℕ) (s : Sio)
      → Works D
      → Kept D raid s
      → Keeps D raid (change (add name blsize) raid) s
  unfolding change add_file
  add-Keeps raid name blsize s w k = split (add_entry raid name blsize) refl
    where
      split :
          (r : Option (EntryRef × NvmeRaid))
          → add_entry raid name blsize ≡ r
          → Keeps D raid (change (add name blsize) raid) s
      split none e = (raid, s, rw (change, add_file, e, ◌>>=◌), k, SameRaid-refl raid)
      split (some (p, raid')) e =
          let (labels, same) = add_entry-Labelled raid name blsize p raid' e k.labels in
          let (s', e', kept) =
            stored-Kept D raid' s w (add_entry-IsValid name blsize p raid' k.valid e) labels in
          (raid', s', rw (change, add_file, e, ◌>>◌, ◌>>=◌, e'), kept, same)

  delete-Keeps :
      (raid : NvmeRaid) (name : List ℕ) (s : Sio)
      → Works D
      → Kept D raid s
      → Keeps D raid (change (delete name) raid) s
  unfolding change del_file
  delete-Keeps raid name s w k = split (del_entry raid name) refl
    where
      split :
          (r : Option NvmeRaid)
          → del_entry raid name ≡ r
          → Keeps D raid (change (delete name) raid) s
      split none e = (raid, s, rw (change, del_file, e, ◌>>=◌), k, SameRaid-refl raid)
      split (some raid') e =
          let (labels, same) = del_entry-Labelled raid name raid' e k.labels in
          let (s', e', kept) =
            stored-Kept D raid' s w (del_entry-IsValid name raid' k.valid e) labels in
          (raid', s', rw (change, del_file, e, ◌>>◌, ◌>>=◌, e'), kept, same)

  change-Keeps :
      (c : Change) (raid : NvmeRaid) (s : Sio)
      → Works D
      → Kept D raid s
      → Keeps D raid (change c raid) s
  change-Keeps (add name blsize) raid s w k = add-Keeps raid name blsize s w k
  change-Keeps (delete name) raid s w k = delete-Keeps raid name s w k

  pub changes-Keeps :
      (cs : List Change) (raid : NvmeRaid) (s : Sio)
      → Works D
      → Kept D raid s
      → Keeps D raid (changes cs raid) s
  unfolding changes
  changes-Keeps [] raid s w k = (raid, s, refl, k, SameRaid-refl raid)
  changes-Keeps (c ∷ cs) raid s w k =
      let (raid1, s1, e, k1, same1) = change-Keeps c raid s w k in
      let (raid2, s2, e', k2, same2) = changes-Keeps cs raid1 s1 w k1 in
      (
        raid2,
        s2,
        bind-done (change c raid) (changes cs) s e ∙ e',
        k2,
        SameRaid-trans raid raid1 raid2 same1 same2,
      )

-- With a working driver whose sectors have 512 bytes and whose reads of a first sector give the table
-- that was written there last, and a raid as SPDK finds it: `formatRaid` and then any calls of `addFile` and `delFile`, in any number
-- and order and whether they succeed or not, return, and leave a raid in order; and `createRaid` in
-- the next run, on NVMes whose tables are not known yet, returns, and the raid has the same tables and
-- files.
pub create_raid-changes-format_raid :
    (D : Driver) (raid : NvmeRaid) (cs : List Change) (blank : MetaSector) (s : Sio)
    → Works D
    → Remembers D
    → CanFormat raid
    → (raid1 : NvmeRaid) × (s1 : Sio) × (raid2 : NvmeRaid) × (s2 : Sio) × (raid3 : NvmeRaid)
      × (s3 : Sio) × (format_raid D raid s ≡ done (raid1, s1))
      × (changes D cs raid1 s1 ≡ done (raid2, s2))
      × IsValid raid2
      × (create_raid D (rebooted blank raid2) s2 ≡ done (raid3, s3))
      × (active raid3 ≡ active raid2)
      × (raid3.num_files ≡ raid2.num_files)
create_raid-changes-format_raid D raid cs blank s w remembers can =
    let raid1 : NvmeRaid = formatted raid in
    let (s1, e1, k1) = format_raid-Kept D raid s w can in
    let (raid2, s2, e2, k2, _) = changes-Keeps D cs raid1 s1 w k1 in
    let (raid3, s3, e3, _, there, files, _) =
      create_raid-Kept D raid2 (rebooted blank raid2) s2 w remembers k2
        (SameHandles-rebooted blank raid2) refl refl in
    (raid1, s1, raid2, s2, raid3, s3, e1, e2, k2.valid, e3, there, files)
