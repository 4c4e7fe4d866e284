-- ===== src/Fs/Writes.antt =====
-- src/fs.c: the sectors that `updateRaid`, `addFile` and `delFile` store.
use nvme_dpdk_pcapreplay.Prelude.{
  ℕ, zero, suc, ◌≡◌, refl, sym, ap, ◌∙◌, Option, none, some, List, [], ◌∷◌, ◌++◌, done, ◌==◌,
  if◌then◌else◌,
}
use mathlib.Core.List.{append-nil, append_assoc}
use nvme_dpdk_pcapreplay.Layout.{MetaSector, Idisk, NvmeRaid, active}
use nvme_dpdk_pcapreplay.Table.{EntryRef, add_entry, del_entry}
use nvme_dpdk_pcapreplay.Table.Invariant.{IsValid}
use nvme_dpdk_pcapreplay.Table.Files.{add_entry-IsValid, del_entry-IsValid}
use nvme_dpdk_pcapreplay.Driver.{
  Payload, sector, Direction, writes, Command, Call, malloc, copy, submit, process, Driver, Sio, Io,
  ◌>>=◌, ◌>>◌, bind-done,
}
use nvme_dpdk_pcapreplay.Simpleio.{sio_write_pinit}
use nvme_dpdk_pcapreplay.Simpleio.Sync.{Works, looks, sync_command, sio_write_pinit-returns}
use nvme_dpdk_pcapreplay.Fs.{write_tables, update_raid, add_file, del_file}

-- A metadata sector that was written to block `lba` of the NVMe `ns`.
pub record Stored : Type 0 where
  pub ns : ℕ
  pub lba : ℕ
  pub table : MetaSector

abbrev pub sector_written : Direction → Payload → ℕ → ℕ → List Stored
sector_written writes (sector m) ns lba = record { ns = ns; lba = lba; table = m } ∷ []
sector_written dir payload ns lba = []

-- The sectors that the driver has taken for writing, the oldest first.
unfoldable pub stored : Driver → List Call → List Stored
stored D [] = []
stored D (malloc n ∷ h) = stored D h
stored D (copy to from n ∷ h) = stored D h
stored D (process q ∷ h) = stored D h
stored D (submit c ∷ h) =
    if D.submit_rc (submit c ∷ h) == 0
    then stored D h ++ sector_written c.direction c.payload c.ns c.lba
    else stored D h

-- The tables of these disks, each in the first sector of its NVMe.
abbrev pub tables : List Idisk → List Stored
tables [] = []
tables (d ∷ ds) = record { ns = d.ns; lba = 0; table = d.msector } ∷ tables ds

-- The code returns this, and has stored these sectors after what was stored before.
abbrev pub Stores : {A : Type 0} → Driver → Sio → List Stored → A → Io A → Type 0
Stores D s ts a m =
    (s' : Sio) × (m s ≡ done (a, s')) × (stored D s'.history ≡ stored D s.history ++ ts)

stored-looks : (D : Driver) (q m : ℕ) (h : List Call) → stored D (looks q m h) ≡ stored D h
unfolding stored
stored-looks D q zero h = refl
stored-looks D q (suc m) h = stored-looks D q m (process q ∷ h)

pub write_table-Stores :
    (D : Driver) (d : Idisk) (s : Sio)
    → Works D
    → Stores D s
        (record { ns = d.ns; lba = 0; table = d.msector } ∷ [])
        0
        (sio_write_pinit D d d.msector 0 1)
unfolding stored
write_table-Stores D d s w =
    let (s', m, k, e, h) = sio_write_pinit-returns D d d.msector 0 s w in
    let before : List Call = malloc k ∷ s.history in
    let c : Command = sync_command writes d (sector d.msector) 0 1 in
    (
      s',
      e,
      ap (stored D) h
          ∙ stored-looks D d.qpair m (submit c ∷ before)
          ∙ rw (w.accepts (submit c ∷ before)),
    )

pub write_tables-Stores :
    (D : Driver) (ds : List Idisk) (s : Sio)
    → Works D
    → Stores D s (tables ds) tt (write_tables D ds)
unfolding write_tables
write_tables-Stores D [] s w = (s, refl, sym (append-nil (stored D s.history)))
write_tables-Stores D (d ∷ ds) s w =
    let (s1, e1, h1) = write_table-Stores D d s w in
    let (s2, e2, h2) = write_tables-Stores D ds s1 w in
    (
      s2,
      bind-done (sio_write_pinit D d d.msector 0 1) (λ rc. write_tables D ds) s e1 ∙ e2,
      h2
          ∙ ap (λ r. r ++ tables ds) h1
          ∙ append_assoc (stored D s.history)
              (record { ns = d.ns; lba = 0; table = d.msector } ∷ []) (tables ds),
    )

-- With a working driver `updateRaid` returns, and stores the table of each disk in use in the
-- first sector of its NVMe, in order.
pub update_raid-Stores :
    (D : Driver) (raid : NvmeRaid) (s : Sio)
    → Works D
    → Stores D s (tables (active raid)) tt (update_raid D raid)
unfolding update_raid
update_raid-Stores D raid s w = write_tables-Stores D (active raid) s w

-- What `addFile` does on either outcome of its search for a place.
pub AddOutcome : Driver → NvmeRaid → List ℕ → ℕ → Sio → Option (EntryRef × NvmeRaid) → Type 0
AddOutcome D raid name blsize s none = add_file D raid name blsize s ≡ done ((none, raid), s)
AddOutcome D raid name blsize s (some (p, raid')) =
    IsValid raid' × Stores D s (tables (active raid')) (some p, raid') (add_file D raid name blsize)

-- With a working driver and a raid in order `addFile` returns on every branch: NULL with nothing
-- changed or stored, or the entry and a raid in order, whose tables it has stored.
pub add_file-AddOutcome :
    (D : Driver) (raid : NvmeRaid) (name : List ℕ) (blsize : ℕ) (s : Sio)
    → Works D
    → IsValid raid
    → AddOutcome D raid name blsize s (add_entry raid name blsize)
unfolding AddOutcome add_file
add_file-AddOutcome D raid name blsize s w v = split (add_entry raid name blsize) refl
  where
    split :
        (r : Option (EntryRef × NvmeRaid))
        → add_entry raid name blsize ≡ r
        → AddOutcome D raid name blsize s r
    split none e = rw (add_file, e)
    split (some (p, raid')) e =
        let (s', e', h) = update_raid-Stores D raid' s w in
        (add_entry-IsValid name blsize p raid' v e, (s', rw (add_file, e, ◌>>◌, ◌>>=◌, e'), h))

-- What `delFile` does on either outcome of its search for the name.
unfoldable pub DelOutcome : Driver → NvmeRaid → List ℕ → Sio → Option NvmeRaid → Type 0
DelOutcome D raid name s none = del_file D raid name s ≡ done ((0, raid), s)
DelOutcome D raid name s (some raid') =
    IsValid raid' × Stores D s (tables (active raid')) (1, raid') (del_file D raid name)

-- With a working driver and a raid in order `delFile` returns on every branch: 0 with nothing
-- changed or stored, or 1 and a raid in order, whose tables it has stored.
pub del_file-DelOutcome :
    (D : Driver) (raid : NvmeRaid) (name : List ℕ) (s : Sio)
    → Works D
    → IsValid raid
    → DelOutcome D raid name s (del_entry raid name)
unfolding DelOutcome del_file
del_file-DelOutcome D raid name s w v = split (del_entry raid name) refl
  where
    split : (r : Option NvmeRaid) → del_entry raid name ≡ r → DelOutcome D raid name s r
    split none e = rw (del_file, e)
    split (some raid') e =
        let (s', e', h) = update_raid-Stores D raid' s w in
        (del_entry-IsValid name raid' v e, (s', rw (del_file, e, ◌>>◌, ◌>>=◌, e'), h))
