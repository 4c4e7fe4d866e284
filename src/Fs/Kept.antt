-- ===== src/Fs/Kept.antt =====
-- src/fs.c: raids whose tables are on their NVMes, after `formatRaid` and after `createRaid`.
use nvme_dpdk_pcapreplay.Prelude.{
  ℕ, suc, ◌*◌, ◌^◌, ◌≤◌, ◌<◌, ◌≡◌, refl, sym, ap, ◌∙◌, List, [], ◌∷◌, map, length, Outcome, done,
  arith,
}
use mathlib.Core.Path.{subst}
use nvme_dpdk_pcapreplay.Layout.{
  Idisk, NvmeRaid, active, handles, max_files, max_disks, super_sector_num, u8,
}
use nvme_dpdk_pcapreplay.Table.{init_meta}
use nvme_dpdk_pcapreplay.Table.Search.{entries}
use nvme_dpdk_pcapreplay.Table.Invariant.{IsValid}
use nvme_dpdk_pcapreplay.Table.Wiped.{wiped_from}
use nvme_dpdk_pcapreplay.Driver.{Driver, Sio, Io, ◌>>=◌, ◌>>◌, bind-done}
use nvme_dpdk_pcapreplay.Simpleio.{sio_write_pinit}
use nvme_dpdk_pcapreplay.Simpleio.Sync.{Works, sio_write_pinit-returns}
use nvme_dpdk_pcapreplay.Transfer.Counted.{done-injective}
use nvme_dpdk_pcapreplay.Fs.{write_tables, update_raid, format_disks, format_raid, create_raid}
use nvme_dpdk_pcapreplay.Fs.Reads.{
  Remembers, Each-imp, SameHandles, DifferentNs, Holding, write_tables-Holding,
}
use nvme_dpdk_pcapreplay.Fs.Restart.{IsValid-same, create_raid-Holding}
use nvme_dpdk_pcapreplay.Fs.Format.{formatted, active-formatted, length-take, format_raid-IsValid}
use nvme_dpdk_pcapreplay.Fs.Labels.{
  SameRaid, wiped_from-handles, Labelled, wiped_from-Formatted, wiped_from-Numbered,
  wiped_from-DifferentNs,
}

pub done-same :
    {a b : NvmeRaid} {s t : Sio}
    → ◌≡◌ {A = Outcome (NvmeRaid × Sio)} (done (a, s)) (done (b, t))
    → a ≡ b
done-same e = cc

module _ (D : Driver) where
  -- A raid in order, with labels, whose tables are on the NVMes.
  pub record Kept (raid : NvmeRaid) (s : Sio) : Type 0 where
    pub valid : IsValid raid
    pub labels : Labelled (active raid)
    pub holding : Holding D s (active raid)

  -- A piece of the program that returns a raid that is kept.
  abbrev pub Keeps : NvmeRaid → Io NvmeRaid → Sio → Type 0
  Keeps raid m s =
      (raid' : NvmeRaid) × (s' : Sio) × (m s ≡ done (raid', s'))
      × Kept raid' s'
      × SameRaid raid raid'

  -- A changed raid is kept once it is stored.
  pub stored-Kept :
      (raid : NvmeRaid) (s : Sio)
      → Works D
      → IsValid raid
      → Labelled (active raid)
      → (s' : Sio) × (update_raid D raid s ≡ done (tt, s')) × Kept raid s'
  unfolding update_raid
  stored-Kept raid s w v l =
      let (s', e, _, holding) = write_tables-Holding D (active raid) s w l.different in
      (s', e, record { valid = v; labels = l; holding = holding })

-- `formatRaid` makes the writes that `updateRaid` makes on the raid that it leaves.
format_disks-write_tables :
    (D : Driver) (n i : ℕ) (ds : List Idisk) (s : Sio)
    → Works D
    → (s' : Sio) × (write_tables D (wiped_from n i ds) s ≡ done (tt, s'))
      × (format_disks D n i ds s ≡ done (wiped_from n i ds, s'))
unfolding format_disks write_tables
format_disks-write_tables D n i [] s w = (s, refl, refl)
format_disks-write_tables D n i (d ∷ ds) s w =
    let d' : Idisk = record d { msector = init_meta d.msector (u8 i) (u8 n) } in
    let (s1, m, k, e, _) = sio_write_pinit-returns D d' d'.msector 0 s w in
    let (s2, wrote, made) = format_disks-write_tables D n (suc i) ds s1 w in
    (
      s2,
      bind-done (sio_write_pinit D d' d'.msector 0 1)
            (λ rc. write_tables D (wiped_from n (suc i) ds)) s e
          ∙ wrote,
      rw (format_disks, ◌>>◌, ◌>>=◌, e, made),
    )

-- A raid as SPDK finds it: one to eight disks with handles of their own and twelve entries each, and
-- room for their reserved blocks.
pub record CanFormat (raid : NvmeRaid) : Type 0 where
  pub some_disk : 0 < raid.numdisks
  pub few_disks : raid.numdisks ≤ max_disks
  pub array : raid.numdisks ≤ length raid.disk
  pub full_tables : length (entries (active raid)) ≡ max_files * raid.numdisks
  pub reserved : raid.numdisks * super_sector_num ≤ raid.total_blocks
  pub range : raid.total_blocks < 2 ^ 64
  pub no_files : raid.num_files ≡ 0
  pub different : DifferentNs (active raid)

pub formatted-SameRaid :
    (raid : NvmeRaid) → raid.numdisks ≤ length raid.disk → SameRaid raid (formatted raid)
formatted-SameRaid raid fits = record {
  known =
      ap (map handles) (active-formatted raid fits)
      ∙ wiped_from-handles raid.numdisks 0 (active raid);
  disks = refl;
  blocks = refl;
}

-- After `formatRaid` the raid is kept.
pub format_raid-Kept :
    (D : Driver) (raid : NvmeRaid) (s : Sio)
    → Works D
    → CanFormat raid
    → (s' : Sio) × (format_raid D raid s ≡ done (formatted raid, s')) × Kept D (formatted raid) s'
unfolding format_raid
format_raid-Kept D raid s w can =
    let ds : List Idisk = wiped_from raid.numdisks 0 (active raid) in
    let (raid1, valid, _, stores) =
      format_raid-IsValid D raid s w can.some_disk can.few_disks can.array can.full_tables
        can.reserved can.range can.no_files in
    let (s1, e1, _) = stores in
    let (s2, wrote, made) = format_disks-write_tables D raid.numdisks 0 (active raid) s w in
    let different = wiped_from-DifferentNs raid.numdisks 0 (active raid) can.different in
    let (s3, wrote', _, holding) = write_tables-Holding D ds s w different in
    let e2 : format_raid D raid s ≡ done (formatted raid, s2) = rw (format_raid, ◌>>=◌, made) in
    let here : active (formatted raid) ≡ ds = active-formatted raid can.array in
    let size : length (active raid) ≡ raid.numdisks =
      length-take raid.numdisks raid.disk can.array in
    (
      s2,
      e2,
      record {
        valid = subst IsValid (done-same (sym e1 ∙ e2)) valid;
        labels = subst Labelled (sym here) (record {
          formatted = wiped_from-Formatted raid.numdisks 0 (active raid);
          numbered =
              wiped_from-Numbered raid.numdisks 0 (active raid) (omega (arith, can.few_disks));
          different = different;
        });
        holding =
            subst (Holding D s2) (sym here)
              (subst (λ t. Holding D t ds) (done-injective (sym wrote' ∙ wrote)) holding);
      },
    )

-- When a raid is kept, `createRaid` finds it on its NVMes, whatever tables are in memory, and keeps it.
pub create_raid-Kept :
    (D : Driver) (raid raid0 : NvmeRaid) (s : Sio)
    → Works D
    → Remembers D
    → Kept D raid s
    → SameHandles (active raid) (active raid0)
    → raid0.numdisks ≡ raid.numdisks
    → raid0.total_blocks ≡ raid.total_blocks
    → (raid' : NvmeRaid) × (s' : Sio) × (create_raid D raid0 s ≡ done (raid', s'))
      × Kept D raid' s'
      × (active raid' ≡ active raid)
      × (raid'.num_files ≡ raid.num_files)
      × SameRaid raid raid'
create_raid-Kept D raid raid0 s w remembers k same_handles disks0 blocks0 =
    let (raid', s', e, there, files, disks, blocks, keep) =
      create_raid-Holding D raid raid0 s w remembers k.valid k.labels.formatted k.labels.numbered
        k.holding same_handles disks0 in
    let total = blocks ∙ blocks0 in
    (
      raid',
      s',
      e,
      record {
        valid = IsValid-same raid raid' k.valid there files disks total;
        labels = subst Labelled (sym there) k.labels;
        holding =
            subst (Holding D s') (sym there)
              (Each-imp _ _ (active raid) (λ d held. keep d.ns ∙ held) k.holding);
      },
      there,
      files,
      record { known = ap (map handles) there; disks = disks; blocks = total },
    )
