-- ===== src/Tools/Programs/Found.antt =====
-- src/main.c: the raid of a program's run, and the next run's.
use nvme_dpdk_pcapreplay.Prelude.{
  ℕ, ◌*◌, ◌^◌, ◌≤◌, ◌<◌, ◌≡◌, sym, ◌∙◌, none, some, List, [], ◌∷◌, map, length, length-append,
  arith,
}
use mathlib.Core.Path.{subst}
use nvme_dpdk_pcapreplay.Layout.{NvmeRaid, active, handles, max_disks, super_sector_num}
use nvme_dpdk_pcapreplay.Driver.{Driver, Sio, Io, ◌>>=◌, return}
use nvme_dpdk_pcapreplay.Simpleio.Sync.{Works}
use nvme_dpdk_pcapreplay.Fs.{create_raid}
use nvme_dpdk_pcapreplay.Fs.Reads.{Remembers}
use nvme_dpdk_pcapreplay.Fs.Labels.{SameRaid}
use nvme_dpdk_pcapreplay.Fs.Kept.{Kept, CanFormat, create_raid-Kept}
use nvme_dpdk_pcapreplay.Start.{Controller, my_raid, probe, main}
use nvme_dpdk_pcapreplay.Start.Attached.{
  usable, length-usable, all_usable, all_sectors, all_active, probe-my_raid-Holds,
}
use nvme_dpdk_pcapreplay.Tools.Programs.New.{
  probe-my_raid-IsNew, length-entries-take, DifferentHandles, DifferentNs-handles,
  SameHandles-handles,
}

-- NVMes that make a raid: at most eight namespaces that are active, one at least with a queue pair, no
-- two the same, and with room for the reserved blocks.
pub record CanHold (cs : List Controller) : Type 0 where
  pub few : all_active cs ≤ max_disks
  pub some_disk : 0 < length (all_usable cs)
  pub different : DifferentHandles (all_usable cs)
  pub reserved : length (all_usable cs) * super_sector_num ≤ all_sectors cs
  pub range : all_sectors cs < 2 ^ 64

-- These NVMes hold the tables of the raid, which is in order and has labels.
pub record KeptOn (D : Driver) (cs : List Controller) (raid : NvmeRaid) (s : Sio) : Type 0 where
  pub kept : Kept D raid s
  pub known : map handles (active raid) ≡ all_usable cs
  pub disks : raid.numdisks ≡ length (all_usable cs)
  pub blocks : raid.total_blocks ≡ all_sectors cs

length-all_usable : (cs : List Controller) → length (all_usable cs) ≤ all_active cs
length-all_usable [] = omega arith
length-all_usable (c ∷ cs) = omega (
  arith,
  length-append (usable c.ctrlr c.namespaces) (all_usable cs),
  length-usable c.ctrlr c.namespaces,
  length-all_usable cs,
)

-- The raid that `main` makes of such NVMes can be formatted.
pub probe-CanFormat :
    (cs : List Controller)
    → CanHold cs
    → (raid : NvmeRaid) × (probe cs my_raid ≡ some raid)
      × CanFormat raid
      × (map handles (active raid) ≡ all_usable cs)
      × (raid.numdisks ≡ length (all_usable cs))
      × (raid.total_blocks ≡ all_sectors cs)
probe-CanFormat cs can =
    let (raid, e, holds) = probe-my_raid-Holds cs can.few in
    let new = probe-my_raid-IsNew cs raid e in
    let few : raid.numdisks ≤ max_disks =
      omega (arith, can.few, holds.count, length-all_usable cs) in
    let fits : raid.numdisks ≤ length raid.disk = omega (arith, few, holds.array) in
    let blocks : raid.total_blocks ≡ all_sectors cs = omega (arith, holds.total, can.range) in
    (
      raid,
      e,
      record {
        some_disk = omega (arith, can.some_disk, holds.count);
        few_disks = few;
        array = fits;
        full_tables = length-entries-take raid.numdisks raid.disk fits new.tables;
        reserved =
            subst (λ n. n * super_sector_num ≤ raid.total_blocks) (sym holds.count)
              (omega (arith, can.reserved, blocks));
        range = omega (arith, can.range, blocks);
        no_files = new.no_files;
        different =
            DifferentNs-handles (active raid)
              (subst DifferentHandles (sym holds.disks) can.different);
      },
      holds.disks,
      holds.count,
      blocks,
    )

pub KeptOn-SameRaid :
    (D : Driver) (cs : List Controller) (raid raid' : NvmeRaid) (s s' : Sio)
    → KeptOn D cs raid s
    → Kept D raid' s'
    → SameRaid raid raid'
    → KeptOn D cs raid' s'
KeptOn-SameRaid D cs raid raid' s s' k kept same = record {
  kept = kept;
  known = same.known ∙ k.known;
  disks = same.disks ∙ k.disks;
  blocks = same.blocks ∙ k.blocks;
}

-- A program that is run when the NVMes hold a raid, and that does not format it, hands this raid to its
-- `app_run`.
pub main-KeptOn :
    (D : Driver) (cs : List Controller) (run : NvmeRaid → Io NvmeRaid) (raid : NvmeRaid) (s : Sio)
    → Works D
    → Remembers D
    → CanHold cs
    → KeptOn D cs raid s
    → (m : Io ℕ) × (raid1 : NvmeRaid) × (s1 : Sio) × (main D
          (record { app_config = none; app_init = λ r. return r; app_run = run })
          cs
          0
        ≡ some m)
      × (m s ≡ (run raid1 >>= λ raid2. return 0) s1)
      × KeptOn D cs raid1 s1
      × (active raid1 ≡ active raid)
      × (raid1.num_files ≡ raid.num_files)
unfolding main
main-KeptOn D cs run raid s w remembers can k =
    let (raid0, found, fmt, known0, disks0, blocks0) = probe-CanFormat cs can in
    let (raid1, s1, e, kept, there, files, same) =
      create_raid-Kept D raid raid0 s w remembers k.kept
        (SameHandles-handles (active raid) (active raid0) (k.known ∙ sym known0))
        (disks0 ∙ sym k.disks) (blocks0 ∙ sym k.blocks) in
    (
      (create_raid D raid0 >>= λ raid2. run raid2 >>= λ raid3. return 0),
      raid1,
      s1,
      rw (main, found),
      rw (◌>>=◌, e),
      KeptOn-SameRaid D cs raid raid1 s s1 k kept same,
      there,
      files,
    )
