-- ===== src/Fs/Format.antt =====
-- src/fs.c, `formatRaid`: what it leaves, in memory and on the NVMes.
use nvme_dpdk_pcapreplay.Prelude.{
  ℕ, zero, suc, ◌*◌, ◌^◌, ◌≤◌, ◌<◌, ◌≡◌, refl, sym, ap, ◌∙◌, List, [], ◌∷◌, ◌++◌, arith, length,
  length-append, take, drop, get_or,
}
use mathlib.Core.List.{append-nil, append_assoc}
use nvme_dpdk_pcapreplay.Layout.{
  Idisk, NvmeRaid, active, null_disk, max_files, max_disks, super_sector_num, u8,
}
use nvme_dpdk_pcapreplay.Table.{init_meta, total_files}
use nvme_dpdk_pcapreplay.Table.Search.{All, entries}
use nvme_dpdk_pcapreplay.Table.Invariant.{IsValid, count_used}
use nvme_dpdk_pcapreplay.Table.Wiped.{
  Cleared, wiped_from, length-wiped_from, wiped_from-Cleared, length-entries-wiped_from,
  Cleared-InRange, Cleared-Apart, Cleared-Differ, count_used-Cleared,
}
use nvme_dpdk_pcapreplay.Driver.{Driver, Sio, ◌>>=◌, ◌>>◌}
use nvme_dpdk_pcapreplay.Simpleio.Sync.{Works}
use nvme_dpdk_pcapreplay.Fs.{set_active, format_disks, format_raid}
use nvme_dpdk_pcapreplay.Fs.Writes.{stored, tables, Stores, write_table-Stores}

-- The loop stores each new table on its NVMe.
format_disks-Stores :
    (D : Driver) (n i : ℕ) (ds : List Idisk) (s : Sio)
    → Works D
    → Stores D s (tables (wiped_from n i ds)) (wiped_from n i ds) (format_disks D n i ds)
unfolding format_disks
format_disks-Stores D n i [] s w = (s, refl, sym (append-nil (stored D s.history)))
format_disks-Stores D n i (d ∷ ds) s w =
    let d' : Idisk = record d { msector = init_meta d.msector (u8 i) (u8 n) } in
    let (s1, e1, h1) = write_table-Stores D d' s w in
    let (s2, e2, h2) = format_disks-Stores D n (suc i) ds s1 w in
    (
      s2,
      rw (format_disks, ◌>>◌, ◌>>=◌, e1, e2),
      h2
          ∙ ap (λ r. r ++ tables (wiped_from n (suc i) ds)) h1
          ∙ append_assoc (stored D s.history)
              (record { ns = d.ns; lba = 0; table = d'.msector } ∷ [])
              (tables (wiped_from n (suc i) ds)),
    )

take-append : (ds es : List Idisk) → take (length ds) (ds ++ es) ≡ ds
take-append [] es = refl
take-append (d ∷ ds) es = ap (λ r. d ∷ r) (take-append ds es)

pub length-take : (n : ℕ) (ds : List Idisk) → n ≤ length ds → length (take n ds) ≡ n
length-take zero ds le = refl
length-take (suc n) [] le = absurd (omega arith)
length-take (suc n) (d ∷ ds) le = ap suc (length-take n ds (omega arith))

-- The raid with new tables on all its disks.
abbrev pub formatted : NvmeRaid → NvmeRaid
formatted raid = set_active raid (wiped_from raid.numdisks 0 (active raid))

pub active-formatted :
    (raid : NvmeRaid)
    → raid.numdisks ≤ length raid.disk
    → active (formatted raid) ≡ wiped_from raid.numdisks 0 (active raid)
active-formatted raid fits =
    let ds : List Idisk = wiped_from raid.numdisks 0 (active raid) in
    let n : length ds ≡ raid.numdisks =
      length-wiped_from raid.numdisks 0 (active raid) ∙ length-take raid.numdisks raid.disk fits in
    ap (λ k. take k (ds ++ drop raid.numdisks raid.disk)) (sym n)
    ∙ take-append ds (drop raid.numdisks raid.disk)

no_files :
    (n i : ℕ) (ds es : List Idisk)
    → 0 < length ds
    → (get_or (wiped_from n i ds ++ es) 0 null_disk).msector.total_files ≡ 0
unfolding init_meta
no_files n i [] es h = absurd (omega arith)
no_files n i (d ∷ ds) es h = refl

-- With a working driver `formatRaid` returns, has stored the new table of each disk in use, and
-- leaves a raid in order without a file, whatever its tables held before: if it has one to eight
-- disks with twelve entries each, room for their reserved blocks, and the count of files is 0.
pub format_raid-IsValid :
    (D : Driver) (raid : NvmeRaid) (s : Sio)
    → Works D
    → 0 < raid.numdisks
    → raid.numdisks ≤ max_disks
    → raid.numdisks ≤ length raid.disk
    → length (entries (active raid)) ≡ max_files * raid.numdisks
    → raid.numdisks * super_sector_num ≤ raid.total_blocks
    → raid.total_blocks < 2 ^ 64
    → raid.num_files ≡ 0
    → (raid' : NvmeRaid) × IsValid raid'
      × (count_used (entries (active raid')) ≡ 0)
      × Stores D s (tables (active raid')) raid' (format_raid D raid)
unfolding format_raid total_files
format_raid-IsValid D raid s w some few fits full reserved range no_count =
    let n : ℕ = raid.numdisks in
    let ds : List Idisk = wiped_from n 0 (active raid) in
    let here : active (formatted raid) ≡ ds = active-formatted raid fits in
    let clear : All Cleared (entries (active (formatted raid))) =
      rw here (wiped_from-Cleared n 0 (active raid)) in
    let size : length (take n raid.disk) ≡ n = length-take n raid.disk fits in
    let none_used : count_used (entries (active (formatted raid))) ≡ 0 =
      count_used-Cleared (entries (active (formatted raid))) clear in
    let total : total_files (formatted raid) ≡ 0 =
      no_files n 0 (active raid) (drop n raid.disk) (omega arith) in
    let (s', e, h) = format_disks-Stores D n 0 (active raid) s w in
    (
      formatted raid,
      record {
        some_disk = some;
        few_disks = few;
        array =
            omega (arith, length-append ds (drop n raid.disk), length-wiped_from n 0 (active raid));
        full_tables =
            ap (λ es. length (entries es)) here
            ∙ length-entries-wiped_from n 0 (active raid)
            ∙ full;
        range = range;
        reserved = reserved;
        in_range = Cleared-InRange (n * super_sector_num) raid.total_blocks _ clear;
        apart = Cleared-Apart _ clear;
        differ = Cleared-Differ _ clear;
        counted = total ∙ sym none_used;
        same_count = no_count ∙ sym total;
      },
      none_used,
      (s', rw (format_raid, ◌>>=◌, e), h ∙ ap (λ es. stored D s.history ++ tables es) (sym here)),
    )
