-- ===== src/Start.antt =====
-- src/main.c: the raid is made of the namespaces that SPDK finds, and handed to the tool.
pub mod Attached
pub mod Overrun
use nvme_dpdk_pcapreplay.Prelude.{
  ℕ, zero, suc, ◌+◌, Bool, true, false, Option, none, some, List, [], ◌∷◌, leb, ◌==◌, if◌then◌else◌,
  modify, replicate, get_or, Outcome, done, exits,
}
use nvme_dpdk_pcapreplay.Layout.{
  Idisk, NvmeRaid, null_disk, max_files, name_length, max_disks, add_u64,
}
use nvme_dpdk_pcapreplay.Driver.{Driver, Io, ◌>>=◌, ◌>>◌, return}
use nvme_dpdk_pcapreplay.Fs.{create_raid}

-- What SPDK says of a namespace: its handle, whether it is active, its number of sectors, and what
-- spdk_nvme_ctrlr_alloc_io_qpair gives when it is called for it.
pub record Namespace : Type 0 where
  pub ns : ℕ
  pub is_active : Bool
  pub num_sectors : ℕ
  pub io_qpair : Option ℕ

-- A controller, with its namespaces from the first on.
pub record Controller : Type 0 where
  pub ctrlr : ℕ
  pub namespaces : List Namespace

-- An element of the array `myRaid.disk` at the start: all its bytes are zero.
abbrev pub new_disk : Idisk
new_disk = record null_disk {
  msector = record null_disk.msector {
    content =
        replicate max_files
          (record { name = replicate name_length 0; start_block = 0; end_block = 0 });
  };
}

-- The global `myRaid` at the start.
abbrev pub my_raid : NvmeRaid
my_raid = record {
  disk = replicate max_disks new_disk;
  numdisks = 0;
  num_files = 0;
  total_blocks = 0;
}

-- The writes to `myRaid.disk[myRaid.numdisks]`.
unfoldable pub set_handles : ℕ → ℕ → ℕ → NvmeRaid → NvmeRaid
set_handles ctrlr ns qpair raid = record raid {
  disk = modify raid.numdisks (λ d. record d { ctrlr = ctrlr; ns = ns; qpair = qpair }) raid.disk;
}

-- `none` is a write behind the array, whose bound is not looked at. A NULL pointer is 0.
unfoldable pub register_ns : ℕ → Namespace → NvmeRaid → Option NvmeRaid
unfolding set_handles
register_ns ctrlr n raid =
    if n.is_active
    then (if leb max_disks raid.numdisks then none else elim n.io_qpair [
      | none ↦ some (set_handles ctrlr n.ns 0 raid)
      | some q ↦ some (record (set_handles ctrlr n.ns q raid) {
        total_blocks = add_u64 raid.total_blocks n.num_sectors;
        numdisks = raid.numdisks + 1;
      })
    ])
    else some raid

-- The loop of `attach_cb` over the namespaces of a controller.
unfoldable pub register_all : ℕ → List Namespace → NvmeRaid → Option NvmeRaid
unfolding register_ns
register_all ctrlr [] raid = some raid
register_all ctrlr (n ∷ ns) raid = elim (register_ns ctrlr n raid) [
  | none ↦ none
  | some raid' ↦ register_all ctrlr ns raid'
]

unfoldable pub attach_cb : Controller → NvmeRaid → Option NvmeRaid
unfolding register_all
attach_cb c raid = register_all c.ctrlr c.namespaces raid

-- Every controller is wanted.
unfoldable pub probe_cb : Controller → Bool
probe_cb c = true

-- spdk_nvme_probe, which calls `attach_cb` for each controller that `probe_cb` wants.
unfoldable pub probe : List Controller → NvmeRaid → Option NvmeRaid
unfolding attach_cb probe_cb
probe [] raid = some raid
probe (c ∷ cs) raid =
    let skipped = probe cs raid in
    if probe_cb c
    then elim (attach_cb c raid) [ none ↦ none | some raid' ↦ probe cs raid' ]
    else skipped

-- A tool: what `app_config` ends the program with, if it does, `app_init` and `app_run`.
pub record App : Type 0 where
  pub app_config : Option ℕ
  pub app_init : NvmeRaid → Io NvmeRaid
  pub app_run : NvmeRaid → Io NvmeRaid

-- `main`, with the status of spdk_nvme_probe; `none` is a write behind the array.
unfoldable pub main : Driver → App → List Controller → ℕ → Option (Io ℕ)
unfolding probe
main D app controllers rc = elim app.app_config [
  | some status ↦ some (λ s. exits status)
  | none ↦ elim (probe controllers my_raid) [
    | none ↦ none
    | some raid ↦ some (
        if rc == 0
        then (do
          raid1 ← app.app_init raid
          raid2 ← create_raid D raid1
          raid3 ← app.app_run raid2
          return 0)
        else return 1)
  ]
]
