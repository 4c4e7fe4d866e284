-- ===== src/Tests/Fixtures.antt =====
-- A driver and a raid for the examples.
use nvme_dpdk_pcapreplay.Prelude.{
  ℕ, zero, suc, ◌≤◌, refl, inl, some, List, [], ◌∷◌, arith, replicate, if◌then◌else◌, ltb,
}
use nvme_dpdk_pcapreplay.Layout.{
  MetaFile, MetaSector, Idisk, NvmeRaid, magic_number, super_sector_num,
}
use nvme_dpdk_pcapreplay.Table.{total_files}
use nvme_dpdk_pcapreplay.Table.Search.{All}
use nvme_dpdk_pcapreplay.Table.Invariant.{Pairwise, Apart, Differ, InRange, IsValid}
use nvme_dpdk_pcapreplay.Driver.{Counter, waiting, Call, malloc, copy, submit, process, Driver, Sio}
use nvme_dpdk_pcapreplay.Simpleio.Sync.{Works, count_waiting}

-- The first look after a command reports it.
abbrev pub report : List Call → List Counter
report (process q ∷ submit c ∷ h) = waiting ∷ []
report h = []

abbrev pub blank_sector : MetaSector
blank_sector = record {
  magic = 0;
  version = 0;
  disk_id = 0;
  total_disks = 0;
  total_files = 0;
  content = [];
}

abbrev pub good_driver : Driver
good_driver = record {
  sector_size = λ ns. 512;
  malloc_at = λ h. some 4096;
  submit_rc = λ h. 0;
  callbacks = report;
  read_sector = λ h. blank_sector;
  patience = 1;
}

-- It takes whole super sectors only.
abbrev pub whole_rc : List Call → ℕ
whole_rc [] = 0
whole_rc (malloc n ∷ h) = 0
whole_rc (copy a b n ∷ h) = 0
whole_rc (process q ∷ h) = 0
whole_rc (submit c ∷ h) = if ltb c.lba_count super_sector_num then 1 else 0

abbrev pub picky_driver : Driver
picky_driver = record good_driver { submit_rc = whole_rc }

abbrev pub start : Sio
start = record { history = []; task_completed = 0; task_scheduled = 0 }

report-once : (h : List Call) → count_waiting (report h) ≤ 1
report-once [] = omega arith
report-once (malloc n ∷ h) = omega arith
report-once (copy a b n ∷ h) = omega arith
report-once (submit c ∷ h) = omega arith
report-once (process q ∷ []) = omega arith
report-once (process q ∷ malloc n ∷ h) = omega arith
report-once (process q ∷ copy a b n ∷ h) = omega arith
report-once (process q ∷ submit c ∷ h) = omega arith
report-once (process q ∷ process p ∷ h) = omega arith

pub good_driver-Works : Works good_driver
good_driver-Works = record {
  sectors = λ ns. refl;
  memory = λ h. (4096, refl);
  accepts = λ h. refl;
  once = report-once;
  reported = λ c h waits. (0, omega arith, refl);
}

abbrev pub empty_file : MetaFile
empty_file = record { name = replicate 26 0; start_block = 0; end_block = 0 }

abbrev pub empty_disk : ℕ → Idisk
empty_disk n = record {
  msector = record {
    magic = magic_number;
    version = 1;
    disk_id = n;
    total_disks = 1;
    total_files = 0;
    content = replicate 12 empty_file;
  };
  ctrlr = n;
  ns = n;
  qpair = n;
}

-- One NVMe with an empty table.
abbrev pub one_disk : NvmeRaid
one_disk = record { disk = empty_disk 0 ∷ []; numdisks = 1; num_files = 0; total_blocks = 10000 }

-- Two of them.
abbrev pub two_disks : NvmeRaid
two_disks = record {
  disk = empty_disk 0 ∷ empty_disk 1 ∷ [];
  numdisks = 2;
  num_files = 0;
  total_blocks = 20000;
}

pub All-replicate : (P : MetaFile → Type 0) (n : ℕ) → P empty_file → All P (replicate n empty_file)
All-replicate P zero p = tt
All-replicate P (suc n) p = (p, All-replicate P n p)

Pairwise-replicate :
    (R : MetaFile → MetaFile → Type 0) (n : ℕ)
    → R empty_file empty_file
    → Pairwise R (replicate n empty_file)
Pairwise-replicate R zero r = tt
Pairwise-replicate R (suc n) r = (All-replicate (R empty_file) n r, Pairwise-replicate R n r)

pub one_disk-IsValid : IsValid one_disk
unfolding total_files
one_disk-IsValid = record {
  some_disk = omega arith;
  few_disks = omega arith;
  array = omega arith;
  full_tables = refl;
  range = omega arith;
  reserved = omega arith;
  in_range = All-replicate (InRange 256 10000) 12 (record {
    ordered = omega arith;
    inside = omega arith;
    empty = λ free. refl;
    above = λ used. cc;
  });
  apart = Pairwise-replicate Apart 12 (inl (omega arith));
  differ = Pairwise-replicate Differ 12 (λ used _. cc);
  counted = refl;
  same_count = refl;
}
