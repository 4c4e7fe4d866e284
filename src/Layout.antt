-- ===== src/Layout.antt =====
-- The data of include/fs.h: the file table that every NVMe keeps in its first sector, and the
-- array of NVMes that the program calls its raid.
use nvme_dpdk_pcapreplay.Prelude.{
  ◌∷◌, [], zero, suc, ◌/◌, ℕ, ◌+◌, ◌-◌, ◌*◌, ◌/◌, ◌%◌, ◌^◌, List, [],
}
use nvme_dpdk_pcapreplay.Prelude.{take}

-- CURVERSION, NAMELENGTH, MAXFILES, MAXDISKS
abbrev pub cur_version : ℕ
cur_version = 1

abbrev pub name_length : ℕ
name_length = 26

abbrev pub max_files : ℕ
max_files = 12

abbrev pub max_disks : ℕ
max_disks = 8

-- MAGICNUMBER
abbrev pub magic_number : ℕ
magic_number = 0xCACA0FE0

-- SECTORLENGTH and METASECTORLENGTH
abbrev pub sector_length : ℕ
sector_length = 512

-- SUPERSECTORLENGTH
abbrev pub super_sector_length : ℕ
super_sector_length = 128 * 1024

-- SUPERSECTORNUM
abbrev pub super_sector_num : ℕ
super_sector_num = super_sector_length / sector_length

-- Arithmetic of uint64_t and of uint8_t.
abbrev pub u64 : ℕ → ℕ
u64 n = n % 2 ^ 64

abbrev pub add_u64 : ℕ → ℕ → ℕ
add_u64 a b = (a + b) % 2 ^ 64

abbrev pub sub_u64 : ℕ → ℕ → ℕ
sub_u64 a b = (a + 2 ^ 64 - b) % 2 ^ 64

abbrev pub mul_u64 : ℕ → ℕ → ℕ
mul_u64 a b = (a * b) % 2 ^ 64

abbrev pub u32 : ℕ → ℕ
u32 n = n % 2 ^ 32

abbrev pub u8 : ℕ → ℕ
u8 n = n % 2 ^ 8

-- The bytes of a number, the low ones first.
unfoldable pub le_bytes : ℕ → ℕ → List ℕ
le_bytes zero v = []
le_bytes (suc n) v = v % 2 ^ 8 ∷ le_bytes n (v / 2 ^ 8)

-- `metaFile`. The name is its bytes.
pub record MetaFile : Type 0 where
  pub name : List ℕ
  pub start_block : ℕ
  pub end_block : ℕ

-- `metaSector`
pub record MetaSector : Type 0 where
  pub magic : ℕ
  pub version : ℕ
  pub disk_id : ℕ
  pub total_disks : ℕ
  pub total_files : ℕ
  pub content : List MetaFile

-- `idisk`; the three handles of the driver are numbers.
pub record Idisk : Type 0 where
  pub msector : MetaSector
  pub ctrlr : ℕ
  pub ns : ℕ
  pub qpair : ℕ

-- `nvmeRaid`. The array has `max_disks` entries, of which the first `numdisks` are in use.
pub record NvmeRaid : Type 0 where
  pub disk : List Idisk
  pub numdisks : ℕ
  pub num_files : ℕ
  pub total_blocks : ℕ

-- The entries that a loop `for (i = 0; i < raid->numdisks; i++)` visits.
abbrev pub active : NvmeRaid → List Idisk
active raid = take raid.numdisks raid.disk

-- The handles of a disk: controller, namespace, queue pair.
abbrev pub handles : Idisk → ℕ × ℕ × ℕ
handles d = (d.ctrlr, d.ns, d.qpair)

-- An entry of the array that was never filled in, and what a read past the array is given.
abbrev pub null_disk : Idisk
null_disk = record {
  msector = record {
    magic = 0;
    version = 0;
    disk_id = 0;
    total_disks = 0;
    total_files = 0;
    content = [];
  };
  ctrlr = 0;
  ns = 0;
  qpair = 0;
}
