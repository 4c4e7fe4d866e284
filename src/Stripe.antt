-- ===== src/Stripe.antt =====
-- src/fs.c, `super_getid` to `super_getdisklba`: which NVMe holds a block of the raid, and where.
pub mod Laws
use nvme_dpdk_pcapreplay.Prelude.{ℕ, ◌+◌, ◌-◌, ◌*◌, ◌/◌, ◌%◌, ◌^◌}
use nvme_dpdk_pcapreplay.Layout.{NvmeRaid, super_sector_num, add_u64, sub_u64, mul_u64}

unfoldable pub super_getid : NvmeRaid → ℕ → ℕ
super_getid raid lba = lba / super_sector_num

unfoldable pub super_getdisk : NvmeRaid → ℕ → ℕ
unfolding super_getid
super_getdisk raid lba = super_getid raid lba % raid.numdisks

-- Every operator is the one of uint64_t.
unfoldable pub super_getdisklba : NvmeRaid → ℕ → ℕ
unfolding super_getid
super_getdisklba raid lba =
    let id = super_getid raid lba in
    add_u64 (sub_u64 lba (mul_u64 (sub_u64 id (id / raid.numdisks)) super_sector_num))
      super_sector_num
