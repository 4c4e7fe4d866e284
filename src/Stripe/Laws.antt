-- ===== src/Stripe/Laws.antt =====
-- The map from blocks of the raid to blocks of its NVMes, and the map back.
use nvme_dpdk_pcapreplay.Prelude.{
  ℕ, zero, suc, ◌+◌, ◌-◌, ◌*◌, ◌/◌, ◌%◌, ◌^◌, ◌≤◌, ◌<◌, ◌≡◌, ap, arith,
}
use nvme_dpdk_pcapreplay.Layout.{NvmeRaid, super_sector_num}
use nvme_dpdk_pcapreplay.Stripe.{super_getdisk, super_getdisklba}
use native.Mathlib.Nat.{mod-lt, div-add-mod', div-eq_of_lt-le}

-- The wrapping arithmetic of the code does not wrap on a block number that leaves room.
pub super_getdisklba_lem :
    (raid : NvmeRaid) (lba : ℕ)
    → 0 < raid.numdisks
    → lba + super_sector_num < 2 ^ 64
    → super_getdisklba raid lba
      ≡ lba % super_sector_num
        + (lba / super_sector_num / raid.numdisks) * super_sector_num
        + super_sector_num
unfolding super_getdisklba
super_getdisklba_lem raid lba h room = grind arith

-- The block of the raid that block `dlba` of NVMe `d` holds, when `n` NVMes share the raid.
abbrev pub block_at : ℕ → ℕ → ℕ → ℕ
block_at n d dlba =
    ((dlba / super_sector_num - 1) * n + d) * super_sector_num + dlba % super_sector_num

-- What `block_at` makes of a place that is written out as row, column and offset.
block_at-place :
    (n d q r : ℕ)
    → r < super_sector_num
    → block_at n d (r + q * super_sector_num + super_sector_num)
      ≡ (q * n + d) * super_sector_num + r
block_at-place n d q r h =
    let row : (r + q * super_sector_num + super_sector_num) / super_sector_num - 1 ≡ q =
      omega arith in
    let offset : (r + q * super_sector_num + super_sector_num) % super_sector_num ≡ r =
      omega arith in
    rw (row, offset)

-- On a raid with an NVMe, a block that lies a super sector below 2^64 is held by one of the raid's
-- NVMes, past the file table's super sector, and the place where it lies tells which block it is.
pub block_at-super_get :
    (raid : NvmeRaid) (lba : ℕ)
    → 0 < raid.numdisks
    → lba + super_sector_num < 2 ^ 64
    → (super_getdisk raid lba < raid.numdisks)
      × (super_sector_num ≤ super_getdisklba raid lba)
      × (block_at raid.numdisks (super_getdisk raid lba) (super_getdisklba raid lba) ≡ lba)
unfolding super_getdisk
block_at-super_get raid lba h room = rw (super_getdisklba_lem raid lba h room) (
  mod-lt (lba / super_sector_num) h,
  omega arith,
  rw
      (block_at-place raid.numdisks (lba / super_sector_num % raid.numdisks)
        (lba / super_sector_num / raid.numdisks) (lba % super_sector_num) (omega arith))
      (omega (arith, div-add-mod' (lba / super_sector_num) raid.numdisks)),
)

div-row : (q n d : ℕ) → d < n → (q * n + d) / n ≡ q
div-row q n d h = div-eq_of_lt-le n (omega arith) (omega arith)

mod-row : (q n d : ℕ) → d < n → (q * n + d) % n ≡ d
mod-row q n d h = omega (arith, div-add-mod' (q * n + d) n, ap (λ (t : ℕ). t * n) (div-row q n d h))

-- Every block of an NVMe of the raid past its first super sector is the place of a block of the
-- raid, the one that `block_at` computes, if that lies a super sector below 2^64.
pub super_get-block_at :
    (raid : NvmeRaid) (d dlba : ℕ)
    → d < raid.numdisks
    → super_sector_num ≤ dlba
    → block_at raid.numdisks d dlba + super_sector_num < 2 ^ 64
    → (super_getdisk raid (block_at raid.numdisks d dlba) ≡ d)
      × (super_getdisklba raid (block_at raid.numdisks d dlba) ≡ dlba)
unfolding super_getdisk
super_get-block_at raid d dlba h past room =
    let n : ℕ = raid.numdisks in
    let q : ℕ = dlba / super_sector_num - 1 in
    let lba : ℕ = block_at n d dlba in
    let row : lba / super_sector_num ≡ q * n + d = omega arith in
    let offset : lba % super_sector_num ≡ dlba % super_sector_num = omega arith in
    let column : (q * n + d) / n ≡ q = div-row q n d h in
    (
      rw row (mod-row q n d h),
      rw (super_getdisklba_lem raid lba (omega arith) room, offset, row, column) (omega arith),
    )

-- When a raid counts all the blocks of its NVMes, each of which has `rows` super sectors, and they
-- are a super sector short of 2^64, the blocks of its last `numdisks` super sectors lie past the
-- end of the NVMes, since the file tables take the first super sector of each.
pub super_getdisklba-past_end :
    (raid : NvmeRaid) (rows lba : ℕ)
    → 0 < raid.numdisks
    → raid.total_blocks ≡ rows * raid.numdisks * super_sector_num
    → raid.total_blocks + super_sector_num < 2 ^ 64
    → raid.total_blocks ≤ lba + raid.numdisks * super_sector_num
    → lba < raid.total_blocks
    → rows * super_sector_num ≤ super_getdisklba raid lba
super_getdisklba-past_end raid zero lba h total room late inside = absurd (omega arith)
super_getdisklba-past_end raid (suc q) lba h total room late inside =
    let n : ℕ = raid.numdisks in
    let whole : suc q * n ≡ q * n + n = omega arith in
    let column : lba / super_sector_num / n ≡ q = div-eq_of_lt-le n (omega arith) (omega arith) in
    rw (super_getdisklba_lem raid lba h (omega arith), column) (omega arith)
