-- ===== src/Tests/Blocks.antt =====
-- Transfers and places of blocks.
use nvme_dpdk_pcapreplay.Prelude.{◌*◌, ◌≤◌, ◌<◌, ◌≡◌, refl, arith}
use nvme_dpdk_pcapreplay.Layout.{NvmeRaid, super_sector_num}
use nvme_dpdk_pcapreplay.Driver.{reads, writes}
use nvme_dpdk_pcapreplay.Stripe.{super_getdisk, super_getdisklba}
use nvme_dpdk_pcapreplay.Stripe.Laws.{
  block_at, block_at-super_get, super_get-block_at, super_getdisklba-past_end,
}
use nvme_dpdk_pcapreplay.Transfer.{sio_rread, sio_rwrite}
use nvme_dpdk_pcapreplay.Transfer.Blocks.{spread}
use nvme_dpdk_pcapreplay.Transfer.Steps.{Moves, AcceptsWhole}
use nvme_dpdk_pcapreplay.Transfer.Coverage.{sio_rread-sio_rwrite-Moves}
use nvme_dpdk_pcapreplay.Transfer.Lost.{Loses, RefusesParts, sio_rread-sio_rwrite-lose}
use nvme_dpdk_pcapreplay.Tests.Fixtures.{good_driver, picky_driver, start, two_disks}

-- A transfer of blocks 250 to 799, which begins and ends inside a super sector.
sio_rread-sio_rwrite-Moves_example :
    Moves good_driver start
      (spread reads two_disks 4096 250 550)
      (sio_rread good_driver two_disks 4096 250 550 start)
    × Moves good_driver start
        (spread writes two_disks 4096 250 550)
        (sio_rwrite good_driver two_disks 4096 250 550 start)
sio_rread-sio_rwrite-Moves_example =
    sio_rread-sio_rwrite-Moves good_driver two_disks 4096 250 550 start (λ h. refl) (omega arith)
      (omega arith)

block_at-super_get_example :
    (super_getdisk two_disks 1000 < 2)
    × (super_sector_num ≤ super_getdisklba two_disks 1000)
    × (block_at 2 (super_getdisk two_disks 1000) (super_getdisklba two_disks 1000) ≡ 1000)
block_at-super_get_example = block_at-super_get two_disks 1000 (omega arith) (omega arith)

super_get-block_at_example :
    (super_getdisk two_disks (block_at 2 1 700) ≡ 1)
    × (super_getdisklba two_disks (block_at 2 1 700) ≡ 700)
super_get-block_at_example =
    super_get-block_at two_disks 1 700 (omega arith) (omega arith) (omega arith)

takes_whole : AcceptsWhole picky_driver
takes_whole c h e = ground arith

refuses_parts : RefusesParts picky_driver
refuses_parts c h small e = ground arith

-- The last 88 blocks of 600 are lost.
sio_rread-sio_rwrite-lose_example :
    Loses picky_driver reads two_disks 4096 0 600 start
      (sio_rread picky_driver two_disks 4096 0 600 start)
    × Loses picky_driver writes two_disks 4096 0 600 start
        (sio_rwrite picky_driver two_disks 4096 0 600 start)
sio_rread-sio_rwrite-lose_example =
    sio_rread-sio_rwrite-lose picky_driver two_disks 4096 0 600 start takes_whole refuses_parts
      (omega arith) (omega arith) (omega arith) (omega arith) (λ e. omega arith)

-- The raid of two NVMes of 39 super sectors, and its last block.
abbrev raid_of_39 : NvmeRaid
raid_of_39 = record two_disks { total_blocks = 19968 }

super_getdisklba-past_end_example : 39 * super_sector_num ≤ super_getdisklba raid_of_39 19967
super_getdisklba-past_end_example =
    super_getdisklba-past_end raid_of_39 39 19967 (omega arith) (omega arith) (omega arith)
      (omega arith) (omega arith)
