-- ===== src/Transfer/Blocks.antt =====
-- What a history of calls has moved, block by block, and what a transfer across the raid is meant
-- to move: each block of the raid to or from its own place on its own NVMe.
use nvme_dpdk_pcapreplay.Prelude.{
  ℕ, zero, suc, ◌+◌, ◌-◌, ◌*◌, ◌/◌, ◌%◌, ◌^◌, ◌≤◌, ◌<◌, ◌≡◌, refl, sym, ap, ◌∙◌, List, [], ◌∷◌,
  ◌++◌, arith, ◌==◌, if◌then◌else◌,
}
use mathlib.Core.Path.{ap₂, subst₂}
use mathlib.Core.List.{append_assoc}
use nvme_dpdk_pcapreplay.Layout.{NvmeRaid, super_sector_num, sector_length}
use nvme_dpdk_pcapreplay.Stripe.{super_getdisk, super_getdisklba}
use nvme_dpdk_pcapreplay.Stripe.Laws.{super_getdisklba_lem}
use nvme_dpdk_pcapreplay.Driver.{
  Direction, Payload, address, sector, bytes, Command, Call, malloc, copy, submit, process, Driver,
}
use nvme_dpdk_pcapreplay.Simpleio.{disk_at}
use nvme_dpdk_pcapreplay.Transfer.{room, raid_command}

-- One block between the memory at an address and a block of an NVMe (direction, NVMe, block,
-- address), or a copy of so many bytes to an address from another.
pub data Move : Type 0 where
  block : Direction → ℕ → ℕ → ℕ → Move
  copies : ℕ → ℕ → ℕ → Move

unfoldable pub run_of : Direction → ℕ → ℕ → ℕ → ℕ → List Move
run_of dir ns lba payload zero = []
run_of dir ns lba payload (suc n) =
    block dir ns lba payload ∷ run_of dir ns (lba + 1) (payload + sector_length) n

abbrev pub moves_at : Payload → Command → List Move
moves_at (address p) c = run_of c.direction c.ns c.lba p c.lba_count
moves_at (sector m) c = []
moves_at (bytes bs) c = []

-- The blocks of the commands that the driver took, and the copies, the oldest first.
unfoldable pub moved : Driver → List Call → List Move
moved D [] = []
moved D (malloc n ∷ h) = moved D h
moved D (copy n to from ∷ h) = moved D h ++ copies n to from ∷ []
moved D (process q ∷ h) = moved D h
moved D (submit c ∷ h) =
    if D.submit_rc (submit c ∷ h) == 0 then moved D h ++ moves_at c.payload c else moved D h

-- The `n` blocks of the raid from `lba` on, each at its place.
unfoldable pub spread : Direction → NvmeRaid → ℕ → ℕ → ℕ → List Move
spread dir raid payload lba zero = []
spread dir raid payload lba (suc n) =
    block dir (disk_at raid (super_getdisk raid lba)).ns (super_getdisklba raid lba) payload
    ∷ spread dir raid (payload + sector_length) (lba + 1) n

pub spread-add :
    (dir : Direction) (raid : NvmeRaid) (payload lba m n : ℕ)
    → spread dir raid payload lba (m + n)
      ≡ spread dir raid payload lba m ++ spread dir raid (payload + m * sector_length) (lba + m) n
unfolding spread
spread-add dir raid payload lba zero n =
    let here : payload + 0 * sector_length ≡ payload = omega arith in
    let count : 0 + n ≡ n = omega arith in
    let first : lba + 0 ≡ lba = omega arith in rw (here, count, first)
spread-add dir raid payload lba (suc m) n =
    let here : payload + suc m * sector_length ≡ payload + sector_length + m * sector_length =
      omega arith in
    let count : suc m + n ≡ suc (m + n) = omega arith in
    let first : lba + suc m ≡ lba + 1 + m = omega arith in
    rw (here, count, first, spread-add dir raid (payload + sector_length) (lba + 1) m n)

-- What was moved and what is left, after the first `m` blocks.
pub spread-rest :
    (dir : Direction) (raid : NvmeRaid) (payload lba lba' m n : ℕ) (before after : List Move)
    → m ≤ n
    → lba' ≡ lba + m
    → after ≡ before ++ spread dir raid payload lba m
    → after ++ spread dir raid (payload + m * sector_length) lba' (n - m)
      ≡ before ++ spread dir raid payload lba n
spread-rest dir raid payload lba lba' m n before after le e d =
    let whole : m + (n - m) ≡ n = omega arith in
    rw
      (
        d,
        e,
        append_assoc before (spread dir raid payload lba m)
            (spread dir raid (payload + m * sector_length) (lba + m) (n - m)),
      )
      (ap (λ r. before ++ r)
        (sym (spread-add dir raid payload lba m (n - m)) ∙ ap (spread dir raid payload lba) whole))

-- The next block of one super sector lies behind this one on the same NVMe.
next_block :
    (raid : NvmeRaid) (lba : ℕ)
    → 0 < raid.numdisks
    → lba + 1 + super_sector_num < 2 ^ 64
    → 1 < room lba
    → (super_getdisk raid (lba + 1) ≡ super_getdisk raid lba)
      × (super_getdisklba raid (lba + 1) ≡ super_getdisklba raid lba + 1)
unfolding super_getdisk
next_block raid lba h fits more =
    let row : (lba + 1) / super_sector_num ≡ lba / super_sector_num = omega arith in
    let offset : (lba + 1) % super_sector_num ≡ lba % super_sector_num + 1 = omega arith in
    (
      rw row,
      rw
          (
            super_getdisklba_lem raid (lba + 1) h fits,
            super_getdisklba_lem raid lba h (omega arith),
            row,
            offset,
          )
          (omega arith),
    )

-- Blocks of one super sector are one run on one NVMe.
pub run_of-spread :
    (dir : Direction) (raid : NvmeRaid) (payload lba n : ℕ)
    → 0 < raid.numdisks
    → lba + n + super_sector_num < 2 ^ 64
    → n ≤ room lba
    → run_of dir (disk_at raid (super_getdisk raid lba)).ns (super_getdisklba raid lba) payload n
      ≡ spread dir raid payload lba n
unfolding run_of spread
run_of-spread dir raid payload lba zero h fits small = refl
run_of-spread dir raid payload lba (suc zero) h fits small = refl
run_of-spread dir raid payload lba (suc (suc n)) h fits small =
    let (disk, place) = next_block raid lba h (omega arith) (omega arith) in
    ap₂ ◌∷◌ refl (
      subst₂
        (λ d l.
          run_of dir (disk_at raid d).ns l (payload + sector_length) (suc n)
          ≡ spread dir raid (payload + sector_length) (lba + 1) (suc n))
        disk place
        (run_of-spread dir raid (payload + sector_length) (lba + 1) (suc n) h (omega arith)
          (omega arith)))

-- So a command for blocks of one super sector, once taken, moves them to their places.
pub moved-raid_command :
    (D : Driver) (dir : Direction) (raid : NvmeRaid) (payload lba n : ℕ) (h : List Call)
    → 0 < raid.numdisks
    → lba + n + super_sector_num < 2 ^ 64
    → n ≤ room lba
    → D.submit_rc (submit (raid_command dir raid payload lba n) ∷ h) ≡ 0
    → moved D (submit (raid_command dir raid payload lba n) ∷ h)
      ≡ moved D h ++ spread dir raid payload lba n
unfolding moved raid_command
moved-raid_command D dir raid payload lba n h some fits small taken =
    rw taken (ap (λ r. moved D h ++ r) (run_of-spread dir raid payload lba n some fits small))
