-- ===== src/Transfer/Lost.antt =====
-- src/simpleio.c: a command that the driver refuses for the last, incomplete super sector of a
-- transfer.
use nvme_dpdk_pcapreplay.Prelude.{
  ℕ, suc, ◌+◌, ◌-◌, ◌%◌, ◌^◌, ◌≤◌, ◌<◌, ◌≡◌, ◌≢◌, ◌∙◌, true, false, List, ◌∷◌, ◌++◌, Outcome, done,
  arith, leb, ◌==◌, if◌then◌else◌,
}
use nvme_dpdk_pcapreplay.Layout.{NvmeRaid, active, super_sector_num}
use nvme_dpdk_pcapreplay.Driver.{
  Direction, reads, writes, Command, Driver, Sio, ◌>>=◌, ◌>>◌, return, Call, submit,
}
use nvme_dpdk_pcapreplay.Simpleio.{issue}
use nvme_dpdk_pcapreplay.Transfer.{
  room, check, raid_command, check_completions, issue_task, sio_transfer, Rest, sio_rread,
  sio_rwrite,
}
use nvme_dpdk_pcapreplay.Transfer.Blocks.{moved, spread}
use nvme_dpdk_pcapreplay.Transfer.Steps.{
  AcceptsWhole, moved-check_completions, super_sectors-Looped, transfer-loop,
}

-- The driver refuses every command for less than a super sector, and says so.
abbrev pub RefusesParts : Driver → Type 0
RefusesParts D =
    (c : Command) (h : List Call) → c.lba_count < super_sector_num → D.submit_rc (submit c ∷ h) ≢ 0

-- The code returns 0, though the last `left` blocks are missing from what it has moved.
abbrev pub Loses : Driver → Direction → NvmeRaid → ℕ → ℕ → ℕ → Sio → Outcome (ℕ × Sio) → Type 0
Loses D dir raid payload lba n s r =
    (s' : Sio) × (left : ℕ) × (payload' : ℕ) × (r ≡ done (0, s'))
    × (0 < left)
    × (left ≤ n)
    × (moved D s'.history ++ spread dir raid payload' (lba + n - left) left
        ≡ moved D s.history ++ spread dir raid payload lba n)

module _ (D : Driver) (dir : Direction) (raid : NvmeRaid) (some : 0 < raid.numdisks)
    (refuses : RefusesParts D) where
  -- A refused command ends the inner call at once.
  transfer-refused :
      (fuel payload lba n : ℕ) (s : Sio)
      → n < super_sector_num
      → lba % super_sector_num ≡ 0
      → (s' : Sio) × (rc : ℕ) × (sio_transfer D (suc fuel) dir raid payload lba n s ≡ done (rc, s'))
        × (moved D s'.history ≡ moved D s.history)
  unfolding sio_transfer issue_task issue moved
  transfer-refused fuel payload lba n s small aligned =
      let c : Command = raid_command dir raid payload lba n in
      let h : List Call = submit c ∷ s.history in
      let test : leb n (room lba) ≡ true = ground arith in
      let refused : (D.submit_rc h == 0) ≡ false =
        ground (arith, refuses c s.history (unfold raid_command in small)) in
      (
        record s { history = h },
        D.submit_rc h,
        rw (sio_transfer, test, ◌>>=◌, refused, check, refused),
        rw refused,
      )

  -- The refused call is followed by a look at the completions and `return 0`.
  refused-returns :
      (fuel : ℕ) (rest : Rest) (s : Sio)
      → rest.lba_count < super_sector_num
      → 0 < rest.lba_count
      → rest.lba % super_sector_num ≡ 0
      → (s' : Sio) × (((if rest.lba_count == 0
                then return {A = ℕ} 0
                else sio_transfer D (suc fuel) dir raid rest.payload rest.lba rest.lba_count)
              >> (check_completions D (active raid) >> return {A = ℕ} 0))
            s
          ≡ done (0, s'))
        × (moved D s'.history ≡ moved D s.history)
  refused-returns fuel rest s small more aligned =
      let test : (rest.lba_count == 0) ≡ false = ground arith in
      let (s1, rc, e1, m1) =
        transfer-refused fuel rest.payload rest.lba rest.lba_count s small aligned in
      let (s2, e2, m2) = moved-check_completions D (active raid) s1 in
      (s2, rw (test, ◌>>◌, ◌>>=◌, e1, e2), m2 ∙ m1)

  transfer-Loses :
      (payload lba n : ℕ) (s : Sio)
      → AcceptsWhole D
      → lba + n + super_sector_num < 2 ^ 64
      → lba % super_sector_num ≡ 0
      → super_sector_num < n
      → n % super_sector_num ≢ 0
      → Loses D dir raid payload lba n s (sio_transfer D 3 dir raid payload lba n s)
  transfer-Loses payload lba n s whole fits aligned large ragged =
      let (rest, s1, looped, ok, small, start, ends, m1) =
        super_sectors-Looped D dir raid some (suc n) 0 payload lba n s whole (omega arith) aligned
          fits in
      let more : 0 < rest.lba_count = omega arith in
      let (s2, e2, m2) = refused-returns 1 rest s1 small more start in
      let too_large : leb n (room lba) ≡ false = ground arith in
      let at_start : (lba % super_sector_num == 0) ≡ true = ground arith in
      let place : lba + n - rest.lba_count ≡ rest.lba = omega arith in
      (
        s2,
        rest.lba_count,
        rest.payload,
        transfer-loop D dir raid some 2 payload lba n s s1 rest too_large at_start looped ok ∙ e2,
        more,
        omega arith,
        rw (m2, place) m1,
      )

-- On a raid with an NVMe and a driver that takes commands for whole super sectors and refuses all
-- smaller ones, a transfer of more than a super sector that begins at one, does not end at one and
-- ends a super sector below 2^64 loses its last blocks, at least one, and `sio_rread` and
-- `sio_rwrite` return 0 all the same.
pub sio_rread-sio_rwrite-lose :
    (D : Driver) (raid : NvmeRaid) (payload lba n : ℕ) (s : Sio)
    → AcceptsWhole D
    → RefusesParts D
    → 0 < raid.numdisks
    → lba + n + super_sector_num < 2 ^ 64
    → lba % super_sector_num ≡ 0
    → super_sector_num < n
    → n % super_sector_num ≢ 0
    → Loses D reads raid payload lba n s (sio_rread D raid payload lba n s)
      × Loses D writes raid payload lba n s (sio_rwrite D raid payload lba n s)
unfolding sio_rread sio_rwrite
sio_rread-sio_rwrite-lose D raid payload lba n s whole refuses some fits aligned large ragged = (
  transfer-Loses D reads raid some refuses payload lba n s whole fits aligned large ragged,
  transfer-Loses D writes raid some refuses payload lba n s whole fits aligned large ragged,
)
