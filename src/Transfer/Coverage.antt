-- ===== src/Transfer/Coverage.antt =====
-- src/simpleio.c, `sio_rread` and `sio_rwrite`: the branches of a transfer across the raid, and the
-- blocks that each moves.
use nvme_dpdk_pcapreplay.Prelude.{
  ℕ, suc, ◌+◌, ◌-◌, ◌*◌, ◌%◌, ◌^◌, ◌≤◌, ◌<◌, ◌≡◌, refl, sym, ◌∙◌, inl, inr, true, false, [], ◌∷◌,
  arith, leb, ◌==◌, if◌then◌else◌, Bool-cases,
}
use mathlib.Core.List.{append-nil}
use nvme_dpdk_pcapreplay.Layout.{NvmeRaid, active, super_sector_num, sector_length, add_u64}
use nvme_dpdk_pcapreplay.Driver.{
  Direction, reads, writes, Driver, Sio, Io, ◌>>=◌, ◌>>◌, return, submit,
}
use nvme_dpdk_pcapreplay.Transfer.{
  room, check, check_completions, issue_task, sio_transfer, Rest, sio_rread, sio_rwrite,
}
use nvme_dpdk_pcapreplay.Transfer.Blocks.{moved, spread, spread-rest}
use nvme_dpdk_pcapreplay.Transfer.Steps.{
  Accepts, Moves, finish, issue_task-Moves, Moves-trans, super_sectors-Looped, transfer-loop,
}

module _ (D : Driver) (dir : Direction) (raid : NvmeRaid) (some : 0 < raid.numdisks) where
  -- A transfer inside one super sector.
  transfer-small :
      (fuel payload lba n : ℕ) (s : Sio)
      → Accepts D
      → lba + n + super_sector_num < 2 ^ 64
      → n ≤ room lba
      → Moves D s
          (spread dir raid payload lba n)
          (sio_transfer D (suc fuel) dir raid payload lba n s)
  unfolding sio_transfer
  transfer-small fuel payload lba n s accepts fits small =
      let test : leb n (room lba) ≡ true = ground arith in
      rw (sio_transfer, test)
        (Moves-trans D (issue_task D dir raid payload lba n) _ s (spread dir raid payload lba n) []
          (spread dir raid payload lba n) (append-nil (spread dir raid payload lba n))
          (issue_task-Moves D dir raid some payload lba n s (accepts _) fits small) (finish D raid))

  -- What the loop leaves.
  tail-Moves :
      (fuel : ℕ) (rest : Rest) (s : Sio)
      → Accepts D
      → rest.lba + rest.lba_count + super_sector_num < 2 ^ 64
      → rest.lba_count < super_sector_num
      → rest.lba % super_sector_num ≡ 0
      → Moves D s (spread dir raid rest.payload rest.lba rest.lba_count) (
          (if rest.lba_count == 0
              then return 0
              else sio_transfer D (suc fuel) dir raid rest.payload rest.lba rest.lba_count)
            s)
  unfolding spread
  tail-Moves fuel rest s accepts fits small aligned = elim (Bool-cases (rest.lba_count == 0)) [
    | inl empty ↦
        let none_left : rest.lba_count ≡ 0 = ground arith in
        rw (empty, none_left) (s, refl, sym (append-nil (moved D s.history)))
    | inr more ↦
        rw more
          (transfer-small fuel rest.payload rest.lba rest.lba_count s accepts fits (omega arith))
  ]

  tail-finish :
      (fuel : ℕ) (rest : Rest) (s : Sio)
      → Accepts D
      → rest.lba + rest.lba_count + super_sector_num < 2 ^ 64
      → rest.lba_count < super_sector_num
      → rest.lba % super_sector_num ≡ 0
      → Moves D s (spread dir raid rest.payload rest.lba rest.lba_count) (
          ((if rest.lba_count == 0
                then return 0
                else sio_transfer D (suc fuel) dir raid rest.payload rest.lba rest.lba_count)
              >> (check_completions D (active raid) >> return 0))
            s)
  tail-finish fuel rest s accepts fits small aligned =
      let tail : Io ℕ =
        (if rest.lba_count == 0
          then return 0
          else sio_transfer D (suc fuel) dir raid rest.payload rest.lba rest.lba_count) in
      Moves-trans D tail (λ _. check_completions D (active raid) >> return 0) s
        (spread dir raid rest.payload rest.lba rest.lba_count) []
        (spread dir raid rest.payload rest.lba rest.lba_count) (append-nil _)
        (tail-Moves fuel rest s accepts fits small aligned) (finish D raid)

  -- A transfer that begins at a super sector.
  transfer-aligned :
      (fuel payload lba n : ℕ) (s : Sio)
      → Accepts D
      → lba + n + super_sector_num < 2 ^ 64
      → lba % super_sector_num ≡ 0
      → Moves D s
          (spread dir raid payload lba n)
          (sio_transfer D (suc (suc fuel)) dir raid payload lba n s)
  transfer-aligned fuel payload lba n s accepts fits aligned =
      elim (Bool-cases (leb n (room lba))) [
        | inl small ↦ transfer-small (suc fuel) payload lba n s accepts fits (ground arith)
        | inr large ↦
            let (rest, s1, looped, ok, small, start, ends, m1) =
              super_sectors-Looped D dir raid some (suc n) 0 payload lba n s
                (λ c h e. accepts (submit c ∷ h)) (omega arith) aligned fits in
            let test : (lba % super_sector_num == 0) ≡ true = ground arith in
            let (s2, e2, m2) = tail-finish fuel rest s1 accepts (omega arith) small start in
            (
              s2,
              transfer-loop D dir raid some (suc fuel) payload lba n s s1 rest large test looped ok
                  ∙ e2,
              m2 ∙ m1,
            )
      ]

  -- The branch that goes to the next super sector first.
  transfer-ragged :
      (fuel payload lba n : ℕ) (s : Sio)
      → leb n (room lba) ≡ false
      → (lba % super_sector_num == 0) ≡ false
      → sio_transfer D (suc fuel) dir raid payload lba n s
        ≡ (sio_transfer D fuel dir raid payload lba (room lba) >>= λ rc. check rc (
              sio_transfer D fuel dir raid
                (payload + room lba * sector_length)
                (add_u64 lba (room lba))
                (n - room lba)
              >>= λ rc'. check rc' (check_completions D (active raid) >> return 0)))
            s
  unfolding sio_transfer
  transfer-ragged fuel payload lba n s large ragged = rw (sio_transfer, large, ragged)

  transfer-second :
      (payload lba n : ℕ) (s : Sio)
      → Accepts D
      → lba + n + super_sector_num < 2 ^ 64
      → lba % super_sector_num ≡ 0
      → Moves D s (spread dir raid payload lba n) (
          (sio_transfer D 2 dir raid payload lba n >>= λ rc'.
          check rc' (check_completions D (active raid) >> return 0))
            s)
  transfer-second payload lba n s accepts fits aligned =
      let m : Io ℕ = sio_transfer D 2 dir raid payload lba n in
      Moves-trans D m (λ rc'. check rc' (check_completions D (active raid) >> return 0)) s
        (spread dir raid payload lba n) [] (spread dir raid payload lba n) (append-nil _)
        (transfer-aligned 0 payload lba n s accepts fits aligned) (finish D raid)

  transfer-Moves :
      (payload lba n : ℕ) (s : Sio)
      → Accepts D
      → lba + n + super_sector_num < 2 ^ 64
      → Moves D s (spread dir raid payload lba n) (sio_transfer D 3 dir raid payload lba n s)
  transfer-Moves payload lba n s accepts fits = elim (Bool-cases (lba % super_sector_num == 0)) [
    | inl aligned ↦ transfer-aligned 1 payload lba n s accepts fits (ground arith)
    | inr ragged ↦ elim (Bool-cases (leb n (room lba))) [
      | inl small ↦ transfer-small 2 payload lba n s accepts fits (ground arith)
      | inr large ↦
          let le : room lba ≤ n = ground arith in
          let lba' : ℕ = add_u64 lba (room lba) in
          let next : lba' ≡ lba + room lba = omega arith in
          let payload' : ℕ = payload + room lba * sector_length in
          let first : Io ℕ = sio_transfer D 2 dir raid payload lba (room lba) in
          let second : Io ℕ = sio_transfer D 2 dir raid payload' lba' (n - room lba) >>= λ rc'.
          check rc' (check_completions D (active raid) >> return 0) in
          rw (transfer-ragged 2 payload lba n s large ragged) (
            Moves-trans D first (λ rc. check rc second) s (spread dir raid payload lba (room lba))
              (spread dir raid payload' lba' (n - room lba)) (spread dir raid payload lba n)
              (spread-rest dir raid payload lba lba' (room lba) n []
                (spread dir raid payload lba (room lba)) le next refl)
              (transfer-small 1 payload lba (room lba) s accepts (omega arith) (omega arith))
              (λ s1.
                transfer-second payload' lba' (n - room lba) s1 accepts (omega arith)
                  (omega arith)))
    ]
  ]

-- On a raid with an NVMe and a driver that takes every command, `sio_rread` and `sio_rwrite`
-- return 0 for any transfer that ends a super sector below 2^64, and each has then moved every
-- block of the transfer once, in order, between its place in memory and its place on its NVMe, and
-- nothing else.
pub sio_rread-sio_rwrite-Moves :
    (D : Driver) (raid : NvmeRaid) (payload lba n : ℕ) (s : Sio)
    → Accepts D
    → 0 < raid.numdisks
    → lba + n + super_sector_num < 2 ^ 64
    → Moves D s (spread reads raid payload lba n) (sio_rread D raid payload lba n s)
      × Moves D s (spread writes raid payload lba n) (sio_rwrite D raid payload lba n s)
unfolding sio_rread sio_rwrite
sio_rread-sio_rwrite-Moves D raid payload lba n s accepts some fits = (
  transfer-Moves D reads raid some payload lba n s accepts fits,
  transfer-Moves D writes raid some payload lba n s accepts fits,
)
