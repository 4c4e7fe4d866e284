-- ===== src/Pinned/Parts.antt =====
-- src/simpleio.c, `sio_rread_pinit` and `sio_rwrite_pinit`: one part of such a transfer, which goes
-- through the buffer and ends with a wait for its tasks.
use nvme_dpdk_pcapreplay.Prelude.{
  ℕ, zero, suc, ◌+◌, ◌*◌, ◌^◌, ◌≤◌, ◌<◌, ◌≡◌, refl, sym, ap, ◌∙◌, List, [], ◌∷◌, done,
}
use mathlib.Core.Path.{subst}
use nvme_dpdk_pcapreplay.Layout.{NvmeRaid, Idisk, active, sector_length, super_sector_num}
use nvme_dpdk_pcapreplay.Driver.{Call, malloc, copy, process, reads, writes, Driver, Sio, add_call}
use nvme_dpdk_pcapreplay.Transfer.{giga_sector_length, sio_rread, sio_rwrite, sio_waittasks}
use nvme_dpdk_pcapreplay.Transfer.Blocks.{Move, copies, moved, spread}
use nvme_dpdk_pcapreplay.Transfer.Steps.{Accepts}
use nvme_dpdk_pcapreplay.Transfer.Tasks.{
  accepted, reported, round, rounds, Counted, Reports, sio_waittasks-returns,
}
use nvme_dpdk_pcapreplay.Transfer.Counted.{sio_transfer-KeepsCounted}
use nvme_dpdk_pcapreplay.Transfer.Coverage.{sio_rread-sio_rwrite-Moves}
use nvme_dpdk_pcapreplay.Store.{Store, step, run}
use nvme_dpdk_pcapreplay.Store.Places.{Distinct, run-append}
use nvme_dpdk_pcapreplay.Store.RoundTrip.{after}
use nvme_dpdk_pcapreplay.Pinned.Chunk.{Wrote, Read, chunk-Wrote, chunk-Read}

moved-round : (D : Driver) (ds : List Idisk) (h : List Call) → moved D (round ds h) ≡ moved D h
unfolding moved
moved-round D [] h = refl
moved-round D (d ∷ ds) h = moved-round D ds (process d.qpair ∷ h)

moved-rounds :
    (D : Driver) (ds : List Idisk) (k : ℕ) (h : List Call) → moved D (rounds ds k h) ≡ moved D h
moved-rounds D ds zero h = refl
moved-rounds D ds (suc k) h = moved-rounds D ds k (round ds h) ∙ moved-round D ds h

module _ (D : Driver) where
  copy-Counted : (n to from : ℕ) (s : Sio) → Counted D s → Counted D (add_call (copy n to from) s)
  unfolding accepted reported
  copy-Counted n to from s c = record { scheduled = c.scheduled; completed = c.completed }

  pub malloc-Counted : (n : ℕ) (s : Sio) → Counted D s → Counted D (add_call (malloc n) s)
  unfolding accepted reported
  malloc-Counted n s c = record { scheduled = c.scheduled; completed = c.completed }

  after-copy :
      (n to from : ℕ) (s : Sio) (st : Store)
      → after D (add_call (copy n to from) s) st ≡ step (copies n to from) (after D s st)
  unfolding moved run
  after-copy n to from s st = run-append (moved D s.history) (copies n to from ∷ []) st

  pub after-malloc :
      (n : ℕ) (s : Sio) (st : Store) → after D (add_call (malloc n) s) st ≡ after D s st
  unfolding moved
  after-malloc n s st = refl

  -- A wait for the tasks moves nothing.
  wait :
      (raid : NvmeRaid) (s : Sio) (st : Store)
      → Reports D raid
      → Counted D s
      → (s' : Sio) × (sio_waittasks D raid s ≡ done (tt, s'))
        × Counted D s'
        × (after D s' st ≡ after D s st)
  wait raid s st reports c =
      let (s', m, e, h, c', all) = sio_waittasks-returns D raid s reports c in
      (
        s',
        e,
        c',
        ap (λ k. run (moved D k) st) h
            ∙ ap (λ ms. run ms st) (moved-rounds D (active raid) m s.history),
      )

  module _ (raid : NvmeRaid) (st : Store) (buffer : ℕ) (accepts : Accepts D)
      (some_disk : 0 < raid.numdisks) (distinct : Distinct raid) (reports : Reports D raid) where
    -- One part of a write.
    pub part-Wrote :
        (payload lba n : ℕ) (s : Sio)
        → Counted D s
        → lba + n + super_sector_num < 2 ^ 64
        → n * sector_length ≤ giga_sector_length raid
        → (s1 : Sio) × (s2 : Sio) × (sio_rwrite D raid buffer lba n
              (add_call (copy (n * sector_length) buffer payload) s)
            ≡ done (0, s1))
          × (sio_waittasks D raid s1 ≡ done (tt, s2))
          × Counted D s2
          × Wrote raid buffer (giga_sector_length raid) payload lba n (after D s st) (after D s2 st)
    unfolding sio_rwrite
    part-Wrote payload lba n s c fits small =
        let s0 : Sio = add_call (copy (n * sector_length) buffer payload) s in
        let (s1, wrote, h1) =
          (sio_rread-sio_rwrite-Moves D raid buffer lba n s0 accepts some_disk fits).1 in
        let c1 : Counted D s1 =
          sio_transfer-KeepsCounted D 3 writes raid buffer lba n s0 0 s1 wrote
            (copy-Counted (n * sector_length) buffer payload s c) in
        let (s2, waited, c2, same) = wait raid s1 st reports c1 in
        let ws : List Move = spread writes raid buffer lba n in
        let whole : after D s2 st
            ≡ run ws (step (copies (n * sector_length) buffer payload) (after D s st)) =
          same
          ∙ ap (λ ms. run ms st) h1
          ∙ run-append (moved D s0.history) ws st
          ∙ ap (run ws) (after-copy (n * sector_length) buffer payload s st) in
        (
          s1,
          s2,
          wrote,
          waited,
          c2,
          subst (Wrote raid buffer (giga_sector_length raid) payload lba n (after D s st))
              (sym whole)
              (chunk-Wrote raid buffer (giga_sector_length raid) payload lba n (after D s st)
                some_disk distinct fits small),
        )

    -- One part of a read.
    pub part-Read :
        (payload lba n : ℕ) (s : Sio)
        → Counted D s
        → lba + n + super_sector_num < 2 ^ 64
        → n * sector_length ≤ giga_sector_length raid
        → (s1 : Sio) × (s2 : Sio) × (sio_rread D raid buffer lba n s ≡ done (0, s1))
          × (sio_waittasks D raid s1 ≡ done (tt, s2))
          × Counted D (add_call (copy (n * sector_length) payload buffer) s2)
          × Read raid buffer
              (giga_sector_length raid)
              payload
              lba
              n
              (after D s st)
              (after D (add_call (copy (n * sector_length) payload buffer) s2) st)
    unfolding sio_rread
    part-Read payload lba n s c fits small =
        let (s1, read, h1) =
          (sio_rread-sio_rwrite-Moves D raid buffer lba n s accepts some_disk fits).0 in
        let c1 : Counted D s1 =
          sio_transfer-KeepsCounted D 3 reads raid buffer lba n s 0 s1 read c in
        let (s2, waited, c2, same) = wait raid s1 st reports c1 in
        let rs : List Move = spread reads raid buffer lba n in
        let m : Move = copies (n * sector_length) payload buffer in
        let whole : after D (add_call (copy (n * sector_length) payload buffer) s2) st
            ≡ step m (run rs (after D s st)) =
          after-copy (n * sector_length) payload buffer s2 st
          ∙ ap (step m) (same ∙ ap (λ ms. run ms st) h1 ∙ run-append (moved D s.history) rs st) in
        (
          s1,
          s2,
          read,
          waited,
          copy-Counted (n * sector_length) payload buffer s2 c2,
          subst (Read raid buffer (giga_sector_length raid) payload lba n (after D s st))
              (sym whole)
              (chunk-Read raid buffer (giga_sector_length raid) payload lba n (after D s st) small),
        )
