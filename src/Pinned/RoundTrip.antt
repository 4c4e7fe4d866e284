-- ===== src/Pinned/RoundTrip.antt =====
-- Transfers across the raid through a pinned buffer: what they return, what they do to the bytes, and
-- what a write followed by a read gives.
use nvme_dpdk_pcapreplay.Prelude.{
  ℕ, suc, ◌+◌, ◌-◌, ◌*◌, ◌^◌, ◌<◌, ◌≡◌, inl, inr, refl, sym, ◌∙◌, some, List, ◌∷◌, ◌==◌, done,
  arith, Bool-cases,
}
use mathlib.Core.Path.{subst}
use nvme_dpdk_pcapreplay.Layout.{NvmeRaid, sector_length, super_sector_num}
use nvme_dpdk_pcapreplay.Driver.{Call, malloc, copy, Driver, Sio, ◌>>=◌, ◌>>◌, add_call}
use nvme_dpdk_pcapreplay.Simpleio.{pin_memory}
use nvme_dpdk_pcapreplay.Transfer.{giga_sector_length}
use nvme_dpdk_pcapreplay.Transfer.Blocks.{moved}
use nvme_dpdk_pcapreplay.Transfer.Steps.{Accepts}
use nvme_dpdk_pcapreplay.Transfer.Tasks.{Counted, Reports}
use nvme_dpdk_pcapreplay.Store.{Store}
use nvme_dpdk_pcapreplay.Store.Places.{Distinct}
use nvme_dpdk_pcapreplay.Store.RoundTrip.{after}
use nvme_dpdk_pcapreplay.Pinned.{sio_rread_pinit, sio_rwrite_pinit}
use nvme_dpdk_pcapreplay.Pinned.Chunk.{Disjoint, Wrote, Read, Wrote-join, Read-join}
use nvme_dpdk_pcapreplay.Pinned.Parts.{malloc-Counted, part-Wrote, part-Read}
use nvme_dpdk_pcapreplay.Pinned.Loops.{giga_reads-Read, giga_writes-Wrote}

-- Every buffer that the driver gives is clear of this piece of memory.
abbrev pub Spares : Driver → ℕ → ℕ → Type 0
Spares D payload size =
    (n : ℕ) (h : List Call)
    → (at : ℕ) × (D.malloc_at (malloc n ∷ h) ≡ some at) × Disjoint payload size at n

module _ (D : Driver) (raid : NvmeRaid) (payload lba n buffer : ℕ) (s : Sio) (st : Store)
    (accepts : Accepts D) (some_disk : 0 < raid.numdisks) (distinct : Distinct raid)
    (reports : Reports D raid) (c : Counted D s)
    (pinned : D.malloc_at (malloc (giga_sector_length raid) ∷ s.history) ≡ some buffer)
    (apart : Disjoint payload (n * sector_length) buffer (giga_sector_length raid))
    (fits : lba + n + super_sector_num < 2 ^ 64) where
  -- With a driver that takes every command, carries it out at once and reports every task, on a raid
  -- with an NVMe, whose NVMes have different handles, with right counters, and with a pinned buffer
  -- that is clear of the payload: `sio_rwrite_pinit` returns 0 for any transfer that ends a super
  -- sector below 2^64, the blocks of the transfer then hold the bytes of the payload, every other
  -- block of the raid and the memory out of the buffer are as they were, and the counters are right.
  pub sio_rwrite_pinit-Wrote :
      (s' : Sio) × (sio_rwrite_pinit D raid payload lba n s ≡ done (0, s'))
      × Counted D s'
      × Wrote raid buffer (giga_sector_length raid) payload lba n (after D s st) (after D s' st)
  unfolding sio_rwrite_pinit pin_memory moved
  sio_rwrite_pinit-Wrote =
      let s0 : Sio = add_call (malloc (giga_sector_length raid)) s in
      let (m, s1, e, le, less, c1, w) =
        giga_writes-Wrote D raid st buffer accepts some_disk distinct reports (suc n) payload lba n
          s0 (malloc-Counted D (giga_sector_length raid) s c) (omega arith) fits apart in
      elim (Bool-cases (n - m == 0)) [
        | inl none_left ↦ (
          s1,
          rw (sio_rwrite_pinit, pinned, ◌>>=◌, ◌>>◌, e, none_left) refl,
          c1,
          let all : m ≡ n = ground arith in
              subst
                (λ k.
                  Wrote raid buffer (giga_sector_length raid) payload lba k (after D s st)
                    (after D s1 st))
                all w,
        )
        | inr some_left ↦
            let (s2, s3, wrote, waited, c3, w') =
              part-Wrote D raid st buffer accepts some_disk distinct reports
                (payload + m * sector_length) (lba + m) (n - m) s1 c1 (omega arith) (omega arith) in
            let all : m + (n - m) ≡ n = omega arith in
            (
              s3,
              rw (sio_rwrite_pinit, pinned, ◌>>=◌, ◌>>◌, e, some_left, wrote, waited) refl,
              c3,
              subst
                  (λ k.
                    Wrote raid buffer (giga_sector_length raid) payload lba k (after D s st)
                      (after D s3 st))
                  all
                  (Wrote-join raid buffer (giga_sector_length raid) payload lba m (n - m)
                    (after D s st) (after D s1 st) (after D s3 st)
                    (subst
                      (λ k. Disjoint payload (k * sector_length) buffer (giga_sector_length raid))
                      (sym all) apart)
                    (omega arith) w w'),
            )
      ]

  -- With a driver that takes every command, carries it out at once and reports every task, on a raid
  -- with an NVMe, whose NVMes have different handles, with right counters, and with a pinned buffer
  -- that is clear of the payload: `sio_rread_pinit` returns 0 for any transfer that ends a super
  -- sector below 2^64, the payload then holds the bytes of the blocks of the transfer, the other
  -- memory out of the buffer and the NVMes are as they were, and the counters are right.
  pub sio_rread_pinit-Read :
      (s' : Sio) × (sio_rread_pinit D raid payload lba n s ≡ done (0, s'))
      × Counted D s'
      × Read raid buffer (giga_sector_length raid) payload lba n (after D s st) (after D s' st)
  unfolding sio_rread_pinit pin_memory moved
  sio_rread_pinit-Read =
      let s0 : Sio = add_call (malloc (giga_sector_length raid)) s in
      let (m, s1, e, le, less, c1, w) =
        giga_reads-Read D raid st buffer accepts some_disk distinct reports (suc n) payload lba n s0
          (malloc-Counted D (giga_sector_length raid) s c) (omega arith) fits apart in
      elim (Bool-cases (n - m == 0)) [
        | inl none_left ↦ (
          s1,
          rw (sio_rread_pinit, pinned, ◌>>=◌, ◌>>◌, e, none_left) refl,
          c1,
          let all : m ≡ n = ground arith in
              subst
                (λ k.
                  Read raid buffer (giga_sector_length raid) payload lba k (after D s st)
                    (after D s1 st))
                all w,
        )
        | inr some_left ↦
            let (s2, s3, read, waited, c3, w') =
              part-Read D raid st buffer accepts some_disk distinct reports
                (payload + m * sector_length) (lba + m) (n - m) s1 c1 (omega arith) (omega arith) in
            let s4 : Sio =
              add_call (copy ((n - m) * sector_length) (payload + m * sector_length) buffer) s3 in
            let all : m + (n - m) ≡ n = omega arith in
            (
              s4,
              rw (sio_rread_pinit, pinned, ◌>>=◌, ◌>>◌, e, some_left, read, waited) refl,
              c3,
              subst
                  (λ k.
                    Read raid buffer (giga_sector_length raid) payload lba k (after D s st)
                      (after D s4 st))
                  all
                  (Read-join raid buffer (giga_sector_length raid) payload lba m (n - m)
                    (after D s st) (after D s1 st) (after D s4 st)
                    (subst
                      (λ k. Disjoint payload (k * sector_length) buffer (giga_sector_length raid))
                      (sym all) apart)
                    w w'),
            )
      ]

-- With a driver that takes every command, carries it out at once, reports every task and pins no
-- memory of the two payloads, on a raid with an NVMe, whose NVMes have different handles, and with
-- right counters: what `sio_rwrite_pinit` has written from one payload, `sio_rread_pinit` reads back
-- to another, byte for byte, and both return 0, for any transfer that ends a super sector below 2^64.
pub sio_rread_pinit-sio_rwrite_pinit :
    (D : Driver) (raid : NvmeRaid) (payload payload' lba n : ℕ) (s : Sio) (st : Store) (j o : ℕ)
    → Accepts D
    → 0 < raid.numdisks
    → Distinct raid
    → Reports D raid
    → Counted D s
    → Spares D payload (n * sector_length)
    → Spares D payload' (n * sector_length)
    → lba + n + super_sector_num < 2 ^ 64
    → j < n
    → o < sector_length
    → (s1 : Sio) × (s2 : Sio) × (sio_rwrite_pinit D raid payload lba n s ≡ done (0, s1))
      × (sio_rread_pinit D raid payload' lba n s1 ≡ done (0, s2))
      × ((after D s2 st).memory (payload' + j * sector_length + o)
          ≡ (after D s st).memory (payload + j * sector_length + o))
sio_rread_pinit-sio_rwrite_pinit D raid payload payload' lba n s st j o accepts some_disk distinct
      reports c spares spares' fits lt in_block =
    let (buffer, pinned, apart) = spares (giga_sector_length raid) s.history in
    let (s1, wrote, c1, w) =
      sio_rwrite_pinit-Wrote D raid payload lba n buffer s st accepts some_disk distinct reports c
        pinned apart fits in
    let (buffer', pinned', apart') = spares' (giga_sector_length raid) s1.history in
    let (s2, read, c2, r) =
      sio_rread_pinit-Read D raid payload' lba n buffer' s1 st accepts some_disk distinct reports c1
        pinned' apart' fits in
    (s1, s2, wrote, read, r.there j o lt in_block ∙ w.there j o lt in_block)
