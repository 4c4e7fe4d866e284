-- ===== src/Pinned/Loops.antt =====
-- src/simpleio.c, the loops of `sio_rread_pinit` and `sio_rwrite_pinit`: what they return, and what
-- they do to the bytes.
use nvme_dpdk_pcapreplay.Prelude.{
  ℕ, zero, suc, ◌+◌, ◌-◌, ◌*◌, ◌^◌, ◌≤◌, ◌<◌, ◌≡◌, inl, inr, sym, ap, ◌∙◌, true, leb, done, arith,
  Bool-cases,
}
use mathlib.Core.Path.{ap₂}
use nvme_dpdk_pcapreplay.Layout.{NvmeRaid, sector_length, super_sector_num, add_u64}
use nvme_dpdk_pcapreplay.Driver.{copy, Driver, Sio, ◌>>=◌, ◌>>◌, add_call}
use nvme_dpdk_pcapreplay.Transfer.{
  giga_sector_num, giga_sector_length, Rest, sio_rread, sio_rwrite, sio_waittasks,
}
use nvme_dpdk_pcapreplay.Transfer.Steps.{Accepts}
use nvme_dpdk_pcapreplay.Transfer.Tasks.{Counted, Reports}
use nvme_dpdk_pcapreplay.Store.{Store}
use nvme_dpdk_pcapreplay.Store.Places.{Distinct}
use nvme_dpdk_pcapreplay.Store.RoundTrip.{after}
use nvme_dpdk_pcapreplay.Pinned.{next_giga, giga_reads, giga_writes}
use nvme_dpdk_pcapreplay.Pinned.Chunk.{
  Disjoint, Wrote, Read, Wrote-none, Read-none, Wrote-join, Read-join,
}
use nvme_dpdk_pcapreplay.Pinned.Parts.{part-Wrote, part-Read}

-- The variables of the loops.
abbrev pub rest_of : ℕ → ℕ → ℕ → Rest
rest_of payload lba n = record { rc = 0; payload = payload; lba = lba; lba_count = n }

-- The memory behind the first part is clear of the buffer too.
pub behind :
    (payload m n buffer size : ℕ)
    → m ≤ n
    → Disjoint payload (n * sector_length) buffer size
    → Disjoint (payload + m * sector_length) ((n - m) * sector_length) buffer size
behind payload m n buffer size le (inl below) = inl (omega arith)
behind payload m n buffer size le (inr above) = inr (omega arith)

ahead :
    (payload m n buffer size : ℕ)
    → m ≤ n
    → Disjoint payload (n * sector_length) buffer size
    → Disjoint payload (m * sector_length) buffer size
ahead payload m n buffer size le (inl below) = inl (omega arith)
ahead payload m n buffer size le (inr above) = inr (omega arith)

rest_of_add :
    (payload lba n g m : ℕ)
    → rest_of (payload + g * sector_length + m * sector_length) (lba + g + m) (n - g - m)
      ≡ rest_of (payload + (g + m) * sector_length) (lba + (g + m)) (n - (g + m))
rest_of_add payload lba n g m =
    let from : payload + g * sector_length + m * sector_length ≡ payload + (g + m) * sector_length =
      omega arith in
    let at : lba + g + m ≡ lba + (g + m) = omega arith in
    let left : n - g - m ≡ n - (g + m) = omega arith in rw (from, at, left)

next_giga-rest_of :
    (raid : NvmeRaid) (payload lba n : ℕ)
    → lba + giga_sector_num raid < 2 ^ 64
    → next_giga raid (rest_of payload lba n)
      ≡ rest_of
          (payload + giga_sector_num raid * sector_length)
          (lba + giga_sector_num raid)
          (n - giga_sector_num raid)
next_giga-rest_of raid payload lba n fits =
    let from : payload + giga_sector_length raid ≡ payload + giga_sector_num raid * sector_length =
      omega arith in
    let at : add_u64 lba (giga_sector_num raid) ≡ lba + giga_sector_num raid = omega arith in
    ap₂ (λ p l. rest_of p l (n - giga_sector_num raid)) from at

copied :
    (raid : NvmeRaid) (to from : ℕ) (s : Sio)
    → add_call (copy (giga_sector_num raid * sector_length) to from) s
      ≡ add_call (copy (giga_sector_length raid) to from) s
copied raid to from s =
    let size : giga_sector_num raid * sector_length ≡ giga_sector_length raid = omega arith in
    ap (λ k. add_call (copy k to from) s) size

-- One round of the loops.
giga_writes-round :
    (D : Driver) (fuel : ℕ) (raid : NvmeRaid) (buffer payload lba n : ℕ) (s s1 s2 : Sio)
    → leb (giga_sector_num raid) n ≡ true
    → lba + giga_sector_num raid < 2 ^ 64
    → sio_rwrite D raid buffer lba
        (giga_sector_num raid)
        (add_call (copy (giga_sector_num raid * sector_length) buffer payload) s)
      ≡ done (0, s1)
    → sio_waittasks D raid s1 ≡ done (tt, s2)
    → giga_writes D (suc fuel) raid buffer (rest_of payload lba n) s
      ≡ giga_writes D fuel raid buffer
          (rest_of
            (payload + giga_sector_num raid * sector_length)
            (lba + giga_sector_num raid)
            (n - giga_sector_num raid))
          s2
unfolding giga_writes
giga_writes-round D fuel raid buffer payload lba n s s1 s2 more fits wrote waited =
    let wrote' : sio_rwrite D raid buffer lba (giga_sector_num raid)
          (add_call (copy (giga_sector_length raid) buffer payload) s)
        ≡ done (0, s1) =
      ap (sio_rwrite D raid buffer lba (giga_sector_num raid)) (sym (copied raid buffer payload s))
      ∙ wrote in
    rw (giga_writes, more, ◌>>=◌, ◌>>◌, wrote', waited)
      (ap (λ v. giga_writes D fuel raid buffer v s2) (next_giga-rest_of raid payload lba n fits))

giga_reads-round :
    (D : Driver) (fuel : ℕ) (raid : NvmeRaid) (buffer payload lba n : ℕ) (s s1 s2 : Sio)
    → leb (giga_sector_num raid) n ≡ true
    → lba + giga_sector_num raid < 2 ^ 64
    → sio_rread D raid buffer lba (giga_sector_num raid) s ≡ done (0, s1)
    → sio_waittasks D raid s1 ≡ done (tt, s2)
    → giga_reads D (suc fuel) raid buffer (rest_of payload lba n) s
      ≡ giga_reads D fuel raid buffer
          (rest_of
            (payload + giga_sector_num raid * sector_length)
            (lba + giga_sector_num raid)
            (n - giga_sector_num raid))
          (add_call (copy (giga_sector_num raid * sector_length) payload buffer) s2)
unfolding giga_reads
giga_reads-round D fuel raid buffer payload lba n s s1 s2 more fits read waited =
    rw (giga_reads, more, ◌>>=◌, ◌>>◌, read, waited)
      (ap₂ (giga_reads D fuel raid buffer) (next_giga-rest_of raid payload lba n fits)
        (sym (copied raid payload buffer s2)))

module _ (D : Driver) (raid : NvmeRaid) (st : Store) (buffer : ℕ) (accepts : Accepts D)
    (some_disk : 0 < raid.numdisks) (distinct : Distinct raid) (reports : Reports D raid) where
  -- The loop of a write: it leaves less than one part.
  pub giga_writes-Wrote :
      (fuel payload lba n : ℕ) (s : Sio)
      → Counted D s
      → n < fuel
      → lba + n + super_sector_num < 2 ^ 64
      → Disjoint payload (n * sector_length) buffer (giga_sector_length raid)
      → (m : ℕ) × (s' : Sio) × (giga_writes D fuel raid buffer (rest_of payload lba n) s
          ≡ done (rest_of (payload + m * sector_length) (lba + m) (n - m), s'))
        × (m ≤ n)
        × (n - m < giga_sector_num raid)
        × Counted D s'
        × Wrote raid buffer (giga_sector_length raid) payload lba m (after D s st) (after D s' st)
  unfolding giga_writes
  giga_writes-Wrote zero payload lba n s c enough fits apart = absurd (omega arith)
  giga_writes-Wrote (suc fuel) payload lba n s c enough fits apart =
      elim (Bool-cases (leb (giga_sector_num raid) n)) [
        | inr less ↦
            let here : payload + 0 * sector_length ≡ payload = omega arith in
            let first : lba + 0 ≡ lba = omega arith in
            let all : n - 0 ≡ n = omega arith in
            (
              0,
              s,
              rw (giga_writes, less, here, first, all),
              omega arith,
              ground arith,
              c,
              Wrote-none raid buffer (giga_sector_length raid) payload lba (after D s st),
            )
        | inl more ↦
            let g : ℕ = giga_sector_num raid in
            let le : g ≤ n = ground arith in
            let (s1, s2, wrote, waited, c2, w) =
              part-Wrote D raid st buffer accepts some_disk distinct reports payload lba g s c
                (omega arith) (omega arith) in
            let (m, s3, e, le', less, c3, w') =
              giga_writes-Wrote fuel (payload + g * sector_length) (lba + g) (n - g) s2 c2
                (omega arith) (omega arith)
                (behind payload g n buffer (giga_sector_length raid) le apart) in
            (
              g + m,
              s3,
              giga_writes-round D fuel raid buffer payload lba n s s1 s2 more (omega arith) wrote
                    waited
                  ∙ e
                  ∙ ap (λ (v : Rest). done (v, s3)) (rest_of_add payload lba n g m),
              omega arith,
              omega arith,
              c3,
              Wrote-join raid buffer (giga_sector_length raid) payload lba g m (after D s st)
                  (after D s2 st) (after D s3 st)
                  (ahead payload (g + m) n buffer (giga_sector_length raid) (omega arith) apart)
                  (omega arith) w w',
            )
      ]

  -- The loop of a read: it leaves less than one part.
  pub giga_reads-Read :
      (fuel payload lba n : ℕ) (s : Sio)
      → Counted D s
      → n < fuel
      → lba + n + super_sector_num < 2 ^ 64
      → Disjoint payload (n * sector_length) buffer (giga_sector_length raid)
      → (m : ℕ) × (s' : Sio) × (giga_reads D fuel raid buffer (rest_of payload lba n) s
          ≡ done (rest_of (payload + m * sector_length) (lba + m) (n - m), s'))
        × (m ≤ n)
        × (n - m < giga_sector_num raid)
        × Counted D s'
        × Read raid buffer (giga_sector_length raid) payload lba m (after D s st) (after D s' st)
  unfolding giga_reads
  giga_reads-Read zero payload lba n s c enough fits apart = absurd (omega arith)
  giga_reads-Read (suc fuel) payload lba n s c enough fits apart =
      elim (Bool-cases (leb (giga_sector_num raid) n)) [
        | inr less ↦
            let here : payload + 0 * sector_length ≡ payload = omega arith in
            let first : lba + 0 ≡ lba = omega arith in
            let all : n - 0 ≡ n = omega arith in
            (
              0,
              s,
              rw (giga_reads, less, here, first, all),
              omega arith,
              ground arith,
              c,
              Read-none raid buffer (giga_sector_length raid) payload lba (after D s st),
            )
        | inl more ↦
            let g : ℕ = giga_sector_num raid in
            let le : g ≤ n = ground arith in
            let (s1, s2, read, waited, c2, w) =
              part-Read D raid st buffer accepts some_disk distinct reports payload lba g s c
                (omega arith) (omega arith) in
            let s2' : Sio = add_call (copy (g * sector_length) payload buffer) s2 in
            let (m, s3, e, le', less, c3, w') =
              giga_reads-Read fuel (payload + g * sector_length) (lba + g) (n - g) s2' c2
                (omega arith) (omega arith)
                (behind payload g n buffer (giga_sector_length raid) le apart) in
            (
              g + m,
              s3,
              giga_reads-round D fuel raid buffer payload lba n s s1 s2 more (omega arith) read
                    waited
                  ∙ e
                  ∙ ap (λ (v : Rest). done (v, s3)) (rest_of_add payload lba n g m),
              omega arith,
              omega arith,
              c3,
              Read-join raid buffer (giga_sector_length raid) payload lba g m (after D s st)
                  (after D s2' st) (after D s3 st)
                  (ahead payload (g + m) n buffer (giga_sector_length raid) (omega arith) apart) w
                  w',
            )
      ]
