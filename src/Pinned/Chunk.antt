-- ===== src/Pinned/Chunk.antt =====
-- What a transfer through a buffer does to the bytes: one part of it, and one part after another.
use nvme_dpdk_pcapreplay.Prelude.{
  ℕ, ◌+◌, ◌-◌, ◌*◌, ◌^◌, ◌≤◌, ◌<◌, ◌≡◌, ◌⊎◌, inl, inr, refl, ap, ◌∙◌, ltb, arith, Bool-cases,
}
use nvme_dpdk_pcapreplay.Layout.{NvmeRaid, sector_length, super_sector_num}
use nvme_dpdk_pcapreplay.Driver.{reads, writes}
use nvme_dpdk_pcapreplay.Transfer.Blocks.{copies, spread}
use nvme_dpdk_pcapreplay.Store.{Store, fill, step, run, on_raid}
use nvme_dpdk_pcapreplay.Store.Places.{
  Distinct, fill-inside, memory-writes, on_raid-writes, on_raid-writes_other, disk-reads,
  memory-reads, memory-reads_other,
}

-- Two pieces of memory that do not meet, of so many bytes each.
abbrev pub Disjoint : ℕ → ℕ → ℕ → ℕ → Type 0
Disjoint a n b m = (a + n ≤ b) ⊎ (b + m ≤ a)

-- The blocks of the raid from `lba` on hold the bytes from `payload` on; other blocks, and memory
-- out of the buffer, are as they were.
pub record Wrote (raid : NvmeRaid) (buffer size payload lba n : ℕ) (st st' : Store) : Type 0 where
  pub there :
      (j o : ℕ)
      → j < n
      → o < sector_length
      → on_raid raid st' (lba + j) o ≡ st.memory (payload + j * sector_length + o)
  pub others :
      (a o : ℕ)
      → a + super_sector_num < 2 ^ 64
      → (a < lba) ⊎ (lba + n ≤ a)
      → on_raid raid st' a o ≡ on_raid raid st a o
  pub outside : (a : ℕ) → (a < buffer) ⊎ (buffer + size ≤ a) → st'.memory a ≡ st.memory a

-- The memory from `payload` on holds the bytes of the blocks of the raid; other memory, out of the
-- buffer, and the NVMes are as they were.
pub record Read (raid : NvmeRaid) (buffer size payload lba n : ℕ) (st st' : Store) : Type 0 where
  pub there :
      (j o : ℕ)
      → j < n
      → o < sector_length
      → st'.memory (payload + j * sector_length + o) ≡ on_raid raid st (lba + j) o
  pub others :
      (a : ℕ)
      → (a < buffer) ⊎ (buffer + size ≤ a)
      → (a < payload) ⊎ (payload + n * sector_length ≤ a)
      → st'.memory a ≡ st.memory a
  pub disks : st'.disk ≡ st.disk

-- A byte of a piece of memory is not in another that does not meet it.
place_out :
    (payload buffer size n j o : ℕ)
    → Disjoint payload (n * sector_length) buffer size
    → j < n
    → o < sector_length
    → (payload + j * sector_length + o < buffer) ⊎ (buffer + size ≤ payload + j * sector_length + o)
place_out payload buffer size n j o (inl below) lt in_block = inl (omega arith)
place_out payload buffer size n j o (inr above) lt in_block = inr (omega arith)

fill-outside :
    (mem : ℕ → ℕ) (to n : ℕ) (source : ℕ → ℕ) (a : ℕ)
    → (a < to) ⊎ (to + n ≤ a)
    → fill mem to n source a ≡ mem a
fill-outside mem to n source a out = ground arith

module _ (raid : NvmeRaid) (buffer size : ℕ) where
  -- One part: a copy to the buffer, and writes from it.
  pub chunk-Wrote :
      (payload lba n : ℕ) (st : Store)
      → 0 < raid.numdisks
      → Distinct raid
      → lba + n + super_sector_num < 2 ^ 64
      → n * sector_length ≤ size
      → Wrote raid buffer size payload lba n st (
          run
            (spread writes raid buffer lba n)
            (step (copies (n * sector_length) buffer payload) st))
  unfolding step
  chunk-Wrote payload lba n st some distinct fits small =
      let st1 : Store = step (copies (n * sector_length) buffer payload) st in
      record {
        there = λ j o lt in_block.
            (let k : ℕ = j * sector_length + o in
              let at : buffer + j * sector_length + o ≡ buffer + k = omega arith in
              let from : payload + k ≡ payload + j * sector_length + o = omega arith in
              on_raid-writes raid some distinct st1 buffer lba n j o fits lt
              ∙ ap st1.memory at
              ∙ fill-inside st.memory buffer (n * sector_length) (λ i. st.memory (payload + i)) k
                  (omega arith)
              ∙ ap st.memory from);
        others = λ a o room out.
            on_raid-writes_other raid some distinct st1 buffer lba n a o fits room out;
        outside = λ a out.
            memory-writes raid some distinct st1 buffer lba n a
            ∙ fill-outside st.memory buffer (n * sector_length) (λ i. st.memory (payload + i)) a
                (ground arith);
      }

  -- One part: reads into the buffer, and a copy from it.
  pub chunk-Read :
      (payload lba n : ℕ) (st : Store)
      → n * sector_length ≤ size
      → Read raid buffer size payload lba n st (
          step
            (copies (n * sector_length) payload buffer)
            (run (spread reads raid buffer lba n) st))
  unfolding step
  chunk-Read payload lba n st small =
      let st1 : Store = run (spread reads raid buffer lba n) st in
      record {
        there = λ j o lt in_block.
            (let k : ℕ = j * sector_length + o in
              let at : payload + j * sector_length + o ≡ payload + k = omega arith in
              let from : buffer + k ≡ buffer + j * sector_length + o = omega arith in
              ap (fill st1.memory payload (n * sector_length) (λ i. st1.memory (buffer + i))) at
              ∙ fill-inside st1.memory payload (n * sector_length) (λ i. st1.memory (buffer + i)) k
                  (omega arith)
              ∙ ap st1.memory from
              ∙ memory-reads raid st buffer lba n j o lt in_block);
        others = λ a out out'.
            fill-outside st1.memory payload (n * sector_length) (λ i. st1.memory (buffer + i)) a
              out'
            ∙ memory-reads_other raid st buffer lba n a (ground arith);
        disks = disk-reads raid st buffer lba n;
      }

  -- No blocks at all.
  pub Wrote-none : (payload lba : ℕ) (st : Store) → Wrote raid buffer size payload lba 0 st st
  Wrote-none payload lba st = record {
    there = λ j o lt in_block. absurd (omega arith);
    others = λ a o room out. refl;
    outside = λ a out. refl;
  }

  pub Read-none : (payload lba : ℕ) (st : Store) → Read raid buffer size payload lba 0 st st
  Read-none payload lba st = record {
    there = λ j o lt in_block. absurd (omega arith);
    others = λ a out out'. refl;
    disks = refl;
  }

  -- One part after another.
  pub Wrote-join :
      (payload lba m n : ℕ) (st st1 st2 : Store)
      → Disjoint payload ((m + n) * sector_length) buffer size
      → lba + m + n + super_sector_num < 2 ^ 64
      → Wrote raid buffer size payload lba m st st1
      → Wrote raid buffer size (payload + m * sector_length) (lba + m) n st1 st2
      → Wrote raid buffer size payload lba (m + n) st st2
  Wrote-join payload lba m n st st1 st2 apart fits p q = record {
    there = λ j o lt in_block. elim (Bool-cases (ltb j m)) [
      | inl early ↦
          q.others (lba + j) o (ground arith) (inl (ground arith))
          ∙ p.there j o (ground arith) in_block
      | inr late ↦
          let le : m ≤ j = ground arith in
          let here : lba + j ≡ lba + m + (j - m) = omega arith in
          let from : payload + m * sector_length + (j - m) * sector_length + o
              ≡ payload + j * sector_length + o =
            omega arith in
          ap (λ a. on_raid raid st2 a o) here
          ∙ q.there (j - m) o (omega arith) in_block
          ∙ ap st1.memory from
          ∙ p.outside (payload + j * sector_length + o)
              (place_out payload buffer size (m + n) j o apart lt in_block)
    ];
    others = λ a o room out. q.others a o room (ground arith) ∙ p.others a o room (ground arith);
    outside = λ a out. q.outside a out ∙ p.outside a out;
  }

  pub Read-join :
      (payload lba m n : ℕ) (st st1 st2 : Store)
      → Disjoint payload ((m + n) * sector_length) buffer size
      → Read raid buffer size payload lba m st st1
      → Read raid buffer size (payload + m * sector_length) (lba + m) n st1 st2
      → Read raid buffer size payload lba (m + n) st st2
  Read-join payload lba m n st st1 st2 apart p q = record {
    there = λ j o lt in_block. elim (Bool-cases (ltb j m)) [
      | inl early ↦
          let lt' : j < m = ground arith in
          q.others (payload + j * sector_length + o)
            (place_out payload buffer size (m + n) j o apart (omega arith) in_block)
            (inl (omega arith))
          ∙ p.there j o lt' in_block
      | inr late ↦
          let le : m ≤ j = ground arith in
          let here : lba + m + (j - m) ≡ lba + j = omega arith in
          let from : payload + j * sector_length + o
              ≡ payload + m * sector_length + (j - m) * sector_length + o =
            omega arith in
          ap st2.memory from
          ∙ q.there (j - m) o (omega arith) in_block
          ∙ ap (λ a. on_raid raid st1 a o) here
          ∙ ap (λ (d : ℕ → ℕ → ℕ → ℕ). on_raid raid (record st { disk = d }) (lba + j) o) p.disks
    ];
    others = λ a out out'. q.others a out (ground arith) ∙ p.others a out (ground arith);
    disks = q.disks ∙ p.disks;
  }
