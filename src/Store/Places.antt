-- ===== src/Store/Places.antt =====
-- Different blocks of the raid are different blocks of its NVMes, so that a transfer changes its own
-- blocks alone.
use nvme_dpdk_pcapreplay.Prelude.{
  ℕ, zero, suc, ◌+◌, ◌-◌, ◌*◌, ◌^◌, ◌≤◌, ◌<◌, ◌≡◌, ◌≢◌, ◌⊎◌, inl, inr, refl, sym, ◌∙◌, true, List,
  [], ◌∷◌, ◌++◌, leb, ltb, ◌==◌, ◌&&◌, arith, Bool-cases,
}
use nvme_dpdk_pcapreplay.Layout.{NvmeRaid, sector_length, super_sector_num}
use nvme_dpdk_pcapreplay.Stripe.{super_getdisk, super_getdisklba}
use nvme_dpdk_pcapreplay.Stripe.Laws.{block_at-super_get}
use nvme_dpdk_pcapreplay.Driver.{Direction, reads, writes}
use nvme_dpdk_pcapreplay.Simpleio.{disk_at}
use nvme_dpdk_pcapreplay.Transfer.Blocks.{Move, block, spread}
use nvme_dpdk_pcapreplay.Store.{Store, fill, step, run, on_raid}

-- Each NVMe of the raid has its own handle.
abbrev pub Distinct : NvmeRaid → Type 0
Distinct raid =
    (i j : ℕ)
    → i < raid.numdisks
    → j < raid.numdisks
    → (disk_at raid i).ns ≡ (disk_at raid j).ns
    → i ≡ j

-- One block of the raid at its place.
abbrev pub place : Direction → NvmeRaid → ℕ → ℕ → Move
place dir raid lba payload =
    block dir (disk_at raid (super_getdisk raid lba)).ns (super_getdisklba raid lba) payload

pub run-append : (xs ys : List Move) (st : Store) → run (xs ++ ys) st ≡ run ys (run xs st)
unfolding run
run-append [] ys st = refl
run-append (x ∷ xs) ys st = run-append xs ys (step x st)

module _ (raid : NvmeRaid) (some : 0 < raid.numdisks) (distinct : Distinct raid) where
  -- The place of a block tells the block.
  pub place-injective :
      (a b : ℕ)
      → a + super_sector_num < 2 ^ 64
      → b + super_sector_num < 2 ^ 64
      → (disk_at raid (super_getdisk raid a)).ns ≡ (disk_at raid (super_getdisk raid b)).ns
      → super_getdisklba raid a ≡ super_getdisklba raid b
      → a ≡ b
  place-injective a b room room' ns lba =
      let (in_a, past, back) = block_at-super_get raid a some room in
      let (in_b, past', back') = block_at-super_get raid b some room' in
      let same : super_getdisk raid a ≡ super_getdisk raid b = distinct _ _ in_a in_b ns in
      sym back ∙ (rw (same, lba) back')

  -- A write of one block leaves another.
  other_block :
      (st : Store) (payload lba a o : ℕ)
      → lba + super_sector_num < 2 ^ 64
      → a + super_sector_num < 2 ^ 64
      → a ≢ lba
      → on_raid raid (step (place writes raid lba payload) st) a o ≡ on_raid raid st a o
  unfolding step
  other_block st payload lba a o room room' differs =
      let ns : ℕ = (disk_at raid (super_getdisk raid lba)).ns in
      let ns' : ℕ = (disk_at raid (super_getdisk raid a)).ns in
      elim (Bool-cases (ns' == ns && super_getdisklba raid a == super_getdisklba raid lba)) [
        | inl hit ↦
            absurd (differs (place-injective a lba room' room (ground arith) (ground arith)))
        | inr miss ↦ rw (miss) refl
      ]

  same_block :
      (st : Store) (payload lba o : ℕ)
      → on_raid raid (step (place writes raid lba payload) st) lba o ≡ st.memory (payload + o)
  unfolding step
  same_block st payload lba o = ground arith

  -- Writes leave the memory, and the blocks of the raid that are not theirs.
  pub memory-writes :
      (st : Store) (payload lba n a : ℕ)
      → (run (spread writes raid payload lba n) st).memory a ≡ st.memory a
  unfolding run spread step
  memory-writes st payload lba zero a = refl
  memory-writes st payload lba (suc n) a =
      memory-writes (step (place writes raid lba payload) st) (payload + sector_length) (lba + 1) n
        a

  pub on_raid-writes_other :
      (st : Store) (payload lba n a o : ℕ)
      → lba + n + super_sector_num < 2 ^ 64
      → a + super_sector_num < 2 ^ 64
      → (a < lba) ⊎ (lba + n ≤ a)
      → on_raid raid (run (spread writes raid payload lba n) st) a o ≡ on_raid raid st a o
  unfolding run spread
  on_raid-writes_other st payload lba zero a o room room' out = refl
  on_raid-writes_other st payload lba (suc n) a o room room' out =
      on_raid-writes_other (step (place writes raid lba payload) st) (payload + sector_length)
        (lba + 1) n a o (omega arith) room' (ground arith)
      ∙ other_block st payload lba a o (omega arith) room' (λ e. ground arith)

  -- A write of several blocks puts the bytes of the memory on the raid.
  pub on_raid-writes :
      (st : Store) (payload lba n j o : ℕ)
      → lba + n + super_sector_num < 2 ^ 64
      → j < n
      → on_raid raid (run (spread writes raid payload lba n) st) (lba + j) o
        ≡ st.memory (payload + j * sector_length + o)
  unfolding run spread
  on_raid-writes st payload lba zero j o room lt = absurd (omega arith)
  on_raid-writes st payload lba (suc n) zero o room lt =
      let st' : Store = step (place writes raid lba payload) st in
      let here : lba + 0 ≡ lba = omega arith in
      let from : payload + 0 * sector_length + o ≡ payload + o = omega arith in
      rw (here, from)
        (on_raid-writes_other st' (payload + sector_length) (lba + 1) n lba o (omega arith)
            (omega arith) (inl (omega arith))
          ∙ same_block st payload lba o)
  on_raid-writes st payload lba (suc n) (suc j) o room lt =
      let st' : Store = step (place writes raid lba payload) st in
      let here : lba + suc j ≡ lba + 1 + j = omega arith in
      let from : payload + suc j * sector_length + o
          ≡ payload + sector_length + j * sector_length + o =
        omega arith in
      rw (here, from)
        (on_raid-writes st' (payload + sector_length) (lba + 1) n j o (omega arith) (omega arith)
          ∙ memory-writes st payload lba 1 (payload + sector_length + j * sector_length + o))

pub fill-inside :
    (mem : ℕ → ℕ) (to n : ℕ) (source : ℕ → ℕ) (k : ℕ)
    → k < n
    → fill mem to n source (to + k) ≡ source k
fill-inside mem to n source k lt =
    let test : (leb to (to + k) && ltb (to + k) (to + n)) ≡ true = ground arith in
    let back : to + k - to ≡ k = omega arith in rw (test, back)

-- Reads leave the NVMes, and the memory that is not theirs.
pub disk-reads :
    (raid : NvmeRaid) (st : Store) (payload lba n : ℕ)
    → (run (spread reads raid payload lba n) st).disk ≡ st.disk
unfolding run spread step
disk-reads raid st payload lba zero = refl
disk-reads raid st payload lba (suc n) =
    disk-reads raid (step (place reads raid lba payload) st) (payload + sector_length) (lba + 1) n

pub memory-reads_other :
    (raid : NvmeRaid) (st : Store) (payload lba n a : ℕ)
    → (a < payload) ⊎ (payload + n * sector_length ≤ a)
    → (run (spread reads raid payload lba n) st).memory a ≡ st.memory a
unfolding run spread step
memory-reads_other raid st payload lba zero a out = refl
memory-reads_other raid st payload lba (suc n) a out =
    memory-reads_other raid (step (place reads raid lba payload) st) (payload + sector_length)
      (lba + 1) n a (ground arith)
    ∙ ground arith

-- A read of several blocks puts the bytes of the raid in the memory.
pub memory-reads :
    (raid : NvmeRaid) (st : Store) (payload lba n j o : ℕ)
    → j < n
    → o < sector_length
    → (run (spread reads raid payload lba n) st).memory (payload + j * sector_length + o)
      ≡ on_raid raid st (lba + j) o
unfolding run spread step
memory-reads raid st payload lba zero j o lt in_block = absurd (omega arith)
memory-reads raid st payload lba (suc n) zero o lt in_block =
    let st' : Store = step (place reads raid lba payload) st in
    let here : lba + 0 ≡ lba = omega arith in
    let from : payload + 0 * sector_length + o ≡ payload + o = omega arith in
    rw (here, from)
      (memory-reads_other raid st' (payload + sector_length) (lba + 1) n (payload + o)
          (inl (omega arith))
        ∙ fill-inside st.memory payload sector_length (on_raid raid st lba) o in_block)
memory-reads raid st payload lba (suc n) (suc j) o lt in_block =
    let st' : Store = step (place reads raid lba payload) st in
    let here : lba + suc j ≡ lba + 1 + j = omega arith in
    let from : payload + suc j * sector_length + o
        ≡ payload + sector_length + j * sector_length + o =
      omega arith in
    rw (here, from)
      (memory-reads raid st' (payload + sector_length) (lba + 1) n j o (omega arith) in_block)
