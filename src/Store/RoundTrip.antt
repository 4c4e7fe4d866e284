-- ===== src/Store/RoundTrip.antt =====
-- What is written to the raid is read back, and nothing else on it changes.
use nvme_dpdk_pcapreplay.Prelude.{
  ℕ, ◌+◌, ◌*◌, ◌^◌, ◌≤◌, ◌<◌, ◌≡◌, ◌⊎◌, ap, ◌∙◌, List, [], ◌∷◌, ◌++◌, done, arith,
}
use mathlib.Core.Path.{subst}
use nvme_dpdk_pcapreplay.Layout.{MetaFile, NvmeRaid, active, sector_length, super_sector_num}
use nvme_dpdk_pcapreplay.Table.Search.{All, entries}
use nvme_dpdk_pcapreplay.Table.Invariant.{Pairwise, Apart, InRange, IsValid, All-middle}
use nvme_dpdk_pcapreplay.Driver.{reads, writes, Driver, Sio}
use nvme_dpdk_pcapreplay.Transfer.{sio_rread, sio_rwrite}
use nvme_dpdk_pcapreplay.Transfer.Blocks.{Move, moved, spread}
use nvme_dpdk_pcapreplay.Transfer.Steps.{Accepts}
use nvme_dpdk_pcapreplay.Transfer.Coverage.{sio_rread-sio_rwrite-Moves}
use nvme_dpdk_pcapreplay.Store.{Store, run, on_raid}
use nvme_dpdk_pcapreplay.Store.Places.{
  Distinct, run-append, on_raid-writes, on_raid-writes_other, memory-reads,
}

-- The bytes after the calls so far, if every command takes place when it is taken.
abbrev pub after : Driver → Sio → Store → Store
after D s st = run (moved D s.history) st

-- On a raid with an NVMe, whose NVMes have different handles, and with a driver that takes every
-- command and carries it out at once: what `sio_rwrite` has written from the memory at one address,
-- `sio_rread` reads back to another, byte for byte, and both return 0, for any transfer that ends a
-- super sector below 2^64.
pub sio_rread-sio_rwrite :
    (D : Driver) (raid : NvmeRaid) (payload payload' lba n : ℕ) (s : Sio) (st : Store) (j o : ℕ)
    → Accepts D
    → 0 < raid.numdisks
    → Distinct raid
    → lba + n + super_sector_num < 2 ^ 64
    → j < n
    → o < sector_length
    → (s1 : Sio) × (s2 : Sio) × (sio_rwrite D raid payload lba n s ≡ done (0, s1))
      × (sio_rread D raid payload' lba n s1 ≡ done (0, s2))
      × ((after D s2 st).memory (payload' + j * sector_length + o)
          ≡ (after D s st).memory (payload + j * sector_length + o))
sio_rread-sio_rwrite D raid payload payload' lba n s st j o accepts some distinct fits lt in_block =
    let (s1, wrote, h1) = (sio_rread-sio_rwrite-Moves D raid payload lba n s accepts some fits).1 in
    let (s2, read, h2) =
      (sio_rread-sio_rwrite-Moves D raid payload' lba n s1 accepts some fits).0 in
    let ws : List Move = spread writes raid payload lba n in
    let st0 : Store = after D s st in
    let st1 : Store = after D s1 st in
    let mid : st1 ≡ run ws st0 = ap (λ ms. run ms st) h1 ∙ run-append (moved D s.history) ws st in
    let last : after D s2 st ≡ run (spread reads raid payload' lba n) st1 =
      ap (λ ms. run ms st) h2
      ∙ run-append (moved D s1.history) (spread reads raid payload' lba n) st in
    (
      s1,
      s2,
      wrote,
      read,
      ap (λ (q : Store). q.memory (payload' + j * sector_length + o)) last
          ∙ memory-reads raid st1 payload' lba n j o lt in_block
          ∙ ap (λ (q : Store). on_raid raid q (lba + j) o) mid
          ∙ on_raid-writes raid some distinct st0 payload lba n j o fits lt,
    )

-- The blocks of a write that are inside a file.
abbrev pub Within : MetaFile → ℕ → ℕ → Type 0
Within e lba n = (e.start_block ≤ lba) × (lba + n ≤ e.end_block)

-- `sio_rwrite` returns and leaves this block of the raid.
abbrev pub Keeps : Driver → NvmeRaid → ℕ → ℕ → ℕ → Sio → Store → ℕ → ℕ → Type 0
Keeps D raid payload lba n s st a o =
    (s1 : Sio) × (sio_rwrite D raid payload lba n s ≡ done (0, s1))
    × (on_raid raid (after D s1 st) a o ≡ on_raid raid (after D s st) a o)

sio_rwrite-Keeps :
    (D : Driver) (raid : NvmeRaid) (payload lba n : ℕ) (s : Sio) (st : Store) (a o : ℕ)
    → Accepts D
    → 0 < raid.numdisks
    → Distinct raid
    → lba + n + super_sector_num < 2 ^ 64
    → a + super_sector_num < 2 ^ 64
    → (a < lba) ⊎ (lba + n ≤ a)
    → Keeps D raid payload lba n s st a o
sio_rwrite-Keeps D raid payload lba n s st a o accepts some distinct fits room out =
    let (s1, wrote, h1) = (sio_rread-sio_rwrite-Moves D raid payload lba n s accepts some fits).1 in
    let ws : List Move = spread writes raid payload lba n in
    let mid : after D s1 st ≡ run ws (after D s st) =
      ap (λ ms. run ms st) h1 ∙ run-append (moved D s.history) ws st in
    (
      s1,
      wrote,
      ap (λ (q : Store). on_raid raid q a o) mid
          ∙ on_raid-writes_other raid some distinct (after D s st) payload lba n a o fits room out,
    )

two_files :
    (R : MetaFile → MetaFile → Type 0) (P : MetaFile → Type 0) (xs : List MetaFile) (e : MetaFile)
    (ys : List MetaFile) (f : MetaFile) (zs : List MetaFile)
    → Pairwise R (xs ++ e ∷ (ys ++ f ∷ zs))
    → All P (xs ++ e ∷ (ys ++ f ∷ zs))
    → R e f × P e × P f
two_files R P [] e ys f zs r p =
    let (front, mid, back) = All-middle (R e) ys f zs r.0 in
    let (front', mid', back') = All-middle P ys f zs p.1 in (mid, p.0, mid')
two_files R P (x ∷ xs) e ys f zs r p = two_files R P xs e ys f zs r.1 p.1

-- On a raid in order that ends a super sector below 2^64, whose NVMes have different handles, and
-- with a driver that takes every command and carries it out at once, `sio_rwrite` inside the blocks
-- of one file returns 0 and leaves every byte of every other file, before it or behind it in the
-- tables.
pub sio_rwrite-Keeps_files :
    (D : Driver) (raid : NvmeRaid) (xs : List MetaFile) (e : MetaFile) (ys : List MetaFile)
    (f : MetaFile) (zs : List MetaFile) (payload lba n lba' n' : ℕ) (s : Sio) (st : Store)
    (a b o : ℕ)
    → Accepts D
    → IsValid raid
    → Distinct raid
    → raid.total_blocks + super_sector_num < 2 ^ 64
    → entries (active raid) ≡ xs ++ e ∷ (ys ++ f ∷ zs)
    → Within e lba n
    → Within f lba' n'
    → Within f a 1
    → Within e b 1
    → Keeps D raid payload lba n s st a o × Keeps D raid payload lba' n' s st b o
sio_rwrite-Keeps_files D raid xs e ys f zs payload lba n lba' n' s st a b o accepts v distinct small
      whole in_e in_f a_in b_in =
    let P : MetaFile → Type 0 = InRange (raid.numdisks * super_sector_num) raid.total_blocks in
    let (apart, e_in, f_in) =
      two_files Apart P xs e ys f zs (subst (Pairwise Apart) whole v.apart)
        (subst (All P) whole v.in_range) in
    (
      sio_rwrite-Keeps D raid payload lba n s st a o accepts v.some_disk distinct
          (omega (arith, e_in.inside)) (omega (arith, f_in.inside)) (ground arith),
      sio_rwrite-Keeps D raid payload lba' n' s st b o accepts v.some_disk distinct
          (omega (arith, f_in.inside)) (omega (arith, e_in.inside)) (ground arith),
    )
