-- ===== src/Table/Space.antt =====
-- src/fs.c, `rightFreeBlock` and `blocksLeft`: the space that is left.
use nvme_dpdk_pcapreplay.Prelude.{
  ℕ, ◌*◌, ◌≤◌, ◌≡◌, refl, sym, ap, ◌∙◌, List, [], ◌∷◌, ◌++◌, arith, ltb, if◌then◌else◌,
}
use nvme_dpdk_pcapreplay.Layout.{MetaFile, Idisk, NvmeRaid, active, super_sector_num, sub_u64}
use nvme_dpdk_pcapreplay.Table.{
  right_most, right_most_disks, right_free_block, used_blocks, used_blocks_disks, blocks_left,
}
use nvme_dpdk_pcapreplay.Table.Search.{All, All-append, entries}

abbrev pub EndsBefore : ℕ → MetaFile → Type 0
EndsBefore b e = e.end_block ≤ b

-- The loops compute the least bound on `most` and the ends of the entries.
right_most-bounds :
    (most : ℕ) (es : List MetaFile)
    → (most ≤ right_most most es) × All (EndsBefore (right_most most es)) es
unfolding right_most
right_most-bounds most [] = (omega arith, tt)
right_most-bounds most (e ∷ es) =
    let (le, all) = right_most-bounds (if ltb most e.end_block then e.end_block else most) es in
    (ground arith, (ground arith, all))

right_most-least :
    (most b : ℕ) (es : List MetaFile) → most ≤ b → All (EndsBefore b) es → right_most most es ≤ b
unfolding right_most
right_most-least most b [] le all = le
right_most-least most b (e ∷ es) le all =
    right_most-least (if ltb most e.end_block then e.end_block else most) b es (ground arith) all.1

All-weaken : (a b : ℕ) (es : List MetaFile) → a ≤ b → All (EndsBefore a) es → All (EndsBefore b) es
All-weaken a b [] le all = tt
All-weaken a b (e ∷ es) le all = (omega arith, All-weaken a b es le all.1)

right_most_disks-bounds :
    (most : ℕ) (ds : List Idisk)
    → (most ≤ right_most_disks most ds) × All (EndsBefore (right_most_disks most ds)) (entries ds)
unfolding right_most_disks
right_most_disks-bounds most [] = (omega arith, tt)
right_most_disks-bounds most (d ∷ ds) =
    let here : ℕ = right_most most d.msector.content in
    let (le, all) = right_most-bounds most d.msector.content in
    let (le', all') = right_most_disks-bounds here ds in
    (
      omega arith,
      All-append (EndsBefore (right_most_disks here ds)) d.msector.content (entries ds)
          (All-weaken here (right_most_disks here ds) d.msector.content le' all) all',
    )

All-front : (b : ℕ) (xs ys : List MetaFile) → All (EndsBefore b) (xs ++ ys) → All (EndsBefore b) xs
All-front b [] ys all = tt
All-front b (x ∷ xs) ys all = (all.0, All-front b xs ys all.1)

All-back : (b : ℕ) (xs ys : List MetaFile) → All (EndsBefore b) (xs ++ ys) → All (EndsBefore b) ys
All-back b [] ys all = all
All-back b (x ∷ xs) ys all = All-back b xs ys all.1

right_most_disks-least :
    (most b : ℕ) (ds : List Idisk)
    → most ≤ b
    → All (EndsBefore b) (entries ds)
    → right_most_disks most ds ≤ b
unfolding right_most_disks
right_most_disks-least most b [] le all = le
right_most_disks-least most b (d ∷ ds) le all =
    right_most_disks-least (right_most most d.msector.content) b ds
      (right_most-least most b d.msector.content le
        (All-front b d.msector.content (entries ds) all))
      (All-back b d.msector.content (entries ds) all)

pub right_free_block-bounds :
    (raid : NvmeRaid)
    → (raid.numdisks * super_sector_num ≤ right_free_block raid)
      × All (EndsBefore (right_free_block raid)) (entries (active raid))
unfolding right_free_block
right_free_block-bounds raid =
    right_most_disks-bounds (raid.numdisks * super_sector_num) (active raid)

-- `rightFreeBlock` is the least block that lies past the reserved blocks and past the end of every
-- entry: it lies past them, and not past any block `b` that does.
pub right_free_block-least :
    (raid : NvmeRaid) (b : ℕ)
    → raid.numdisks * super_sector_num ≤ b
    → All (EndsBefore b) (entries (active raid))
    → (raid.numdisks * super_sector_num ≤ right_free_block raid)
      × All (EndsBefore (right_free_block raid)) (entries (active raid))
      × (right_free_block raid ≤ b)
unfolding right_free_block
right_free_block-least raid b low all =
    let (le, ends) = right_free_block-bounds raid in
    (le, ends, right_most_disks-least (raid.numdisks * super_sector_num) b (active raid) low all)

used_blocks-append :
    (used : ℕ) (xs ys : List MetaFile)
    → used_blocks used (xs ++ ys) ≡ used_blocks (used_blocks used xs) ys
unfolding used_blocks
used_blocks-append used [] ys = refl
used_blocks-append used (x ∷ xs) ys = used_blocks-append (sub_u64 x.end_block x.start_block) xs ys

used_blocks_disks-entries :
    (used : ℕ) (ds : List Idisk) → used_blocks_disks used ds ≡ used_blocks used (entries ds)
unfolding used_blocks_disks used_blocks
used_blocks_disks-entries used [] = refl
used_blocks_disks-entries used (d ∷ ds) =
    used_blocks_disks-entries (used_blocks used d.msector.content) ds
    ∙ sym (used_blocks-append used d.msector.content (entries ds))

-- `blocksLeft` takes the blocks of the last entry of the last table from the total, and no others.
pub blocks_left-last :
    (raid : NvmeRaid) (es : List MetaFile) (e : MetaFile)
    → entries (active raid) ≡ es ++ e ∷ []
    → blocks_left raid ≡ sub_u64 raid.total_blocks (sub_u64 e.end_block e.start_block)
unfolding blocks_left used_blocks
blocks_left-last raid es e whole = ap (sub_u64 raid.total_blocks) (
    used_blocks_disks-entries 0 (active raid)
    ∙ ap (used_blocks 0) whole
    ∙ used_blocks-append 0 es (e ∷ []))
