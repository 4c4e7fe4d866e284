-- ===== src/Table/Files/Add.antt =====
-- src/fs.c, `addFile`: the tables after it.
use nvme_dpdk_pcapreplay.Prelude.{ℕ, ◌+◌, ◌≡◌, refl, sym, true, some, List, ◌∷◌, ◌++◌}
use mathlib.Core.Path.{subst}
use nvme_dpdk_pcapreplay.Layout.{MetaFile, NvmeRaid, active, name_length}
use nvme_dpdk_pcapreplay.Table.{
  EntryRef, find_file, is_free, right_free_block, new_entry, add_entry,
}
use nvme_dpdk_pcapreplay.Table.Names.{cstr, cstr-memcpy_bytes}
use nvme_dpdk_pcapreplay.Table.Search.{entries}
use nvme_dpdk_pcapreplay.Table.Invariant.{IsValid}
use nvme_dpdk_pcapreplay.Table.Files.Guards.{add_entry-CanAdd}
use nvme_dpdk_pcapreplay.Table.Files.Added.{
  added-entries, entries-added, fresh_blocks, added-IsValid, find_file-added,
}

-- If `addFile` succeeds on a raid in order, the raid is in order after it: every file lies between
-- the reserved blocks and the end of the raid, no two meet, no two have one name, and the counters
-- are right.
pub add_entry-IsValid :
    {raid : NvmeRaid} (name : List ℕ) (blsize : ℕ) (p : EntryRef) (raid' : NvmeRaid)
    → IsValid raid
    → add_entry raid name blsize ≡ some (p, raid')
    → IsValid raid'
add_entry-IsValid {raid} name blsize p raid' v e =
    let (c, is) = add_entry-CanAdd raid name blsize p raid' e in
    subst IsValid (sym is) (added-IsValid name blsize p v c)

-- If `addFile` succeeds on a raid in order, the file is found under its name afterwards, at the
-- entry that `addFile` returned; its blocks are the first `blsize` past every other file, its
-- entry was free, and the other entries are as they were.
pub find_file-add_entry :
    {raid : NvmeRaid} (name : List ℕ) (blsize : ℕ) (p : EntryRef) (raid' : NvmeRaid)
    → IsValid raid
    → add_entry raid name blsize ≡ some (p, raid')
    → (find_file raid' name ≡ some p)
      × (before : List MetaFile) × (hit : MetaFile) × (file : MetaFile) × (after : List MetaFile)
      × (entries (active raid) ≡ before ++ hit ∷ after)
      × (is_free hit ≡ true)
      × (entries (active raid') ≡ before ++ file ∷ after)
      × (cstr name_length file.name ≡ cstr name_length name)
      × (file.start_block ≡ right_free_block raid)
      × (file.end_block ≡ right_free_block raid + blsize)
find_file-add_entry {raid} name blsize p raid' v e =
    let (c, is) = add_entry-CanAdd raid name blsize p raid' e in
    let found = added-entries name blsize p v c in
    subst
      (λ r.
        (find_file r name ≡ some p)
        × (before : List MetaFile) × (hit : MetaFile) × (file : MetaFile) × (after : List MetaFile)
        × (entries (active raid) ≡ before ++ hit ∷ after)
        × (is_free hit ≡ true)
        × (entries (active r) ≡ before ++ file ∷ after)
        × (cstr name_length file.name ≡ cstr name_length name)
        × (file.start_block ≡ right_free_block raid)
        × (file.end_block ≡ right_free_block raid + blsize))
      (sym is)
      (
        find_file-added name blsize p v c,
        found.before,
        found.hit,
        new_entry raid name blsize,
        found.after,
        found.whole,
        found.passes,
        entries-added name blsize p v c,
        cstr-memcpy_bytes name_length name,
        refl,
        (fresh_blocks name blsize p v c).0,
      )
