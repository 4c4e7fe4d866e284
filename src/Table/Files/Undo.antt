-- ===== src/Table/Files/Undo.antt =====
-- src/fs.c: `delFile` after `addFile`.
use nvme_dpdk_pcapreplay.Prelude.{
  ℕ, ◌*◌, ◌≤◌, ◌≡◌, ◌≢◌, refl, sym, ap, ◌∙◌, Bool, true, false, none, some, List, [], ◌∷◌, ◌++◌,
  arith,
}
use mathlib.Core.Path.{subst}
use nvme_dpdk_pcapreplay.Layout.{MetaFile, NvmeRaid, active, super_sector_num}
use nvme_dpdk_pcapreplay.Table.{
  EntryRef, find_file, cmp_file, is_free, first_char, right_free_block, total_files, clear_entry,
  add_entry, del_entry,
}
use nvme_dpdk_pcapreplay.Table.Search.{All, entries}
use nvme_dpdk_pcapreplay.Table.Space.{EndsBefore, right_free_block-bounds, right_free_block-least}
use nvme_dpdk_pcapreplay.Table.Invariant.{
  IsValid, InRange, All-middle, All-join, used, count_used, count_used-middle,
}
use nvme_dpdk_pcapreplay.Table.Files.Lookup.{find_file-none, cmp_file-cstr}
use nvme_dpdk_pcapreplay.Table.Files.Guards.{add_entry-CanAdd}
use nvme_dpdk_pcapreplay.Table.Files.Add.{add_entry-IsValid, find_file-add_entry}
use nvme_dpdk_pcapreplay.Table.Files.Delete.{
  deleted, the_file, entries-deleted, is_free-clear_entry, del_entry-IsValid, find_file-del_entry,
}

-- A name that is found can be deleted.
pub del_entry-deleted :
    (raid : NvmeRaid) (name : List ℕ) (p : EntryRef)
    → first_char name ≢ 0
    → find_file raid name ≡ some p
    → del_entry raid name ≡ some (deleted raid p)
unfolding del_entry
del_entry-deleted raid name p named there = ground arith

-- The first entry that passes a test splits a list in one way.
first_unique :
    (test : MetaFile → Bool) (xs xs' ys ys' : List MetaFile) (a b : MetaFile)
    → xs ++ a ∷ ys ≡ xs' ++ b ∷ ys'
    → All (λ e. test e ≡ false) xs
    → All (λ e. test e ≡ false) xs'
    → test a ≡ true
    → test b ≡ true
    → (xs ≡ xs') × (a ≡ b) × (ys ≡ ys')
first_unique test [] [] ys ys' a b e h k p q = (refl, cc, cc)
first_unique test [] (x ∷ xs') ys ys' a b e h k p q =
    (let passes : test x ≡ false = k.0 in let same : a ≡ x = cc in absurd cc)
first_unique test (x ∷ xs) [] ys ys' a b e h k p q =
    (let passes : test x ≡ false = h.0 in let same : x ≡ b = cc in absurd cc)
first_unique test (x ∷ xs) (y ∷ xs') ys ys' a b e h k p q =
    let same : x ≡ y = cc in
    let rest : xs ++ a ∷ ys ≡ xs' ++ b ∷ ys' = cc in
    let (l, m, r) = first_unique test xs xs' ys ys' a b rest h.1 k.1 p q in (cc, m, r)

-- Tables that differ in entries without blocks end at the same block.
right_free_block-le :
    (raid raid' : NvmeRaid) (xs ys : List MetaFile) (e f : MetaFile)
    → raid'.numdisks ≡ raid.numdisks
    → entries (active raid) ≡ xs ++ e ∷ ys
    → entries (active raid') ≡ xs ++ f ∷ ys
    → f.end_block ≡ 0
    → right_free_block raid' ≤ right_free_block raid
right_free_block-le raid raid' xs ys e f disks whole whole' empty =
    let b : ℕ = right_free_block raid in
    let (low, ends) = right_free_block-bounds raid in
    let (l, m, r) = All-middle (EndsBefore b) xs e ys (subst (All (EndsBefore b)) whole ends) in
    let ends' : All (EndsBefore b) (xs ++ f ∷ ys) =
      All-join (EndsBefore b) xs f ys l (omega arith) r in
    let (lo, en, le) =
      right_free_block-least raid' b (omega (arith, ap (λ n. n * super_sector_num) disks))
        (subst (All (EndsBefore b)) (sym whole') ends') in
    le

end_block-clear_entry : (e : MetaFile) → (clear_entry e).end_block ≡ 0
unfolding clear_entry
end_block-clear_entry e = refl

same_count :
    (raid raid' : NvmeRaid) (xs ys : List MetaFile) (e f : MetaFile)
    → IsValid raid
    → IsValid raid'
    → entries (active raid) ≡ xs ++ e ∷ ys
    → entries (active raid') ≡ xs ++ f ∷ ys
    → is_free e ≡ true
    → is_free f ≡ true
    → total_files raid' ≡ total_files raid
same_count raid raid' xs ys e f v v' whole whole' free free' =
    let was : used e ≡ 0 = ground arith in
    let is : used f ≡ 0 = ground arith in
    omega (
      arith,
      v.counted,
      v'.counted,
      ap count_used whole,
      ap count_used whole',
      count_used-middle xs e ys,
      count_used-middle xs f ys,
    )

-- A file that was added to a raid in order can be deleted: `delFile` finds it, and leaves a raid
-- in order where no entry has the name, and the count of files and the first free block are as
-- before the file was added.
pub del_entry-add_entry :
    {raid : NvmeRaid} (name : List ℕ) (blsize : ℕ) (p : EntryRef) (raid' : NvmeRaid)
    → IsValid raid
    → add_entry raid name blsize ≡ some (p, raid')
    → (raid'' : NvmeRaid) × (del_entry raid' name ≡ some raid'')
      × IsValid raid''
      × (find_file raid'' name ≡ none)
      × (total_files raid'' ≡ total_files raid)
      × (right_free_block raid'' ≡ right_free_block raid)
del_entry-add_entry {raid} name blsize p raid' v e =
    let (c, is) = add_entry-CanAdd raid name blsize p raid' e in
    let v' : IsValid raid' = add_entry-IsValid name blsize p raid' v e in
    let (found, before, hit, file, after, whole, free, whole', same, start, end) =
      find_file-add_entry name blsize p raid' v e in
    let raid'' : NvmeRaid = deleted raid' p in
    let gone : del_entry raid' name ≡ some raid'' =
      del_entry-deleted raid' name p c.has_name found in
    let v'' : IsValid raid'' = del_entry-IsValid name raid'' v' gone in
    let known = the_file name p v' c.has_name found in
    let P : MetaFile → Type 0 = InRange (raid.numdisks * super_sector_num) raid.total_blocks in
    let (in_front, at, behind) = All-middle P before hit after (subst (All P) whole v.in_range) in
    let (missed, _, _) =
      All-middle (λ e. cmp_file name e ≡ false) before hit after
        (subst (All (λ e. cmp_file name e ≡ false)) whole (find_file-none raid name c.is_new)) in
    let (l, m, r) =
      first_unique (cmp_file name) before known.before after known.after file known.hit
        (sym whole' ∙ known.whole) missed known.first ((cmp_file-cstr name file).1 (sym same))
        known.passes in
    let whole'' : entries (active raid'') ≡ before ++ clear_entry file ∷ after =
      rw (l, m, r) (entries-deleted name p v' c.has_name found) in
    let disks : raid''.numdisks ≡ raid.numdisks = ap (λ q. q.numdisks) is in
    let le : right_free_block raid'' ≤ right_free_block raid =
      right_free_block-le raid raid'' before after hit (clear_entry file) disks whole whole''
        (end_block-clear_entry file) in
    let ge : right_free_block raid ≤ right_free_block raid'' =
      right_free_block-le raid'' raid before after (clear_entry file) hit (sym disks) whole'' whole
        (at.empty free) in
    (
      raid'',
      gone,
      v'',
      (find_file-del_entry name raid'' v' gone).0,
      same_count raid raid'' before after hit (clear_entry file) v v'' whole whole'' free
          (is_free-clear_entry file),
      omega arith,
    )
