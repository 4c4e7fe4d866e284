-- ===== src/Table/Files/Delete.antt =====
-- src/fs.c, `delFile`: what it takes away.
use nvme_dpdk_pcapreplay.Prelude.{
  ℕ, ◌+◌, ◌-◌, ◌*◌, ◌^◌, ◌<◌, ◌≡◌, ◌≢◌, refl, sym, ap, ◌∙◌, ◌⊎◌, inl, inr, true, false, none, some,
  List, [], ◌∷◌, ◌++◌, arith, length, Bool-cases,
}
use mathlib.Core.Path.{subst}
use nvme_dpdk_pcapreplay.Layout.{MetaFile, NvmeRaid, active, name_length, super_sector_num, u8, u32}
use nvme_dpdk_pcapreplay.Table.{
  EntryRef, modify_entry, set_total, find_file, cmp_file, is_free, first_char, total_files,
  clear_entry, del_entry,
}
use nvme_dpdk_pcapreplay.Table.Names.{cstr}
use nvme_dpdk_pcapreplay.Table.Search.{All, entries, Found}
use nvme_dpdk_pcapreplay.Table.Invariant.{
  Pairwise, Apart, Differ, InRange, IsValid, used, count_used, All-middle, All-join, All-imp,
  Pairwise-replace, count_used-middle, count_used-le-length, length-middle, entries-written,
}
use nvme_dpdk_pcapreplay.Table.Files.Lookup.{
  find_file-Found, cmp_file-cstr, cmp_file-free, entry_where-All, find_file-written,
}
use nvme_dpdk_pcapreplay.Table.Files.Guards.{total_files-set_total, length-set_total}

-- The raid that a successful `delFile` leaves.
abbrev pub deleted : NvmeRaid → EntryRef → NvmeRaid
deleted raid p = record raid {
  disk = set_total (u8 (total_files raid + 255)) (modify_entry p clear_entry raid.disk);
  num_files = u32 (raid.num_files + 2 ^ 32 - 1);
}

-- A success of `delFile` means that the name is not empty and is in a table.
pub del_entry-some :
    (raid : NvmeRaid) (name : List ℕ) (raid' : NvmeRaid)
    → del_entry raid name ≡ some raid'
    → (p : EntryRef) × (first_char name ≢ 0)
      × (find_file raid name ≡ some p)
      × (raid' ≡ deleted raid p)
unfolding del_entry
del_entry-some raid name raid' e = ground arith

pub is_free-clear_entry : (e : MetaFile) → is_free (clear_entry e) ≡ true
unfolding clear_entry
is_free-clear_entry e = first e.name
  where
    first : (cs : List ℕ) → is_free (clear_entry (record e { name = cs })) ≡ true
    first [] = refl
    first (c ∷ cs) = refl

Pairwise-after :
    (R : MetaFile → MetaFile → Type 0) (xs : List MetaFile) (e : MetaFile) (ys : List MetaFile)
    → Pairwise R (xs ++ e ∷ ys)
    → All (R e) ys
Pairwise-after R [] e ys h = h.0
Pairwise-after R (x ∷ xs) e ys h = Pairwise-after R xs e ys h.1

module _ {raid : NvmeRaid} (name : List ℕ) (p : EntryRef) (v : IsValid raid)
    (named : first_char name ≢ 0) (there : find_file raid name ≡ some p) where
  pub the_file :
      Found (cmp_file name) (entries (active raid)) (λ f. entries (modify_entry p f (active raid)))
  the_file = find_file-Found raid name p there

  open the_file use {before, hit, after}

  abbrev gone : MetaFile
  gone = clear_entry hit

  pub entries-deleted : entries (active (deleted raid p)) ≡ before ++ gone ∷ after
  entries-deleted =
      entries-written raid.numdisks (u8 (total_files raid + 255)) p clear_entry raid.disk
      ∙ the_file.changed clear_entry

  hit_used : is_free hit ≡ false
  hit_used = elim (Bool-cases (is_free hit)) [
    | inl free ↦ absurd (ground (arith, cmp_file-free name hit named free, the_file.passes))
    | inr busy ↦ busy
  ]

  InRange-deleted :
      All (InRange (raid.numdisks * super_sector_num) raid.total_blocks) (before ++ gone ∷ after)
  unfolding clear_entry
  InRange-deleted =
      let P : MetaFile → Type 0 = InRange (raid.numdisks * super_sector_num) raid.total_blocks in
      let (a, x, b) = All-middle P before hit after (subst (All P) the_file.whole v.in_range) in
      All-join P before gone after a
        (record {
          ordered = omega arith;
          inside = omega arith;
          empty = λ free. refl;
          above = λ used. absurd (ground (arith, is_free-clear_entry hit));
        })
        b

  Apart-deleted : Pairwise Apart (before ++ gone ∷ after)
  unfolding clear_entry
  Apart-deleted =
      let P : MetaFile → Type 0 = InRange (raid.numdisks * super_sector_num) raid.total_blocks in
      let (a, x, b) = All-middle P before hit after (subst (All P) the_file.whole v.in_range) in
      Pairwise-replace Apart before hit gone after (subst (Pairwise Apart) the_file.whole v.apart)
        (All-imp P (λ x. Apart x gone) before (λ e h. inr (omega arith)) a)
        (All-imp P (Apart gone) after (λ e h. inl (omega arith)) b)

  Differ-deleted : Pairwise Differ (before ++ gone ∷ after)
  Differ-deleted =
      let P : MetaFile → Type 0 = InRange (raid.numdisks * super_sector_num) raid.total_blocks in
      let (a, x, b) = All-middle P before hit after (subst (All P) the_file.whole v.in_range) in
      Pairwise-replace Differ before hit gone after
        (subst (Pairwise Differ) the_file.whole v.differ)
        (All-imp P (λ x. Differ x gone) before
          (λ e h u u' same. absurd (ground (arith, is_free-clear_entry hit))) a)
        (All-imp P (Differ gone) after
          (λ e h u u' same. absurd (ground (arith, is_free-clear_entry hit))) b)

  -- One entry fewer is in use.
  counts-deleted :
      (count_used (before ++ gone ∷ after) + 1 ≡ count_used (entries (active raid)))
      × (length (before ++ gone ∷ after) ≡ length (entries (active raid)))
      × (count_used (entries (active raid)) < 2 ^ 8)
  counts-deleted =
      let was : used hit ≡ 1 = ground (arith, hit_used) in
      let is : used gone ≡ 0 = ground (arith, is_free-clear_entry hit) in
      (
        omega (
          arith,
          ap count_used the_file.whole,
          count_used-middle before hit after,
          count_used-middle before gone after,
        ),
        omega (
          arith,
          ap length the_file.whole,
          length-middle before hit after,
          length-middle before gone after,
        ),
        omega (arith, count_used-le-length (entries (active raid)), v.full_tables, v.few_disks),
      )

  deleted-IsValid : IsValid (deleted raid p)
  deleted-IsValid =
      let es : entries (active (deleted raid p)) ≡ before ++ gone ∷ after = entries-deleted in
      let (count, size, small) = counts-deleted in
      let full : 0 < length raid.disk = omega (arith, v.some_disk, v.array) in
      let total : total_files (deleted raid p) ≡ u8 (total_files raid + 255) =
        total_files-set_total raid (u8 (total_files raid + 255)) (u32 (raid.num_files + 2 ^ 32 - 1))
          p clear_entry full in
      record {
        some_disk = v.some_disk;
        few_disks = v.few_disks;
        array = omega (
          arith,
          v.array,
          length-set_total (u8 (total_files raid + 255)) p clear_entry raid.disk,
        );
        full_tables = ap length es ∙ size ∙ v.full_tables;
        range = v.range;
        reserved = v.reserved;
        in_range = rw es InRange-deleted;
        apart = rw es Apart-deleted;
        differ = rw es Differ-deleted;
        counted = omega (arith, total, ap count_used es, count, v.counted);
        same_count = omega (arith, total, v.counted, v.same_count, count);
      }

  -- Nothing else has the name.
  misses-deleted : All (λ e. cmp_file name e ≡ false) (before ++ gone ∷ after)
  misses-deleted =
      All-join (λ e. cmp_file name e ≡ false) before gone after the_file.first
        (cmp_file-free name gone named (is_free-clear_entry hit))
        (All-imp (Differ hit) (λ e. cmp_file name e ≡ false) after
          (λ e differ. other e differ (Bool-cases (is_free e)) (Bool-cases (cmp_file name e)))
          (Pairwise-after Differ before hit after
            (subst (Pairwise Differ) the_file.whole v.differ)))
    where
      other :
          (e : MetaFile)
          → Differ hit e
          → (is_free e ≡ true) ⊎ (is_free e ≡ false)
          → (cmp_file name e ≡ true) ⊎ (cmp_file name e ≡ false)
          → cmp_file name e ≡ false
      other e differ (inl free) split = cmp_file-free name e named free
      other e differ (inr busy) (inr missed) = missed
      other e differ (inr busy) (inl same) = absurd (
          differ hit_used busy
            (sym ((cmp_file-cstr name hit).0 the_file.passes) ∙ (cmp_file-cstr name e).0 same))

  find_file-deleted : find_file (deleted raid p) name ≡ none
  find_file-deleted =
      find_file-written raid name (u8 (total_files raid + 255)) (u32 (raid.num_files + 2 ^ 32 - 1))
        p clear_entry
      ∙ entry_where-All (cmp_file name) 0 (modify_entry p clear_entry (active raid)) (
          subst (All (λ e. cmp_file name e ≡ false)) (sym (the_file.changed clear_entry))
            misses-deleted)

-- If `delFile` succeeds on a raid in order, the raid is in order after it.
pub del_entry-IsValid :
    {raid : NvmeRaid} (name : List ℕ) (raid' : NvmeRaid)
    → IsValid raid
    → del_entry raid name ≡ some raid'
    → IsValid raid'
del_entry-IsValid {raid} name raid' v e =
    let (p, named, there, is) = del_entry-some raid name raid' e in
    subst IsValid (sym is) (deleted-IsValid name p v named there)

-- If `delFile` succeeds on a raid in order, no entry has the name afterwards: one entry, which had
-- it, is cleared, and the others are as they were.
pub find_file-del_entry :
    {raid : NvmeRaid} (name : List ℕ) (raid' : NvmeRaid)
    → IsValid raid
    → del_entry raid name ≡ some raid'
    → (find_file raid' name ≡ none)
      × (before : List MetaFile) × (hit : MetaFile) × (after : List MetaFile) × (entries
            (active raid)
          ≡ before ++ hit ∷ after)
      × (cstr name_length hit.name ≡ cstr name_length name)
      × (entries (active raid') ≡ before ++ clear_entry hit ∷ after)
find_file-del_entry {raid} name raid' v e =
    let (p, named, there, is) = del_entry-some raid name raid' e in
    let found = the_file name p v named there in
    subst
      (λ r.
        (find_file r name ≡ none)
        × (before : List MetaFile) × (hit : MetaFile) × (after : List MetaFile) × (entries
              (active raid)
            ≡ before ++ hit ∷ after)
        × (cstr name_length hit.name ≡ cstr name_length name)
        × (entries (active r) ≡ before ++ clear_entry hit ∷ after))
      (sym is)
      (
        find_file-deleted name p v named there,
        found.before,
        found.hit,
        found.after,
        found.whole,
        sym ((cmp_file-cstr name found.hit).0 found.passes),
        entries-deleted name p v named there,
      )
