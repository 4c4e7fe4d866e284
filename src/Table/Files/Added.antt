-- ===== src/Table/Files/Added.antt =====
-- The raid with one more file, in the first free entry.
use nvme_dpdk_pcapreplay.Prelude.{
  ℕ, ◌+◌, ◌-◌, ◌*◌, ◌^◌, ◌≤◌, ◌<◌, ◌≡◌, ◌≢◌, sym, ap, ◌∙◌, inl, inr, true, false, some, List, ◌∷◌,
  ◌++◌, arith, length,
}
use mathlib.Core.Path.{subst}
use nvme_dpdk_pcapreplay.Layout.{MetaFile, NvmeRaid, active, name_length, super_sector_num, u8, u32}
use nvme_dpdk_pcapreplay.Table.{
  EntryRef, entry_where, modify_entry, find_file, cmp_file, is_free, right_free_block,
  right_free_blocks, total_files, new_entry,
}
use nvme_dpdk_pcapreplay.Table.Names.{cstr, cstr-memcpy_bytes, first_char-memcpy_bytes}
use nvme_dpdk_pcapreplay.Table.Search.{All, entries, Found, entry_where_start-Found}
use nvme_dpdk_pcapreplay.Table.Space.{EndsBefore, right_free_block-bounds, right_free_block-least}
use nvme_dpdk_pcapreplay.Table.Invariant.{
  Pairwise, Apart, Differ, InRange, IsValid, used, count_used, All-middle, All-join, All-imp,
  Pairwise-replace, count_used-middle, count_used-le-length, length-middle, entries-written,
}
use nvme_dpdk_pcapreplay.Table.Files.Lookup.{
  find_file-none, cmp_file-cstr, entry_where-written, find_file-written,
}
use nvme_dpdk_pcapreplay.Table.Files.Guards.{added, CanAdd, total_files-set_total, length-set_total}

-- The space that is free right of every file is the end of the raid less the first free block.
right_free_blocks_lem :
    {raid : NvmeRaid}
    → IsValid raid
    → right_free_blocks raid + right_free_block raid ≡ raid.total_blocks
unfolding right_free_blocks
right_free_blocks_lem {raid} v =
    let inside : All (EndsBefore raid.total_blocks) (entries (active raid)) =
      All-imp (InRange (raid.numdisks * super_sector_num) raid.total_blocks)
        (EndsBefore raid.total_blocks) (entries (active raid)) (λ e r. r.inside) v.in_range in
    let (low, ends, le) = right_free_block-least raid raid.total_blocks v.reserved inside in
    omega arith

module _ {raid : NvmeRaid} (name : List ℕ) (blsize : ℕ) (p : EntryRef) (v : IsValid raid)
    (c : CanAdd raid name blsize p) where
  abbrev start : ℕ
  start = right_free_block raid

  abbrev fresh : MetaFile
  fresh = new_entry raid name blsize

  pub fresh_blocks : (fresh.end_block ≡ start + blsize) × (start + blsize ≤ raid.total_blocks)
  fresh_blocks = omega (arith, right_free_blocks_lem v)

  fresh_used : is_free fresh ≡ false
  fresh_used = ground (arith, first_char-memcpy_bytes 25 name)

  -- The table with the new entry in the first free slot.
  pub added-entries :
      Found is_free (entries (active raid)) (λ f. entries (modify_entry p f (active raid)))
  added-entries = entry_where_start-Found is_free (active raid) p c.slot

  open added-entries use {before, hit, after}

  pub entries-added : entries (active (added raid name blsize p)) ≡ before ++ fresh ∷ after
  entries-added =
      entries-written raid.numdisks (u8 (total_files raid + 1)) p (λ _. fresh) raid.disk
      ∙ added-entries.changed (λ _. fresh)

  -- Every other entry ends before the new one, and has another name.
  others :
      (All (EndsBefore start) before × All (EndsBefore start) after)
      × (All (λ e. cmp_file name e ≡ false) before × All (λ e. cmp_file name e ≡ false) after)
  others =
      let ends =
        subst (All (EndsBefore start)) added-entries.whole (right_free_block-bounds raid).1 in
      let names =
        subst (All (λ e. cmp_file name e ≡ false)) added-entries.whole
          (find_file-none raid name c.is_new) in
      let (a, x, b) = All-middle (EndsBefore start) before hit after ends in
      let (a', x', b') = All-middle (λ e. cmp_file name e ≡ false) before hit after names in
      ((a, b), (a', b'))

  differs :
      (e : MetaFile)
      → cmp_file name e ≡ false
      → cstr name_length fresh.name ≢ cstr name_length e.name
  differs e other same =
      let equal : cmp_file name e ≡ true =
        (cmp_file-cstr name e).1 (sym (cstr-memcpy_bytes name_length name) ∙ same) in
      ground arith

  InRange-added :
      All (InRange (raid.numdisks * super_sector_num) raid.total_blocks) (before ++ fresh ∷ after)
  InRange-added =
      let P : MetaFile → Type 0 = InRange (raid.numdisks * super_sector_num) raid.total_blocks in
      let (a, x, b) =
        All-middle P before hit after (subst (All P) added-entries.whole v.in_range) in
      let (ends, fits) = fresh_blocks in
      let (low, all) = right_free_block-bounds raid in
      All-join P before fresh after a
        (record {
          ordered = omega arith;
          inside = omega arith;
          empty = λ free. ground (arith, fresh_used);
          above = λ used. low;
        })
        b

  Apart-added : Pairwise Apart (before ++ fresh ∷ after)
  Apart-added =
      let ((a, b), names) = others in
      Pairwise-replace Apart before hit fresh after
        (subst (Pairwise Apart) added-entries.whole v.apart)
        (All-imp (EndsBefore start) (λ x. Apart x fresh) before (λ e h. inl h) a)
        (All-imp (EndsBefore start) (Apart fresh) after (λ e h. inr h) b)

  Differ-added : Pairwise Differ (before ++ fresh ∷ after)
  Differ-added =
      let (ends, (a, b)) = others in
      Pairwise-replace Differ before hit fresh after
        (subst (Pairwise Differ) added-entries.whole v.differ)
        (All-imp (λ e. cmp_file name e ≡ false) (λ x. Differ x fresh) before
          (λ e h u u' same. differs e h (sym same)) a)
        (All-imp (λ e. cmp_file name e ≡ false) (Differ fresh) after
          (λ e h u u' same. differs e h same) b)

  -- One more entry is in use, and there are at most as many as slots.
  counts-added :
      (count_used (before ++ fresh ∷ after) ≡ count_used (entries (active raid)) + 1)
      × (length (before ++ fresh ∷ after) ≡ length (entries (active raid)))
      × (count_used (entries (active raid)) < 2 ^ 8 - 1)
  counts-added =
      let was : used hit ≡ 0 = ground (arith, added-entries.passes) in
      let is : used fresh ≡ 1 = ground (arith, fresh_used) in
      (
        omega (
          arith,
          ap count_used added-entries.whole,
          count_used-middle before hit after,
          count_used-middle before fresh after,
        ),
        omega (
          arith,
          ap length added-entries.whole,
          length-middle before hit after,
          length-middle before fresh after,
        ),
        omega (arith, count_used-le-length (entries (active raid)), v.full_tables, v.few_disks),
      )

  pub added-IsValid : IsValid (added raid name blsize p)
  added-IsValid =
      let es : entries (active (added raid name blsize p)) ≡ before ++ fresh ∷ after =
        entries-added in
      let (count, size, small) = counts-added in
      let full : 0 < length raid.disk = omega (arith, v.some_disk, v.array) in
      let total : total_files (added raid name blsize p) ≡ u8 (total_files raid + 1) =
        total_files-set_total raid (u8 (total_files raid + 1)) (u32 (raid.num_files + 1)) p
          (λ _. fresh) full in
      record {
        some_disk = v.some_disk;
        few_disks = v.few_disks;
        array =
            omega (
              arith,
              v.array,
              length-set_total (u8 (total_files raid + 1)) p (λ _. fresh) raid.disk,
            );
        full_tables = ap length es ∙ size ∙ v.full_tables;
        range = v.range;
        reserved = v.reserved;
        in_range = rw es InRange-added;
        apart = rw es Apart-added;
        differ = rw es Differ-added;
        counted = omega (arith, total, ap count_used es, count, v.counted);
        same_count = omega (arith, total, v.counted, v.same_count);
      }

  pub find_file-added : find_file (added raid name blsize p) name ≡ some p
  find_file-added =
      let same : cmp_file name fresh ≡ true =
        (cmp_file-cstr name fresh).1 (sym (cstr-memcpy_bytes name_length name)) in
      let (m, at, found) =
        entry_where-written (cmp_file name) is_free 0 p.disk (active raid) p.slot fresh c.slot
          (find_file-none raid name c.is_new) same in
      let here : record { disk = m; slot = p.slot } ≡ p = ground arith in
      find_file-written raid name (u8 (total_files raid + 1)) (u32 (raid.num_files + 1)) p
        (λ _. fresh)
      ∙ subst
          (λ q. entry_where (cmp_file name) 0 (modify_entry q (λ _. fresh) (active raid)) ≡ some p)
          here found
