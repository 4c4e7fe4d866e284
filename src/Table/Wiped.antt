-- ===== src/Table/Wiped.antt =====
-- src/fs.c: the tables after `initMeta`.
use nvme_dpdk_pcapreplay.Prelude.{
  ℕ, suc, ◌≡◌, refl, ap, true, List, [], ◌∷◌, inl, arith, length, length-append,
}
use nvme_dpdk_pcapreplay.Layout.{MetaFile, Idisk, u8}
use nvme_dpdk_pcapreplay.Table.{clear_entry, clear_entries, init_meta, is_free}
use nvme_dpdk_pcapreplay.Table.Search.{All, All-append, entries}
use nvme_dpdk_pcapreplay.Table.Invariant.{
  Pairwise, Apart, Differ, InRange, All-imp, used, count_used,
}
use nvme_dpdk_pcapreplay.Table.Files.{is_free-clear_entry}

-- A free entry without blocks.
pub record Cleared (e : MetaFile) : Type 0 where
  pub free : is_free e ≡ true
  pub starts : e.start_block ≡ 0
  pub ends : e.end_block ≡ 0

clear_entry-Cleared : (e : MetaFile) → Cleared (clear_entry e)
unfolding clear_entry
clear_entry-Cleared e = record {
  free = unfold clear_entry in is_free-clear_entry e;
  starts = refl;
  ends = refl;
}

clear_entries-Cleared : (es : List MetaFile) → All Cleared (clear_entries es)
unfolding clear_entries
clear_entries-Cleared [] = tt
clear_entries-Cleared (e ∷ es) = (clear_entry-Cleared e, clear_entries-Cleared es)

length-clear_entries : (es : List MetaFile) → length (clear_entries es) ≡ length es
unfolding clear_entries
length-clear_entries [] = refl
length-clear_entries (e ∷ es) = ap suc (length-clear_entries es)

-- The disks with new tables, numbered from `i`.
abbrev pub wiped_from : ℕ → ℕ → List Idisk → List Idisk
wiped_from n i [] = []
wiped_from n i (d ∷ ds) =
    record d { msector = init_meta d.msector (u8 i) (u8 n) } ∷ wiped_from n (suc i) ds

pub length-wiped_from : (n i : ℕ) (ds : List Idisk) → length (wiped_from n i ds) ≡ length ds
length-wiped_from n i [] = refl
length-wiped_from n i (d ∷ ds) = ap suc (length-wiped_from n (suc i) ds)

pub wiped_from-Cleared : (n i : ℕ) (ds : List Idisk) → All Cleared (entries (wiped_from n i ds))
unfolding init_meta
wiped_from-Cleared n i [] = tt
wiped_from-Cleared n i (d ∷ ds) =
    All-append Cleared (clear_entries d.msector.content) (entries (wiped_from n (suc i) ds))
      (clear_entries-Cleared d.msector.content) (wiped_from-Cleared n (suc i) ds)

pub length-entries-wiped_from :
    (n i : ℕ) (ds : List Idisk) → length (entries (wiped_from n i ds)) ≡ length (entries ds)
unfolding init_meta
length-entries-wiped_from n i [] = refl
length-entries-wiped_from n i (d ∷ ds) = omega (
  arith,
  length-append (clear_entries d.msector.content) (entries (wiped_from n (suc i) ds)),
  length-append d.msector.content (entries ds),
  length-clear_entries d.msector.content,
  length-entries-wiped_from n (suc i) ds,
)

-- Entries that are all clear break no rule.
pub Cleared-InRange :
    (low high : ℕ) (es : List MetaFile) → All Cleared es → All (InRange low high) es
Cleared-InRange low high es h =
    All-imp Cleared (InRange low high) es
      (λ e c. record {
        ordered = omega (arith, c.starts, c.ends);
        inside = omega (arith, c.ends);
        empty = λ free. c.ends;
        above = λ busy. ground (arith, c.free);
      })
      h

pub Cleared-Apart : (es : List MetaFile) → All Cleared es → Pairwise Apart es
Cleared-Apart [] h = tt
Cleared-Apart (e ∷ es) h = (
  All-imp Cleared (Apart e) es (λ f c. inl (omega (arith, h.0.ends, c.starts))) h.1,
  Cleared-Apart es h.1,
)

pub Cleared-Differ : (es : List MetaFile) → All Cleared es → Pairwise Differ es
Cleared-Differ [] h = tt
Cleared-Differ (e ∷ es) h = (
  All-imp Cleared (Differ e) es (λ f c busy busy'. absurd (ground (arith, c.free))) h.1,
  Cleared-Differ es h.1,
)

pub count_used-Cleared : (es : List MetaFile) → All Cleared es → count_used es ≡ 0
count_used-Cleared [] h = refl
count_used-Cleared (e ∷ es) h =
    let free : is_free e ≡ true = h.0.free in
    let none_used : used e ≡ 0 = ground arith in omega (arith, count_used-Cleared es h.1)
