-- ===== src/Table/Search.antt =====
-- src/fs.c: what a search through the raid's tables finds, in the order of the disks and of the
-- slots.
use nvme_dpdk_pcapreplay.Prelude.{
  ℕ, zero, suc, ◌+◌, ◌≡◌, refl, ap, inl, inr, Bool, true, false, none, some, List, [], ◌∷◌, ◌++◌,
  arith, modify, Option-cases,
}
use mathlib.Core.Path.{subst}
use mathlib.Core.List.{append_assoc}
use nvme_dpdk_pcapreplay.Layout.{MetaFile, Idisk}
use nvme_dpdk_pcapreplay.Table.{EntryRef, slot_where, entry_where, modify_entry}

-- Every entry of these disks' tables.
abbrev pub entries : List Idisk → List MetaFile
entries [] = []
entries (d ∷ ds) = d.msector.content ++ entries ds

abbrev pub All : (MetaFile → Type 0) → List MetaFile → Type 0
All P [] = Unit
All P (x ∷ xs) = P x × All P xs

pub All-append :
    (P : MetaFile → Type 0) (es fs : List MetaFile) → All P es → All P fs → All P (es ++ fs)
All-append P [] fs left right = right
All-append P (e ∷ es) fs left right = (left.0, All-append P es fs left.1 right)

pub All-split :
    (P : MetaFile → Type 0) (es fs : List MetaFile) → All P (es ++ fs) → All P es × All P fs
All-split P [] fs all = (tt, all)
All-split P (e ∷ es) fs all = let (left, right) = All-split P es fs all.1 in ((all.0, left), right)

-- The search passed over `before` and stopped at `hit`; a change there changes nothing else.
pub record Found (test : MetaFile → Bool) (es : List MetaFile)
    (change : (MetaFile → MetaFile) → List MetaFile) : Type 0 where
  pub before : List MetaFile
  pub hit : MetaFile
  pub after : List MetaFile
  pub whole : es ≡ before ++ hit ∷ after
  pub passes : test hit ≡ true
  pub first : All (λ e. test e ≡ false) before
  pub changed : (f : MetaFile → MetaFile) → change f ≡ before ++ f hit ∷ after

module _ (test : MetaFile → Bool) where
  Found-cons :
      (x : MetaFile) (es : List MetaFile) (change : (MetaFile → MetaFile) → List MetaFile)
      → test x ≡ false
      → Found test es change
      → Found test (x ∷ es) (λ f. x ∷ change f)
  Found-cons x es change missed r = record {
    before = x ∷ r.before;
    hit = r.hit;
    after = r.after;
    whole = ap (λ l. x ∷ l) r.whole;
    passes = r.passes;
    first = (missed, r.first);
    changed = λ f. ap (λ l. x ∷ l) (r.changed f);
  }

  Found-append :
      (es fs : List MetaFile) (change : (MetaFile → MetaFile) → List MetaFile)
      → Found test es change
      → Found test (es ++ fs) (λ f. change f ++ fs)
  Found-append es fs change r = record {
    before = r.before;
    hit = r.hit;
    after = r.after ++ fs;
    whole = rw r.whole (append_assoc r.before (r.hit ∷ r.after) fs);
    passes = r.passes;
    first = r.first;
    changed = λ f. rw (r.changed f) (append_assoc r.before (f r.hit ∷ r.after) fs);
  }

  Found-after :
      (fs es : List MetaFile) (change : (MetaFile → MetaFile) → List MetaFile)
      → All (λ e. test e ≡ false) fs
      → Found test es change
      → Found test (fs ++ es) (λ f. fs ++ change f)
  Found-after [] es change missed r = r
  Found-after (x ∷ fs) es change missed r =
      Found-cons x (fs ++ es) (λ f. fs ++ change f) missed.0 (Found-after fs es change missed.1 r)

  slot_where-Found :
      (es : List MetaFile) (j : ℕ)
      → slot_where test es ≡ some j
      → Found test es (λ f. modify j f es)
  unfolding slot_where
  slot_where-Found [] j e = cc
  slot_where-Found (x ∷ xs) zero e = record {
    before = [];
    hit = x;
    after = xs;
    whole = refl;
    passes = ground arith;
    first = tt;
    changed = λ f. refl;
  }
  slot_where-Found (x ∷ xs) (suc j) e =
      let missed : test x ≡ false = ground arith in
      let rest : slot_where test xs ≡ some j = ground arith in
      Found-cons x xs (λ f. modify j f xs) missed (slot_where-Found xs j rest)

  slot_where-none : (es : List MetaFile) → slot_where test es ≡ none → All (λ e. test e ≡ false) es
  unfolding slot_where
  slot_where-none [] e = tt
  slot_where-none (x ∷ xs) e = ground (arith, slot_where-none xs)

  -- The reference that comes back, counted from disk `i`, leads to the entry.
  entry_where-Found :
      (i : ℕ) (ds : List Idisk) (p : EntryRef)
      → entry_where test i ds ≡ some p
      → (k : ℕ) × (p.disk ≡ i + k)
        × Found test
            (entries ds)
            (λ f. entries (modify_entry (record { disk = k; slot = p.slot }) f ds))
  unfolding entry_where modify_entry
  entry_where-Found i [] p e = cc
  entry_where-Found i (d ∷ ds) p e = elim (Option-cases (slot_where test d.msector.content)) [
    | inl missed ↦
        let rest : entry_where test (suc i) ds ≡ some p = ground arith in
        let (k, at, r) = entry_where-Found (suc i) ds p rest in
        (
          suc k,
          omega arith,
          Found-after d.msector.content (entries ds) _ (slot_where-none d.msector.content missed) r,
        )
    | inr (j, hit) ↦
        let here : p ≡ record { disk = i; slot = j } = ground arith in
        (
          0,
          ground arith,
          rw here (
              Found-append d.msector.content (entries ds) _
                (slot_where-Found d.msector.content j hit)),
        )
  ]

  -- A search that finds nothing has passed over every entry.
  pub entry_where-none :
      (i : ℕ) (ds : List Idisk)
      → entry_where test i ds ≡ none
      → All (λ e. test e ≡ false) (entries ds)
  unfolding entry_where
  entry_where-none i [] e = tt
  entry_where-none i (d ∷ ds) e = elim (Option-cases (slot_where test d.msector.content)) [
    | inl missed ↦
        All-append (λ e. test e ≡ false) d.msector.content (entries ds)
          (slot_where-none d.msector.content missed) (entry_where-none (suc i) ds (ground arith))
    | inr (j, hit) ↦ absurd (ground arith)
  ]

  -- A search from the first disk.
  pub entry_where_start-Found :
      (ds : List Idisk) (p : EntryRef)
      → entry_where test 0 ds ≡ some p
      → Found test (entries ds) (λ f. entries (modify_entry p f ds))
  entry_where_start-Found ds p e =
      let (k, at, r) = entry_where-Found 0 ds p e in
      let here : record { disk = k; slot = p.slot } ≡ p = ground arith in
      subst (λ q. Found test (entries ds) (λ f. entries (modify_entry q f ds))) here r
