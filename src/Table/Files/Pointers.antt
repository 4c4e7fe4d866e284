-- ===== src/Table/Files/Pointers.antt =====
-- src/fs.c, `addFile`: the entry behind the pointer that it returns.
use nvme_dpdk_pcapreplay.Prelude.{
  ℕ, zero, suc, ◌+◌, ◌<◌, ◌≡◌, refl, sym, ap, ◌∙◌, Bool, some, List, [], ◌∷◌, inl, inr, length,
  take, get_or, modify, arith, Bool-cases, Option-cases,
}
use mathlib.Core.Path.{subst}
use nvme_dpdk_pcapreplay.Layout.{MetaFile, Idisk, NvmeRaid, null_disk, active}
use nvme_dpdk_pcapreplay.Table.{
  EntryRef, entry_at, slot_where, entry_where, modify_entry, set_total, is_free, new_entry,
  add_entry,
}
use nvme_dpdk_pcapreplay.Table.Files.Guards.{add_entry-CanAdd}

get_or-modify :
    {A : Type 0} (i : ℕ) (f : A → A) (xs : List A) (d : A)
    → i < length xs
    → get_or (modify i f xs) i d ≡ f (get_or xs i d)
get_or-modify i f [] d lt = absurd (omega arith)
get_or-modify zero f (x ∷ xs) d lt = refl
get_or-modify (suc i) f (x ∷ xs) d lt = get_or-modify i f xs d (omega arith)

get_or-take :
    {A : Type 0} (n i : ℕ) (xs : List A) (d : A)
    → i < length (take n xs)
    → (get_or (take n xs) i d ≡ get_or xs i d) × (i < length xs)
get_or-take zero i xs d lt = absurd (omega arith)
get_or-take (suc n) i [] d lt = absurd (omega arith)
get_or-take (suc n) zero (x ∷ xs) d lt = (refl, omega arith)
get_or-take (suc n) (suc i) (x ∷ xs) d lt =
    let (e, lt') = get_or-take n i xs d (omega arith) in (e, omega (arith, lt'))

slot_where-inside :
    (test : MetaFile → Bool) (es : List MetaFile) (j : ℕ)
    → slot_where test es ≡ some j
    → j < length es
unfolding slot_where
slot_where-inside test [] j e = cc
slot_where-inside test (x ∷ xs) j e = elim (Bool-cases (test x)) [
  | inl hit ↦ ground (arith, hit, e)
  | inr missed ↦ elim (Option-cases (slot_where test xs)) [
    | inl nowhere ↦ ground (arith, nowhere, missed, e)
    | inr (k, found) ↦
        let inside = slot_where-inside test xs k found in ground (arith, inside, found, missed, e)
  ]
]

-- Where the search stops.
abbrev table_of : List Idisk → ℕ → List MetaFile
table_of ds i = (get_or ds i null_disk).msector.content

entry_where-inside :
    (test : MetaFile → Bool) (i : ℕ) (ds : List Idisk) (p : EntryRef)
    → entry_where test i ds ≡ some p
    → (k : ℕ) × (p.disk ≡ i + k) × (k < length ds) × (p.slot < length (table_of ds k))
unfolding entry_where
entry_where-inside test i [] p e = cc
entry_where-inside test i (d ∷ ds) p e = elim (Option-cases (slot_where test d.msector.content)) [
  | inr (j, hit) ↦
      let disk : p.disk ≡ i = ground arith in
      let slot : p.slot ≡ j = ground arith in
      (
        0,
        omega (arith, disk),
        omega arith,
        subst (λ k. k < length d.msector.content) (sym slot)
            (slot_where-inside test d.msector.content j hit),
      )
  | inl missed ↦
      let (k, disk, lt, inside) = entry_where-inside test (suc i) ds p (ground arith) in
      (suc k, omega (arith, disk), omega (arith, lt), inside)
]

set_total-table : (n i : ℕ) (ds : List Idisk) → table_of (set_total n ds) i ≡ table_of ds i
unfolding set_total
set_total-table n i [] = refl
set_total-table n zero (d ∷ ds) = refl
set_total-table n (suc i) (d ∷ ds) = refl

modify_entry-table :
    (p : EntryRef) (f : MetaFile → MetaFile) (ds : List Idisk)
    → p.disk < length ds
    → table_of (modify_entry p f ds) p.disk ≡ modify p.slot f (table_of ds p.disk)
unfolding modify_entry
modify_entry-table p f ds lt =
    ap (λ (d : Idisk). d.msector.content) (get_or-modify p.disk _ ds null_disk lt)

-- The entry that `addFile` returns a pointer to is the one that it has written.
pub entry_at-add_entry :
    (raid : NvmeRaid) (name : List ℕ) (blsize : ℕ) (p : EntryRef) (raid' : NvmeRaid)
    → add_entry raid name blsize ≡ some (p, raid')
    → entry_at raid' p ≡ new_entry raid name blsize
entry_at-add_entry raid name blsize p raid' e =
    let (c, is) = add_entry-CanAdd raid name blsize p raid' e in
    let (k, disk, lt, inside) = entry_where-inside is_free 0 (active raid) p c.slot in
    let here : k ≡ p.disk = omega (arith, disk) in
    let (same, lt') =
      get_or-take raid.numdisks p.disk raid.disk null_disk
        (subst (λ i. i < length (active raid)) here lt) in
    let file : MetaFile = new_entry raid name blsize in
    let slot : p.slot < length (table_of raid.disk p.disk) =
      subst (λ (d : Idisk). p.slot < length d.msector.content) same
        (subst (λ i. p.slot < length (table_of (active raid) i)) here inside) in
    let none_there : MetaFile = record { name = []; start_block = 0; end_block = 0 } in
    let table : table_of raid'.disk p.disk ≡ modify p.slot (λ _. file) (table_of raid.disk p.disk) =
      ap (λ (r : NvmeRaid). table_of r.disk p.disk) is
      ∙ set_total-table _ p.disk (modify_entry p (λ _. file) raid.disk)
      ∙ modify_entry-table p (λ _. file) raid.disk lt' in
    ap (λ t. get_or t p.slot none_there) table
    ∙ get_or-modify p.slot (λ _. file) (table_of raid.disk p.disk) none_there slot
