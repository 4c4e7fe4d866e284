-- ===== src/Table/Files/Lookup.antt =====
-- src/fs.c, `findFile` before and after a change of one entry.
use nvme_dpdk_pcapreplay.Prelude.{
  ℕ, zero, suc, ◌+◌, ◌≡◌, ◌≢◌, ◌↔◌, refl, ap, ◌∙◌, inl, inr, Bool, true, false, none, some, List,
  [], ◌∷◌, ◌++◌, arith, modify, take, take-modify, Option-cases, Bool-cases,
}
use nvme_dpdk_pcapreplay.Layout.{MetaFile, Idisk, NvmeRaid, active, name_length}
use nvme_dpdk_pcapreplay.Table.{
  EntryRef, slot_where, entry_where, modify_entry, set_total, find_file, cmp_file, is_free,
  first_char,
}
use nvme_dpdk_pcapreplay.Table.Names.{cstr, strncmp_eq-cstr}
use nvme_dpdk_pcapreplay.Table.Search.{
  entries, All, Found, entry_where_start-Found, entry_where-none,
}

-- An entry answers to a name exactly when the two strings are equal.
pub cmp_file-cstr :
    (name : List ℕ) (e : MetaFile)
    → cmp_file name e ≡ true ↔ cstr name_length name ≡ cstr name_length e.name
unfolding cmp_file
cmp_file-cstr name e = strncmp_eq-cstr name_length name e.name

-- `findFile` leads to the first entry with the name.
pub find_file-Found :
    (raid : NvmeRaid) (name : List ℕ) (p : EntryRef)
    → find_file raid name ≡ some p
    → Found (cmp_file name) (entries (active raid)) (λ f. entries (modify_entry p f (active raid)))
unfolding find_file
find_file-Found raid name p e = entry_where_start-Found (cmp_file name) (active raid) p e

-- It returns NULL only if no entry has the name.
pub find_file-none :
    (raid : NvmeRaid) (name : List ℕ)
    → find_file raid name ≡ none
    → All (λ e. cmp_file name e ≡ false) (entries (active raid))
unfolding find_file
find_file-none raid name e = entry_where-none (cmp_file name) 0 (active raid) e

-- A name that is not empty does not match a free entry.
pub cmp_file-free :
    (name : List ℕ) (e : MetaFile)
    → first_char name ≢ 0
    → is_free e ≡ true
    → cmp_file name e ≡ false
cmp_file-free name e h free = elim (Bool-cases (cmp_file name e)) [
  | inl same ↦ absurd (empty name e.name h (ground arith) ((cmp_file-cstr name e).0 same))
  | inr other ↦ other
]
  where
    empty :
        (a b : List ℕ)
        → first_char a ≢ 0
        → first_char b ≡ 0
        → cstr name_length a ≢ cstr name_length b
    empty [] b p q e = p refl
    empty (c ∷ cs) [] p q e = ground arith
    empty (c ∷ cs) (d ∷ ds) p q e = ground arith

module _ (test : MetaFile → Bool) where
  slot_where-All : (es : List MetaFile) → All (λ e. test e ≡ false) es → slot_where test es ≡ none
  unfolding slot_where
  slot_where-All [] h = refl
  slot_where-All (e ∷ es) h = ground (arith, slot_where-All es)

  All-front :
      (xs ys : List MetaFile)
      → All (λ e. test e ≡ false) (xs ++ ys)
      → All (λ e. test e ≡ false) xs × All (λ e. test e ≡ false) ys
  All-front [] ys h = (tt, h)
  All-front (x ∷ xs) ys h = let (a, b) = All-front xs ys h.1 in ((h.0, a), b)

  -- A search that every entry fails finds nothing.
  pub entry_where-All :
      (i : ℕ) (ds : List Idisk)
      → All (λ e. test e ≡ false) (entries ds)
      → entry_where test i ds ≡ none
  unfolding entry_where
  entry_where-All i [] h = refl
  entry_where-All i (d ∷ ds) h =
      let (a, b) = All-front d.msector.content (entries ds) h in
      ground (arith, slot_where-All d.msector.content a, entry_where-All (suc i) ds b)

  -- An entry that is written where another search stopped is the one that is found, when all the
  -- others fail.
  slot_where-written :
      (other : MetaFile → Bool) (es : List MetaFile) (j : ℕ) (f : MetaFile)
      → slot_where other es ≡ some j
      → All (λ e. test e ≡ false) es
      → test f ≡ true
      → slot_where test (modify j (λ _. f) es) ≡ some j
  unfolding slot_where
  slot_where-written other [] j f e h t = cc
  slot_where-written other (x ∷ xs) zero f e h t = rw t
  slot_where-written other (x ∷ xs) (suc j) f e h t =
      let rest : slot_where other xs ≡ some j = ground arith in
      rw (h.0, slot_where-written other xs j f rest h.1 t)

  slot_where-some :
      (other : MetaFile → Bool) (i : ℕ) (d : Idisk) (ds : List Idisk) (j : ℕ)
      → slot_where other d.msector.content ≡ some j
      → entry_where other i (d ∷ ds) ≡ some (record { disk = i; slot = j })
  unfolding entry_where
  slot_where-some other i d ds j e = rw (entry_where, e)

  pub entry_where-written :
      (other : MetaFile → Bool) (i k : ℕ) (ds : List Idisk) (j : ℕ) (f : MetaFile)
      → entry_where other i ds ≡ some (record { disk = k; slot = j })
      → All (λ e. test e ≡ false) (entries ds)
      → test f ≡ true
      → (m : ℕ) × (k ≡ i + m)
        × (entry_where test i (modify_entry (record { disk = m; slot = j }) (λ _. f) ds)
            ≡ some (record { disk = k; slot = j }))
  unfolding entry_where modify_entry
  entry_where-written other i k [] j f e h t = cc
  entry_where-written other i k (d ∷ ds) j f e h t =
      let (a, b) = All-front d.msector.content (entries ds) h in
      elim (Option-cases (slot_where other d.msector.content)) [
        | inl missed ↦
            let rest : entry_where other (suc i) ds ≡ some (record { disk = k; slot = j }) =
              ground arith in
            let (m, at, r) = entry_where-written other (suc i) k ds j f rest b t in
            (suc m, omega arith, rw (entry_where, slot_where-All d.msector.content a) r)
        | inr (j', hit) ↦
            let here : j' ≡ j = ground arith in
            let first : k ≡ i = ground arith in
            (
              0,
              omega arith,
              rw (
                entry_where,
                slot_where-written other d.msector.content j f (hit ∙ ap some here) a t,
                first,
              ),
            )
      ]

  -- The counters of the tables do not matter to a search.
  pub entry_where-total :
      (i j k : ℕ) (ds : List Idisk)
      → entry_where test i
          (modify j (λ d. record d { msector = record d.msector { total_files = k } }) ds)
        ≡ entry_where test i ds
  unfolding entry_where
  entry_where-total i j k [] = refl
  entry_where-total i zero k (d ∷ ds) = refl
  entry_where-total i (suc j) k (d ∷ ds) = ground (arith, entry_where-total (suc i) j k ds)

-- Counters apart, a search after a write is a search of the written tables in use.
pub find_file-written :
    (raid : NvmeRaid) (name : List ℕ) (k n : ℕ) (p : EntryRef) (f : MetaFile → MetaFile)
    → find_file
        (record raid { disk = set_total k (modify_entry p f raid.disk); num_files = n })
        name
      ≡ entry_where (cmp_file name) 0 (modify_entry p f (active raid))
unfolding find_file set_total modify_entry
find_file-written raid name k n p f =
    let write : Idisk → Idisk = λ d. record d {
      msector = record d.msector { content = modify p.slot f d.msector.content };
    } in
    ap (entry_where (cmp_file name) 0)
      (take-modify raid.numdisks 0 _ (modify p.disk write raid.disk))
    ∙ entry_where-total (cmp_file name) 0 0 k (take raid.numdisks (modify p.disk write raid.disk))
    ∙ ap (entry_where (cmp_file name) 0) (take-modify raid.numdisks p.disk write raid.disk)
