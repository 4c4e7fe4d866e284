-- ===== src/Tools/Programs/New.antt =====
-- src/main.c: the tables of the raid that `main` hands to a tool are new, and of their full size.
use nvme_dpdk_pcapreplay.Prelude.{
  ℕ, zero, suc, ◌*◌, ◌≤◌, ◌≡◌, ◌≢◌, refl, inl, inr, some, Option, List, [], ◌∷◌, leb, length,
  length-append, take, modify, map, arith, Bool-cases, Option-cases,
}
use mathlib.Core.Path.{subst}
use nvme_dpdk_pcapreplay.Layout.{Idisk, NvmeRaid, handles, max_files, max_disks}
use nvme_dpdk_pcapreplay.Table.Search.{entries}
use nvme_dpdk_pcapreplay.Fs.Reads.{Each, DifferentNs, SameHandles}
use nvme_dpdk_pcapreplay.Start.{
  Namespace, Controller, my_raid, set_handles, register_ns, register_all, attach_cb, probe_cb,
  probe,
}

-- Tables of twelve entries, and no files.
pub record IsNew (raid : NvmeRaid) : Type 0 where
  pub tables : Each (λ d. length d.msector.content ≡ max_files) raid.disk
  pub no_files : raid.num_files ≡ 0

some-injective : {a b : NvmeRaid} → ◌≡◌ {A = Option NvmeRaid} (some a) (some b) → a ≡ b
some-injective e = cc

Each-modify :
    (P : Idisk → Type 0) (i : ℕ) (f : Idisk → Idisk) (ds : List Idisk)
    → ((d : Idisk) → P d → P (f d))
    → Each P ds
    → Each P (modify i f ds)
Each-modify P i f [] keep h = tt
Each-modify P zero f (d ∷ ds) keep h = (keep d h.0, h.1)
Each-modify P (suc i) f (d ∷ ds) keep h = (h.0, Each-modify P i f ds keep h.1)

set_handles-tables :
    (ctrlr ns q : ℕ) (raid : NvmeRaid)
    → IsNew raid
    → Each (λ d. length d.msector.content ≡ max_files) (set_handles ctrlr ns q raid).disk
unfolding set_handles
set_handles-tables ctrlr ns q raid h =
    Each-modify (λ d. length d.msector.content ≡ max_files) raid.numdisks _ raid.disk
      (λ d same. same) h.tables

register_ns-IsNew :
    (ctrlr : ℕ) (n : Namespace) (raid raid' : NvmeRaid)
    → register_ns ctrlr n raid ≡ some raid'
    → IsNew raid
    → IsNew raid'
unfolding register_ns set_handles
register_ns-IsNew ctrlr n raid raid' e h = elim (Bool-cases n.is_active) [
  | inr off ↦ subst IsNew (some-injective (rw (register_ns, off) at e)) h
  | inl on ↦ elim (Bool-cases (leb max_disks raid.numdisks)) [
    | inl past ↦ absurd (ground (arith, e, on, past))
    | inr inside ↦ elim (Option-cases n.io_qpair) [
      | inl no_pair ↦
          subst IsNew (some-injective (rw (register_ns, on, inside, no_pair) at e))
            (record { tables = set_handles-tables ctrlr n.ns 0 raid h; no_files = h.no_files })
      | inr (q, pair) ↦
          subst IsNew (some-injective (rw (register_ns, on, inside, pair) at e))
            (record { tables = set_handles-tables ctrlr n.ns q raid h; no_files = h.no_files })
    ]
  ]
]

register_all-IsNew :
    (ctrlr : ℕ) (ns : List Namespace) (raid raid' : NvmeRaid)
    → register_all ctrlr ns raid ≡ some raid'
    → IsNew raid
    → IsNew raid'
unfolding register_all
register_all-IsNew ctrlr [] raid raid' e h = subst IsNew (cc) h
register_all-IsNew ctrlr (n ∷ ns) raid raid' e h = elim (Option-cases (register_ns ctrlr n raid)) [
  | inl past ↦ absurd (ground (arith, e, past))
  | inr (raid1, one) ↦
      register_all-IsNew ctrlr ns raid1 raid' (rw (register_all, one) at e)
        (register_ns-IsNew ctrlr n raid raid1 one h)
]

probe-IsNew :
    (cs : List Controller) (raid raid' : NvmeRaid)
    → probe cs raid ≡ some raid'
    → IsNew raid
    → IsNew raid'
unfolding probe attach_cb probe_cb
probe-IsNew [] raid raid' e h = subst IsNew (cc) h
probe-IsNew (c ∷ cs) raid raid' e h = elim (Option-cases (register_all c.ctrlr c.namespaces raid)) [
  | inl past ↦ absurd (ground (arith, e, past))
  | inr (raid1, one) ↦
      probe-IsNew cs raid1 raid' (rw (probe, one) at e)
        (register_all-IsNew c.ctrlr c.namespaces raid raid1 one h)
]

pub probe-my_raid-IsNew :
    (cs : List Controller) (raid : NvmeRaid) → probe cs my_raid ≡ some raid → IsNew raid
probe-my_raid-IsNew cs raid e = probe-IsNew cs my_raid raid e (record {
  tables = (refl, (refl, (refl, (refl, (refl, (refl, (refl, (refl, tt))))))));
  no_files = refl;
})

pub length-entries-take :
    (n : ℕ) (ds : List Idisk)
    → n ≤ length ds
    → Each (λ d. length d.msector.content ≡ max_files) ds
    → length (entries (take n ds)) ≡ max_files * n
length-entries-take zero ds le h = refl
length-entries-take (suc n) [] le h = absurd (omega arith)
length-entries-take (suc n) (d ∷ ds) le h = omega (
  arith,
  length-append d.msector.content (entries (take n ds)),
  length-entries-take n ds (omega arith) h.1,
  h.0,
)

-- The namespaces of all of them are other than this one.
abbrev Others : ℕ → List (ℕ × ℕ × ℕ) → Type 0
Others ns [] = Unit
Others ns (x ∷ xs) = (x.1 ≢ ns) × Others ns xs

-- No two have the same namespace.
abbrev pub DifferentHandles : List (ℕ × ℕ × ℕ) → Type 0
DifferentHandles [] = Unit
DifferentHandles (x ∷ xs) = Others x.1 xs × DifferentHandles xs

Others-Each : (ns : ℕ) (ds : List Idisk) → Others ns (map handles ds) → Each (λ d. d.ns ≢ ns) ds
Others-Each ns [] h = tt
Others-Each ns (d ∷ ds) h = (h.0, Others-Each ns ds h.1)

pub DifferentNs-handles : (ds : List Idisk) → DifferentHandles (map handles ds) → DifferentNs ds
DifferentNs-handles [] h = tt
DifferentNs-handles (d ∷ ds) h = (Others-Each d.ns ds h.0, DifferentNs-handles ds h.1)

pub SameHandles-handles : (ds es : List Idisk) → map handles ds ≡ map handles es → SameHandles ds es
SameHandles-handles [] [] e = tt
SameHandles-handles [] (y ∷ ys) e = cc
SameHandles-handles (x ∷ xs) [] e = cc
SameHandles-handles (x ∷ xs) (y ∷ ys) e = (cc, SameHandles-handles xs ys (cc))
