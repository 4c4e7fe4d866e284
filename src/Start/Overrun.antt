-- ===== src/Start/Overrun.antt =====
-- src/main.c: more namespaces than the raid has room for.
use nvme_dpdk_pcapreplay.Prelude.{
  ℕ, zero, suc, ◌+◌, ◌≤◌, ◌<◌, ◌≡◌, ◌⊎◌, refl, sym, ap, ◌∙◌, inl, inr, true, Option, none, some,
  List, [], ◌∷◌, ◌++◌, map, leb, length, take, arith, Bool-cases,
}
use mathlib.Core.Path.{subst₂}
use mathlib.Core.List.{append_assoc, append-nil}
use nvme_dpdk_pcapreplay.Layout.{Idisk, NvmeRaid, handles, max_disks}
use nvme_dpdk_pcapreplay.Start.{
  Namespace, Controller, my_raid, register_ns, register_all, attach_cb, probe_cb, probe,
}
use nvme_dpdk_pcapreplay.Start.Attached.{
  usable, usable-cons, all_usable, sectors, all_sectors, count_active, Holds, my_raid-Holds,
  register_ns-Holds,
}

-- The write went behind the array, or the raid holds these disks.
abbrev pub HoldsOrNone : Option NvmeRaid → List (ℕ × ℕ × ℕ) → ℕ → Type 0
HoldsOrNone r ds blocks = (r ≡ none) ⊎ ((raid : NvmeRaid) × (r ≡ some raid) × Holds raid ds blocks)

length-take : (k : ℕ) (ds : List Idisk) → length (map handles (take k ds)) ≤ length ds
length-take zero ds = omega arith
length-take (suc k) [] = omega arith
length-take (suc k) (d ∷ ds) = omega (arith, length-take k ds)

Holds-few :
    (raid : NvmeRaid) (ds : List (ℕ × ℕ × ℕ)) (blocks : ℕ)
    → Holds raid ds blocks
    → length ds ≤ max_disks
Holds-few raid ds blocks h =
    omega (arith, ap length h.disks, h.array, length-take raid.numdisks raid.disk)

register_ns-HoldsOrNone :
    (ctrlr : ℕ) (n : Namespace) (raid : NvmeRaid) (ds : List (ℕ × ℕ × ℕ)) (blocks : ℕ)
    → Holds raid ds blocks
    → HoldsOrNone
        (register_ns ctrlr n raid)
        (ds ++ usable ctrlr (n ∷ []))
        (blocks + sectors (n ∷ []))
unfolding register_ns
register_ns-HoldsOrNone ctrlr n raid ds blocks h =
    elim (Bool-cases (leb (length ds + count_active (n ∷ [])) max_disks)) [
      | inl space ↦ inr (register_ns-Holds ctrlr n raid ds blocks h (ground arith))
      | inr full ↦ elim (Bool-cases n.is_active) [
        | inl on ↦
            let past : leb max_disks raid.numdisks ≡ true =
              ground (arith, h.count, on, Holds-few raid ds blocks h) in
            inl (rw (on, past))
        | inr off ↦ absurd (ground (arith, off, Holds-few raid ds blocks h))
      ]
    ]

register_all-HoldsOrNone :
    (ctrlr : ℕ) (ns : List Namespace) (raid : NvmeRaid) (ds : List (ℕ × ℕ × ℕ)) (blocks : ℕ)
    → Holds raid ds blocks
    → HoldsOrNone (register_all ctrlr ns raid) (ds ++ usable ctrlr ns) (blocks + sectors ns)
unfolding register_all
register_all-HoldsOrNone ctrlr [] raid ds blocks h =
    inr (raid, refl, subst₂ (Holds raid) (sym (append-nil ds)) (omega arith) h)
register_all-HoldsOrNone ctrlr (n ∷ ns) raid ds blocks h =
    elim (register_ns-HoldsOrNone ctrlr n raid ds blocks h) [
      | inl past ↦ inl (rw (register_all, past))
      | inr (raid1, e, h1) ↦
          rw (register_all, e)
            (subst₂ (HoldsOrNone (register_all ctrlr ns raid1))
              (append_assoc ds (usable ctrlr (n ∷ [])) (usable ctrlr ns)
                ∙ ap (λ ys. ds ++ ys) (sym (usable-cons ctrlr n ns)))
              (omega arith)
              (register_all-HoldsOrNone ctrlr ns raid1 (ds ++ usable ctrlr (n ∷ []))
                (blocks + sectors (n ∷ [])) h1))
    ]

probe-HoldsOrNone :
    (cs : List Controller) (raid : NvmeRaid) (ds : List (ℕ × ℕ × ℕ)) (blocks : ℕ)
    → Holds raid ds blocks
    → HoldsOrNone (probe cs raid) (ds ++ all_usable cs) (blocks + all_sectors cs)
unfolding probe attach_cb probe_cb
probe-HoldsOrNone [] raid ds blocks h =
    inr (raid, refl, subst₂ (Holds raid) (sym (append-nil ds)) (omega arith) h)
probe-HoldsOrNone (c ∷ cs) raid ds blocks h =
    elim (register_all-HoldsOrNone c.ctrlr c.namespaces raid ds blocks h) [
      | inl past ↦ inl (rw (probe, past))
      | inr (raid1, e, h1) ↦
          rw (probe, e)
            (subst₂ (HoldsOrNone (probe cs raid1))
              (append_assoc ds (usable c.ctrlr c.namespaces) (all_usable cs)) (omega arith)
              (probe-HoldsOrNone cs raid1 (ds ++ usable c.ctrlr c.namespaces)
                (blocks + sectors c.namespaces) h1))
    ]

-- When more than 8 of the namespaces that SPDK finds are active and have a queue pair, the program
-- writes behind the array of disks.
pub probe-past_array :
    (cs : List Controller) → max_disks < length (all_usable cs) → probe cs my_raid ≡ none
probe-past_array cs many = elim (probe-HoldsOrNone cs my_raid [] 0 my_raid-Holds) [
  | inl past ↦ past
  | inr (raid, e, h) ↦ absurd (omega (arith, many, Holds-few raid (all_usable cs) _ h))
]
