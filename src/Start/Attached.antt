-- ===== src/Start/Attached.antt =====
-- src/main.c: the raid after all controllers are attached.
use nvme_dpdk_pcapreplay.Prelude.{
  ℕ, zero, suc, ◌+◌, ◌%◌, ◌^◌, ◌≤◌, ◌<◌, ◌≡◌, refl, sym, ap, ◌∙◌, inl, inr, false, none, some, List,
  [], ◌∷◌, ◌++◌, map, leb, if◌then◌else◌, length, length-append, length-modify, take, modify, arith,
  Bool-cases, Option-cases,
}
use mathlib.Core.Path.{subst, subst₂}
use mathlib.Core.List.{append_assoc, append-nil}
use nvme_dpdk_pcapreplay.Layout.{Idisk, NvmeRaid, active, handles, max_disks, add_u64}
use nvme_dpdk_pcapreplay.Start.{
  Namespace, Controller, my_raid, set_handles, register_ns, register_all, attach_cb, probe_cb,
  probe,
}

-- The namespaces of a controller that are active, and have a queue pair.
abbrev pub usable : ℕ → List Namespace → List (ℕ × ℕ × ℕ)
usable ctrlr [] = []
usable ctrlr (n ∷ ns) =
    (if n.is_active then elim n.io_qpair [ none ↦ [] | some q ↦ (ctrlr, n.ns, q) ∷ [] ] else [])
    ++ usable ctrlr ns

abbrev pub all_usable : List Controller → List (ℕ × ℕ × ℕ)
all_usable [] = []
all_usable (c ∷ cs) = usable c.ctrlr c.namespaces ++ all_usable cs

-- Their sectors.
abbrev pub sectors : List Namespace → ℕ
sectors [] = 0
sectors (n ∷ ns) =
    (if n.is_active then elim n.io_qpair [ none ↦ 0 | some q ↦ n.num_sectors ] else 0) + sectors ns

abbrev pub all_sectors : List Controller → ℕ
all_sectors [] = 0
all_sectors (c ∷ cs) = sectors c.namespaces + all_sectors cs

-- How many namespaces are active.
abbrev pub count_active : List Namespace → ℕ
count_active [] = 0
count_active (n ∷ ns) = (if n.is_active then 1 else 0) + count_active ns

abbrev pub all_active : List Controller → ℕ
all_active [] = 0
all_active (c ∷ cs) = count_active c.namespaces + all_active cs

-- The raid holds these disks and blocks.
pub record Holds (raid : NvmeRaid) (ds : List (ℕ × ℕ × ℕ)) (blocks : ℕ) : Type 0 where
  pub disks : map handles (active raid) ≡ ds
  pub count : raid.numdisks ≡ length ds
  pub array : length raid.disk ≡ max_disks
  pub total : raid.total_blocks ≡ blocks % 2 ^ 64

take-modify_new :
    (k : ℕ) (f : Idisk → Idisk) (x : ℕ × ℕ × ℕ) (ds : List Idisk)
    → k < length ds
    → ((d : Idisk) → handles (f d) ≡ x)
    → map handles (take (suc k) (modify k f ds)) ≡ map handles (take k ds) ++ x ∷ []
take-modify_new k f x [] lt is = absurd (omega arith)
take-modify_new zero f x (d ∷ ds) lt is = ap (λ y. y ∷ []) (is d)
take-modify_new (suc k) f x (d ∷ ds) lt is =
    ap (λ ys. handles d ∷ ys) (take-modify_new k f x ds (omega arith) is)

take-modify_same :
    (k : ℕ) (f : Idisk → Idisk) (ds : List Idisk) → take k (modify k f ds) ≡ take k ds
take-modify_same k f [] = refl
take-modify_same zero f (d ∷ ds) = refl
take-modify_same (suc k) f (d ∷ ds) = ap (λ ys. d ∷ ys) (take-modify_same k f ds)

pub register_ns-Holds :
    (ctrlr : ℕ) (n : Namespace) (raid : NvmeRaid) (ds : List (ℕ × ℕ × ℕ)) (blocks : ℕ)
    → Holds raid ds blocks
    → length ds + count_active (n ∷ []) ≤ max_disks
    → (raid' : NvmeRaid) × (register_ns ctrlr n raid ≡ some raid')
      × Holds raid' (ds ++ usable ctrlr (n ∷ [])) (blocks + sectors (n ∷ []))
unfolding register_ns set_handles
register_ns-Holds ctrlr n raid ds blocks h space = elim (Bool-cases n.is_active) [
  | inr off ↦ (
    raid,
    rw off,
    record {
      disks = rw off (h.disks ∙ sym (append-nil ds));
      count = rw off (h.count ∙ ap length (sym (append-nil ds)));
      array = h.array;
      total = ground (arith, h.total, off);
    },
  )
  | inl on ↦
      let inside : leb max_disks raid.numdisks ≡ false = ground (arith, h.count, on) in
      elim (Option-cases n.io_qpair) [
        | inl no_pair ↦ (
          set_handles ctrlr n.ns 0 raid,
          rw (on, inside, no_pair),
          record {
            disks =
                rw (on, no_pair)
                  (ap (map handles) (take-modify_same raid.numdisks _ raid.disk)
                    ∙ h.disks
                    ∙ sym (append-nil ds));
            count = rw (on, no_pair) (h.count ∙ ap length (sym (append-nil ds)));
            array = length-modify raid.numdisks _ raid.disk ∙ h.array;
            total = rw (on, no_pair) (omega (arith, h.total));
          },
        )
        | inr (q, pair) ↦ (
          record (set_handles ctrlr n.ns q raid) {
            total_blocks = add_u64 raid.total_blocks n.num_sectors;
            numdisks = raid.numdisks + 1;
          },
          rw (on, inside, pair),
          record {
            disks =
                rw (on, pair)
                  (let next : raid.numdisks + 1 ≡ suc raid.numdisks = omega arith in
                    rw next (
                      take-modify_new raid.numdisks _ (ctrlr, n.ns, q) raid.disk
                        (ground (arith, h.count, h.array, on)) (λ d. refl)
                      ∙ ap (λ ys. ys ++ (ctrlr, n.ns, q) ∷ []) h.disks));
            count =
                rw (on, pair) (omega (arith, h.count, length-append ds ((ctrlr, n.ns, q) ∷ [])));
            array = length-modify raid.numdisks _ raid.disk ∙ h.array;
            total = rw (on, pair) (omega (arith, h.total));
          },
        )
      ]
]

pub usable-cons :
    (ctrlr : ℕ) (n : Namespace) (ns : List Namespace)
    → usable ctrlr (n ∷ ns) ≡ usable ctrlr (n ∷ []) ++ usable ctrlr ns
usable-cons ctrlr n ns = ap (λ ys. ys ++ usable ctrlr ns) (sym (append-nil _))

pub length-usable : (ctrlr : ℕ) (ns : List Namespace) → length (usable ctrlr ns) ≤ count_active ns
length-usable ctrlr [] = omega arith
length-usable ctrlr (n ∷ ns) = elim (Bool-cases n.is_active) [
  | inr off ↦ rw off (omega (arith, length-usable ctrlr ns))
  | inl on ↦ elim (Option-cases n.io_qpair) [
    | inl no_pair ↦ rw (on, no_pair) (omega (arith, length-usable ctrlr ns))
    | inr (q, pair) ↦ rw (on, pair) (omega (arith, length-usable ctrlr ns))
  ]
]

register_all-Holds :
    (ctrlr : ℕ) (ns : List Namespace) (raid : NvmeRaid) (ds : List (ℕ × ℕ × ℕ)) (blocks : ℕ)
    → Holds raid ds blocks
    → length ds + count_active ns ≤ max_disks
    → (raid' : NvmeRaid) × (register_all ctrlr ns raid ≡ some raid')
      × Holds raid' (ds ++ usable ctrlr ns) (blocks + sectors ns)
unfolding register_all
register_all-Holds ctrlr [] raid ds blocks h space =
    (raid, refl, subst₂ (Holds raid) (sym (append-nil ds)) (omega arith) h)
register_all-Holds ctrlr (n ∷ ns) raid ds blocks h space =
    let (raid1, e, h1) = register_ns-Holds ctrlr n raid ds blocks h (omega arith) in
    let (raid2, e', h2) =
      register_all-Holds ctrlr ns raid1 (ds ++ usable ctrlr (n ∷ [])) (blocks + sectors (n ∷ [])) h1
        (omega
          (arith, length-append ds (usable ctrlr (n ∷ [])), length-usable ctrlr (n ∷ []), space)) in
    (
      raid2,
      rw (register_all, e) e',
      subst₂ (Holds raid2)
          (append_assoc ds (usable ctrlr (n ∷ [])) (usable ctrlr ns)
            ∙ ap (λ ys. ds ++ ys) (sym (usable-cons ctrlr n ns)))
          (omega arith) h2,
    )

probe-Holds :
    (cs : List Controller) (raid : NvmeRaid) (ds : List (ℕ × ℕ × ℕ)) (blocks : ℕ)
    → Holds raid ds blocks
    → length ds + all_active cs ≤ max_disks
    → (raid' : NvmeRaid) × (probe cs raid ≡ some raid')
      × Holds raid' (ds ++ all_usable cs) (blocks + all_sectors cs)
unfolding probe attach_cb probe_cb
probe-Holds [] raid ds blocks h space =
    (raid, refl, subst₂ (Holds raid) (sym (append-nil ds)) (omega arith) h)
probe-Holds (c ∷ cs) raid ds blocks h space =
    let (raid1, e, h1) = register_all-Holds c.ctrlr c.namespaces raid ds blocks h (omega arith) in
    let (raid2, e', h2) =
      probe-Holds cs raid1 (ds ++ usable c.ctrlr c.namespaces) (blocks + sectors c.namespaces) h1 (
        omega (
          arith,
          length-append ds (usable c.ctrlr c.namespaces),
          length-usable c.ctrlr c.namespaces,
          space,
        )) in
    (
      raid2,
      rw (probe, e) e',
      subst₂ (Holds raid2) (append_assoc ds (usable c.ctrlr c.namespaces) (all_usable cs))
          (omega arith) h2,
    )

pub my_raid-Holds : Holds my_raid [] 0
my_raid-Holds = record { disks = refl; count = refl; array = refl; total = omega arith }

-- When SPDK finds at most 8 active namespaces, the raid that it makes of them holds those with a
-- queue pair, in the order in which they were found, and as many blocks as they have sectors, as a
-- uint64_t.
pub probe-my_raid-Holds :
    (cs : List Controller)
    → all_active cs ≤ max_disks
    → (raid : NvmeRaid) × (probe cs my_raid ≡ some raid)
      × Holds raid (all_usable cs) (all_sectors cs)
probe-my_raid-Holds cs space =
    let (raid, e, h) = probe-Holds cs my_raid [] 0 my_raid-Holds (omega arith) in
    (raid, e, subst (Holds raid (all_usable cs)) (omega arith) h)
