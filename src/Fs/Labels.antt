-- ===== src/Fs/Labels.antt =====
-- src/fs.c: what the disks are known by, which no change of a file touches.
use nvme_dpdk_pcapreplay.Prelude.{
  ℕ, zero, suc, ◌+◌, ◌^◌, ◌≤◌, ◌≡◌, ◌≢◌, refl, sym, ap, ◌∙◌, some, List, [], ◌∷◌, length, map, take,
  take-modify, modify, arith,
}
use mathlib.Core.Path.{ap₂}
use nvme_dpdk_pcapreplay.Layout.{MetaFile, Idisk, NvmeRaid, active, handles}
use nvme_dpdk_pcapreplay.Table.{
  EntryRef, modify_entry, set_total, check_meta, init_meta, add_entry, del_entry,
}
use nvme_dpdk_pcapreplay.Table.Files.{add_entry-CanAdd, del_entry-some}
use nvme_dpdk_pcapreplay.Table.Wiped.{wiped_from}
use nvme_dpdk_pcapreplay.Fs.Reads.{Each, DifferentNs, Formatted}
use nvme_dpdk_pcapreplay.Fs.Restart.{Numbered}

-- Two states of one disk.
record SameDisk (d e : Idisk) : Type 0 where
  known : handles d ≡ handles e
  magic : d.msector.magic ≡ e.msector.magic
  disk_id : d.msector.disk_id ≡ e.msector.disk_id

-- Two states of the disks of a raid.
abbrev SameDisks : List Idisk → List Idisk → Type 0
SameDisks [] [] = Unit
SameDisks [] (e ∷ es) = ⊥
SameDisks (d ∷ ds) [] = ⊥
SameDisks (d ∷ ds) (e ∷ es) = SameDisk d e × SameDisks ds es

SameDisks-refl : (ds : List Idisk) → SameDisks ds ds
SameDisks-refl [] = tt
SameDisks-refl (d ∷ ds) = (record { known = refl; magic = refl; disk_id = refl }, SameDisks-refl ds)

SameDisks-modify :
    (i : ℕ) (f : Idisk → Idisk) (ds es : List Idisk)
    → ((d : Idisk) → SameDisk d (f d))
    → SameDisks ds es
    → SameDisks ds (modify i f es)
SameDisks-modify i f [] [] keep same = tt
SameDisks-modify i f [] (e ∷ es) keep same = absurd same
SameDisks-modify i f (d ∷ ds) [] keep same = absurd same
SameDisks-modify zero f (d ∷ ds) (e ∷ es) keep same =
    let k = keep e in
    (
      record {
        known = same.0.known ∙ k.known;
        magic = same.0.magic ∙ k.magic;
        disk_id = same.0.disk_id ∙ k.disk_id;
      },
      same.1,
    )
SameDisks-modify (suc i) f (d ∷ ds) (e ∷ es) keep same =
    (same.0, SameDisks-modify i f ds es keep same.1)

-- A write to an entry, and one to the count of files, of a raid.
written-SameDisks :
    (n k : ℕ) (p : EntryRef) (f : MetaFile → MetaFile) (ds : List Idisk)
    → SameDisks (take n ds) (take n (set_total k (modify_entry p f ds)))
unfolding set_total modify_entry
written-SameDisks n k p f ds =
    let count : Idisk → Idisk = λ d. record d { msector = record d.msector { total_files = k } } in
    let write : Idisk → Idisk = λ d. record d {
      msector = record d.msector { content = modify p.slot f d.msector.content };
    } in
    let at_count = take-modify n 0 count (modify p.disk write ds) in
    let at_write = take-modify n p.disk write ds in
    rw (at_count, at_write)
      (SameDisks-modify 0 count (take n ds) (modify p.disk write (take n ds))
        (λ d. record { known = refl; magic = refl; disk_id = refl })
        (SameDisks-modify p.disk write (take n ds) (take n ds)
          (λ d. record { known = refl; magic = refl; disk_id = refl })
          (SameDisks-refl (take n ds))))

-- Every disk is initialised, is known by a handle of its own, and carries the number of its place.
pub record Labelled (ds : List Idisk) : Type 0 where
  pub formatted : Formatted ds
  pub numbered : Numbered 0 ds
  pub different : DifferentNs ds

keep-Formatted : (ds es : List Idisk) → SameDisks ds es → Formatted ds → Formatted es
unfolding check_meta
keep-Formatted [] [] same h = tt
keep-Formatted [] (e ∷ es) same h = absurd same
keep-Formatted (d ∷ ds) [] same h = absurd same
keep-Formatted (d ∷ ds) (e ∷ es) same h =
    (ground (arith, h.0, same.0.magic), keep-Formatted ds es same.1 h.1)

keep-Numbered : (i : ℕ) (ds es : List Idisk) → SameDisks ds es → Numbered i ds → Numbered i es
keep-Numbered i [] [] same h = tt
keep-Numbered i [] (e ∷ es) same h = absurd same
keep-Numbered i (d ∷ ds) [] same h = absurd same
keep-Numbered i (d ∷ ds) (e ∷ es) same h =
    (sym same.0.disk_id ∙ h.0, keep-Numbered (suc i) ds es same.1 h.1)

keep-others :
    (n n' : ℕ) (ds es : List Idisk)
    → n ≡ n'
    → SameDisks ds es
    → Each (λ d. d.ns ≢ n) ds
    → Each (λ e. e.ns ≢ n') es
keep-others n n' [] [] e same h = tt
keep-others n n' [] (y ∷ ys) e same h = absurd same
keep-others n n' (x ∷ xs) [] e same h = absurd same
keep-others n n' (x ∷ xs) (y ∷ ys) e same h =
    (λ k. h.0 (ap (λ x. x.1) same.0.known ∙ k ∙ sym e), keep-others n n' xs ys e same.1 h.1)

keep-DifferentNs : (ds es : List Idisk) → SameDisks ds es → DifferentNs ds → DifferentNs es
keep-DifferentNs [] [] same h = tt
keep-DifferentNs [] (e ∷ es) same h = absurd same
keep-DifferentNs (d ∷ ds) [] same h = absurd same
keep-DifferentNs (d ∷ ds) (e ∷ es) same h = (
  keep-others d.ns e.ns ds es (ap (λ x. x.1) same.0.known) same.1 h.0,
  keep-DifferentNs ds es same.1 h.1,
)

keep-Labelled : (ds es : List Idisk) → SameDisks ds es → Labelled ds → Labelled es
keep-Labelled ds es same l = record {
  formatted = keep-Formatted ds es same l.formatted;
  numbered = keep-Numbered 0 ds es same l.numbered;
  different = keep-DifferentNs ds es same l.different;
}

keep-handles : (ds es : List Idisk) → SameDisks ds es → map handles es ≡ map handles ds
keep-handles [] [] same = refl
keep-handles [] (e ∷ es) same = absurd same
keep-handles (d ∷ ds) [] same = absurd same
keep-handles (d ∷ ds) (e ∷ es) same =
    ap₂ (λ x xs. x ∷ xs) (sym same.0.known) (keep-handles ds es same.1)

-- The same NVMes, in the same places, with as many blocks.
pub record SameRaid (raid raid' : NvmeRaid) : Type 0 where
  pub known : map handles (active raid') ≡ map handles (active raid)
  pub disks : raid'.numdisks ≡ raid.numdisks
  pub blocks : raid'.total_blocks ≡ raid.total_blocks

pub SameRaid-refl : (raid : NvmeRaid) → SameRaid raid raid
SameRaid-refl raid = record { known = refl; disks = refl; blocks = refl }

pub SameRaid-trans :
    (raid raid' raid'' : NvmeRaid)
    → SameRaid raid raid'
    → SameRaid raid' raid''
    → SameRaid raid raid''
SameRaid-trans raid raid' raid'' a b = record {
  known = b.known ∙ a.known;
  disks = b.disks ∙ a.disks;
  blocks = b.blocks ∙ a.blocks;
}

-- Adding a file keeps the labels of the disks, their number and the blocks of the raid.
pub add_entry-Labelled :
    (raid : NvmeRaid) (name : List ℕ) (blsize : ℕ) (p : EntryRef) (raid' : NvmeRaid)
    → add_entry raid name blsize ≡ some (p, raid')
    → Labelled (active raid)
    → Labelled (active raid') × SameRaid raid raid'
add_entry-Labelled raid name blsize p raid' e l =
    let (c, is) = add_entry-CanAdd raid name blsize p raid' e in
    let same = written-SameDisks raid.numdisks _ p _ raid.disk in
    rw is (
      keep-Labelled (active raid) _ same l,
      record { known = keep-handles (active raid) _ same; disks = refl; blocks = refl },
    )

-- So does deleting one.
pub del_entry-Labelled :
    (raid : NvmeRaid) (name : List ℕ) (raid' : NvmeRaid)
    → del_entry raid name ≡ some raid'
    → Labelled (active raid)
    → Labelled (active raid') × SameRaid raid raid'
del_entry-Labelled raid name raid' e l =
    let (p, named, found, is) = del_entry-some raid name raid' e in
    let same = written-SameDisks raid.numdisks _ p _ raid.disk in
    rw is (
      keep-Labelled (active raid) _ same l,
      record { known = keep-handles (active raid) _ same; disks = refl; blocks = refl },
    )

-- A new table labels its disk.
pub wiped_from-Formatted : (n i : ℕ) (ds : List Idisk) → Formatted (wiped_from n i ds)
unfolding init_meta check_meta
wiped_from-Formatted n i [] = tt
wiped_from-Formatted n i (d ∷ ds) = (ground arith, wiped_from-Formatted n (suc i) ds)

pub wiped_from-Numbered :
    (n i : ℕ) (ds : List Idisk) → i + length ds ≤ 2 ^ 8 → Numbered i (wiped_from n i ds)
unfolding init_meta
wiped_from-Numbered n i [] le = tt
wiped_from-Numbered n i (d ∷ ds) le = (omega arith, wiped_from-Numbered n (suc i) ds (omega arith))

wiped_from-others :
    (n i k : ℕ) (ds : List Idisk)
    → Each (λ d. d.ns ≢ k) ds
    → Each (λ d. d.ns ≢ k) (wiped_from n i ds)
wiped_from-others n i k [] h = tt
wiped_from-others n i k (d ∷ ds) h = (h.0, wiped_from-others n (suc i) k ds h.1)

pub wiped_from-DifferentNs :
    (n i : ℕ) (ds : List Idisk) → DifferentNs ds → DifferentNs (wiped_from n i ds)
wiped_from-DifferentNs n i [] h = tt
wiped_from-DifferentNs n i (d ∷ ds) h =
    (wiped_from-others n (suc i) d.ns ds h.0, wiped_from-DifferentNs n (suc i) ds h.1)

pub wiped_from-handles :
    (n i : ℕ) (ds : List Idisk) → map handles (wiped_from n i ds) ≡ map handles ds
wiped_from-handles n i [] = refl
wiped_from-handles n i (d ∷ ds) = ap (λ xs. handles d ∷ xs) (wiped_from-handles n (suc i) ds)
