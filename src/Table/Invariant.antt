-- ===== src/Table/Invariant.antt =====
-- The rules for the raid's tables between two operations, and a change of one entry.
use nvme_dpdk_pcapreplay.Prelude.{
  ℕ, zero, suc, ◌+◌, ◌*◌, ◌^◌, ◌≤◌, ◌<◌, ◌≡◌, ◌≢◌, refl, ap, ◌∙◌, ◌⊎◌, true, false, List, [], ◌∷◌,
  ◌++◌, arith, if◌then◌else◌, length, modify, take, take-modify,
}
use nvme_dpdk_pcapreplay.Layout.{
  MetaFile, Idisk, NvmeRaid, active, super_sector_num, max_files, max_disks, name_length,
}
use nvme_dpdk_pcapreplay.Table.{EntryRef, is_free, total_files, set_total, modify_entry}
use nvme_dpdk_pcapreplay.Table.Names.{cstr}
use nvme_dpdk_pcapreplay.Table.Search.{All, entries}

abbrev pub Pairwise : (MetaFile → MetaFile → Type 0) → List MetaFile → Type 0
Pairwise R [] = Unit
Pairwise R (x ∷ xs) = All (R x) xs × Pairwise R xs

-- The blocks of two entries do not meet.
abbrev pub Apart : MetaFile → MetaFile → Type 0
Apart e f = (e.end_block ≤ f.start_block) ⊎ (f.end_block ≤ e.start_block)

-- Two files have two names.
abbrev pub Differ : MetaFile → MetaFile → Type 0
Differ e f =
    is_free e ≡ false → is_free f ≡ false → cstr name_length e.name ≢ cstr name_length f.name

-- A file lies between the reserved blocks and the end of the raid; a free entry has no blocks.
pub record InRange (low high : ℕ) (e : MetaFile) : Type 0 where
  pub ordered : e.start_block ≤ e.end_block
  pub inside : e.end_block ≤ high
  pub empty : is_free e ≡ true → e.end_block ≡ 0
  pub above : is_free e ≡ false → low ≤ e.start_block

abbrev pub used : MetaFile → ℕ
used e = if is_free e then 0 else 1

abbrev pub count_used : List MetaFile → ℕ
count_used [] = 0
count_used (e ∷ es) = used e + count_used es

pub record IsValid (raid : NvmeRaid) : Type 0 where
  pub some_disk : 0 < raid.numdisks
  pub few_disks : raid.numdisks ≤ max_disks
  pub array : raid.numdisks ≤ length raid.disk
  pub full_tables : length (entries (active raid)) ≡ max_files * raid.numdisks
  pub range : raid.total_blocks < 2 ^ 64
  pub reserved : raid.numdisks * super_sector_num ≤ raid.total_blocks
  pub in_range :
      All (InRange (raid.numdisks * super_sector_num) raid.total_blocks) (entries (active raid))
  pub apart : Pairwise Apart (entries (active raid))
  pub differ : Pairwise Differ (entries (active raid))
  pub counted : total_files raid ≡ count_used (entries (active raid))
  pub same_count : raid.num_files ≡ total_files raid

-- An entry in the middle of a list.
pub All-middle :
    (P : MetaFile → Type 0) (xs : List MetaFile) (e : MetaFile) (ys : List MetaFile)
    → All P (xs ++ e ∷ ys)
    → All P xs × P e × All P ys
All-middle P [] e ys h = (tt, h.0, h.1)
All-middle P (x ∷ xs) e ys h =
    let (front, mid, back) = All-middle P xs e ys h.1 in ((h.0, front), mid, back)

pub All-join :
    (P : MetaFile → Type 0) (xs : List MetaFile) (e : MetaFile) (ys : List MetaFile)
    → All P xs
    → P e
    → All P ys
    → All P (xs ++ e ∷ ys)
All-join P [] e ys front mid back = (mid, back)
All-join P (x ∷ xs) e ys front mid back = (front.0, All-join P xs e ys front.1 mid back)

pub All-imp :
    (P Q : MetaFile → Type 0) (xs : List MetaFile)
    → ((x : MetaFile) → P x → Q x)
    → All P xs
    → All Q xs
All-imp P Q [] f h = tt
All-imp P Q (x ∷ xs) f h = (f x h.0, All-imp P Q xs f h.1)

-- A new entry in place of an old one, related to all the others.
pub Pairwise-replace :
    (R : MetaFile → MetaFile → Type 0) (xs : List MetaFile) (e f : MetaFile) (ys : List MetaFile)
    → Pairwise R (xs ++ e ∷ ys)
    → All (λ x. R x f) xs
    → All (R f) ys
    → Pairwise R (xs ++ f ∷ ys)
Pairwise-replace R [] e f ys h front back = (back, h.1)
Pairwise-replace R (x ∷ xs) e f ys h front back =
    let (a, b, c) = All-middle (R x) xs e ys h.0 in
    (All-join (R x) xs f ys a front.0 c, Pairwise-replace R xs e f ys h.1 front.1 back)

pub count_used-middle :
    (xs : List MetaFile) (e : MetaFile) (ys : List MetaFile)
    → count_used (xs ++ e ∷ ys) ≡ count_used xs + used e + count_used ys
count_used-middle [] e ys = omega arith
count_used-middle (x ∷ xs) e ys = omega (arith, count_used-middle xs e ys)

pub count_used-le-length : (es : List MetaFile) → count_used es ≤ length es
count_used-le-length [] = omega arith
count_used-le-length (e ∷ es) = ground (arith, count_used-le-length es)

pub length-middle :
    (xs : List MetaFile) (e : MetaFile) (ys : List MetaFile)
    → length (xs ++ e ∷ ys) ≡ length xs + 1 + length ys
length-middle [] e ys = omega arith
length-middle (x ∷ xs) e ys = omega (arith, length-middle xs e ys)

-- Counters apart, a write to the array is the same write to the disks in use.
entries-modify :
    (i n : ℕ) (ds : List Idisk)
    → entries (modify i (λ d. record d { msector = record d.msector { total_files = n } }) ds)
      ≡ entries ds
entries-modify i n [] = refl
entries-modify zero n (d ∷ ds) = refl
entries-modify (suc i) n (d ∷ ds) = ap (λ r. d.msector.content ++ r) (entries-modify i n ds)

pub entries-written :
    (n k : ℕ) (p : EntryRef) (f : MetaFile → MetaFile) (ds : List Idisk)
    → entries (take n (set_total k (modify_entry p f ds))) ≡ entries (modify_entry p f (take n ds))
unfolding set_total modify_entry
entries-written n k p f ds =
    let write : Idisk → Idisk = λ d. record d {
      msector = record d.msector { content = modify p.slot f d.msector.content };
    } in
    ap entries (take-modify n 0 _ (modify p.disk write ds))
    ∙ entries-modify 0 k (take n (modify p.disk write ds))
    ∙ ap entries (take-modify n p.disk write ds)
