-- ===== src/Table/Files/Guards.antt =====
-- src/fs.c, `addFile`: when it succeeds, and what it leaves.
use nvme_dpdk_pcapreplay.Prelude.{
  ℕ, zero, suc, ◌+◌, ◌*◌, ◌≤◌, ◌<◌, ◌≡◌, ◌≢◌, refl, ◌∙◌, none, some, List, [], ◌∷◌, arith, modify,
  length, length-modify, get_or,
}
use nvme_dpdk_pcapreplay.Layout.{MetaFile, Idisk, NvmeRaid, active, null_disk, max_files, u8, u32}
use nvme_dpdk_pcapreplay.Table.{
  EntryRef, entry_where, modify_entry, set_total, find_file, is_free, first_char, right_free_blocks,
  total_files, new_entry, add_entry,
}

-- The raid that a successful `addFile` leaves.
abbrev pub added : NvmeRaid → List ℕ → ℕ → EntryRef → NvmeRaid
added raid name blsize p = record raid {
  disk =
      set_total (u8 (total_files raid + 1))
        (modify_entry p (λ _. new_entry raid name blsize) raid.disk);
  num_files = u32 (raid.num_files + 1);
}

-- What the guards of `addFile` ask.
pub record CanAdd (raid : NvmeRaid) (name : List ℕ) (blsize : ℕ) (p : EntryRef) : Type 0 where
  pub is_new : find_file raid name ≡ none
  pub has_slot : total_files raid ≢ max_files * raid.numdisks
  pub has_space : blsize ≤ right_free_blocks raid
  pub has_name : first_char name ≢ 0
  pub slot : entry_where is_free 0 (active raid) ≡ some p

-- A success of `addFile` means that its guards passed, and tells the raid that it leaves.
pub add_entry-CanAdd :
    (raid : NvmeRaid) (name : List ℕ) (blsize : ℕ) (p : EntryRef) (raid' : NvmeRaid)
    → add_entry raid name blsize ≡ some (p, raid')
    → CanAdd raid name blsize p × (raid' ≡ added raid name blsize p)
unfolding add_entry
add_entry-CanAdd raid name blsize p raid' e = ground arith

-- Conversely the guards are all that `addFile` asks.
pub add_entry-added :
    (raid : NvmeRaid) (name : List ℕ) (blsize : ℕ) (p : EntryRef)
    → CanAdd raid name blsize p
    → add_entry raid name blsize ≡ some (p, added raid name blsize p)
unfolding add_entry
add_entry-added raid name blsize p c = ground arith

pub total_files-set_total :
    (raid : NvmeRaid) (k n : ℕ) (p : EntryRef) (f : MetaFile → MetaFile)
    → 0 < length raid.disk
    → total_files (record raid { disk = set_total k (modify_entry p f raid.disk); num_files = n })
      ≡ k
unfolding total_files set_total modify_entry
total_files-set_total raid k n p f h = first raid.disk p.disk h
  where
    write : Idisk → Idisk
    write d = record d {
      msector = record d.msector { content = modify p.slot f d.msector.content };
    }

    count : Idisk → Idisk
    count d = record d { msector = record d.msector { total_files = k } }

    first :
        (ds : List Idisk) (i : ℕ)
        → 0 < length ds
        → (get_or (modify 0 count (modify i write ds)) 0 null_disk).msector.total_files ≡ k
    first [] i h = absurd (omega arith)
    first (d ∷ ds) zero h = refl
    first (d ∷ ds) (suc i) h = refl

pub length-set_total :
    (k : ℕ) (p : EntryRef) (f : MetaFile → MetaFile) (ds : List Idisk)
    → length (set_total k (modify_entry p f ds)) ≡ length ds
unfolding set_total modify_entry
length-set_total k p f ds = length-modify 0 _ _ ∙ length-modify p.disk _ ds
