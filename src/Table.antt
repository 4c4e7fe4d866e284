-- ===== src/Table.antt =====
-- src/fs.c, the file table: what `checkMeta` to `delFile` do to the entries of the raid's
-- metadata sectors. The writes of the sectors to the NVMes are in `Fs`.
pub mod Names
pub mod Search
pub mod Space
pub mod Invariant
pub mod Files
pub mod Wiped
use nvme_dpdk_pcapreplay.Prelude.{
  ℕ, zero, suc, ◌+◌, ◌-◌, ◌*◌, ◌^◌, Bool, true, false, List, [], ◌∷◌, ◌++◌, Option, none, some, ltb,
  ◌==◌, if◌then◌else◌, get_or, modify, is_some,
}
use nvme_dpdk_pcapreplay.Layout.{
  MetaFile, MetaSector, Idisk, NvmeRaid, null_disk, active, name_length, max_files, magic_number,
  cur_version, super_sector_num, sub_u64, add_u64, u8, u32,
}
use mathlib.Core.Option

-- `checkMeta`; `checkMetaConfig` is about the size of the C type alone.
unfoldable pub check_meta : MetaSector → Bool
check_meta m = m.magic == magic_number

-- `name[0] = '\0'`, on an entry whose other bytes stay.
abbrev pub clear_name : List ℕ → List ℕ
clear_name [] = []
clear_name (c ∷ cs) = 0 ∷ cs

-- What `initMeta` and `delFile` do to one entry.
unfoldable pub clear_entry : MetaFile → MetaFile
clear_entry e = record { name = clear_name e.name; start_block = 0; end_block = 0 }

clear_entries : List MetaFile → List MetaFile
unfolding clear_entry
clear_entries [] = []
clear_entries (e ∷ es) = clear_entry e ∷ clear_entries es

unfoldable pub init_meta : MetaSector → ℕ → ℕ → MetaSector
unfolding clear_entries
init_meta m disk_id total_disks = record {
  magic = magic_number;
  version = cur_version;
  disk_id = disk_id;
  total_disks = total_disks;
  total_files = 0;
  content = clear_entries m.content;
}

-- `name[0]`, of an entry's name or of an argument.
abbrev pub first_char : List ℕ → ℕ
first_char cs = get_or cs 0 0

-- `strncmp (a, b, n) == 0`, where the bytes past the end of a list are zero.
unfoldable pub strncmp_eq : ℕ → List ℕ → List ℕ → Bool
strncmp_eq zero a b = true
strncmp_eq (suc n) [] [] = true
strncmp_eq (suc n) [] (b ∷ bs) = b == 0
strncmp_eq (suc n) (a ∷ r) [] = a == 0
strncmp_eq (suc n) (a ∷ r) (b ∷ bs) =
    if a == b then (if a == 0 then true else strncmp_eq n r bs) else false

-- `cmpFile (name, e) == 0`, which is all that `lfind` asks.
unfoldable pub cmp_file : List ℕ → MetaFile → Bool
unfolding strncmp_eq
cmp_file name e = strncmp_eq name_length name e.name

-- A pointer to an entry: its disk and its place in that disk's table.
pub record EntryRef : Type 0 where
  pub disk : ℕ
  pub slot : ℕ

-- The first entry of a table that passes a test: the loop of `lfind`, and the inner loop of `addFile`.
unfoldable pub slot_where : (MetaFile → Bool) → List MetaFile → Option ℕ
slot_where test [] = none
slot_where test (e ∷ es) = if test e then some 0 else Option.map suc (slot_where test es)

-- `lfind (name, content, MAXFILES, sizeof (metaFile), cmpFile)`
unfoldable pub lfind : List ℕ → List MetaFile → Option ℕ
unfolding slot_where cmp_file
lfind name = slot_where (cmp_file name)

-- The loop over the disks, from disk `i` on, round such a search.
unfoldable pub entry_where : (MetaFile → Bool) → ℕ → List Idisk → Option EntryRef
unfolding slot_where
entry_where test i [] = none
entry_where test i (d ∷ ds) = elim (slot_where test d.msector.content) [
  | some j ↦ some (record { disk = i; slot = j })
  | none ↦ entry_where test (suc i) ds
]

unfoldable pub find_file : NvmeRaid → List ℕ → Option EntryRef
unfolding entry_where cmp_file
find_file raid name = entry_where (cmp_file name) 0 (active raid)

-- The disk whose id is read when the loop has run to its end is the one past the last.
unfoldable pub find_file_disk : NvmeRaid → List ℕ → ℕ
unfolding find_file
find_file_disk raid name =
    let i : ℕ = elim (find_file raid name) [ some p ↦ p.disk | none ↦ raid.numdisks ] in
    (get_or raid.disk i null_disk).msector.disk_id

-- `mostRight` after the inner loop of `rightFreeBlock` over one table.
right_most : ℕ → List MetaFile → ℕ
right_most most [] = most
right_most most (e ∷ es) = right_most (if ltb most e.end_block then e.end_block else most) es

right_most_disks : ℕ → List Idisk → ℕ
unfolding right_most
right_most_disks most [] = most
right_most_disks most (d ∷ ds) = right_most_disks (right_most most d.msector.content) ds

unfoldable pub right_free_block : NvmeRaid → ℕ
unfolding right_most_disks
right_free_block raid = right_most_disks (raid.numdisks * super_sector_num) (active raid)

unfoldable pub right_free_blocks : NvmeRaid → ℕ
unfolding right_free_block
right_free_blocks raid = sub_u64 raid.total_blocks (right_free_block raid)

-- `usedBlocks` after the inner loop of `blocksLeft`: an assignment, not a sum.
used_blocks : ℕ → List MetaFile → ℕ
used_blocks used [] = used
used_blocks used (e ∷ es) = used_blocks (sub_u64 e.end_block e.start_block) es

used_blocks_disks : ℕ → List Idisk → ℕ
unfolding used_blocks
used_blocks_disks used [] = used
used_blocks_disks used (d ∷ ds) = used_blocks_disks (used_blocks used d.msector.content) ds

unfoldable pub blocks_left : NvmeRaid → ℕ
unfolding used_blocks_disks
blocks_left raid = sub_u64 raid.total_blocks (used_blocks_disks 0 (active raid))

-- `name[0] == 0`
abbrev pub is_free : MetaFile → Bool
is_free e = first_char e.name == 0

-- The bytes that `memcpy (dst, name, n)` moves.
unfoldable pub memcpy_bytes : ℕ → List ℕ → List ℕ
memcpy_bytes zero cs = []
memcpy_bytes (suc n) [] = 0 ∷ memcpy_bytes n []
memcpy_bytes (suc n) (c ∷ cs) = c ∷ memcpy_bytes n cs

-- A write through a pointer to an entry.
unfoldable pub modify_entry : EntryRef → (MetaFile → MetaFile) → List Idisk → List Idisk
modify_entry p f =
    modify p.disk
      λ d. record d { msector = record d.msector { content = modify p.slot f d.msector.content } }

-- The entry behind a pointer to it.
abbrev pub entry_at : NvmeRaid → EntryRef → MetaFile
entry_at raid p =
    get_or (get_or raid.disk p.disk null_disk).msector.content p.slot
      (record { name = []; start_block = 0; end_block = 0 })

-- `raid->disk[0].msector.totalFiles`
unfoldable pub total_files : NvmeRaid → ℕ
total_files raid = (get_or raid.disk 0 null_disk).msector.total_files

unfoldable pub set_total : ℕ → List Idisk → List Idisk
set_total n = modify 0 λ d. record d { msector = record d.msector { total_files = n } }

-- What `addFile` writes into the entry that it has found.
abbrev pub new_entry : NvmeRaid → List ℕ → ℕ → MetaFile
new_entry raid name blsize =
    let start : ℕ = right_free_block raid in
    record {
      name = memcpy_bytes name_length name;
      start_block = start;
      end_block = add_u64 start blsize;
    }

-- `addFile` up to the call of `updateRaid`: its four guards, and its loops. The file's start is read
-- off the table while the entry has its new name and its old blocks.
unfoldable pub add_entry : NvmeRaid → List ℕ → ℕ → Option (EntryRef × NvmeRaid)
add_entry raid name blsize =
    if is_some (find_file raid name)
    then none
    else (if total_files raid == max_files * raid.numdisks
        then none
        else (if ltb (right_free_blocks raid) blsize
            then none
            else (if first_char name == 0
                then none
                else Option.map
                    (λ p. (
                      p,
                      record raid {
                        disk =
                            set_total (u8 (total_files raid + 1))
                              (modify_entry p (λ _. new_entry raid name blsize) raid.disk);
                        num_files = u32 (raid.num_files + 1);
                      },
                    ))
                    (entry_where is_free 0 (active raid)))))

-- `delFile` up to the call of `updateRaid`.
unfoldable pub del_entry : NvmeRaid → List ℕ → Option NvmeRaid
del_entry raid name =
    if first_char name == 0
    then none
    else Option.map
        (λ p. record raid {
          disk = set_total (u8 (total_files raid + 255)) (modify_entry p clear_entry raid.disk);
          num_files = u32 (raid.num_files + 2 ^ 32 - 1);
        })
        (find_file raid name)
