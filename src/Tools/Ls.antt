-- ===== src/Tools/Ls.antt =====
-- src/ls/ls.c and src/format/format.c.
pub mod Shown
use nvme_dpdk_pcapreplay.Prelude.{
  ℕ, zero, suc, ◌+◌, Bool, List, [], ◌∷◌, ◌==◌, if◌then◌else◌, length, ◌++◌,
}
use nvme_dpdk_pcapreplay.Layout.{MetaFile, Idisk, NvmeRaid, active, sub_u64, le_bytes}
use nvme_dpdk_pcapreplay.Table.{is_free}
use nvme_dpdk_pcapreplay.Driver.{Driver, Io}
use nvme_dpdk_pcapreplay.Fs.{format_raid}

-- A line of the list: the number of the entry, what is printed as its name, and its sectors.
abbrev pub Line : Type 0
Line = ℕ × List ℕ × ℕ

-- The entries of a table in memory, which are packed.
unfoldable pub table_bytes : List MetaFile → List ℕ
table_bytes [] = []
table_bytes (e ∷ es) =
    e.name ++ (le_bytes 8 e.start_block ++ (le_bytes 8 e.end_block ++ table_bytes es))

-- What `%s` prints of memory: the bytes before the first that is 0.
unfoldable pub until_nul : List ℕ → List ℕ
until_nul [] = []
until_nul (c ∷ cs) = let rest = until_nul cs in if c == 0 then [] else (c ∷ rest)

-- The loop over the entries of one table, from entry `id` of the raid on. A name that fills its field
-- has no 0, and is printed on into the blocks that follow it in memory.
unfoldable pub table_lines : ℕ → List MetaFile → List Line
unfolding table_bytes until_nul
table_lines id [] = []
table_lines id (e ∷ es) =
    let rest = table_lines (id + 1) es in
    let name = until_nul (table_bytes (e ∷ es)) in
    if is_free e then rest else ((id, name, sub_u64 e.end_block e.start_block) ∷ rest)

-- The loop over the disks.
unfoldable pub disk_lines : ℕ → List Idisk → List Line
unfolding table_lines
disk_lines id [] = []
disk_lines id (d ∷ ds) =
    table_lines id d.msector.content ++ disk_lines (id + length d.msector.content) ds

-- The lines that `app_run` of ls prints between the head and the totals.
unfoldable pub ls_app_run : NvmeRaid → List Line
unfolding disk_lines
ls_app_run raid = if raid.num_files == 0 then [] else disk_lines 0 (active raid)

-- `app_init` of format.
unfoldable pub format_app_init : Driver → NvmeRaid → Io NvmeRaid
format_app_init D raid = format_raid D raid
