-- ===== src/Tools/Ls/Shown.antt =====
-- src/ls/ls.c: how many files are listed, and which.
use nvme_dpdk_pcapreplay.Prelude.{
  Bool, true, false, ◌||◌, ℕ, ◌+◌, ◌≡◌, refl, sym, ap, ◌∙◌, inl, inr, List, [], ◌∷◌, ◌++◌, ◌==◌,
  if◌then◌else◌, length, arith, Bool-cases,
}
use nvme_dpdk_pcapreplay.Layout.{MetaFile, Idisk, NvmeRaid, active, sub_u64}
use nvme_dpdk_pcapreplay.Table.{is_free}
use nvme_dpdk_pcapreplay.Table.Search.{All, All-split, entries}
use nvme_dpdk_pcapreplay.Table.Invariant.{IsValid, count_used}
use nvme_dpdk_pcapreplay.Tools.Ls.{
  table_bytes, until_nul, Line, table_lines, disk_lines, ls_app_run,
}

-- The name of an entry ends inside its field, as a string of C.
abbrev has_nul : List ℕ → Bool
has_nul [] = false
has_nul (c ∷ cs) = c == 0 || has_nul cs

abbrev pub Terminated : MetaFile → Type 0
Terminated e = has_nul e.name ≡ true

until_nul-append : (xs ys : List ℕ) → has_nul xs ≡ true → until_nul (xs ++ ys) ≡ until_nul xs
unfolding until_nul
until_nul-append [] ys h = cc
until_nul-append (x ∷ xs) ys h = elim (Bool-cases (x == 0)) [
  | inl last ↦ rw last refl
  | inr more ↦ rw more (ap (λ cs. x ∷ cs) (until_nul-append xs ys (ground (arith, h, more))))
]

-- The names and the sizes of the used entries, in order.
abbrev pub used_files : List MetaFile → List (List ℕ × ℕ)
used_files [] = []
used_files (e ∷ es) =
    (if is_free e then [] else ((until_nul e.name, sub_u64 e.end_block e.start_block) ∷ []))
    ++ used_files es

abbrev pub without_ids : List Line → List (List ℕ × ℕ)
without_ids [] = []
without_ids (l ∷ ls) = (l.1, l.2) ∷ without_ids ls

without_ids-append : (xs ys : List Line) → without_ids (xs ++ ys) ≡ without_ids xs ++ without_ids ys
without_ids-append [] ys = refl
without_ids-append (x ∷ xs) ys = ap (λ zs. (x.1, x.2) ∷ zs) (without_ids-append xs ys)

used_files-append : (es fs : List MetaFile) → used_files (es ++ fs) ≡ used_files es ++ used_files fs
used_files-append [] fs = refl
used_files-append (e ∷ es) fs = elim (Bool-cases (is_free e)) [
  | inl free ↦ rw free (used_files-append es fs)
  | inr taken ↦ rw taken (
      ap (λ zs. (until_nul e.name, sub_u64 e.end_block e.start_block) ∷ zs)
        (used_files-append es fs))
]

table_lines_lem :
    (id : ℕ) (es : List MetaFile)
    → All Terminated es
    → without_ids (table_lines id es) ≡ used_files es
unfolding table_lines table_bytes
table_lines_lem id [] ends = refl
table_lines_lem id (e ∷ es) ends =
    let rest = table_lines_lem (id + 1) es ends.1 in
    let shown : until_nul (table_bytes (e ∷ es)) ≡ until_nul e.name =
      until_nul-append e.name _ ends.0 in
    elim (Bool-cases (is_free e)) [
      | inl free ↦ rw (table_lines, free) rest
      | inr taken ↦
          rw (table_lines, taken, shown)
            (ap (λ zs. (until_nul e.name, sub_u64 e.end_block e.start_block) ∷ zs) rest)
    ]

disk_lines_lem :
    (id : ℕ) (ds : List Idisk)
    → All Terminated (entries ds)
    → without_ids (disk_lines id ds) ≡ used_files (entries ds)
unfolding disk_lines
disk_lines_lem id [] ends = refl
disk_lines_lem id (d ∷ ds) ends =
    let (here, later) = All-split Terminated d.msector.content (entries ds) ends in
    without_ids-append (table_lines id d.msector.content) _
    ∙ ap (λ xs. xs ++ without_ids (disk_lines (id + length d.msector.content) ds))
        (table_lines_lem id d.msector.content here)
    ∙ ap (λ ys. used_files d.msector.content ++ ys)
        (disk_lines_lem (id + length d.msector.content) ds later)
    ∙ sym (used_files-append d.msector.content (entries ds))

length-used_files : (es : List MetaFile) → length (used_files es) ≡ count_used es
length-used_files [] = omega arith
length-used_files (e ∷ es) = elim (Bool-cases (is_free e)) [
  | inl free ↦ rw free (omega (arith, length-used_files es))
  | inr taken ↦ rw taken (omega (arith, length-used_files es))
]

used_files-none : (es : List MetaFile) → count_used es ≡ 0 → used_files es ≡ []
used_files-none [] none_used = refl
used_files-none (e ∷ es) none_used = elim (Bool-cases (is_free e)) [
  | inl free ↦ rw free (used_files-none es (ground (arith, none_used, free)))
  | inr taken ↦ absurd (ground (arith, none_used, taken))
]

-- On a raid in order whose names all end inside their fields, `ls` prints the name and the size of
-- each file, in the order of the tables, and nothing else, also when it says that there are no
-- files; and it lists as many as it says.
pub ls_app_run-used_files :
    (raid : NvmeRaid)
    → IsValid raid
    → All Terminated (entries (active raid))
    → (without_ids (ls_app_run raid) ≡ used_files (entries (active raid)))
      × (length (without_ids (ls_app_run raid)) ≡ raid.num_files)
unfolding ls_app_run
ls_app_run-used_files raid v ends =
    let count : count_used (entries (active raid)) ≡ raid.num_files =
      sym (v.same_count ∙ v.counted) in
    elim (Bool-cases (raid.num_files == 0)) [
      | inl empty ↦
          let no_files : raid.num_files ≡ 0 = ground arith in
          rw (ls_app_run, empty)
            (sym (used_files-none (entries (active raid)) (count ∙ no_files)), sym no_files)
      | inr some_files ↦
          rw (ls_app_run, some_files)
            (
              disk_lines_lem 0 (active raid) ends,
              ap length (disk_lines_lem 0 (active raid) ends)
                  ∙ length-used_files (entries (active raid))
                  ∙ count,
            )
    ]
