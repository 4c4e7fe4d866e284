-- ===== src/Tools/Removed.antt =====
-- src/rm/rm.c: what the tool rm leaves.
use nvme_dpdk_pcapreplay.Prelude.{
  ℕ, ◌≡◌, ◌≢◌, refl, sym, ◌∙◌, ◌⊎◌, inl, inr, false, none, some, List, [], ◌∷◌, done, arith, ◌==◌,
  Option-cases, Bool-cases,
}
use mathlib.Core.Path.{subst}
use nvme_dpdk_pcapreplay.Layout.{MetaFile, NvmeRaid, active}
use nvme_dpdk_pcapreplay.Table.{find_file, cmp_file, first_char, clear_entry, del_entry}
use nvme_dpdk_pcapreplay.Table.Search.{All, entries}
use nvme_dpdk_pcapreplay.Table.Invariant.{IsValid, All-middle, All-join}
use nvme_dpdk_pcapreplay.Table.Files.{
  find_file-none, cmp_file-free, entry_where-All, find_file-del_entry, is_free-clear_entry,
}
use nvme_dpdk_pcapreplay.Driver.{Driver, Sio, bind-done}
use nvme_dpdk_pcapreplay.Simpleio.Sync.{Works}
use nvme_dpdk_pcapreplay.Fs.{del_file}
use nvme_dpdk_pcapreplay.Fs.Writes.{DelOutcome, del_file-DelOutcome}
use nvme_dpdk_pcapreplay.Tools.{rm_app_run}

-- The raid has no file of this name, unless the name is empty.
abbrev pub Absent : NvmeRaid → List ℕ → Type 0
Absent raid name = (first_char name ≡ 0) ⊎ (find_file raid name ≡ none)

-- A search that every entry fails.
find_file-All :
    (raid : NvmeRaid) (name : List ℕ)
    → All (λ e. cmp_file name e ≡ false) (entries (active raid))
    → find_file raid name ≡ none
unfolding find_file
find_file-All raid name all = entry_where-All (cmp_file name) 0 (active raid) all

-- Deleting a file does not bring another back.
Absent-del_entry :
    (raid raid' : NvmeRaid) (name other : List ℕ)
    → IsValid raid
    → del_entry raid name ≡ some raid'
    → Absent raid other
    → Absent raid' other
Absent-del_entry raid raid' name other v e (inl empty) = inl empty
Absent-del_entry raid raid' name other v e (inr gone) =
    let P : MetaFile → Type 0 = λ f. cmp_file other f ≡ false in
    let (none_there, before, hit, after, whole, same, whole') =
      find_file-del_entry name raid' v e in
    let (l, m, r) =
      All-middle P before hit after (subst (All P) whole (find_file-none raid other gone)) in
    elim (Bool-cases (first_char other == 0)) [
      | inl empty ↦ inl (ground arith)
      | inr named ↦
          let other_named : first_char other ≢ 0 = ground arith in
          let missed : P (clear_entry hit) =
            cmp_file-free other (clear_entry hit) other_named (is_free-clear_entry hit) in
          inr (
            find_file-All raid' other
              (subst (All P) (sym whole') (All-join P before (clear_entry hit) after l missed r)))
    ]

Absent-none : (raid : NvmeRaid) (name : List ℕ) → del_entry raid name ≡ none → Absent raid name
unfolding del_entry
Absent-none raid name e = elim (Bool-cases (first_char name == 0)) [
  | inl empty ↦ inl (ground arith)
  | inr named ↦ elim (Option-cases (find_file raid name)) [
    | inl gone ↦ inr gone
    | inr (p, there) ↦ absurd (ground arith)
  ]
]

-- One deletion.
pub record Removed (D : Driver) (raid : NvmeRaid) (name : List ℕ) (s : Sio) : Type 0 where
  pub status : ℕ
  pub after : NvmeRaid
  pub state : Sio
  pub runs : del_file D raid name s ≡ done ((status, after), state)
  pub valid : IsValid after
  pub absent : Absent after name
  pub keeps : (other : List ℕ) → Absent raid other → Absent after other

pub del_file-Removed :
    (D : Driver) (raid : NvmeRaid) (name : List ℕ) (s : Sio)
    → Works D
    → IsValid raid
    → Removed D raid name s
unfolding DelOutcome
del_file-Removed D raid name s w v = elim (Option-cases (del_entry raid name)) [
  | inl missing ↦ record {
    status = 0;
    after = raid;
    state = s;
    runs = subst (DelOutcome D raid name s) missing (del_file-DelOutcome D raid name s w v);
    valid = v;
    absent = Absent-none raid name missing;
    keeps = λ other h. h;
  }
  | inr (raid', e) ↦
      let (valid, (s', runs, _)) =
        subst (DelOutcome D raid name s) e (del_file-DelOutcome D raid name s w v) in
      record {
        status = 1;
        after = raid';
        state = s';
        runs = runs;
        valid = valid;
        absent = inr (find_file-del_entry name raid' v e).0;
        keeps = λ other h. Absent-del_entry raid raid' name other v e h;
      }
]

abbrev pub AllAbsent : NvmeRaid → List (List ℕ) → Type 0
AllAbsent raid [] = Unit
AllAbsent raid (name ∷ names) = Absent raid name × AllAbsent raid names

-- The rest of the names, and one that is absent already.
rm_app_run-keeps :
    (D : Driver) (names : List (List ℕ)) (raid : NvmeRaid) (s : Sio)
    → Works D
    → IsValid raid
    → (raid' : NvmeRaid) × (s' : Sio) × (rm_app_run D names raid s ≡ done (raid', s'))
      × IsValid raid'
      × AllAbsent raid' names
      × ((other : List ℕ) → Absent raid other → Absent raid' other)
unfolding rm_app_run
rm_app_run-keeps D [] raid s w v = (raid, s, refl, v, tt, λ other h. h)
rm_app_run-keeps D (name ∷ names) raid s w v =
    let one = del_file-Removed D raid name s w v in
    let (raid', s', runs, valid, all, keeps) =
      rm_app_run-keeps D names one.after one.state w one.valid in
    (
      raid',
      s',
      bind-done (del_file D raid name) (λ (deleted, r). rm_app_run D names r) s one.runs ∙ runs,
      valid,
      (keeps name one.absent, all),
      λ other h. keeps other (one.keeps other h),
    )

-- With a working driver and a raid in order, and whatever files are named, in any order and more
-- than once, the tool rm returns, and leaves a raid in order with no file of any of these names
-- that is not empty.
pub rm_app_run-AllAbsent :
    (D : Driver) (names : List (List ℕ)) (raid : NvmeRaid) (s : Sio)
    → Works D
    → IsValid raid
    → (raid' : NvmeRaid) × (s' : Sio) × (rm_app_run D names raid s ≡ done (raid', s'))
      × IsValid raid'
      × AllAbsent raid' names
rm_app_run-AllAbsent D names raid s w v =
    let (raid', s', runs, valid, all, keeps) = rm_app_run-keeps D names raid s w v in
    (raid', s', runs, valid, all)
