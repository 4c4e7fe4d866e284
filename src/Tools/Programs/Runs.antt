-- ===== src/Tools/Programs/Runs.antt =====
-- src/main.c with src/format/format.c and src/rm/rm.c: whole runs of these programs.
use nvme_dpdk_pcapreplay.Prelude.{
  ℕ, ◌≡◌, ◌≢◌, refl, sym, ap, ◌∙◌, none, some, List, [], ◌∷◌, ◌==◌, false, map, length, done, arith,
}
use mathlib.Core.Path.{subst}
use nvme_dpdk_pcapreplay.Layout.{NvmeRaid, active}
use nvme_dpdk_pcapreplay.Driver.{Driver, Sio, Io, ◌>>=◌, return, bind-done}
use nvme_dpdk_pcapreplay.Table.Invariant.{IsValid}
use nvme_dpdk_pcapreplay.Simpleio.Sync.{Works}
use nvme_dpdk_pcapreplay.Fs.{create_raid, format_raid}
use nvme_dpdk_pcapreplay.Fs.Reads.{Remembers, SameHandles-refl}
use nvme_dpdk_pcapreplay.Fs.Labels.{SameRaid-trans}
use nvme_dpdk_pcapreplay.Fs.Format.{formatted}
use nvme_dpdk_pcapreplay.Fs.Kept.{done-same, create_raid-Kept, format_raid-Kept, formatted-SameRaid}
use nvme_dpdk_pcapreplay.Fs.Session.{delete, change, changes, changes-Keeps}
use nvme_dpdk_pcapreplay.Start.{Controller, App, main}
use nvme_dpdk_pcapreplay.Tools.{rm_app_run}
use nvme_dpdk_pcapreplay.Tools.Removed.{AllAbsent, del_file-Removed, rm_app_run-AllAbsent}
use nvme_dpdk_pcapreplay.Tools.Options.{
  CommandLine, files_of, no_options, rm_param_check, rm_app_config,
}
use nvme_dpdk_pcapreplay.Tools.Programs.{nothing, rm_app, format_app}
use nvme_dpdk_pcapreplay.Tools.Programs.Found.{
  CanHold, KeptOn, probe-CanFormat, KeptOn-SameRaid, main-KeptOn,
}

-- A run of a program ends with this status.
abbrev pub Ends : Driver → App → List Controller → Sio → ℕ → Sio → Type 0
Ends D app cs s status s' = (m : Io ℕ) × (main D app cs 0 ≡ some m) × (m s ≡ done (status, s'))

-- With a working driver whose sectors have 512 bytes and whose reads of a first sector give the table
-- that was written there last, and NVMes that make a raid: a run of the program format ends with 0, whatever the NVMes held, and they
-- hold the tables of a raid without files then.
pub main-format_app :
    (D : Driver) (cs : List Controller) (s : Sio)
    → Works D
    → Remembers D
    → CanHold cs
    → (s' : Sio) × (raid : NvmeRaid) × Ends D (format_app D []) cs s 0 s'
      × KeptOn D cs raid s'
      × (raid.num_files ≡ 0)
unfolding main format_app
main-format_app D cs s w remembers can =
    let (raid0, found, fmt, known0, disks0, blocks0) = probe-CanFormat cs can in
    let raid1 : NvmeRaid = formatted raid0 in
    let (s1, e1, k1) = format_raid-Kept D raid0 s w fmt in
    let same1 = formatted-SameRaid raid0 fmt.array in
    let (raid2, s2, e2, k2, there, files, same2) =
      create_raid-Kept D raid1 raid1 s1 w remembers k1 (SameHandles-refl (active raid1)) refl
        refl in
    let same = SameRaid-trans raid0 raid1 raid2 same1 same2 in
    (
      s2,
      raid2,
      (
        (format_raid D raid0 >>= λ r. create_raid D r >>= λ r'. return 0),
        rw (main, format_app, found),
        rw (◌>>=◌, e1, e2),
      ),
      record {
        kept = k2;
        known = same.known ∙ known0;
        disks = same.disks ∙ disks0;
        blocks = same.blocks ∙ blocks0;
      },
      files ∙ fmt.no_files,
    )

config_files :
    (line : CommandLine)
    → line.options ≡ []
    → length (files_of line) ≢ 0
    → rm_app_config line ≡ done (files_of line)
unfolding rm_app_config no_options rm_param_check
config_files line none_given some_file =
    let there : (length (files_of line) == 0) ≡ false = ground arith in
    let parsed : no_options line.options ≡ done tt = ap no_options none_given in
    rw (rm_app_config, parsed, there)

-- What rm does are deletions one after another.
rm_app_run-changes :
    (D : Driver) (names : List (List ℕ)) (raid : NvmeRaid) (s : Sio)
    → Works D
    → IsValid raid
    → rm_app_run D names raid s ≡ changes D (map delete names) raid s
unfolding rm_app_run changes change
rm_app_run-changes D [] raid s w v = refl
rm_app_run-changes D (name ∷ names) raid s w v =
    let one = del_file-Removed D raid name s w v in
    rw (◌>>=◌, one.runs) (rm_app_run-changes D names one.after one.state w one.valid)

rm_app-tool :
    (D : Driver) (line : CommandLine)
    → line.options ≡ []
    → length (files_of line) ≢ 0
    → rm_app D line
      ≡ record { app_config = none; app_init = nothing; app_run = rm_app_run D (files_of line) }
unfolding rm_app
rm_app-tool D line none_given some_file =
    let files : rm_app_config line ≡ done (files_of line) =
      config_files line none_given some_file in
    rw (rm_app, files)

-- With a working driver whose sectors have 512 bytes and whose reads of a first sector give the
-- table that was written there last, and NVMes that make a raid and hold its tables: a run of the
-- program rm with at least one file and no options ends with 0, and the NVMes hold the tables of a
-- raid then which has no file of any of the names that is not empty.
pub main-rm_app :
    (D : Driver) (cs : List Controller) (line : CommandLine) (raid : NvmeRaid) (s : Sio)
    → Works D
    → Remembers D
    → CanHold cs
    → KeptOn D cs raid s
    → line.options ≡ []
    → length (files_of line) ≢ 0
    → (s' : Sio) × (raid' : NvmeRaid) × Ends D (rm_app D line) cs s 0 s'
      × KeptOn D cs raid' s'
      × AllAbsent raid' (files_of line)
main-rm_app D cs line raid s w remembers can k none_given some_file =
    let names : List (List ℕ) = files_of line in
    let (m, raid1, s1, linked, e, k1, _, _) =
      main-KeptOn D cs (rm_app_run D names) raid s w remembers can k in
    let (raid2, s2, ran, k2, same) = changes-Keeps D (map delete names) raid1 s1 w k1.kept in
    let (raid3, s3, runs, _, absent) = rm_app_run-AllAbsent D names raid1 s1 w k1.kept.valid in
    let all_ran : rm_app_run D names raid1 s1 ≡ done (raid2, s2) =
      rm_app_run-changes D names raid1 s1 w k1.kept.valid ∙ ran in
    (
      s2,
      raid2,
      (
        m,
        ap (λ app. main D app cs 0) (rm_app-tool D line none_given some_file) ∙ linked,
        e ∙ bind-done (rm_app_run D names raid1) (λ r. return 0) s1 all_ran,
      ),
      KeptOn-SameRaid D cs raid1 raid2 s1 s2 k1 k2 same,
      subst (λ r. AllAbsent r names) (done-same (sym runs ∙ all_ran)) absent,
    )
