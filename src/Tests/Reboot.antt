-- ===== src/Tests/Reboot.antt =====
-- A driver that gives back the tables that were written, and the next run of a program.
use nvme_dpdk_pcapreplay.Prelude.{
  ℕ, zero, suc, ◌≡◌, refl, sym, ap, ◌∙◌, inl, inr, Option, none, some, List, [], ◌∷◌, ◌==◌, ◌&&◌,
  if◌then◌else◌, done, arith, Bool-cases,
}
use nvme_dpdk_pcapreplay.Layout.{MetaSector, NvmeRaid, active}
use nvme_dpdk_pcapreplay.Driver.{Call, malloc, copy, submit, process, reads, address, Driver, Sio}
use nvme_dpdk_pcapreplay.Simpleio.Sync.{Works, looks, sync_command}
use nvme_dpdk_pcapreplay.Fs.{format_raid, create_raid}
use nvme_dpdk_pcapreplay.Fs.Reads.{is_write, sector_zero, Remembers}
use nvme_dpdk_pcapreplay.Table.Invariant.{IsValid}
use nvme_dpdk_pcapreplay.Fs.Restart.{rebooted}
use nvme_dpdk_pcapreplay.Fs.Kept.{CanFormat}
use nvme_dpdk_pcapreplay.Fs.Session.{Change, add, delete, changes, create_raid-changes-format_raid}
use nvme_dpdk_pcapreplay.Start.{Controller, new_disk}
use nvme_dpdk_pcapreplay.Tools.Removed.{AllAbsent}
use nvme_dpdk_pcapreplay.Tools.Options.{CommandLine}
use nvme_dpdk_pcapreplay.Tools.Programs.{rm_app, format_app}
use nvme_dpdk_pcapreplay.Tools.Programs.Found.{CanHold, KeptOn}
use nvme_dpdk_pcapreplay.Tools.Programs.Runs.{Ends, main-format_app, main-rm_app}
use nvme_dpdk_pcapreplay.Tests.Boot.{three, one}
use nvme_dpdk_pcapreplay.Tests.Fixtures.{good_driver, good_driver-Works, blank_sector, start}

abbrev table_or_blank : Option MetaSector → MetaSector
table_or_blank none = blank_sector
table_or_blank (some t) = t

-- The table that the last read asked for.
abbrev read_back : List Call → MetaSector
unfolding sector_zero
read_back [] = blank_sector
read_back (malloc n ∷ h) = read_back h
read_back (copy n to from ∷ h) = read_back h
read_back (process q ∷ h) = read_back h
read_back (submit c ∷ h) =
    let before = read_back h in
    if is_write c.direction then before else table_or_blank (sector_zero good_driver c.ns h)

abbrev recalling_driver : Driver
unfolding read_back
recalling_driver = record good_driver { read_sector = read_back }

recalling_driver-Works : Works recalling_driver
unfolding recalling_driver
recalling_driver-Works = record {
  sectors = good_driver-Works.sectors;
  memory = good_driver-Works.memory;
  accepts = good_driver-Works.accepts;
  once = good_driver-Works.once;
  reported = good_driver-Works.reported;
}

same_zero :
    (ns : ℕ) (h : List Call) → sector_zero recalling_driver ns h ≡ sector_zero good_driver ns h
unfolding sector_zero
same_zero ns [] = refl
same_zero ns (malloc n ∷ h) = same_zero ns h
same_zero ns (copy n to from ∷ h) = same_zero ns h
same_zero ns (process q ∷ h) = same_zero ns h
same_zero ns (submit c ∷ h) =
    elim (Bool-cases (is_write c.direction && (c.ns == ns && c.lba == 0))) [
      | inl hit ↦ rw hit
      | inr miss ↦ rw miss (same_zero ns h)
    ]

read_back-looks : (q m : ℕ) (h : List Call) → read_back (looks q m h) ≡ read_back h
unfolding read_back
read_back-looks q zero h = refl
read_back-looks q (suc m) h = read_back-looks q m (process q ∷ h)

recalling_driver-Remembers : Remembers recalling_driver
unfolding read_back
recalling_driver-Remembers dsk at m h t there =
    read_back-looks dsk.qpair m (submit (sync_command reads dsk (address at) 0 1) ∷ h)
    ∙ ap table_or_blank (sym (same_zero dsk.ns h) ∙ there)

-- Two NVMes as SPDK finds them.
abbrev fresh : NvmeRaid
fresh = record {
  disk =
      record new_disk { ns = 1; qpair = 101 }
      ∷ record new_disk { ns = 4; qpair = 104 }
      ∷ new_disk
      ∷ [];
  numdisks = 2;
  num_files = 0;
  total_blocks = 10000;
}

fresh-CanFormat : CanFormat fresh
fresh-CanFormat = record {
  some_disk = omega arith;
  few_disks = omega arith;
  array = omega arith;
  full_tables = refl;
  reserved = omega arith;
  range = omega arith;
  no_files = refl;
  different = omega arith;
}

-- The file "a" is added, deleted twice, and added again.
abbrev a_name : List ℕ
a_name = b'a' ∷ []

abbrev some_changes : List Change
some_changes = add a_name 10 ∷ delete a_name ∷ delete a_name ∷ add a_name 20 ∷ []

create_raid-changes-format_raid_example :
    (raid1 : NvmeRaid) × (s1 : Sio) × (raid2 : NvmeRaid) × (s2 : Sio) × (raid3 : NvmeRaid)
    × (s3 : Sio) × (format_raid recalling_driver fresh start ≡ done (raid1, s1))
    × (changes recalling_driver some_changes raid1 s1 ≡ done (raid2, s2))
    × IsValid raid2
    × (create_raid recalling_driver (rebooted blank_sector raid2) s2 ≡ done (raid3, s3))
    × (active raid3 ≡ active raid2)
    × (raid3.num_files ≡ raid2.num_files)
create_raid-changes-format_raid_example =
    create_raid-changes-format_raid recalling_driver fresh some_changes blank_sector start
      recalling_driver-Works recalling_driver-Remembers fresh-CanFormat

abbrev controllers : List Controller
controllers = three ∷ one ∷ []

controllers-CanHold : CanHold controllers
controllers-CanHold = record {
  few = omega arith;
  some_disk = omega arith;
  different = omega arith;
  reserved = omega arith;
  range = omega arith;
}

main-format_app_example :
    (s' : Sio) × (raid : NvmeRaid) × Ends recalling_driver
      (format_app recalling_driver [])
      controllers
      start
      0
      s'
    × KeptOn recalling_driver controllers raid s'
    × (raid.num_files ≡ 0)
main-format_app_example =
    main-format_app recalling_driver controllers start recalling_driver-Works
      recalling_driver-Remembers controllers-CanHold

-- The NVMes after a run of format, and the raid that they hold.
abbrev after_format :
    (s' : Sio) × (raid : NvmeRaid) × Ends recalling_driver
      (format_app recalling_driver [])
      controllers
      start
      0
      s'
    × KeptOn recalling_driver controllers raid s'
    × (raid.num_files ≡ 0)
after_format =
    main-format_app recalling_driver controllers start recalling_driver-Works
      recalling_driver-Remembers controllers-CanHold

-- `rm a`
abbrev rm_line : CommandLine
rm_line = record { argv = (b'r' ∷ b'm' ∷ []) ∷ a_name ∷ []; options = []; optind = 1 }

main-rm_app_example :
    (s' : Sio) × (raid' : NvmeRaid) × Ends recalling_driver
      (rm_app recalling_driver rm_line)
      controllers
      after_format.0
      0
      s'
    × KeptOn recalling_driver controllers raid' s'
    × AllAbsent raid' (a_name ∷ [])
main-rm_app_example =
    main-rm_app recalling_driver controllers rm_line after_format.1 after_format.0
      recalling_driver-Works recalling_driver-Remembers controllers-CanHold after_format.3 refl
      (omega arith)
