-- ===== src/Tests/Copies.antt =====
-- Files copied by `cp`, and listed by `ls`.
use nvme_dpdk_pcapreplay.Prelude.{
  zero, suc, ◌+◌, ◌≡◌, refl, true, none, some, inl, not, done, length, arith,
}
use nvme_dpdk_pcapreplay.Layout.{active}
use nvme_dpdk_pcapreplay.Table.{memcpy_bytes, modify_entry, set_total}
use nvme_dpdk_pcapreplay.Driver.{Sio}
use nvme_dpdk_pcapreplay.Transfer.Tasks.{Reports}
use nvme_dpdk_pcapreplay.Store.{Store}
use nvme_dpdk_pcapreplay.Store.Places.{Distinct}
use nvme_dpdk_pcapreplay.Store.RoundTrip.{after}
use nvme_dpdk_pcapreplay.Tools.Cp.{Files, app_param_check, cp_app_run}
use nvme_dpdk_pcapreplay.Tools.Cp.Check.{one_way, app_param_check-one_way}
use nvme_dpdk_pcapreplay.Tools.Cp.Copied.{cp_to_raid, cp_from_raid, cp_app_run-returns_copy}
use nvme_dpdk_pcapreplay.Tests.Fixtures.{All-replicate, start, one_disk, one_disk-IsValid}
use nvme_dpdk_pcapreplay.Tests.Drivers.{prompt_driver, prompt_driver-Works, start-Counted, settles}
use nvme_dpdk_pcapreplay.Tests.Files.{name, first_slot, with_file, with_file-IsValid, adds}
use nvme_dpdk_pcapreplay.Table.Search.{All, entries}
use nvme_dpdk_pcapreplay.Tools.Ls.{ls_app_run}
use nvme_dpdk_pcapreplay.Tools.Ls.Shown.{Terminated, used_files, without_ids, ls_app_run-used_files}

-- A system with one file of 512 sectors, and room for another.
abbrev system : Files
system = record {
  size_of = λ name. some 262144;
  can_write = λ name. true;
  can_resize = λ name n. true;
  map_at = λ name. 4096;
  packets_of = λ name. none;
}

abbrev plain : Store
plain = record { memory = λ a. a; disk = λ ns l o. 0 }

with_file-Reports : Reports prompt_driver with_file
unfolding modify_entry set_total memcpy_bytes
with_file-Reports h = (1, omega arith, settles 0 h)

with_file-Distinct : Distinct with_file
with_file-Distinct zero zero lt lt' e = refl
with_file-Distinct zero (suc j) lt lt' e = absurd (omega arith)
with_file-Distinct (suc i) j lt lt' e = absurd (omega arith)

cp_app_run-returns_copy_example :
    (s1 : Sio) × (s2 : Sio) × (cp_app_run prompt_driver system
        (λ a. 0)
        (cp_to_raid name name)
        one_disk
        start
      ≡ done (with_file, s1))
    × (cp_app_run prompt_driver system (λ a. 0) (cp_from_raid name name) with_file s1
        ≡ done (with_file, s2))
    × ((after prompt_driver s2 plain).memory (4096 + 1000)
        ≡ (after prompt_driver start plain).memory (4096 + 1000))
cp_app_run-returns_copy_example =
    cp_app_run-returns_copy prompt_driver system (λ a. 0) one_disk with_file first_slot name name
      name 512 start plain 1000 prompt_driver-Works one_disk-IsValid with_file-Distinct
      with_file-Reports start-Counted adds (omega arith) (omega arith) refl refl refl
      (λ n h. (1000000000, refl, inl (omega arith))) (λ n h. (1000000000, refl, inl (omega arith)))
      (omega arith)

app_param_check-one_way_example :
    app_param_check (cp_to_raid name name) ≡ not (one_way (cp_to_raid name name))
app_param_check-one_way_example = app_param_check-one_way (cp_to_raid name name)

with_file-Terminated : All Terminated (entries (active with_file))
unfolding modify_entry set_total memcpy_bytes
with_file-Terminated = (refl, All-replicate Terminated 11 refl)

-- `ls` of the raid with that file.
ls_app_run-used_files_example :
    (without_ids (ls_app_run with_file) ≡ used_files (entries (active with_file)))
    × (length (without_ids (ls_app_run with_file)) ≡ with_file.num_files)
ls_app_run-used_files_example =
    ls_app_run-used_files with_file with_file-IsValid with_file-Terminated
