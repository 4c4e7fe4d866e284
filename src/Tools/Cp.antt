-- ===== src/Tools/Cp.antt =====
-- src/cp/cp.c: copies of files between the system and the raid.
pub mod Check
pub mod Copied
use nvme_dpdk_pcapreplay.Prelude.{
  ℕ, zero, suc, ◌+◌, ◌-◌, ◌*◌, ◌/◌, ◌%◌, ◌^◌, Bool, true, false, Option, none, some, List, [], ◌∷◌,
  ltb, ◌==◌, if◌then◌else◌, ◌&&◌, ◌||◌, not, length, get_or, Outcome, done, exits,
}
use nvme_dpdk_pcapreplay.Layout.{
  MetaFile, NvmeRaid, null_disk, sector_length, u32, add_u64, sub_u64, mul_u64,
}
use nvme_dpdk_pcapreplay.Table.{EntryRef, entry_at, modify_entry, find_file}
use nvme_dpdk_pcapreplay.Driver.{Call, malloc, copy, Driver, Sio, Io, ◌>>=◌, ◌>>◌, return, add_call}
use nvme_dpdk_pcapreplay.Simpleio.{pin_memory}
use nvme_dpdk_pcapreplay.Transfer.{sio_rwrite}
use nvme_dpdk_pcapreplay.Pinned.{sio_rread_pinit, sio_rwrite_pinit}
use nvme_dpdk_pcapreplay.Fs.{update_raid, add_file}
use nvme_dpdk_pcapreplay.Spcap.{Spcap, init_spcap, write_pcap2raid, free_spcap}

-- The files of the system: the size of one that fopen opens for reading, whether it opens one for
-- writing and ftruncate gives it a size, where mmap puts it, which is taken not to fail, and the
-- packets that libpcap finds in it.
pub record Files : Type 0 where
  pub size_of : List ℕ → Option ℕ
  pub can_write : List ℕ → Bool
  pub can_resize : List ℕ → ℕ → Bool
  pub map_at : List ℕ → ℕ
  pub packets_of : List ℕ → Option (List (ℕ × ℕ × List ℕ))

-- The names that were given, and the flag of `--nscap`.
pub record Params : Type 0 where
  pub from_sys : Option (List ℕ)
  pub from_raid : Option (List ℕ)
  pub to_sys : Option (List ℕ)
  pub to_raid : Option (List ℕ)
  pub nscap : Bool

abbrev pub given : Option (List ℕ) → Bool
given none = false
given (some name) = true

-- `stopExecution` at the end of `app_paramCheck`.
unfoldable pub app_param_check : Params → Bool
app_param_check a =
    (given a.from_sys && given a.to_sys)
    || ((given a.from_raid && given a.to_raid)
        || ((given a.from_sys && not (given a.to_raid))
            || ((given a.from_raid && not (given a.to_sys))
                || ((not (given a.from_sys) && given a.to_raid)
                    || ((not (given a.from_raid) && given a.to_sys)
                        || ((not (given a.from_sys)
                              && (not (given a.from_raid)
                                  && (not (given a.to_sys) && not (given a.to_raid))))
                            || ((given a.from_sys && given a.from_raid)
                                || (given a.to_sys && given a.to_raid))))))))

-- What getopt_long hands over.
pub data CpOpt : Type 0 where
  from_sys_opt from_raid_opt to_sys_opt to_raid_opt : List ℕ → CpOpt
  nscap_opt help_opt : CpOpt

-- FILENAME_MAX of the GNU C library.
abbrev pub filename_max : ℕ
filename_max = 4096

abbrev pub no_params : Params
no_params = record {
  from_sys = none;
  from_raid = none;
  to_sys = none;
  to_raid = none;
  nscap = false;
}

-- The getopt_long loop of `app_config`, and the check at its end. A mistake is like `--help`.
unfoldable pub cp_app_config : List CpOpt → Params → Outcome Params
unfolding app_param_check
cp_app_config [] a = if app_param_check a then exits 255 else done a
cp_app_config (from_sys_opt n ∷ os) a = cp_app_config os (record a { from_sys = some n })
cp_app_config (from_raid_opt n ∷ os) a =
    let rest = cp_app_config os (record a { from_raid = some n }) in
    if ltb filename_max (length n) then exits 255 else rest
cp_app_config (to_sys_opt n ∷ os) a = cp_app_config os (record a { to_sys = some n })
cp_app_config (to_raid_opt n ∷ os) a =
    let rest = cp_app_config os (record a { to_raid = some n }) in
    if ltb filename_max (length n) then exits 255 else rest
cp_app_config (nscap_opt ∷ os) a = cp_app_config os (record a { nscap = true })
cp_app_config (help_opt ∷ os) a = exits 1

-- A NULL pointer that is followed ends the program by SIGSEGV.
abbrev pub segfault : {A : Type 0} → Io A
segfault s = exits 139

-- `raid_file->endBlock = raid_file->startBlock + blocks`
abbrev pub set_end : EntryRef → ℕ → NvmeRaid → NvmeRaid
set_end p blocks raid = record raid {
  disk = modify_entry p (λ e. record e { end_block = add_u64 e.start_block blocks }) raid.disk;
}

abbrev pub copy_call : ℕ → ℕ → ℕ → Io Unit
copy_call to from n s = done (tt, add_call (copy n to from) s)

module _ (D : Driver) (fs : Files) where
  -- The last part of a sector, through a buffer of zeroes.
  unfoldable pub write_padding : NvmeRaid → ℕ → ℕ → ℕ → ℕ → Io Unit
  unfolding pin_memory
  write_padding raid map size blocks start s =
      let (mem, s') = pin_memory D sector_length s in
      elim mem [
        | none ↦ exits 139
        | some padding ↦
            (copy_call padding (map + blocks * sector_length) (size - blocks * sector_length)
                >> sio_rwrite D raid padding (add_u64 start blocks) 1
                >> return tt)
              s'
      ]

  -- The part of `app_run` for a file that is not a capture, once the raid has an entry for it, or
  -- NULL. The status of a write is dropped.
  unfoldable pub write_regular : NvmeRaid → Option EntryRef → ℕ → ℕ → ℕ → Io Unit
  unfolding write_padding
  write_regular raid none map size blocks = if blocks == 0 then return tt else segfault
  write_regular raid (some p) map size blocks =
      let start = (entry_at raid p).start_block in
      if size % sector_length == 0
      then (if blocks == 0
          then return tt
          else sio_rwrite_pinit D raid map start (u32 blocks) >> return tt)
      else (write_padding raid map size (blocks - 1) start
          >> (if blocks - 1 == 0
              then return tt
              else sio_rwrite_pinit D raid map start (u32 (blocks - 1)) >> return tt))

  -- The part for a capture. The memory is what the program's buffers hold.
  unfoldable pub write_capture :
      (ℕ → ℕ) → NvmeRaid → Option EntryRef → Option (List (ℕ × ℕ × List ℕ)) → Io NvmeRaid
  write_capture memory raid none pkts = segfault
  write_capture memory raid (some p) pkts = do
    let raid' = set_end p 0 raid
    (rc, sp) ← init_spcap D memory raid' p (entry_at raid' p).start_block
    sp' ← write_pcap2raid D sp pkts
    sp'' ← free_spcap D sp'
    return sp''.raid

  -- What follows the look for the name on the raid, in `app_run`.
  unfoldable pub write_file :
      (ℕ → ℕ) → Bool → List ℕ → ℕ → ℕ → Option EntryRef → NvmeRaid → Io NvmeRaid
  unfolding write_regular write_capture
  write_file memory nscap from size blocks p raid =
      if nscap
      then write_capture memory raid p (fs.packets_of from)
      else (write_regular raid p (fs.map_at from) size blocks >> return raid)

  -- From the system to the raid.
  unfoldable pub to_the_raid : (ℕ → ℕ) → Bool → List ℕ → List ℕ → NvmeRaid → Io NvmeRaid
  unfolding write_file
  to_the_raid memory nscap from to raid = elim (fs.size_of from) [
    | none ↦ return raid
    | some size ↦
        let blocks =
          (if size % sector_length == 0 then size / sector_length else size / sector_length + 1) in
        elim (find_file raid to) [
          | some p ↦
              let e = entry_at raid p in
              if ltb (mul_u64 (sub_u64 e.end_block e.start_block) sector_length) size
              then return raid
              else (if nscap
                  then return raid
                  else (update_raid D (set_end p blocks raid)
                      >> write_file memory nscap from size blocks (some p) (set_end p blocks raid)))
          | none ↦ add_file D raid to blocks >>= λ (p, raid').
              write_file memory nscap from size blocks p raid'
        ]
  ]

  -- From the raid to the system.
  unfoldable pub from_the_raid : List ℕ → List ℕ → NvmeRaid → Io NvmeRaid
  from_the_raid from to raid = elim (find_file raid from) [
    | none ↦ return raid
    | some p ↦
        let e = entry_at raid p in
        let blocks = sub_u64 e.end_block e.start_block in
        if fs.can_write to && fs.can_resize to (mul_u64 blocks sector_length)
        then sio_rread_pinit D raid (fs.map_at to) e.start_block (u32 blocks) >> return raid
        else return raid
  ]

  -- `app_run`, with the parameters that the check has let pass.
  unfoldable pub cp_app_run : (ℕ → ℕ) → Params → NvmeRaid → Io NvmeRaid
  unfolding to_the_raid from_the_raid
  cp_app_run memory a raid =
      let back : Io NvmeRaid = elim a.from_raid [
        | none ↦ return raid
        | some from ↦ elim a.to_sys [ none ↦ return raid | some to ↦ from_the_raid from to raid ]
      ] in
      elim a.from_sys [
        | none ↦ back
        | some from ↦ elim a.to_raid [
          | none ↦ back
          | some to ↦ to_the_raid memory a.nscap from to raid
        ]
      ]
