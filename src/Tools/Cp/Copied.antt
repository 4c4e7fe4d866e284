-- ===== src/Tools/Cp/Copied.antt =====
-- src/cp/cp.c: a file that is copied to the raid and back.
use nvme_dpdk_pcapreplay.Prelude.{
  ℕ, ◌+◌, ◌*◌, ◌/◌, ◌%◌, ◌^◌, ◌<◌, ◌≡◌, sym, ap, ◌∙◌, true, false, none, some, List, ◌==◌, done,
  arith,
}
use mathlib.Core.Path.{subst}
use nvme_dpdk_pcapreplay.Layout.{
  MetaFile, NvmeRaid, sector_length, u32, super_sector_num, sub_u64, mul_u64,
}
use nvme_dpdk_pcapreplay.Table.{
  EntryRef, entry_at, find_file, right_free_block, new_entry, add_entry,
}
use nvme_dpdk_pcapreplay.Table.Invariant.{IsValid}
use nvme_dpdk_pcapreplay.Table.Files.{
  add_entry-CanAdd, add_entry-IsValid, find_file-add_entry, entry_at-add_entry, fresh_blocks,
}
use nvme_dpdk_pcapreplay.Driver.{Driver, Sio, return, bind-done}
use nvme_dpdk_pcapreplay.Simpleio.Sync.{Works}
use nvme_dpdk_pcapreplay.Transfer.Tasks.{Counted, Reports}
use nvme_dpdk_pcapreplay.Store.{Store, run}
use nvme_dpdk_pcapreplay.Store.Places.{Distinct}
use nvme_dpdk_pcapreplay.Store.RoundTrip.{after}
use nvme_dpdk_pcapreplay.Pinned.{sio_rread_pinit, sio_rwrite_pinit}
use nvme_dpdk_pcapreplay.Pinned.RoundTrip.{Spares, sio_rread_pinit-sio_rwrite_pinit}
use nvme_dpdk_pcapreplay.Fs.{update_raid, add_file}
use nvme_dpdk_pcapreplay.Fs.Quiet.{update_raid-quiet}
use nvme_dpdk_pcapreplay.Tools.Cp.{
  Files, Params, no_params, write_regular, write_file, to_the_raid, from_the_raid, cp_app_run,
}

-- `cp --from-sys … --to-raid …` and `cp --from-raid … --to-sys …`
abbrev pub cp_to_raid : List ℕ → List ℕ → Params
cp_to_raid from to = record no_params { from_sys = some from; to_raid = some to }

abbrev pub cp_from_raid : List ℕ → List ℕ → Params
cp_from_raid from to = record no_params { from_raid = some from; to_sys = some to }

module _ (D : Driver) (fs : Files) (memory : ℕ → ℕ) (raid raid' : NvmeRaid) (p : EntryRef)
    (from name to : List ℕ) (blocks : ℕ) where
  -- The first copy, up to the write.
  to_raid-write :
      (s s0 s1 : Sio)
      → fs.size_of from ≡ some (blocks * sector_length)
      → add_entry raid name blocks ≡ some (p, raid')
      → find_file raid name ≡ none
      → 0 < blocks
      → blocks < 2 ^ 32
      → update_raid D raid' s ≡ done (tt, s0)
      → sio_rwrite_pinit D raid' (fs.map_at from) (entry_at raid' p).start_block blocks s0
        ≡ done (0, s1)
      → to_the_raid D fs memory false from name raid s ≡ done (raid', s1)
  unfolding to_the_raid write_file write_regular add_file
  to_raid-write s s0 s1 size adds fresh some_blocks few stored wrote =
      let same : u32 blocks ≡ blocks = omega arith in
      let whole : (blocks * sector_length % sector_length == 0) ≡ true = ground arith in
      let count : blocks * sector_length / sector_length ≡ blocks = omega arith in
      let more : (blocks == 0) ≡ false = ground arith in
      let map : ℕ = fs.map_at from in
      let start : ℕ = (entry_at raid' p).start_block in
      let added : add_file D raid name blocks s ≡ done ((some p, raid'), s0) =
        rw (add_file, adds)
          (bind-done (update_raid D raid') (λ _. return (some p, raid')) s stored) in
      let regular : write_regular D fs raid' (some p) map (blocks * sector_length) blocks s0
          ≡ done (tt, s1) =
        rw (write_regular, whole, more, same)
          (bind-done (sio_rwrite_pinit D raid' map start blocks) (λ _. return tt) s0 wrote) in
      rw (to_the_raid, size, fresh, whole, count)
        (bind-done (add_file D raid name blocks)
            (λ (q, r). write_file D fs memory false from (blocks * sector_length) blocks q r) s
            added
          ∙ bind-done (write_regular D fs raid' (some p) map (blocks * sector_length) blocks)
              (λ _. return raid') s0 regular)

  from_raid-read :
      (s1 s2 : Sio)
      → find_file raid' name ≡ some p
      → sub_u64 (entry_at raid' p).end_block (entry_at raid' p).start_block ≡ blocks
      → blocks < 2 ^ 32
      → fs.can_write to ≡ true
      → fs.can_resize to (mul_u64 blocks sector_length) ≡ true
      → sio_rread_pinit D raid' (fs.map_at to) (entry_at raid' p).start_block blocks s1
        ≡ done (0, s2)
      → from_the_raid D fs name to raid' s1 ≡ done (raid', s2)
  unfolding from_the_raid
  from_raid-read s1 s2 found count few writes sized read =
      let same : u32 blocks ≡ blocks = omega arith in
      rw (from_the_raid, found, count, same, writes, sized)
        (bind-done (sio_rread_pinit D raid' (fs.map_at to) (entry_at raid' p).start_block blocks)
          (λ _. return raid') s1 read)

-- With a working driver whose sectors have 512 bytes, that carries every command out at once and
-- reports every task, on a raid in order whose NVMes have different handles and with right
-- counters: a file of the system of fewer than 2^32 sectors, all of them whole, for which the raid
-- has room under a new name, is copied to the raid and from there to another file of the system,
-- byte for byte, when that file can be written and no pinned memory meets the two files in memory.
-- Both runs of `cp` return, and leave the raid as `addFile` has made it.
pub cp_app_run-returns_copy :
    (D : Driver) (fs : Files) (memory : ℕ → ℕ) (raid raid' : NvmeRaid) (p : EntryRef)
    (from name to : List ℕ) (blocks : ℕ) (s : Sio) (st : Store) (k : ℕ)
    → Works D
    → IsValid raid
    → Distinct raid'
    → Reports D raid'
    → Counted D s
    → add_entry raid name blocks ≡ some (p, raid')
    → raid.total_blocks + super_sector_num < 2 ^ 64
    → blocks < 2 ^ 32
    → fs.size_of from ≡ some (blocks * sector_length)
    → fs.can_write to ≡ true
    → fs.can_resize to (blocks * sector_length) ≡ true
    → Spares D (fs.map_at from) (blocks * sector_length)
    → Spares D (fs.map_at to) (blocks * sector_length)
    → k < blocks * sector_length
    → (s1 : Sio) × (s2 : Sio) × (cp_app_run D fs memory (cp_to_raid from name) raid s
        ≡ done (raid', s1))
      × (cp_app_run D fs memory (cp_from_raid name to) raid' s1 ≡ done (raid', s2))
      × ((after D s2 st).memory (fs.map_at to + k) ≡ (after D s st).memory (fs.map_at from + k))
unfolding cp_app_run
cp_app_run-returns_copy D fs memory raid raid' p from name to blocks s st k w v distinct reports c
      adds room small size writes sized spares spares' inside =
    let (can, is) = add_entry-CanAdd raid name blocks p raid' adds in
    let found : find_file raid' name ≡ some p =
      (find_file-add_entry name blocks p raid' v adds).0 in
    let entry : entry_at raid' p ≡ new_entry raid name blocks =
      entry_at-add_entry raid name blocks p raid' adds in
    let start : ℕ = (entry_at raid' p).start_block in
    let (ends, low) = fresh_blocks name blocks p v can in
    let starts : start ≡ right_free_block raid = ap (λ (e : MetaFile). e.start_block) entry in
    let finishes : (entry_at raid' p).end_block ≡ right_free_block raid + blocks =
      ap (λ (e : MetaFile). e.end_block) entry ∙ ends in
    let count : sub_u64 (entry_at raid' p).end_block start ≡ blocks =
      omega (arith, starts, finishes) in
    let bytes : mul_u64 blocks sector_length ≡ blocks * sector_length = omega arith in
    let (s0, stored, c0, quiet) = update_raid-quiet D raid' s w c in
    let j : ℕ = k / sector_length in
    let o : ℕ = k % sector_length in
    let (s1, s2, wrote, read, same) =
      sio_rread_pinit-sio_rwrite_pinit D raid' (fs.map_at from) (fs.map_at to) start blocks s0 st j
        o w.accepts (add_entry-IsValid name blocks p raid' v adds).some_disk distinct reports c0
        spares spares' (omega (arith, starts, low)) (omega arith) (omega arith) in
    let here : fs.map_at to + k ≡ fs.map_at to + j * sector_length + o = omega arith in
    let there : fs.map_at from + j * sector_length + o ≡ fs.map_at from + k = omega arith in
    (
      s1,
      s2,
      to_raid-write D fs memory raid raid' p from name to blocks s s0 s1 size adds can.is_new
          (omega arith) small stored wrote,
      from_raid-read D fs memory raid raid' p from name to blocks s1 s2 found count small writes
          (subst (λ b. fs.can_resize to b ≡ true) (sym bytes) sized) read,
      ap (λ a. (after D s2 st).memory a) here
          ∙ same
          ∙ ap (λ a. (after D s0 st).memory a) there
          ∙ ap (λ ms. (run ms st).memory (fs.map_at from + k)) quiet,
    )
