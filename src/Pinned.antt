-- ===== src/Pinned.antt =====
-- src/simpleio.c, `sio_rread_pinit` and `sio_rwrite_pinit`: transfers across the raid of memory that
-- the NVMes cannot reach, through a buffer of one super sector for each NVMe. `spdk_free` does
-- nothing that the model sees.
pub mod Chunk
pub mod Parts
pub mod Loops
pub mod RoundTrip
use nvme_dpdk_pcapreplay.Prelude.{
  ℕ, zero, suc, ◌+◌, ◌-◌, ◌*◌, true, false, none, some, leb, ◌==◌, if◌then◌else◌, done, hangs,
}
use nvme_dpdk_pcapreplay.Layout.{NvmeRaid, sector_length, add_u64}
use nvme_dpdk_pcapreplay.Driver.{copy, Driver, Io, ◌>>=◌, ◌>>◌, return, exit_failure, add_call}
use nvme_dpdk_pcapreplay.Simpleio.{pin_memory}
use nvme_dpdk_pcapreplay.Transfer.{
  giga_sector_num, giga_sector_length, Rest, sio_rread, sio_rwrite, sio_waittasks,
}

-- `memcpy (to, from, n)`
abbrev memcpy_call : ℕ → ℕ → ℕ → Io Unit
memcpy_call to from n s = done (tt, add_call (copy n to from) s)

-- The variables after one round of a loop.
abbrev pub next_giga : NvmeRaid → Rest → Rest
next_giga raid v = record {
  rc = 0;
  payload = v.payload + giga_sector_length raid;
  lba = add_u64 v.lba (giga_sector_num raid);
  lba_count = v.lba_count - giga_sector_num raid;
}

module _ (D : Driver) where
  -- The loop of `sio_rread_pinit`, through the buffer at `mem`. A failed read ends it.
  unfoldable pub giga_reads : ℕ → NvmeRaid → ℕ → Rest → Io Rest
  giga_reads zero raid mem v s = hangs
  giga_reads (suc fuel) raid mem v s = elim (leb (giga_sector_num raid) v.lba_count) [
    | false ↦ done (v, s)
    | true ↦
        (do
          rc ← sio_rread D raid mem v.lba (giga_sector_num raid)
          if rc == 0
              then (sio_waittasks D raid
                  >> memcpy_call v.payload mem (giga_sector_length raid)
                  >> giga_reads fuel raid mem (next_giga raid v))
              else return (record v { rc = rc }))
          s
  ]

  -- The loop of `sio_rwrite_pinit`.
  unfoldable pub giga_writes : ℕ → NvmeRaid → ℕ → Rest → Io Rest
  giga_writes zero raid mem v s = hangs
  giga_writes (suc fuel) raid mem v s = elim (leb (giga_sector_num raid) v.lba_count) [
    | false ↦ done (v, s)
    | true ↦
        (do
          memcpy_call mem v.payload (giga_sector_length raid)
          rc ← sio_rwrite D raid mem v.lba (giga_sector_num raid)
          if rc == 0
              then (sio_waittasks D raid >> giga_writes fuel raid mem (next_giga raid v))
              else return (record v { rc = rc }))
          s
  ]

  -- Each round but the last takes at least one block, when the raid has an NVMe.
  unfoldable pub sio_rread_pinit : NvmeRaid → ℕ → ℕ → ℕ → Io ℕ
  unfolding giga_reads
  sio_rread_pinit raid payload lba lba_count s =
      let (mem, s') = pin_memory D (giga_sector_length raid) s in
      elim mem [
        | none ↦ exit_failure s'
        | some at ↦
            (do
              v ←
                  giga_reads (suc lba_count) raid at
                    (record { rc = 0; payload = payload; lba = lba; lba_count = lba_count })
              if v.rc == 0
                  then (if v.lba_count == 0 then return 0 else (do
                    rc ← sio_rread D raid at v.lba v.lba_count
                    sio_waittasks D raid
                    memcpy_call v.payload at (v.lba_count * sector_length)
                    return rc))
                  else return v.rc)
              s'
      ]

  unfoldable pub sio_rwrite_pinit : NvmeRaid → ℕ → ℕ → ℕ → Io ℕ
  unfolding giga_writes
  sio_rwrite_pinit raid payload lba lba_count s =
      let (mem, s') = pin_memory D (giga_sector_length raid) s in
      elim mem [
        | none ↦ exit_failure s'
        | some at ↦
            (do
              v ←
                  giga_writes (suc lba_count) raid at
                    (record { rc = 0; payload = payload; lba = lba; lba_count = lba_count })
              if v.rc == 0
                  then (if v.lba_count == 0 then return 0 else (do
                    memcpy_call at v.payload (v.lba_count * sector_length)
                    rc ← sio_rwrite D raid at v.lba v.lba_count
                    sio_waittasks D raid
                    return rc))
                  else return v.rc)
              s'
      ]
