-- ===== src/Simpleio.antt =====
-- src/simpleio.c, `sio_sectorSize` to `sio_write_pinit`: transfers between memory and one NVMe.
pub mod Sync
use nvme_dpdk_pcapreplay.Prelude.{
  ℕ, zero, suc, ◌+◌, ◌-◌, ◌*◌, ◌/◌, ◌%◌, ◌^◌, Bool, true, false, Option, none, some, List, [], ◌∷◌,
  ltb, leb, ◌==◌, if◌then◌else◌, get_or, Outcome, done, exits, hangs, overruns,
}
use nvme_dpdk_pcapreplay.Layout.{
  MetaSector, Idisk, NvmeRaid, null_disk, active, super_sector_num, super_sector_length,
  sector_length, u32, add_u64,
}
use nvme_dpdk_pcapreplay.Stripe.{super_getdisk, super_getdisklba}
use nvme_dpdk_pcapreplay.Driver.{
  sector, Counter, task, waiting, Payload, address, Direction, reads, writes, Command, Call, malloc,
  submit, process, Driver, Sio, Io, ◌>>=◌, ◌>>◌, return, exit_failure, minus_one, add_call,
}

abbrev pub disk_at : NvmeRaid → ℕ → Idisk
disk_at raid i = get_or raid.disk i null_disk

-- `sio_read_complete` and `sio_write_complete`, for each callback that the driver makes: the
-- counter of the waiting call, and the state.
unfoldable pub complete : List Counter → ℕ → Sio → ℕ × Sio
complete [] completed s = (completed, s)
complete (task ∷ cs) completed s =
    complete cs completed (record s { task_completed = add_u64 s.task_completed 1 })
complete (waiting ∷ cs) completed s = complete cs (add_u64 completed 1) s

module _ (D : Driver) where
  -- spdk_nvme_qpair_process_completions, with the callbacks that it makes.
  unfoldable pub process_completions : ℕ → ℕ → Sio → ℕ × Sio
  unfolding complete
  process_completions qpair completed s =
      let h = process qpair ∷ s.history in
      complete (D.callbacks h) completed (record s { history = h })

  -- `while (!completed) spdk_nvme_qpair_process_completions (…)`
  unfoldable pub poll : ℕ → ℕ → ℕ → Io Unit
  unfolding process_completions
  poll zero qpair completed s = if completed == 0 then hangs else done (tt, s)
  poll (suc fuel) qpair completed s = elim (completed == 0) [
    | true ↦
        (let (completed', s') = process_completions qpair completed s in
          poll fuel qpair completed' s')
    | false ↦ done (tt, s)
  ]

  -- Hands a command to the driver.
  unfoldable pub issue : Command → Sio → ℕ × Sio
  issue c s = let h = submit c ∷ s.history in (D.submit_rc h, record s { history = h })

  -- `sio_read` and `sio_write`, which differ in the command alone.
  unfoldable pub sio_sync : Direction → Idisk → Payload → ℕ → ℕ → Io ℕ
  unfolding issue poll
  sio_sync dir dsk payload lba lba_count s =
      let (rc, s') =
        issue
          (record {
            direction = dir;
            ns = dsk.ns;
            qpair = dsk.qpair;
            payload = payload;
            lba = lba;
            lba_count = lba_count;
            counter = waiting;
          })
          s in
      if rc == 0 then (poll D.patience dsk.qpair 0 >> return rc) s' else done (rc, s')

  unfoldable pub sio_read : Idisk → Payload → ℕ → ℕ → Io ℕ
  unfolding sio_sync
  sio_read = sio_sync reads

  unfoldable pub sio_write : Idisk → Payload → ℕ → ℕ → Io ℕ
  unfolding sio_sync
  sio_write = sio_sync writes

  unfoldable pub sio_sector_size : Idisk → ℕ
  sio_sector_size dsk = D.sector_size dsk.ns

  -- spdk_malloc
  unfoldable pub pin_memory : ℕ → Sio → Option ℕ × Sio
  pin_memory n s = let h = malloc n ∷ s.history in (D.malloc_at h, record s { history = h })

  -- The result is the status, and what `*payload`, a metadata sector, holds then. A copy of another
  -- size from the pinned memory runs past it.
  unfoldable pub sio_read_pinit : Idisk → MetaSector → ℕ → ℕ → Io (ℕ × MetaSector)
  unfolding pin_memory sio_read sio_sector_size
  sio_read_pinit dsk m lba lba_count s =
      let (mem, s') = pin_memory (lba_count * sio_sector_size dsk) s in
      elim mem [
        | none ↦ done ((minus_one, m), s')
        | some at ↦
            (do
              ret ← sio_read dsk (address at) lba lba_count
              λ s''.
                  if lba_count * sio_sector_size dsk == sector_length
                  then done ((ret, D.read_sector s''.history), s'')
                  else overruns)
              s'
      ]

  -- The pinned copy of `*payload`, a metadata sector, is given to the command as what it holds. A copy
  -- of another size reads past it.
  unfoldable pub sio_write_pinit : Idisk → MetaSector → ℕ → ℕ → Io ℕ
  unfolding pin_memory sio_write sio_sector_size
  sio_write_pinit dsk m lba lba_count s =
      let (mem, s') = pin_memory (lba_count * sio_sector_size dsk) s in
      elim mem [
        | none ↦ done (minus_one, s')
        | some at ↦
            if lba_count * sio_sector_size dsk == sector_length
            then sio_write dsk (sector m) lba lba_count s'
            else overruns
      ]
