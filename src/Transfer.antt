-- ===== src/Transfer.antt =====
-- src/simpleio.c, `sio_rread` to `sio_waittasks`: transfers across the raid, which are cut at the
-- super sectors and handed to the NVMes without waiting.
pub mod Blocks
pub mod Steps
pub mod Tasks
pub mod Counted
pub mod Coverage
pub mod Lost
use nvme_dpdk_pcapreplay.Prelude.{
  ℕ, zero, suc, ◌+◌, ◌-◌, ◌*◌, ◌/◌, ◌%◌, ◌^◌, Bool, true, false, Option, none, some, List, [], ◌∷◌,
  ltb, leb, ◌==◌, if◌then◌else◌, Outcome, done, exits, hangs,
}
use nvme_dpdk_pcapreplay.Layout.{
  Idisk, NvmeRaid, active, super_sector_num, super_sector_length, sector_length, u32, add_u64,
}
use nvme_dpdk_pcapreplay.Stripe.{super_getdisk, super_getdisklba}
use nvme_dpdk_pcapreplay.Driver.{
  task, address, Direction, reads, writes, Command, copy, Driver, Sio, Io, ◌>>=◌, ◌>>◌, return,
  exit_failure, add_call,
}
use nvme_dpdk_pcapreplay.Simpleio.{disk_at, process_completions, issue, pin_memory}

-- `SUPERSECTORNUM - lba % SUPERSECTORNUM`
abbrev pub room : ℕ → ℕ
room lba = super_sector_num - lba % super_sector_num

-- GIGASECTORNUM and GIGASECTORLENGTH
abbrev pub giga_sector_num : NvmeRaid → ℕ
giga_sector_num raid = super_sector_num * raid.numdisks

abbrev pub giga_sector_length : NvmeRaid → ℕ
giga_sector_length raid = super_sector_length * raid.numdisks

-- The command for `lba_count` blocks that lie on one NVMe.
unfoldable pub raid_command : Direction → NvmeRaid → ℕ → ℕ → ℕ → Command
raid_command dir raid payload lba lba_count =
    let dsk = disk_at raid (super_getdisk raid lba) in
    record {
      direction = dir;
      ns = dsk.ns;
      qpair = dsk.qpair;
      payload = address payload;
      lba = super_getdisklba raid lba;
      lba_count = lba_count;
      counter = task;
    }

-- `if (rc != 0) return rc;`
abbrev pub check : ℕ → Io ℕ → Io ℕ
check rc rest = if rc == 0 then rest else return rc

-- The variables of the loop over whole super sectors: what is left of the transfer.
pub record Rest : Type 0 where
  pub rc : ℕ
  pub payload : ℕ
  pub lba : ℕ
  pub lba_count : ℕ

module _ (D : Driver) where
  -- `for (i = 0; i < raid->numdisks; i++) spdk_nvme_qpair_process_completions (…)`, where no
  -- synchronous call waits.
  unfoldable pub check_completions : List Idisk → Io Unit
  check_completions [] s = done (tt, s)
  check_completions (d ∷ ds) s = check_completions ds (process_completions D d.qpair 0 s).1

  -- A command that is accepted counts as scheduled.
  unfoldable pub issue_task : Direction → NvmeRaid → ℕ → ℕ → ℕ → Io ℕ
  issue_task dir raid payload lba lba_count s =
      let (rc, s') = issue D (raid_command dir raid payload lba lba_count) s in
      if rc == 0
      then done (rc, record s' { task_scheduled = add_u64 s'.task_scheduled 1 })
      else done (rc, s')

  -- Whether `++k` asks for a look at the completions, which sets `k` back.
  unfoldable pub look_if : Bool → NvmeRaid → Io Unit
  look_if due raid = if due then check_completions (active raid) else return tt

  -- `while (lba_count >= SUPERSECTORNUM)`; the variable `k` counts the requests since the last look
  -- at the completions.
  unfoldable pub super_sectors : ℕ → Direction → NvmeRaid → ℕ → ℕ → ℕ → ℕ → Io Rest
  super_sectors zero dir raid k payload lba lba_count s = hangs
  super_sectors (suc fuel) dir raid k payload lba lba_count s =
      elim (leb super_sector_num lba_count) [
        | false ↦ done (record { rc = 0; payload = payload; lba = lba; lba_count = lba_count }, s)
        | true ↦
            (do
              rc ← issue_task dir raid payload lba super_sector_num
              elim (rc == 0) [
                | false ↦
                    return (record { rc = rc; payload = payload; lba = lba; lba_count = lba_count })
                | true ↦
                    look_if (ltb (raid.numdisks * 128) (k + 1)) raid
                    >> super_sectors fuel dir raid
                        (if ltb (raid.numdisks * 128) (k + 1) then 0 else k + 1)
                        (payload + super_sector_num * sector_length) (add_u64 lba super_sector_num)
                        (lba_count - super_sector_num)
              ])
              s
      ]

  -- `sio_rread`, and `sio_rwrite` with the other command. It calls itself, on smaller transfers.
  unfoldable pub sio_transfer : ℕ → Direction → NvmeRaid → ℕ → ℕ → ℕ → Io ℕ
  sio_transfer zero dir raid payload lba lba_count s = hangs
  sio_transfer (suc fuel) dir raid payload lba lba_count s = elim (leb lba_count (room lba)) [
    | true ↦
        (do
          rc ← issue_task dir raid payload lba lba_count
          check rc (check_completions (active raid) >> return 0))
          s
    | false ↦ elim (lba % super_sector_num == 0) [
      | false ↦
          (do
            rc ← sio_transfer fuel dir raid payload lba (room lba)
            check rc (do
              rc' ←
                  sio_transfer fuel dir raid (payload + room lba * sector_length)
                    (add_u64 lba (room lba)) (lba_count - room lba)
              check rc' (check_completions (active raid) >> return 0)))
            s
      | true ↦
          (do
            rest ← super_sectors (suc lba_count) dir raid 0 payload lba lba_count
            check rest.rc (
                (if rest.lba_count == 0
                  then return 0
                  else sio_transfer fuel dir raid rest.payload rest.lba rest.lba_count)
                >> (check_completions (active raid) >> return 0)))
            s
    ]
  ]

  -- No call is nested deeper than three.
  unfoldable pub sio_rread : NvmeRaid → ℕ → ℕ → ℕ → Io ℕ
  sio_rread = sio_transfer 3 reads

  unfoldable pub sio_rwrite : NvmeRaid → ℕ → ℕ → ℕ → Io ℕ
  sio_rwrite = sio_transfer 3 writes

  -- `while (task_scheduled > task_completed)`
  wait_from : ℕ → NvmeRaid → Io Unit
  wait_from zero raid s = if ltb s.task_completed s.task_scheduled then hangs else done (tt, s)
  wait_from (suc fuel) raid s = elim (ltb s.task_completed s.task_scheduled) [
    | true ↦ (check_completions (active raid) >> wait_from fuel raid) s
    | false ↦ done (tt, s)
  ]

  unfoldable pub sio_waittasks : NvmeRaid → Io Unit
  unfolding wait_from
  sio_waittasks = wait_from D.patience
