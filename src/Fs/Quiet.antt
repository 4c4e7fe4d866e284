-- ===== src/Fs/Quiet.antt =====
-- src/fs.c, `updateRaid`: the counters of the tasks stay right, and no blocks of files are moved.
use nvme_dpdk_pcapreplay.Prelude.{
  true, ◌==◌, ℕ, zero, suc, ◌*◌, ◌%◌, ◌^◌, ◌≡◌, refl, sym, ap, ◌∙◌, inl, inr, List, [], ◌∷◌, ◌==◌,
  done, arith, Bool-cases,
}
use mathlib.Core.Path.{subst}
use mathlib.Core.List.{append-nil}
use nvme_dpdk_pcapreplay.Layout.{MetaSector, Idisk, NvmeRaid, active, sector_length}
use nvme_dpdk_pcapreplay.Driver.{
  Payload, sector, Direction, writes, Command, Call, malloc, submit, process, Driver, Sio, return,
  add_call, bind-done,
}
use nvme_dpdk_pcapreplay.Simpleio.{process_completions, poll, issue, sio_sync, sio_write_pinit}
use nvme_dpdk_pcapreplay.Simpleio.Sync.{Works, looks, sync_command, sio_write_pinit-returns}
use nvme_dpdk_pcapreplay.Transfer.Blocks.{moved}
use nvme_dpdk_pcapreplay.Transfer.Tasks.{accepted, reported, Counted, process-Counted}
use nvme_dpdk_pcapreplay.Transfer.Counted.{
  KeepsCounted, done-injective, return-KeepsCounted, >>=-KeepsCounted,
}
use nvme_dpdk_pcapreplay.Fs.{write_tables, update_raid}

module _ (D : Driver) where
  poll-KeepsCounted : (fuel q n : ℕ) → KeepsCounted D (poll D fuel q n)
  unfolding poll
  poll-KeepsCounted zero q n s a s' e c = elim (Bool-cases (n == 0)) [
    | inl waits ↦ cc
    | inr over ↦ subst (Counted D) (done-injective (rw (poll, over) at e)) c
  ]
  poll-KeepsCounted (suc fuel) q n s a s' e c = elim (Bool-cases (n == 0)) [
    | inl waits ↦
        poll-KeepsCounted fuel q (process_completions D q n s).0 (process_completions D q n s).1 a
          s' (rw (poll, waits) at e) (process-Counted D q n s c).0
    | inr over ↦ subst (Counted D) (done-injective (rw (poll, over) at e)) c
  ]

  -- A command that its call waits for is no task.
  issue-Counted :
      (dir : Direction) (dsk : Idisk) (payload : Payload) (lba n : ℕ) (s : Sio)
      → Counted D s
      → Counted D (issue D (sync_command dir dsk payload lba n) s).1
  unfolding issue accepted reported
  issue-Counted dir dsk payload lba n s c =
      let h : List Call = submit (sync_command dir dsk payload lba n) ∷ s.history in
      let same : accepted D h ≡ accepted D s.history = elim (Bool-cases (D.submit_rc h == 0)) [
        | inl taken ↦ rw taken (omega arith)
        | inr refused ↦ rw refused (omega arith)
      ] in
      record { scheduled = c.scheduled ∙ ap (λ k. k % 2 ^ 64) (sym same); completed = c.completed }

  sio_sync-KeepsCounted :
      (dir : Direction) (dsk : Idisk) (payload : Payload) (lba n : ℕ)
      → KeepsCounted D (sio_sync D dir dsk payload lba n)
  unfolding sio_sync
  sio_sync-KeepsCounted dir dsk payload lba n s a s' e c =
      let out = issue D (sync_command dir dsk payload lba n) s in
      let c1 : Counted D out.1 = issue-Counted dir dsk payload lba n s c in
      elim (Bool-cases (out.0 == 0)) [
        | inl taken ↦
            >>=-KeepsCounted D (poll D D.patience dsk.qpair 0) (λ _. return out.0)
              (poll-KeepsCounted D.patience dsk.qpair 0) (λ _. return-KeepsCounted D out.0) out.1 a
              s' (rw (sio_sync, taken) at e) c1
        | inr refused ↦ subst (Counted D) (done-injective (rw (sio_sync, refused) at e)) c1
      ]

  malloc-Counted : (n : ℕ) (s : Sio) → Counted D s → Counted D (add_call (malloc n) s)
  unfolding accepted reported
  malloc-Counted n s c = record { scheduled = c.scheduled; completed = c.completed }

  sio_write_pinit-KeepsCounted :
      (dsk : Idisk) (m : MetaSector) (lba : ℕ)
      → Works D
      → KeepsCounted D (sio_write_pinit D dsk m lba 1)
  unfolding sio_write_pinit
  sio_write_pinit-KeepsCounted dsk m lba w s a s' e c =
      let size : ℕ = 1 * D.sector_size dsk.ns in
      let whole : (size == sector_length) ≡ true = ground (arith, w.sectors dsk.ns) in
      let s1 : Sio = add_call (malloc size) s in
      let (at, there) = w.memory s1.history in
      sio_sync-KeepsCounted writes dsk (sector m) lba 1 s1 a s'
        (rw (sio_write_pinit, there, whole) at e) (malloc-Counted size s c)

  write_tables-KeepsCounted : (ds : List Idisk) → Works D → KeepsCounted D (write_tables D ds)
  unfolding write_tables
  write_tables-KeepsCounted [] w = return-KeepsCounted D tt
  write_tables-KeepsCounted (d ∷ ds) w =
      >>=-KeepsCounted D (sio_write_pinit D d d.msector 0 1) (λ rc. write_tables D ds)
        (sio_write_pinit-KeepsCounted d d.msector 0 w) (λ _. write_tables-KeepsCounted ds w)

  moved-looks : (q m : ℕ) (h : List Call) → moved D (looks q m h) ≡ moved D h
  unfolding moved
  moved-looks q zero h = refl
  moved-looks q (suc m) h = moved-looks q m (process q ∷ h)

  moved-sector :
      (dsk : Idisk) (m : MetaSector) (lba n k : ℕ) (h : List Call)
      → moved D (submit (sync_command writes dsk (sector m) lba n) ∷ malloc k ∷ h) ≡ moved D h
  unfolding moved
  moved-sector dsk m lba n k h =
      let c : Command = sync_command writes dsk (sector m) lba n in
      elim (Bool-cases (D.submit_rc (submit c ∷ malloc k ∷ h) == 0)) [
        | inl taken ↦ rw taken (append-nil (moved D h))
        | inr refused ↦ rw refused
      ]

  write_tables-moved :
      (ds : List Idisk) (s : Sio)
      → Works D
      → (s' : Sio) × (write_tables D ds s ≡ done (tt, s'))
        × (moved D s'.history ≡ moved D s.history)
  unfolding write_tables
  write_tables-moved [] s w = (s, refl, refl)
  write_tables-moved (d ∷ ds) s w =
      let (s1, m, k, e, h) = sio_write_pinit-returns D d d.msector 0 s w in
      let (s2, e', h') = write_tables-moved ds s1 w in
      (
        s2,
        bind-done (sio_write_pinit D d d.msector 0 1) (λ rc. write_tables D ds) s e ∙ e',
        h' ∙ ap (moved D) h ∙ moved-looks d.qpair m _ ∙ moved-sector d d.msector 0 1 k s.history,
      )

  -- With a working driver, `updateRaid` returns, keeps right counters right, and moves no block of a
  -- file.
  pub update_raid-quiet :
      (raid : NvmeRaid) (s : Sio)
      → Works D
      → Counted D s
      → (s' : Sio) × (update_raid D raid s ≡ done (tt, s'))
        × Counted D s'
        × (moved D s'.history ≡ moved D s.history)
  unfolding update_raid
  update_raid-quiet raid s w c =
      let (s', e, h) = write_tables-moved (active raid) s w in
      (s', e, write_tables-KeepsCounted (active raid) w s tt s' e c, h)
