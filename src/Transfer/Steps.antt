-- ===== src/Transfer/Steps.antt =====
-- src/simpleio.c: the steps of a transfer across the raid, which are one command, a look at the
-- completions, and the loop over whole super sectors.
use nvme_dpdk_pcapreplay.Prelude.{
  ℕ, zero, suc, ◌+◌, ◌-◌, ◌*◌, ◌%◌, ◌^◌, ◌≤◌, ◌<◌, ◌≡◌, refl, sym, ap, ◌∙◌, inl, inr, Bool, true,
  false, List, [], ◌∷◌, ◌++◌, Outcome, done, arith, ltb, leb, ◌==◌, if◌then◌else◌, Bool-cases,
}
use mathlib.Core.List.{append-nil, append_assoc}
use nvme_dpdk_pcapreplay.Layout.{NvmeRaid, Idisk, active, super_sector_num, sector_length, add_u64}
use nvme_dpdk_pcapreplay.Driver.{
  Direction, Command, Driver, Sio, Io, ◌>>=◌, ◌>>◌, return, Counter, task, waiting, Call, bind-done,
  submit,
}
use nvme_dpdk_pcapreplay.Simpleio.{complete, process_completions, issue}
use nvme_dpdk_pcapreplay.Transfer.{
  room, raid_command, check_completions, issue_task, look_if, super_sectors, sio_transfer, Rest,
}
use nvme_dpdk_pcapreplay.Transfer.Blocks.{Move, moved, spread, spread-rest, moved-raid_command}

-- The driver takes every command.
abbrev pub Accepts : Driver → Type 0
Accepts D = (h : List Call) → D.submit_rc h ≡ 0

-- The driver takes every command for a whole super sector.
abbrev pub AcceptsWhole : Driver → Type 0
AcceptsWhole D =
    (c : Command) (h : List Call) → c.lba_count ≡ super_sector_num → D.submit_rc (submit c ∷ h) ≡ 0

-- The code returns 0 and has moved these blocks, after what was moved before.
abbrev pub Moves : Driver → Sio → List Move → Outcome (ℕ × Sio) → Type 0
Moves D s ms r = (s' : Sio) × (r ≡ done (0, s')) × (moved D s'.history ≡ moved D s.history ++ ms)

pub history-complete :
    (cs : List Counter) (n : ℕ) (s : Sio) → (complete cs n s).1.history ≡ s.history
unfolding complete
history-complete [] n s = refl
history-complete (task ∷ cs) n s = history-complete cs n _
history-complete (waiting ∷ cs) n s = history-complete cs _ s

module _ (D : Driver) where
  moved-process_completions :
      (q : ℕ) (n : ℕ) (s : Sio)
      → moved D (process_completions D q n s).1.history ≡ moved D s.history
  unfolding process_completions moved
  moved-process_completions q n s = rw history-complete

  -- Looking at the completions returns, and moves nothing.
  pub moved-check_completions :
      (ds : List Idisk) (s : Sio)
      → (s' : Sio) × (check_completions D ds s ≡ done (tt, s'))
        × (moved D s'.history ≡ moved D s.history)
  unfolding check_completions
  moved-check_completions [] s = (s, refl, refl)
  moved-check_completions (d ∷ ds) s =
      let (s', e, m) = moved-check_completions ds (process_completions D d.qpair 0 s).1 in
      (s', e, m ∙ moved-process_completions d.qpair 0 s)

  -- The end of every branch that goes well.
  pub finish :
      (raid : NvmeRaid) (s : Sio) → Moves D s [] ((check_completions D (active raid) >> return 0) s)
  finish raid s =
      let (s', e, m) = moved-check_completions (active raid) s in
      (
        s',
        bind-done (check_completions D (active raid)) (λ _. return 0) s e,
        m ∙ sym (append-nil (moved D s.history)),
      )

  -- One step after another.
  pub Moves-trans :
      (m : Io ℕ) (k : ℕ → Io ℕ) (s : Sio) (xs ys zs : List Move)
      → xs ++ ys ≡ zs
      → Moves D s xs (m s)
      → ((s' : Sio) → Moves D s' ys (k 0 s'))
      → Moves D s zs ((m >>= k) s)
  Moves-trans m k s xs ys zs joined (s1, e1, m1) next =
      let (s2, e2, m2) = next s1 in
      (
        s2,
        bind-done m k s e1 ∙ e2,
        m2
            ∙ ap (λ r. r ++ ys) m1
            ∙ append_assoc (moved D s.history) xs ys
            ∙ ap (λ r. moved D s.history ++ r) joined,
      )

  module _ (dir : Direction) (raid : NvmeRaid) (some : 0 < raid.numdisks) where
    pub issue_task-Moves :
        (payload lba n : ℕ) (s : Sio)
        → D.submit_rc (submit (raid_command dir raid payload lba n) ∷ s.history) ≡ 0
        → lba + n + super_sector_num < 2 ^ 64
        → n ≤ room lba
        → Moves D s (spread dir raid payload lba n) (issue_task D dir raid payload lba n s)
    unfolding issue_task issue
    issue_task-Moves payload lba n s taken fits small = (
      record s {
        history = submit (raid_command dir raid payload lba n) ∷ s.history;
        task_scheduled = add_u64 s.task_scheduled 1;
      },
      rw taken,
      moved-raid_command D dir raid payload lba n s.history some fits small taken,
    )

    moved-look_if :
        (due : Bool) (s : Sio)
        → (s' : Sio) × (look_if D due raid s ≡ done (tt, s'))
          × (moved D s'.history ≡ moved D s.history)
    unfolding look_if
    moved-look_if true s = moved-check_completions (active raid) s
    moved-look_if false s = (s, refl, refl)

    super_sectors-stop :
        (fuel k payload lba n : ℕ) (s : Sio)
        → leb super_sector_num n ≡ false
        → super_sectors D (suc fuel) dir raid k payload lba n s
          ≡ done (record { rc = 0; payload = payload; lba = lba; lba_count = n }, s)
    unfolding super_sectors
    super_sectors-stop fuel k payload lba n s less = rw (super_sectors, less)

    super_sectors-step :
        (fuel k payload lba n : ℕ) (s s1 s2 : Sio)
        → leb super_sector_num n ≡ true
        → issue_task D dir raid payload lba super_sector_num s ≡ done (0, s1)
        → look_if D (ltb (raid.numdisks * 128) (k + 1)) raid s1 ≡ done (tt, s2)
        → super_sectors D (suc fuel) dir raid k payload lba n s
          ≡ super_sectors D fuel dir raid
              (if ltb (raid.numdisks * 128) (k + 1) then 0 else k + 1)
              (payload + super_sector_num * sector_length)
              (add_u64 lba super_sector_num)
              (n - super_sector_num)
              s2
    unfolding super_sectors
    super_sectors-step fuel k payload lba n s s1 s2 more issued looked =
        rw (super_sectors, ◌>>=◌, ◌>>◌, more, issued, looked)

    -- The loop over whole super sectors: what it leaves is less than one, and what it moved and
    -- what it leaves are the transfer.
    abbrev pub Looped : Sio → ℕ → ℕ → ℕ → Outcome (Rest × Sio) → Type 0
    Looped s payload lba n r =
        (rest : Rest) × (s' : Sio) × (r ≡ done (rest, s'))
        × (rest.rc ≡ 0)
        × (rest.lba_count < super_sector_num)
        × (rest.lba % super_sector_num ≡ 0)
        × (rest.lba + rest.lba_count ≡ lba + n)
        × (moved D s'.history ++ spread dir raid rest.payload rest.lba rest.lba_count
            ≡ moved D s.history ++ spread dir raid payload lba n)

    pub super_sectors-Looped :
        (fuel k payload lba n : ℕ) (s : Sio)
        → AcceptsWhole D
        → n < fuel
        → lba % super_sector_num ≡ 0
        → lba + n + super_sector_num < 2 ^ 64
        → Looped s payload lba n (super_sectors D fuel dir raid k payload lba n s)
    unfolding super_sectors
    super_sectors-Looped zero k payload lba n s whole enough aligned fits = absurd (omega arith)
    super_sectors-Looped (suc fuel) k payload lba n s whole enough aligned fits =
        elim (Bool-cases (leb super_sector_num n)) [
          | inl more ↦
              let full : super_sector_num ≤ n = ground arith in
              let (s1, issued, m1) =
                issue_task-Moves payload lba super_sector_num s
                  (whole (raid_command dir raid payload lba super_sector_num) s.history
                    (unfold raid_command in refl))
                  (omega arith) (omega arith) in
              let (s2, looked, m2) = moved-look_if (ltb (raid.numdisks * 128) (k + 1)) s1 in
              let next : add_u64 lba super_sector_num ≡ lba + super_sector_num = omega arith in
              let (rest, s3, looped, ok, small, start, ends, m3) =
                super_sectors-Looped fuel (if ltb (raid.numdisks * 128) (k + 1) then 0 else k + 1)
                  (payload + super_sector_num * sector_length) (add_u64 lba super_sector_num)
                  (n - super_sector_num) s2 whole (omega arith) (omega arith) (omega arith) in
              (
                rest,
                s3,
                super_sectors-step fuel k payload lba n s s1 s2 more issued looked ∙ looped,
                ok,
                small,
                start,
                ends ∙ omega arith,
                m3
                    ∙ spread-rest dir raid payload lba (add_u64 lba super_sector_num)
                        super_sector_num n (moved D s.history) (moved D s2.history) full next
                        (m2 ∙ m1),
              )
          | inr less ↦ (
            record { rc = 0; payload = payload; lba = lba; lba_count = n },
            s,
            super_sectors-stop fuel k payload lba n s less,
            refl,
            ground arith,
            aligned,
            refl,
            refl,
          )
        ]

    -- The branch that runs the loop, once the loop has ended well.
    pub transfer-loop :
        (fuel payload lba n : ℕ) (s s' : Sio) (rest : Rest)
        → leb n (room lba) ≡ false
        → (lba % super_sector_num == 0) ≡ true
        → super_sectors D (suc n) dir raid 0 payload lba n s ≡ done (rest, s')
        → rest.rc ≡ 0
        → sio_transfer D (suc fuel) dir raid payload lba n s
          ≡ ((if rest.lba_count == 0
                  then return 0
                  else sio_transfer D fuel dir raid rest.payload rest.lba rest.lba_count)
                >> (check_completions D (active raid) >> return 0))
              s'
    unfolding sio_transfer
    transfer-loop fuel payload lba n s s' rest large aligned looped ok =
        rw (sio_transfer, ◌>>=◌, large, aligned, looped, ok)
