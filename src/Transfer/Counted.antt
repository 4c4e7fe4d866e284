-- ===== src/Transfer/Counted.antt =====
-- src/simpleio.c: the transfers across the raid and the counters of the tasks.
use nvme_dpdk_pcapreplay.Prelude.{
  ℕ, zero, suc, ◌+◌, ◌*◌, ◌%◌, ◌^◌, ◌≡◌, refl, sym, ap, ◌∙◌, inl, inr, Bool, true, false, List, ◌∷◌,
  Outcome, done, exits, hangs, overruns, arith, ltb, leb, ◌==◌, if◌then◌else◌, Bool-cases,
}
use mathlib.Core.Path.{subst}
use nvme_dpdk_pcapreplay.Layout.{NvmeRaid, Idisk, active, super_sector_num, add_u64}
use nvme_dpdk_pcapreplay.Driver.{Direction, Driver, Sio, Io, ◌>>=◌, ◌>>◌, return, Call, submit}
use nvme_dpdk_pcapreplay.Simpleio.{issue}
use nvme_dpdk_pcapreplay.Transfer.{
  room, check, raid_command, check_completions, issue_task, look_if, super_sectors, sio_transfer,
}
use nvme_dpdk_pcapreplay.Transfer.Tasks.{accepted, reported, Counted, check_completions-Counted}

-- Code that keeps the counters right, whatever it returns.
abbrev pub KeepsCounted : {A : Type 0} → Driver → Io A → Type 0
KeepsCounted {A} D m =
    (s : Sio) (a : A) (s' : Sio) → m s ≡ done (a, s') → Counted D s → Counted D s'

pub done-injective :
    {A : Type 0} {a b : A} {s t : Sio}
    → ◌≡◌ {A = Outcome (A × Sio)} (done (a, s)) (done (b, t))
    → s ≡ t
done-injective e = cc

module _ (D : Driver) where
  pub return-KeepsCounted : {A : Type 0} (a : A) → KeepsCounted D (return a)
  return-KeepsCounted a s b s' e c = subst (Counted D) (done-injective e) c

  pub >>=-KeepsCounted :
      {A B : Type 0} (m : Io A) (f : A → Io B)
      → KeepsCounted D m
      → ((a : A) → KeepsCounted D (f a))
      → KeepsCounted D (m >>= f)
  >>=-KeepsCounted {A} {B} m f hm hf s b s' e c = split (m s) refl e
    where
      split :
          (r : Outcome (A × Sio))
          → m s ≡ r
          → (elim r [
            | done (a, s1) ↦ f a s1
            | exits k ↦ exits k
            | hangs ↦ hangs
            | overruns ↦ overruns
          ])
            ≡ done (b, s')
          → Counted D s'
      split (done (a, s1)) e1 e2 = hf a s1 b s' e2 (hm s a s1 e1 c)
      split (exits k) e1 e2 = cc
      split hangs e1 e2 = cc
      split overruns e1 e2 = cc

  pub if-KeepsCounted :
      {A : Type 0} (b : Bool) (m k : Io A)
      → KeepsCounted D m
      → KeepsCounted D k
      → KeepsCounted D (if b then m else k)
  if-KeepsCounted true m k hm hk = hm
  if-KeepsCounted false m k hm hk = hk

  check_completions-KeepsCounted : (ds : List Idisk) → KeepsCounted D (check_completions D ds)
  check_completions-KeepsCounted ds s a s' e c =
      let (s1, e1, h, c') = check_completions-Counted D ds s c in
      subst (Counted D) (done-injective (sym e1 ∙ e)) c'

  issue_task-KeepsCounted :
      (dir : Direction) (raid : NvmeRaid) (payload lba n : ℕ)
      → KeepsCounted D (issue_task D dir raid payload lba n)
  unfolding issue_task issue raid_command accepted reported
  issue_task-KeepsCounted dir raid payload lba n s a s' e c =
      let h : List Call = submit (raid_command dir raid payload lba n) ∷ s.history in
      elim (Bool-cases (D.submit_rc h == 0)) [
        | inl taken ↦
            let s1 : Sio = record s { history = h; task_scheduled = add_u64 s.task_scheduled 1 } in
            let e1 : issue_task D dir raid payload lba n s ≡ done (D.submit_rc h, s1) = rw taken in
            let more : accepted D h ≡ 1 + accepted D s.history = rw taken in
            let c1 : Counted D s1 = record {
              scheduled = omega (arith, c.scheduled, more);
              completed = c.completed;
            } in
            subst (Counted D) (done-injective (sym e1 ∙ e)) c1
        | inr refused ↦
            let s1 : Sio = record s { history = h } in
            let e1 : issue_task D dir raid payload lba n s ≡ done (D.submit_rc h, s1) =
              rw refused in
            let more : accepted D h ≡ accepted D s.history = rw refused (omega arith) in
            let c1 : Counted D s1 = record {
              scheduled = c.scheduled ∙ ap (λ k. k % 2 ^ 64) (sym more);
              completed = c.completed;
            } in
            subst (Counted D) (done-injective (sym e1 ∙ e)) c1
      ]

  look_if-KeepsCounted : (due : Bool) (raid : NvmeRaid) → KeepsCounted D (look_if D due raid)
  unfolding look_if
  look_if-KeepsCounted true raid = check_completions-KeepsCounted (active raid)
  look_if-KeepsCounted false raid = return-KeepsCounted tt

  finish-KeepsCounted :
      (raid : NvmeRaid) → KeepsCounted D (check_completions D (active raid) >> return {A = ℕ} 0)
  finish-KeepsCounted raid =
      >>=-KeepsCounted (check_completions D (active raid)) (λ _. return 0)
        (check_completions-KeepsCounted (active raid)) (λ _. return-KeepsCounted 0)

  check-KeepsCounted :
      (m : Io ℕ) (k : Io ℕ)
      → KeepsCounted D m
      → KeepsCounted D k
      → KeepsCounted D (m >>= λ rc. check rc k)
  check-KeepsCounted m k hm hk =
      >>=-KeepsCounted m (λ rc. check rc k) hm
        (λ rc. if-KeepsCounted (rc == 0) k (return rc) hk (return-KeepsCounted rc))

  pub elim-KeepsCounted :
      {A : Type 0} (b : Bool) (m k : Io A)
      → KeepsCounted D m
      → KeepsCounted D k
      → KeepsCounted D (elim b [ false ↦ k | true ↦ m ])
  elim-KeepsCounted true m k hm hk = hm
  elim-KeepsCounted false m k hm hk = hk

  super_sectors-KeepsCounted :
      (fuel : ℕ) (dir : Direction) (raid : NvmeRaid) (k payload lba n : ℕ)
      → KeepsCounted D (super_sectors D fuel dir raid k payload lba n)
  unfolding super_sectors
  super_sectors-KeepsCounted zero dir raid k payload lba n s a s' e c = cc
  super_sectors-KeepsCounted (suc fuel) dir raid k payload lba n s a s' e c =
      elim (Bool-cases (leb super_sector_num n)) [
        | inl more ↦
            >>=-KeepsCounted (issue_task D dir raid payload lba super_sector_num) _
              (issue_task-KeepsCounted dir raid payload lba super_sector_num)
              (λ rc.
                elim-KeepsCounted (rc == 0) _ _
                  (>>=-KeepsCounted (look_if D (ltb (raid.numdisks * 128) (k + 1)) raid) _
                    (look_if-KeepsCounted _ raid)
                    (λ _. super_sectors-KeepsCounted fuel dir raid _ _ _ _))
                  (return-KeepsCounted _))
              s a s' (rw (super_sectors, more) at e) c
        | inr less ↦ return-KeepsCounted _ s a s' (rw (super_sectors, less) at e) c
      ]

  pub sio_transfer-KeepsCounted :
      (fuel : ℕ) (dir : Direction) (raid : NvmeRaid) (payload lba n : ℕ)
      → KeepsCounted D (sio_transfer D fuel dir raid payload lba n)
  unfolding sio_transfer
  sio_transfer-KeepsCounted zero dir raid payload lba n s a s' e c = cc
  sio_transfer-KeepsCounted (suc fuel) dir raid payload lba n s a s' e c =
      elim (Bool-cases (leb n (room lba))) [
        | inl small ↦
            check-KeepsCounted (issue_task D dir raid payload lba n) _
              (issue_task-KeepsCounted dir raid payload lba n) (finish-KeepsCounted raid) s a s'
              (rw (sio_transfer, small) at e) c
        | inr large ↦ elim (Bool-cases (lba % super_sector_num == 0)) [
          | inl aligned ↦
              >>=-KeepsCounted (super_sectors D (suc n) dir raid 0 payload lba n) _
                (super_sectors-KeepsCounted (suc n) dir raid 0 payload lba n)
                (λ rest.
                  if-KeepsCounted (rest.rc == 0) _ (return rest.rc)
                    (>>=-KeepsCounted _ _
                      (if-KeepsCounted (rest.lba_count == 0) (return 0)
                        (sio_transfer D fuel dir raid rest.payload rest.lba rest.lba_count)
                        (return-KeepsCounted 0)
                        (sio_transfer-KeepsCounted fuel dir raid rest.payload rest.lba
                          rest.lba_count))
                      (λ _. finish-KeepsCounted raid))
                    (return-KeepsCounted rest.rc))
                s a s' (rw (sio_transfer, large, aligned) at e) c
          | inr ragged ↦
              check-KeepsCounted (sio_transfer D fuel dir raid payload lba (room lba)) _
                (sio_transfer-KeepsCounted fuel dir raid payload lba (room lba))
                (check-KeepsCounted _ _ (sio_transfer-KeepsCounted fuel dir raid _ _ _)
                  (finish-KeepsCounted raid))
                s a s' (rw (sio_transfer, large, ragged) at e) c
        ]
      ]
