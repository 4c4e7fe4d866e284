-- ===== src/Transfer/Tasks.antt =====
-- src/simpleio.c: the counters of the tasks that are scheduled and completed, and the wait for all of
-- them in `sio_waittasks`.
use nvme_dpdk_pcapreplay.Prelude.{
  ℕ, zero, suc, ◌+◌, ◌%◌, ◌^◌, ◌≤◌, ◌≡◌, refl, sym, ap, ◌∙◌, inl, inr, false, List, [], ◌∷◌, done,
  arith, ltb, ◌==◌, if◌then◌else◌, Bool-cases,
}
use nvme_dpdk_pcapreplay.Layout.{NvmeRaid, Idisk, active, add_u64}
use nvme_dpdk_pcapreplay.Driver.{
  Driver, Sio, ◌>>=◌, ◌>>◌, Counter, task, waiting, Call, malloc, copy, process, submit,
}
use nvme_dpdk_pcapreplay.Simpleio.{complete, process_completions}
use nvme_dpdk_pcapreplay.Transfer.{check_completions, wait_from, sio_waittasks}
use nvme_dpdk_pcapreplay.Transfer.Steps.{history-complete}

abbrev pub count_tasks : List Counter → ℕ
count_tasks [] = 0
count_tasks (task ∷ cs) = suc (count_tasks cs)
count_tasks (waiting ∷ cs) = count_tasks cs

abbrev pub is_task : Counter → ℕ
is_task task = 1
is_task waiting = 0

-- How many commands of a task the driver has taken.
unfoldable pub accepted : Driver → List Call → ℕ
accepted D [] = 0
accepted D (malloc n ∷ h) = accepted D h
accepted D (copy n to from ∷ h) = accepted D h
accepted D (process q ∷ h) = accepted D h
accepted D (submit c ∷ h) =
    (if D.submit_rc (submit c ∷ h) == 0 then is_task c.counter else 0) + accepted D h

-- How many of them it has reported.
unfoldable pub reported : Driver → List Call → ℕ
reported D [] = 0
reported D (malloc n ∷ h) = reported D h
reported D (copy n to from ∷ h) = reported D h
reported D (submit c ∷ h) = reported D h
reported D (process q ∷ h) = count_tasks (D.callbacks (process q ∷ h)) + reported D h

-- A history after a look at the queue of each disk, and after `k` such rounds.
abbrev pub round : List Idisk → List Call → List Call
round [] h = h
round (d ∷ ds) h = round ds (process d.qpair ∷ h)

abbrev pub rounds : List Idisk → ℕ → List Call → List Call
rounds ds zero h = h
rounds ds (suc k) h = rounds ds k (round ds h)

-- The two counters are those of the history.
pub record Counted (D : Driver) (s : Sio) : Type 0 where
  pub scheduled : s.task_scheduled ≡ accepted D s.history % 2 ^ 64
  pub completed : s.task_completed ≡ reported D s.history % 2 ^ 64

-- The driver reports what it has taken: within so many rounds all of it is reported.
abbrev pub Reports : Driver → NvmeRaid → Type 0
Reports D raid =
    (h : List Call)
    → (k : ℕ) × (k ≤ D.patience) × (reported D (rounds (active raid) k h) ≡ accepted D h)

task_completed-complete :
    (cs : List Counter) (n : ℕ) (s : Sio) (m : ℕ)
    → s.task_completed ≡ m % 2 ^ 64
    → ((complete cs n s).1.task_completed ≡ (count_tasks cs + m) % 2 ^ 64)
      × ((complete cs n s).1.task_scheduled ≡ s.task_scheduled)
unfolding complete
task_completed-complete [] n s m e = (omega arith, refl)
task_completed-complete (task ∷ cs) n s m e =
    let s' : Sio = record s { task_completed = add_u64 s.task_completed 1 } in
    let (c, same) = task_completed-complete cs n s' (m + 1) (omega arith) in (omega arith, same)
task_completed-complete (waiting ∷ cs) n s m e = task_completed-complete cs _ s m e

module _ (D : Driver) where
  pub process-Counted :
      (q n : ℕ) (s : Sio)
      → Counted D s
      → Counted D (process_completions D q n s).1
        × ((process_completions D q n s).1.history ≡ process q ∷ s.history)
  unfolding process_completions
  process-Counted q n s c =
      let h : List Call = process q ∷ s.history in
      let s' : Sio = record s { history = h } in
      let (done_now, same) = task_completed-complete (D.callbacks h) n s' _ c.completed in
      let there = history-complete (D.callbacks h) n s' in
      (
        record {
          scheduled = rw there (unfold accepted in same ∙ c.scheduled);
          completed = rw there (unfold reported in done_now);
        },
        there,
      )

  -- One round of looks.
  pub check_completions-Counted :
      (ds : List Idisk) (s : Sio)
      → Counted D s
      → (s' : Sio) × (check_completions D ds s ≡ done (tt, s'))
        × (s'.history ≡ round ds s.history)
        × Counted D s'
  unfolding check_completions
  check_completions-Counted [] s c = (s, refl, refl, c)
  check_completions-Counted (d ∷ ds) s c =
      let (c', h') = process-Counted d.qpair 0 s c in
      let (s', e, h, c'') = check_completions-Counted ds (process_completions D d.qpair 0 s).1 c' in
      (s', e, h ∙ ap (round ds) h', c'')

  accepted-round : (ds : List Idisk) (h : List Call) → accepted D (round ds h) ≡ accepted D h
  unfolding accepted
  accepted-round [] h = refl
  accepted-round (d ∷ ds) h = accepted-round ds (process d.qpair ∷ h)

  -- The wait ends as soon as everything is reported.
  wait_from-returns :
      (fuel k : ℕ) (raid : NvmeRaid) (s : Sio)
      → Counted D s
      → k ≤ fuel
      → reported D (rounds (active raid) k s.history) ≡ accepted D s.history
      → (s' : Sio) × (m : ℕ) × (wait_from D fuel raid s ≡ done (tt, s'))
        × (s'.history ≡ rounds (active raid) m s.history)
        × Counted D s'
        × (s'.task_scheduled ≤ s'.task_completed)
  unfolding wait_from
  wait_from-returns zero zero raid s c le all = (
    s,
    0,
    ground (arith, c.scheduled, c.completed),
    refl,
    c,
    omega (arith, c.scheduled, c.completed),
  )
  wait_from-returns zero (suc k) raid s c le all = absurd (omega arith)
  wait_from-returns (suc fuel) zero raid s c le all =
      let ended : ltb s.task_completed s.task_scheduled ≡ false =
        ground (arith, c.scheduled, c.completed) in
      (s, 0, rw (wait_from, ended), refl, c, omega (arith, c.scheduled, c.completed))
  wait_from-returns (suc fuel) (suc k) raid s c le all =
      elim (Bool-cases (ltb s.task_completed s.task_scheduled)) [
        | inl more ↦
            let (s1, e1, h1, c1) = check_completions-Counted (active raid) s c in
            let rest : reported D (rounds (active raid) k s1.history) ≡ accepted D s1.history =
              rw h1 (all ∙ sym (accepted-round (active raid) s.history)) in
            let (s2, m, e2, h2, c2, done_all) =
              wait_from-returns fuel k raid s1 c1 (omega arith) rest in
            (
              s2,
              suc m,
              rw (wait_from, more, ◌>>◌, ◌>>=◌, e1) e2,
              h2 ∙ ap (rounds (active raid) m) h1,
              c2,
              done_all,
            )
        | inr ended ↦ (s, 0, rw (wait_from, ended), refl, c, ground arith)
      ]

-- With a driver that reports every task that it has taken, and counters that are those of the calls,
-- `sio_waittasks` returns: it has only looked at the queues of the raid, round by round, the counters
-- are still right, and no scheduled task is left.
pub sio_waittasks-returns :
    (D : Driver) (raid : NvmeRaid) (s : Sio)
    → Reports D raid
    → Counted D s
    → (s' : Sio) × (m : ℕ) × (sio_waittasks D raid s ≡ done (tt, s'))
      × (s'.history ≡ rounds (active raid) m s.history)
      × Counted D s'
      × (s'.task_scheduled ≤ s'.task_completed)
unfolding sio_waittasks
sio_waittasks-returns D raid s reports c =
    let (k, le, all) = reports s.history in wait_from-returns D D.patience k raid s c le all
