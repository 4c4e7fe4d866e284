-- ===== src/Simpleio/Sync.antt =====
-- src/simpleio.c, `sio_read` and `sio_write`: the loop that waits for one command.
use nvme_dpdk_pcapreplay.Prelude.{
  true, ◌==◌, ℕ, zero, suc, ◌+◌, ◌^◌, ◌≤◌, ◌<◌, ◌≡◌, ◌≢◌, ◌*◌, refl, sym, ap, ◌∙◌, inl, inr, some,
  List, [], ◌∷◌, done, arith, ◌==◌, Bool-cases,
}
use mathlib.Core.Path.{subst}
use nvme_dpdk_pcapreplay.Layout.{MetaSector, Idisk, sector_length, add_u64}
use nvme_dpdk_pcapreplay.Driver.{
  Counter, task, waiting, Payload, sector, Direction, writes, Command, Call, malloc, submit,
  process, Driver, Sio, ◌>>=◌, ◌>>◌,
}
use nvme_dpdk_pcapreplay.Simpleio.{
  complete, process_completions, poll, issue, sio_sync, sio_write_pinit,
}

-- How many of these callbacks are for the call that waits.
abbrev pub count_waiting : List Counter → ℕ
count_waiting [] = 0
count_waiting (task ∷ cs) = count_waiting cs
count_waiting (waiting ∷ cs) = suc (count_waiting cs)

-- A history after `k` more looks at the completions of a queue.
abbrev pub looks : ℕ → ℕ → List Call → List Call
looks q zero h = h
looks q (suc k) h = looks q k (process q ∷ h)

-- What the program relies on, of a driver that works: sectors have 512 bytes, memory is there, commands
-- are taken, and each one that a call waits for is reported, once, by one of the next looks.
pub record Works (D : Driver) : Type 0 where
  pub sectors : (ns : ℕ) → D.sector_size ns ≡ sector_length
  pub memory : (h : List Call) → (a : ℕ) × (D.malloc_at h ≡ some a)
  pub accepts : (h : List Call) → D.submit_rc h ≡ 0
  pub once : (h : List Call) → count_waiting (D.callbacks h) ≤ 1
  pub reported :
      (c : Command) (h : List Call)
      → c.counter ≡ waiting
      → (k : ℕ) × (k < D.patience)
        × (count_waiting (D.callbacks (looks c.qpair (suc k) (submit c ∷ h))) ≡ 1)

count-complete :
    (cs : List Counter) (n : ℕ) (s : Sio)
    → n + count_waiting cs < 2 ^ 64
    → (complete cs n s).0 ≡ n + count_waiting cs
unfolding complete
count-complete [] n s small = omega arith
count-complete (task ∷ cs) n s small = count-complete cs n _ small
count-complete (waiting ∷ cs) n s small =
    let next : add_u64 n 1 ≡ n + 1 = omega arith in
    count-complete cs (add_u64 n 1) s (omega arith) ∙ omega arith

pub history-complete :
    (cs : List Counter) (n : ℕ) (s : Sio) → (complete cs n s).1.history ≡ s.history
unfolding complete
history-complete [] n s = refl
history-complete (task ∷ cs) n s = history-complete cs n _
history-complete (waiting ∷ cs) n s = history-complete cs _ s

module _ (D : Driver) where
  poll-stops : (fuel q n : ℕ) (s : Sio) → n ≢ 0 → poll D fuel q n s ≡ done (tt, s)
  unfolding poll
  poll-stops zero q n s h = ground arith
  poll-stops (suc fuel) q n s h = ground arith

  -- One look, of which nothing is known but that it reports the call at most once.
  process-once :
      (q : ℕ) (s : Sio)
      → Works D
      → ((process_completions D q 0 s).0 ≡ count_waiting (D.callbacks (process q ∷ s.history)))
        × ((process_completions D q 0 s).1.history ≡ process q ∷ s.history)
  unfolding process_completions
  process-once q s w =
      let cs : List Counter = D.callbacks (process q ∷ s.history) in
      let few : count_waiting cs ≤ 1 = w.once (process q ∷ s.history) in
      (count-complete cs 0 _ (omega arith) ∙ omega arith, history-complete cs 0 _)

  poll-step :
      (fuel q : ℕ) (s : Sio)
      → poll D (suc fuel) q 0 s
        ≡ poll D fuel q (process_completions D q 0 s).0 (process_completions D q 0 s).1
  unfolding poll
  poll-step fuel q s = refl

  -- The loop ends as soon as the command is reported.
  poll-returns :
      (fuel k q : ℕ) (s : Sio)
      → Works D
      → k < fuel
      → count_waiting (D.callbacks (looks q (suc k) s.history)) ≡ 1
      → (s' : Sio) × (m : ℕ) × (poll D fuel q 0 s ≡ done (tt, s'))
        × (s'.history ≡ looks q m s.history)
  poll-returns zero k q s w lt hit = absurd (omega arith)
  poll-returns (suc fuel) k q s w lt hit =
      let (count, history) = process-once q s w in
      let s1 : Sio = (process_completions D q 0 s).1 in
      elim (Bool-cases (count_waiting (D.callbacks (process q ∷ s.history)) == 0)) [
        | inl zero_yet ↦
            let none_yet : (process_completions D q 0 s).0 ≡ 0 = ground arith in
            let (k', less, hit') = later k hit (ground arith) in
            let (s', m, e, h) = poll-returns fuel k' q s1 w (omega arith) (
              subst (λ h. count_waiting (D.callbacks (looks q (suc k') h)) ≡ 1) (sym history)
                hit') in
            (
              s',
              suc m,
              poll-step fuel q s ∙ ap (λ n. poll D fuel q n s1) none_yet ∙ e,
              h ∙ ap (looks q m) history,
            )
        | inr now ↦ (
          s1,
          1,
          poll-step fuel q s
              ∙ poll-stops fuel q (process_completions D q 0 s).0 s1 (λ z. ground arith),
          history,
        )
      ]
    where
      later :
          (k : ℕ)
          → count_waiting (D.callbacks (looks q (suc k) s.history)) ≡ 1
          → count_waiting (D.callbacks (process q ∷ s.history)) ≡ 0
          → (k' : ℕ) × (suc k' ≡ k)
            × (count_waiting (D.callbacks (looks q (suc k') (process q ∷ s.history))) ≡ 1)
      later zero hit zero_yet = absurd (omega arith)
      later (suc k) hit zero_yet = (k, refl, hit)

-- The command that `sio_read` and `sio_write` hand over.
abbrev pub sync_command : Direction → Idisk → Payload → ℕ → ℕ → Command
sync_command dir dsk payload lba n = record {
  direction = dir;
  ns = dsk.ns;
  qpair = dsk.qpair;
  payload = payload;
  lba = lba;
  lba_count = n;
  counter = waiting;
}

-- With a working driver `sio_read` and `sio_write` return 0, after the one command and some looks
-- at its queue.
pub sio_sync-returns :
    (D : Driver) (dir : Direction) (dsk : Idisk) (payload : Payload) (lba n : ℕ) (s : Sio)
    → Works D
    → (s' : Sio) × (m : ℕ) × (sio_sync D dir dsk payload lba n s ≡ done (0, s'))
      × (s'.history ≡ looks dsk.qpair m (submit (sync_command dir dsk payload lba n) ∷ s.history))
unfolding sio_sync issue
sio_sync-returns D dir dsk payload lba n s w =
    let c : Command = sync_command dir dsk payload lba n in
    let h : List Call = submit c ∷ s.history in
    let (k, lt, hit) = w.reported c s.history refl in
    let (s', m, e, looked) =
      poll-returns D D.patience k dsk.qpair (record s { history = h }) w lt hit in
    (
      s',
      m,
      rw (sio_sync, w.accepts h, ◌>>◌, ◌>>=◌, e) (ap (λ rc. done (rc, s')) (w.accepts h)),
      looked,
    )

-- With memory to pin, `sio_write_pinit` of one sector does as `sio_write`.
pub sio_write_pinit-returns :
    (D : Driver) (dsk : Idisk) (m : MetaSector) (lba : ℕ) (s : Sio)
    → Works D
    → (s' : Sio) × (q : ℕ) × (k : ℕ) × (sio_write_pinit D dsk m lba 1 s ≡ done (0, s'))
      × (s'.history
          ≡ looks dsk.qpair q
              (submit (sync_command writes dsk (sector m) lba 1) ∷ malloc k ∷ s.history))
unfolding sio_write_pinit
sio_write_pinit-returns D dsk m lba s w =
    let size : ℕ = 1 * D.sector_size dsk.ns in
    let whole : (size == sector_length) ≡ true = ground (arith, w.sectors dsk.ns) in
    let h : List Call = malloc size ∷ s.history in
    let (a, there) = w.memory h in
    let (s', q, e, looked) =
      sio_sync-returns D writes dsk (sector m) lba 1 (record s { history = h }) w in
    (s', q, size, rw (sio_write_pinit, there, whole) e, looked)
