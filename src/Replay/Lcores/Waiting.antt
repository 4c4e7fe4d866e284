-- ===== src/Replay/Lcores/Waiting.antt =====
-- src/replay/replay.c: whether `app_run` ends.
use nvme_dpdk_pcapreplay.Prelude.{
  ℕ, zero, suc, ◌≡◌, refl, ◌∙◌, inl, inr, Bool, true, false, List, [], ◌∷◌, ◌==◌, ◌&&◌, not, Option,
  none, some, arith, Bool-cases,
}
use nvme_dpdk_pcapreplay.Replay.Params.{Dpdk, NicQueue, ReplayParams}
use nvme_dpdk_pcapreplay.Replay.Args.{is_io}
use nvme_dpdk_pcapreplay.Replay.Nic.{Nic, Nics}
use nvme_dpdk_pcapreplay.Replay.Lcores.{
  Place, returned, at_rx, dropping, at_tx, sending, freeing, Lcores, turn, stepped, step,
  step_either, run, launched, has_returned, app_run_returned,
}

module _ (nic : Nic) (r : ReplayParams) where
  given_buffer :
      (o : Option ℕ) (q : NicQueue) (qs : List NicQueue)
      → has_returned (elim o [ none ↦ at_tx qs | some tmpbuf ↦ sending q tmpbuf qs ]) ≡ false
  given_buffer none q qs = refl
  given_buffer (some tmpbuf) q qs = refl

  turn-has_returned :
      (lcore : ℕ) (p : Place) (s : Nics)
      → has_returned (turn nic r lcore p s).place ≡ has_returned p
  unfolding turn
  turn-has_returned lcore returned s = refl
  turn-has_returned lcore (at_rx []) s = refl
  turn-has_returned lcore (at_rx (q ∷ qs)) s = refl
  turn-has_returned lcore (dropping [] qs) s = refl
  turn-has_returned lcore (dropping (p ∷ ps) qs) s = refl
  turn-has_returned lcore (at_tx []) s = refl
  turn-has_returned lcore (at_tx (q ∷ qs)) s = given_buffer _ q qs
  turn-has_returned lcore (sending q b qs) s = ground arith
  turn-has_returned lcore (freeing n k b qs) s = ground arith

  stepped-has_returned :
      (l : ℕ) (m : Lcores) (lcore : ℕ)
      → has_returned ((stepped nic r l m).place lcore) ≡ has_returned (m.place lcore)
  unfolding stepped
  stepped-has_returned l m lcore = elim (Bool-cases (lcore == l)) [
    | inl here ↦
        let is : lcore ≡ l = ground arith in rw (here, is) (turn-has_returned l (m.place l) m.nics)
    | inr other ↦ rw other
  ]

  run-has_returned :
      (schedule : List ℕ) (m : Lcores) (lcore : ℕ)
      → has_returned ((run nic r schedule m).place lcore) ≡ has_returned (m.place lcore)
  unfolding run
  run-has_returned [] m lcore = refl
  run-has_returned (l ∷ schedule) m lcore =
      run-has_returned schedule (step nic r l m) lcore
      ∙ step_either nic r (λ n. has_returned (n.place lcore) ≡ has_returned (m.place lcore)) l m
          refl (stepped-has_returned l m lcore)

-- Whether `replay_lcore_main_loop` is a loop on this lcore, and whether it is on none of so many.
abbrev loops : Dpdk → ReplayParams → ℕ → Bool
loops dpdk r lcore = dpdk.lcore_is_enabled lcore && is_io (r.lcore_params lcore).type

abbrev pub none_loops : Dpdk → ReplayParams → ℕ → Bool
none_loops dpdk r zero = true
none_loops dpdk r (suc n) = not (loops dpdk r n) && none_loops dpdk r n

app_run_returned_lem :
    (dpdk : Dpdk) (r : ReplayParams) (m : Lcores) (n : ℕ)
    → ((lcore : ℕ) → has_returned (m.place lcore) ≡ not (loops dpdk r lcore))
    → app_run_returned dpdk n m ≡ none_loops dpdk r n
unfolding app_run_returned
app_run_returned_lem dpdk r m zero places = refl
app_run_returned_lem dpdk r m (suc n) places =
    ground (arith, places n, app_run_returned_lem dpdk r m n places)

launched-has_returned :
    (dpdk : Dpdk) (r : ReplayParams) (s : Nics) (lcore : ℕ)
    → has_returned ((launched dpdk r s).place lcore) ≡ not (loops dpdk r lcore)
unfolding launched
launched-has_returned dpdk r s lcore = ground arith

-- In whatever order the lcores have taken turns, `app_run` has returned exactly when no enabled lcore
-- is an I/O lcore: with one, it waits for ever.
pub run-app_run_returned :
    (dpdk : Dpdk) (nic : Nic) (r : ReplayParams) (s : Nics) (schedule : List ℕ)
    → app_run_returned dpdk dpdk.max_lcores (run nic r schedule (launched dpdk r s))
      ≡ none_loops dpdk r dpdk.max_lcores
run-app_run_returned dpdk nic r s schedule =
    app_run_returned_lem dpdk r (run nic r schedule (launched dpdk r s)) dpdk.max_lcores (λ lcore.
      run-has_returned nic r schedule (launched dpdk r s) lcore
      ∙ launched-has_returned dpdk r s lcore)
