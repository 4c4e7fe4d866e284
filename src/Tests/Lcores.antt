-- ===== src/Tests/Lcores.antt =====
-- The lcores of the replay program take turns.
use nvme_dpdk_pcapreplay.Replay.Sides.{sending_side}
use nvme_dpdk_pcapreplay.Prelude.{
  ℕ, ◌+◌, ◌≤◌, ◌<◌, ◌≡◌, ◌++◌, done, refl, true, false, List, [], ◌∷◌, arith,
}
use nvme_dpdk_pcapreplay.Replay.Queries.{is_disabled}
use nvme_dpdk_pcapreplay.Replay.Nic.{EthCall, Nics}
use nvme_dpdk_pcapreplay.Replay.Init.{replay_init}
use nvme_dpdk_pcapreplay.Replay.Init.Links.{Looks, waited}
use nvme_dpdk_pcapreplay.Replay.Init.Pools.{PoolOf}
use nvme_dpdk_pcapreplay.Replay.Init.Setups.{onto, port_setups}
use nvme_dpdk_pcapreplay.Replay.Init.Started.{replay_init-port_setups}
use nvme_dpdk_pcapreplay.Replay.Lcores.Ready.{sets_up, starts, any}
use nvme_dpdk_pcapreplay.Replay.Lcores.SetUp.{run-replay_init-set_up}
use nvme_dpdk_pcapreplay.Replay.Lcores.Settled.{freed, owed}
use nvme_dpdk_pcapreplay.Replay.Lcores.{
  Lcores, turn, step, stepped, run, launched, app_run_returned,
}
use nvme_dpdk_pcapreplay.Replay.Lcores.Exclusive.{run-parse_options-one_lcore}
use nvme_dpdk_pcapreplay.Replay.Lcores.Freed.{all_pending, run-freed}
use nvme_dpdk_pcapreplay.Replay.Lcores.Waiting.{none_loops, run-app_run_returned}
use nvme_dpdk_pcapreplay.Tests.Config.{
  small_dpdk, options, given, configured, configured-IsConfig, reads_options,
}
use nvme_dpdk_pcapreplay.Tests.Network.{
  idle_nic, no_calls, pairs, configured-NoWorkers, rx_lcores, tx_lcores,
}

-- The lcores 2 and 3 have queues; the others have returned.
abbrev schedule : List ℕ
schedule = 2 ∷ 3 ∷ 3 ∷ 2 ∷ 0 ∷ 2 ∷ 3 ∷ 3 ∷ 2 ∷ 3 ∷ []

abbrev begun : Lcores
begun = launched small_dpdk pairs no_calls

-- The lcore 3 has sent on the queue 0 of the port 1, and no other lcore can have.
run-parse_options-one_lcore_example : ◌≡◌ {A = ℕ} 3 3
unfolding run step stepped turn launched
run-parse_options-one_lcore_example =
    run-parse_options-one_lcore small_dpdk idle_nic options given configured no_calls schedule
      sending_side 3 3 1 0 (omega arith) reads_options refl refl

run-freed_example :
    freed 5 (run idle_nic pairs schedule begun).nics.calls
      + all_pending 5 8 (run idle_nic pairs schedule begun).place
    ≡ owed idle_nic 5 (run idle_nic pairs schedule begun).nics.calls
run-freed_example =
    run-freed small_dpdk idle_nic pairs no_calls 8 schedule 5 (omega arith) (λ b. refl)
      (omega arith)

run-app_run_returned_example :
    app_run_returned small_dpdk 8 (run idle_nic pairs schedule begun)
    ≡ none_loops small_dpdk pairs 8
run-app_run_returned_example = run-app_run_returned small_dpdk idle_nic pairs no_calls schedule

-- `replay_init` with these settings, and how it ends.
abbrev initialised :
    (s1 : Nics) × (s' : Nics) × (looks : List EthCall) × (replay_init small_dpdk idle_nic configured
        no_calls
      ≡ done (tt, s'))
    × ((lcore : ℕ)
        → lcore < 8
        → is_disabled (configured.lcore_params lcore).type ≡ false
        → PoolOf idle_nic 0 s1 (s1.lcore_pool lcore))
    × (s'.calls
        ≡ looks
          ++ onto
              (port_setups small_dpdk configured s1.lcore_pool (λ p q. 2) (λ p q. 3) idle_nic 4 0)
              s1.calls)
    × Looks looks
    × (waited looks ≤ 9000)
initialised =
    replay_init-port_setups small_dpdk idle_nic configured (λ p q. 2) (λ p q. 3) no_calls
      configured-IsConfig configured-NoWorkers (λ h. omega arith) (λ h. (7, refl)) rx_lcores
      tx_lcores (omega arith) (λ lcore. omega arith)

run-replay_init-set_up_example :
    (any (sets_up sending_side 1 0) initialised.1.calls ≡ true)
    × (any (starts 1) initialised.1.calls ≡ true)
unfolding run step stepped turn launched
run-replay_init-set_up_example =
    run-replay_init-set_up small_dpdk idle_nic configured (λ p q. 2) (λ p q. 3) no_calls
      initialised.1 schedule sending_side 3 1 0 configured-IsConfig configured-NoWorkers
      (λ h. omega arith) (λ h. (7, refl)) rx_lcores tx_lcores (omega arith) (λ lcore. omega arith)
      initialised.3 refl
