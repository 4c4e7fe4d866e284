-- ===== src/Replay/Lcores/SetUp.antt =====
-- src/replay/replay.c: `app_init` and then `app_run`.
use nvme_dpdk_pcapreplay.Replay.Sides.{Side, receiving, sending_side, mask_of, queues_of}
use nvme_dpdk_pcapreplay.Prelude.{
  ℕ, ◌^◌, ◌<◌, ◌≡◌, sym, ap, ◌∙◌, true, List, ◌++◌, Outcome, done, arith,
}
use nvme_dpdk_pcapreplay.Replay.Params.{Dpdk, ReplayParams, max_queues_per_nic_port}
use nvme_dpdk_pcapreplay.Replay.Args.{has_queue}
use nvme_dpdk_pcapreplay.Replay.Args.Queues.{IsConfig}
use nvme_dpdk_pcapreplay.Replay.Nic.{EthCall, Nic, Nics}
use nvme_dpdk_pcapreplay.Replay.Init.{max_sockets, replay_init}
use nvme_dpdk_pcapreplay.Replay.Init.Pools.{GivesPools}
use nvme_dpdk_pcapreplay.Replay.Init.Setups.{NeverFails, Owns, onto, port_setups}
use nvme_dpdk_pcapreplay.Replay.Init.Started.{NoWorkers, replay_init-port_setups}
use nvme_dpdk_pcapreplay.Replay.Lcores.{run, launched}
use nvme_dpdk_pcapreplay.Replay.Lcores.Exclusive.{bursts, did, run-has_queue}
use nvme_dpdk_pcapreplay.Replay.Lcores.Ready.{
  sets_up, starts, any, any-append_right, any-onto, port_setups-there,
}

same_state :
    {s t : Nics} → ◌≡◌ {A = Outcome (Unit {0} × Nics)} (done (tt, s)) (done (tt, t)) → s ≡ t
same_state e = cc

-- A queue of an lcore is on, and in range.
IsConfig-on :
    (dpdk : Dpdk) (r : ReplayParams) (side : Side) (lcore port queue : ℕ)
    → IsConfig dpdk r
    → has_queue port queue (queues_of side (r.lcore_params lcore)) ≡ true
    → (mask_of side r port queue ≡ 1)
      × (port < dpdk.max_nic_ports)
      × (queue < max_queues_per_nic_port)
IsConfig-on dpdk r receiving lcore port queue v has =
    let on = v.rx.switched_on lcore port queue has in
    let (a, b) = v.rx.in_range port queue on in (on, a, b)
IsConfig-on dpdk r sending_side lcore port queue v has =
    let on = v.tx.switched_on lcore port queue has in
    let (a, b) = v.tx.in_range port queue on in (on, a, b)

-- In a configuration in order without workers, with at most 255 ports, sockets below
-- REPLAY_MAX_SOCKETS, and DPDK calls that do not fail: when `replay_init` has returned and `app_run`
-- has started the loops of all lcores, in whatever order they have taken turns, every queue that an
-- lcore has made a burst on had been set up by `replay_init`, for receiving or for sending as it was
-- used, and its port had been started.
pub run-replay_init-set_up :
    (dpdk : Dpdk) (nic : Nic) (r : ReplayParams) (rx_owner tx_owner : ℕ → ℕ → ℕ) (s s' : Nics)
    (schedule : List ℕ) (side : Side) (lcore port queue : ℕ)
    → IsConfig dpdk r
    → NoWorkers r
    → NeverFails nic
    → GivesPools nic
    → Owns r.nic_rx_queue_mask (λ l. (r.lcore_params l).rx) rx_owner
    → Owns r.nic_tx_queue_mask (λ l. (r.lcore_params l).tx) tx_owner
    → dpdk.max_nic_ports < 2 ^ 8
    → ((l : ℕ) → dpdk.lcore_to_socket_id l < max_sockets)
    → replay_init dpdk nic r s ≡ done (tt, s')
    → did (bursts side port queue) lcore (run nic r schedule (launched dpdk r s')).log ≡ true
    → (any (sets_up side port queue) s'.calls ≡ true) × (any (starts port) s'.calls ≡ true)
run-replay_init-set_up dpdk nic r rx_owner tx_owner s s' schedule side lcore port queue v none_works
      ready gives rx_owns tx_owns small sockets e used =
    let (s1, s2, looks, e', _, calls, _, _) =
      replay_init-port_setups dpdk nic r rx_owner tx_owner s v none_works ready gives rx_owns
        tx_owns small sockets in
    let has = run-has_queue dpdk nic r s' schedule side lcore port queue used in
    let (on, port_in, queue_in) = IsConfig-on dpdk r side lcore port queue v has in
    let setups : List EthCall =
      port_setups dpdk r s1.lcore_pool rx_owner tx_owner nic dpdk.max_nic_ports 0 in
    let (set, begun) =
      port_setups-there dpdk r s1.lcore_pool rx_owner tx_owner nic side dpdk.max_nic_ports 0 port
        queue (omega arith) (omega arith) port_in queue_in on in
    let is : s'.calls ≡ looks ++ onto setups s1.calls =
      ap (λ (x : Nics). x.calls) (same_state (sym e ∙ e')) ∙ calls in
    rw is (
      any-append_right (sets_up side port queue) looks (onto setups s1.calls)
          (any-onto (sets_up side port queue) setups s1.calls set),
      any-append_right (starts port) looks (onto setups s1.calls)
          (any-onto (starts port) setups s1.calls begun),
    )
