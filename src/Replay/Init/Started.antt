-- ===== src/Replay/Init/Started.antt =====
-- src/replay/init.c, `replay_init`: the pools, the rings and the ports, one after another.
use nvme_dpdk_pcapreplay.Prelude.{ℕ, zero, suc, ◌^◌, ◌≤◌, ◌<◌, ◌≡◌, refl, false, List, ◌++◌, done}
use nvme_dpdk_pcapreplay.Replay.Params.{Dpdk, ReplayParams}
use nvme_dpdk_pcapreplay.Replay.Args.{is_worker}
use nvme_dpdk_pcapreplay.Replay.Args.Queues.{IsConfig}
use nvme_dpdk_pcapreplay.Replay.Queries.{is_disabled}
use nvme_dpdk_pcapreplay.Replay.Nic.{EthCall, Nic, Nics, ◌>>=◌, ◌>>◌}
use nvme_dpdk_pcapreplay.Replay.Init.{max_sockets, rings_tx, replay_init_rings_tx, replay_init}
use nvme_dpdk_pcapreplay.Replay.Init.Links.{Looks, waited}
use nvme_dpdk_pcapreplay.Replay.Init.Pools.{GivesPools, PoolOf, replay_init_mbuf_pools-PoolOf}
use nvme_dpdk_pcapreplay.Replay.Init.Setups.{NeverFails, Owns, onto, port_setups}
use nvme_dpdk_pcapreplay.Replay.Init.Ports.{replay_init_nics-port_setups}

-- No lcore is a worker.
abbrev pub NoWorkers : ReplayParams → Type 0
NoWorkers r = (lcore : ℕ) → is_worker (r.lcore_params lcore).type ≡ false

rings_tx-done :
    (dpdk : Dpdk) (nic : Nic) (r : ReplayParams) (n lcore : ℕ) (s : Nics)
    → NoWorkers r
    → rings_tx dpdk nic r n lcore s ≡ done (tt, s)
unfolding rings_tx
rings_tx-done dpdk nic r zero lcore s none_works = refl
rings_tx-done dpdk nic r (suc n) lcore s none_works =
    let rest = rings_tx-done dpdk nic r n (suc lcore) s none_works in rw (none_works lcore) rest

-- In a configuration in order without workers, with at most 255 ports, sockets below
-- REPLAY_MAX_SOCKETS, and DPDK calls that do not fail, `replay_init` returns. Every lcore that is not
-- disabled has a pool that was created for its socket, and after the pools the calls were those that
-- `port_setups` lists, with these pools, and then looks at the links for at most 9 seconds.
pub replay_init-port_setups :
    (dpdk : Dpdk) (nic : Nic) (r : ReplayParams) (rx_owner tx_owner : ℕ → ℕ → ℕ) (s : Nics)
    → IsConfig dpdk r
    → NoWorkers r
    → NeverFails nic
    → GivesPools nic
    → Owns r.nic_rx_queue_mask (λ l. (r.lcore_params l).rx) rx_owner
    → Owns r.nic_tx_queue_mask (λ l. (r.lcore_params l).tx) tx_owner
    → dpdk.max_nic_ports < 2 ^ 8
    → ((lcore : ℕ) → dpdk.lcore_to_socket_id lcore < max_sockets)
    → (s1 : Nics) × (s' : Nics) × (looks : List EthCall) × (replay_init dpdk nic r s
        ≡ done (tt, s'))
      × ((lcore : ℕ)
          → lcore < dpdk.max_lcores
          → is_disabled (r.lcore_params lcore).type ≡ false
          → PoolOf nic (dpdk.lcore_to_socket_id lcore) s1 (s1.lcore_pool lcore))
      × (s'.calls
          ≡ looks
            ++ onto
                (port_setups dpdk r s1.lcore_pool rx_owner tx_owner nic dpdk.max_nic_ports 0)
                s1.calls)
      × Looks looks
      × (waited looks ≤ 9000)
unfolding replay_init replay_init_rings_tx
replay_init-port_setups dpdk nic r rx_owner tx_owner s v none_works ready gives rx_owns tx_owns
      small sockets =
    let (s1, e, pooled) = replay_init_mbuf_pools-PoolOf dpdk nic r s gives in
    let (s', looks, e', calls, are, le) =
      replay_init_nics-port_setups dpdk nic r rx_owner tx_owner v ready rx_owns tx_owns s1 small in
    (
      s1,
      s',
      looks,
      rw (replay_init, ◌>>◌, ◌>>=◌, e, rings_tx-done dpdk nic r dpdk.max_lcores 0 s1 none_works) e',
      λ lcore low on. pooled lcore low on (sockets lcore),
      calls,
      are,
      le,
    )
