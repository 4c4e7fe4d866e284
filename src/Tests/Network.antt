-- ===== src/Tests/Network.antt =====
-- The initialisation and the rounds of the replay program.
use nvme_dpdk_pcapreplay.Prelude.{
  ℕ, ◌≤◌, ◌<◌, ◌≡◌, refl, false, none, some, List, [], ◌∷◌, ◌++◌, done, arith,
}
use nvme_dpdk_pcapreplay.Replay.Params.{ReplayParams}
use nvme_dpdk_pcapreplay.Replay.Args.{has_queue}
use nvme_dpdk_pcapreplay.Replay.Queries.{is_disabled}
use nvme_dpdk_pcapreplay.Replay.Nic.{EthCall, Nic, Nics}
use nvme_dpdk_pcapreplay.Replay.Init.{check_all_ports_link_status, replay_init}
use nvme_dpdk_pcapreplay.Replay.Init.Links.{
  Looks, LooksFor, waited, check_all_ports_link_status-LooksFor,
}
use nvme_dpdk_pcapreplay.Replay.Init.Pools.{PoolOf}
use nvme_dpdk_pcapreplay.Replay.Init.Setups.{Owns, onto, port_setups}
use nvme_dpdk_pcapreplay.Replay.Init.Started.{NoWorkers, replay_init-port_setups}
use nvme_dpdk_pcapreplay.Tests.Config.{small_dpdk, configured, configured-IsConfig}

-- Nothing fails, links are down, each burst receives the buffer 5 and sends nothing.
abbrev pub idle_nic : Nic
idle_nic = record {
  pool_at = λ h. some 7;
  status = λ h. 0;
  link_status = λ h. 0;
  received = λ h. 5 ∷ [];
  buffer_at = λ h. some 6;
  sent = λ h. 0;
}

abbrev pub no_calls : Nics
no_calls = record {
  calls = [];
  pools = λ socket. none;
  lcore_pool = λ lcore. none;
  mbuf_out = λ lcore port. 0;
}

check_all_ports_link_status-LooksFor_example :
    LooksFor 9000 (check_all_ports_link_status small_dpdk idle_nic configured 4 15)
check_all_ports_link_status-LooksFor_example =
    check_all_ports_link_status-LooksFor small_dpdk idle_nic configured 4 15

pub configured-NoWorkers : NoWorkers configured
configured-NoWorkers lcore = ground arith

pub rx_lcores : Owns configured.nic_rx_queue_mask (λ l. (configured.lcore_params l).rx) (λ p q. 2)
unfolding has_queue
rx_lcores port queue on = ground arith

pub tx_lcores : Owns configured.nic_tx_queue_mask (λ l. (configured.lcore_params l).tx) (λ p q. 3)
unfolding has_queue
tx_lcores port queue on = ground arith

replay_init-port_setups_example :
    (s1 : Nics) × (s' : Nics) × (looks : List EthCall) × (replay_init small_dpdk idle_nic configured
        no_calls
      ≡ done (tt, s'))
    × ((lcore : ℕ)
        → lcore < 8
        → is_disabled (configured.lcore_params lcore).type ≡ false
        → PoolOf idle_nic 0 s1 (s1.lcore_pool lcore))
    × (s'.calls
        ≡ looks
          ++ onto
              (port_setups small_dpdk configured s1.lcore_pool (λ p q. 2) (λ p q. 3) idle_nic 4 0)
              s1.calls)
    × Looks looks
    × (waited looks ≤ 9000)
replay_init-port_setups_example =
    replay_init-port_setups small_dpdk idle_nic configured (λ p q. 2) (λ p q. 3) no_calls
      configured-IsConfig configured-NoWorkers (λ h. omega arith) (λ h. (7, refl)) rx_lcores
      tx_lcores (omega arith) (λ lcore. omega arith)

-- Three rounds of the lcore 3, with bursts of two packets.
abbrev pub pairs : ReplayParams
pairs = record configured { burst_size_io_rx_read = 2; burst_size_io_tx_write = 2 }
