-- ===== src/Replay/Init.antt =====
-- src/replay/init.c: the pools of buffers, the ports and their queues, and the wait for their links.
pub mod Links
pub mod Pools
pub mod Setups
pub mod Ports
pub mod Started
use nvme_dpdk_pcapreplay.Prelude.{
  ℕ, zero, suc, ◌+◌, ◌-◌, ◌/◌, ◌%◌, ◌^◌, Bool, true, false, Option, none, some, List, [], ◌∷◌, leb,
  ltb, ◌==◌, if◌then◌else◌, ◌&&◌, ◌||◌, not, get_or, Outcome, done, exits, hangs,
}
use nvme_dpdk_pcapreplay.Layout.{u8}
use nvme_dpdk_pcapreplay.Replay.Params.{Dpdk, ReplayParams, update, max_queues_per_nic_port}
use nvme_dpdk_pcapreplay.Replay.Args.{is_worker}
use nvme_dpdk_pcapreplay.Replay.Queries.{
  is_disabled, replay_get_nic_rx_queues_per_port, replay_get_nic_tx_queues_per_port,
  replay_get_lcore_for_nic_rx, replay_get_lcore_for_nic_tx, replay_is_socket_used,
}
use nvme_dpdk_pcapreplay.Replay.Nic.{
  mempool_create, dev_configure, promiscuous_enable, rx_queue_setup, tx_queue_setup, dev_start,
  link_get, delay_ms, Nic, Nics, Nio, ◌>>=◌, ◌>>◌, return, panic, note, call, call_or_panic,
}

-- A result stored in a uint32_t; -1 is its largest value.
abbrev pub as_u32 : Option ℕ → ℕ
as_u32 none = 2 ^ 32 - 1
as_u32 (some n) = n

-- What is stored through `lcore_out`: nothing, if there is no lcore.
abbrev pub stored : Option ℕ → ℕ → ℕ
stored none lcore = lcore
stored (some l) lcore = l

-- REPLAY_MAX_SOCKETS
abbrev pub max_sockets : ℕ
max_sockets = 2

-- CHECK_INTERVAL and MAX_CHECK_TIME
abbrev pub check_interval : ℕ
check_interval = 100

abbrev pub max_check_time : ℕ
max_check_time = 90

module _ (dpdk : Dpdk) (nic : Nic) (r : ReplayParams) where
  -- The loop over the sockets, with the rounds that are left.
  unfoldable pub create_pools : ℕ → ℕ → Nio Unit
  create_pools zero socket s = done (tt, s)
  create_pools (suc n) socket s = elim (replay_is_socket_used dpdk r socket) [
    | false ↦ create_pools n (suc socket) s
    | true ↦
        let s' = note (mempool_create socket) s in
        elim (nic.pool_at s'.calls) [
          | none ↦ exits 134
          | some p ↦
              create_pools n (suc socket) (record s' { pools = update s'.pools socket (some p) })
        ]
  ]

  -- The loop over the lcores. What lies behind the array of pools is taken for no pool.
  unfoldable pub give_pools : ℕ → ℕ → Nics → Nics
  give_pools zero lcore s = s
  give_pools (suc n) lcore s = elim (is_disabled (r.lcore_params lcore).type) [
    | true ↦ give_pools n (suc lcore) s
    | false ↦ give_pools n (suc lcore) (record s {
      lcore_pool = update s.lcore_pool lcore (s.pools (dpdk.lcore_to_socket_id lcore));
    })
  ]

  unfoldable pub replay_init_mbuf_pools : Nio Unit
  unfolding create_pools give_pools
  replay_init_mbuf_pools =
      create_pools max_sockets 0 >> λ s. done (tt, give_pools dpdk.max_lcores 0 s)

  -- Whether a port has a transmit queue and queue 0 has no lcore.
  unfoldable pub lost_port : ℕ → ℕ → Bool
  lost_port zero port = false
  lost_port (suc n) port =
      let rest = lost_port n (suc port) in
      if as_u32 (replay_get_nic_tx_queues_per_port dpdk r (u8 port)) == 0
      then rest
      else elim (replay_get_lcore_for_nic_tx dpdk r (u8 port) 0) [ none ↦ true | some l ↦ rest ]

  -- The loop over the lcores, of which the workers look at the ports.
  unfoldable pub rings_tx : ℕ → ℕ → Nio Unit
  unfolding lost_port
  rings_tx zero lcore s = done (tt, s)
  rings_tx (suc n) lcore s =
      if is_worker (r.lcore_params lcore).type && lost_port dpdk.max_nic_ports 0
      then exits 134
      else rings_tx n (suc lcore) s

  unfoldable pub replay_init_rings_tx : Nio Unit
  unfolding rings_tx
  replay_init_rings_tx = rings_tx dpdk.max_lcores 0

  -- The queues of a port from one on. The variable `lcore` is handed on.
  unfoldable pub rx_queues : ℕ → ℕ → ℕ → ℕ → Nio ℕ
  rx_queues zero port queue lcore s = done (lcore, s)
  rx_queues (suc n) port queue lcore s = elim (r.nic_rx_queue_mask port queue == 0) [
    | true ↦ rx_queues n port (suc queue) lcore s
    | false ↦
        let l = stored (replay_get_lcore_for_nic_rx dpdk r port queue) lcore in
        (call_or_panic nic (
              rx_queue_setup port queue (r.nic_rx_ring_size % 2 ^ 16) (dpdk.lcore_to_socket_id l)
                (s.lcore_pool l))
            >> rx_queues n port (suc queue) l)
          s
  ]

  unfoldable pub tx_queues : ℕ → ℕ → ℕ → ℕ → Nio ℕ
  tx_queues zero port queue lcore s = done (lcore, s)
  tx_queues (suc n) port queue lcore s = elim (r.nic_tx_queue_mask port queue == 0) [
    | true ↦ tx_queues n port (suc queue) lcore s
    | false ↦
        let l = stored (replay_get_lcore_for_nic_tx dpdk r port queue) lcore in
        (call_or_panic nic
              (tx_queue_setup port queue (r.nic_tx_ring_size % 2 ^ 16) (dpdk.lcore_to_socket_id l))
            >> tx_queues n port (suc queue) l)
          s
  ]

  -- Whether neither number of queues is above 0.
  unfoldable pub is_unused : ℕ → Bool
  is_unused port =
      as_u32 (replay_get_nic_rx_queues_per_port dpdk r port) == 0
      && as_u32 (replay_get_nic_tx_queues_per_port dpdk r port) == 0

  -- One round of the loop over the ports.
  unfoldable pub init_port : ℕ → ℕ → Nio ℕ
  unfolding rx_queues tx_queues is_unused
  init_port port lcore = elim (is_unused port) [
    | true ↦ return lcore
    | false ↦ do
      call_or_panic nic (
          dev_configure port (u8 (as_u32 (replay_get_nic_rx_queues_per_port dpdk r port)))
            (u8 (as_u32 (replay_get_nic_tx_queues_per_port dpdk r port))))
      call (promiscuous_enable port)
      l ← rx_queues max_queues_per_nic_port port 0 lcore
      l' ← tx_queues max_queues_per_nic_port port 0 l
      call_or_panic nic (dev_start port)
      return l'
  ]

  -- `port` is a uint8_t.
  unfoldable pub init_ports : ℕ → ℕ → ℕ → Nio ℕ
  init_ports zero port lcore s = hangs
  init_ports (suc fuel) port lcore s = elim (ltb port dpdk.max_nic_ports) [
    | false ↦ done (lcore, s)
    | true ↦ (init_port port lcore >>= init_ports fuel (u8 (port + 1))) s
  ]

  -- Whether all ports are up. A shift by 32 or more, which C leaves undefined, is by the remainder,
  -- as the x86 does it. The flag is `print_flag`.
  unfoldable pub look_ports : ℕ → ℕ → ℕ → Bool → Nio Bool
  unfolding is_unused
  look_ports zero portid mask flag s = done (true, s)
  look_ports (suc n) portid mask flag s =
      elim (mask / 2 ^ (portid % 32) % 2 == 0 || is_unused portid) [
        | true ↦ look_ports n (suc portid) mask flag s
        | false ↦
            let s' = note (link_get portid) s in
            elim (not flag && nic.link_status s'.calls == 0) [
              | true ↦ done (false, s')
              | false ↦ look_ports n (suc portid) mask flag s'
            ]
      ]

  -- The rounds that are left, and how many there were.
  unfoldable pub link_rounds : ℕ → ℕ → Bool → ℕ → ℕ → Nio Unit
  unfolding look_ports
  link_rounds zero count flag port_num mask s = done (tt, s)
  link_rounds (suc n) count flag port_num mask s =
      (look_ports port_num 0 mask flag >>= λ up. elim flag [
        | true ↦ return tt
        | false ↦
            (if up then return tt else call (delay_ms check_interval))
            >> link_rounds n (suc count) (up || count == max_check_time - 1) port_num mask
      ])
        s

  unfoldable pub check_all_ports_link_status : ℕ → ℕ → Nio Unit
  unfolding link_rounds
  check_all_ports_link_status port_num mask =
      link_rounds (max_check_time + 1) 0 false (u8 port_num) mask

  -- One round more than there are ports ends the loop, if they are at most 255.
  unfoldable pub replay_init_nics : Nio Unit
  unfolding init_ports check_all_ports_link_status
  replay_init_nics =
      init_ports (suc dpdk.max_nic_ports) 0 0
      >> check_all_ports_link_status dpdk.max_nic_ports (2 ^ 32 - 1)

  unfoldable pub replay_init : Nio Unit
  unfolding replay_init_mbuf_pools replay_init_rings_tx replay_init_nics
  replay_init = replay_init_mbuf_pools >> replay_init_rings_tx >> replay_init_nics
