-- ===== src/Replay/Queries.antt =====
-- src/replay/config.c, `replay_get_nic_rx_queues_per_port` to `replay_get_lcores_worker`: what the
-- initialisation asks of the configuration. Its loops count the rounds that are left.
pub mod Lookup
use nvme_dpdk_pcapreplay.Prelude.{
  ℕ, zero, suc, ◌+◌, Bool, true, false, Option, none, some, List, [], ◌∷◌, leb, ltb, ◌==◌,
  if◌then◌else◌, ◌&&◌, ◌||◌, length, not,
}
use nvme_dpdk_pcapreplay.Replay.Params.{
  Dpdk, LcoreType, disabled, io, worker, worker_slave, NicQueue, LcoreParams, ReplayParams,
  max_queues_per_nic_port, max_worker_lcores,
}
use nvme_dpdk_pcapreplay.Replay.Args.{is_io, is_worker, has_queue}

abbrev pub is_disabled : LcoreType → Bool
is_disabled disabled = true
is_disabled io = false
is_disabled worker = false
is_disabled worker_slave = false

-- How many of the `n` indices from `i` on pass a test.
unfoldable pub count_from : (ℕ → Bool) → ℕ → ℕ → ℕ
count_from test zero i = 0
count_from test (suc n) i = (if test i then 1 else 0) + count_from test n (suc i)

-- The first of them.
unfoldable pub first_from : (ℕ → Bool) → ℕ → ℕ → Option ℕ
first_from test zero i = none
first_from test (suc n) i = let rest = first_from test n (suc i) in if test i then some i else rest

module _ (dpdk : Dpdk) (r : ReplayParams) where
  -- `none` is -1.
  unfoldable pub replay_get_nic_rx_queues_per_port : ℕ → Option ℕ
  unfolding count_from
  replay_get_nic_rx_queues_per_port port =
      if leb dpdk.max_nic_ports port
      then none
      else some (count_from (λ i. r.nic_rx_queue_mask port i == 1) max_queues_per_nic_port 0)

  unfoldable pub replay_get_nic_tx_queues_per_port : ℕ → Option ℕ
  unfolding count_from
  replay_get_nic_tx_queues_per_port port =
      if leb dpdk.max_nic_ports port
      then none
      else some (count_from (λ i. r.nic_tx_queue_mask port i == 1) max_queues_per_nic_port 0)

  -- `none` is -1, and else what is stored through `lcore_out`.
  unfoldable pub replay_get_lcore_for_nic_rx : ℕ → ℕ → Option ℕ
  replay_get_lcore_for_nic_rx port queue =
      first_from
        (λ lcore.
          is_io (r.lcore_params lcore).type && has_queue port queue (r.lcore_params lcore).rx)
        dpdk.max_lcores 0

  unfoldable pub replay_get_lcore_for_nic_tx : ℕ → ℕ → Option ℕ
  replay_get_lcore_for_nic_tx port queue =
      first_from
        (λ lcore.
          is_io (r.lcore_params lcore).type && has_queue port queue (r.lcore_params lcore).tx)
        dpdk.max_lcores 0

  unfoldable pub is_some_lcore : Option ℕ → Bool
  is_some_lcore none = false
  is_some_lcore (some l) = true

  unfoldable pub replay_is_socket_used : ℕ → Bool
  unfolding first_from is_some_lcore
  replay_is_socket_used socket = is_some_lcore (
      first_from
        (λ lcore.
          not (is_disabled (r.lcore_params lcore).type) && socket == dpdk.lcore_to_socket_id lcore)
        dpdk.max_lcores 0)

  unfoldable pub replay_get_lcores_io_rx : ℕ
  unfolding count_from
  replay_get_lcores_io_rx =
      count_from
        (λ lcore.
          not (not (is_io (r.lcore_params lcore).type) || length (r.lcore_params lcore).rx == 0))
        dpdk.max_lcores 0

  -- `none` is the end by rte_panic.
  unfoldable pub replay_get_lcores_worker : Option ℕ
  unfolding count_from
  replay_get_lcores_worker =
      let count : ℕ =
        count_from (λ lcore. is_worker (r.lcore_params lcore).type) dpdk.max_lcores 0 in
      if ltb max_worker_lcores count then none else some count
