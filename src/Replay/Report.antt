-- ===== src/Replay/Report.antt =====
-- src/replay/config.c, `replay_print_params`: what the program says of its configuration. The loops
-- count the rounds that are left.
pub mod Ports
pub mod Said
pub mod Agrees
use nvme_dpdk_pcapreplay.Prelude.{
  ℕ, zero, suc, Bool, false, Option, none, some, List, [], ◌∷◌, ◌++◌, ◌==◌, if◌then◌else◌, ◌||◌,
  length, not,
}
use nvme_dpdk_pcapreplay.Layout.{u8}
use nvme_dpdk_pcapreplay.Replay.Params.{
  Dpdk, NicQueue, LcoreParams, ReplayParams, max_queues_per_nic_port,
}
use nvme_dpdk_pcapreplay.Replay.Args.{is_io}
use nvme_dpdk_pcapreplay.Replay.Queries.{
  replay_get_nic_rx_queues_per_port, replay_get_nic_tx_queues_per_port,
}
use nvme_dpdk_pcapreplay.Replay.Sides.{Side, receiving, sending_side, queues_of, mask_of}

-- A line that is printed: "NIC RX ports" or "NIC TX ports" with the ports and their queues;
-- "I/O lcore" with an lcore, its socket and its queues of a side; the sizes of the rings, RX and TX;
-- and those of the bursts.
pub data ReportLine : Type 0 where
  nic_ports : Side → List (ℕ × List ℕ) → ReportLine
  io_lcore : Side → ℕ → ℕ → List NicQueue → ReportLine
  ring_sizes : ℕ → ℕ → ReportLine
  burst_sizes : ℕ → ℕ → ReportLine

-- The test of `n_rx_queues` and `n_tx_queues`, in which -1 is not 0.
unfoldable pub no_queues : Option ℕ → Bool
no_queues none = false
no_queues (some n) = n == 0

-- The loop over the queues of a port.
unfoldable pub queues_on : (ℕ → ℕ) → ℕ → ℕ → List ℕ
queues_on mask zero queue = []
queues_on mask (suc n) queue =
    let rest = queues_on mask n (suc queue) in if mask queue == 1 then (queue ∷ rest) else rest

module _ (dpdk : Dpdk) (r : ReplayParams) where
  abbrev pub queues_per_port : Side → ℕ → Option ℕ
  queues_per_port receiving = replay_get_nic_rx_queues_per_port dpdk r
  queues_per_port sending_side = replay_get_nic_tx_queues_per_port dpdk r

  -- The loop over the ports.
  unfoldable pub port_lines : Side → ℕ → ℕ → List (ℕ × List ℕ)
  port_lines side zero port = []
  port_lines side (suc n) port =
      let rest = port_lines side n (suc port) in
      if no_queues (queues_per_port side (u8 port))
      then rest
      else ((port, queues_on (mask_of side r port) max_queues_per_nic_port 0) ∷ rest)

  -- The loop over the lcores.
  unfoldable pub lcore_lines : Side → ℕ → ℕ → List ReportLine
  lcore_lines side zero lcore = []
  lcore_lines side (suc n) lcore =
      let rest = lcore_lines side n (suc lcore) in
      let lp : LcoreParams = r.lcore_params lcore in
      if not (is_io lp.type) || length (queues_of side lp) == 0
      then rest
      else (io_lcore side lcore (dpdk.lcore_to_socket_id lcore) (queues_of side lp) ∷ rest)

  -- The lines of a side.
  unfoldable pub side_lines : Side → List ReportLine
  side_lines side =
      nic_ports side (port_lines side dpdk.max_nic_ports 0) ∷ lcore_lines side dpdk.max_lcores 0

  unfoldable pub replay_print_params : List ReportLine
  replay_print_params =
      side_lines receiving
      ++ (side_lines sending_side
          ++ (ring_sizes r.nic_rx_ring_size r.nic_tx_ring_size
              ∷ burst_sizes r.burst_size_io_rx_read r.burst_size_io_tx_write
              ∷ []))
