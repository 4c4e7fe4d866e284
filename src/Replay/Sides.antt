-- ===== src/Replay/Sides.antt =====
-- src/replay: the two sides of the network, RX and TX, of which the program has the same arrays.
use nvme_dpdk_pcapreplay.Prelude.{ℕ, List}
use nvme_dpdk_pcapreplay.Replay.Params.{NicQueue, LcoreParams, ReplayParams}

-- Receiving or sending.
pub data Side : Type 0 where
  receiving sending_side : Side

abbrev pub queues_of : Side → LcoreParams → List NicQueue
queues_of receiving lp = lp.rx
queues_of sending_side lp = lp.tx

abbrev pub mask_of : Side → ReplayParams → ℕ → ℕ → ℕ
mask_of receiving r = r.nic_rx_queue_mask
mask_of sending_side r = r.nic_tx_queue_mask
