-- ===== src/Replay/Params.antt =====
-- src/replay/replay.h: the parameters of the replay program, and what it takes from DPDK.
use nvme_dpdk_pcapreplay.Prelude.{ℕ, Bool, List, [], ◌==◌, if◌then◌else◌, ◌&&◌}

-- What src/replay takes from DPDK: RTE_MAX_ETHPORTS, RTE_MAX_LCORE, rte_lcore_is_enabled,
-- rte_lcore_to_socket_id, and the tokens of rte_strsplit, at most so many, cut at a character.
pub record Dpdk : Type 0 where
  pub max_nic_ports : ℕ
  pub max_lcores : ℕ
  pub lcore_is_enabled : ℕ → Bool
  pub lcore_to_socket_id : ℕ → ℕ
  pub strsplit : List ℕ → ℕ → ℕ → List (List ℕ)

-- REPLAY_MAX_RX_QUEUES_PER_NIC_PORT and REPLAY_MAX_TX_QUEUES_PER_NIC_PORT
abbrev pub max_queues_per_nic_port : ℕ
max_queues_per_nic_port = 128

-- REPLAY_MAX_NIC_RX_QUEUES_PER_IO_LCORE and REPLAY_MAX_NIC_TX_QUEUES_PER_IO_LCORE
abbrev pub max_nic_queues_per_io_lcore : ℕ
max_nic_queues_per_io_lcore = 16

abbrev pub max_worker_lcores : ℕ
max_worker_lcores = 16

abbrev pub mbuf_array_size : ℕ
mbuf_array_size = 512

-- REPLAY_DEFAULT_NIC_RX_RING_SIZE and REPLAY_DEFAULT_NIC_TX_RING_SIZE
abbrev pub default_ring_size : ℕ
default_ring_size = 1024

-- REPLAY_DEFAULT_BURST_SIZE_IO_RX_READ and REPLAY_DEFAULT_BURST_SIZE_IO_TX_WRITE
abbrev pub default_burst_size : ℕ
default_burst_size = 144

-- `enum replay_lcore_type`
pub data LcoreType : Type 0 where
  disabled io worker worker_slave : LcoreType

-- A `nic_queues` entry.
pub record NicQueue : Type 0 where
  pub port : ℕ
  pub queue : ℕ

-- `struct replay_lcore_params`: the first `n_nic_queues` entries of either side are a list. Buffers
-- and statistics, which the program never reads, are left out.
pub record LcoreParams : Type 0 where
  pub type : LcoreType
  pub rx : List NicQueue
  pub tx : List NicQueue

-- `struct replay_params`, its arrays as functions of their indices; the pools are DPDK's.
pub record ReplayParams : Type 0 where
  pub lcore_params : ℕ → LcoreParams
  pub nic_rx_queue_mask : ℕ → ℕ → ℕ
  pub nic_tx_queue_mask : ℕ → ℕ → ℕ
  pub nic_tx_queue_nvme : ℕ → ℕ → ℕ
  pub nic_rx_ring_size : ℕ
  pub nic_tx_ring_size : ℕ
  pub burst_size_io_rx_read : ℕ
  pub burst_size_io_tx_write : ℕ

-- The global `replay` before the arguments are read.
abbrev pub initial : ReplayParams
initial = record {
  lcore_params = λ lcore. record { type = disabled; rx = []; tx = [] };
  nic_rx_queue_mask = λ port queue. 0;
  nic_tx_queue_mask = λ port queue. 0;
  nic_tx_queue_nvme = λ port queue. 0;
  nic_rx_ring_size = 0;
  nic_tx_ring_size = 0;
  burst_size_io_rx_read = 0;
  burst_size_io_tx_write = 0;
}

-- Writes to the arrays.
abbrev pub update {ℓ} : {A : Type ℓ} → (ℕ → A) → ℕ → A → ℕ → A
update f i v j = if j == i then v else f j

abbrev pub update_at : (ℕ → ℕ → ℕ) → ℕ → ℕ → ℕ → ℕ → ℕ → ℕ
update_at f i j v k l = if k == i && l == j then v else f k l
