-- ===== src/Replay.antt =====
-- src/replay: the configuration of the replay program, its initialisation and its loops. The network
-- side is DPDK's.
pub mod Params
pub mod Numbers
pub mod Args
pub mod Options
pub mod Queries
pub mod Sides
pub mod Report
pub mod Nic
pub mod Init
pub mod Lcores
pub mod Tool
