-- ===== src/Tests.antt =====
-- The theorems at concrete inputs.
pub mod Fixtures
pub mod Drivers
mod Blocks
pub mod Files
mod Bytes
pub mod Config
mod Network
mod Lcores
mod Boot
mod Copies
mod Reboot
mod Buffers
