-- ===== src/Store.antt =====
-- What moves of blocks do to the bytes of the memory and of the NVMes.
pub mod Places
pub mod RoundTrip
use nvme_dpdk_pcapreplay.Prelude.{ℕ, ◌+◌, ◌-◌, List, [], ◌∷◌, leb, ltb, ◌==◌, if◌then◌else◌, ◌&&◌}
use nvme_dpdk_pcapreplay.Layout.{NvmeRaid, sector_length}
use nvme_dpdk_pcapreplay.Stripe.{super_getdisk, super_getdisklba}
use nvme_dpdk_pcapreplay.Driver.{Direction, reads, writes}
use nvme_dpdk_pcapreplay.Simpleio.{disk_at}
use nvme_dpdk_pcapreplay.Transfer.Blocks.{Move, block, copies}

-- The bytes at an address, and at an NVMe, a block of it and a place in the block.
pub record Store : Type 0 where
  pub memory : ℕ → ℕ
  pub disk : ℕ → ℕ → ℕ → ℕ

-- Bytes from a source put at an address.
abbrev pub fill : (ℕ → ℕ) → ℕ → ℕ → (ℕ → ℕ) → ℕ → ℕ
fill mem to n source a = if leb to a && ltb a (to + n) then source (a - to) else mem a

-- Each move takes place at once.
unfoldable pub step : Move → Store → Store
step (block reads ns lba payload) st = record st {
  memory = fill st.memory payload sector_length (st.disk ns lba);
}
step (block writes ns lba payload) st = record st {
  disk = λ n l o. if n == ns && l == lba then st.memory (payload + o) else st.disk n l o;
}
step (copies n to from) st = record st { memory = fill st.memory to n (λ k. st.memory (from + k)) }

unfoldable pub run : List Move → Store → Store
unfolding step
run [] st = st
run (m ∷ ms) st = run ms (step m st)

-- The bytes of a block of the raid.
abbrev pub on_raid : NvmeRaid → Store → ℕ → ℕ → ℕ
on_raid raid st lba = st.disk (disk_at raid (super_getdisk raid lba)).ns (super_getdisklba raid lba)
