-- ===== src/Replay/Nic.antt =====
-- DPDK's network side, which src/replay/init.c and src/replay/runtime.c call: its answers are
-- functions of the calls so far, the newest first.
use nvme_dpdk_pcapreplay.Prelude.{
  ℕ, ◌^◌, ◌≡◌, Option, List, ◌∷◌, ltb, if◌then◌else◌, Outcome, done, exits, hangs, overruns,
}

-- rte_mempool_create on a socket; rte_eth_dev_configure with the numbers of queues;
-- rte_eth_promiscuous_enable; the setup of a queue, of a port, with the length of its ring, a socket
-- and a pool; rte_eth_dev_start; rte_eth_link_get_nowait; rte_delay_ms; the bursts, of a port, a
-- queue and a number of buffers; and what is done with single buffers.
pub data EthCall : Type 0 where
  mempool_create : ℕ → EthCall
  dev_configure : ℕ → ℕ → ℕ → EthCall
  promiscuous_enable : ℕ → EthCall
  rx_queue_setup : ℕ → ℕ → ℕ → ℕ → Option ℕ → EthCall
  tx_queue_setup : ℕ → ℕ → ℕ → ℕ → EthCall
  dev_start : ℕ → EthCall
  link_get : ℕ → EthCall
  delay_ms : ℕ → EthCall
  rx_burst : ℕ → ℕ → ℕ → EthCall
  tx_burst : ℕ → ℕ → ℕ → ℕ → EthCall
  buffer_alloc : Option ℕ → EthCall
  buffer_free : ℕ → EthCall

-- The answers. An `int` is its 32-bit pattern.
pub record Nic : Type 0 where
  pub pool_at : List EthCall → Option ℕ
  pub status : List EthCall → ℕ
  pub link_status : List EthCall → ℕ
  pub received : List EthCall → List ℕ
  pub buffer_at : List EthCall → Option ℕ
  pub sent : List EthCall → ℕ

-- The calls so far, the pools of the sockets and of the lcores in `replay`, and the counters
-- `tx.mbuf_out[port].n_mbufs` of the lcores.
pub record Nics : Type 0 where
  pub calls : List EthCall
  pub pools : ℕ → Option ℕ
  pub lcore_pool : ℕ → Option ℕ
  pub mbuf_out : ℕ → ℕ → ℕ

-- Code that calls DPDK.
abbrev pub Nio : Type 0 → Type 0
Nio A = Nics → Outcome (A × Nics)

infixl 5 ◌>>=◌ ◌>>◌
abbrev pub ◌>>=◌ : {A B : Type 0} → Nio A → (A → Nio B) → Nio B
◌>>=◌ m f s = elim (m s) [
  | done (a, s') ↦ f a s'
  | exits c ↦ exits c
  | hangs ↦ hangs
  | overruns ↦ overruns
]

abbrev pub ◌>>◌ : {A B : Type 0} → Nio A → Nio B → Nio B
m >> k = m >>= λ _. k

abbrev pub return : {A : Type 0} → A → Nio A
return a s = done (a, s)

-- rte_panic ends the program by `abort`.
abbrev pub panic : {A : Type 0} → Nio A
panic s = exits 134

abbrev pub note : EthCall → Nics → Nics
note c s = record s { calls = c ∷ s.calls }

-- A call without an answer.
abbrev pub call : EthCall → Nio Unit
call c s = done (tt, note c s)

-- A call, and `if (ret < 0) rte_panic (…)`.
unfoldable pub call_or_panic : Nic → EthCall → Nio Unit
call_or_panic nic c s =
    if ltb (nic.status (c ∷ s.calls)) (2 ^ 31) then done (tt, note c s) else exits 134

-- A first step that returns hands its result and state to the rest.
pub bind-done :
    {A B : Type 0} (m : Nio A) (f : A → Nio B) (s : Nics) {a : A} {s' : Nics}
    → m s ≡ done (a, s')
    → (m >>= f) s ≡ f a s'
bind-done m f s e = rw (e, ◌>>=◌)
