-- ===== src/Replay/Init/Pools.antt =====
-- src/replay/init.c, `replay_init_mbuf_pools`: every lcore in use gets the pool of its socket.
use nvme_dpdk_pcapreplay.Prelude.{
  ℕ, zero, suc, ◌+◌, ◌≤◌, ◌<◌, ◌≡◌, ◌≢◌, refl, sym, ◌∙◌, inl, inr, true, false, Option, some, List,
  [], ◌∷◌, ◌++◌, ◌==◌, done, arith, Bool-cases,
}
use mathlib.Core.List.{append_assoc}
use nvme_dpdk_pcapreplay.Replay.Params.{Dpdk, ReplayParams, update}
use nvme_dpdk_pcapreplay.Replay.Queries.{is_disabled, replay_is_socket_used}
use nvme_dpdk_pcapreplay.Replay.Queries.Lookup.{replay_is_socket_used-enabled}
use nvme_dpdk_pcapreplay.Replay.Nic.{EthCall, mempool_create, Nic, Nics, ◌>>=◌, ◌>>◌}
use nvme_dpdk_pcapreplay.Replay.Init.{create_pools, give_pools, replay_init_mbuf_pools, max_sockets}

-- rte_mempool_create never fails.
abbrev pub GivesPools : Nic → Type 0
GivesPools nic = (h : List EthCall) → (p : ℕ) × (nic.pool_at h ≡ some p)

-- The pool is the answer to a call of rte_mempool_create for this socket.
abbrev pub PoolOf : Nic → ℕ → Nics → Option ℕ → Type 0
PoolOf nic socket s pool =
    (p : ℕ) × (newer : List EthCall) × (older : List EthCall) × (pool ≡ some p)
    × (nic.pool_at (mempool_create socket ∷ older) ≡ some p)
    × (s.calls ≡ newer ++ mempool_create socket ∷ older)

module _ (dpdk : Dpdk) (nic : Nic) (r : ReplayParams) where
  create_pools-PoolOf :
      (n socket : ℕ) (s : Nics)
      → GivesPools nic
      → (s' : Nics) × (newer : List EthCall) × (create_pools dpdk nic r n socket s ≡ done (tt, s'))
        × (s'.calls ≡ newer ++ s.calls)
        × ((k : ℕ) → k < socket → s'.pools k ≡ s.pools k)
        × ((k : ℕ)
            → socket ≤ k
            → k < socket + n
            → replay_is_socket_used dpdk r k ≡ true
            → PoolOf nic k s' (s'.pools k))
  unfolding create_pools
  create_pools-PoolOf zero socket s gives =
      (s, [], refl, refl, λ k low. refl, λ k low high used. absurd (omega arith))
  create_pools-PoolOf (suc n) socket s gives =
      elim (Bool-cases (replay_is_socket_used dpdk r socket)) [
        | inr unused ↦
            let (s', newer, e, h, keep, made) = create_pools-PoolOf n (suc socket) s gives in
            (
              s',
              newer,
              rw (create_pools, unused) e,
              h,
              λ k low. keep k (omega arith),
              λ k low high used.
                  (let past : socket ≢ k = λ e. ground arith in
                    made k (omega arith) (omega arith) used),
            )
        | inl here ↦
            let h0 : List EthCall = mempool_create socket ∷ s.calls in
            let (p, given) = gives h0 in
            let s1 : Nics = record s { calls = h0; pools = update s.pools socket (some p) } in
            let (s', newer, e, h, keep, made) = create_pools-PoolOf n (suc socket) s1 gives in
            (
              s',
              newer ++ mempool_create socket ∷ [],
              rw (create_pools, here, given) e,
              h ∙ sym (append_assoc newer (mempool_create socket ∷ []) s.calls),
              λ k low. keep k (omega arith) ∙ ground arith,
              λ k low high used. elim (Bool-cases (k == socket)) [
                | inl same ↦
                    let is : k ≡ socket = ground arith in
                    rw is (p, newer, s.calls, keep socket (omega arith) ∙ ground arith, given, h)
                | inr other ↦ made k (ground arith) (omega arith) used
              ],
            )
      ]

  give_pools_lem :
      (n lcore : ℕ) (s : Nics)
      → ((give_pools dpdk nic r n lcore s).calls ≡ s.calls)
        × ((give_pools dpdk nic r n lcore s).pools ≡ s.pools)
        × ((k : ℕ) → k < lcore → (give_pools dpdk nic r n lcore s).lcore_pool k ≡ s.lcore_pool k)
        × ((k : ℕ)
            → lcore ≤ k
            → k < lcore + n
            → is_disabled (r.lcore_params k).type ≡ false
            → (give_pools dpdk nic r n lcore s).lcore_pool k ≡ s.pools (dpdk.lcore_to_socket_id k))
  unfolding give_pools
  give_pools_lem zero lcore s = (refl, refl, λ k low. refl, λ k low high on. absurd (omega arith))
  give_pools_lem (suc n) lcore s = elim (Bool-cases (is_disabled (r.lcore_params lcore).type)) [
    | inl off ↦
        let (h, pools, keep, given) = give_pools_lem n (suc lcore) s in
        rw (give_pools, off)
          (
            h,
            pools,
            λ k low. keep k (omega arith),
            λ k low high on.
                (let past : lcore ≢ k = λ e. ground arith in
                  given k (omega arith) (omega arith) on),
          )
    | inr on ↦
        let s1 : Nics = record s {
          lcore_pool = update s.lcore_pool lcore (s.pools (dpdk.lcore_to_socket_id lcore));
        } in
        let (h, pools, keep, given) = give_pools_lem n (suc lcore) s1 in
        rw (give_pools, on)
          (
            h,
            pools,
            λ k low. keep k (omega arith) ∙ ground arith,
            λ k low high on'. elim (Bool-cases (k == lcore)) [
              | inl same ↦
                  let is : k ≡ lcore = ground arith in
                  rw is (keep lcore (omega arith) ∙ ground arith)
              | inr other ↦ given k (ground arith) (omega arith) on'
            ],
          )
  ]

  -- When rte_mempool_create never fails, `replay_init_mbuf_pools` returns, and every lcore that is not
  -- disabled, on a socket below REPLAY_MAX_SOCKETS, then has a pool that was created for its socket.
  pub replay_init_mbuf_pools-PoolOf :
      (s : Nics)
      → GivesPools nic
      → (s' : Nics) × (replay_init_mbuf_pools dpdk nic r s ≡ done (tt, s'))
        × ((lcore : ℕ)
            → lcore < dpdk.max_lcores
            → is_disabled (r.lcore_params lcore).type ≡ false
            → dpdk.lcore_to_socket_id lcore < max_sockets
            → PoolOf nic (dpdk.lcore_to_socket_id lcore) s' (s'.lcore_pool lcore))
  unfolding replay_init_mbuf_pools
  replay_init_mbuf_pools-PoolOf s gives =
      let (s1, newer, e, h, keep, made) = create_pools-PoolOf max_sockets 0 s gives in
      let (same, pools, before, given) = give_pools_lem dpdk.max_lcores 0 s1 in
      (
        give_pools dpdk nic r dpdk.max_lcores 0 s1,
        rw (replay_init_mbuf_pools, ◌>>◌, ◌>>=◌, e) refl,
        λ lcore small on socket.
            (let used : replay_is_socket_used dpdk r (dpdk.lcore_to_socket_id lcore) ≡ true =
                replay_is_socket_used-enabled dpdk r lcore small on in
              let (p, ns, os, is, at, calls) = made _ (omega arith) (omega arith) used in
              (p, ns, os, given lcore (omega arith) (omega arith) on ∙ is, at, same ∙ calls)),
      )
