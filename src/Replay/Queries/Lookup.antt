-- ===== src/Replay/Queries/Lookup.antt =====
-- src/replay/config.c: the lcore that the initialisation looks up for a queue.
use nvme_dpdk_pcapreplay.Prelude.{
  ℕ, zero, suc, ◌+◌, ◌≤◌, ◌<◌, ◌≡◌, ◌≢◌, refl, sym, ap, ◌∙◌, inl, inr, Bool, true, false, some, not,
  ◌&&◌, ◌==◌, arith, Bool-cases,
}
use nvme_dpdk_pcapreplay.Replay.Params.{Dpdk, ReplayParams}
use nvme_dpdk_pcapreplay.Replay.Args.{is_io, has_queue}
use nvme_dpdk_pcapreplay.Replay.Args.Queues.{IsConfig}
use nvme_dpdk_pcapreplay.Replay.Queries.{
  is_disabled, is_some_lcore, count_from, first_from, replay_is_socket_used,
  replay_get_lcore_for_nic_rx, replay_get_lcore_for_nic_tx,
}

-- A search finds the only index that passes.
first_from-only :
    (test : ℕ → Bool) (n i k : ℕ)
    → i ≤ k
    → k < i + n
    → test k ≡ true
    → ((j : ℕ) → test j ≡ true → j ≡ k)
    → first_from test n i ≡ some k
unfolding first_from
first_from-only test zero i k low high hit only = absurd (omega arith)
first_from-only test (suc n) i k low high hit only = elim (Bool-cases (test i)) [
  | inl here ↦ rw here (ap some (only i here))
  | inr missed ↦
      let past : i ≢ k = λ e. ground arith in
      rw missed (first_from-only test n (suc i) k (omega arith) (omega arith) hit only)
]

-- In a configuration in order, `replay_get_lcore_for_nic_rx` does not return -1 for a receive
-- queue that is switched on: it finds an I/O lcore that has the queue.
pub replay_get_lcore_for_nic_rx-handles :
    (dpdk : Dpdk) (r : ReplayParams) (port queue : ℕ)
    → IsConfig dpdk r
    → r.nic_rx_queue_mask port queue ≡ 1
    → (lcore : ℕ) × (lcore < dpdk.max_lcores)
      × (replay_get_lcore_for_nic_rx dpdk r port queue ≡ some lcore)
      × (is_io (r.lcore_params lcore).type ≡ true)
      × (has_queue port queue (r.lcore_params lcore).rx ≡ true)
unfolding replay_get_lcore_for_nic_rx
replay_get_lcore_for_nic_rx-handles dpdk r port queue v on =
    let (a, a_in, a_io, a_has) = v.rx.handled port queue on in
    (
      a,
      a_in,
      first_from-only _ dpdk.max_lcores 0 a (omega arith) (omega arith) (ground arith)
          (λ j h. v.rx.one_lcore j a port queue (ground arith) a_has),
      a_io,
      a_has,
    )

-- In a configuration in order, `replay_get_lcore_for_nic_tx` does not return -1 for a transmit
-- queue that is switched on: it finds an I/O lcore that has the queue.
pub replay_get_lcore_for_nic_tx-handles :
    (dpdk : Dpdk) (r : ReplayParams) (port queue : ℕ)
    → IsConfig dpdk r
    → r.nic_tx_queue_mask port queue ≡ 1
    → (lcore : ℕ) × (lcore < dpdk.max_lcores)
      × (replay_get_lcore_for_nic_tx dpdk r port queue ≡ some lcore)
      × (is_io (r.lcore_params lcore).type ≡ true)
      × (has_queue port queue (r.lcore_params lcore).tx ≡ true)
unfolding replay_get_lcore_for_nic_tx
replay_get_lcore_for_nic_tx-handles dpdk r port queue v on =
    let (a, a_in, a_io, a_has) = v.tx.handled port queue on in
    (
      a,
      a_in,
      first_from-only _ dpdk.max_lcores 0 a (omega arith) (omega arith) (ground arith)
          (λ j h. v.tx.one_lcore j a port queue (ground arith) a_has),
      a_io,
      a_has,
    )

-- A search finds an index when one passes.
pub first_from-hit :
    (test : ℕ → Bool) (n i k : ℕ)
    → i ≤ k
    → k < i + n
    → test k ≡ true
    → (j : ℕ) × (first_from test n i ≡ some j)
unfolding first_from
first_from-hit test zero i k low high hit = absurd (omega arith)
first_from-hit test (suc n) i k low high hit = elim (Bool-cases (test i)) [
  | inl here ↦ (i, rw here)
  | inr missed ↦
      let past : i ≢ k = λ e. ground arith in
      let (j, e) = first_from-hit test n (suc i) k (omega arith) (omega arith) hit in
      (j, rw missed e)
]

-- A count that has something to count is not 0.
pub count_from-ne-zero :
    (test : ℕ → Bool) (n i k : ℕ) → i ≤ k → k < i + n → test k ≡ true → 0 < count_from test n i
unfolding count_from
count_from-ne-zero test zero i k low high hit = absurd (omega arith)
count_from-ne-zero test (suc n) i k low high hit = elim (Bool-cases (test i)) [
  | inl here ↦ rw here (omega arith)
  | inr missed ↦
      let past : i ≢ k = λ e. ground arith in
      rw missed (omega (arith, count_from-ne-zero test n (suc i) k (omega arith) (omega arith) hit))
]

-- What a search finds passes.
pub first_from-passes : (test : ℕ → Bool) (n i k : ℕ) → first_from test n i ≡ some k → test k ≡ true
unfolding first_from
first_from-passes test zero i k e = cc
first_from-passes test (suc n) i k e = elim (Bool-cases (test i)) [
  | inl here ↦
      let found : some i ≡ some k = sym (rw here refl) ∙ e in
      (let same : k ≡ i = cc in ap test same ∙ here)
  | inr missed ↦ first_from-passes test n (suc i) k (sym (rw missed refl) ∙ e)
]

-- The socket of an lcore that is not disabled is in use.
pub replay_is_socket_used-enabled :
    (dpdk : Dpdk) (r : ReplayParams) (lcore : ℕ)
    → lcore < dpdk.max_lcores
    → is_disabled (r.lcore_params lcore).type ≡ false
    → replay_is_socket_used dpdk r (dpdk.lcore_to_socket_id lcore) ≡ true
unfolding replay_is_socket_used is_some_lcore
replay_is_socket_used-enabled dpdk r lcore small on =
    let (j, e) =
      first_from-hit
        (λ l.
          not (is_disabled (r.lcore_params l).type)
          && dpdk.lcore_to_socket_id lcore == dpdk.lcore_to_socket_id l)
        dpdk.max_lcores 0 lcore (omega arith) (omega arith) (ground arith) in
    rw e
