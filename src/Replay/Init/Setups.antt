-- ===== src/Replay/Init/Setups.antt =====
-- src/replay/init.c: the calls that set up the ports and their queues, as they are meant, and the
-- loops over the queues of a port.
use nvme_dpdk_pcapreplay.Prelude.{
  ℕ, zero, suc, ◌%◌, ◌^◌, ◌<◌, ◌≡◌, refl, sym, ap, ◌∙◌, inl, inr, true, Option, List, [], ◌∷◌, ◌++◌,
  ltb, ◌==◌, if◌then◌else◌, done, arith,
}
use mathlib.Core.Path.{subst}
use nvme_dpdk_pcapreplay.Layout.{u8}
use nvme_dpdk_pcapreplay.Replay.Params.{Dpdk, NicQueue, ReplayParams, max_queues_per_nic_port}
use nvme_dpdk_pcapreplay.Replay.Args.{has_queue}
use nvme_dpdk_pcapreplay.Replay.Args.Queues.{IsConfig}
use nvme_dpdk_pcapreplay.Replay.Queries.{
  replay_get_nic_rx_queues_per_port, replay_get_nic_tx_queues_per_port, replay_get_lcore_for_nic_rx,
  replay_get_lcore_for_nic_tx,
}
use nvme_dpdk_pcapreplay.Replay.Queries.Lookup.{
  replay_get_lcore_for_nic_rx-handles, replay_get_lcore_for_nic_tx-handles,
}
use nvme_dpdk_pcapreplay.Replay.Nic.{
  EthCall, dev_configure, promiscuous_enable, rx_queue_setup, tx_queue_setup, dev_start, Nic, Nics,
  ◌>>◌, note, call_or_panic, bind-done,
}
use nvme_dpdk_pcapreplay.Replay.Init.{as_u32, stored, rx_queues, tx_queues, is_unused}

-- The setups never fail: no status is negative.
abbrev pub NeverFails : Nic → Type 0
NeverFails nic = (h : List EthCall) → nic.status h < 2 ^ 31

-- For each queue that is switched on, an lcore that has it.
abbrev pub Owns : (ℕ → ℕ → ℕ) → (ℕ → List NicQueue) → (ℕ → ℕ → ℕ) → Type 0
Owns mask queues owner =
    (port queue : ℕ) → mask port queue ≡ 1 → has_queue port queue (queues (owner port queue)) ≡ true

-- Calls in order, put onto a history.
abbrev pub onto : List EthCall → List EthCall → List EthCall
onto [] h = h
onto (c ∷ cs) h = onto cs (c ∷ h)

pub onto-append : (cs ds h : List EthCall) → onto (cs ++ ds) h ≡ onto ds (onto cs h)
onto-append [] ds h = refl
onto-append (c ∷ cs) ds h = onto-append cs ds (c ∷ h)

-- The calls that are meant, in order.
module _ (dpdk : Dpdk) (r : ReplayParams) (pool : ℕ → Option ℕ)
    (rx_owner tx_owner : ℕ → ℕ → ℕ) where
  -- The setup of one queue, with the socket and the pool of the lcore that has it.
  abbrev pub rx_setup : ℕ → ℕ → EthCall
  rx_setup port queue =
      rx_queue_setup port queue (r.nic_rx_ring_size % 2 ^ 16)
        (dpdk.lcore_to_socket_id (rx_owner port queue)) (pool (rx_owner port queue))

  abbrev pub tx_setup : ℕ → ℕ → EthCall
  tx_setup port queue =
      tx_queue_setup port queue (r.nic_tx_ring_size % 2 ^ 16)
        (dpdk.lcore_to_socket_id (tx_owner port queue))

  -- The queues of a port that are switched on.
  unfoldable pub rx_setups : ℕ → ℕ → ℕ → List EthCall
  rx_setups zero port queue = []
  rx_setups (suc n) port queue =
      (if r.nic_rx_queue_mask port queue == 1 then (rx_setup port queue ∷ []) else [])
      ++ rx_setups n port (suc queue)

  unfoldable pub tx_setups : ℕ → ℕ → ℕ → List EthCall
  tx_setups zero port queue = []
  tx_setups (suc n) port queue =
      (if r.nic_tx_queue_mask port queue == 1 then (tx_setup port queue ∷ []) else [])
      ++ tx_setups n port (suc queue)

  unfoldable pub port_setup : Nic → ℕ → List EthCall
  port_setup nic port =
      if is_unused dpdk nic r port
      then []
      else (dev_configure port (u8 (as_u32 (replay_get_nic_rx_queues_per_port dpdk r port)))
            (u8 (as_u32 (replay_get_nic_tx_queues_per_port dpdk r port)))
          ∷ promiscuous_enable port
          ∷ (rx_setups max_queues_per_nic_port port 0
              ++ (tx_setups max_queues_per_nic_port port 0 ++ dev_start port ∷ [])))

  unfoldable pub port_setups : Nic → ℕ → ℕ → List EthCall
  port_setups nic zero port = []
  port_setups nic (suc n) port = port_setup nic port ++ port_setups nic n (suc port)

module _ (dpdk : Dpdk) (nic : Nic) (r : ReplayParams) (rx_owner tx_owner : ℕ → ℕ → ℕ)
    (v : IsConfig dpdk r) (ready : NeverFails nic)
    (rx_owns : Owns r.nic_rx_queue_mask (λ l. (r.lcore_params l).rx) rx_owner)
    (tx_owns : Owns r.nic_tx_queue_mask (λ l. (r.lcore_params l).tx) tx_owner) where
  -- A setup that does not fail.
  pub call_or_panic-done : (c : EthCall) (s : Nics) → call_or_panic nic c s ≡ done (tt, note c s)
  unfolding call_or_panic
  call_or_panic-done c s =
      let positive : ltb (nic.status (c ∷ s.calls)) (2 ^ 31) ≡ true =
        ground (arith, ready (c ∷ s.calls)) in
      rw positive

  pub rx_queues-done :
      (n port queue lcore : ℕ) (s : Nics)
      → (l : ℕ) × (rx_queues dpdk nic r n port queue lcore s
          ≡ done (
            l,
            record s {
              calls = onto (rx_setups dpdk r s.lcore_pool rx_owner tx_owner n port queue) s.calls;
            },
          ))
  unfolding rx_queues rx_setups
  rx_queues-done zero port queue lcore s = (lcore, refl)
  rx_queues-done (suc n) port queue lcore s = elim (v.rx.on_or_off port queue) [
    | inl off ↦
        let (l, e) = rx_queues-done n port (suc queue) lcore s in
        (l, rw (rx_queues, rx_setups, off) e)
    | inr on ↦
        let (a, a_in, found, a_io, a_has) =
          replay_get_lcore_for_nic_rx-handles dpdk r port queue v on in
        let same : a ≡ rx_owner port queue =
          v.rx.one_lcore a (rx_owner port queue) port queue a_has (rx_owns port queue on) in
        let next : stored (replay_get_lcore_for_nic_rx dpdk r port queue) lcore
            ≡ rx_owner port queue =
          ap (λ o. stored o lcore) found ∙ same in
        let c : EthCall = rx_setup dpdk r s.lcore_pool rx_owner tx_owner port queue in
        let (l, e) = rx_queues-done n port (suc queue) (rx_owner port queue) (note c s) in
        (
          l,
          rw (rx_queues, rx_setups, on)
              (subst
                (λ k.
                  (call_or_panic nic (
                        rx_queue_setup port queue (r.nic_rx_ring_size % 2 ^ 16)
                          (dpdk.lcore_to_socket_id k) (s.lcore_pool k))
                      >> rx_queues dpdk nic r n port (suc queue) k)
                    s
                  ≡ done (
                    l,
                    record s {
                      calls =
                          onto (rx_setups dpdk r s.lcore_pool rx_owner tx_owner n port (suc queue))
                            (c ∷ s.calls);
                    },
                  ))
                (sym next) (bind-done (call_or_panic nic c) _ s (call_or_panic-done c s) ∙ e)),
        )
  ]

  pub tx_queues-done :
      (n port queue lcore : ℕ) (s : Nics)
      → (l : ℕ) × (tx_queues dpdk nic r n port queue lcore s
          ≡ done (
            l,
            record s {
              calls = onto (tx_setups dpdk r s.lcore_pool rx_owner tx_owner n port queue) s.calls;
            },
          ))
  unfolding tx_queues tx_setups
  tx_queues-done zero port queue lcore s = (lcore, refl)
  tx_queues-done (suc n) port queue lcore s = elim (v.tx.on_or_off port queue) [
    | inl off ↦
        let (l, e) = tx_queues-done n port (suc queue) lcore s in
        (l, rw (tx_queues, tx_setups, off) e)
    | inr on ↦
        let (a, a_in, found, a_io, a_has) =
          replay_get_lcore_for_nic_tx-handles dpdk r port queue v on in
        let same : a ≡ tx_owner port queue =
          v.tx.one_lcore a (tx_owner port queue) port queue a_has (tx_owns port queue on) in
        let next : stored (replay_get_lcore_for_nic_tx dpdk r port queue) lcore
            ≡ tx_owner port queue =
          ap (λ o. stored o lcore) found ∙ same in
        let c : EthCall = tx_setup dpdk r s.lcore_pool rx_owner tx_owner port queue in
        let (l, e) = tx_queues-done n port (suc queue) (tx_owner port queue) (note c s) in
        (
          l,
          rw (tx_queues, tx_setups, on)
              (subst
                (λ k.
                  (call_or_panic nic (
                        tx_queue_setup port queue (r.nic_tx_ring_size % 2 ^ 16)
                          (dpdk.lcore_to_socket_id k))
                      >> tx_queues dpdk nic r n port (suc queue) k)
                    s
                  ≡ done (
                    l,
                    record s {
                      calls =
                          onto (tx_setups dpdk r s.lcore_pool rx_owner tx_owner n port (suc queue))
                            (c ∷ s.calls);
                    },
                  ))
                (sym next) (bind-done (call_or_panic nic c) _ s (call_or_panic-done c s) ∙ e)),
        )
  ]
