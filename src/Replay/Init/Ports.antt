-- ===== src/Replay/Init/Ports.antt =====
-- src/replay/init.c, `replay_init_nics`: the calls that set up the ports and their queues.
use nvme_dpdk_pcapreplay.Prelude.{
  ℕ, zero, suc, ◌+◌, ◌-◌, ◌^◌, ◌≤◌, ◌<◌, ◌≡◌, refl, sym, ap, ◌∙◌, inl, inr, true, false, List, [],
  ◌∷◌, ◌++◌, ltb, done, arith, Bool-cases,
}
use nvme_dpdk_pcapreplay.Layout.{u8}
use nvme_dpdk_pcapreplay.Replay.Params.{Dpdk, ReplayParams, max_queues_per_nic_port}
use nvme_dpdk_pcapreplay.Replay.Args.Queues.{IsConfig}
use nvme_dpdk_pcapreplay.Replay.Queries.{
  replay_get_nic_rx_queues_per_port, replay_get_nic_tx_queues_per_port,
}
use nvme_dpdk_pcapreplay.Replay.Nic.{
  EthCall, dev_configure, promiscuous_enable, dev_start, Nic, Nics, ◌>>=◌, ◌>>◌, note, bind-done,
}
use nvme_dpdk_pcapreplay.Replay.Init.{as_u32, is_unused, init_port, init_ports, replay_init_nics}
use nvme_dpdk_pcapreplay.Replay.Init.Links.{Looks, waited, check_all_ports_link_status-LooksFor}
use nvme_dpdk_pcapreplay.Replay.Init.Setups.{
  NeverFails, Owns, onto, onto-append, rx_setups, tx_setups, port_setup, port_setups,
  call_or_panic-done, rx_queues-done, tx_queues-done,
}

module _ (dpdk : Dpdk) (nic : Nic) (r : ReplayParams) (rx_owner tx_owner : ℕ → ℕ → ℕ)
    (v : IsConfig dpdk r) (ready : NeverFails nic)
    (rx_owns : Owns r.nic_rx_queue_mask (λ l. (r.lcore_params l).rx) rx_owner)
    (tx_owns : Owns r.nic_tx_queue_mask (λ l. (r.lcore_params l).tx) tx_owner) where
  init_port-done :
      (port lcore : ℕ) (s : Nics)
      → (l : ℕ) × (init_port dpdk nic r port lcore s
          ≡ done (
            l,
            record s {
              calls = onto (port_setup dpdk r s.lcore_pool rx_owner tx_owner nic port) s.calls;
            },
          ))
  unfolding init_port port_setup
  init_port-done port lcore s = elim (Bool-cases (is_unused dpdk nic r port)) [
    | inl unused ↦ (lcore, rw (init_port, port_setup, unused))
    | inr used ↦
        let c : EthCall =
          dev_configure port (u8 (as_u32 (replay_get_nic_rx_queues_per_port dpdk r port)))
            (u8 (as_u32 (replay_get_nic_tx_queues_per_port dpdk r port))) in
        let s1 : Nics = note (promiscuous_enable port) (note c s) in
        let rx : List EthCall =
          rx_setups dpdk r s.lcore_pool rx_owner tx_owner max_queues_per_nic_port port 0 in
        let tx : List EthCall =
          tx_setups dpdk r s.lcore_pool rx_owner tx_owner max_queues_per_nic_port port 0 in
        let (l, e) =
          rx_queues-done dpdk nic r rx_owner tx_owner v ready rx_owns tx_owns
            max_queues_per_nic_port port 0 lcore s1 in
        let s2 : Nics = record s1 { calls = onto rx s1.calls } in
        let (l', e') =
          tx_queues-done dpdk nic r rx_owner tx_owner v ready rx_owns tx_owns
            max_queues_per_nic_port port 0 l s2 in
        let s3 : Nics = record s2 { calls = onto tx s2.calls } in
        let whole : dev_start port ∷ onto tx (onto rx s1.calls)
            ≡ onto (rx ++ (tx ++ dev_start port ∷ [])) s1.calls =
          sym (
            onto-append rx (tx ++ dev_start port ∷ []) s1.calls
            ∙ onto-append tx (dev_start port ∷ []) (onto rx s1.calls)) in
        (
          l',
          rw
              (
                init_port,
                port_setup,
                used,
                ◌>>◌,
                ◌>>=◌,
                call_or_panic-done dpdk nic r rx_owner tx_owner v ready rx_owns tx_owns c s,
                e,
                e',
                call_or_panic-done dpdk nic r rx_owner tx_owner v ready rx_owns tx_owns
                    (dev_start port) s3,
              )
              (ap (λ h. done (l', record s { calls = h })) whole),
        )
  ]

  init_ports-done :
      (n port lcore : ℕ) (s : Nics)
      → port + n ≡ dpdk.max_nic_ports
      → dpdk.max_nic_ports < 2 ^ 8
      → (l : ℕ) × (init_ports dpdk nic r (suc n) port lcore s
          ≡ done (
            l,
            record s {
              calls = onto (port_setups dpdk r s.lcore_pool rx_owner tx_owner nic n port) s.calls;
            },
          ))
  unfolding init_ports port_setups
  init_ports-done zero port lcore s left small =
      let ended : ltb port dpdk.max_nic_ports ≡ false = ground arith in
      (lcore, rw (init_ports, ended))
  init_ports-done (suc n) port lcore s left small =
      let more : ltb port dpdk.max_nic_ports ≡ true = ground arith in
      let next : u8 (port + 1) ≡ suc port = omega arith in
      let (l, e) = init_port-done port lcore s in
      let cs : List EthCall = port_setup dpdk r s.lcore_pool rx_owner tx_owner nic port in
      let s1 : Nics = record s { calls = onto cs s.calls } in
      let (l', e') = init_ports-done n (suc port) l s1 (omega arith) small in
      (
        l',
        rw (init_ports, more)
            (bind-done (init_port dpdk nic r port lcore) _ s e
              ∙ ap (λ k. init_ports dpdk nic r (suc n) k l s1) next
              ∙ e'
              ∙ ap (λ h. done (l', record s { calls = h }))
                  (sym (
                    onto-append cs
                      (port_setups dpdk r s.lcore_pool rx_owner tx_owner nic n (suc port))
                      s.calls))),
      )

  -- In a configuration in order, with at most 255 ports and DPDK calls that do not fail,
  -- `replay_init_nics` returns. It has configured each port that has a queue, and no other, then set
  -- up each queue of it that is switched on, once, with the socket and the pool of the lcore that has
  -- it, and then started the port; after the last port it has looked at the links, for at most 9
  -- seconds, and it has called nothing else.
  pub replay_init_nics-port_setups :
      (s : Nics)
      → dpdk.max_nic_ports < 2 ^ 8
      → (s' : Nics) × (looks : List EthCall) × (replay_init_nics dpdk nic r s ≡ done (tt, s'))
        × (s'.calls
            ≡ looks
              ++ onto
                  (port_setups dpdk r s.lcore_pool rx_owner tx_owner nic dpdk.max_nic_ports 0)
                  s.calls)
        × Looks looks
        × (waited looks ≤ 9000)
  unfolding replay_init_nics
  replay_init_nics-port_setups s small =
      let (l, e) = init_ports-done dpdk.max_nic_ports 0 0 s (omega arith) small in
      let s1 : Nics = record s {
        calls =
            onto (port_setups dpdk r s.lcore_pool rx_owner tx_owner nic dpdk.max_nic_ports 0)
              s.calls;
      } in
      let (_, cs, e', looks, le) =
        check_all_ports_link_status-LooksFor dpdk nic r dpdk.max_nic_ports (2 ^ 32 - 1) s1 in
      (
        record s1 { calls = cs ++ s1.calls },
        cs,
        bind-done (init_ports dpdk nic r (suc dpdk.max_nic_ports) 0 0) _ s e ∙ e',
        refl,
        looks,
        le,
      )
