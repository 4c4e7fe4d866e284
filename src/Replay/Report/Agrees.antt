-- ===== src/Replay/Report/Agrees.antt =====
-- src/replay/config.c, `replay_print_params`: the two views of the queues that are printed agree.
use nvme_dpdk_pcapreplay.Prelude.{
  ℕ, ◌^◌, ◌≤◌, ◌≡◌, refl, sym, ap, ◌∙◌, inl, inr, true, Option, none, some, List, arith, Bool-cases,
  is_some,
}
use nvme_dpdk_pcapreplay.Replay.Params.{Dpdk, ReplayParams, initial}
use nvme_dpdk_pcapreplay.Replay.Numbers.{ok}
use nvme_dpdk_pcapreplay.Replay.Args.Assigned.{Assigned}
use nvme_dpdk_pcapreplay.Replay.Args.Queues.{IsConfig}
use nvme_dpdk_pcapreplay.Replay.Args.Config.{parse_options-IsConfig}
use nvme_dpdk_pcapreplay.Replay.Options.{Opt, Given, none_given, parse_options}
use nvme_dpdk_pcapreplay.Replay.Queries.{
  first_from, replay_get_lcore_for_nic_rx, replay_get_lcore_for_nic_tx,
}
use nvme_dpdk_pcapreplay.Replay.Queries.Lookup.{first_from-hit, first_from-passes}
use nvme_dpdk_pcapreplay.Replay.Sides.{Side, receiving, sending_side, queues_of, mask_of}
use nvme_dpdk_pcapreplay.Replay.Report.{port_lines, replay_print_params}
use nvme_dpdk_pcapreplay.Replay.Report.Ports.{port_among, port_among-on, on-port_among}
use nvme_dpdk_pcapreplay.Replay.Report.Said.{
  lists_queue, printed_lcores, only, handles_queue, printed_lcores-first, lists_queue-report,
  printed_lcores-report,
}

none_ne_some : (l : ℕ) → ◌≡◌ {A = Option ℕ} none (some l) → ⊥
none_ne_some l e = cc

module _ (dpdk : Dpdk) (r : ReplayParams) where
  -- The lcore that the initialisation looks up for a queue.
  abbrev pub lcore_for : Side → ℕ → ℕ → Option ℕ
  lcore_for receiving = replay_get_lcore_for_nic_rx dpdk r
  lcore_for sending_side = replay_get_lcore_for_nic_tx dpdk r

  lcore_for_lem :
      (side : Side) (port queue : ℕ)
      → lcore_for side port queue
        ≡ first_from (handles_queue dpdk r side port queue) dpdk.max_lcores 0
  unfolding replay_get_lcore_for_nic_rx replay_get_lcore_for_nic_tx
  lcore_for_lem receiving port queue = refl
  lcore_for_lem sending_side port queue = refl

  module _ (small : dpdk.max_nic_ports ≤ 2 ^ 8) (v : IsConfig dpdk r) where
    assigned :
        (side : Side)
        → Assigned dpdk
            (mask_of side r)
            (λ l. queues_of side (r.lcore_params l))
            (λ l. (r.lcore_params l).type)
    assigned receiving = v.rx
    assigned sending_side = v.tx

    handles_queue-one :
        (side : Side) (port queue j k : ℕ)
        → handles_queue dpdk r side port queue j ≡ true
        → handles_queue dpdk r side port queue k ≡ true
        → j ≡ k
    handles_queue-one side port queue j k hj hk =
        (assigned side).one_lcore j k port queue (ground (arith, hj)) (ground (arith, hk))

    -- A queue is printed among the ports when a search of the lcores finds one for it.
    port_among-found :
        (side : Side) (port queue : ℕ) (found : Option ℕ)
        → first_from (handles_queue dpdk r side port queue) dpdk.max_lcores 0 ≡ found
        → port_among port queue (port_lines dpdk r side dpdk.max_nic_ports 0) ≡ is_some found
    port_among-found side port queue none e =
        elim (Bool-cases (port_among port queue (port_lines dpdk r side dpdk.max_nic_ports 0))) [
          | inl listed ↦
              let on = port_among-on dpdk r side dpdk.max_nic_ports 0 port queue listed in
              let (l, l_in, l_io, has) = (assigned side).handled port queue on in
              let (j, hit) =
                first_from-hit (handles_queue dpdk r side port queue) dpdk.max_lcores 0 l
                  (omega arith) (omega arith) (ground (arith, l_io, has)) in
              absurd (none_ne_some j (sym e ∙ hit))
          | inr unlisted ↦ unlisted
        ]
    port_among-found side port queue (some l) e =
        let hit = first_from-passes (handles_queue dpdk r side port queue) dpdk.max_lcores 0 l e in
        let on = (assigned side).switched_on l port queue (ground (arith, hit)) in
        let (port_in, queue_in) = (assigned side).in_range port queue on in
        on-port_among dpdk r side dpdk.max_nic_ports 0 port queue (omega arith) (omega arith)
          port_in small queue_in on

    replay_print_params-agrees :
        (side : Side) (port queue : ℕ)
        → (printed_lcores side port queue (replay_print_params dpdk r)
            ≡ only (lcore_for side port queue))
          × (lists_queue side port queue (replay_print_params dpdk r)
              ≡ is_some (lcore_for side port queue))
    replay_print_params-agrees side port queue = (
      printed_lcores-report dpdk r side port queue
          ∙ printed_lcores-first dpdk r side dpdk.max_lcores 0 port queue
              (handles_queue-one side port queue)
          ∙ ap only (sym (lcore_for_lem side port queue)),
      lists_queue-report dpdk r side port queue
          ∙ port_among-found side port queue _ refl
          ∙ ap is_some (sym (lcore_for_lem side port queue)),
    )

-- With at most 256 ports, whatever options are read without a mistake, the two views that are then
-- printed of the queues agree, and they agree with the initialisation: on each side the lcore that
-- `replay_get_lcore_for_nic_rx` or `replay_get_lcore_for_nic_tx` finds for a queue is printed with it,
-- and no other lcore; and the queue is printed among its NIC's ports when there is such an lcore, and
-- else not.
pub replay_print_params-parse_options :
    (dpdk : Dpdk) (os : List Opt) (g : Given) (r : ReplayParams) (side : Side) (port queue : ℕ)
    → dpdk.max_nic_ports ≤ 2 ^ 8
    → parse_options dpdk os none_given initial ≡ ok (g, r)
    → (printed_lcores side port queue (replay_print_params dpdk r)
        ≡ only (lcore_for dpdk r side port queue))
      × (lists_queue side port queue (replay_print_params dpdk r)
          ≡ is_some (lcore_for dpdk r side port queue))
replay_print_params-parse_options dpdk os g r side port queue small e =
    replay_print_params-agrees dpdk r small (parse_options-IsConfig dpdk os g r small e) side port
      queue
