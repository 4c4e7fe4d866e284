-- ===== src/Replay/Report/Said.antt =====
-- src/replay/config.c, `replay_print_params`: what the report says of a queue.
use nvme_dpdk_pcapreplay.Prelude.{
  ℕ, zero, suc, ◌≤◌, ◌<◌, ◌≡◌, refl, sym, ap, ◌∙◌, inl, inr, Bool, true, false, Option, none, some,
  List, [], ◌∷◌, ◌++◌, ◌==◌, if◌then◌else◌, ◌&&◌, ◌||◌, length, not, arith, Bool-cases,
}
use mathlib.Core.List.{append-nil, append_assoc}
use nvme_dpdk_pcapreplay.Replay.Params.{Dpdk, NicQueue, ReplayParams}
use nvme_dpdk_pcapreplay.Replay.Args.{is_io, has_queue}
use nvme_dpdk_pcapreplay.Replay.Queries.{first_from}
use nvme_dpdk_pcapreplay.Replay.Sides.{Side, receiving, sending_side, queues_of}
use nvme_dpdk_pcapreplay.Replay.Report.{
  ReportLine, nic_ports, io_lcore, ring_sizes, burst_sizes, port_lines, lcore_lines, side_lines,
  replay_print_params,
}
use nvme_dpdk_pcapreplay.Replay.Report.Ports.{port_among}

abbrev same : Side → Side → Bool
same receiving receiving = true
same receiving sending_side = false
same sending_side receiving = false
same sending_side sending_side = true

abbrev line_lists : Side → ℕ → ℕ → ReportLine → Bool
line_lists side port queue (nic_ports s ps) = same side s && port_among port queue ps
line_lists side port queue (io_lcore s lcore socket qs) = false
line_lists side port queue (ring_sizes a b) = false
line_lists side port queue (burst_sizes a b) = false

abbrev line_lcores : Side → ℕ → ℕ → ReportLine → List ℕ
line_lcores side port queue (nic_ports s ps) = []
line_lcores side port queue (io_lcore s lcore socket qs) =
    if same side s && has_queue port queue qs then lcore ∷ [] else []
line_lcores side port queue (ring_sizes a b) = []
line_lcores side port queue (burst_sizes a b) = []

-- Whether the ports of a side are printed with this queue.
abbrev pub lists_queue : Side → ℕ → ℕ → List ReportLine → Bool
lists_queue side port queue [] = false
lists_queue side port queue (l ∷ ls) =
    line_lists side port queue l || lists_queue side port queue ls

-- The lcores that are printed with this queue of a side.
abbrev pub printed_lcores : Side → ℕ → ℕ → List ReportLine → List ℕ
printed_lcores side port queue [] = []
printed_lcores side port queue (l ∷ ls) =
    line_lcores side port queue l ++ printed_lcores side port queue ls

abbrev pub only : Option ℕ → List ℕ
only none = []
only (some lcore) = lcore ∷ []

same_refl : (side : Side) → same side side ≡ true
same_refl receiving = refl
same_refl sending_side = refl

has_queue-none :
    (port queue : ℕ) (qs : List NicQueue) → length qs ≡ 0 → has_queue port queue qs ≡ false
unfolding has_queue
has_queue-none port queue [] h = refl
has_queue-none port queue (q ∷ qs) h = absurd (omega (arith, h))

lists_queue-append :
    (side : Side) (port queue : ℕ) (xs ys : List ReportLine)
    → lists_queue side port queue (xs ++ ys)
      ≡ (lists_queue side port queue xs || lists_queue side port queue ys)
lists_queue-append side port queue [] ys = refl
lists_queue-append side port queue (x ∷ xs) ys =
    ground (arith, lists_queue-append side port queue xs ys)

printed_lcores-append :
    (side : Side) (port queue : ℕ) (xs ys : List ReportLine)
    → printed_lcores side port queue (xs ++ ys)
      ≡ printed_lcores side port queue xs ++ printed_lcores side port queue ys
printed_lcores-append side port queue [] ys = refl
printed_lcores-append side port queue (x ∷ xs) ys =
    ap (λ ls. line_lcores side port queue x ++ ls) (printed_lcores-append side port queue xs ys)
    ∙ sym (append_assoc (line_lcores side port queue x) _ _)

module _ (dpdk : Dpdk) (r : ReplayParams) where
  -- The test of `replay_get_lcore_for_nic_rx` and `replay_get_lcore_for_nic_tx`.
  abbrev pub handles_queue : Side → ℕ → ℕ → ℕ → Bool
  handles_queue side port queue lcore =
      is_io (r.lcore_params lcore).type
      && has_queue port queue (queues_of side (r.lcore_params lcore))

  handles_queue-quiet :
      (side : Side) (port queue lcore : ℕ)
      → (not (is_io (r.lcore_params lcore).type)
          || length (queues_of side (r.lcore_params lcore)) == 0)
        ≡ true
      → handles_queue side port queue lcore ≡ false
  handles_queue-quiet side port queue lcore h =
      elim (Bool-cases (is_io (r.lcore_params lcore).type)) [
        | inl on ↦
            let empty : length (queues_of side (r.lcore_params lcore)) ≡ 0 =
              ground (arith, h, on) in
            rw on (has_queue-none port queue (queues_of side (r.lcore_params lcore)) empty)
        | inr off ↦ rw off refl
      ]

  printed_lcores-step :
      (side : Side) (n i port queue : ℕ)
      → printed_lcores side port queue (lcore_lines dpdk r side (suc n) i)
        ≡ (if handles_queue side port queue i then i ∷ [] else [])
          ++ printed_lcores side port queue (lcore_lines dpdk r side n (suc i))
  unfolding lcore_lines
  printed_lcores-step side n i port queue =
      elim (Bool-cases
        (not (is_io (r.lcore_params i).type) || length (queues_of side (r.lcore_params i)) == 0)) [
          | inl none_of_it ↦
              let quiet = handles_queue-quiet side port queue i none_of_it in
              rw (none_of_it, quiet) refl
          | inr shown ↦
              let io_too : is_io (r.lcore_params i).type ≡ true = ground (arith, shown) in
              rw (shown, same_refl side, io_too) refl
        ]

  past_one :
      (side : Side) (port queue i j : ℕ)
      → ((j k : ℕ)
          → handles_queue side port queue j ≡ true
          → handles_queue side port queue k ≡ true
          → j ≡ k)
      → handles_queue side port queue i ≡ true
      → i < j
      → handles_queue side port queue j ≡ false
  past_one side port queue i j one here past = elim (Bool-cases (handles_queue side port queue j)) [
    | inl there ↦ absurd (omega (arith, one i j here there))
    | inr off ↦ off
  ]

  printed_lcores-none :
      (side : Side) (n i port queue : ℕ)
      → ((j : ℕ) → i ≤ j → handles_queue side port queue j ≡ false)
      → printed_lcores side port queue (lcore_lines dpdk r side n i) ≡ []
  unfolding lcore_lines
  printed_lcores-none side zero i port queue off = refl
  printed_lcores-none side (suc n) i port queue off =
      printed_lcores-step side n i port queue
      ∙ rw (off i (omega arith))
          (printed_lcores-none side n (suc i) port queue (λ j le. off j (omega arith)))

  -- If at most one lcore passes the test, it is the only one that is printed.
  pub printed_lcores-first :
      (side : Side) (n i port queue : ℕ)
      → ((j k : ℕ)
          → handles_queue side port queue j ≡ true
          → handles_queue side port queue k ≡ true
          → j ≡ k)
      → printed_lcores side port queue (lcore_lines dpdk r side n i)
        ≡ only (first_from (handles_queue side port queue) n i)
  unfolding lcore_lines first_from
  printed_lcores-first side zero i port queue one = refl
  printed_lcores-first side (suc n) i port queue one =
      printed_lcores-step side n i port queue
      ∙ elim (Bool-cases (handles_queue side port queue i)) [
        | inl here ↦
            let rest =
              printed_lcores-none side n (suc i) port queue
                (λ j le. past_one side port queue i j one here (omega arith)) in
            rw (here, rest) refl
        | inr missed ↦ rw missed (printed_lcores-first side n (suc i) port queue one)
      ]

  lists_queue-lcore_lines :
      (side other : Side) (n i port queue : ℕ)
      → lists_queue side port queue (lcore_lines dpdk r other n i) ≡ false
  unfolding lcore_lines
  lists_queue-lcore_lines side other zero i port queue = refl
  lists_queue-lcore_lines side other (suc n) i port queue =
      let rest = lists_queue-lcore_lines side other n (suc i) port queue in
      elim (Bool-cases
        (not (is_io (r.lcore_params i).type) || length (queues_of other (r.lcore_params i)) == 0)) [
          | inl none_of_it ↦ rw none_of_it rest
          | inr shown ↦ rw shown rest
        ]

  printed_lcores-other :
      (side other : Side) (n i port queue : ℕ)
      → same side other ≡ false
      → printed_lcores side port queue (lcore_lines dpdk r other n i) ≡ []
  unfolding lcore_lines
  printed_lcores-other side other zero i port queue differ = refl
  printed_lcores-other side other (suc n) i port queue differ =
      let rest = printed_lcores-other side other n (suc i) port queue differ in
      elim (Bool-cases
        (not (is_io (r.lcore_params i).type) || length (queues_of other (r.lcore_params i)) == 0)) [
          | inl none_of_it ↦ rw none_of_it rest
          | inr shown ↦ rw (shown, differ) rest
        ]

  lists_queue-side_lines :
      (side other : Side) (port queue : ℕ)
      → lists_queue side port queue (side_lines dpdk r other)
        ≡ (same side other && port_among port queue (port_lines dpdk r other dpdk.max_nic_ports 0))
  unfolding side_lines
  lists_queue-side_lines side other port queue =
      ground (arith, lists_queue-lcore_lines side other dpdk.max_lcores 0 port queue)

  printed_lcores-side_lines :
      (side other : Side) (port queue : ℕ)
      → printed_lcores side port queue (side_lines dpdk r other)
        ≡ printed_lcores side port queue (lcore_lines dpdk r other dpdk.max_lcores 0)
  unfolding side_lines
  printed_lcores-side_lines side other port queue = refl

  abbrev sizes : List ReportLine
  sizes =
      ring_sizes r.nic_rx_ring_size r.nic_tx_ring_size
      ∷ burst_sizes r.burst_size_io_rx_read r.burst_size_io_tx_write
      ∷ []

  -- What the report says of a queue is what the loops of the queue's side print.
  pub lists_queue-report :
      (side : Side) (port queue : ℕ)
      → lists_queue side port queue (replay_print_params dpdk r)
        ≡ port_among port queue (port_lines dpdk r side dpdk.max_nic_ports 0)
  unfolding replay_print_params
  lists_queue-report receiving port queue =
      lists_queue-append receiving port queue (side_lines dpdk r receiving)
        (side_lines dpdk r sending_side ++ sizes)
      ∙ ground (
        arith,
        lists_queue-append receiving port queue (side_lines dpdk r sending_side) sizes,
        lists_queue-side_lines receiving receiving port queue,
        lists_queue-side_lines receiving sending_side port queue,
      )
  lists_queue-report sending_side port queue =
      lists_queue-append sending_side port queue (side_lines dpdk r receiving)
        (side_lines dpdk r sending_side ++ sizes)
      ∙ ground (
        arith,
        lists_queue-append sending_side port queue (side_lines dpdk r sending_side) sizes,
        lists_queue-side_lines sending_side receiving port queue,
        lists_queue-side_lines sending_side sending_side port queue,
      )

  pub printed_lcores-report :
      (side : Side) (port queue : ℕ)
      → printed_lcores side port queue (replay_print_params dpdk r)
        ≡ printed_lcores side port queue (lcore_lines dpdk r side dpdk.max_lcores 0)
  unfolding replay_print_params
  printed_lcores-report receiving port queue =
      printed_lcores-append receiving port queue (side_lines dpdk r receiving)
        (side_lines dpdk r sending_side ++ sizes)
      ∙ ap (λ ls. printed_lcores receiving port queue (side_lines dpdk r receiving) ++ ls)
          (printed_lcores-append receiving port queue (side_lines dpdk r sending_side) sizes
            ∙ append-nil _
            ∙ printed_lcores-side_lines receiving sending_side port queue
            ∙ printed_lcores-other receiving sending_side dpdk.max_lcores 0 port queue refl)
      ∙ append-nil _
      ∙ printed_lcores-side_lines receiving receiving port queue
  printed_lcores-report sending_side port queue =
      printed_lcores-append sending_side port queue (side_lines dpdk r receiving)
        (side_lines dpdk r sending_side ++ sizes)
      ∙ ap
          (λ ls.
            ls ++ printed_lcores sending_side port queue (side_lines dpdk r sending_side ++ sizes))
          (printed_lcores-side_lines sending_side receiving port queue
            ∙ printed_lcores-other sending_side receiving dpdk.max_lcores 0 port queue refl)
      ∙ printed_lcores-append sending_side port queue (side_lines dpdk r sending_side) sizes
      ∙ append-nil _
      ∙ printed_lcores-side_lines sending_side sending_side port queue
