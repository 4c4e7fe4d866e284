-- ===== src/Replay/Report/Ports.antt =====
-- src/replay/config.c, `replay_print_params`: the queues that are printed with the ports.
use nvme_dpdk_pcapreplay.Prelude.{
  ℕ, zero, suc, ◌+◌, ◌^◌, ◌≤◌, ◌<◌, ◌≡◌, ◌≢◌, refl, sym, ap, ◌∙◌, inl, inr, Bool, true, false, List,
  [], ◌∷◌, ◌==◌, ◌&&◌, ◌||◌, not, leb, arith, Bool-cases,
}
use nvme_dpdk_pcapreplay.Layout.{u8}
use nvme_dpdk_pcapreplay.Replay.Params.{Dpdk, ReplayParams, max_queues_per_nic_port}
use nvme_dpdk_pcapreplay.Replay.Queries.{
  replay_get_nic_rx_queues_per_port, replay_get_nic_tx_queues_per_port,
}
use nvme_dpdk_pcapreplay.Replay.Queries.Lookup.{count_from-ne-zero}
use nvme_dpdk_pcapreplay.Replay.Sides.{Side, receiving, sending_side, mask_of}
use nvme_dpdk_pcapreplay.Replay.Report.{no_queues, queues_on, queues_per_port, port_lines}

abbrev among : ℕ → List ℕ → Bool
among queue [] = false
among queue (q ∷ qs) = q == queue || among queue qs

abbrev pub port_among : ℕ → ℕ → List (ℕ × List ℕ) → Bool
port_among port queue [] = false
port_among port queue ((p, qs) ∷ ps) = (p == port && among queue qs) || port_among port queue ps

not_zero : (n : ℕ) → 0 < n → (n == 0) ≡ false
not_zero n h = ground arith

among-step :
    (mask : ℕ → ℕ) (n i q : ℕ)
    → among q (queues_on mask (suc n) i)
      ≡ ((mask i == 1 && i == q) || among q (queues_on mask n (suc i)))
unfolding queues_on
among-step mask n i q = elim (Bool-cases (mask i == 1)) [
  | inl on ↦ rw on refl
  | inr off ↦ rw off refl
]

among-on : (mask : ℕ → ℕ) (n i q : ℕ) → among q (queues_on mask n i) ≡ true → mask q ≡ 1
unfolding queues_on
among-on mask zero i q h = cc
among-on mask (suc n) i q h = elim (Bool-cases (mask i == 1 && i == q)) [
  | inl this ↦
      let here : i ≡ q = ground (arith, this) in
      let on : mask i ≡ 1 = ground (arith, this) in ap mask (sym here) ∙ on
  | inr other ↦ among-on mask n (suc i) q (ground (arith, among-step mask n i q, h, other))
]

on-among :
    (mask : ℕ → ℕ) (n i q : ℕ)
    → i ≤ q
    → q < i + n
    → mask q ≡ 1
    → among q (queues_on mask n i) ≡ true
unfolding queues_on
on-among mask zero i q low high on = absurd (omega arith)
on-among mask (suc n) i q low high on = elim (Bool-cases (i == q)) [
  | inl this ↦
      let here : i ≡ q = ground (arith, this) in
      let at : mask i ≡ 1 = ap mask here ∙ on in among-step mask n i q ∙ ground (arith, this, at)
  | inr other ↦
      let past : i ≢ q = λ e. ground arith in
      let rest = on-among mask n (suc i) q (omega arith) (omega arith) on in
      among-step mask n i q ∙ ground (arith, rest, other)
]

module _ (dpdk : Dpdk) (r : ReplayParams) where
  port_among-step :
      (side : Side) (n i port queue : ℕ)
      → port_among port queue (port_lines dpdk r side (suc n) i) ≡ (
          (not (no_queues (queues_per_port dpdk r side (u8 i)))
            && (i == port && among queue (queues_on (mask_of side r i) max_queues_per_nic_port 0)))
          || port_among port queue (port_lines dpdk r side n (suc i)))
  unfolding port_lines
  port_among-step side n i port queue =
      elim (Bool-cases (no_queues (queues_per_port dpdk r side (u8 i)))) [
        | inl unused ↦ rw unused refl
        | inr used ↦ rw used refl
      ]

  -- Only a queue that is on is printed among the ports.
  pub port_among-on :
      (side : Side) (n i port queue : ℕ)
      → port_among port queue (port_lines dpdk r side n i) ≡ true
      → mask_of side r port queue ≡ 1
  unfolding port_lines
  port_among-on side zero i port queue h = cc
  port_among-on side (suc n) i port queue h =
      elim (Bool-cases
        (i == port && among queue (queues_on (mask_of side r i) max_queues_per_nic_port 0))) [
          | inl this ↦
              let here : i ≡ port = ground (arith, this) in
              ap (λ p. mask_of side r p queue) (sym here)
              ∙ among-on (mask_of side r i) max_queues_per_nic_port 0 queue (ground (arith, this))
          | inr other ↦
              port_among-on side n (suc i) port queue
                (ground (arith, port_among-step side n i port queue, h, other))
        ]

  -- A port with a queue that is on has queues.
  no_queues-on :
      (side : Side) (port queue : ℕ)
      → port < dpdk.max_nic_ports
      → queue < max_queues_per_nic_port
      → mask_of side r port queue ≡ 1
      → no_queues (queues_per_port dpdk r side port) ≡ false
  unfolding replay_get_nic_rx_queues_per_port replay_get_nic_tx_queues_per_port no_queues
  no_queues-on receiving port queue port_in queue_in on =
      let some_on =
        count_from-ne-zero (λ i. r.nic_rx_queue_mask port i == 1) max_queues_per_nic_port 0 queue
          (omega arith) (omega arith) (ground (arith, on)) in
      let inside : leb dpdk.max_nic_ports port ≡ false = ground arith in
      rw inside (not_zero _ some_on)
  no_queues-on sending_side port queue port_in queue_in on =
      let some_on =
        count_from-ne-zero (λ i. r.nic_tx_queue_mask port i == 1) max_queues_per_nic_port 0 queue
          (omega arith) (omega arith) (ground (arith, on)) in
      let inside : leb dpdk.max_nic_ports port ≡ false = ground arith in
      rw inside (not_zero _ some_on)

  pub on-port_among :
      (side : Side) (n i port queue : ℕ)
      → i ≤ port
      → port < i + n
      → port < dpdk.max_nic_ports
      → dpdk.max_nic_ports ≤ 2 ^ 8
      → queue < max_queues_per_nic_port
      → mask_of side r port queue ≡ 1
      → port_among port queue (port_lines dpdk r side n i) ≡ true
  unfolding port_lines
  on-port_among side zero i port queue low high port_in small queue_in on = absurd (omega arith)
  on-port_among side (suc n) i port queue low high port_in small queue_in on =
      elim (Bool-cases (i == port)) [
        | inl this ↦
            let here : port ≡ i = ground (arith, this) in
            let byte : u8 i ≡ port = omega (arith, here) in
            let used : no_queues (queues_per_port dpdk r side (u8 i)) ≡ false =
              ap (λ p. no_queues (queues_per_port dpdk r side p)) byte
              ∙ no_queues-on side port queue port_in queue_in on in
            let at =
              on-among (mask_of side r i) max_queues_per_nic_port 0 queue (omega arith)
                (omega arith) (ap (λ p. mask_of side r p queue) (sym here) ∙ on) in
            port_among-step side n i port queue ∙ ground (arith, used, this, at)
        | inr other ↦
            let past : i ≢ port = λ e. ground arith in
            let rest =
              on-port_among side n (suc i) port queue (omega arith) (omega arith) port_in small
                queue_in on in
            port_among-step side n i port queue ∙ ground (arith, rest, other)
      ]
