-- ===== src/Replay/Lcores/Ready.antt =====
-- src/replay: the queues that the lcores use are those that the initialisation has set up.
use nvme_dpdk_pcapreplay.Prelude.{
  ℕ, zero, suc, ◌+◌, ◌≤◌, ◌<◌, ◌≡◌, ◌≢◌, refl, inl, inr, Bool, true, false, Option, List, [], ◌∷◌,
  ◌++◌, leb, ◌==◌, ◌&&◌, ◌||◌, if◌then◌else◌, arith, Bool-cases,
}
use nvme_dpdk_pcapreplay.Replay.Params.{Dpdk, ReplayParams, max_queues_per_nic_port}
use nvme_dpdk_pcapreplay.Replay.Queries.{
  count_from, replay_get_nic_rx_queues_per_port, replay_get_nic_tx_queues_per_port,
}
use nvme_dpdk_pcapreplay.Replay.Nic.{EthCall, rx_queue_setup, tx_queue_setup, dev_start, Nic}
use nvme_dpdk_pcapreplay.Replay.Init.{is_unused}
use nvme_dpdk_pcapreplay.Replay.Init.Setups.{
  onto, rx_setup, tx_setup, rx_setups, tx_setups, port_setup, port_setups,
}
use nvme_dpdk_pcapreplay.Replay.Sides.{Side, receiving, sending_side, mask_of}
use nvme_dpdk_pcapreplay.Replay.Queries.Lookup.{count_from-ne-zero}

-- Whether a call sets up this queue, and whether one starts this port.
abbrev pub sets_up : Side → ℕ → ℕ → EthCall → Bool
sets_up receiving port queue (rx_queue_setup p q n socket pool) = p == port && q == queue
sets_up sending_side port queue (tx_queue_setup p q n socket) = p == port && q == queue
sets_up side port queue c = false

abbrev pub starts : ℕ → EthCall → Bool
starts port (dev_start p) = p == port
starts port c = false

-- Whether there is such a call.
abbrev pub any : (EthCall → Bool) → List EthCall → Bool
any test [] = false
any test (c ∷ cs) = test c || any test cs

any-append :
    (test : EthCall → Bool) (xs ys : List EthCall)
    → any test (xs ++ ys) ≡ (any test xs || any test ys)
any-append test [] ys = refl
any-append test (x ∷ xs) ys = ground (arith, any-append test xs ys)

pub any-onto :
    (test : EthCall → Bool) (cs h : List EthCall) → any test cs ≡ true → any test (onto cs h) ≡ true
any-onto test cs h e = any-onto_or cs h (ground (arith, e))
  where
    any-onto_or :
        (cs h : List EthCall) → (any test cs || any test h) ≡ true → any test (onto cs h) ≡ true
    any-onto_or [] h e = e
    any-onto_or (c ∷ cs) h e = any-onto_or cs (c ∷ h) (ground (arith, e))

any-append_left :
    (test : EthCall → Bool) (xs ys : List EthCall) → any test xs ≡ true → any test (xs ++ ys) ≡ true
any-append_left test xs ys e = ground (arith, any-append test xs ys, e)

pub any-append_right :
    (test : EthCall → Bool) (xs ys : List EthCall) → any test ys ≡ true → any test (xs ++ ys) ≡ true
any-append_right test xs ys e = ground (arith, any-append test xs ys, e)

first-ne-zero : (a b : ℕ) → 0 < a → (a == 0 && b == 0) ≡ false
first-ne-zero a b h = ground arith

second-ne-zero : (a b : ℕ) → 0 < b → (a == 0 && b == 0) ≡ false
second-ne-zero a b h = ground arith

-- A port with a queue that is on is not unused.
is_unused-on :
    (dpdk : Dpdk) (nic : Nic) (r : ReplayParams) (side : Side) (port queue : ℕ)
    → port < dpdk.max_nic_ports
    → queue < max_queues_per_nic_port
    → mask_of side r port queue ≡ 1
    → is_unused dpdk nic r port ≡ false
unfolding is_unused replay_get_nic_rx_queues_per_port replay_get_nic_tx_queues_per_port
is_unused-on dpdk nic r receiving port queue port_in queue_in on =
    let there : leb dpdk.max_nic_ports port ≡ false = ground arith in
    let some_on : 0 < count_from (λ i. r.nic_rx_queue_mask port i == 1) max_queues_per_nic_port 0 =
      count_from-ne-zero (λ i. r.nic_rx_queue_mask port i == 1) max_queues_per_nic_port 0 queue
        (omega arith) (omega arith) (ground arith) in
    rw (is_unused, there) (first-ne-zero _ _ some_on)
is_unused-on dpdk nic r sending_side port queue port_in queue_in on =
    let there : leb dpdk.max_nic_ports port ≡ false = ground arith in
    let some_on : 0 < count_from (λ i. r.nic_tx_queue_mask port i == 1) max_queues_per_nic_port 0 =
      count_from-ne-zero (λ i. r.nic_tx_queue_mask port i == 1) max_queues_per_nic_port 0 queue
        (omega arith) (omega arith) (ground arith) in
    rw (is_unused, there) (second-ne-zero _ _ some_on)

started :
    (port : ℕ) (xs ys : List EthCall) → any (starts port) (xs ++ (ys ++ dev_start port ∷ [])) ≡ true
started port xs ys =
    let last : any (starts port) (dev_start port ∷ []) ≡ true = ground arith in
    any-append_right (starts port) xs (ys ++ dev_start port ∷ [])
      (any-append_right (starts port) ys (dev_start port ∷ []) last)

module _ (dpdk : Dpdk) (r : ReplayParams) (pool : ℕ → Option ℕ)
    (rx_owner tx_owner : ℕ → ℕ → ℕ) where
  abbrev rx_here : ℕ → ℕ → EthCall
  rx_here = rx_setup dpdk r pool rx_owner tx_owner

  abbrev tx_here : ℕ → ℕ → EthCall
  tx_here = tx_setup dpdk r pool rx_owner tx_owner

  abbrev rx_rest : ℕ → ℕ → ℕ → List EthCall
  rx_rest = rx_setups dpdk r pool rx_owner tx_owner

  abbrev tx_rest : ℕ → ℕ → ℕ → List EthCall
  tx_rest = tx_setups dpdk r pool rx_owner tx_owner

  rx_setups-there :
      (n i port queue : ℕ)
      → i ≤ queue
      → queue < i + n
      → r.nic_rx_queue_mask port queue ≡ 1
      → any (sets_up receiving port queue) (rx_setups dpdk r pool rx_owner tx_owner n port i) ≡ true
  unfolding rx_setups
  rx_setups-there zero i port queue low high on = absurd (omega arith)
  rx_setups-there (suc n) i port queue low high on = elim (Bool-cases (i == queue)) [
    | inl here ↦ let is : i ≡ queue = ground arith in rw (is, on) (ground arith)
    | inr later ↦
        let past : i ≢ queue = λ e. ground arith in
        let rest = rx_setups-there n (suc i) port queue (omega arith) (omega arith) on in
        let one : List EthCall =
          (if r.nic_rx_queue_mask port i == 1 then (rx_here port i ∷ []) else []) in
        any-append_right (sets_up receiving port queue) one (rx_rest n port (suc i)) rest
  ]

  tx_setups-there :
      (n i port queue : ℕ)
      → i ≤ queue
      → queue < i + n
      → r.nic_tx_queue_mask port queue ≡ 1
      → any (sets_up sending_side port queue) (tx_setups dpdk r pool rx_owner tx_owner n port i)
        ≡ true
  unfolding tx_setups
  tx_setups-there zero i port queue low high on = absurd (omega arith)
  tx_setups-there (suc n) i port queue low high on = elim (Bool-cases (i == queue)) [
    | inl here ↦ let is : i ≡ queue = ground arith in rw (is, on) (ground arith)
    | inr later ↦
        let past : i ≢ queue = λ e. ground arith in
        let rest = tx_setups-there n (suc i) port queue (omega arith) (omega arith) on in
        let one : List EthCall =
          (if r.nic_tx_queue_mask port i == 1 then (tx_here port i ∷ []) else []) in
        any-append_right (sets_up sending_side port queue) one (tx_rest n port (suc i)) rest
  ]

  -- Both calls are among those for the port.
  port_setup-there :
      (nic : Nic) (side : Side) (port queue : ℕ)
      → port < dpdk.max_nic_ports
      → queue < max_queues_per_nic_port
      → mask_of side r port queue ≡ 1
      → (any (sets_up side port queue) (port_setup dpdk r pool rx_owner tx_owner nic port) ≡ true)
        × (any (starts port) (port_setup dpdk r pool rx_owner tx_owner nic port) ≡ true)
  unfolding port_setup
  port_setup-there nic receiving port queue port_in queue_in on =
      let used = is_unused-on dpdk nic r receiving port queue port_in queue_in on in
      let rxs : List EthCall = rx_rest max_queues_per_nic_port port 0 in
      let txs : List EthCall = tx_rest max_queues_per_nic_port port 0 in
      let setup =
        rx_setups-there max_queues_per_nic_port 0 port queue (omega arith) (omega arith) on in
      rw (port_setup, used)
        (
          any-append_left (sets_up receiving port queue) rxs (txs ++ dev_start port ∷ []) setup,
          started port rxs txs,
        )
  port_setup-there nic sending_side port queue port_in queue_in on =
      let used = is_unused-on dpdk nic r sending_side port queue port_in queue_in on in
      let rxs : List EthCall = rx_rest max_queues_per_nic_port port 0 in
      let txs : List EthCall = tx_rest max_queues_per_nic_port port 0 in
      let setup =
        tx_setups-there max_queues_per_nic_port 0 port queue (omega arith) (omega arith) on in
      rw (port_setup, used)
        (
          any-append_right (sets_up sending_side port queue) rxs (txs ++ dev_start port ∷ [])
              (any-append_left (sets_up sending_side port queue) txs (dev_start port ∷ []) setup),
          started port rxs txs,
        )

  pub port_setups-there :
      (nic : Nic) (side : Side) (n i port queue : ℕ)
      → i ≤ port
      → port < i + n
      → port < dpdk.max_nic_ports
      → queue < max_queues_per_nic_port
      → mask_of side r port queue ≡ 1
      → (any (sets_up side port queue) (port_setups dpdk r pool rx_owner tx_owner nic n i) ≡ true)
        × (any (starts port) (port_setups dpdk r pool rx_owner tx_owner nic n i) ≡ true)
  unfolding port_setups
  port_setups-there nic side zero i port queue low high port_in queue_in on = absurd (omega arith)
  port_setups-there nic side (suc n) i port queue low high port_in queue_in on =
      let one : List EthCall = port_setup dpdk r pool rx_owner tx_owner nic i in
      let more : List EthCall = port_setups dpdk r pool rx_owner tx_owner nic n (suc i) in
      elim (Bool-cases (i == port)) [
        | inl here ↦
            let is : i ≡ port = ground arith in
            let (a, b) = port_setup-there nic side port queue port_in queue_in on in
            let at : List EthCall = port_setup dpdk r pool rx_owner tx_owner nic port in
            rw is (
              any-append_left (sets_up side port queue) at _ a,
              any-append_left (starts port) at _ b,
            )
        | inr later ↦
            let past : i ≢ port = λ e. ground arith in
            let (a, b) =
              port_setups-there nic side n (suc i) port queue (omega arith) (omega arith) port_in
                queue_in on in
            (
              any-append_right (sets_up side port queue) one more a,
              any-append_right (starts port) one more b,
            )
      ]
