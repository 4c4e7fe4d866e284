-- ===== src/Replay/Args/Assigned.antt =====
-- src/replay/config.c: the rule for the queues of one side, receiving or sending, and what an
-- assignment does to it.
use nvme_dpdk_pcapreplay.Prelude.{
  ℕ, ◌^◌, ◌≤◌, ◌<◌, ◌≡◌, ◌≢◌, ◌∙◌, ◌⊎◌, inl, inr, true, List, [], ◌∷◌, ◌++◌, arith, ◌==◌, ◌&&◌,
  ◌||◌, length, length-append, Bool-cases,
}
use nvme_dpdk_pcapreplay.Replay.Params.{
  Dpdk, LcoreType, NicQueue, update_at, max_queues_per_nic_port, max_nic_queues_per_io_lcore,
}
use nvme_dpdk_pcapreplay.Replay.Args.{has_queue, nic_queue, is_io}

-- One side, receive or transmit: its mask, and the queues and the types of the lcores.
pub record Assigned (dpdk : Dpdk) (mask : ℕ → ℕ → ℕ) (queues : ℕ → List NicQueue)
    (type : ℕ → LcoreType) : Type 0 where
  pub on_or_off : (port queue : ℕ) → (mask port queue ≡ 0) ⊎ (mask port queue ≡ 1)
  pub in_range :
      (port queue : ℕ)
      → mask port queue ≡ 1
      → (port < dpdk.max_nic_ports) × (queue < max_queues_per_nic_port)
  pub handled :
      (port queue : ℕ)
      → mask port queue ≡ 1
      → (lcore : ℕ) × (lcore < dpdk.max_lcores)
        × (is_io (type lcore) ≡ true)
        × (has_queue port queue (queues lcore) ≡ true)
  pub switched_on :
      (lcore port queue : ℕ) → has_queue port queue (queues lcore) ≡ true → mask port queue ≡ 1
  pub one_lcore :
      (lcore other port queue : ℕ)
      → has_queue port queue (queues lcore) ≡ true
      → has_queue port queue (queues other) ≡ true
      → lcore ≡ other
  pub few : (lcore : ℕ) → length (queues lcore) ≤ max_nic_queues_per_io_lcore

pub has_queue-append :
    (port queue p q : ℕ) (qs : List NicQueue)
    → p < 2 ^ 8
    → q < 2 ^ 8
    → has_queue port queue (qs ++ nic_queue p q ∷ [])
      ≡ (has_queue port queue qs || (p == port && q == queue))
unfolding has_queue
has_queue-append port queue p q [] hp hq = ground arith
has_queue-append port queue p q (x ∷ qs) hp hq = ground (arith, has_queue-append port queue p q qs)

-- A queue that was off is given to an lcore, which is or becomes an I/O lcore.
module _ (dpdk : Dpdk) (mask : ℕ → ℕ → ℕ) (queues queues' : ℕ → List NicQueue)
    (type type' : ℕ → LcoreType) (port queue lcore : ℕ) (small : dpdk.max_nic_ports ≤ 2 ^ 8)
    (a : Assigned dpdk mask queues type) (port_in : port < dpdk.max_nic_ports)
    (queue_in : queue < max_queues_per_nic_port) (off : mask port queue ≡ 0)
    (lcore_in : lcore < dpdk.max_lcores)
    (space : length (queues lcore) < max_nic_queues_per_io_lcore)
    (here : queues' lcore ≡ queues lcore ++ nic_queue port queue ∷ [])
    (there : (l : ℕ) → l ≢ lcore → queues' l ≡ queues l) (io_here : is_io (type' lcore) ≡ true)
    (io_there : (l : ℕ) → is_io (type l) ≡ true → is_io (type' l) ≡ true) where
  on : ℕ → ℕ → ℕ
  on = update_at mask port queue 1

  -- What an lcore has afterwards.
  has_after :
      (l p q : ℕ)
      → has_queue p q (queues' l)
        ≡ (has_queue p q (queues l) || (l == lcore && (port == p && queue == q)))
  has_after l p q = elim (Bool-cases (l == lcore)) [
    | inl same ↦
        let is : l ≡ lcore = ground arith in
        rw (is, here, has_queue-append p q port queue (queues lcore) (omega arith) (omega arith))
          (ground arith)
    | inr other ↦ let differs : l ≢ lcore = ground arith in rw (there l differs) (ground arith)
  ]

  handled_after :
      (p q : ℕ)
      → on p q ≡ 1
      → (l : ℕ) × (l < dpdk.max_lcores)
        × (is_io (type' l) ≡ true)
        × (has_queue p q (queues' l) ≡ true)
  unfolding on
  handled_after p q e = elim (Bool-cases (p == port && q == queue)) [
    | inl same ↦ (lcore, lcore_in, io_here, has_after lcore p q ∙ ground arith)
    | inr other ↦
        let (l, l_in, l_io, has) = a.handled p q (ground arith) in
        (l, l_in, io_there l l_io, has_after l p q ∙ ground arith)
  ]

  switched_on_after : (l p q : ℕ) → has_queue p q (queues' l) ≡ true → on p q ≡ 1
  unfolding on
  switched_on_after l p q h = ground (arith, has_after l p q, a.switched_on l p q)

  one_lcore_after :
      (l o p q : ℕ) → has_queue p q (queues' l) ≡ true → has_queue p q (queues' o) ≡ true → l ≡ o
  one_lcore_after l o p q h k = ground (
    arith,
    has_after l p q,
    has_after o p q,
    a.one_lcore l o p q,
    a.switched_on l p q,
    a.switched_on o p q,
    not_on p q,
  )
    where
      not_on : (p q : ℕ) → p ≡ port → q ≡ queue → mask p q ≢ 1
      not_on p q e f one = ground arith

  few_after : (l : ℕ) → length (queues' l) ≤ max_nic_queues_per_io_lcore
  few_after l = elim (Bool-cases (l == lcore)) [
    | inl same ↦
        let is : l ≡ lcore = ground arith in
        rw (is, here) (omega (arith, length-append (queues lcore) (nic_queue port queue ∷ [])))
    | inr other ↦ let differs : l ≢ lcore = ground arith in rw (there l differs) (a.few l)
  ]

  pub assign-Assigned : Assigned dpdk (update_at mask port queue 1) queues' type'
  unfolding on
  assign-Assigned = record {
    on_or_off = λ p q. ground (arith, a.on_or_off p q);
    in_range = λ p q e. ground (arith, a.in_range p q);
    handled = handled_after;
    switched_on = switched_on_after;
    one_lcore = one_lcore_after;
    few = few_after;
  }
