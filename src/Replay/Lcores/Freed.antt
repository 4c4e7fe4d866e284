-- ===== src/Replay/Lcores/Freed.antt =====
-- src/replay/runtime.c: what becomes of the buffers when the lcores take turns.
use nvme_dpdk_pcapreplay.Prelude.{
  ℕ, zero, suc, ◌+◌, ◌-◌, ◌%◌, ◌^◌, ◌≤◌, ◌<◌, ◌≡◌, refl, ap, inl, inr, false, Option, none, some,
  List, [], ◌∷◌, ltb, ◌==◌, ◌&&◌, if◌then◌else◌, arith, Bool-cases,
}
use nvme_dpdk_pcapreplay.Replay.Params.{Dpdk, NicQueue, ReplayParams, mbuf_array_size, update}
use nvme_dpdk_pcapreplay.Replay.Args.{is_io}
use nvme_dpdk_pcapreplay.Replay.Nic.{EthCall, tx_burst, buffer_alloc, Nic, Nics}
use nvme_dpdk_pcapreplay.Replay.Lcores.Settled.{occurrences, freed, owed, Settled}
use nvme_dpdk_pcapreplay.Replay.Lcores.{
  Place, returned, at_rx, dropping, at_tx, sending, freeing, Turn, Lcores, turn, stepped, step,
  step_either, run, launched,
}

-- How often an lcore has still to free a buffer.
abbrev pub pending : ℕ → Place → ℕ
pending b (dropping ps qs) = occurrences b ps
pending b (freeing n k c qs) = if c == b then n - k else 0
pending b p = 0

-- The same for the first `n` lcores.
abbrev pub all_pending : ℕ → ℕ → (ℕ → Place) → ℕ
all_pending b zero place = 0
all_pending b (suc n) place = pending b (place n) + all_pending b n place

abbrev pub AllBelow : ℕ → List ℕ → Type 0
AllBelow n [] = Unit
AllBelow n (l ∷ ls) = (l < n) × AllBelow n ls

all_pending-update_above :
    (b n l : ℕ) (place : ℕ → Place) (p : Place)
    → n ≤ l
    → all_pending b n (update place l p) ≡ all_pending b n place
all_pending-update_above b zero l place p le = refl
all_pending-update_above b (suc n) l place p le =
    let other : (n == l) ≡ false = ground arith in
    rw other
      (ap (λ k. pending b (place n) + k) (all_pending-update_above b n l place p (omega arith)))

all_pending-update :
    (b n l : ℕ) (place : ℕ → Place) (p : Place)
    → l < n
    → all_pending b n (update place l p) + pending b (place l) ≡ all_pending b n place + pending b p
all_pending-update b zero l place p lt = absurd (omega arith)
all_pending-update b (suc n) l place p lt = elim (Bool-cases (n == l)) [
  | inl last ↦
      let is : l ≡ n = ground arith in
      rw (last, is) (omega (arith, all_pending-update_above b n n place p (omega arith)))
  | inr below ↦ rw below (omega (arith, all_pending-update b n l place p (ground arith)))
]

module _ (nic : Nic) (r : ReplayParams) (small : r.burst_size_io_tx_write ≤ mbuf_array_size)
    (b : ℕ) where
  -- What was freed, and is still to be freed, is what was owed.
  abbrev Even : Place → Nics → Place → Nics → Type 0
  Even p s p' s' =
      freed b s'.calls + pending b p' + owed nic b s.calls
      ≡ freed b s.calls + pending b p + owed nic b s'.calls

  even_given :
      (o : Option ℕ) (q : NicQueue) (qs : List NicQueue)
      → pending b (elim o [ none ↦ at_tx qs | some tmpbuf ↦ sending q tmpbuf qs ]) ≡ 0
  even_given none q qs = refl
  even_given (some c) q qs = refl

  turn-Even :
      (lcore : ℕ) (p : Place) (s : Nics)
      → Even p s (turn nic r lcore p s).place (turn nic r lcore p s).nics
  unfolding turn
  turn-Even lcore returned s = refl
  turn-Even lcore (at_rx []) s = refl
  turn-Even lcore (at_rx (q ∷ qs)) s = omega arith
  turn-Even lcore (dropping [] qs) s = refl
  turn-Even lcore (dropping (p ∷ ps) qs) s = omega arith
  turn-Even lcore (at_tx []) s = refl
  turn-Even lcore (at_tx (q ∷ qs)) s =
      let c : EthCall = buffer_alloc (s.pools 0) in
      omega (arith, even_given (nic.buffer_at (c ∷ s.calls)) q qs)
  turn-Even lcore (sending q c qs) s =
      let n_pkts : ℕ =
        nic.sent (tx_burst q.port q.queue c (r.burst_size_io_tx_write % 2 ^ 16) ∷ s.calls) in
      elim (Bool-cases (ltb n_pkts r.burst_size_io_tx_write)) [
        | inl unsent ↦ rw (turn, unsent) (ground arith)
        | inr sent ↦ rw (turn, sent) (ground arith)
      ]
  turn-Even lcore (freeing n k c qs) s = elim (Bool-cases (ltb k n)) [
    | inl more ↦ rw (turn, more) (ground arith)
    | inr less ↦ rw (turn, less) (ground arith)
  ]

  stepped_lem :
      (n l : ℕ) (m : Lcores)
      → l < n
      → freed b m.nics.calls + all_pending b n m.place ≡ owed nic b m.nics.calls
      → freed b (stepped nic r l m).nics.calls + all_pending b n (stepped nic r l m).place
        ≡ owed nic b (stepped nic r l m).nics.calls
  unfolding stepped
  stepped_lem n l m lt e =
      let t : Turn = turn nic r l (m.place l) m.nics in
      omega (arith, e, turn-Even l (m.place l) m.nics, all_pending-update b n l m.place t.place lt)

  run_lem :
      (n : ℕ) (schedule : List ℕ) (m : Lcores)
      → AllBelow n schedule
      → freed b m.nics.calls + all_pending b n m.place ≡ owed nic b m.nics.calls
      → freed b (run nic r schedule m).nics.calls + all_pending b n (run nic r schedule m).place
        ≡ owed nic b (run nic r schedule m).nics.calls
  unfolding run
  run_lem n [] m below e = e
  run_lem n (l ∷ schedule) m below e =
      let even =
        λ (m : Lcores). freed b m.nics.calls + all_pending b n m.place ≡ owed nic b m.nics.calls in
      run_lem n schedule (step nic r l m) below.1
        (step_either nic r even l m e (stepped_lem n l m below.0 e))

launched-pending :
    (dpdk : Dpdk) (r : ReplayParams) (s : Nics) (b n : ℕ)
    → all_pending b n (launched dpdk r s).place ≡ 0
unfolding launched
launched-pending dpdk r s b zero = refl
launched-pending dpdk r s b (suc n) =
    elim (Bool-cases (dpdk.lcore_is_enabled n && is_io (r.lcore_params n).type)) [
      | inl on ↦ rw on (omega (arith, launched-pending dpdk r s b n))
      | inr off ↦ rw off (omega (arith, launched-pending dpdk r s b n))
    ]

launched-even :
    (dpdk : Dpdk) (nic : Nic) (r : ReplayParams) (s : Nics) (b n : ℕ)
    → freed b s.calls ≡ owed nic b s.calls
    → freed b (launched dpdk r s).nics.calls + all_pending b n (launched dpdk r s).place
      ≡ owed nic b (launched dpdk r s).nics.calls
unfolding launched
launched-even dpdk nic r s b n settled = omega (arith, launched-pending dpdk r s b n, settled)

-- With a burst size of at most 512 for sending, and buffers settled before `app_run`: in whatever
-- order the first `n` lcores then take turns, at any time a buffer was freed, or is still to be freed
-- by the lcores, once for every time that it was received, and once for every packet of a burst made
-- of it that was not sent.
pub run-freed :
    (dpdk : Dpdk) (nic : Nic) (r : ReplayParams) (s : Nics) (n : ℕ) (schedule : List ℕ) (b : ℕ)
    → r.burst_size_io_tx_write ≤ mbuf_array_size
    → Settled nic s
    → AllBelow n schedule
    → let m = run nic r schedule (launched dpdk r s) in
      freed b m.nics.calls + all_pending b n m.place ≡ owed nic b m.nics.calls
run-freed dpdk nic r s n schedule b small settled below =
    run_lem nic r small b n schedule (launched dpdk r s) below
      (launched-even dpdk nic r s b n (settled b))
