-- ===== src/Replay/Lcores/Exclusive.antt =====
-- src/replay: no two lcores use one queue of a port, in whatever order they run.
use nvme_dpdk_pcapreplay.Replay.Sides.{Side, receiving, sending_side, queues_of}
use nvme_dpdk_pcapreplay.Prelude.{
  ℕ, ◌%◌, ◌≤◌, ◌^◌, ◌≡◌, sym, inl, inr, Bool, true, false, Option, none, some, List, [], ◌∷◌, ltb,
  ◌==◌, ◌&&◌, ◌||◌, arith, Bool-cases,
}
use mathlib.Core.Path.{subst}
use nvme_dpdk_pcapreplay.Replay.Params.{Dpdk, NicQueue, ReplayParams, initial}
use nvme_dpdk_pcapreplay.Replay.Numbers.{ok}
use nvme_dpdk_pcapreplay.Replay.Options.{Opt, Given, none_given, parse_options}
use nvme_dpdk_pcapreplay.Replay.Args.{has_queue, is_io}
use nvme_dpdk_pcapreplay.Replay.Args.Queues.{IsConfig}
use nvme_dpdk_pcapreplay.Replay.Args.Config.{parse_options-IsConfig}
use nvme_dpdk_pcapreplay.Replay.Nic.{EthCall, rx_burst, tx_burst, Nic, Nics}
use nvme_dpdk_pcapreplay.Replay.Lcores.{
  Place, returned, at_rx, dropping, at_tx, sending, freeing, Turn, Lcores, logged, turn, stepped,
  step_either, run, launched,
}

-- Whether a call is a burst on this queue, for receiving or for sending.
abbrev pub receives : ℕ → ℕ → EthCall → Bool
receives port queue (rx_burst p q n) = p == port && q == queue
receives port queue c = false

abbrev pub sends : ℕ → ℕ → EthCall → Bool
sends port queue (tx_burst p q b n) = p == port && q == queue
sends port queue c = false

-- Whether an lcore has made such a call.
abbrev pub did : (EthCall → Bool) → ℕ → List (ℕ × EthCall) → Bool
did test lcore [] = false
did test lcore ((l, c) ∷ log) = (l == lcore && test c) || did test lcore log

-- Of one list of queues all are in another.
abbrev Within : List NicQueue → List NicQueue → Type 0
Within qs all = (port queue : ℕ) → has_queue port queue qs ≡ true → has_queue port queue all ≡ true

Within-tail : (q : NicQueue) (qs all : List NicQueue) → Within (q ∷ qs) all → Within qs all
unfolding has_queue
Within-tail q qs all within port queue h = within port queue (ground (arith, h))

Within-head :
    (q : NicQueue) (qs all : List NicQueue) (port queue : ℕ)
    → Within (q ∷ qs) all
    → (q.port == port && q.queue == queue) ≡ true
    → has_queue port queue all ≡ true
unfolding has_queue
Within-head q qs all port queue within h = within port queue (ground (arith, h))

module _ (r : ReplayParams) where
  -- What an lcore has left of a round is of its queues.
  abbrev Fits : ℕ → Place → Type 0
  Fits lcore returned = Unit
  Fits lcore (at_rx qs) = Within qs (r.lcore_params lcore).rx
  Fits lcore (dropping ps qs) = Within qs (r.lcore_params lcore).rx
  Fits lcore (at_tx qs) = Within qs (r.lcore_params lcore).tx
  Fits lcore (sending q b qs) = Within (q ∷ qs) (r.lcore_params lcore).tx
  Fits lcore (freeing n k b qs) = Within qs (r.lcore_params lcore).tx

  -- A burst of an lcore is on a queue of its own.
  abbrev Own : ℕ → Option EthCall → Type 0
  Own lcore (some (rx_burst p q n)) = has_queue p q (r.lcore_params lcore).rx ≡ true
  Own lcore (some (tx_burst p q b n)) = has_queue p q (r.lcore_params lcore).tx ≡ true
  Own lcore c = Unit

  module _ (nic : Nic) where
    given_buffer :
        (lcore : ℕ) (o : Option ℕ) (q : NicQueue) (qs : List NicQueue)
        → Within (q ∷ qs) (r.lcore_params lcore).tx
        → Fits lcore (elim o [ none ↦ at_tx qs | some tmpbuf ↦ sending q tmpbuf qs ])
    given_buffer lcore none q qs within = Within-tail q qs _ within
    given_buffer lcore (some tmpbuf) q qs within = within

    turn-Fits :
        (lcore : ℕ) (p : Place) (s : Nics)
        → Fits lcore p
        → Fits lcore (turn nic r lcore p s).place × Own lcore (turn nic r lcore p s).made
    unfolding turn
    turn-Fits lcore returned s fits = (tt, tt)
    turn-Fits lcore (at_rx []) s fits = (λ port queue h. h, tt)
    turn-Fits lcore (at_rx (q ∷ qs)) s fits =
        (Within-tail q qs _ fits, Within-head q qs _ q.port q.queue fits (ground arith))
    turn-Fits lcore (dropping [] qs) s fits = (fits, tt)
    turn-Fits lcore (dropping (p ∷ ps) qs) s fits = (fits, tt)
    turn-Fits lcore (at_tx []) s fits = (λ port queue h. h, tt)
    turn-Fits lcore (at_tx (q ∷ qs)) s fits = (given_buffer lcore _ q qs fits, tt)
    turn-Fits lcore (sending q b qs) s fits =
        let own = Within-head q qs _ q.port q.queue fits (ground arith) in
        let n_pkts : ℕ =
          nic.sent (tx_burst q.port q.queue b (r.burst_size_io_tx_write % 2 ^ 16) ∷ s.calls) in
        elim (Bool-cases (ltb n_pkts r.burst_size_io_tx_write)) [
          | inl unsent ↦ rw (turn, unsent) (Within-tail q qs _ fits, own)
          | inr sent ↦ rw (turn, sent) (Within-tail q qs _ fits, own)
        ]
    turn-Fits lcore (freeing n k b qs) s fits = elim (Bool-cases (ltb k n)) [
      | inl more ↦ rw (turn, more) (fits, tt)
      | inr less ↦ rw (turn, less) (fits, tt)
    ]

  -- What every lcore has done and has left is on its queues.
  record IsOwn (m : Lcores) : Type 0 where
    fits : (lcore : ℕ) → Fits lcore (m.place lcore)
    rx_own :
        (lcore port queue : ℕ)
        → did (receives port queue) lcore m.log ≡ true
        → has_queue port queue (r.lcore_params lcore).rx ≡ true
    tx_own :
        (lcore port queue : ℕ)
        → did (sends port queue) lcore m.log ≡ true
        → has_queue port queue (r.lcore_params lcore).tx ≡ true

  logged-rx :
      (lcore l port queue : ℕ) (c : Option EthCall) (log : List (ℕ × EthCall))
      → Own l c
      → (did (receives port queue) lcore log ≡ true
          → has_queue port queue (r.lcore_params lcore).rx ≡ true)
      → did (receives port queue) lcore (logged l c log) ≡ true
      → has_queue port queue (r.lcore_params lcore).rx ≡ true
  logged-rx lcore l port queue none log own before h = before h
  logged-rx lcore l port queue (some (rx_burst p q n)) log own before h = ground arith
  logged-rx lcore l port queue (some c) log own before h = ground (arith, before)

  logged-tx :
      (lcore l port queue : ℕ) (c : Option EthCall) (log : List (ℕ × EthCall))
      → Own l c
      → (did (sends port queue) lcore log ≡ true
          → has_queue port queue (r.lcore_params lcore).tx ≡ true)
      → did (sends port queue) lcore (logged l c log) ≡ true
      → has_queue port queue (r.lcore_params lcore).tx ≡ true
  logged-tx lcore l port queue none log own before h = before h
  logged-tx lcore l port queue (some (tx_burst p q b n)) log own before h = ground arith
  logged-tx lcore l port queue (some c) log own before h = ground (arith, before)

  stepped-IsOwn : (nic : Nic) (l : ℕ) (m : Lcores) → IsOwn m → IsOwn (stepped nic r l m)
  unfolding stepped
  stepped-IsOwn nic l m o =
      let t : Turn = turn nic r l (m.place l) m.nics in
      let (fits, own) = turn-Fits nic l (m.place l) m.nics (o.fits l) in
      record {
        fits = λ lcore. elim (Bool-cases (lcore == l)) [
          | inl here ↦
              let is : lcore ≡ l = ground arith in
              rw here (subst (λ k. Fits k t.place) (sym is) fits)
          | inr other ↦ rw other (o.fits lcore)
        ];
        rx_own = λ lcore port queue.
            logged-rx lcore l port queue t.made m.log own (o.rx_own lcore port queue);
        tx_own = λ lcore port queue.
            logged-tx lcore l port queue t.made m.log own (o.tx_own lcore port queue);
      }

  run-IsOwn : (nic : Nic) (schedule : List ℕ) (m : Lcores) → IsOwn m → IsOwn (run nic r schedule m)
  unfolding run
  run-IsOwn nic [] m o = o
  run-IsOwn nic (l ∷ schedule) m o =
      run-IsOwn nic schedule _ (step_either nic r IsOwn l m o (stepped-IsOwn nic l m o))

  launched-IsOwn : (dpdk : Dpdk) (s : Nics) → IsOwn (launched dpdk r s)
  unfolding launched
  launched-IsOwn dpdk s = record {
    fits = λ lcore.
        elim (Bool-cases (dpdk.lcore_is_enabled lcore && is_io (r.lcore_params lcore).type)) [
          | inl on ↦ rw on (λ port queue h. h)
          | inr off ↦ rw off tt
        ];
    rx_own = λ lcore port queue h. cc;
    tx_own = λ lcore port queue h. cc;
  }

abbrev pub bursts : Side → ℕ → ℕ → EthCall → Bool
bursts receiving = receives
bursts sending_side = sends

-- Whatever the lcores have done, they have done on queues of theirs.
pub run-has_queue :
    (dpdk : Dpdk) (nic : Nic) (r : ReplayParams) (s : Nics) (schedule : List ℕ) (side : Side)
    (lcore port queue : ℕ)
    → did (bursts side port queue) lcore (run nic r schedule (launched dpdk r s)).log ≡ true
    → has_queue port queue (queues_of side (r.lcore_params lcore)) ≡ true
run-has_queue dpdk nic r s schedule receiving lcore port queue h =
    (run-IsOwn r nic schedule (launched dpdk r s) (launched-IsOwn r dpdk s)).rx_own lcore port queue
      h
run-has_queue dpdk nic r s schedule sending_side lcore port queue h =
    (run-IsOwn r nic schedule (launched dpdk r s) (launched-IsOwn r dpdk s)).tx_own lcore port queue
      h

IsConfig-one_lcore :
    (dpdk : Dpdk) (r : ReplayParams) (side : Side) (lcore other port queue : ℕ)
    → IsConfig dpdk r
    → has_queue port queue (queues_of side (r.lcore_params lcore)) ≡ true
    → has_queue port queue (queues_of side (r.lcore_params other)) ≡ true
    → lcore ≡ other
IsConfig-one_lcore dpdk r receiving lcore other port queue v = v.rx.one_lcore lcore other port queue
IsConfig-one_lcore dpdk r sending_side lcore other port queue v =
    v.tx.one_lcore lcore other port queue

-- With at most 256 ports, whatever options are read without a mistake: when `app_run` has started the
-- loops of all lcores, and in whatever order they have taken turns, two lcores that have made a burst
-- on the same queue of a port, both for receiving or both for sending, are the same.
pub run-parse_options-one_lcore :
    (dpdk : Dpdk) (nic : Nic) (os : List Opt) (g : Given) (r : ReplayParams) (s : Nics)
    (schedule : List ℕ) (side : Side) (lcore other port queue : ℕ)
    → dpdk.max_nic_ports ≤ 2 ^ 8
    → parse_options dpdk os none_given initial ≡ ok (g, r)
    → did (bursts side port queue) lcore (run nic r schedule (launched dpdk r s)).log ≡ true
    → did (bursts side port queue) other (run nic r schedule (launched dpdk r s)).log ≡ true
    → lcore ≡ other
run-parse_options-one_lcore dpdk nic os g r s schedule side lcore other port queue small e h k =
    IsConfig-one_lcore dpdk r side lcore other port queue
      (parse_options-IsConfig dpdk os g r small e)
      (run-has_queue dpdk nic r s schedule side lcore port queue h)
      (run-has_queue dpdk nic r s schedule side other port queue k)
