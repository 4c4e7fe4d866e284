-- ===== src/Replay/Lcores.antt =====
-- src/replay/replay.c, `app_run`, and the loops of src/replay/runtime.c that it starts on all lcores
-- at once: the lcores take turns in any order, one call of DPDK at a time.
pub mod Exclusive
pub mod Waiting
pub mod Freed
pub mod Ready
pub mod SetUp
pub mod Settled
use nvme_dpdk_pcapreplay.Prelude.{
  ℕ, zero, suc, ◌+◌, ◌-◌, ◌%◌, ◌^◌, Bool, true, false, Option, none, some, List, [], ◌∷◌, leb, ltb,
  ◌&&◌, ◌||◌, not, if◌then◌else◌,
}
use nvme_dpdk_pcapreplay.Replay.Params.{
  Dpdk, NicQueue, ReplayParams, update, update_at, max_nic_queues_per_io_lcore,
}
use nvme_dpdk_pcapreplay.Replay.Args.{is_io}
use nvme_dpdk_pcapreplay.Replay.Nic.{
  EthCall, rx_burst, tx_burst, buffer_alloc, buffer_free, Nic, Nics, note,
}

-- Where an lcore is in its loop: it has returned; it has these receive queues left in the round; it
-- has these packets of a burst left to drop; it has these transmit queues left; it has a buffer to
-- send on a queue; it is at the test of `while (n_pkts < n_mbufs)`, with n_mbufs, n_pkts and a buffer.
pub data Place : Type 0 where
  returned : Place
  at_rx : List NicQueue → Place
  dropping : List ℕ → List NicQueue → Place
  at_tx : List NicQueue → Place
  sending : NicQueue → ℕ → List NicQueue → Place
  freeing : ℕ → ℕ → ℕ → List NicQueue → Place

-- What a turn of an lcore leaves: where it is then, the call that it made, DPDK's side, and whether it
-- has written outside of an array.
pub record Turn : Type 0 where
  pub place : Place
  pub made : Option EthCall
  pub nics : Nics
  pub overran : Bool

abbrev pub quiet : Place → Nics → Turn
quiet p s = record { place = p; made = none; nics = s; overran = false }

abbrev pub calls : EthCall → Place → Nics → Turn
calls c p s = record { place = p; made = some c; nics = s; overran = false }

-- All lcores, and which lcore made each call, the newest first. Once an lcore has written outside of an
-- array, C does not say what any of them does, and the model stops.
pub record Lcores : Type 0 where
  pub place : ℕ → Place
  pub nics : Nics
  pub log : List (ℕ × EthCall)
  pub overran : Bool

abbrev pub logged : ℕ → Option EthCall → List (ℕ × EthCall) → List (ℕ × EthCall)
logged lcore none log = log
logged lcore (some c) log = (lcore, c) ∷ log

if_either : (P : Lcores → Type 0) (b : Bool) (x y : Lcores) → P x → P y → P (if b then x else y)
if_either P true x y px py = px
if_either P false x y px py = py

module _ (nic : Nic) (r : ReplayParams) where
  -- One turn of an lcore, which makes at most one call.
  unfoldable pub turn : ℕ → Place → Nics → Turn
  turn lcore returned s = quiet returned s
  turn lcore (at_rx []) s = quiet (at_tx (r.lcore_params lcore).tx) s
  turn lcore (at_rx (q ∷ qs)) s =
      let c = rx_burst q.port q.queue (r.burst_size_io_rx_read % 2 ^ 16) in
      calls c (dropping (nic.received (c ∷ s.calls)) qs) (note c s)
  turn lcore (dropping [] qs) s = quiet (at_rx qs) s
  turn lcore (dropping (p ∷ ps) qs) s =
      calls (buffer_free p) (dropping ps qs) (note (buffer_free p) s)
  turn lcore (at_tx []) s = quiet (at_rx (r.lcore_params lcore).rx) s
  turn lcore (at_tx (q ∷ qs)) s =
      let c = buffer_alloc (s.pools 0) in
      calls c
        (elim (nic.buffer_at (c ∷ s.calls)) [ none ↦ at_tx qs | some tmpbuf ↦ sending q tmpbuf qs ])
        (note c s)
  turn lcore (sending q tmpbuf qs) s =
      let bsz_tx_wr = r.burst_size_io_tx_write in
      let c = tx_burst q.port q.queue tmpbuf (bsz_tx_wr % 2 ^ 16) in
      let n_pkts = nic.sent (c ∷ s.calls) in
      if ltb n_pkts bsz_tx_wr
      then calls c (freeing bsz_tx_wr n_pkts tmpbuf qs) (note c s)
      else record (calls c (at_tx qs) (record (note c s) {
        mbuf_out = update_at s.mbuf_out lcore q.port ((s.mbuf_out lcore q.port + 1) % 2 ^ 32);
      })) { overran = leb max_nic_queues_per_io_lcore q.port }
  turn lcore (freeing n_mbufs n_pkts tmpbuf qs) s =
      if ltb n_pkts n_mbufs
      then calls (buffer_free tmpbuf) (freeing (n_mbufs - 1) n_pkts tmpbuf qs)
          (note (buffer_free tmpbuf) s)
      else quiet (at_tx qs) s

  -- The turn of one lcore among all.
  unfoldable pub stepped : ℕ → Lcores → Lcores
  stepped lcore m =
      let t = turn lcore (m.place lcore) m.nics in
      record {
        place = update m.place lcore t.place;
        nics = t.nics;
        log = logged lcore t.made m.log;
        overran = t.overran;
      }

  unfoldable pub step : ℕ → Lcores → Lcores
  step lcore m = let next = stepped lcore m in if m.overran then m else next

  -- What holds before a turn and after it holds when there may be no turn.
  pub step_either :
      (P : Lcores → Type 0) (lcore : ℕ) (m : Lcores) → P m → P (stepped lcore m) → P (step lcore m)
  unfolding step
  step_either P lcore m before after = if_either P m.overran m (stepped lcore m) before after

  -- The turns in the order of a schedule.
  unfoldable pub run : List ℕ → Lcores → Lcores
  run [] m = m
  run (lcore ∷ schedule) m = run schedule (step lcore m)

abbrev pub has_returned : Place → Bool
has_returned returned = true
has_returned (at_rx qs) = false
has_returned (dropping ps qs) = false
has_returned (at_tx qs) = false
has_returned (sending q tmpbuf qs) = false
has_returned (freeing n_mbufs n_pkts tmpbuf qs) = false

module _ (dpdk : Dpdk) where
  -- rte_eal_mp_remote_launch starts `replay_lcore_main_loop` on every enabled lcore.
  unfoldable pub launched : ReplayParams → Nics → Lcores
  launched r s = record {
    place = λ lcore.
        let lp = r.lcore_params lcore in
        if dpdk.lcore_is_enabled lcore && is_io lp.type then at_rx lp.rx else returned;
    nics = s;
    log = [];
    overran = false;
  }

  -- Whether `app_run` has returned: its own call of the loop has, and it has waited for the others.
  -- The loop returns 0, so that no wait gives a negative number. So many lcores are looked at.
  unfoldable pub app_run_returned : ℕ → Lcores → Bool
  app_run_returned zero m = true
  app_run_returned (suc n) m =
      (not (dpdk.lcore_is_enabled n) || has_returned (m.place n)) && app_run_returned n m
