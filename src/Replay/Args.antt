-- ===== src/Replay/Args.antt =====
-- src/replay/config.c, `parse_arg_rx` to `parse_arg_ifile`: the arguments of the options of the
-- replay program.
pub mod Assigned
pub mod Queues
pub mod Tuples
pub mod Config
pub mod Mandatory
use nvme_dpdk_pcapreplay.Prelude.{
  ℕ, zero, suc, ◌+◌, ◌^◌, Bool, true, false, Option, none, some, List, [], ◌∷◌, ◌++◌, leb, ltb,
  ◌==◌, if◌then◌else◌, ◌&&◌, ◌||◌, length, drop, not,
}
use nvme_dpdk_pcapreplay.Layout.{u8}
use nvme_dpdk_pcapreplay.Replay.Params.{
  Dpdk, LcoreType, disabled, io, worker, worker_slave, NicQueue, LcoreParams, ReplayParams, update,
  update_at, max_queues_per_nic_port, max_nic_queues_per_io_lcore, mbuf_array_size,
  default_ring_size, default_burst_size,
}
use nvme_dpdk_pcapreplay.Replay.Numbers.{
  Parse, ok, fails, exits, undefined, ◌>>=◌, ◌>>◌, guard, str_to_unsigned_vals,
}

-- REPLAY_ARG_RX_MAX_CHARS and REPLAY_ARG_TX_MAX_CHARS, and the numbers of tuples
abbrev pub arg_max_chars : ℕ
arg_max_chars = 4096

abbrev pub arg_max_tuples : ℕ
arg_max_tuples = 128

-- REPLAY_ARG_RSZ_CHARS and REPLAY_ARG_BSZ_CHARS
abbrev pub arg_sizes_chars : ℕ
arg_sizes_chars = 63

-- `strchr`: the text from the character on.
unfoldable pub strchr : List ℕ → ℕ → Option (List ℕ)
strchr [] c = none
strchr (d ∷ ds) c = if d == c then some (d ∷ ds) else strchr ds c

-- The text in front of the character that `strchr` finds.
unfoldable pub text_before : List ℕ → ℕ → List ℕ
text_before [] c = []
text_before (d ∷ ds) c = if d == c then [] else (d ∷ text_before ds c)

abbrev pub is_worker : LcoreType → Bool
is_worker worker = true
is_worker disabled = false
is_worker io = false
is_worker worker_slave = false

abbrev pub is_io : LcoreType → Bool
is_io io = true
is_io disabled = false
is_io worker = false
is_io worker_slave = false

-- The loop that looks for the pair among the queues of an lcore.
unfoldable pub has_queue : ℕ → ℕ → List NicQueue → Bool
has_queue port queue [] = false
has_queue port queue (q ∷ qs) = (q.port == port && q.queue == queue) || has_queue port queue qs

abbrev pub nic_queue : ℕ → ℕ → NicQueue
nic_queue port queue = record { port = u8 port; queue = u8 queue }

module _ (dpdk : Dpdk) where
  -- The checks that `parse_arg_rx` and `parse_arg_tx` make of an lcore, whose queues on this side
  -- are `qs`, before they give it one more.
  unfoldable pub check_lcore : ReplayParams → ℕ → List NicQueue → ℕ → ℕ → Parse (Unit {0})
  check_lcore r lcore qs port queue = do
    guard (dpdk.lcore_is_enabled lcore) 5
    guard (not (leb dpdk.max_lcores lcore)) 6
    guard (not (is_worker (r.lcore_params lcore).type)) 7
    guard (not (has_queue port queue qs)) 8
    guard (not (leb max_nic_queues_per_io_lcore (length qs))) 9

  -- One tuple of `parse_arg_rx`.
  unfoldable pub assign_rx : ReplayParams → ℕ → ℕ → ℕ → Parse ReplayParams
  unfolding check_lcore
  assign_rx r port queue lcore = do
    guard (not (leb dpdk.max_nic_ports port || leb max_queues_per_nic_port queue)) 3
    guard (r.nic_rx_queue_mask port queue == 0) 4
    let lp = r.lcore_params lcore
    check_lcore r lcore lp.rx port queue
    ok (record r {
      nic_rx_queue_mask = update_at r.nic_rx_queue_mask port queue 1;
      lcore_params =
          update r.lcore_params lcore
            (record lp { type = io; rx = lp.rx ++ nic_queue port queue ∷ [] });
    })

  -- One tuple of `parse_arg_tx`.
  unfoldable pub assign_tx : ReplayParams → ℕ → ℕ → ℕ → ℕ → Parse ReplayParams
  unfolding check_lcore
  assign_tx r port queue nvme lcore = do
    guard (not (leb dpdk.max_nic_ports port || leb max_queues_per_nic_port queue)) 3
    guard (r.nic_tx_queue_mask port queue == 0) 4
    let lp = r.lcore_params lcore
    check_lcore r lcore lp.tx port queue
    ok (record r {
      nic_tx_queue_mask = update_at r.nic_tx_queue_mask port queue 1;
      nic_tx_queue_nvme = update_at r.nic_tx_queue_nvme port queue (u8 nvme);
      lcore_params =
          update r.lcore_params lcore
            (record lp { type = io; tx = lp.tx ++ nic_queue port queue ∷ [] });
    })

  -- The numbers of a tuple, when there are as many as there must be.
  unfoldable pub rx_tuple : ReplayParams → List ℕ → Parse ReplayParams
  unfolding assign_rx
  rx_tuple r (port ∷ queue ∷ lcore ∷ []) = assign_rx r port queue lcore
  rx_tuple r vs = fails 2

  unfoldable pub tx_tuple : ReplayParams → List ℕ → Parse ReplayParams
  unfolding assign_tx
  tx_tuple r (port ∷ queue ∷ nvme ∷ lcore ∷ []) = assign_tx r port queue nvme lcore
  tx_tuple r vs = fails 2

  -- The loop over the tuples of an argument: `num_vals` numbers each, given to `tuple`. It goes on
  -- from the closing bracket of the last one, so each round takes at least one character.
  unfoldable pub parse_tuples :
      (ReplayParams → List ℕ → Parse ReplayParams)
      → ℕ
      → ℕ
      → List ℕ
      → ReplayParams
      → ℕ
      → Parse (ReplayParams × ℕ)
  unfolding strchr text_before
  parse_tuples tuple num_vals zero p0 r n_tuples = undefined
  parse_tuples tuple num_vals (suc fuel) p0 r n_tuples = elim (strchr p0 b'(') [
    | none ↦ ok (r, n_tuples)
    | some p ↦ elim (strchr p b')') [
      | none ↦ fails 2
      | some p0' ↦ (do
        vals ← str_to_unsigned_vals dpdk (text_before (drop 1 p) b')') b',' num_vals
        r' ← tuple r vals
        guard (not (ltb arg_max_tuples (n_tuples + 1))) 10
        parse_tuples tuple num_vals fuel p0' r' (n_tuples + 1))
    ]
  ]

  -- `strnlen (arg, max + 1) == max + 1`
  abbrev pub too_long : List ℕ → ℕ → Bool
  too_long arg max = ltb max (length arg)

  unfoldable pub parse_arg_rx : List ℕ → ReplayParams → Parse ReplayParams
  parse_arg_rx arg r = do
    guard (not (too_long arg arg_max_chars)) 1
    (r', n_tuples) ← parse_tuples rx_tuple 3 (suc (length arg)) arg r 0
    guard (not (n_tuples == 0)) 11
    ok r'

  unfoldable pub parse_arg_tx : List ℕ → ReplayParams → Parse ReplayParams
  parse_arg_tx arg r = do
    guard (not (too_long arg arg_max_chars)) 1
    (r', n_tuples) ← parse_tuples tx_tuple 4 (suc (length arg)) arg r 0
    guard (not (n_tuples == 0)) 11
    ok r'

  -- The two numbers of `--rsz` and of `--bsz`.
  unfoldable pub two_values : List ℕ → Parse (ℕ × ℕ)
  two_values (a ∷ b ∷ []) = ok (a, b)
  two_values vs = fails 2

  unfoldable pub parse_arg_rsz : List ℕ → ReplayParams → Parse ReplayParams
  unfolding two_values
  parse_arg_rsz arg r = do
    guard (not (too_long arg arg_sizes_chars)) 1
    vals ← str_to_unsigned_vals dpdk arg b',' 2
    (rx, tx) ← two_values vals
    guard (not (rx == 0 || tx == 0)) 3
    ok (record r { nic_rx_ring_size = rx; nic_tx_ring_size = tx })

  unfoldable pub parse_arg_bsz : List ℕ → ReplayParams → Parse ReplayParams
  unfolding two_values
  parse_arg_bsz arg r = do
    guard (not (too_long arg arg_sizes_chars)) 1
    vals ← str_to_unsigned_vals dpdk arg b',' 2
    (rx, tx) ← two_values vals
    guard (not (rx == 0 || tx == 0)) 7
    guard (not (ltb mbuf_array_size rx || ltb mbuf_array_size tx)) 8
    ok (record r { burst_size_io_rx_read = rx; burst_size_io_tx_write = tx })

  -- It says "TODO OPENING" and ends the program.
  unfoldable pub parse_arg_ifile : List ℕ → ReplayParams → Parse ReplayParams
  parse_arg_ifile arg r = exits
