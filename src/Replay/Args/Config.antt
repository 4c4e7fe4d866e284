-- ===== src/Replay/Args/Config.antt =====
-- src/replay/config.c: what the arguments make of the configuration, option by option.
use nvme_dpdk_pcapreplay.Prelude.{
  ℕ, suc, ◌^◌, ◌≤◌, ◌≡◌, List, [], ◌∷◌, arith, ltb, ◌==◌, ◌||◌, length, not,
}
use mathlib.Core.Path.{subst}
use nvme_dpdk_pcapreplay.Replay.Params.{Dpdk, ReplayParams, initial, mbuf_array_size}
use nvme_dpdk_pcapreplay.Replay.Numbers.{
  Parse, ok, fails, exits, undefined, guard, str_to_unsigned_vals, >>=-eq-ok,
}
use nvme_dpdk_pcapreplay.Replay.Args.{
  rx_tuple, tx_tuple, parse_tuples, parse_arg_rx, parse_arg_tx, parse_arg_rsz, parse_arg_bsz,
  parse_arg_ifile, two_values, too_long, arg_max_chars, arg_sizes_chars,
}
use nvme_dpdk_pcapreplay.Replay.Options.{
  Opt, c_opt, rx_opt, tx_opt, rsz_opt, bsz_opt, ifile_opt, bad_opt, Given, none_given, or_minus_one,
  parse_option, parse_options,
}
use nvme_dpdk_pcapreplay.Replay.Args.Queues.{
  initial-IsConfig, IsConfig, rx_tuple-IsConfig, tx_tuple-IsConfig,
}
use nvme_dpdk_pcapreplay.Replay.Args.Tuples.{tuples-keep}

module _ (dpdk : Dpdk) (small : dpdk.max_nic_ports ≤ 2 ^ 8) where
  parse_arg_rx-IsConfig :
      (arg : List ℕ) (r r' : ReplayParams)
      → IsConfig dpdk r
      → parse_arg_rx dpdk arg r ≡ ok r'
      → IsConfig dpdk r'
  unfolding parse_arg_rx
  parse_arg_rx-IsConfig arg r r' v e =
      let (_, short, e1) = >>=-eq-ok (guard (not (too_long dpdk arg arg_max_chars)) 1) _ e in
      let (out, got, e2) =
        >>=-eq-ok (parse_tuples dpdk (rx_tuple dpdk) 3 (suc (length arg)) arg r 0) _ e1 in
      let (_, some_tuple, e3) = >>=-eq-ok (guard (not (out.1 == 0)) 11) _ e2 in
      let is : out.0 ≡ r' = cc in
      subst (IsConfig dpdk) is
        (tuples-keep dpdk (rx_tuple dpdk) 3 (IsConfig dpdk) (rx_tuple-IsConfig dpdk small)
          (suc (length arg)) arg r 0 out v (omega arith) got).0

  parse_arg_tx-IsConfig :
      (arg : List ℕ) (r r' : ReplayParams)
      → IsConfig dpdk r
      → parse_arg_tx dpdk arg r ≡ ok r'
      → IsConfig dpdk r'
  unfolding parse_arg_tx
  parse_arg_tx-IsConfig arg r r' v e =
      let (_, short, e1) = >>=-eq-ok (guard (not (too_long dpdk arg arg_max_chars)) 1) _ e in
      let (out, got, e2) =
        >>=-eq-ok (parse_tuples dpdk (tx_tuple dpdk) 4 (suc (length arg)) arg r 0) _ e1 in
      let (_, some_tuple, e3) = >>=-eq-ok (guard (not (out.1 == 0)) 11) _ e2 in
      let is : out.0 ≡ r' = cc in
      subst (IsConfig dpdk) is
        (tuples-keep dpdk (tx_tuple dpdk) 4 (IsConfig dpdk) (tx_tuple-IsConfig dpdk small)
          (suc (length arg)) arg r 0 out v (omega arith) got).0

  -- The sizes have nothing to do with the queues.
  parse_arg_rsz-IsConfig :
      (arg : List ℕ) (r r' : ReplayParams)
      → IsConfig dpdk r
      → parse_arg_rsz dpdk arg r ≡ ok r'
      → IsConfig dpdk r'
  unfolding parse_arg_rsz
  parse_arg_rsz-IsConfig arg r r' v e =
      let (_, short, e1) = >>=-eq-ok (guard (not (too_long dpdk arg arg_sizes_chars)) 1) _ e in
      let (vals, got, e2) = >>=-eq-ok (str_to_unsigned_vals dpdk arg b',' 2) _ e1 in
      let (sizes, two, e3) = >>=-eq-ok (two_values dpdk vals) _ e2 in
      let (_, right, e4) = >>=-eq-ok (guard (not (sizes.0 == 0 || sizes.1 == 0)) 3) _ e3 in
      let is : record r { nic_rx_ring_size = sizes.0; nic_tx_ring_size = sizes.1 } ≡ r' = cc in
      subst (IsConfig dpdk) is (record { rx = v.rx; tx = v.tx })

  parse_arg_bsz-IsConfig :
      (arg : List ℕ) (r r' : ReplayParams)
      → IsConfig dpdk r
      → parse_arg_bsz dpdk arg r ≡ ok r'
      → IsConfig dpdk r'
  unfolding parse_arg_bsz
  parse_arg_bsz-IsConfig arg r r' v e =
      let (_, short, e1) = >>=-eq-ok (guard (not (too_long dpdk arg arg_sizes_chars)) 1) _ e in
      let (vals, got, e2) = >>=-eq-ok (str_to_unsigned_vals dpdk arg b',' 2) _ e1 in
      let (sizes, two, e3) = >>=-eq-ok (two_values dpdk vals) _ e2 in
      let (_, right, e4) = >>=-eq-ok (guard (not (sizes.0 == 0 || sizes.1 == 0)) 7) _ e3 in
      let (_, small', e5) =
        >>=-eq-ok (guard (not (ltb mbuf_array_size sizes.0 || ltb mbuf_array_size sizes.1)) 8) _
          e4 in
      let is : record r { burst_size_io_rx_read = sizes.0; burst_size_io_tx_write = sizes.1 } ≡ r' =
        cc in
      subst (IsConfig dpdk) is (record { rx = v.rx; tx = v.tx })

  or_minus_one-ok : {A : Type 0} (m : Parse A) {a : A} → or_minus_one m ≡ ok a → m ≡ ok a
  or_minus_one-ok (ok a) e = e
  or_minus_one-ok (fails k) e = cc
  or_minus_one-ok exits e = cc
  or_minus_one-ok undefined e = cc

  parse_option-IsConfig :
      (o : Opt) (g : Given) (r : ReplayParams) (out : Given × ReplayParams)
      → IsConfig dpdk r
      → parse_option dpdk o g r ≡ ok out
      → IsConfig dpdk out.1
  unfolding parse_option parse_arg_ifile
  parse_option-IsConfig (c_opt a) g r out v e = subst (IsConfig dpdk) (cc) v
  parse_option-IsConfig (rx_opt a) g r out v e =
      let (r', got, is) = >>=-eq-ok (or_minus_one (parse_arg_rx dpdk a r)) _ e in
      let same : r' ≡ out.1 = cc in
      subst (IsConfig dpdk) same (parse_arg_rx-IsConfig a r r' v (or_minus_one-ok _ got))
  parse_option-IsConfig (tx_opt a) g r out v e =
      let (r', got, is) = >>=-eq-ok (or_minus_one (parse_arg_tx dpdk a r)) _ e in
      let same : r' ≡ out.1 = cc in
      subst (IsConfig dpdk) same (parse_arg_tx-IsConfig a r r' v (or_minus_one-ok _ got))
  parse_option-IsConfig (rsz_opt a) g r out v e =
      let (r', got, is) = >>=-eq-ok (or_minus_one (parse_arg_rsz dpdk a r)) _ e in
      let same : r' ≡ out.1 = cc in
      subst (IsConfig dpdk) same (parse_arg_rsz-IsConfig a r r' v (or_minus_one-ok _ got))
  parse_option-IsConfig (bsz_opt a) g r out v e =
      let (r', got, is) = >>=-eq-ok (or_minus_one (parse_arg_bsz dpdk a r)) _ e in
      let same : r' ≡ out.1 = cc in
      subst (IsConfig dpdk) same (parse_arg_bsz-IsConfig a r r' v (or_minus_one-ok _ got))
  parse_option-IsConfig (ifile_opt a) g r out v e = cc
  parse_option-IsConfig bad_opt g r out v e = cc

  parse_options-keep :
      (os : List Opt) (g : Given) (r : ReplayParams) (out : Given × ReplayParams)
      → IsConfig dpdk r
      → parse_options dpdk os g r ≡ ok out
      → IsConfig dpdk out.1
  unfolding parse_options
  parse_options-keep [] g r out v e = subst (IsConfig dpdk) (cc) v
  parse_options-keep (o ∷ os) g r out v e =
      let (next, one, e1) = >>=-eq-ok (parse_option dpdk o g r) _ e in
      parse_options-keep os next.0 next.1 out (parse_option-IsConfig o g r next v one) e1

-- With at most 256 ports, whatever options are read without a mistake, in any order and number, each
-- queue that is then switched on, for receiving or for sending, is in range and is handled by exactly
-- one lcore, an I/O lcore below the limit; an lcore has no queue that is off, and at most sixteen on
-- either side.
pub parse_options-IsConfig :
    (dpdk : Dpdk) (os : List Opt) (g : Given) (r : ReplayParams)
    → dpdk.max_nic_ports ≤ 2 ^ 8
    → parse_options dpdk os none_given initial ≡ ok (g, r)
    → IsConfig dpdk r
parse_options-IsConfig dpdk os g r small e =
    parse_options-keep dpdk small os none_given initial (g, r) (initial-IsConfig dpdk) e
