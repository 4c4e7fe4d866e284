-- ===== src/Replay/Args/Mandatory.antt =====
-- src/replay/config.c: the mandatory option `--ifile`.
use nvme_dpdk_pcapreplay.Prelude.{◌≡◌, ◌≢◌, refl, false, Option, List, [], ◌∷◌, ℕ, arith, ◌&&◌}
use nvme_dpdk_pcapreplay.Replay.Params.{Dpdk, ReplayParams}
use nvme_dpdk_pcapreplay.Replay.Numbers.{ok, guard, >>=-eq-ok}
use nvme_dpdk_pcapreplay.Replay.Args.{
  parse_arg_rx, parse_arg_tx, parse_arg_rsz, parse_arg_bsz, parse_arg_ifile,
}
use nvme_dpdk_pcapreplay.Replay.Options.{
  Opt, c_opt, rx_opt, tx_opt, rsz_opt, bsz_opt, ifile_opt, bad_opt, Given, none_given, or_minus_one,
  parse_option, parse_options, replay_parse_args,
}

module _ (dpdk : Dpdk) where
  -- No option that is read without a mistake sets `arg_ifile`.
  arg_ifile-parse_option :
      (o : Opt) (g : Given) (r : ReplayParams) (out : Given × ReplayParams)
      → g.arg_ifile ≡ false
      → parse_option dpdk o g r ≡ ok out
      → out.0.arg_ifile ≡ false
  unfolding parse_option parse_arg_ifile
  arg_ifile-parse_option (c_opt a) g r out h e = ground arith
  arg_ifile-parse_option (rx_opt a) g r out h e =
      let (r', got, is) = >>=-eq-ok (or_minus_one (parse_arg_rx dpdk a r)) _ e in ground arith
  arg_ifile-parse_option (tx_opt a) g r out h e =
      let (r', got, is) = >>=-eq-ok (or_minus_one (parse_arg_tx dpdk a r)) _ e in ground arith
  arg_ifile-parse_option (rsz_opt a) g r out h e =
      let (r', got, is) = >>=-eq-ok (or_minus_one (parse_arg_rsz dpdk a r)) _ e in ground arith
  arg_ifile-parse_option (bsz_opt a) g r out h e =
      let (r', got, is) = >>=-eq-ok (or_minus_one (parse_arg_bsz dpdk a r)) _ e in ground arith
  arg_ifile-parse_option (ifile_opt a) g r out h e = cc
  arg_ifile-parse_option bad_opt g r out h e = cc

  arg_ifile-parse_options :
      (os : List Opt) (g : Given) (r : ReplayParams) (out : Given × ReplayParams)
      → g.arg_ifile ≡ false
      → parse_options dpdk os g r ≡ ok out
      → out.0.arg_ifile ≡ false
  unfolding parse_options
  arg_ifile-parse_options [] g r out h e = ground arith
  arg_ifile-parse_options (o ∷ os) g r out h e =
      let (next, one, e1) = >>=-eq-ok (parse_option dpdk o g r) _ e in
      arg_ifile-parse_options os next.0 next.1 out (arg_ifile-parse_option o g r next h one) e1

-- No options whatever make `replay_parse_args` succeed: it wants `--ifile`, and reading `--ifile`
-- ends the program.
pub replay_parse_args-ne-ok :
    (dpdk : Dpdk) (os : List Opt) (r : ReplayParams) (out : Option (List ℕ) × ReplayParams)
    → replay_parse_args dpdk os r ≢ ok out
unfolding replay_parse_args
replay_parse_args-ne-ok dpdk os r out e =
    let (read, got, e1) = >>=-eq-ok (parse_options dpdk os none_given r) _ e in
    let no_file : read.0.arg_ifile ≡ false =
      arg_ifile-parse_options dpdk os none_given r read refl got in
    let (_, all_there, e2) =
      >>=-eq-ok (guard (read.0.arg_rx && (read.0.arg_tx && read.0.arg_ifile)) 1) _ e1 in
    ground arith
