-- ===== src/Replay/Options.antt =====
-- src/replay/config.c, `replay_parse_args`: the options in their order, and the defaults.
use nvme_dpdk_pcapreplay.Prelude.{
  ℕ, Bool, true, false, Option, none, some, List, [], ◌∷◌, if◌then◌else◌, ◌&&◌,
}
use nvme_dpdk_pcapreplay.Replay.Params.{Dpdk, ReplayParams, default_ring_size, default_burst_size}
use nvme_dpdk_pcapreplay.Replay.Numbers.{Parse, ok, fails, exits, undefined, ◌>>=◌, ◌>>◌, guard}
use nvme_dpdk_pcapreplay.Replay.Args.{
  parse_arg_rx, parse_arg_tx, parse_arg_rsz, parse_arg_bsz, parse_arg_ifile,
}

-- What getopt_long hands over: one of the options of `lgopts` with its argument, or a mistake.
pub data Opt : Type 0 where
  c_opt rx_opt tx_opt rsz_opt bsz_opt ifile_opt : List ℕ → Opt
  bad_opt : Opt

-- The five `arg_` flags of `replay_parse_args`, and the core mask that `--c` sets.
pub record Given : Type 0 where
  pub arg_rx : Bool
  pub arg_tx : Bool
  pub arg_rsz : Bool
  pub arg_bsz : Bool
  pub arg_ifile : Bool
  pub core_mask : Option (List ℕ)

abbrev pub none_given : Given
none_given = record {
  arg_rx = false;
  arg_tx = false;
  arg_rsz = false;
  arg_bsz = false;
  arg_ifile = false;
  core_mask = none;
}

-- `if (ret) return -1;`
abbrev pub or_minus_one {ℓ} : {A : Type ℓ} → Parse A → Parse A
or_minus_one (ok a) = ok a
or_minus_one (fails k) = fails 1
or_minus_one exits = exits
or_minus_one undefined = undefined

module _ (dpdk : Dpdk) where
  -- One round of the getopt_long loop.
  unfoldable pub parse_option : Opt → Given → ReplayParams → Parse (Given × ReplayParams)
  parse_option (c_opt a) g r = ok (record g { core_mask = some a }, r)
  parse_option (rx_opt a) g r = do
    r' ← or_minus_one (parse_arg_rx dpdk a r)
    ok (record g { arg_rx = true }, r')
  parse_option (tx_opt a) g r = do
    r' ← or_minus_one (parse_arg_tx dpdk a r)
    ok (record g { arg_tx = true }, r')
  parse_option (rsz_opt a) g r = do
    r' ← or_minus_one (parse_arg_rsz dpdk a r)
    ok (record g { arg_rsz = true }, r')
  parse_option (bsz_opt a) g r = do
    r' ← or_minus_one (parse_arg_bsz dpdk a r)
    ok (record g { arg_bsz = true }, r')
  parse_option (ifile_opt a) g r = do
    r' ← or_minus_one (parse_arg_ifile dpdk a r)
    ok (record g { arg_ifile = true }, r')
  parse_option bad_opt g r = fails 1

  unfoldable pub parse_options : List Opt → Given → ReplayParams → Parse (Given × ReplayParams)
  parse_options [] g r = ok (g, r)
  parse_options (o ∷ os) g r = do (g', r') ← parse_option o g r; parse_options os g' r'

  -- The defaults for what was not given.
  unfoldable pub with_defaults : Given → ReplayParams → ReplayParams
  with_defaults g r =
      let r1 : ReplayParams =
        (if g.arg_rsz then r else record r {
          nic_rx_ring_size = default_ring_size;
          nic_tx_ring_size = default_ring_size;
        }) in
      if g.arg_bsz then r1 else record r1 {
        burst_size_io_rx_read = default_burst_size;
        burst_size_io_tx_write = default_burst_size;
      }

  -- `replay_parse_args` on the options in their order; its result is the core mask and `replay`.
  unfoldable pub replay_parse_args :
      List Opt → ReplayParams → Parse (Option (List ℕ) × ReplayParams)
  unfolding with_defaults
  replay_parse_args opts r = do
    (g, r') ← parse_options opts none_given r
    guard (g.arg_rx && (g.arg_tx && g.arg_ifile)) 1
    ok (g.core_mask, with_defaults g r')
