-- ===== src/Tests/Config.antt =====
-- Arguments of the replay program.
use nvme_dpdk_pcapreplay.Prelude.{
  is_some, ℕ, ◌≡◌, ◌≢◌, refl, true, none, List, [], ◌∷◌, ◌++◌, ◌==◌, if◌then◌else◌, arith,
}
use nvme_dpdk_pcapreplay.Replay.Params.{Dpdk, ReplayParams, initial, io, update, update_at}
use nvme_dpdk_pcapreplay.Replay.Numbers.{ok, str_to_unsigned_vals}
use nvme_dpdk_pcapreplay.Replay.Args.{
  parse_arg_rx, parse_arg_tx, parse_tuples, rx_tuple, tx_tuple, has_queue, nic_queue,
}
use nvme_dpdk_pcapreplay.Replay.Options.{
  Opt, rx_opt, tx_opt, Given, none_given, parse_options, parse_option, replay_parse_args,
}
use nvme_dpdk_pcapreplay.Replay.Args.Queues.{IsConfig}
use nvme_dpdk_pcapreplay.Replay.Args.Config.{parse_options-IsConfig}
use nvme_dpdk_pcapreplay.Replay.Sides.{sending_side}
use nvme_dpdk_pcapreplay.Replay.Report.{replay_print_params}
use nvme_dpdk_pcapreplay.Replay.Report.Said.{lists_queue, printed_lcores, only}
use nvme_dpdk_pcapreplay.Replay.Report.Agrees.{lcore_for, replay_print_params-parse_options}
use nvme_dpdk_pcapreplay.Replay.Args.Mandatory.{replay_parse_args-ne-ok}

-- The pieces of a text between the separators, with room for `n`.
abbrev pieces : ℕ → ℕ → List ℕ → List ℕ → List (List ℕ)
pieces c n piece [] = piece ∷ []
pieces c n piece (x ∷ xs) =
    let more = pieces c n [] xs in
    let same = pieces c n (piece ++ x ∷ []) xs in if x == c then piece ∷ more else same

abbrev pub small_dpdk : Dpdk
small_dpdk = record {
  max_nic_ports = 4;
  max_lcores = 8;
  lcore_is_enabled = λ lcore. true;
  lcore_to_socket_id = λ lcore. 0;
  strsplit = λ s n c. pieces c n [] s;
}

-- "(1,0,2)"
abbrev rx_text : List ℕ
rx_text = b'(' ∷ b'1' ∷ b',' ∷ b'0' ∷ b',' ∷ b'2' ∷ b')' ∷ []

-- "(1,0,0,3)"
abbrev tx_text : List ℕ
tx_text = b'(' ∷ b'1' ∷ b',' ∷ b'0' ∷ b',' ∷ b'0' ∷ b',' ∷ b'3' ∷ b')' ∷ []

abbrev pub options : List Opt
options = rx_opt rx_text ∷ tx_opt tx_text ∷ []

abbrev pub given : Given
given = record none_given { arg_rx = true; arg_tx = true }

abbrev after_rx : ReplayParams
after_rx = record initial {
  nic_rx_queue_mask = update_at initial.nic_rx_queue_mask 1 0 1;
  lcore_params =
      update initial.lcore_params 2 (record { type = io; rx = nic_queue 1 0 ∷ []; tx = [] });
}

abbrev pub configured : ReplayParams
configured = record after_rx {
  nic_tx_queue_mask = update_at initial.nic_tx_queue_mask 1 0 1;
  nic_tx_queue_nvme = update_at initial.nic_tx_queue_nvme 1 0 0;
  lcore_params =
      update after_rx.lcore_params 3 (record { type = io; rx = []; tx = nic_queue 1 0 ∷ [] });
}

pub reads_options : parse_options small_dpdk options none_given initial ≡ ok (given, configured)
unfolding parse_options parse_option parse_arg_rx parse_arg_tx parse_tuples rx_tuple tx_tuple
    str_to_unsigned_vals has_queue
reads_options = refl

pub configured-IsConfig : IsConfig small_dpdk configured
configured-IsConfig =
    parse_options-IsConfig small_dpdk options given configured (omega arith) reads_options

parse_options-IsConfig_example : IsConfig small_dpdk configured
parse_options-IsConfig_example =
    parse_options-IsConfig small_dpdk options given configured (omega arith) reads_options

replay_parse_args-ne-ok_example :
    replay_parse_args small_dpdk options initial ≢ ok (none, configured)
replay_parse_args-ne-ok_example =
    replay_parse_args-ne-ok small_dpdk options initial (none, configured)

replay_print_params-parse_options_example :
    (printed_lcores sending_side 1 0 (replay_print_params small_dpdk configured)
      ≡ only (lcore_for small_dpdk configured sending_side 1 0))
    × (lists_queue sending_side 1 0 (replay_print_params small_dpdk configured)
        ≡ is_some (lcore_for small_dpdk configured sending_side 1 0))
replay_print_params-parse_options_example =
    replay_print_params-parse_options small_dpdk options given configured sending_side 1 0
      (omega arith) reads_options
