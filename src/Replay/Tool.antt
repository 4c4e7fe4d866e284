-- ===== src/Replay/Tool.antt =====
-- src/replay/replay.c: `app_config` and `app_init` of the replay program.
use nvme_dpdk_pcapreplay.Prelude.{List}
use nvme_dpdk_pcapreplay.Replay.Params.{Dpdk, ReplayParams, initial}
use nvme_dpdk_pcapreplay.Replay.Numbers.{Parse, ok, fails, exits, undefined}
use nvme_dpdk_pcapreplay.Replay.Options.{Opt, replay_parse_args}
use nvme_dpdk_pcapreplay.Replay.Nic.{Nic, Nio, ◌>>◌, return}
use nvme_dpdk_pcapreplay.Replay.Report.{ReportLine, replay_print_params}
use nvme_dpdk_pcapreplay.Replay.Init.{replay_init}

-- `app_config`: after a mistake the usage is printed and the program ends.
unfoldable pub replay_app_config : Dpdk → List Opt → Parse ReplayParams
replay_app_config dpdk options = elim (replay_parse_args dpdk options initial) [
  | ok (mask, r) ↦ ok r
  | fails k ↦ exits
  | exits ↦ exits
  | undefined ↦ undefined
]

-- `app_init`, with the lines that it prints.
unfoldable pub replay_app_init : Dpdk → Nic → ReplayParams → Nio (List ReportLine)
replay_app_init dpdk nic r = replay_init dpdk nic r >> return (replay_print_params dpdk r)
