-- ===== src/Tools/Programs.antt =====
-- The programs rm, ls, format and cp as `main` of src/main.c is linked with them.
pub mod New
pub mod Found
pub mod Runs
use nvme_dpdk_pcapreplay.Prelude.{
  ℕ, Option, none, some, List, Outcome, done, exits, hangs, overruns,
}
use nvme_dpdk_pcapreplay.Layout.{NvmeRaid}
use nvme_dpdk_pcapreplay.Driver.{Driver, Io, return}
use nvme_dpdk_pcapreplay.Start.{App}
use nvme_dpdk_pcapreplay.Tools.{rm_app_run}
use nvme_dpdk_pcapreplay.Tools.Cp.{Files, CpOpt, no_params, cp_app_config, cp_app_run}
use nvme_dpdk_pcapreplay.Tools.Ls.{format_app_init}
use nvme_dpdk_pcapreplay.Tools.Options.{
  CommandLine, rm_app_config, ls_app_config, format_app_config,
}

-- A tool by the three functions that it gives to `main`.
abbrev pub tool :
    {A : Type 0} → Outcome A → (NvmeRaid → Io NvmeRaid) → (A → NvmeRaid → Io NvmeRaid) → App
tool config init run = elim config [
  | done a ↦ record { app_config = none; app_init = init; app_run = run a }
  | exits c ↦ record { app_config = some c; app_init = init; app_run = λ raid. return raid }
  | hangs ↦ record { app_config = none; app_init = λ raid s. hangs; app_run = λ raid. return raid }
  | overruns ↦ record {
    app_config = none;
    app_init = λ raid s. overruns;
    app_run = λ raid. return raid;
  }
]

-- `app_init` of rm, ls and cp, and `app_run` of ls (which prints) and format.
abbrev pub nothing : NvmeRaid → Io NvmeRaid
nothing raid = return raid

unfoldable pub rm_app : Driver → CommandLine → App
unfolding rm_app_config rm_app_run
rm_app D line = tool (rm_app_config line) nothing (rm_app_run D)

unfoldable pub ls_app : CommandLine → App
unfolding ls_app_config
ls_app line = tool (ls_app_config line) nothing (λ files. nothing)

unfoldable pub format_app : Driver → List ℕ → App
unfolding format_app_config format_app_init
format_app D options = tool (format_app_config options) (format_app_init D) (λ x. nothing)

unfoldable pub cp_app : Driver → Files → (ℕ → ℕ) → List CpOpt → App
unfolding cp_app_config cp_app_run
cp_app D fs memory options = tool (cp_app_config options no_params) nothing (cp_app_run D fs memory)
