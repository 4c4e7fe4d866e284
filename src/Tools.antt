-- ===== src/Tools.antt =====
-- src/rm/rm.c, `app_run`: the files named on the command line are deleted one by one.
pub mod Removed
pub mod Cp
pub mod Ls
pub mod Options
pub mod Programs
use nvme_dpdk_pcapreplay.Prelude.{ℕ, List, [], ◌∷◌}
use nvme_dpdk_pcapreplay.Layout.{NvmeRaid}
use nvme_dpdk_pcapreplay.Driver.{Driver, Io, ◌>>=◌, return}
use nvme_dpdk_pcapreplay.Fs.{del_file}

module _ (D : Driver) where
  -- What `delFile` returns is only printed.
  unfoldable pub rm_app_run : List (List ℕ) → NvmeRaid → Io NvmeRaid
  rm_app_run [] raid = return raid
  rm_app_run (file ∷ files) raid =
      del_file D raid file >>= λ (deleted, raid'). rm_app_run files raid'
