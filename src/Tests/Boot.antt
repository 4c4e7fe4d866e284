-- ===== src/Tests/Boot.antt =====
-- Controllers that SPDK finds.
use nvme_dpdk_pcapreplay.Prelude.{ℕ, ◌+◌, ◌≡◌, true, false, none, some, List, [], ◌∷◌, arith}
use nvme_dpdk_pcapreplay.Layout.{NvmeRaid}
use nvme_dpdk_pcapreplay.Start.{Namespace, Controller, my_raid, probe}
use nvme_dpdk_pcapreplay.Start.Attached.{Holds, probe-my_raid-Holds}
use nvme_dpdk_pcapreplay.Start.Overrun.{probe-past_array}

abbrev active_ns : ℕ → Namespace
active_ns k = record { ns = k; is_active = true; num_sectors = 5000; io_qpair = some (k + 100) }

-- The second one is inactive, and the third one has no queue pair.
abbrev pub three : Controller
three = record {
  ctrlr = 1;
  namespaces =
      active_ns 1
      ∷ record (active_ns 2) { is_active = false }
      ∷ record (active_ns 3) { io_qpair = none }
      ∷ [];
}

abbrev pub one : Controller
one = record { ctrlr = 2; namespaces = active_ns 4 ∷ [] }

probe-my_raid-Holds_example :
    (raid : NvmeRaid) × (probe (three ∷ one ∷ []) my_raid ≡ some raid)
    × Holds raid ((1, 1, 101) ∷ (2, 4, 104) ∷ []) 10000
probe-my_raid-Holds_example = probe-my_raid-Holds (three ∷ one ∷ []) (omega arith)

abbrev nine : List Controller
nine = one ∷ one ∷ one ∷ one ∷ one ∷ one ∷ one ∷ one ∷ one ∷ []

probe-past_array_example : probe nine my_raid ≡ none
probe-past_array_example = probe-past_array nine (omega arith)
