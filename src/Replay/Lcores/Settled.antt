-- ===== src/Replay/Lcores/Settled.antt =====
-- src/replay/runtime.c: how often a buffer is freed, and how often it should be.
use nvme_dpdk_pcapreplay.Prelude.{ℕ, ◌+◌, ◌-◌, ◌≡◌, List, [], ◌∷◌, ◌==◌, if◌then◌else◌}
use nvme_dpdk_pcapreplay.Replay.Nic.{EthCall, rx_burst, tx_burst, buffer_free, Nic, Nics}

abbrev pub same : ℕ → ℕ → ℕ
same a b = if a == b then 1 else 0

abbrev pub occurrences : ℕ → List ℕ → ℕ
occurrences b [] = 0
occurrences b (p ∷ ps) = same p b + occurrences b ps

-- How often a buffer was freed.
abbrev pub freed : ℕ → List EthCall → ℕ
freed b [] = 0
freed b (buffer_free p ∷ h) = same p b + freed b h
freed b (c ∷ h) = freed b h

-- How often it was received, and how many of the packets of its bursts were not sent.
abbrev pub owed : Nic → ℕ → List EthCall → ℕ
owed nic b [] = 0
owed nic b (rx_burst port queue n ∷ h) =
    occurrences b (nic.received (rx_burst port queue n ∷ h)) + owed nic b h
owed nic b (tx_burst port queue p n ∷ h) =
    (if p == b then n - nic.sent (tx_burst port queue p n ∷ h) else 0) + owed nic b h
owed nic b (c ∷ h) = owed nic b h

-- Every buffer was freed as often as it was received or not sent.
abbrev pub Settled : Nic → Nics → Type 0
Settled nic s = (b : ℕ) → freed b s.calls ≡ owed nic b s.calls
