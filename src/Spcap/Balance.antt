-- ===== src/Spcap/Balance.antt =====
-- src/spcap.c, `spcapDstDisk`: which NVMe the next packet goes to.
use nvme_dpdk_pcapreplay.Prelude.{
  ℕ, zero, suc, ◌+◌, ◌≤◌, ◌<◌, ◌≡◌, ◌⊎◌, inl, inr, arith, ltb, Bool-cases,
}
use mathlib.Core.Path.{subst}
use nvme_dpdk_pcapreplay.Spcap.{Spcap, least_from, spcap_dst_disk}

-- `d` is the first of the first `n` places where `f` is least.
pub record IsFirstLeast (f : ℕ → ℕ) (n d : ℕ) : Type 0 where
  pub below : d < n
  pub least : (j : ℕ) → j < n → f d ≤ f j
  pub first : (j : ℕ) → j < d → f d < f j

-- The loop keeps the first least place of those it has seen.
least_from-IsFirstLeast :
    (f : ℕ → ℕ) (n i d : ℕ)
    → ((j : ℕ) → j < i → f d ≤ f j)
    → ((j : ℕ) → j < d → f d < f j)
    → d < i + n
    → IsFirstLeast f (i + n) (least_from f n i (f d) d)
unfolding least_from
least_from-IsFirstLeast f zero i d least first below = record {
  below = below;
  least = λ j lt. least j (omega arith);
  first = first;
}
least_from-IsFirstLeast f (suc n) i d least first below =
    let goal : ℕ → Type 0 = λ m. IsFirstLeast f m (least_from f (suc n) i (f d) d) in
    let counts : suc i + n ≡ i + suc n = omega arith in
    subst goal counts (elim (Bool-cases (ltb (f i) (f d))) [
      | inl less ↦ rw (less) (
          least_from-IsFirstLeast f n (suc i) i (λ j lt. moved j lt (ground arith))
            (λ j lt.
              (let _le : f d ≤ f j = least j lt in
                let _lt : f i < f d = ground arith in omega arith))
            (omega arith))
      | inr more ↦ rw (more) (
          least_from-IsFirstLeast f n (suc i) d (λ j lt. kept j lt (ground arith)) first
            (omega arith))
    ])
  where
    earlier : (j : ℕ) → j < suc i → (j < i) ⊎ (i ≡ j)
    earlier j lt = elim (Bool-cases (ltb j i)) [
      | inl before ↦ inl (ground arith)
      | inr same ↦ inr (ground arith)
    ]

    moved : (j : ℕ) → j < suc i → f i < f d → f i ≤ f j
    moved j lt less = elim (earlier j lt) [
      | inl before ↦ (let _le : f d ≤ f j = least j before in omega arith)
      | inr same ↦ subst (λ k. f i ≤ f k) same (omega arith)
    ]

    kept : (j : ℕ) → j < suc i → f d ≤ f i → f d ≤ f j
    kept j lt le = elim (earlier j lt) [
      | inl before ↦ least j before
      | inr same ↦ subst (λ k. f d ≤ f k) same le
    ]

-- On a raid that has a disk, `spcapDstDisk` returns one of its disks: the first of those that the
-- fewest bytes have been given to.
pub spcap_dst_disk-IsFirstLeast :
    (sp : Spcap)
    → 0 < sp.raid.numdisks
    → IsFirstLeast sp.data_wrote sp.raid.numdisks (spcap_dst_disk sp)
unfolding spcap_dst_disk
spcap_dst_disk-IsFirstLeast sp some_disk =
    let goal : ℕ → Type 0 = λ m. IsFirstLeast sp.data_wrote m (spcap_dst_disk sp) in
    let counts : 0 + sp.raid.numdisks ≡ sp.raid.numdisks = omega arith in
    subst goal counts (
      least_from-IsFirstLeast sp.data_wrote sp.raid.numdisks 0 0 (λ j lt. absurd (omega arith))
        (λ j lt. absurd (omega arith)) (omega arith))
