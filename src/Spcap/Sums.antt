-- ===== src/Spcap/Sums.antt =====
-- src/spcap.c: sums over the disks of a raid.
use nvme_dpdk_pcapreplay.Prelude.{
  ℕ, zero, suc, ◌+◌, ◌≤◌, ◌<◌, ◌≡◌, ◌≢◌, refl, inl, inr, false, arith, ◌==◌, Bool-cases,
}
use nvme_dpdk_pcapreplay.Spcap.Unflushed.{grown}

-- The sum over the disks below `n`.
abbrev pub sum : (ℕ → ℕ) → ℕ → ℕ
sum f zero = 0
sum f (suc n) = f n + sum f n

pub sum-≡ : (f g : ℕ → ℕ) (n : ℕ) → ((j : ℕ) → f j ≡ g j) → sum f n ≡ sum g n
sum-≡ f g zero e = refl
sum-≡ f g (suc n) e = omega (arith, e n, sum-≡ f g n e)

pub sum-≤ : (f g : ℕ → ℕ) (n : ℕ) → ((j : ℕ) → j < n → f j ≤ g j) → sum f n ≤ sum g n
sum-≤ f g zero le = omega arith
sum-≤ f g (suc n) le = omega (arith, le n (omega arith), sum-≤ f g n (λ j lt. le j (omega arith)))

sum-past : (f : ℕ → ℕ) (d k n : ℕ) → n ≤ d → sum (grown f d k) n ≡ sum f n
sum-past f d k zero le = refl
sum-past f d k (suc n) le =
    let off : (n == d) ≡ false = ground arith in
    let rest = sum-past f d k n (omega arith) in rw off (omega (arith, rest))

pub sum-grown : (f : ℕ → ℕ) (d k n : ℕ) → d < n → sum (grown f d k) n ≡ sum f n + k
sum-grown f d k zero lt = absurd (omega arith)
sum-grown f d k (suc n) lt = elim (Bool-cases (n == d)) [
  | inl here ↦
      let is : n ≡ d = ground (arith, here) in
      rw here (omega (arith, sum-past f d k n (omega arith)))
  | inr off ↦
      let past : n ≢ d = λ e. ground arith in
      rw off (omega (arith, sum-grown f d k n (omega arith)))
]
