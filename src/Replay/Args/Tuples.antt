-- ===== src/Replay/Args/Tuples.antt =====
-- src/replay/config.c: the loop over the tuples of `--rx` and `--tx`.
use nvme_dpdk_pcapreplay.Prelude.{
  ℕ, zero, suc, ◌+◌, ◌≤◌, ◌≡◌, ◌⊎◌, inl, inr, List, arith, ltb, not, Option-cases, drop,
}
use nvme_dpdk_pcapreplay.Replay.Params.{Dpdk, ReplayParams}
use nvme_dpdk_pcapreplay.Replay.Numbers.{Parse, ok, guard, str_to_unsigned_vals, >>=-eq-ok}
use nvme_dpdk_pcapreplay.Replay.Args.{parse_tuples, strchr, text_before, arg_max_tuples}

-- One round of the loop over the tuples ends it, or reads a tuple and goes on.
module _ (dpdk : Dpdk) (tuple : ReplayParams → List ℕ → Parse ReplayParams) (num_vals : ℕ) where
  tuples-round :
      (fuel : ℕ) (p0 : List ℕ) (r : ReplayParams) (n : ℕ) (out : ReplayParams × ℕ)
      → parse_tuples dpdk tuple num_vals (suc fuel) p0 r n ≡ ok out
      → (out ≡ (r, n))
        ⊎ ((vs : List ℕ) × (q : ReplayParams) × (rest : List ℕ) × (tuple r vs ≡ ok q)
            × (n + 1 ≤ arg_max_tuples)
            × (parse_tuples dpdk tuple num_vals fuel rest q (n + 1) ≡ ok out))
  unfolding parse_tuples
  tuples-round fuel p0 r n out e = elim (Option-cases (strchr p0 b'(')) [
    | inl end ↦ inl (ground arith)
    | inr (p, open_at) ↦ elim (Option-cases (strchr p b')')) [
      | inl missing ↦ absurd (ground arith)
      | inr (rest, close_at) ↦
          let (vs, got, e1) =
            >>=-eq-ok (str_to_unsigned_vals dpdk (text_before (drop 1 p) b')') b',' num_vals) _
              (rw (parse_tuples, open_at, close_at) at e) in
          let (q, did, e2) = >>=-eq-ok (tuple r vs) _ e1 in
          let (_, few, e3) = >>=-eq-ok (guard (not (ltb arg_max_tuples (n + 1))) 10) _ e2 in
          inr (vs, q, rest, did, ground arith, e3)
    ]
  ]

  -- So the loop keeps what every tuple keeps, and reads at most so many.
  pub tuples-keep :
      (P : ReplayParams → Type 0)
      → ((q : ReplayParams) (vs : List ℕ) (q' : ReplayParams) → P q → tuple q vs ≡ ok q' → P q')
      → (fuel : ℕ) (p0 : List ℕ) (r : ReplayParams) (n : ℕ) (out : ReplayParams × ℕ) → P r
      → n ≤ arg_max_tuples
      → parse_tuples dpdk tuple num_vals fuel p0 r n ≡ ok out
      → P out.0 × (out.1 ≤ arg_max_tuples)
  unfolding parse_tuples
  tuples-keep P keep zero p0 r n out v few e = cc
  tuples-keep P keep (suc fuel) p0 r n out v few e = elim (tuples-round fuel p0 r n out e) [
    | inl end ↦ rw end (v, few)
    | inr (vs, q, rest, did, less, e') ↦
        tuples-keep P keep fuel rest q (n + 1) out (keep r vs q v did) less e'
  ]
