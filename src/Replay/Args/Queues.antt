-- ===== src/Replay/Args/Queues.antt =====
-- src/replay/config.c: one tuple of `--rx` or `--tx` and the rules for the queues.
use nvme_dpdk_pcapreplay.Prelude.{
  ℕ, ◌^◌, ◌≤◌, ◌≡◌, refl, sym, ap, ◌∙◌, inl, true, List, [], ◌∷◌, ◌++◌, arith, length,
}
use mathlib.Core.Path.{subst}
use nvme_dpdk_pcapreplay.Layout.{u8}
use nvme_dpdk_pcapreplay.Replay.Params.{
  Dpdk, LcoreType, io, NicQueue, LcoreParams, ReplayParams, update, update_at, initial,
}
use nvme_dpdk_pcapreplay.Replay.Numbers.{ok}
use nvme_dpdk_pcapreplay.Replay.Args.{
  has_queue, nic_queue, is_io, assign_rx, assign_tx, rx_tuple, tx_tuple,
}
use nvme_dpdk_pcapreplay.Replay.Args.Assigned.{Assigned, assign-Assigned}

abbrev pub RxAssigned : Dpdk → ReplayParams → Type 0
RxAssigned dpdk r =
    Assigned dpdk r.nic_rx_queue_mask (λ l. (r.lcore_params l).rx) (λ l. (r.lcore_params l).type)

abbrev pub TxAssigned : Dpdk → ReplayParams → Type 0
TxAssigned dpdk r =
    Assigned dpdk r.nic_tx_queue_mask (λ l. (r.lcore_params l).tx) (λ l. (r.lcore_params l).type)

-- Both sides are in order.
pub record IsConfig (dpdk : Dpdk) (r : ReplayParams) : Type 0 where
  pub rx : RxAssigned dpdk r
  pub tx : TxAssigned dpdk r

pub initial-IsConfig : (dpdk : Dpdk) → IsConfig dpdk initial
unfolding has_queue
initial-IsConfig dpdk = record {
  rx = record {
    on_or_off = λ p q. inl refl;
    in_range = λ p q e. absurd (omega arith);
    handled = λ p q e. absurd (omega arith);
    switched_on = λ l p q e. cc;
    one_lcore = λ l o p q e f. cc;
    few = λ l. omega arith;
  };
  tx = record {
    on_or_off = λ p q. inl refl;
    in_range = λ p q e. absurd (omega arith);
    handled = λ p q e. absurd (omega arith);
    switched_on = λ l p q e. cc;
    one_lcore = λ l o p q e f. cc;
    few = λ l. omega arith;
  };
}

-- The other side's queues stay, and its lcores stay I/O lcores.
keep-Assigned :
    (dpdk : Dpdk) (mask : ℕ → ℕ → ℕ) (queues queues' : ℕ → List NicQueue)
    (type type' : ℕ → LcoreType)
    → Assigned dpdk mask queues type
    → ((l : ℕ) → queues' l ≡ queues l)
    → ((l : ℕ) → is_io (type l) ≡ true → is_io (type' l) ≡ true)
    → Assigned dpdk mask queues' type'
keep-Assigned dpdk mask queues queues' type type' a same keep = record {
  on_or_off = a.on_or_off;
  in_range = a.in_range;
  handled = λ p q e.
      let (l, l_in, l_io, has) = a.handled p q e in
      (l, l_in, keep l l_io, ap (has_queue p q) (same l) ∙ has);
  switched_on = λ l p q h. a.switched_on l p q (sym (ap (has_queue p q) (same l)) ∙ h);
  one_lcore = λ l o p q h k.
      a.one_lcore l o p q (sym (ap (has_queue p q) (same l)) ∙ h)
        (sym (ap (has_queue p q) (same o)) ∙ k);
  few = λ l. omega (arith, ap length (same l), a.few l);
}

module _ (dpdk : Dpdk) (small : dpdk.max_nic_ports ≤ 2 ^ 8) where
  pub assign_rx-IsConfig :
      (r : ReplayParams) (port queue lcore : ℕ) (r' : ReplayParams)
      → IsConfig dpdk r
      → assign_rx dpdk r port queue lcore ≡ ok r'
      → IsConfig dpdk r'
  unfolding assign_rx
  assign_rx-IsConfig r port queue lcore r' v e =
      let lp : LcoreParams = r.lcore_params lcore in
      let after : ReplayParams = record r {
        nic_rx_queue_mask = update_at r.nic_rx_queue_mask port queue 1;
        lcore_params =
            update r.lcore_params lcore
              (record lp { type = io; rx = lp.rx ++ nic_queue port queue ∷ [] });
      } in
      let is : r' ≡ after = ground arith in
      let io_there : (l : ℕ)
          → is_io (r.lcore_params l).type ≡ true
          → is_io (after.lcore_params l).type ≡ true =
        λ l h. ground arith in
      subst (IsConfig dpdk) (sym is) (record {
        rx =
            assign-Assigned dpdk r.nic_rx_queue_mask (λ l. (r.lcore_params l).rx)
              (λ l. (after.lcore_params l).rx) (λ l. (r.lcore_params l).type)
              (λ l. (after.lcore_params l).type) port queue lcore small v.rx (ground arith)
              (ground arith) (ground arith) (ground arith) (ground arith) (ground arith)
              (λ l differs. ground arith) (ground arith) io_there;
        tx =
            keep-Assigned dpdk r.nic_tx_queue_mask (λ l. (r.lcore_params l).tx)
              (λ l. (after.lcore_params l).tx) (λ l. (r.lcore_params l).type)
              (λ l. (after.lcore_params l).type) v.tx (λ l. ground arith) io_there;
      })

  pub assign_tx-IsConfig :
      (r : ReplayParams) (port queue nvme lcore : ℕ) (r' : ReplayParams)
      → IsConfig dpdk r
      → assign_tx dpdk r port queue nvme lcore ≡ ok r'
      → IsConfig dpdk r'
  unfolding assign_tx
  assign_tx-IsConfig r port queue nvme lcore r' v e =
      let lp : LcoreParams = r.lcore_params lcore in
      let after : ReplayParams = record r {
        nic_tx_queue_mask = update_at r.nic_tx_queue_mask port queue 1;
        nic_tx_queue_nvme = update_at r.nic_tx_queue_nvme port queue (u8 nvme);
        lcore_params =
            update r.lcore_params lcore
              (record lp { type = io; tx = lp.tx ++ nic_queue port queue ∷ [] });
      } in
      let is : r' ≡ after = ground arith in
      let io_there : (l : ℕ)
          → is_io (r.lcore_params l).type ≡ true
          → is_io (after.lcore_params l).type ≡ true =
        λ l h. ground arith in
      subst (IsConfig dpdk) (sym is) (record {
        tx =
            assign-Assigned dpdk r.nic_tx_queue_mask (λ l. (r.lcore_params l).tx)
              (λ l. (after.lcore_params l).tx) (λ l. (r.lcore_params l).type)
              (λ l. (after.lcore_params l).type) port queue lcore small v.tx (ground arith)
              (ground arith) (ground arith) (ground arith) (ground arith) (ground arith)
              (λ l differs. ground arith) (ground arith) io_there;
        rx =
            keep-Assigned dpdk r.nic_rx_queue_mask (λ l. (r.lcore_params l).rx)
              (λ l. (after.lcore_params l).rx) (λ l. (r.lcore_params l).type)
              (λ l. (after.lcore_params l).type) v.rx (λ l. ground arith) io_there;
      })

  pub rx_tuple-IsConfig :
      (r : ReplayParams) (vs : List ℕ) (r' : ReplayParams)
      → IsConfig dpdk r
      → rx_tuple dpdk r vs ≡ ok r'
      → IsConfig dpdk r'
  unfolding rx_tuple
  rx_tuple-IsConfig r [] r' v e = cc
  rx_tuple-IsConfig r (a ∷ []) r' v e = cc
  rx_tuple-IsConfig r (a ∷ b ∷ []) r' v e = cc
  rx_tuple-IsConfig r (a ∷ b ∷ c ∷ []) r' v e = assign_rx-IsConfig r a b c r' v e
  rx_tuple-IsConfig r (a ∷ b ∷ c ∷ d ∷ vs) r' v e = cc

  pub tx_tuple-IsConfig :
      (r : ReplayParams) (vs : List ℕ) (r' : ReplayParams)
      → IsConfig dpdk r
      → tx_tuple dpdk r vs ≡ ok r'
      → IsConfig dpdk r'
  unfolding tx_tuple
  tx_tuple-IsConfig r [] r' v e = cc
  tx_tuple-IsConfig r (a ∷ []) r' v e = cc
  tx_tuple-IsConfig r (a ∷ b ∷ []) r' v e = cc
  tx_tuple-IsConfig r (a ∷ b ∷ c ∷ []) r' v e = cc
  tx_tuple-IsConfig r (a ∷ b ∷ c ∷ d ∷ []) r' v e = assign_tx-IsConfig r a b c d r' v e
  tx_tuple-IsConfig r (a ∷ b ∷ c ∷ d ∷ x ∷ vs) r' v e = cc
