-- ===== src/Replay/Init/Links.antt =====
-- src/replay/init.c: how long the check of the links takes.
use nvme_dpdk_pcapreplay.Prelude.{
  ℕ, zero, suc, ◌+◌, ◌-◌, ◌*◌, ◌/◌, ◌%◌, ◌^◌, ◌≤◌, ◌<◌, ◌≡◌, refl, sym, ap, ◌∙◌, inl, inr, Bool,
  true, false, List, [], ◌∷◌, ◌++◌, ◌==◌, if◌then◌else◌, ◌||◌, ◌&&◌, not, done, arith, Bool-cases,
}
use mathlib.Core.List.{append_assoc}
use nvme_dpdk_pcapreplay.Layout.{u8}
use nvme_dpdk_pcapreplay.Replay.Params.{Dpdk, ReplayParams}
use nvme_dpdk_pcapreplay.Replay.Nic.{
  EthCall, mempool_create, dev_configure, promiscuous_enable, rx_queue_setup, tx_queue_setup,
  dev_start, link_get, delay_ms, rx_burst, tx_burst, buffer_alloc, buffer_free, Nic, Nics, Nio,
  ◌>>=◌, return, note, call,
}
use nvme_dpdk_pcapreplay.Replay.Init.{
  is_unused, look_ports, link_rounds, check_all_ports_link_status, check_interval, max_check_time,
}

-- The milliseconds that these calls wait.
abbrev pub waited : List EthCall → ℕ
waited [] = 0
waited (delay_ms t ∷ cs) = t + waited cs
waited (c ∷ cs) = waited cs

-- Calls that look at the link of a port, or wait.
abbrev pub IsLook : EthCall → Type 0
IsLook (link_get port) = Unit
IsLook (delay_ms t) = Unit
IsLook c = ⊥

abbrev pub Looks : List EthCall → Type 0
Looks [] = Unit
Looks (c ∷ cs) = IsLook c × Looks cs

Looks-append : (cs ds : List EthCall) → Looks cs → Looks ds → Looks (cs ++ ds)
Looks-append [] ds p q = q
Looks-append (c ∷ cs) ds p q = (p.0, Looks-append cs ds p.1 q)

waited-append : (cs ds : List EthCall) → Looks cs → waited (cs ++ ds) ≡ waited cs + waited ds
waited-append [] ds p = omega arith
waited-append (link_get port ∷ cs) ds p = waited-append cs ds p.1
waited-append (delay_ms t ∷ cs) ds p = omega (arith, waited-append cs ds p.1)
waited-append (mempool_create a ∷ cs) ds p = absurd p.0
waited-append (dev_configure a b c ∷ cs) ds p = absurd p.0
waited-append (promiscuous_enable a ∷ cs) ds p = absurd p.0
waited-append (rx_queue_setup a b c d e ∷ cs) ds p = absurd p.0
waited-append (tx_queue_setup a b c d ∷ cs) ds p = absurd p.0
waited-append (dev_start a ∷ cs) ds p = absurd p.0
waited-append (rx_burst a b c ∷ cs) ds p = absurd p.0
waited-append (tx_burst a b c d ∷ cs) ds p = absurd p.0
waited-append (buffer_alloc a ∷ cs) ds p = absurd p.0
waited-append (buffer_free a ∷ cs) ds p = absurd p.0

-- Code that returns after such calls, of so many milliseconds at most, and changes no pools.
abbrev pub LooksFor : {A : Type 0} → ℕ → Nio A → Type 0
LooksFor {A} most m =
    (s : Nics)
    → (a : A) × (cs : List EthCall) × (m s ≡ done (a, record s { calls = cs ++ s.calls }))
      × Looks cs
      × (waited cs ≤ most)

LooksFor-return : {A : Type 0} (a : A) (most : ℕ) → LooksFor most (return a)
LooksFor-return a most s = (a, [], refl, tt, omega arith)

LooksFor-bind :
    {A B : Type 0} (m : Nio A) (f : A → Nio B) (most most' total : ℕ)
    → most + most' ≤ total
    → LooksFor most m
    → ((a : A) → LooksFor most' (f a))
    → LooksFor total (m >>= f)
LooksFor-bind m f most most' total small p q s =
    let (a, cs, e, looks, le) = p s in
    let (b, ds, e', looks', le') = q a (record s { calls = cs ++ s.calls }) in
    (
      b,
      ds ++ cs,
      rw (◌>>=◌, e)
          (e' ∙ ap (λ h. done (b, record s { calls = h })) (sym (append_assoc ds cs s.calls))),
      Looks-append ds cs looks' looks,
      omega (arith, waited-append ds cs looks', le, le', small),
    )

module _ (dpdk : Dpdk) (nic : Nic) (r : ReplayParams) where
  look_ports-LooksFor :
      (n portid mask : ℕ) (flag : Bool) → LooksFor 0 (look_ports dpdk nic r n portid mask flag)
  unfolding look_ports
  look_ports-LooksFor zero portid mask flag s = LooksFor-return true 0 s
  look_ports-LooksFor (suc n) portid mask flag s =
      elim (Bool-cases (mask / 2 ^ (portid % 32) % 2 == 0 || is_unused dpdk nic r portid)) [
        | inl skip ↦ rw (look_ports, skip) (look_ports-LooksFor n (suc portid) mask flag s)
        | inr skip ↦
            let s' : Nics = note (link_get portid) s in
            elim (Bool-cases (not flag && nic.link_status s'.calls == 0)) [
              | inl down ↦
                  (false, link_get portid ∷ [], rw (look_ports, skip, down), (tt, tt), omega arith)
              | inr next ↦
                  let (up, cs, e, looks, le) = look_ports-LooksFor n (suc portid) mask flag s' in
                  (
                    up,
                    cs ++ link_get portid ∷ [],
                    rw (look_ports, skip, next)
                        (e
                          ∙ ap (λ h. done (up, record s { calls = h }))
                              (sym (append_assoc cs (link_get portid ∷ []) s.calls))),
                    Looks-append cs (link_get portid ∷ []) looks (tt, tt),
                    omega (arith, le, waited-append cs (link_get portid ∷ []) looks),
                  )
            ]
      ]

  pause-LooksFor :
      (up : Bool)
      → LooksFor check_interval (if up then return tt else call (delay_ms check_interval))
  pause-LooksFor true s = LooksFor-return tt check_interval s
  pause-LooksFor false s = (tt, delay_ms check_interval ∷ [], refl, (tt, tt), omega arith)

  link_rounds-LooksFor :
      (n count : ℕ) (flag : Bool) (port_num mask : ℕ)
      → count + n ≡ max_check_time + 1
      → (flag ≡ false → count < max_check_time)
      → LooksFor
          (if flag then 0 else ((max_check_time - count) * check_interval))
          (link_rounds dpdk nic r n count flag port_num mask)
  unfolding link_rounds
  link_rounds-LooksFor zero count flag port_num mask left early = LooksFor-return tt _
  link_rounds-LooksFor (suc n) count true port_num mask left early =
      LooksFor-bind (look_ports dpdk nic r port_num 0 mask true) (λ up. return tt) 0 0 0
        (omega arith) (look_ports-LooksFor port_num 0 mask true) (λ up. LooksFor-return tt 0)
  link_rounds-LooksFor (suc n) count false port_num mask left early =
      LooksFor-bind (look_ports dpdk nic r port_num 0 mask false) _ 0
        ((max_check_time - count) * check_interval) ((max_check_time - count) * check_interval)
        (omega arith) (look_ports-LooksFor port_num 0 mask false)
        (λ up.
          LooksFor-bind (if up then return tt else call (delay_ms check_interval)) _ check_interval
            (if up || count == max_check_time - 1
              then 0
              else ((max_check_time - suc count) * check_interval))
            ((max_check_time - count) * check_interval) (ground (arith, early refl))
            (pause-LooksFor up)
            (λ _.
              link_rounds-LooksFor n (suc count) (up || count == max_check_time - 1) port_num mask
                (omega arith) (λ e. ground (arith, early refl))))

  -- `check_all_ports_link_status` returns, whatever the driver answers: it has only looked at links and
  -- waited, for 9 seconds at most.
  pub check_all_ports_link_status-LooksFor :
      (port_num mask : ℕ) → LooksFor 9000 (check_all_ports_link_status dpdk nic r port_num mask)
  unfolding check_all_ports_link_status
  check_all_ports_link_status-LooksFor port_num mask =
      link_rounds-LooksFor (max_check_time + 1) 0 false (u8 port_num) mask (omega arith)
        (λ e. omega arith)
