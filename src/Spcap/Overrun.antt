-- ===== src/Spcap/Overrun.antt =====
-- src/spcap.c: a capture file that does not fit in the buffers.
use nvme_dpdk_pcapreplay.Spcap.Sums.{sum, sum-≡, sum-≤, sum-grown}
use nvme_dpdk_pcapreplay.Prelude.{
  ℕ, zero, suc, ◌+◌, ◌-◌, ◌^◌, ◌≤◌, ◌<◌, ◌≡◌, ◌≢◌, refl, ap, ◌∙◌, ◌⊎◌, inl, inr, true, List, [],
  ◌∷◌, arith, ◌==◌, Bool-cases, Outcome, done, overruns, some,
}
use mathlib.Core.Path.{subst}
use nvme_dpdk_pcapreplay.Layout.{NvmeRaid}
use nvme_dpdk_pcapreplay.Driver.{Driver, Sio, ◌>>=◌, bind-done}
use nvme_dpdk_pcapreplay.Spcap.{
  Spcap, buff_size, has_room, header_bytes, header_length, to_write, copied, write_buff, write_pkt,
  write_pcap_pkt, write_packets, write_pcap2raid, spcap_dst_disk,
}
use nvme_dpdk_pcapreplay.Spcap.Balance.{spcap_dst_disk-IsFirstLeast}
use nvme_dpdk_pcapreplay.Spcap.Unflushed.{
  Held, Held-join, grown, grown-here, to_write-le, to_write-lt, to_write-pos, copied-Held,
  write_buff-step,
}

-- How many bytes the packets take, with their headers.
abbrev pub packet_bytes : List (ℕ × ℕ × List ℕ) → ℕ
packet_bytes [] = 0
packet_bytes ((len, caplen, payload) ∷ pkts) = header_length + len + packet_bytes pkts

-- The buffers after `n` more bytes, all of them inside.
record Filled (sp sp' : Spcap) (n : ℕ) : Type 0 where
  disks : sp'.raid.numdisks ≡ sp.raid.numdisks
  same_buffs : sp'.buffs ≡ sp.buffs
  total : sum sp'.curr_ptr sp.raid.numdisks ≡ sum sp.curr_ptr sp.raid.numdisks + n
  at_most : (j : ℕ) → sp'.data_wrote j ≤ sp.data_wrote j + n

-- Every buffer has been written inside only.
abbrev pub Inside : Spcap → Type 0
Inside sp = (j : ℕ) → j < sp.raid.numdisks → sp.curr_ptr j ≤ sp.buffs j + buff_size

module _ (D : Driver) where
  module _ (payload : List ℕ) (diskid : ℕ) where
    room-inside :
        (sp : Spcap) (n : ℕ)
        → has_room sp diskid n payload ≡ true
        → sp.curr_ptr diskid + n ≤ sp.buffs diskid + buff_size
    unfolding has_room
    room-inside sp n room = ground (arith, room)

    -- The call overruns, or holds all its bytes inside the buffer.
    write_buff-either :
        (fuel : ℕ) (sp : Spcap) (size : ℕ) (s : Sio)
        → size < fuel
        → 0 < sp.data_wrote diskid + size
        → sp.data_wrote diskid + size < 2 ^ 64
        → (write_buff D fuel sp diskid size payload s ≡ overruns)
          ⊎ ((sp' : Spcap) × (write_buff D fuel sp diskid size payload s ≡ done (sp', s))
              × Held sp sp' diskid size
              × (sp'.curr_ptr diskid ≤ sp.buffs diskid + buff_size))
    unfolding write_buff
    write_buff-either zero sp size s enough some_data small = absurd (omega arith)
    write_buff-either (suc fuel) sp size s enough some_data small =
        let n : ℕ = to_write (sp.data_wrote diskid) size in
        let few : n ≤ size = to_write-le (sp.data_wrote diskid) size in
        let q : Spcap = copied D sp diskid n payload in
        let held : Held sp q diskid n = copied-Held D payload diskid sp n (omega arith) in
        let count : q.data_wrote diskid ≡ sp.data_wrote diskid + n =
          held.counted diskid ∙ grown-here sp.data_wrote diskid n in
        let at : q.curr_ptr diskid ≡ sp.curr_ptr diskid + n =
          held.further diskid ∙ grown-here sp.curr_ptr diskid n in
        let pos : 0 < sp.data_wrote diskid + n =
          to_write-pos (sp.data_wrote diskid) size some_data in
        elim (Bool-cases (has_room sp diskid n payload)) [
          | inr none_left ↦ inl (rw (write_buff, none_left) refl)
          | inl room ↦
              let step = write_buff-step D payload diskid fuel sp size s room (omega arith) in
              let inside = room-inside sp n room in
              elim (Bool-cases (size - n == 0)) [
                | inl all ↦
                    let whole : n ≡ size = ground arith in
                    inr (
                      q,
                      step ∙ rw all refl,
                      subst (Held sp q diskid) whole held,
                      omega (arith, at, inside),
                    )
                | inr more ↦
                    let left : size - n ≢ 0 = ground arith in
                    let total : n + (size - n) ≡ size = omega arith in
                    let less : size - n < size =
                      to_write-lt (sp.data_wrote diskid) size (λ z. omega arith) in
                    let same : q.buffs diskid ≡ sp.buffs diskid =
                      ap (λ f. f diskid) held.same_buffs in
                    elim (write_buff-either fuel q (size - n) s (omega arith) (omega arith)
                      (omega arith)) [
                        | inl over ↦ inl (step ∙ rw more over)
                        | inr (sp', e, held', ends) ↦ inr (
                          sp',
                          step ∙ rw more e,
                          subst (Held sp sp' diskid) total
                              (Held-join sp q sp' diskid n (size - n) held held'),
                          omega (arith, same, ends),
                        )
                      ]
              ]
        ]

  -- What a held packet adds, if it is of a disk in use.
  Held-Filled :
      (sp sp' : Spcap) (d n : ℕ) → d < sp.raid.numdisks → Held sp sp' d n → Filled sp sp' n
  Held-Filled sp sp' d n lt held = record {
    disks = ap (λ (r : NvmeRaid). r.numdisks) held.same_raid;
    same_buffs = held.same_buffs;
    total =
        sum-≡ sp'.curr_ptr (grown sp.curr_ptr d n) sp.raid.numdisks held.further
        ∙ sum-grown sp.curr_ptr d n sp.raid.numdisks lt;
    at_most = λ j. (let _e = held.counted j in ground arith);
  }

  Held-Inside :
      (sp sp' : Spcap) (d n : ℕ)
      → Held sp sp' d n
      → sp'.curr_ptr d ≤ sp.buffs d + buff_size
      → Inside sp
      → Inside sp'
  Held-Inside sp sp' d n held ends inside j lt =
      let disks : sp'.raid.numdisks ≡ sp.raid.numdisks =
        ap (λ (r : NvmeRaid). r.numdisks) held.same_raid in
      let same : sp'.buffs j ≡ sp.buffs j = ap (λ f. f j) held.same_buffs in
      elim (Bool-cases (j == d)) [
        | inl here ↦
            let is : d ≡ j = ground (arith, here) in
            let ends' : sp'.curr_ptr j ≤ sp.buffs j + buff_size =
              subst (λ k. sp'.curr_ptr k ≤ sp.buffs k + buff_size) is ends in
            omega (arith, same, ends')
        | inr other ↦
            let at : sp'.curr_ptr j ≡ sp.curr_ptr j = held.further j ∙ rw other refl in
            omega (arith, same, at, inside j (omega (arith, lt, disks)))
      ]

  -- A call overruns, or returns with so many bytes more, inside the buffers.
  abbrev Fills : Spcap → ℕ → Sio → Outcome (Spcap × Sio) → Type 0
  Fills sp n s r =
      (r ≡ overruns) ⊎ ((sp' : Spcap) × (r ≡ done (sp', s)) × Filled sp sp' n × Inside sp')

  write_pcap_pkt-Fills :
      (sp : Spcap) (len caplen : ℕ) (payload : List ℕ) (s : Sio)
      → 0 < sp.raid.numdisks
      → Inside sp
      → ((i : ℕ) → sp.data_wrote i + (header_length + len) < 2 ^ 64)
      → Fills sp (header_length + len) s (write_pcap_pkt D sp len caplen payload s)
  unfolding write_pcap_pkt write_pkt
  write_pcap_pkt-Fills sp len caplen payload s some_disk inside small =
      let d : ℕ = spcap_dst_disk sp in
      let below : d < sp.raid.numdisks = (spcap_dst_disk-IsFirstLeast sp some_disk).below in
      let head : List ℕ = header_bytes 0 len caplen in
      let fits = small d in
      elim (write_buff-either head d (suc header_length) sp header_length s (omega arith)
        (omega arith) (omega arith)) [
          | inl over ↦ inl (rw (over, ◌>>=◌) refl)
          | inr (q, e, held, ends) ↦
              let count : q.data_wrote d ≡ sp.data_wrote d + header_length =
                held.counted d ∙ grown-here sp.data_wrote d header_length in
              let first =
                bind-done (write_buff D (suc header_length) sp d header_length head)
                  (λ q. write_buff D (suc len) q d len payload) s e in
              let same : q.buffs d ≡ sp.buffs d = ap (λ f. f d) held.same_buffs in
              elim (write_buff-either payload d (suc len) q len s (omega arith) (omega arith)
                (omega arith)) [
                  | inl over ↦ inl (first ∙ over)
                  | inr (sp', e', held', ends') ↦
                      let whole = Held-join sp q sp' d header_length len held held' in
                      inr (
                        sp',
                        first ∙ e',
                        Held-Filled sp sp' d (header_length + len) below whole,
                        Held-Inside sp sp' d (header_length + len) whole
                            (omega (arith, same, ends')) inside,
                      )
                ]
        ]

  Filled-join : (a b c : Spcap) (n m : ℕ) → Filled a b n → Filled b c m → Filled a c (n + m)
  Filled-join a b c n m p q =
      let again : sum c.curr_ptr a.raid.numdisks ≡ sum b.curr_ptr a.raid.numdisks + m =
        subst (λ k. sum c.curr_ptr k ≡ sum b.curr_ptr k + m) p.disks q.total in
      record {
        disks = q.disks ∙ p.disks;
        same_buffs = q.same_buffs ∙ p.same_buffs;
        total = omega (arith, again, p.total);
        at_most = λ j. (let _p = p.at_most j in let _q = q.at_most j in omega arith);
      }

  write_packets-Fills :
      (sp : Spcap) (pkts : List (ℕ × ℕ × List ℕ)) (s : Sio)
      → 0 < sp.raid.numdisks
      → Inside sp
      → ((i : ℕ) → sp.data_wrote i + packet_bytes pkts < 2 ^ 64)
      → Fills sp (packet_bytes pkts) s (write_packets D sp pkts s)
  unfolding write_packets
  write_packets-Fills sp [] s some_disk inside small = inr (
    sp,
    refl,
    record { disks = refl; same_buffs = refl; total = omega arith; at_most = λ j. omega arith },
    inside,
  )
  write_packets-Fills sp ((len, caplen, payload) ∷ pkts) s some_disk inside small =
      elim (write_pcap_pkt-Fills sp len caplen payload s some_disk inside
        (λ i. (let _s = small i in omega arith))) [
          | inl over ↦ inl (rw (over, ◌>>=◌) refl)
          | inr (q, e, filled, inside') ↦
              let first =
                bind-done (write_pcap_pkt D sp len caplen payload) (λ q. write_packets D q pkts) s
                  e in
              elim (write_packets-Fills q pkts s (omega (arith, filled.disks, some_disk)) inside'
                (λ i. (let _s = small i in let _f = filled.at_most i in omega arith))) [
                  | inl over ↦ inl (first ∙ over)
                  | inr (sp', e', filled', inside'') ↦ inr (
                    sp',
                    first ∙ e',
                    Filled-join sp q sp' (header_length + len) (packet_bytes pkts) filled filled',
                    inside'',
                  )
                ]
        ]

  -- On a raid that has a disk, with pointers inside the buffers and counts of bytes that cannot reach
  -- 2^64: the packets of a capture file that take more bytes, with their headers, than all buffers
  -- have left are copied past the end of a buffer or of a packet, so that the copy does not return.
  pub write_pcap2raid-overruns :
      (sp : Spcap) (pkts : List (ℕ × ℕ × List ℕ)) (s : Sio)
      → 0 < sp.raid.numdisks
      → Inside sp
      → ((i : ℕ) → sp.data_wrote i + packet_bytes pkts < 2 ^ 64)
      → sum (λ j. sp.buffs j + buff_size) sp.raid.numdisks
        < sum sp.curr_ptr sp.raid.numdisks + packet_bytes pkts
      → write_pcap2raid D sp (some pkts) s ≡ overruns
  unfolding write_pcap2raid
  write_pcap2raid-overruns sp pkts s some_disk inside small more =
      elim (write_packets-Fills sp pkts s some_disk inside small) [
        | inl over ↦ over
        | inr (sp', e, filled, inside') ↦
            let fits : sum sp'.curr_ptr sp.raid.numdisks
                ≤ sum (λ j. sp.buffs j + buff_size) sp.raid.numdisks =
              sum-≤ sp'.curr_ptr (λ j. sp.buffs j + buff_size) sp.raid.numdisks
                (λ j lt.
                  let same : sp'.buffs j ≡ sp.buffs j = ap (λ f. f j) filled.same_buffs in
                  omega (arith, same, inside' j (omega (arith, lt, filled.disks)))) in
            absurd (omega (arith, fits, filled.total, more))
      ]
