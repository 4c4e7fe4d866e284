-- ===== src/Spcap/Ended.antt =====
-- src/spcap.c, `freeSpcap`: what it writes.
use nvme_dpdk_pcapreplay.Prelude.{
  length, ℕ, zero, suc, ◌+◌, ◌^◌, ◌≤◌, ◌<◌, ◌≡◌, ◌≢◌, refl, sym, ap, ◌∙◌, inl, inr, List, [], ◌∷◌,
  ◌++◌, arith, ◌==◌, Bool-cases, done,
}
use mathlib.Core.Path.{subst}
use mathlib.Core.List.{append-nil, append_assoc}
use nvme_dpdk_pcapreplay.Layout.{Idisk, NvmeRaid, active, handles}
use nvme_dpdk_pcapreplay.Driver.{
  sector, writes, Command, malloc, submit, Driver, Sio, ◌>>=◌, ◌>>◌, bind-done,
}
use nvme_dpdk_pcapreplay.Simpleio.{disk_at, sio_write_pinit}
use nvme_dpdk_pcapreplay.Simpleio.Sync.{Works, sync_command, sio_write_pinit-returns}
use nvme_dpdk_pcapreplay.Fs.{write_tables, update_raid}
use nvme_dpdk_pcapreplay.Spcap.{
  Spcap, header_bytes, header_length, write_buff, end_marks, flush_buffs, free_spcap,
}
use nvme_dpdk_pcapreplay.Spcap.Unflushed.{Room, grown-here, write_buff-Held}
use nvme_dpdk_pcapreplay.Spcap.Flushes.{
  commands, commands-looks, flushes, flushes-Agree, flush_buffs-done, grown-other,
}

-- The writes of the tables, one sector each.
abbrev pub table_commands : List Idisk → List Command
table_commands [] = []
table_commands (d ∷ ds) = sync_command writes d (sector d.msector) 0 1 ∷ table_commands ds

header_bytes-long : header_length ≤ length (header_bytes 0 0 0)
unfolding header_bytes
header_bytes-long = omega arith

-- What is copied for another disk leaves the room.
Room-other :
    (sp q : Spcap) (j : ℕ)
    → q.curr_ptr j ≡ sp.curr_ptr j
    → q.buffs ≡ sp.buffs
    → Room sp j header_length
    → Room q j header_length
Room-other sp q j at same room =
    let buffer : q.buffs j ≡ sp.buffs j = ap (λ f. f j) same in
    record {
      there = omega (arith, buffer, room.there);
      inside = omega (arith, buffer, at, room.inside);
    }

module _ (D : Driver) where
  -- The marks are held in the buffers of the disks.
  end_marks-done :
      (n i : ℕ) (sp : Spcap) (s : Sio)
      → ((j : ℕ) → i ≤ j → sp.data_wrote j + header_length < 2 ^ 64)
      → ((j : ℕ) → i ≤ j → j < i + n → Room sp j header_length)
      → (q : Spcap) × (end_marks D n i sp s ≡ done (q, s))
        × (q.raid ≡ sp.raid)
        × (q.curlba ≡ sp.curlba)
        × ((j : ℕ) → j < i → (q.data_wrote j ≡ sp.data_wrote j) × (q.curr_ptr j ≡ sp.curr_ptr j))
        × ((j : ℕ)
            → i ≤ j
            → j < i + n
            → (q.data_wrote j ≡ sp.data_wrote j + header_length)
              × (q.curr_ptr j ≡ sp.curr_ptr j + header_length))
  unfolding end_marks
  end_marks-done zero i sp s small rooms =
      (sp, refl, refl, refl, λ j lt. (refl, refl), λ j low high. absurd (omega arith))
  end_marks-done (suc n) i sp s small rooms =
      let mark : List ℕ = header_bytes 0 0 0 in
      let room = small i (omega arith) in
      let (q, e, held) =
        write_buff-Held D mark i (suc header_length) sp header_length s (omega arith)
          (rooms i (omega arith) (omega arith)) header_bytes-long (omega arith) room in
      let other : (j : ℕ)
          → j ≢ i
          → (q.data_wrote j ≡ sp.data_wrote j) × (q.curr_ptr j ≡ sp.curr_ptr j) =
        λ j ne. (
          held.counted j ∙ grown-other sp.data_wrote i header_length j ne,
          held.further j ∙ grown-other sp.curr_ptr i header_length j ne,
        ) in
      let (r, e', raid, lbas, low, high) =
        end_marks-done n (suc i) q s
          (λ j past.
            let same = (other j (λ z. omega arith)).0 in omega (arith, same, small j (omega arith)))
          (λ j low high.
            Room-other sp q j (other j (λ z. omega arith)).1 held.same_buffs
              (rooms j (omega arith) (omega arith))) in
      (
        r,
        bind-done (write_buff D (suc header_length) sp i header_length mark)
              (λ p. end_marks D n (suc i) p) s e
            ∙ e',
        raid ∙ held.same_raid,
        lbas ∙ held.same_lbas,
        λ j lt.
            let (a, b) = low j (omega arith) in
            let (a', b') = other j (λ z. omega arith) in (a ∙ a', b ∙ b'),
        λ j from to. elim (Bool-cases (j == i)) [
          | inl here ↦
              let is : i ≡ j = ground arith in
              let (a, b) = low i (omega arith) in
              let a' = held.counted i ∙ grown-here sp.data_wrote i header_length in
              let b' = held.further i ∙ grown-here sp.curr_ptr i header_length in
              subst
                (λ k.
                  (r.data_wrote k ≡ sp.data_wrote k + header_length)
                  × (r.curr_ptr k ≡ sp.curr_ptr k + header_length))
                is (a ∙ a', b ∙ b')
          | inr later ↦
              let ne : j ≢ i = λ z. ground arith in
              let (a, b) = high j (omega arith) (omega arith) in
              let (a', b') = other j ne in
              (a ∙ ap (λ k. k + header_length) a', b ∙ ap (λ k. k + header_length) b')
        ],
      )

  tables-done :
      (ds : List Idisk) (s : Sio)
      → Works D
      → (s' : Sio) × (write_tables D ds s ≡ done (tt, s'))
        × (commands s'.history ≡ commands s.history ++ table_commands ds)
  unfolding write_tables
  tables-done [] s w = (s, refl, sym (append-nil (commands s.history)))
  tables-done (d ∷ ds) s w =
      let (s1, m, k, e, h) = sio_write_pinit-returns D d d.msector 0 s w in
      let (s2, e', given) = tables-done ds s1 w in
      let c : Command = sync_command writes d (sector d.msector) 0 1 in
      (
        s2,
        bind-done (sio_write_pinit D d d.msector 0 1) (λ rc. write_tables D ds) s e ∙ e',
        given
            ∙ ap (λ cs. cs ++ table_commands ds)
                (ap commands h ∙ commands-looks d.qpair m (submit c ∷ malloc k ∷ s.history))
            ∙ append_assoc (commands s.history) (c ∷ []) (table_commands ds),
      )

  -- With a working driver, counts of bytes that cannot reach 2^64, and room for an end mark in
  -- every buffer: `freeSpcap` returns, and it has given the driver these commands and no others: of
  -- each disk in use whose count is not of whole super sectors, the mark at the end counted, a
  -- write of one super sector from where the incomplete one starts to the disk's current block; and
  -- then the writes of the tables of the raid that it leaves.
  pub free_spcap-commands :
      (sp : Spcap) (s : Sio)
      → Works D
      → ((j : ℕ) → sp.data_wrote j + header_length < 2 ^ 64)
      → ((j : ℕ) → j < sp.raid.numdisks → Room sp j header_length)
      → (q : Spcap) × (s' : Sio) × (free_spcap D sp s ≡ done (q, s'))
        × (commands s'.history
            ≡ commands s.history
              ++ (flushes sp.raid
                    (λ j. sp.data_wrote j + header_length)
                    (λ j. sp.curr_ptr j + header_length)
                    sp.curlba
                    sp.raid.numdisks
                    0
                  ++ table_commands (active q.raid)))
  unfolding free_spcap update_raid
  free_spcap-commands sp s w small rooms =
      let n : ℕ = sp.raid.numdisks in
      let (q, e, raid, lbas, _, marked) =
        end_marks-done n 0 sp s (λ j le. small j) (λ j low high. rooms j (omega arith)) in
      let (p, s1, e1, given, _) = flush_buffs-done D n 0 q s w in
      let (s2, e2, given') = tables-done (active p.raid) s1 w in
      let disks : q.raid.numdisks ≡ n = ap (λ (x : NvmeRaid). x.numdisks) raid in
      let same =
        flushes-Agree sp.raid q.raid (λ j. sp.data_wrote j + header_length) q.data_wrote
          (λ j. sp.curr_ptr j + header_length) q.curr_ptr sp.curlba q.curlba n 0
          (record {
            known = λ j low high. ap (λ x. handles (disk_at x j)) raid;
            count = λ j low high. (marked j low high).0;
            at = λ j low high. (marked j low high).1;
            block = λ j low high. ap (λ f. f j) lbas;
          }) in
      let flushed : flush_buffs D q.raid.numdisks 0 q s ≡ done (p, s1) =
        ap (λ k. flush_buffs D k 0 q s) disks ∙ e1 in
      (
        p,
        s2,
        rw (free_spcap, ◌>>=◌, ◌>>◌, e, flushed, e2),
        given'
            ∙ ap (λ cs. cs ++ table_commands (active p.raid))
                (given ∙ ap (λ cs. commands s.history ++ cs) same)
            ∙ append_assoc (commands s.history) _ (table_commands (active p.raid)),
      )
