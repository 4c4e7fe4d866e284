-- ===== src/Spcap/Flushes.antt =====
-- src/spcap.c, `flushBuffs`: what it writes.
use nvme_dpdk_pcapreplay.Prelude.{
  ℕ, zero, suc, ◌+◌, ◌-◌, ◌%◌, ◌≤◌, ◌<◌, ◌≡◌, ◌≢◌, refl, sym, ap, ◌∙◌, inl, inr, List, [], ◌∷◌,
  ◌++◌, arith, ◌==◌, if◌then◌else◌, get_or, modify, Bool-cases, done,
}
use mathlib.Core.Path.{ap₂}
use mathlib.Core.List.{append-nil, append_assoc}
use nvme_dpdk_pcapreplay.Layout.{
  Idisk, NvmeRaid, handles, null_disk, add_u64, super_sector_length, super_sector_num,
}
use nvme_dpdk_pcapreplay.Table.{modify_entry}
use nvme_dpdk_pcapreplay.Driver.{
  address, writes, Command, Call, malloc, copy, submit, process, Driver, Sio, ◌>>=◌, bind-done,
}
use nvme_dpdk_pcapreplay.Simpleio.{disk_at, sio_write}
use nvme_dpdk_pcapreplay.Simpleio.Sync.{Works, looks, sync_command, sio_sync-returns}
use nvme_dpdk_pcapreplay.Spcap.{Spcap, buff_size, put, grow_file, flush_at, flush_buffs}
use nvme_dpdk_pcapreplay.Spcap.Unflushed.{grown}

-- The commands that the driver was given, the oldest first.
abbrev pub commands : List Call → List Command
commands [] = []
commands (malloc n ∷ h) = commands h
commands (copy to from n ∷ h) = commands h
commands (process q ∷ h) = commands h
commands (submit c ∷ h) = commands h ++ c ∷ []

pub commands-looks : (q m : ℕ) (h : List Call) → commands (looks q m h) ≡ commands h
commands-looks q zero h = refl
commands-looks q (suc m) h = commands-looks q m (process q ∷ h)

-- One super sector of each of `n` disks from `i` on whose count of bytes is not of whole super
-- sectors: from where its incomplete super sector starts, to where its next block is.
abbrev pub flushes : NvmeRaid → (ℕ → ℕ) → (ℕ → ℕ) → (ℕ → ℕ) → ℕ → ℕ → List Command
flushes raid dw ptr lba zero i = []
flushes raid dw ptr lba (suc n) i =
    let rest = flushes raid dw ptr lba n (suc i) in
    if dw i % super_sector_length == 0
    then rest
    else (sync_command writes (disk_at raid i) (address (ptr i - dw i % super_sector_length))
          (lba i) super_sector_num
        ∷ rest)

-- What two states have in common on the disks from `i` on, `n` of them.
pub record Agree (raid raid' : NvmeRaid) (dw dw' ptr ptr' lba lba' : ℕ → ℕ) (n i : ℕ) : Type 0 where
  pub known : (j : ℕ) → i ≤ j → j < i + n → handles (disk_at raid' j) ≡ handles (disk_at raid j)
  pub count : (j : ℕ) → i ≤ j → j < i + n → dw' j ≡ dw j
  pub at : (j : ℕ) → i ≤ j → j < i + n → ptr' j ≡ ptr j
  pub block : (j : ℕ) → i ≤ j → j < i + n → lba' j ≡ lba j

Agree-tail :
    (raid raid' : NvmeRaid) (dw dw' ptr ptr' lba lba' : ℕ → ℕ) (n i : ℕ)
    → Agree raid raid' dw dw' ptr ptr' lba lba' (suc n) i
    → Agree raid raid' dw dw' ptr ptr' lba lba' n (suc i)
Agree-tail raid raid' dw dw' ptr ptr' lba lba' n i a = record {
  known = λ j low high. a.known j (omega arith) (omega arith);
  count = λ j low high. a.count j (omega arith) (omega arith);
  at = λ j low high. a.at j (omega arith) (omega arith);
  block = λ j low high. a.block j (omega arith) (omega arith);
}

sync_command-handles :
    (d e : Idisk) (ptr lba n : ℕ)
    → handles d ≡ handles e
    → sync_command writes d (address ptr) lba n ≡ sync_command writes e (address ptr) lba n
sync_command-handles d e ptr lba n same =
    let ns : d.ns ≡ e.ns = ap (λ x. x.1) same in
    let qpair : d.qpair ≡ e.qpair = ap (λ x. x.2) same in cc

pub flushes-Agree :
    (raid raid' : NvmeRaid) (dw dw' ptr ptr' lba lba' : ℕ → ℕ) (n i : ℕ)
    → Agree raid raid' dw dw' ptr ptr' lba lba' n i
    → flushes raid' dw' ptr' lba' n i ≡ flushes raid dw ptr lba n i
flushes-Agree raid raid' dw dw' ptr ptr' lba lba' zero i a = refl
flushes-Agree raid raid' dw dw' ptr ptr' lba lba' (suc n) i a =
    let rest =
      flushes-Agree raid raid' dw dw' ptr ptr' lba lba' n (suc i)
        (Agree-tail raid raid' dw dw' ptr ptr' lba lba' n i a) in
    let count = a.count i (omega arith) (omega arith) in
    let at = a.at i (omega arith) (omega arith) in
    let block = a.block i (omega arith) (omega arith) in
    let same =
      sync_command-handles (disk_at raid' i) (disk_at raid i) (ptr i - dw i % super_sector_length)
        (lba i) super_sector_num (a.known i (omega arith) (omega arith)) in
    rw (count, at, block, rest, same)

handles-modify :
    (k : ℕ) (f : Idisk → Idisk) (ds : List Idisk) (j : ℕ)
    → ((d : Idisk) → handles (f d) ≡ handles d)
    → handles (get_or (modify k f ds) j null_disk) ≡ handles (get_or ds j null_disk)
handles-modify k f [] j same = refl
handles-modify zero f (d ∷ ds) zero same = same d
handles-modify zero f (d ∷ ds) (suc j) same = refl
handles-modify (suc k) f (d ∷ ds) zero same = refl
handles-modify (suc k) f (d ∷ ds) (suc j) same = handles-modify k f ds j same

handles-grow_file :
    (sp : Spcap) (j : ℕ) → handles (disk_at (grow_file sp) j) ≡ handles (disk_at sp.raid j)
unfolding grow_file modify_entry
handles-grow_file sp j = handles-modify sp.file.disk _ sp.raid.disk j (λ d. refl)

put-other : (f : ℕ → ℕ) (i v j : ℕ) → i < j → put f i v j ≡ f j
put-other f i v j lt = ground arith

pub grown-other : (f : ℕ → ℕ) (i n j : ℕ) → j ≢ i → grown f i n j ≡ f j
grown-other f i n j ne = ground arith

module _ (D : Driver) where
  -- One write of `flushBuffs`, and the state that it leaves.
  flush_at-done :
      (sp : Spcap) (i from : ℕ) (s : Sio)
      → Works D
      → (q : Spcap) × (s' : Sio) × (flush_at D sp i from s ≡ done (q, s'))
        × (commands s'.history
            ≡ commands s.history
              ++ sync_command writes
                  (disk_at sp.raid i)
                  (address from)
                  (sp.curlba i)
                  super_sector_num
                ∷ [])
        × (q.raid.numdisks ≡ sp.raid.numdisks)
        × ((n : ℕ)
            → Agree sp.raid q.raid sp.data_wrote q.data_wrote sp.curr_ptr q.curr_ptr sp.curlba
                q.curlba n
                (suc i))
  unfolding flush_at sio_write grow_file
  flush_at-done sp i from s w =
      let (s', m, e, looked) =
        sio_sync-returns D writes (disk_at sp.raid i) (address from) (sp.curlba i) super_sector_num
          s w in
      let c : Command =
        sync_command writes (disk_at sp.raid i) (address from) (sp.curlba i) super_sector_num in
      (
        record sp {
          curlba = put sp.curlba i (add_u64 (sp.curlba i) super_sector_num);
          raid = grow_file sp;
          curr_ptr =
              (if sp.curr_ptr i == sp.buffs i + buff_size
                then put sp.curr_ptr i (sp.buffs i)
                else sp.curr_ptr);
        },
        s',
        rw (flush_at, ◌>>=◌, e),
        ap commands looked ∙ commands-looks (disk_at sp.raid i).qpair m (submit c ∷ s.history),
        refl,
        λ n. record {
          known = λ j low high. handles-grow_file sp j;
          count = λ j low high. refl;
          at = λ j low high. wrapped j low;
          block = λ j low high. put-other sp.curlba i _ j low;
        },
      )
    where
      wrapped :
          (j : ℕ)
          → i < j
          → (if sp.curr_ptr i == sp.buffs i + buff_size
                then put sp.curr_ptr i (sp.buffs i)
                else sp.curr_ptr)
              j
            ≡ sp.curr_ptr j
      wrapped j lt = elim (Bool-cases (sp.curr_ptr i == sp.buffs i + buff_size)) [
        | inl full ↦ rw full (put-other sp.curr_ptr i (sp.buffs i) j lt)
        | inr space ↦ rw space
      ]

  pub flush_buffs-done :
      (n i : ℕ) (sp : Spcap) (s : Sio)
      → Works D
      → (q : Spcap) × (s' : Sio) × (flush_buffs D n i sp s ≡ done (q, s'))
        × (commands s'.history
            ≡ commands s.history ++ flushes sp.raid sp.data_wrote sp.curr_ptr sp.curlba n i)
        × (q.raid.numdisks ≡ sp.raid.numdisks)
  unfolding flush_buffs
  flush_buffs-done zero i sp s w = (sp, s, refl, sym (append-nil (commands s.history)), refl)
  flush_buffs-done (suc n) i sp s w =
      elim (Bool-cases (sp.data_wrote i % super_sector_length == 0)) [
        | inl whole ↦
            let (q, s', e, given, same) = flush_buffs-done n (suc i) sp s w in
            (q, s', rw (flush_buffs, whole) e, rw whole given, same)
        | inr part ↦
            let from : ℕ = sp.curr_ptr i - sp.data_wrote i % super_sector_length in
            let (sp1, s1, e1, given1, same1, agree) = flush_at-done sp i from s w in
            let (q, s', e, given, same) = flush_buffs-done n (suc i) sp1 s1 w in
            let c : Command =
              sync_command writes (disk_at sp.raid i) (address from) (sp.curlba i)
                super_sector_num in
            let rest : List Command =
              flushes sp.raid sp.data_wrote sp.curr_ptr sp.curlba n (suc i) in
            let later =
              flushes-Agree sp.raid sp1.raid sp.data_wrote sp1.data_wrote sp.curr_ptr sp1.curr_ptr
                sp.curlba sp1.curlba n (suc i) (agree n) in
            (
              q,
              s',
              rw (flush_buffs, part)
                  (bind-done (flush_at D sp i from) (λ p. flush_buffs D n (suc i) p) s e1 ∙ e),
              rw part
                  (given ∙ ap₂ ◌++◌ given1 later ∙ append_assoc (commands s.history) (c ∷ []) rest),
              same ∙ same1,
            )
      ]
