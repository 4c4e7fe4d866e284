-- ===== src/Spcap/Unflushed.antt =====
-- src/spcap.c, `writeBuff` and its callers: when a buffer is written to the raid.
use nvme_dpdk_pcapreplay.Prelude.{
  ℕ, zero, suc, ◌+◌, ◌-◌, ◌%◌, ◌^◌, ◌≤◌, ◌<◌, ◌≡◌, ◌≢◌, refl, sym, ap, ◌∙◌, inl, inr, true, List,
  arith, false, leb, length, ltb, ◌==◌, if◌then◌else◌, Bool-cases, done,
}
use mathlib.Core.Path.{subst}
use nvme_dpdk_pcapreplay.Layout.{super_sector_length}
use nvme_dpdk_pcapreplay.Driver.{Driver, Sio, ◌>>=◌}
use nvme_dpdk_pcapreplay.Spcap.{
  Spcap, buff_size, has_room, put, to_write, flush_test, copied, write_buff,
}

-- What one call copies: not more than is left, and something if anything is left.
pub to_write-le : (d size : ℕ) → to_write d size ≤ size
to_write-le d size = elim (Bool-cases (ltb super_sector_length (d % super_sector_length + size))) [
  | inl past ↦ rw (past) (ground arith)
  | inr fits ↦ rw (fits) (omega arith)
]

pub to_write-lt : (d size : ℕ) → size ≢ 0 → size - to_write d size < size
to_write-lt d size some_left =
    elim (Bool-cases (ltb super_sector_length (d % super_sector_length + size))) [
      | inl past ↦ rw (past) (omega arith)
      | inr fits ↦ rw (fits) (omega arith)
    ]

pub to_write-pos : (d size : ℕ) → 0 < d + size → 0 < d + to_write d size
to_write-pos d size some_data =
    elim (Bool-cases (ltb super_sector_length (d % super_sector_length + size))) [
      | inl past ↦ rw (past) (omega arith)
      | inr fits ↦ rw (fits) (omega arith)
    ]

flush_test-no : (d : ℕ) → d ≢ 0 → flush_test d ≡ 0
flush_test-no d h = ground arith

-- A place that grows by `n`.
abbrev pub grown : (ℕ → ℕ) → ℕ → ℕ → ℕ → ℕ
grown f i n j = if j == i then f j + n else f j

put-grown : (f : ℕ → ℕ) (i n v : ℕ) → v ≡ f i + n → (j : ℕ) → put f i v j ≡ grown f i n j
put-grown f i n v e j = elim (Bool-cases (j == i)) [
  | inl here ↦ let same : j ≡ i = ground arith in rw (here) (e ∙ ap (λ k. f k + n) (sym same))
  | inr other ↦ rw (other) refl
]

grown-again : (f : ℕ → ℕ) (i n m j : ℕ) → grown (grown f i n) i m j ≡ grown f i (n + m) j
grown-again f i n m j = elim (Bool-cases (j == i)) [
  | inl here ↦ rw (here) (omega arith)
  | inr other ↦ rw (other) refl
]

-- The buffers after `n` more bytes for a disk, with nothing written to the raid.
pub record Held (sp sp' : Spcap) (diskid n : ℕ) : Type 0 where
  pub same_raid : sp'.raid ≡ sp.raid
  pub same_lbas : sp'.curlba ≡ sp.curlba
  pub same_buffs : sp'.buffs ≡ sp.buffs
  pub counted : (i : ℕ) → sp'.data_wrote i ≡ grown sp.data_wrote diskid n i
  pub further : (i : ℕ) → sp'.curr_ptr i ≡ grown sp.curr_ptr diskid n i

grown-≡ : (f g : ℕ → ℕ) (i n : ℕ) → ((j : ℕ) → g j ≡ f j) → (j : ℕ) → grown g i n j ≡ grown f i n j
grown-≡ f g i n e j = ap (λ v. if j == i then v + n else v) (e j)

pub Held-join : (a b c : Spcap) (d n m : ℕ) → Held a b d n → Held b c d m → Held a c d (n + m)
Held-join a b c d n m p q = record {
  same_raid = q.same_raid ∙ p.same_raid;
  same_lbas = q.same_lbas ∙ p.same_lbas;
  same_buffs = q.same_buffs ∙ p.same_buffs;
  counted = λ i.
      q.counted i
      ∙ (grown-≡ (grown a.data_wrote d n) b.data_wrote d m p.counted i
          ∙ grown-again a.data_wrote d n m i);
  further = λ i.
      q.further i
      ∙ (grown-≡ (grown a.curr_ptr d n) b.curr_ptr d m p.further i
          ∙ grown-again a.curr_ptr d n m i);
}

pub grown-here : (f : ℕ → ℕ) (i n : ℕ) → grown f i n i ≡ f i + n
grown-here f i n = ground arith

-- The buffer of a disk is there, and holds so many bytes more.
pub record Room (sp : Spcap) (diskid n : ℕ) : Type 0 where
  pub there : 0 < sp.buffs diskid
  pub inside : sp.curr_ptr diskid + n ≤ sp.buffs diskid + buff_size

Room-has_room :
    (sp : Spcap) (diskid size n : ℕ) (payload : List ℕ)
    → Room sp diskid size
    → n ≤ size
    → size ≤ length payload
    → has_room sp diskid n payload ≡ true
unfolding has_room
Room-has_room sp diskid size n payload room le long =
    let there = room.there in
    let none : (sp.buffs diskid == 0) ≡ false = ground arith in
    let inside : leb (sp.curr_ptr diskid + n) (sp.buffs diskid + buff_size) ≡ true =
      ground (arith, room.inside, le) in
    let whole : leb n (length payload) ≡ true = ground (arith, le, long) in
    rw (none, inside, whole) refl

-- A copy of a part leaves room for the rest.
Room-rest :
    (sp q : Spcap) (diskid n m : ℕ) → Held sp q diskid n → Room sp diskid (n + m) → Room q diskid m
Room-rest sp q diskid n m held room =
    let same : q.buffs diskid ≡ sp.buffs diskid = ap (λ f. f diskid) held.same_buffs in
    let at : q.curr_ptr diskid ≡ sp.curr_ptr diskid + n =
      held.further diskid ∙ grown-here sp.curr_ptr diskid n in
    record {
      there = omega (arith, same, room.there);
      inside = omega (arith, same, at, room.inside);
    }

module _ (D : Driver) (payload : List ℕ) (diskid : ℕ) where
  pub copied-Held :
      (sp : Spcap) (n : ℕ)
      → sp.data_wrote diskid + n < 2 ^ 64
      → Held sp (copied D sp diskid n payload) diskid n
  unfolding copied
  copied-Held sp n small = record {
    same_raid = refl;
    same_lbas = refl;
    same_buffs = refl;
    counted = put-grown sp.data_wrote diskid n _ (omega arith);
    further = put-grown sp.curr_ptr diskid n _ refl;
  }

  -- The call holds what it copies, and then does what is left.
  pub write_buff-step :
      (fuel : ℕ) (sp : Spcap) (size : ℕ) (s : Sio)
      → has_room sp diskid (to_write (sp.data_wrote diskid) size) payload ≡ true
      → 0 < (copied D sp diskid (to_write (sp.data_wrote diskid) size) payload).data_wrote diskid
      → write_buff D (suc fuel) sp diskid size payload s ≡ (
          let n : ℕ = to_write (sp.data_wrote diskid) size in
          let q : Spcap = copied D sp diskid n payload in
          if size - n == 0 then done (q, s) else write_buff D fuel q diskid (size - n) payload s)
  unfolding write_buff
  write_buff-step fuel sp size s room some_data =
      let n : ℕ = to_write (sp.data_wrote diskid) size in
      let q : Spcap = copied D sp diskid n payload in
      let unflushed : flush_test (q.data_wrote diskid) ≡ 0 =
        flush_test-no (q.data_wrote diskid) (omega arith) in
      let test : (flush_test (q.data_wrote diskid) == 0) ≡ true = ground arith in
      elim (Bool-cases (size - n == 0)) [
        | inl all ↦ rw (write_buff, room, test, ◌>>=◌, all) refl
        | inr more ↦ rw (write_buff, room, test, ◌>>=◌, more) refl
      ]

  -- With room, and some data behind it or to add, the call returns, and calls nothing of the driver.
  pub write_buff-Held :
      (fuel : ℕ) (sp : Spcap) (size : ℕ) (s : Sio)
      → size < fuel
      → Room sp diskid size
      → size ≤ length payload
      → 0 < sp.data_wrote diskid + size
      → sp.data_wrote diskid + size < 2 ^ 64
      → (sp' : Spcap) × (write_buff D fuel sp diskid size payload s ≡ done (sp', s))
        × Held sp sp' diskid size
  write_buff-Held zero sp size s enough room long some_data small = absurd (omega arith)
  write_buff-Held (suc fuel) sp size s enough room long some_data small =
      let n : ℕ = to_write (sp.data_wrote diskid) size in
      let few : n ≤ size = to_write-le (sp.data_wrote diskid) size in
      let q : Spcap = copied D sp diskid n payload in
      let held : Held sp q diskid n = copied-Held sp n (omega arith) in
      let count : q.data_wrote diskid ≡ sp.data_wrote diskid + n =
        held.counted diskid ∙ grown-here sp.data_wrote diskid n in
      let pos : 0 < sp.data_wrote diskid + n = to_write-pos (sp.data_wrote diskid) size some_data in
      let step =
        write_buff-step fuel sp size s (Room-has_room sp diskid size n payload room few long)
          (omega arith) in
      elim (Bool-cases (size - n == 0)) [
        | inl all ↦
            let whole : n ≡ size = ground arith in
            (q, step ∙ rw (all) refl, subst (Held sp q diskid) whole held)
        | inr more ↦
            let left : size - n ≢ 0 = ground arith in
            let total : n + (size - n) ≡ size = omega arith in
            let less : size - n < size =
              to_write-lt (sp.data_wrote diskid) size (λ z. omega arith) in
            let (sp', e, held') =
              write_buff-Held fuel q (size - n) s (omega arith)
                (Room-rest sp q diskid n (size - n) held (subst (Room sp diskid) (sym total) room))
                (omega (arith, long)) (omega arith) (omega arith) in
            (
              sp',
              step ∙ (rw (more) e),
              subst (Held sp sp' diskid) total (Held-join sp q sp' diskid n (size - n) held held'),
            )
      ]
