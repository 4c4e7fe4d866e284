-- ===== src/Fs/Reads.antt =====
-- src/fs.c: the tables that are in the first sectors of the NVMes, and what the first loop of
-- `createRaid` reads there.
use nvme_dpdk_pcapreplay.Prelude.{
  true, ◌==◌, ℕ, zero, suc, ◌+◌, ◌*◌, ◌≡◌, ◌≢◌, refl, sym, ap, ◌∙◌, Bool, true, false, Option, none,
  some, List, [], ◌∷◌, ◌==◌, ◌&&◌, if◌then◌else◌, length, done, arith,
}
use nvme_dpdk_pcapreplay.Layout.{MetaSector, Idisk, sector_length}
use nvme_dpdk_pcapreplay.Table.{check_meta}
use nvme_dpdk_pcapreplay.Driver.{
  Payload, address, sector, bytes, Direction, reads, writes, Command, Call, malloc, copy, submit,
  process, Driver, Sio, ◌>>=◌, bind-done,
}
use nvme_dpdk_pcapreplay.Simpleio.{
  sio_read, sio_read_pinit, sio_write_pinit, sio_sector_size, pin_memory,
}
use nvme_dpdk_pcapreplay.Simpleio.Sync.{
  Works, looks, sync_command, sio_sync-returns, sio_write_pinit-returns,
}
use nvme_dpdk_pcapreplay.Fs.{write_tables, load_disks}

abbrev pub is_write : Direction → Bool
is_write reads = false
is_write writes = true

-- What a payload puts into a sector: not known, unless it is a table.
abbrev pub put_there : Payload → Option MetaSector
put_there (sector m) = some m
put_there (address a) = none
put_there (bytes bs) = none

-- The table that the first sector of an NVMe holds after these calls, as far as they tell.
unfoldable pub sector_zero : Driver → ℕ → List Call → Option MetaSector
sector_zero D ns [] = none
sector_zero D ns (malloc n ∷ h) = sector_zero D ns h
sector_zero D ns (copy n to from ∷ h) = sector_zero D ns h
sector_zero D ns (process q ∷ h) = sector_zero D ns h
sector_zero D ns (submit c ∷ h) =
    let before = sector_zero D ns h in
    if D.submit_rc (submit c ∷ h) == 0 && (is_write c.direction && (c.ns == ns && c.lba == 0))
    then put_there c.payload
    else before

-- A read of the first sector gives the table that is there.
abbrev pub Remembers : Driver → Type 0
Remembers D =
    (dsk : Idisk) (at m : ℕ) (h : List Call) (t : MetaSector)
    → sector_zero D dsk.ns h ≡ some t
    → D.read_sector (looks dsk.qpair m (submit (sync_command reads dsk (address at) 0 1) ∷ h)) ≡ t

abbrev pub Each : (Idisk → Type 0) → List Idisk → Type 0
Each P [] = Unit
Each P (d ∷ ds) = P d × Each P ds

pub Each-imp :
    (P Q : Idisk → Type 0) (ds : List Idisk) → ((d : Idisk) → P d → Q d) → Each P ds → Each Q ds
Each-imp P Q [] f h = tt
Each-imp P Q (d ∷ ds) f h = (f d h.0, Each-imp P Q ds f h.1)

-- The NVMes have different handles.
abbrev pub DifferentNs : List Idisk → Type 0
DifferentNs [] = Unit
DifferentNs (d ∷ ds) = Each (λ e. e.ns ≢ d.ns) ds × DifferentNs ds

-- The first sector of each NVMe holds its table.
abbrev pub Holding : Driver → Sio → List Idisk → Type 0
Holding D s = Each (λ d. sector_zero D d.ns s.history ≡ some d.msector)

module _ (D : Driver) where
  zero-looks : (ns q m : ℕ) (h : List Call) → sector_zero D ns (looks q m h) ≡ sector_zero D ns h
  unfolding sector_zero
  zero-looks ns q zero h = refl
  zero-looks ns q (suc m) h = zero-looks ns q m (process q ∷ h)

  zero-write_same :
      (d : Idisk) (k : ℕ) (h : List Call)
      → Works D
      → sector_zero D d.ns (submit (sync_command writes d (sector d.msector) 0 1) ∷ malloc k ∷ h)
        ≡ some d.msector
  unfolding sector_zero
  zero-write_same d k h w =
      let c : Command = sync_command writes d (sector d.msector) 0 1 in
      ground (arith, w.accepts (submit c ∷ malloc k ∷ h))

  zero-write_other :
      (ns : ℕ) (d : Idisk) (k : ℕ) (h : List Call)
      → ns ≢ d.ns
      → sector_zero D ns (submit (sync_command writes d (sector d.msector) 0 1) ∷ malloc k ∷ h)
        ≡ sector_zero D ns h
  unfolding sector_zero
  zero-write_other ns d k h other = ground arith

  zero-read :
      (ns : ℕ) (d : Idisk) (at k : ℕ) (h : List Call)
      → sector_zero D ns (submit (sync_command reads d (address at) 0 1) ∷ malloc k ∷ h)
        ≡ sector_zero D ns h
  unfolding sector_zero
  zero-read ns d at k h = ground arith

  pub write_tables-Holding :
      (ds : List Idisk) (s : Sio)
      → Works D
      → DifferentNs ds
      → (s' : Sio) × (write_tables D ds s ≡ done (tt, s'))
        × ((ns : ℕ)
            → Each (λ d. d.ns ≢ ns) ds
            → sector_zero D ns s'.history ≡ sector_zero D ns s.history)
        × Holding D s' ds
  unfolding write_tables
  write_tables-Holding [] s w different = (s, refl, λ ns out. refl, tt)
  write_tables-Holding (d ∷ ds) s w different =
      let (s1, m, k, e, h) = sio_write_pinit-returns D d d.msector 0 s w in
      let (s2, e', keep, holding) = write_tables-Holding ds s1 w different.1 in
      let c : Command = sync_command writes d (sector d.msector) 0 1 in
      (
        s2,
        bind-done (sio_write_pinit D d d.msector 0 1) (λ rc. write_tables D ds) s e ∙ e',
        λ ns out.
            keep ns out.1
            ∙ ap (sector_zero D ns) h
            ∙ zero-looks ns d.qpair m _
            ∙ zero-write_other ns d k s.history (λ same. out.0 (sym same)),
        (
          keep d.ns different.0
              ∙ ap (sector_zero D d.ns) h
              ∙ zero-looks d.ns d.qpair m _
              ∙ zero-write_same d k s.history w,
          holding,
        ),
      )

  -- Reading the table of an NVMe gives it, and leaves all tables.
  pub read_table :
      (d : Idisk) (blank : MetaSector) (s : Sio)
      → Works D
      → Remembers D
      → sector_zero D d.ns s.history ≡ some d.msector
      → (s' : Sio) × (sio_read_pinit D (record d { msector = blank }) blank 0 1 s
          ≡ done ((0, d.msector), s'))
        × ((ns : ℕ) → sector_zero D ns s'.history ≡ sector_zero D ns s.history)
  unfolding sio_read_pinit sio_read pin_memory sector_zero
  read_table d blank s w remembers there =
      let size : ℕ = 1 * sio_sector_size D (record d { msector = blank }) in
      let whole : (size == sector_length) ≡ true = ground (arith, w.sectors d.ns) in
      let h : List Call = malloc size ∷ s.history in
      let (at, pinned) = w.memory h in
      let (s', m, e, looked) =
        sio_sync-returns D reads (record d { msector = blank }) (address at) 0 1
          (record s { history = h }) w in
      let read : D.read_sector s'.history ≡ d.msector =
        ap D.read_sector looked ∙ remembers (record d { msector = blank }) at m h d.msector there in
      (
        s',
        rw (sio_read_pinit, pinned, ◌>>=◌, e, whole) (ap (λ t. done ((0, t), s')) read),
        λ ns.
            ap (sector_zero D ns) looked
            ∙ zero-looks ns d.qpair m _
            ∙ zero-read ns (record d { msector = blank }) at size s.history,
      )

-- The same NVMes, with whatever tables are in memory.
abbrev pub SameHandles : List Idisk → List Idisk → Type 0
SameHandles [] [] = Unit
SameHandles [] (e ∷ es) = ⊥
SameHandles (d ∷ ds) [] = ⊥
SameHandles (d ∷ ds) (e ∷ es) = (e ≡ record d { msector = e.msector }) × SameHandles ds es

pub SameHandles-refl : (ds : List Idisk) → SameHandles ds ds
SameHandles-refl [] = tt
SameHandles-refl (d ∷ ds) = (refl, SameHandles-refl ds)

-- The NVMes before their tables are read.
abbrev pub blanked : MetaSector → List Idisk → List Idisk
blanked blank [] = []
blanked blank (d ∷ ds) = record d { msector = blank } ∷ blanked blank ds

pub SameHandles-blanked : (blank : MetaSector) (ds : List Idisk) → SameHandles ds (blanked blank ds)
SameHandles-blanked blank [] = tt
SameHandles-blanked blank (d ∷ ds) = (refl, SameHandles-blanked blank ds)

abbrev pub Formatted : List Idisk → Type 0
Formatted = Each (λ d. check_meta d.msector ≡ true)

-- Whatever is in memory, the first loop of `createRaid` reads the tables that are there.
pub load_disks-Holding :
    (D : Driver) (ds es : List Idisk) (s : Sio)
    → Works D
    → Remembers D
    → SameHandles ds es
    → Holding D s ds
    → Formatted ds
    → (s' : Sio) × (load_disks D es s ≡ done ((ds, length ds), s'))
      × ((ns : ℕ) → sector_zero D ns s'.history ≡ sector_zero D ns s.history)
unfolding load_disks
load_disks-Holding D [] [] s w remembers same holding formatted = (s, refl, λ ns. refl)
load_disks-Holding D [] (e ∷ es) s w remembers same holding formatted = absurd same
load_disks-Holding D (d ∷ ds) [] s w remembers same holding formatted = absurd same
load_disks-Holding D (d ∷ ds) (e ∷ es) s w remembers same holding formatted =
    let (s1, read, keep) = read_table D d e.msector s w remembers holding.0 in
    let (s2, rest, keep') =
      load_disks-Holding D ds es s1 w remembers same.1
        (Each-imp _ _ ds (λ b there. keep b.ns ∙ there) holding.1) formatted.1 in
    let count : length ds + 1 ≡ suc (length ds) = omega arith in
    let first : sio_read_pinit D e e.msector 0 1 s ≡ done ((0, d.msector), s1) =
      ap (λ x. sio_read_pinit D x e.msector 0 1 s) same.0 ∙ read in
    let loaded : record e { msector = d.msector } ≡ d =
      ap (λ (x : Idisk). record x { msector = d.msector }) same.0 in
    (
      s2,
      rw (load_disks, ◌>>=◌, first, rest, formatted.0, count)
          (ap (λ x. done ((x ∷ ds, suc (length ds)), s2)) loaded),
      λ ns. keep' ns ∙ keep ns,
    )
