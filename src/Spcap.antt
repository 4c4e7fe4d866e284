-- ===== src/Spcap.antt =====
-- src/spcap.c: the buffers through which a capture file is written to the raid, one for each NVMe.
-- `uint_fast16_t` has 64 bits, as in the C library of x86-64 Linux.
pub mod Balance
pub mod Unflushed
pub mod Flushes
pub mod Ended
pub mod Sums
pub mod Overrun
use nvme_dpdk_pcapreplay.Prelude.{
  ℕ, zero, suc, ◌+◌, ◌-◌, ◌*◌, ◌/◌, ◌%◌, ◌^◌, Bool, true, false, Option, none, some, List, [], ◌∷◌,
  ltb, leb, ◌==◌, if◌then◌else◌, ◌&&◌, ◌++◌, get_or, Outcome, done, exits, hangs, overruns, not,
  length,
}
use nvme_dpdk_pcapreplay.Layout.{
  le_bytes, MetaFile, Idisk, NvmeRaid, active, null_disk, super_sector_num, super_sector_length,
  add_u64, u8,
}
use nvme_dpdk_pcapreplay.Stripe.{super_getdisk, super_getdisklba}
use nvme_dpdk_pcapreplay.Table.{EntryRef, modify_entry}
use nvme_dpdk_pcapreplay.Driver.{address, Driver, Sio, Io, ◌>>=◌, ◌>>◌, return, minus_one}
use nvme_dpdk_pcapreplay.Simpleio.{disk_at, pin_memory, sio_write}
use nvme_dpdk_pcapreplay.Fs.{update_raid}

-- BUFFSIZE
abbrev pub buff_size : ℕ
buff_size = super_sector_length * 3

-- `spcap`: its arrays are functions of the disk, its file is an entry of the raid's tables, and the
-- memory that it writes is a function of the address. A NULL pointer is 0.
pub record Spcap : Type 0 where
  pub raid : NvmeRaid
  pub file : EntryRef
  pub memory : ℕ → ℕ
  pub buffs : ℕ → ℕ
  pub curr_ptr : ℕ → ℕ
  pub curlba : ℕ → ℕ
  pub data_wrote : ℕ → ℕ

abbrev pub put : (ℕ → ℕ) → ℕ → ℕ → ℕ → ℕ
put f i v j = if j == i then v else f j

-- `memcpy (dst, payload, n)` of at most the whole payload.
unfoldable pub memcpy : (ℕ → ℕ) → ℕ → List ℕ → ℕ → ℕ → ℕ
memcpy mem dst payload n a =
    if leb dst a && ltb a (dst + n) then get_or payload (a - dst) 0 else mem a

-- `file->endBlock += SUPERSECTORNUM`
unfoldable pub grow_file : Spcap → NvmeRaid
unfolding modify_entry
grow_file sp = record sp.raid {
  disk =
      modify_entry sp.file (λ e. record e { end_block = add_u64 e.end_block super_sector_num })
        sp.raid.disk;
}

-- `spcapDstDisk`: the loop from disk `i` on, with the least count so far and its disk.
unfoldable pub least_from : (ℕ → ℕ) → ℕ → ℕ → ℕ → ℕ → ℕ
least_from data_wrote zero i dw disk_id = disk_id
least_from data_wrote (suc n) i dw disk_id =
    let here : Bool = ltb (data_wrote i) dw in
    least_from data_wrote n (suc i) (if here then data_wrote i else dw)
      (if here then i else disk_id)

unfoldable pub spcap_dst_disk : Spcap → ℕ
unfolding least_from
spcap_dst_disk sp = least_from sp.data_wrote sp.raid.numdisks 0 (sp.data_wrote 0) 0

-- `spcap_header`
unfoldable pub header_bytes : ℕ → ℕ → ℕ → List ℕ
unfolding le_bytes
header_bytes nsw8 size esize = le_bytes 4 nsw8 ++ (le_bytes 2 size ++ le_bytes 2 esize)

-- sizeof (spcap_header)
abbrev pub header_length : ℕ
header_length = 8

-- `toWrite` of `writeBuff`
abbrev pub to_write : ℕ → ℕ → ℕ
to_write data_wrote size =
    if ltb super_sector_length (data_wrote % super_sector_length + size)
    then super_sector_length - data_wrote % super_sector_length
    else size

-- `!dataWrote % SUPERSECTORLENGTH`, which C reads as `(!dataWrote) % SUPERSECTORLENGTH`.
abbrev pub flush_test : ℕ → ℕ
flush_test data_wrote = (if data_wrote == 0 then 1 else 0) % super_sector_length

-- Whether a copy of `n` bytes stays inside the disk's buffer, which is there, and the payload.
unfoldable pub has_room : Spcap → ℕ → ℕ → List ℕ → Bool
has_room sp diskid n payload =
    not (sp.buffs diskid == 0)
    && (leb (sp.curr_ptr diskid + n) (sp.buffs diskid + buff_size) && leb n (length payload))

module _ (D : Driver) where
  -- One write of a super sector, and what follows it in `writeBuff` and in `flushBuffs`. A failed
  -- write is only reported.
  unfoldable pub flush_at : Spcap → ℕ → ℕ → Io Spcap
  unfolding grow_file
  flush_at sp diskid from = do
    rc ← sio_write D (disk_at sp.raid diskid) (address from) (sp.curlba diskid) super_sector_num
    return (record sp {
      curlba = put sp.curlba diskid (add_u64 (sp.curlba diskid) super_sector_num);
      raid = grow_file sp;
      curr_ptr =
          (if sp.curr_ptr diskid == sp.buffs diskid + buff_size
            then put sp.curr_ptr diskid (sp.buffs diskid)
            else sp.curr_ptr);
    })

  -- The copy at the head of `writeBuff`, which has room.
  unfoldable pub copied : Spcap → ℕ → ℕ → List ℕ → Spcap
  unfolding memcpy
  copied sp diskid n payload = record sp {
    memory = memcpy sp.memory (sp.curr_ptr diskid) payload n;
    data_wrote = put sp.data_wrote diskid (add_u64 (sp.data_wrote diskid) n);
    curr_ptr = put sp.curr_ptr diskid (sp.curr_ptr diskid + n);
  }

  -- `writeBuff`, which calls itself for what is left, with the same payload.
  unfoldable pub write_buff : ℕ → Spcap → ℕ → ℕ → List ℕ → Io Spcap
  unfolding has_room
  write_buff zero sp diskid size payload s = hangs
  write_buff (suc fuel) sp diskid size payload s =
      let n : ℕ = to_write (sp.data_wrote diskid) size in
      let sp' : Spcap = copied sp diskid n payload in
      let rest = λ (q : Spcap). write_buff fuel q diskid (size - n) payload in
      if has_room sp diskid n payload
      then ((if flush_test (sp'.data_wrote diskid) == 0
              then return sp'
              else flush_at sp' diskid (sp'.curr_ptr diskid - super_sector_length))
            >>= λ q. if size - n == 0 then return q else rest q)
          s
      else overruns

  -- `writePkt`, `writePCAPPkt`
  unfoldable pub write_pkt : Spcap → ℕ → ℕ → ℕ → List ℕ → Io Spcap
  unfolding header_bytes
  write_pkt sp nsw8 size esize payload = do
    let disk = spcap_dst_disk sp
    q ← write_buff (suc header_length) sp disk header_length (header_bytes nsw8 size esize)
    write_buff (suc size) q disk size payload

  -- What pcap_next gives: the two lengths of its header, and the packet.
  unfoldable pub write_pcap_pkt : Spcap → ℕ → ℕ → List ℕ → Io Spcap
  unfolding write_pkt
  write_pcap_pkt sp len caplen payload = write_pkt sp 0 len caplen payload

  -- The loop of `writePCAP2raid`, over what pcap_next gives until it gives NULL.
  unfoldable pub write_packets : Spcap → List (ℕ × ℕ × List ℕ) → Io Spcap
  unfolding write_pcap_pkt
  write_packets sp [] = return sp
  write_packets sp ((len, caplen, payload) ∷ pkts) =
      write_pcap_pkt sp len caplen payload >>= λ q. write_packets q pkts

  -- `writePCAP2raid`, with what pcap_open_offline opens.
  unfoldable pub write_pcap2raid : Spcap → Option (List (ℕ × ℕ × List ℕ)) → Io Spcap
  unfolding write_packets
  write_pcap2raid sp none s = exits 1
  write_pcap2raid sp (some pkts) s = write_packets sp pkts s

  -- `flushBuffs`, from disk `i` on.
  unfoldable pub flush_buffs : ℕ → ℕ → Spcap → Io Spcap
  unfolding flush_at
  flush_buffs zero i sp = return sp
  flush_buffs (suc n) i sp =
      (if sp.data_wrote i % super_sector_length == 0
        then return sp
        else flush_at sp i (sp.curr_ptr i - sp.data_wrote i % super_sector_length))
      >>= λ q. flush_buffs n (suc i) q

  -- The loop of `initSpcap`, from disk `i` on: the status, and the buffers as far as they were made.
  unfoldable pub init_from : ℕ → ℕ → ℕ → Spcap → Io (ℕ × Spcap)
  init_from zero i start sp s = done ((0, sp), s)
  init_from (suc n) i start sp s =
      let lba : ℕ = add_u64 start (i * super_sector_num) in
      let dsk : ℕ = super_getdisk sp.raid lba in
      let (mem, s') = pin_memory D buff_size s in
      elim mem [
        | none ↦ done (
          (minus_one, record sp { buffs = put sp.buffs dsk 0; curr_ptr = put sp.curr_ptr dsk 0 }),
          s',
        )
        | some at ↦
            init_from n (suc i) start
              (record sp {
                memory = memcpy sp.memory at [] buff_size;
                buffs = put sp.buffs dsk at;
                curr_ptr = put sp.curr_ptr dsk at;
                data_wrote = put sp.data_wrote dsk 0;
                curlba = put sp.curlba dsk (super_getdisklba sp.raid lba);
              })
              s'
      ]

  -- `initSpcap` for a file that starts at `start`.
  unfoldable pub init_spcap : (ℕ → ℕ) → NvmeRaid → EntryRef → ℕ → Io (ℕ × Spcap)
  unfolding init_from
  init_spcap memory raid file start = init_from raid.numdisks 0 start (record {
    raid = raid;
    file = file;
    memory = memory;
    buffs = λ d. 0;
    curr_ptr = λ d. 0;
    curlba = λ d. 0;
    data_wrote = λ d. 0;
  })

  -- The first loop of `freeSpcap`: an empty header on each disk from `i` on.
  unfoldable pub end_marks : ℕ → ℕ → Spcap → Io Spcap
  unfolding header_bytes
  end_marks zero i sp = return sp
  end_marks (suc n) i sp =
      write_buff (suc header_length) sp i header_length (header_bytes 0 0 0) >>= λ q.
      end_marks n (suc i) q

  -- `freeSpcap`, which then stores the raid's tables; the buffers are given back.
  unfoldable pub free_spcap : Spcap → Io Spcap
  unfolding end_marks flush_buffs
  free_spcap sp = do
    q ← end_marks sp.raid.numdisks 0 sp
    p ← flush_buffs q.raid.numdisks 0 q
    update_raid D p.raid
    return p
