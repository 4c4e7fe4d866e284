-- ===== src/Tests/Buffers.antt =====
-- The buffers of a capture file.
use nvme_dpdk_pcapreplay.Prelude.{
  List, ◌∷◌, [], some, overruns, replicate, some, [], ℕ, ◌+◌, ◌*◌, ◌^◌, ◌<◌, ◌≡◌, ◌++◌, done, arith,
  if◌then◌else◌, ◌==◌,
}
use nvme_dpdk_pcapreplay.Spcap.{Spcap, spcap_dst_disk, free_spcap, write_pcap2raid}
use nvme_dpdk_pcapreplay.Layout.{active}
use nvme_dpdk_pcapreplay.Driver.{Sio}
use nvme_dpdk_pcapreplay.Spcap.Flushes.{commands, flushes}
use nvme_dpdk_pcapreplay.Spcap.Ended.{table_commands, free_spcap-commands}
use nvme_dpdk_pcapreplay.Spcap.Balance.{IsFirstLeast, spcap_dst_disk-IsFirstLeast}
use nvme_dpdk_pcapreplay.Spcap.Overrun.{Inside, packet_bytes, write_pcap2raid-overruns}
use nvme_dpdk_pcapreplay.Tests.Fixtures.{good_driver, good_driver-Works, start, two_disks}

abbrev buffers : Spcap
buffers = record {
  raid = two_disks;
  file = record { disk = 0; slot = 0 };
  memory = λ a. 0;
  buffs = λ d. 4096 + d * 1000000;
  curr_ptr = λ d. 4096 + d * 1000000;
  curlba = λ d. 256;
  data_wrote = λ d. if d == 0 then 100 else 50;
}

spcap_dst_disk-IsFirstLeast_example : IsFirstLeast buffers.data_wrote 2 (spcap_dst_disk buffers)
spcap_dst_disk-IsFirstLeast_example = spcap_dst_disk-IsFirstLeast buffers (omega arith)

few_counted : (i : ℕ) → buffers.data_wrote i + 8 < 2 ^ 64
few_counted i = ground arith

free_spcap-commands_example :
    (q : Spcap) × (s' : Sio) × (free_spcap good_driver buffers start ≡ done (q, s'))
    × (commands s'.history
        ≡ commands start.history
          ++ (flushes two_disks
                (λ j. buffers.data_wrote j + 8)
                (λ j. buffers.curr_ptr j + 8)
                buffers.curlba
                2
                0
              ++ table_commands (active q.raid)))
free_spcap-commands_example =
    free_spcap-commands good_driver buffers start good_driver-Works few_counted
      (λ j lt. record { there = omega arith; inside = ground arith })

-- Three packets of 300000 bytes, for two buffers of 393216.
abbrev packets : List (ℕ × ℕ × List ℕ)
packets =
    (300000, 300000, replicate 300000 0)
    ∷ (300000, 300000, replicate 300000 1)
    ∷ (300000, 300000, replicate 300000 2)
    ∷ []

buffers-Inside : Inside buffers
buffers-Inside j lt = ground arith

few_packets : (i : ℕ) → buffers.data_wrote i + packet_bytes packets < 2 ^ 64
few_packets i = ground arith

write_pcap2raid-overruns_example :
    write_pcap2raid good_driver buffers (some packets) start ≡ overruns
write_pcap2raid-overruns_example =
    write_pcap2raid-overruns good_driver buffers packets start (omega arith) buffers-Inside
      few_packets (omega arith)
