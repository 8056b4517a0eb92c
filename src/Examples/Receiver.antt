-- ===== src/Examples/Receiver.antt =====
-- The CPUMAP program and the AF_XDP receiver on one packet each.
use aceteam_bachelor_thesis.Prelude.{
  ℕ, ◌+◌, ◌-◌, ◌≡◌, ◌⊎◌, ◌↔◌, refl, true, List, [], ◌∷◌, some, arith, get_or,
}
use aceteam_bachelor_thesis.Abi.{
  PacketKey, RxMeta, CpumapRecord, path_xsk, has_flag, meta_cpumap_seen, meta_hwts_valid,
}
use aceteam_bachelor_thesis.Abi.HashMap.{HashMap}
use aceteam_bachelor_thesis.Abi.Stat
use aceteam_bachelor_thesis.Abi.Stat.{Stats}
use aceteam_bachelor_thesis.Xdp.{experiment, parse_experiment_packet}
use aceteam_bachelor_thesis.Xdp.Measure.{Helpers, stamp, xdp_pass}
use aceteam_bachelor_thesis.Xdp.Measure.Records.{Describes}
use aceteam_bachelor_thesis.Xdp.Cpumap.{RemoteContext, State, xdp_cpumap_measure}
use aceteam_bachelor_thesis.Xdp.Cpumap.Chain.{
  terminal, arrival, xdp_cpumap_measure_counts, xdp_cpumap_measure-Describes,
}
use aceteam_bachelor_thesis.Afxdp.Packet.{PacketId, inspect_packet}
use aceteam_bachelor_thesis.Afxdp.Packet
use aceteam_bachelor_thesis.Afxdp.Packet.Agreement.{key_of, classifier_receiver_agree}
use aceteam_bachelor_thesis.Afxdp.Umem.{
  Descriptor, Address, Umem, validate_rx_descriptor, claim_frames, invariant_error, roll_back,
  take_frame, euclean,
}
use aceteam_bachelor_thesis.Afxdp.Umem.Rollback.{SameOwners, claim_frames_restores}
use aceteam_bachelor_thesis.Afxdp.Metadata.{
  Memory, decode_meta, XskUserRecord, read_xdp_metadata, clear_xdp_metadata,
}
use aceteam_bachelor_thesis.Afxdp.Metadata.Fresh.{
  InFront, Trusts, read_xdp_metadata-Trusts, read-clear_xdp_metadata,
}
use aceteam_bachelor_thesis.Afxdp.Batch.{at, Receiver, receive_batch}
use aceteam_bachelor_thesis.Afxdp.Batch.Conservation.{Conserves, receive_batch-Conserves}
use aceteam_bachelor_thesis.Examples.Packets.{key, packet}
use aceteam_bachelor_thesis.Abi.HashMap.{bpf_noexist}
use aceteam_bachelor_thesis.Examples.Maps.{bounded}

abbrev zeros : Stats
zeros id = 0

abbrev helpers : Helpers
helpers = record {
  now = 1000;
  meta_room = some 56;
  rx_queue = 0;
  rx_timestamp = stamp 900;
  redirect_cpu = λ cpu. 4;
  redirect_xsk = λ queue. 4;
}

-- The metadata of the packet for a path.
abbrev meta : ℕ → RxMeta
meta path = record {
  magic = 0x4143454d;
  version = 1;
  size = 56;
  flags = 19;
  flow_id = 7;
  sequence = 5;
  hw_rx_ns = 900;
  initial_xdp_ns = 1000;
  cpumap_ns = 0;
  rx_queue = 0;
  requested_path = path;
  timestamp_error = 0;
}

meta-Describes : (path : ℕ) → Describes helpers key path (meta path)
meta-Describes path = record {
  magic = refl;
  version = refl;
  size = refl;
  identified = refl;
  flow_id = refl;
  sequence = refl;
  requested_path = refl;
  initial_xdp_ns = refl;
  rx_queue = refl;
  hwts_valid = (λ h. (900, refl), λ h. refl);
  hw_rx_ns = λ ns h. stamp_injective ns h;
  hwts_failed = (λ h. cc, λ h. cc);
}
  where
    stamp_injective : (ns : ℕ) → stamp 900 ≡ stamp ns → 900 ≡ ns
    stamp_injective ns h = cc

abbrev cpumap_map : HashMap PacketKey CpumapRecord
cpumap_map = bounded 8

abbrev remote : RemoteContext
remote = record { room = 56; meta = meta 1; now = 1500; cpu = 3 }

abbrev start : State cpumap_map
start = record { stats = zeros; records = [] }

xdp_cpumap_measure_counts_example :
    let o = xdp_cpumap_measure cpumap_map remote start in
    (o.action ≡ xdp_pass)
    × (terminal o.state.stats ≡ terminal zeros + 1)
    × (o.state.stats Stat.cpumap ≡ 0)
xdp_cpumap_measure_counts_example = xdp_cpumap_measure_counts cpumap_map remote start (omega arith)

xdp_cpumap_measure-Describes_example :
    let o = xdp_cpumap_measure cpumap_map remote start in
    ((cpumap_map.update [] key (arrival key remote o.meta) bpf_noexist).1 ≡ 0
      → cpumap_map.lookup o.state.records key ≡ some (arrival key remote o.meta))
    × ((j : PacketKey) (v : CpumapRecord)
        → cpumap_map.lookup [] j ≡ some v
        → cpumap_map.lookup o.state.records j ≡ some v)
    × (has_flag o.meta.flags meta_cpumap_seen ≡ true)
    × (has_flag o.meta.flags meta_hwts_valid ≡ true)
xdp_cpumap_measure-Describes_example =
    xdp_cpumap_measure-Describes cpumap_map helpers key remote start refl (omega arith)
      (meta-Describes 1)

classifier_receiver_agree_example :
    (parse_experiment_packet (packet 2) zeros ≡ some (experiment key path_xsk, zeros)) ↔ (
      (id : PacketId) × (inspect_packet (packet 2) ≡ some (Packet.experiment id))
      × (key ≡ key_of id))
classifier_receiver_agree_example = classifier_receiver_agree (packet 2) zeros key

abbrev descriptor : ℕ → Descriptor
descriptor a = record { base = a; data_addr = a; len = 74; options = 0 }

abbrev address : Address
address = record { fill_addr = 4096; data_addr = 4352 }

abbrev umem : Umem
umem = record { frame_in_kernel = λ g. true; userspace_owned_frames = 0; invariant_errors = 0 }

-- The kernel hands the same frame out twice.
abbrev twice : List Descriptor
twice = descriptor 4352 ∷ descriptor 4400 ∷ []

abbrev after_twice : Umem
after_twice = invariant_error (roll_back (address ∷ []) (take_frame address umem))

claim_frames_restores_example : SameOwners after_twice umem
unfolding claim_frames roll_back take_frame validate_rx_descriptor
claim_frames_restores_example =
    claim_frames_restores twice umem after_twice euclean (omega arith) refl

-- The metadata's bytes, in front of a packet at 4352.
abbrev memory : Memory
memory a =
    get_or
      (77
        ∷ 69
        ∷ 67
        ∷ 65
        ∷ 1
        ∷ 0
        ∷ 56
        ∷ 0
        ∷ 19
        ∷ 0
        ∷ 0
        ∷ 0
        ∷ 7
        ∷ 0
        ∷ 0
        ∷ 0
        ∷ 5
        ∷ 0
        ∷ 0
        ∷ 0
        ∷ 0
        ∷ 0
        ∷ 0
        ∷ 0
        ∷ 132
        ∷ 3
        ∷ 0
        ∷ 0
        ∷ 0
        ∷ 0
        ∷ 0
        ∷ 0
        ∷ 232
        ∷ 3
        ∷ 0
        ∷ 0
        ∷ 0
        ∷ 0
        ∷ 0
        ∷ 0
        ∷ 0
        ∷ 0
        ∷ 0
        ∷ 0
        ∷ 0
        ∷ 0
        ∷ 0
        ∷ 0
        ∷ 0
        ∷ 0
        ∷ 0
        ∷ 0
        ∷ 2
        ∷ 0
        ∷ 0
        ∷ 0
        ∷ packet 2)
      (a - 4296) 0

abbrev new_user_record : XskUserRecord
new_user_record = record {
  flow_id = 7;
  rx_queue = 0;
  sequence = 5;
  tx_realtime_ns = 1000;
  user_rx_mono_ns = 2000;
  user_rx_real_ns = 3000;
  hw_rx_ns = 0;
  initial_xdp_ns = 0;
  meta_flags = 0;
  requested_path = 0;
  timestamp_error = 0;
  packet_length = 74;
  validation_flags = 0;
}

read_xdp_metadata-Trusts_example :
    ((a : ℕ) × InFront a 4352
      × Trusts
          (decode_meta memory a)
          7
          5
          (read_xdp_metadata memory 4352 7 5 new_user_record).0
          (read_xdp_metadata memory 4352 7 5 new_user_record).1)
    ⊎ (read_xdp_metadata memory 4352 7 5 new_user_record ≡ (new_user_record, true))
read_xdp_metadata-Trusts_example =
    read_xdp_metadata-Trusts memory 4352 7 5 new_user_record (refl, refl, refl, refl, refl, refl)

read-clear_xdp_metadata_example :
    read_xdp_metadata (clear_xdp_metadata memory 4352) 4352 7 6 new_user_record
    ≡ (new_user_record, true)
read-clear_xdp_metadata_example = read-clear_xdp_metadata memory 4352 7 6 new_user_record

abbrev receiver : Receiver
receiver = record {
  umem = umem;
  memory = memory;
  counters = record {
    received_packets = 0;
    received_udp_packets = 0;
    received_experiment_packets = 0;
    malformed_packets = 0;
    unexpected_port_packets = 0;
    metadata_invalid_packets = 0;
    record_overflow_packets = 0;
    recycled_frames = 0;
  };
  records = [];
  fill = [];
  batch_error = 0;
}

receive_batch-Conserves_example :
    Conserves receiver
      (receive_batch 0 16 (descriptor 4352 ∷ []) 1 (λ i. at (2000 + i) 3000) receiver)
receive_batch-Conserves_example =
    receive_batch-Conserves 0 16 (descriptor 4352 ∷ []) 1 (λ i. at (2000 + i) 3000) receiver
      (omega arith) refl
