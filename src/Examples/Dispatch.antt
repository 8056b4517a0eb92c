-- ===== src/Examples/Dispatch.antt =====
-- The XDP programs on one packet each.
use aceteam_bachelor_thesis.Prelude.{ℕ, ◌≡◌, ◌⊎◌, ◌↔◌, refl, [], ◌∷◌, Option, none, some, arith}
use aceteam_bachelor_thesis.Abi.{
  PacketKey, RxMeta, IngressRecord, path_cpumap, path_xsk, effective_requested_path,
}
use aceteam_bachelor_thesis.Abi.HashMap.{HashMap}
use aceteam_bachelor_thesis.Abi.Stat.{Stats}
use aceteam_bachelor_thesis.Abi.Wire.{
  decode_header, encode_header, sender_header, be_value, be_bytes, load, read_header,
  is_experiment_header,
}
use aceteam_bachelor_thesis.Xdp.{experiment, parse_experiment_packet}
use aceteam_bachelor_thesis.Xdp.Envelope.{IsExperimentPacket, parse_experiment_packet_iff}
use aceteam_bachelor_thesis.Xdp.Measure.{Helpers, stamp, State, Outcome, xdp_dispatch}
use aceteam_bachelor_thesis.Xdp.Measure.Counters.{
  CountsOne, xdp_dispatch_counts, xdp_dispatch_returns,
}
use aceteam_bachelor_thesis.Xdp.Measure.Records.{
  Describes, xdp_dispatch_redirect, xdp_dispatch_keeps_first,
}
use aceteam_bachelor_thesis.Examples.Packets.{key, packet}
use aceteam_bachelor_thesis.Examples.Maps.{bounded}

abbrev zeros : Stats
zeros id = 0

parse_experiment_packet_iff_example :
    (parse_experiment_packet (packet 1) zeros ≡ some (experiment key path_cpumap, zeros))
    ↔ IsExperimentPacket (packet 1) key path_cpumap
parse_experiment_packet_iff_example = parse_experiment_packet_iff (packet 1) zeros key path_cpumap

abbrev helpers : Helpers
helpers = record {
  now = 1000;
  meta_room = some 56;
  rx_queue = 0;
  rx_timestamp = stamp 900;
  redirect_cpu = λ cpu. 4;
  redirect_xsk = λ queue. 4;
}

abbrev ingress_map : HashMap PacketKey IngressRecord
ingress_map = bounded 8

abbrev old_record : IngressRecord
old_record = record {
  flow_id = 9;
  rx_queue = 0;
  sequence = 1;
  hw_rx_ns = 1;
  initial_xdp_ns = 2;
  flags = 19;
  requested_path = 0;
  timestamp_error = 0;
}

abbrev old_key : PacketKey
old_key = record { flow_id = 9; reserved = 0; sequence = 1 }

abbrev start : State ingress_map
start = record { stats = zeros; records = (old_key, old_record) ∷ [] }

abbrev outcome_of : Option (Outcome ingress_map) → Outcome ingress_map
outcome_of none = record { action = 0; meta = none; state = start }
outcome_of (some o) = o

abbrev run : ℕ → Outcome ingress_map
run mode = outcome_of (xdp_dispatch ingress_map mode helpers (packet 1) start)

run_returns : (mode : ℕ) → xdp_dispatch ingress_map mode helpers (packet 1) start ≡ some (run mode)
run_returns mode =
    let (o, e) = xdp_dispatch_returns ingress_map mode helpers (packet 1) start in rw e refl

xdp_dispatch_counts_example :
    CountsOne zeros (run 0).state.stats (run 0).action × ((run 0).state.stats 3 ≡ 1)
xdp_dispatch_counts_example =
    xdp_dispatch_counts ingress_map 0 helpers (packet 1) start (run 0) (omega arith) (run_returns 0)

xdp_dispatch_returns_example :
    (o : Outcome ingress_map) × (xdp_dispatch ingress_map 0 helpers (packet 1) start ≡ some o)
xdp_dispatch_returns_example = xdp_dispatch_returns ingress_map 0 helpers (packet 1) start

xdp_dispatch_redirect_example :
    (k : PacketKey) × (path : ℕ) × (m : RxMeta) × IsExperimentPacket (packet 1) k path
    × ((run 0).meta ≡ some m)
    × Describes helpers k (effective_requested_path 0 path) m
    × ((effective_requested_path 0 path ≡ path_cpumap)
        ⊎ (effective_requested_path 0 path ≡ path_xsk))
unfolding xdp_dispatch be_value be_bytes encode_header sender_header decode_header read_header
    is_experiment_header load parse_experiment_packet effective_requested_path
xdp_dispatch_redirect_example =
    xdp_dispatch_redirect ingress_map 0 helpers (packet 1) start (run 0) (run_returns 0) refl

xdp_dispatch_keeps_first_example :
    ingress_map.lookup (run 0).state.records old_key ≡ some old_record
xdp_dispatch_keeps_first_example =
    xdp_dispatch_keeps_first ingress_map 0 helpers (packet 1) start (run 0) old_key old_record
      (run_returns 0) refl
