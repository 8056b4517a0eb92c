-- ===== src/Xdp/Measure.antt =====
-- BPF/xdp_kern.c from `record_ingress` to `xdp_dispatch`. What the kernel's helpers answer in one
-- run of the program is a record, since the program calls each of them at most once.
pub mod Counters
pub mod Records
use aceteam_bachelor_thesis.Prelude.{
  ℕ, ◌+◌, ◌-◌, ◌%◌, ◌^◌, Option, none, some, List, ltb, ◌==◌, if◌then◌else◌, ◌>>=◌,
}
use aceteam_bachelor_thesis.Abi.{
  rx_meta_magic, rx_meta_version, rx_meta_size, rt_cpu, path_pass, path_cpumap, path_xsk, PacketKey,
  RxMeta, IngressRecord, effective_requested_path, set_flag, meta_packet_id_valid,
  meta_path_requested, meta_hwts_valid, meta_timestamp_error,
}
use aceteam_bachelor_thesis.Abi.HashMap.{HashMap, eexist, bpf_noexist}
use aceteam_bachelor_thesis.Abi.Stat
use aceteam_bachelor_thesis.Abi.Stat.{Stats, count_stat}
use aceteam_bachelor_thesis.Xdp.{Parsed, unrelated, invalid, experiment, parse_experiment_packet}

abbrev pub xdp_pass : ℕ
xdp_pass = 2

abbrev pub xdp_redirect : ℕ
xdp_redirect = 4

-- A kernel call that returns 0 and a value, or -e.
pub data Timestamp : Type 0 where
  stamp : ℕ → Timestamp
  failed : ℕ → Timestamp

-- `now` is bpf_ktime_get_ns at entry. `meta_room` is the room between `data_meta` and `data` after
-- bpf_xdp_adjust_meta, and `none` if that fails. The last two are bpf_redirect_map on the maps.
pub record Helpers : Type 0 where
  pub now : ℕ
  pub meta_room : Option ℕ
  pub rx_queue : ℕ
  pub rx_timestamp : Timestamp
  pub redirect_cpu : ℕ → ℕ
  pub redirect_xsk : ℕ → ℕ

-- (__s16)(-e), as a bit pattern.
pub s16_neg : ℕ → ℕ
s16_neg e = (2 ^ 16 - e % 2 ^ 16) % 2 ^ 16

ingress_record : PacketKey → RxMeta → IngressRecord
ingress_record key meta = record {
  flow_id = key.flow_id;
  rx_queue = meta.rx_queue;
  sequence = key.sequence;
  hw_rx_ns = meta.hw_rx_ns;
  initial_xdp_ns = meta.initial_xdp_ns;
  flags = meta.flags;
  requested_path = meta.requested_path;
  timestamp_error = meta.timestamp_error;
}

-- The metadata after the memset and the plain fields.
base_meta : Helpers → PacketKey → ℕ → RxMeta
base_meta e key path = record {
  magic = rx_meta_magic;
  version = rx_meta_version;
  size = rx_meta_size;
  flags = meta_packet_id_valid + meta_path_requested;
  flow_id = key.flow_id;
  sequence = key.sequence;
  hw_rx_ns = 0;
  initial_xdp_ns = e.now;
  cpumap_ns = 0;
  rx_queue = e.rx_queue;
  requested_path = path;
  timestamp_error = 0;
}

-- With the answer of bpf_xdp_metadata_rx_timestamp, and the counter of that answer.
stamp_meta : Timestamp → RxMeta → RxMeta × ℕ
unfolding s16_neg
stamp_meta (stamp ns) m =
    (record m { hw_rx_ns = ns; flags = set_flag m.flags meta_hwts_valid }, Stat.hwts_valid)
stamp_meta (failed err) m = (
  record m { flags = set_flag m.flags meta_timestamp_error; timestamp_error = s16_neg err },
  Stat.hwts_error,
)

-- The counter that answers `bpf_map_update_elem`'s result.
unfoldable pub update_stat : ℕ → ℕ → ℕ → ℕ → ℕ
update_stat err recorded duplicate failure =
    if err == 0 then recorded else if err == eexist then duplicate else failure

-- The action, and the counters, of `dispatch_requested_path`.
dispatch_requested_path : Helpers → ℕ → Stats → ℕ × Stats
dispatch_requested_path e path s =
    if path == path_cpumap
    then if e.redirect_cpu rt_cpu == xdp_redirect
      then (e.redirect_cpu rt_cpu, count_stat s Stat.cpumap)
      else (xdp_pass, count_stat (count_stat s Stat.cpumap_fallback) Stat.pass)
    else if path == path_xsk
    then if e.redirect_xsk e.rx_queue == xdp_redirect
      then (e.redirect_xsk e.rx_queue, count_stat s Stat.xsk)
      else (xdp_pass, count_stat (count_stat s Stat.xsk_fallback) Stat.pass)
    else (xdp_pass, count_stat (count_stat s Stat.experiment_pass) Stat.pass)

module _ (ingress : HashMap PacketKey IngressRecord) where
  pub record State : Type 0 where
    pub stats : Stats
    pub records : ingress.Map

  -- What the program leaves: the action, the metadata before the packet, and the maps.
  pub record Outcome : Type 0 where
    pub action : ℕ
    pub meta : Option RxMeta
    pub state : State

  record_ingress : PacketKey → RxMeta → State → State
  unfolding ingress_record update_stat
  record_ingress key meta s =
      let (records, err) = ingress.update s.records key (ingress_record key meta) bpf_noexist in
      record {
        stats = count_stat s.stats (
            update_stat err Stat.ingress_recorded Stat.ingress_duplicate Stat.ingress_update_error);
        records = records;
      }

  -- From the memset of the metadata on.
  write_meta : Helpers → PacketKey → ℕ → State → Option RxMeta × State
  unfolding base_meta stamp_meta record_ingress
  write_meta e key path s =
      let (meta, id) = stamp_meta e.rx_timestamp (base_meta e key path) in
      (some meta, record_ingress key meta (record s { stats = count_stat s.stats id }))

  prepare_in : Option ℕ → Helpers → PacketKey → ℕ → State → Option RxMeta × State
  unfolding write_meta
  prepare_in none e key path s =
      (none, record s { stats = count_stat s.stats Stat.meta_adjust_error })
  prepare_in (some room) e key path s =
      if ltb room rx_meta_size
      then (none, record s { stats = count_stat s.stats Stat.meta_bounds_error })
      else write_meta e key path s

  -- `none` is the result -1; the state holds its counter.
  prepare_measurement_metadata : Helpers → PacketKey → ℕ → State → Option RxMeta × State
  unfolding prepare_in
  prepare_measurement_metadata e key path s = prepare_in e.meta_room e key path s

  pass_unmeasured : State → Outcome
  pass_unmeasured s = record {
    action = xdp_pass;
    meta = none;
    state = record s { stats = count_stat s.stats Stat.pass };
  }

  -- What follows the preparation.
  deliver : Helpers → ℕ → Option RxMeta → State → Outcome
  unfolding dispatch_requested_path pass_unmeasured
  deliver e path none s = pass_unmeasured s
  deliver e path (some meta) s =
      let (action, stats) = dispatch_requested_path e path s.stats in
      record { action = action; meta = some meta; state = record s { stats = stats } }

  -- What follows the parser.
  handle : ℕ → Helpers → Parsed → State → Outcome
  unfolding deliver prepare_measurement_metadata
  handle mode e unrelated s = pass_unmeasured s
  handle mode e invalid s = pass_unmeasured s
  handle mode e (experiment key path) s =
      let effective = effective_requested_path mode path in
      let (meta, t) = prepare_measurement_metadata e key effective s in deliver e effective meta t

  -- The program under the forwarding mode `mode`. `none` would be a read past `data_end`.
  unfoldable pub xdp_dispatch : ℕ → Helpers → List ℕ → State → Option Outcome
  unfolding handle
  xdp_dispatch mode e p s = do
    (parsed, stats) ← parse_experiment_packet p (count_stat s.stats Stat.total)
    some (handle mode e parsed (record s { stats = stats }))
