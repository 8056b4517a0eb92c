-- ===== src/Xdp/Cpumap.antt =====
-- BPF/xdp_kern.c: `xdp_cpumap_measure`, the program on the CPU that CPUMAP sends a packet to.
pub mod Chain
use aceteam_bachelor_thesis.Prelude.{ℕ, Option, none, some, not, ◌||◌, ltb, ◌==◌, if◌then◌else◌}
use aceteam_bachelor_thesis.Abi.{
  rx_meta_magic, rx_meta_version, rx_meta_size, path_cpumap, PacketKey, RxMeta, CpumapRecord,
  has_flag, set_flag, meta_packet_id_valid, meta_cpumap_seen,
}
use aceteam_bachelor_thesis.Abi.HashMap.{HashMap, bpf_noexist}
use aceteam_bachelor_thesis.Abi.Stat
use aceteam_bachelor_thesis.Abi.Stat.{Stats, count_stat}
use aceteam_bachelor_thesis.Xdp.Measure.{xdp_pass, update_stat}

-- The packet as this CPU gets it: `room` bytes stand between `data_meta` and `data`, and hold
-- `meta` if they are enough. `now` and `cpu` answer the two helpers.
pub record RemoteContext : Type 0 where
  pub room : ℕ
  pub meta : RxMeta
  pub now : ℕ
  pub cpu : ℕ

cpumap_key : RxMeta → PacketKey
cpumap_key m = record { flow_id = m.flow_id; reserved = 0; sequence = m.sequence }

cpumap_record : RemoteContext → RxMeta → CpumapRecord
cpumap_record c m = record {
  flow_id = m.flow_id;
  cpu = c.cpu;
  sequence = m.sequence;
  cpumap_ns = c.now;
  flags = m.flags;
  requested_path = m.requested_path;
}

-- The metadata with this CPU's arrival.
seen_meta : RemoteContext → RxMeta
seen_meta c = record (c.meta) { cpumap_ns = c.now; flags = set_flag c.meta.flags meta_cpumap_seen }

module _ (cpumap : HashMap PacketKey CpumapRecord) where
  pub record State : Type 0 where
    pub stats : Stats
    pub records : cpumap.Map

  pub record Outcome : Type 0 where
    pub action : ℕ
    pub meta : RxMeta
    pub state : State

  unfoldable pub xdp_cpumap_measure : RemoteContext → State → Outcome
  unfolding cpumap_key cpumap_record seen_meta update_stat
  xdp_cpumap_measure c s =
      if ltb c.room rx_meta_size
        || not (c.meta.magic == rx_meta_magic)
        || not (c.meta.version == rx_meta_version)
        || not (c.meta.size == rx_meta_size)
        || not (has_flag c.meta.flags meta_packet_id_valid)
        || not (c.meta.requested_path == path_cpumap)
      then record {
        action = xdp_pass;
        meta = c.meta;
        state = record s { stats = count_stat s.stats Stat.cpumap_meta_invalid };
      }
      else let m = seen_meta c in
        let (records, err) =
          cpumap.update s.records (cpumap_key m) (cpumap_record c m) bpf_noexist in
        record {
          action = xdp_pass;
          meta = m;
          state = record {
            stats = count_stat s.stats (
                update_stat err Stat.cpumap_recorded Stat.cpumap_duplicate
                  Stat.cpumap_update_error);
            records = records;
          };
        }
