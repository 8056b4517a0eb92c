-- ===== src/Xdp/Cpumap/Chain.antt =====
-- What the program on the target CPU does with the metadata that `xdp_dispatch` wrote.
use aceteam_bachelor_thesis.Prelude.{ℕ, ◌+◌, ◌^◌, ◌<◌, ◌≤◌, ◌≡◌, ◌⊎◌, some, arith, true}
use aceteam_bachelor_thesis.Abi.{
  PacketKey, PacketKey-discrete, RxMeta, CpumapRecord, has_flag, path_cpumap, rx_meta_size,
  rx_meta_magic, rx_meta_version, meta_packet_id_valid, meta_hwts_valid, meta_cpumap_seen,
}
use aceteam_bachelor_thesis.Abi.HashMap.{HashMap, update_keeps, bpf_noexist}
use aceteam_bachelor_thesis.Abi.Stat
use aceteam_bachelor_thesis.Abi.Stat.{Stats, count_stat}
use aceteam_bachelor_thesis.Xdp.Measure.{Helpers, xdp_pass, update_stat}
use aceteam_bachelor_thesis.Xdp.Measure.Records.{Describes}
use aceteam_bachelor_thesis.Xdp.Cpumap.{
  RemoteContext, cpumap_key, cpumap_record, seen_meta, State, xdp_cpumap_measure,
}

-- The four ends of a packet on the target CPU, as the loader's drain adds them up.
abbrev pub terminal : Stats → ℕ
terminal s =
    s Stat.cpumap_recorded
    + s Stat.cpumap_duplicate
    + s Stat.cpumap_update_error
    + s Stat.cpumap_meta_invalid

abbrev pub TerminalRoomy : Stats → Type 0
TerminalRoomy s = terminal s + 1 < 2 ^ 64

-- The metadata passes the program's checks.
abbrev Accepted : RemoteContext → Type 0
Accepted c =
    (rx_meta_size ≤ c.room)
    × (c.meta.magic ≡ rx_meta_magic)
    × (c.meta.version ≡ rx_meta_version)
    × (c.meta.size ≡ rx_meta_size)
    × (has_flag c.meta.flags meta_packet_id_valid ≡ true)
    × (c.meta.requested_path ≡ path_cpumap)

update_stat_cases :
    (err a b c : ℕ)
    → (update_stat err a b c ≡ a) ⊎ (update_stat err a b c ≡ b) ⊎ (update_stat err a b c ≡ c)
unfolding update_stat
update_stat_cases err a b c = ground arith

-- The record of a packet with this key that arrives in the context `c`.
abbrev pub arrival : PacketKey → RemoteContext → RxMeta → CpumapRecord
arrival key c after = record {
  flow_id = key.flow_id;
  cpu = c.cpu;
  sequence = key.sequence;
  cpumap_ns = c.now;
  flags = after.flags;
  requested_path = path_cpumap;
}

module _ (cpumap : HashMap PacketKey CpumapRecord) where
  -- Whatever it finds, the program passes the packet on to this CPU's stack, and adds one to
  -- exactly one of the four terminal counters, which the loader's drain compares with the requests.
  pub xdp_cpumap_measure_counts :
      (c : RemoteContext) (s : State cpumap)
      → TerminalRoomy s.stats
      → ((xdp_cpumap_measure cpumap c s).action ≡ xdp_pass)
        × (terminal (xdp_cpumap_measure cpumap c s).state.stats ≡ terminal s.stats + 1)
        × ((xdp_cpumap_measure cpumap c s).state.stats Stat.cpumap ≡ s.stats Stat.cpumap)
  unfolding xdp_cpumap_measure
  xdp_cpumap_measure_counts c s r = ground arith

  Accepted-runs :
      (c : RemoteContext) (s : State cpumap)
      → Accepted c
      → ((xdp_cpumap_measure cpumap c s).state.records
          ≡ (cpumap.update s.records
              (cpumap_key (seen_meta c))
              (cpumap_record c (seen_meta c))
              bpf_noexist).0)
        × ((xdp_cpumap_measure cpumap c s).meta ≡ seen_meta c)
  unfolding xdp_cpumap_measure
  Accepted-runs c s a = ground arith

  described-Accepted :
      (e : Helpers) (key : PacketKey) (c : RemoteContext)
      → rx_meta_size ≤ c.room
      → Describes e key path_cpumap c.meta
      → Accepted c
  described-Accepted e key c room d =
      (room, d.magic, d.version, d.size, d.identified, d.requested_path)

  described_key :
      (e : Helpers) (key : PacketKey) (c : RemoteContext)
      → key.reserved ≡ 0
      → Describes e key path_cpumap c.meta
      → cpumap_key (seen_meta c) ≡ key
  unfolding cpumap_key seen_meta
  described_key e key c z d = ground (arith, d.flow_id, d.sequence)

  seen_flags :
      (c : RemoteContext)
      → (has_flag (seen_meta c).flags meta_cpumap_seen ≡ true)
        × (has_flag (seen_meta c).flags meta_hwts_valid ≡ has_flag c.meta.flags meta_hwts_valid)
  unfolding seen_meta
  seen_flags c = ground arith

  described_record :
      (e : Helpers) (key : PacketKey) (c : RemoteContext)
      → Describes e key path_cpumap c.meta
      → cpumap_record c (seen_meta c) ≡ arrival key c (seen_meta c)
  unfolding cpumap_record seen_meta
  described_record e key c d = ground (arith, d.flow_id, d.sequence, d.requested_path)

  -- A packet whose metadata `xdp_dispatch` wrote for CPUMAP is entered under its own identity, with
  -- this CPU and this time, if the map takes the entry; a record that is there already stays. Its
  -- metadata is marked as seen, and keeps the flag of the hardware time.
  pub xdp_cpumap_measure-Describes :
      (e : Helpers) (key : PacketKey) (c : RemoteContext) (s : State cpumap)
      → key.reserved ≡ 0
      → rx_meta_size ≤ c.room
      → Describes e key path_cpumap c.meta
      → let o = xdp_cpumap_measure cpumap c s in
        ((cpumap.update s.records key (arrival key c o.meta) bpf_noexist).1 ≡ 0
          → cpumap.lookup o.state.records key ≡ some (arrival key c o.meta))
        × ((j : PacketKey) (v : CpumapRecord)
            → cpumap.lookup s.records j ≡ some v
            → cpumap.lookup o.state.records j ≡ some v)
        × (has_flag o.meta.flags meta_cpumap_seen ≡ true)
        × (has_flag o.meta.flags meta_hwts_valid ≡ has_flag c.meta.flags meta_hwts_valid)
  xdp_cpumap_measure-Describes e key c s z room d =
      let (records, meta) = Accepted-runs c s (described-Accepted e key c room d) in
      let entry = described_record e key c d in
      let flags = seen_flags c in
      rw (meta, records, described_key e key c z d, entry)
        (
          λ h. cpumap.lookup-update_self s.records key (arrival key c (seen_meta c)) bpf_noexist h,
          λ j v found.
              update_keeps PacketKey-discrete cpumap s.records key j v (arrival key c (seen_meta c))
                found,
          flags.0,
          flags.1,
        )
