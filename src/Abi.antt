-- ===== src/Abi.antt =====
-- The constants and records that the XDP programs, the loader, the AF_XDP receiver and the UDP
-- tools share: include/ace_packet_abi.h, BPF/metadata.h and BPF/config.h.
pub mod Wire
pub mod Stat
pub mod HashMap
use native.Mathlib.Decide.{ℕ_discrete}
use aceteam_bachelor_thesis.Prelude.{ℕ, ◌+◌, ◌-◌, ◌/◌, ◌%◌, Bool, ◌&&◌, ◌||◌, ◌==◌, if◌then◌else◌}

abbrev pub packet_magic : ℕ
packet_magic = 0x41434531

abbrev pub packet_version : ℕ
packet_version = 1

abbrev pub packet_header_size : ℕ
packet_header_size = 32

abbrev pub rx_meta_magic : ℕ
rx_meta_magic = 0x4143454d

abbrev pub rx_meta_version : ℕ
rx_meta_version = 1

abbrev pub rx_meta_size : ℕ
rx_meta_size = 56

-- BPF/config.h.
abbrev pub pass_port : ℕ
pass_port = 9000

abbrev pub rt_port : ℕ
rt_port = 9001

abbrev pub xsk_port : ℕ
xsk_port = 9002

abbrev pub rt_cpu : ℕ
rt_cpu = 3

abbrev pub cpu_map_max_entries : ℕ
cpu_map_max_entries = 4

abbrev pub record_max_entries : ℕ
record_max_entries = 1048576

abbrev pub runtime_abi_version : ℕ
runtime_abi_version = 5

-- The key of both measurement maps. `reserved` is always written as 0.
pub record PacketKey : Type 0 where
  pub flow_id : ℕ
  pub reserved : ℕ
  pub sequence : ℕ

pub PacketKey-discrete : Discrete PacketKey
PacketKey-discrete = hlevel ℕ_discrete

-- `enum ace_requested_path`, as its numbers: the metadata carries it as a __u16.
abbrev pub path_pass : ℕ
path_pass = 0

abbrev pub path_cpumap : ℕ
path_cpumap = 1

abbrev pub path_xsk : ℕ
path_xsk = 2

-- `enum ace_forwarding_mode`, as its numbers: the loader writes it as a __u32.
abbrev pub forward_mixed : ℕ
forward_mixed = 0

abbrev pub forward_all_pass : ℕ
forward_all_pass = 1

abbrev pub forward_pass_xsk : ℕ
forward_pass_xsk = 2

unfoldable pub effective_requested_path : ℕ → ℕ → ℕ
effective_requested_path mode classified =
    if mode == forward_all_pass || (mode == forward_pass_xsk && classified == path_cpumap)
    then path_pass
    else classified

-- A bit of a flags word, `bit` being its power of two: `w & bit`, `w |= bit`, `w &= ~bit`.
abbrev pub has_flag : ℕ → ℕ → Bool
has_flag w bit = w / bit % 2 == 1

abbrev pub set_flag : ℕ → ℕ → ℕ
set_flag w bit = if has_flag w bit then w else w + bit

abbrev pub clear_flag : ℕ → ℕ → ℕ
clear_flag w bit = if has_flag w bit then w - bit else w

-- `enum ace_rx_meta_flags`.
abbrev pub meta_hwts_valid : ℕ
meta_hwts_valid = 1

abbrev pub meta_packet_id_valid : ℕ
meta_packet_id_valid = 2

abbrev pub meta_cpumap_seen : ℕ
meta_cpumap_seen = 4

abbrev pub meta_timestamp_error : ℕ
meta_timestamp_error = 8

abbrev pub meta_path_requested : ℕ
meta_path_requested = 16

-- The 56 bytes before the packet. `timestamp_error` is the bit pattern of the __s16.
pub record RxMeta : Type 0 where
  pub magic : ℕ
  pub version : ℕ
  pub size : ℕ
  pub flags : ℕ
  pub flow_id : ℕ
  pub sequence : ℕ
  pub hw_rx_ns : ℕ
  pub initial_xdp_ns : ℕ
  pub cpumap_ns : ℕ
  pub rx_queue : ℕ
  pub requested_path : ℕ
  pub timestamp_error : ℕ

pub record IngressRecord : Type 0 where
  pub flow_id : ℕ
  pub rx_queue : ℕ
  pub sequence : ℕ
  pub hw_rx_ns : ℕ
  pub initial_xdp_ns : ℕ
  pub flags : ℕ
  pub requested_path : ℕ
  pub timestamp_error : ℕ

pub record CpumapRecord : Type 0 where
  pub flow_id : ℕ
  pub cpu : ℕ
  pub sequence : ℕ
  pub cpumap_ns : ℕ
  pub flags : ℕ
  pub requested_path : ℕ
