-- ===== src/Afxdp/Metadata.antt =====
-- `read_xdp_metadata` and `clear_xdp_metadata` of BPF/afxdp_recv.c. The UMEM is a memory of bytes;
-- the fields of `struct ace_rx_meta` are in native order, little-endian on the target.
pub mod Fresh
pub mod Reported
use aceteam_bachelor_thesis.Prelude.{
  ℕ, zero, suc, ◌+◌, ◌-◌, ◌*◌, Option, none, some, Bool, true, false, not, ◌&&◌, ◌||◌, List, [],
  ◌∷◌, ltb, leb, ◌==◌, if◌then◌else◌,
}
use aceteam_bachelor_thesis.Abi.{
  rx_meta_magic, rx_meta_version, rx_meta_size, path_xsk, RxMeta, has_flag, set_flag,
  meta_packet_id_valid,
}
use aceteam_bachelor_thesis.Afxdp.Umem.{umem_size, chunk_start}

abbrev pub Memory : Type 0
Memory = ℕ → ℕ

unfoldable pub le_value : Memory → ℕ → ℕ → ℕ
le_value mem off zero = 0
le_value mem off (suc n) = mem off + le_value mem (off + 1) n * 256

-- The copy of the struct at an address.
unfoldable pub decode_meta : Memory → ℕ → RxMeta
decode_meta mem a = record {
  magic = le_value mem a 4;
  version = le_value mem (a + 4) 2;
  size = le_value mem (a + 6) 2;
  flags = le_value mem (a + 8) 4;
  flow_id = le_value mem (a + 12) 4;
  sequence = le_value mem (a + 16) 8;
  hw_rx_ns = le_value mem (a + 24) 8;
  initial_xdp_ns = le_value mem (a + 32) 8;
  cpumap_ns = le_value mem (a + 40) 8;
  rx_queue = le_value mem (a + 48) 4;
  requested_path = le_value mem (a + 52) 2;
  timestamp_error = le_value mem (a + 54) 2;
}

-- `enum ace_xsk_record_flags`.
abbrev pub record_meta_valid : ℕ
record_meta_valid = 1

abbrev pub record_key_match : ℕ
record_key_match = 2

abbrev pub record_path_match : ℕ
record_path_match = 4

-- `struct ace_xsk_user_record`; the __s64 and __s16 fields are bit patterns.
pub record XskUserRecord : Type 0 where
  pub flow_id : ℕ
  pub rx_queue : ℕ
  pub sequence : ℕ
  pub tx_realtime_ns : ℕ
  pub user_rx_mono_ns : ℕ
  pub user_rx_real_ns : ℕ
  pub hw_rx_ns : ℕ
  pub initial_xdp_ns : ℕ
  pub meta_flags : ℕ
  pub requested_path : ℕ
  pub timestamp_error : ℕ
  pub packet_length : ℕ
  pub validation_flags : ℕ

-- Where the metadata of a packet stands; `none` is the early return.
unfoldable pub metadata_addr : ℕ → Option ℕ
metadata_addr packet_addr =
    if ltb packet_addr rx_meta_size
    then none
    else if ltb (packet_addr - rx_meta_size) (chunk_start packet_addr)
        || ltb (umem_size - rx_meta_size) (packet_addr - rx_meta_size)
    then none
    else some (packet_addr - rx_meta_size)

unfoldable pub is_rx_meta : RxMeta → Bool
is_rx_meta m =
    m.magic == rx_meta_magic
    && m.version == rx_meta_version
    && m.size == rx_meta_size
    && has_flag m.flags meta_packet_id_valid

abbrev set_if : Bool → ℕ → ℕ → ℕ
set_if b flag w = if b then set_flag w flag else w

-- The three validation bits of metadata that is well formed.
unfoldable pub match_flags : RxMeta → ℕ → ℕ → ℕ → ℕ
match_flags m flow_id sequence w = set_if (m.requested_path == path_xsk) record_path_match (
    set_if (m.flow_id == flow_id && m.sequence == sequence) record_key_match
      (set_flag w record_meta_valid))

-- Both match bits are set: the measurements are copied; the flag says whether
-- `metadata_invalid_packets` counts the packet.
copy_metadata : RxMeta → XskUserRecord → XskUserRecord × Bool
copy_metadata m r =
    if has_flag r.validation_flags record_key_match && has_flag r.validation_flags record_path_match
    then (
      record r {
        hw_rx_ns = m.hw_rx_ns;
        initial_xdp_ns = m.initial_xdp_ns;
        meta_flags = m.flags;
        requested_path = m.requested_path;
        timestamp_error = m.timestamp_error;
      },
      false,
    )
    else (r, true)

use_metadata : RxMeta → ℕ → ℕ → XskUserRecord → XskUserRecord × Bool
use_metadata m flow_id sequence r =
    if is_rx_meta m
    then copy_metadata m
        (record r { validation_flags = match_flags m flow_id sequence r.validation_flags })
    else (r, true)

read_at : Option ℕ → Memory → ℕ → ℕ → XskUserRecord → XskUserRecord × Bool
unfolding use_metadata copy_metadata is_rx_meta match_flags decode_meta
read_at none mem flow_id sequence r = (r, true)
read_at (some a) mem flow_id sequence r = use_metadata (decode_meta mem a) flow_id sequence r

unfoldable pub read_xdp_metadata : Memory → ℕ → ℕ → ℕ → XskUserRecord → XskUserRecord × Bool
unfolding read_at metadata_addr
read_xdp_metadata mem packet_addr flow_id sequence r =
    read_at (metadata_addr packet_addr) mem flow_id sequence r

clear_at : Option ℕ → Memory → Memory
clear_at none mem = mem
clear_at (some a) mem = λ j. if leb a j && ltb j (a + rx_meta_size) then 0 else mem j

unfoldable pub clear_xdp_metadata : Memory → ℕ → Memory
unfolding clear_at metadata_addr
clear_xdp_metadata mem packet_addr = clear_at (metadata_addr packet_addr) mem
