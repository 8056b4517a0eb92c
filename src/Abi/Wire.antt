-- ===== src/Abi/Wire.antt =====
-- Big-endian fields of a packet (bpf_ntohs, bpf_ntohl, be64toh and their inverses), and the
-- 32-byte experiment header of include/ace_packet_abi.h as udp_socket/src/sender.c writes it.
pub mod RoundTrip
use aceteam_bachelor_thesis.Prelude.{
  ℕ, zero, suc, ◌+◌, ◌*◌, ◌/◌, ◌%◌, ◌^◌, Option, none, some, List, [], ◌∷◌, ◌++◌, Bool, ◌&&◌, leb,
  ◌==◌, if◌then◌else◌, length, get_or,
}
use aceteam_bachelor_thesis.Abi.{packet_magic, packet_version, packet_header_size}

-- The number that `n` bytes from `off` on stand for.
unfoldable pub be_value : List ℕ → ℕ → ℕ → ℕ
be_value p off zero = 0
be_value p off (suc n) = be_value p off n * 256 + get_or p (off + n) 0

-- The low `n` bytes of a number, the highest first.
unfoldable pub be_bytes : ℕ → ℕ → List ℕ
be_bytes zero v = []
be_bytes (suc n) v = be_bytes n (v / 256) ++ (v % 256) ∷ []

-- A read of `n` bytes at `off`; `none` is a read past the end of the packet.
unfoldable pub load : List ℕ → ℕ → ℕ → Option ℕ
load p off n = if leb (off + n) (length p) then some (be_value p off n) else none

-- `struct ace_experiment_header`, in host byte order.
pub record ExperimentHeader : Type 0 where
  pub magic : ℕ
  pub version : ℕ
  pub size : ℕ
  pub flow_id : ℕ
  pub reserved : ℕ
  pub sequence : ℕ
  pub tx_realtime_ns : ℕ

unfoldable pub decode_header : List ℕ → ℕ → ExperimentHeader
decode_header p off = record {
  magic = be_value p off 4;
  version = be_value p (off + 4) 2;
  size = be_value p (off + 6) 2;
  flow_id = be_value p (off + 8) 4;
  reserved = be_value p (off + 12) 4;
  sequence = be_value p (off + 16) 8;
  tx_realtime_ns = be_value p (off + 24) 8;
}

-- The copy of the header out of the packet; `none` is a copy past its end.
unfoldable pub read_header : List ℕ → ℕ → Option ExperimentHeader
read_header p off =
    if leb (off + packet_header_size) (length p) then some (decode_header p off) else none

-- The four fields that both parsers compare.
unfoldable pub is_experiment_header : ExperimentHeader → Bool
is_experiment_header h =
    h.magic == packet_magic
    && h.version == packet_version
    && h.size == packet_header_size
    && h.reserved == 0

-- The sender's header for the packet `seq`, sent at `tx_ns`.
unfoldable pub sender_header : ℕ → ℕ → ℕ → ExperimentHeader
sender_header flow_id seq tx_ns = record {
  magic = packet_magic;
  version = packet_version;
  size = packet_header_size;
  flow_id = flow_id;
  reserved = 0;
  sequence = seq;
  tx_realtime_ns = tx_ns;
}

unfoldable pub encode_header : ExperimentHeader → List ℕ
encode_header h =
    be_bytes 4 h.magic
    ++ (be_bytes 2 h.version
        ++ (be_bytes 2 h.size
            ++ (be_bytes 4 h.flow_id
                ++ (be_bytes 4 h.reserved
                    ++ (be_bytes 8 h.sequence ++ be_bytes 8 h.tx_realtime_ns)))))
