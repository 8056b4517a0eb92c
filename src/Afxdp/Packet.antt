-- ===== src/Afxdp/Packet.antt =====
-- `packet_udp_info` and `experiment_packet_id` of BPF/afxdp_recv.c. The packet is the `length` bytes
-- at the descriptor's address; the outer `none` is a read past them, the inner one `return false`.
pub mod Agreement
use aceteam_bachelor_thesis.Prelude.{
  ℕ, ◌+◌, ◌-◌, ◌*◌, ◌/◌, ◌%◌, Option, none, some, Bool, not, ◌||◌, List, ltb, ◌==◌, if◌then◌else◌,
  ◌>>=◌, length, bit_and,
}
use aceteam_bachelor_thesis.Abi.{xsk_port}
use aceteam_bachelor_thesis.Abi.Wire.{load, read_header, is_experiment_header}

-- `struct udp_packet_info`; `payload` is the offset of the payload in the packet.
pub record UdpPacketInfo : Type 0 where
  pub payload : ℕ
  pub payload_length : ℕ
  pub destination_port : ℕ

udp_info : List ℕ → ℕ → ℕ → ℕ → Option (Option UdpPacketInfo)
udp_info p udp room ip_header_len = do
  udp_len ← load p (udp + 4) 2
  if ltb udp_len 8 || ltb room udp_len then some none else do
    dest ← load p (udp + 2) 2
    some
        (some (record { payload = udp + 8; payload_length = udp_len - 8; destination_port = dest }))

-- From the copy of the IPv4 header on.
ip_info : List ℕ → Option (Option UdpPacketInfo)
unfolding udp_info
ip_info p = do
  first ← load p 14 1
  protocol ← load p 23 1
  frag_off ← load p 20 2
  ip_total_len ← load p 16 2
  let ip_header_len = first % 16 * 4
  if not (first / 16 == 4) || ltb (first % 16) 5 || not (protocol == 17)
      then some none
      else if not (bit_and frag_off 0x3fff == 0)
      then some none
      else if ltb (length p) (14 + ip_header_len + 8)
      then some none
      else if ltb ip_total_len (ip_header_len + 8) || ltb (length p - 14) ip_total_len
      then some none
      else udp_info p (14 + ip_header_len) (ip_total_len - ip_header_len) ip_header_len

unfoldable pub packet_udp_info : List ℕ → Option (Option UdpPacketInfo)
unfolding ip_info
packet_udp_info p = if ltb (length p) 14 then some none else do
  h_proto ← load p 12 2
  if not (h_proto == 0x0800)
      then some none
      else if ltb (length p) (14 + 20)
      then some none
      else ip_info p

-- What `experiment_packet_id` returns through its pointers.
pub record PacketId : Type 0 where
  pub flow_id : ℕ
  pub sequence : ℕ
  pub tx_realtime_ns : ℕ

unfoldable pub experiment_packet_id : List ℕ → UdpPacketInfo → Option (Option PacketId)
experiment_packet_id p info = if ltb info.payload_length 32 then some none else do
  h ← read_header p info.payload
  if is_experiment_header h
      then some (
          some (record {
            flow_id = h.flow_id;
            sequence = h.sequence;
            tx_realtime_ns = h.tx_realtime_ns;
          }))
      else some none

-- The tests that `receive_batch` makes of a packet before it records it, in its order.
pub data Reception : Type 0 where
  malformed unexpected_port other_payload : Reception
  experiment : PacketId → Reception

identified : Option PacketId → Reception
identified none = other_payload
identified (some id) = experiment id

received : List ℕ → Option UdpPacketInfo → Option Reception
unfolding identified
received p none = some malformed
received p (some info) =
    if not (info.destination_port == xsk_port)
    then some unexpected_port
    else do id ← experiment_packet_id p info; some (identified id)

unfoldable pub inspect_packet : List ℕ → Option Reception
unfolding received
inspect_packet p = do info ← packet_udp_info p; received p info
