-- ===== src/Afxdp/Packet/Agreement.antt =====
-- The receiver's parser and the XDP classifier agree on what a critical packet of UDP/9002 is.
use aceteam_bachelor_thesis.Prelude.{
  ℕ, ◌+◌, ◌-◌, ◌/◌, ◌%◌, ◌≤◌, ◌≡◌, ◌↔◌, refl, sym, ap, subst, Option, none, some, List, length,
  arith, true, bit_and, ◌∙◌, ◌>>=◌,
}
use aceteam_bachelor_thesis.Abi.{PacketKey, xsk_port, path_xsk}
use aceteam_bachelor_thesis.Abi.Stat.{Stats}
use aceteam_bachelor_thesis.Abi.Wire.{be_value, decode_header, is_experiment_header}
use aceteam_bachelor_thesis.Xdp.{
  experiment as classified, classify, packet_key, parse_experiment_packet,
}
use aceteam_bachelor_thesis.Xdp.Safety.{load_in_bounds, read_header_in_bounds}
use aceteam_bachelor_thesis.Xdp.Envelope.{
  IsExperimentPacket, ihl_len, ip_len, udp_at, udp_len, parse_experiment_packet_iff,
}
use aceteam_bachelor_thesis.Afxdp.Packet.{
  UdpPacketInfo, PacketId, experiment, udp_info, ip_info, packet_udp_info, experiment_packet_id,
  identified, received, inspect_packet,
}

-- What the parser accepts: a whole UDP datagram in a whole IPv4 datagram.
record IsUdpPacket (p : List ℕ) (info : UdpPacketInfo) : Type 0 where
  ethertype : be_value p 12 2 ≡ 0x0800
  version : be_value p 14 1 / 16 ≡ 4
  ihl : 5 ≤ be_value p 14 1 % 16
  whole_ip : 14 + ip_len p ≤ length p
  unfragmented : bit_and (be_value p 20 2) 0x3fff ≡ 0
  protocol : be_value p 23 1 ≡ 17
  whole_header : 8 ≤ udp_len p
  whole_udp : ihl_len p + udp_len p ≤ ip_len p
  payload : info.payload ≡ udp_at p + 8
  payload_length : info.payload_length ≡ udp_len p - 8
  port : info.destination_port ≡ be_value p (udp_at p + 2) 2

udp_info_inv :
    (p : List ℕ) (udp room ihl : ℕ) (info : UdpPacketInfo)
    → udp + 8 ≤ length p
    → udp_info p udp room ihl ≡ some (some info)
    → (8 ≤ be_value p (udp + 4) 2)
      × (be_value p (udp + 4) 2 ≤ room)
      × (info.payload ≡ udp + 8)
      × (info.payload_length ≡ be_value p (udp + 4) 2 - 8)
      × (info.destination_port ≡ be_value p (udp + 2) 2)
unfolding udp_info
udp_info_inv p udp room ihl info fits h =
    ground (arith, load_in_bounds p (udp + 4) 2, load_in_bounds p (udp + 2) 2)

ip_info_guards :
    (p : List ℕ) (info : UdpPacketInfo)
    → 34 ≤ length p
    → ip_info p ≡ some (some info)
    → (be_value p 14 1 / 16 ≡ 4)
      × (5 ≤ be_value p 14 1 % 16)
      × (be_value p 23 1 ≡ 17)
      × (bit_and (be_value p 20 2) 0x3fff ≡ 0)
      × (udp_at p + 8 ≤ length p)
      × (ihl_len p + 8 ≤ ip_len p)
      × (ip_len p ≤ length p - 14)
      × (udp_info p (udp_at p) (ip_len p - ihl_len p) (ihl_len p) ≡ some (some info))
unfolding ip_info
ip_info_guards p info enough h = ground (
  arith,
  load_in_bounds p 14 1,
  load_in_bounds p 23 1,
  load_in_bounds p 20 2,
  load_in_bounds p 16 2,
)

packet_guards :
    (p : List ℕ) (info : UdpPacketInfo)
    → packet_udp_info p ≡ some (some info)
    → (be_value p 12 2 ≡ 0x0800) × (34 ≤ length p) × (ip_info p ≡ some (some info))
unfolding packet_udp_info
packet_guards p info h = ground (arith, load_in_bounds p 12 2)

packet_udp_info_inv :
    (p : List ℕ) (info : UdpPacketInfo) → packet_udp_info p ≡ some (some info) → IsUdpPacket p info
packet_udp_info_inv p info h =
    let a = packet_guards p info h in
    let b = ip_info_guards p info a.1 a.2 in
    let c = udp_info_inv p (udp_at p) (ip_len p - ihl_len p) (ihl_len p) info b.4 b.7 in
    record {
      ethertype = a.0;
      version = b.0;
      ihl = b.1;
      whole_ip = omega (arith, a.1, b.6);
      unfragmented = b.3;
      protocol = b.2;
      whole_header = c.0;
      whole_udp = omega (arith, b.5, c.1);
      payload = c.2;
      payload_length = c.3;
      port = c.4;
    }

udp_info_lem :
    (p : List ℕ) (udp room ihl : ℕ)
    → udp + be_value p (udp + 4) 2 ≤ length p
    → 8 ≤ be_value p (udp + 4) 2
    → be_value p (udp + 4) 2 ≤ room
    → udp_info p udp room ihl
      ≡ some (
          some (record {
            payload = udp + 8;
            payload_length = be_value p (udp + 4) 2 - 8;
            destination_port = be_value p (udp + 2) 2;
          }))
unfolding udp_info
udp_info_lem p udp room ihl fits low high =
    ground (arith, load_in_bounds p (udp + 4) 2, load_in_bounds p (udp + 2) 2)

ip_info_enter :
    (p : List ℕ) (key : PacketKey)
    → IsExperimentPacket p key path_xsk
    → ip_info p ≡ udp_info p (udp_at p) (ip_len p - ihl_len p) (ihl_len p)
unfolding ip_info
ip_info_enter p key v = ground (
  arith,
  v,
  load_in_bounds p 14 1,
  load_in_bounds p 23 1,
  load_in_bounds p 20 2,
  load_in_bounds p 16 2,
)

packet_enter :
    (p : List ℕ) (key : PacketKey)
    → IsExperimentPacket p key path_xsk
    → packet_udp_info p ≡ ip_info p
unfolding packet_udp_info
packet_enter p key v = ground (arith, v, load_in_bounds p 12 2)

-- The only port that the classifier sends to XSK is 9002.
classify_xsk : (dest : ℕ) → (classify dest ≡ some path_xsk) ↔ (dest ≡ xsk_port)
unfolding classify
classify_xsk dest = ground arith

abbrev pub packet_id : List ℕ → PacketId
packet_id p =
    let h = decode_header p (udp_at p + 8) in
    record { flow_id = h.flow_id; sequence = h.sequence; tx_realtime_ns = h.tx_realtime_ns }

abbrev pub key_of : PacketId → PacketKey
key_of id = record { flow_id = id.flow_id; reserved = 0; sequence = id.sequence }

experiment_packet_id_lem :
    (p : List ℕ) (info : UdpPacketInfo)
    → 32 ≤ info.payload_length
    → info.payload ≡ udp_at p + 8
    → udp_at p + 40 ≤ length p
    → is_experiment_header (decode_header p (udp_at p + 8)) ≡ true
    → experiment_packet_id p info ≡ some (some (packet_id p))
unfolding experiment_packet_id
experiment_packet_id_lem p info room at fits ok =
    rw at (ground (arith, read_header_in_bounds p (udp_at p + 8)))

experiment_packet_id_inv :
    (p : List ℕ) (info : UdpPacketInfo) (id : PacketId)
    → info.payload ≡ udp_at p + 8
    → udp_at p + 8 + info.payload_length ≤ length p
    → experiment_packet_id p info ≡ some (some id)
    → (32 ≤ info.payload_length)
      × (is_experiment_header (decode_header p (udp_at p + 8)) ≡ true)
      × (id ≡ packet_id p)
unfolding experiment_packet_id
experiment_packet_id_inv p info id at fits h =
    ground (arith, read_header_in_bounds p (udp_at p + 8))

received_inv :
    (p : List ℕ) (info : Option UdpPacketInfo) (id : PacketId)
    → received p info ≡ some (experiment id)
    → (i : UdpPacketInfo) × (info ≡ some i)
      × (i.destination_port ≡ xsk_port)
      × (experiment_packet_id p i ≡ some (some id))
unfolding received identified
received_inv p none id h = cc
received_inv p (some i) id h = (i, ground arith, ground arith, ground arith)

inspect_inv :
    (p : List ℕ) (id : PacketId)
    → inspect_packet p ≡ some (experiment id)
    → (i : UdpPacketInfo) × (packet_udp_info p ≡ some (some i))
      × (i.destination_port ≡ xsk_port)
      × (experiment_packet_id p i ≡ some (some id))
unfolding inspect_packet
inspect_inv p id h = go (packet_udp_info p) refl h
  where
    go :
        (o : Option (Option UdpPacketInfo))
        → packet_udp_info p ≡ o
        → (o >>= λ info. received p info) ≡ some (experiment id)
        → (i : UdpPacketInfo) × (packet_udp_info p ≡ some (some i))
          × (i.destination_port ≡ xsk_port)
          × (experiment_packet_id p i ≡ some (some id))
    go none e h = cc
    go (some info) e h =
        let (i, found, port, found_id) = received_inv p info id h in
        (i, e ∙ ap some found, port, found_id)

inspect_lem :
    (p : List ℕ) (key : PacketKey)
    → IsExperimentPacket p key path_xsk
    → inspect_packet p ≡ some (experiment (packet_id p))
unfolding inspect_packet received identified
inspect_lem p key v =
    rw
      (
        packet_enter p key v,
        ip_info_enter p key v,
        udp_info_lem p (udp_at p) (ip_len p - ihl_len p) (ihl_len p) (omega (arith, v))
            (omega (arith, v)) (omega (arith, v)),
      )
      (ground (
        arith,
        (classify_xsk (be_value p (udp_at p + 2) 2)).0 v.port,
        experiment_packet_id_lem p
            (record {
              payload = udp_at p + 8;
              payload_length = udp_len p - 8;
              destination_port = be_value p (udp_at p + 2) 2;
            })
            (omega (arith, v)) refl (omega (arith, v)) v.well_formed,
      ))

inspect_sound :
    (p : List ℕ) (id : PacketId)
    → inspect_packet p ≡ some (experiment id)
    → IsExperimentPacket p (key_of id) path_xsk
unfolding packet_key
inspect_sound p id h =
    let (i, found, port, found_id) = inspect_inv p id h in
    let u = packet_udp_info_inv p i found in
    let g = experiment_packet_id_inv p i id u.payload (omega (arith, u)) found_id in
    record {
      ethertype = u.ethertype;
      version = u.version;
      ihl = u.ihl;
      whole_ip = u.whole_ip;
      unfragmented = u.unfragmented;
      protocol = u.protocol;
      whole_header = omega (arith, u, g.0);
      whole_udp = u.whole_udp;
      port = (classify_xsk _).1 (sym u.port ∙ port);
      well_formed = g.1;
      identity = ap key_of g.2;
    }

-- The kernel classifier takes a packet for a UDP/9002 experiment packet with a key, exactly when
-- the AF_XDP receiver, which parses the same bytes by code of its own, records it under that key.
pub classifier_receiver_agree :
    (p : List ℕ) (s : Stats) (key : PacketKey)
    → (parse_experiment_packet p s ≡ some (classified key path_xsk, s))
      ↔ ((id : PacketId) × (inspect_packet p ≡ some (experiment id)) × (key ≡ key_of id))
unfolding packet_key
classifier_receiver_agree p s key = (
  λ h.
      let v = (parse_experiment_packet_iff p s key path_xsk).0 h in
      (packet_id p, inspect_lem p key v, v.identity),
  λ r.
      let v = inspect_sound p r.0 r.1 in
      (parse_experiment_packet_iff p s key path_xsk).1
        (subst (λ k. IsExperimentPacket p k path_xsk) (sym r.2) v),
)
