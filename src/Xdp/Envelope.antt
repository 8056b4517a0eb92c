-- ===== src/Xdp/Envelope.antt =====
-- The parser against a declarative description of an experiment packet.
use aceteam_bachelor_thesis.Prelude.{
  ℕ, ◌+◌, ◌-◌, ◌*◌, ◌/◌, ◌%◌, ◌≤◌, ◌≡◌, ◌∙◌, ◌↔◌, Option, none, some, List, length, arith, true,
  bit_and,
}
use aceteam_bachelor_thesis.Abi.{PacketKey}
use aceteam_bachelor_thesis.Abi.Stat.{Stats}
use aceteam_bachelor_thesis.Abi.Wire.{be_value, decode_header, is_experiment_header}
use aceteam_bachelor_thesis.Xdp.{
  experiment, classify, packet_key, parse_envelope, parse_port, parse_udp, parse_protocol,
  parse_ipv4, parse_experiment_packet,
}
use aceteam_bachelor_thesis.Xdp.Safety.{load_in_bounds, read_header_in_bounds}

abbrev pub ihl_len : List ℕ → ℕ
ihl_len p = be_value p 14 1 % 16 * 4

abbrev pub ip_len : List ℕ → ℕ
ip_len p = be_value p 16 2

-- The offset of the UDP header.
abbrev pub udp_at : List ℕ → ℕ
udp_at p = 14 + ihl_len p

abbrev pub udp_len : List ℕ → ℕ
udp_len p = be_value p (udp_at p + 4) 2

-- A whole IPv4 datagram in an Ethernet frame, no fragment, that holds a whole UDP datagram to one
-- of the experiment's ports with a whole, well-formed experiment header at its front.
pub record IsExperimentPacket (p : List ℕ) (key : PacketKey) (path : ℕ) : Type 0 where
  pub ethertype : be_value p 12 2 ≡ 0x0800
  pub version : be_value p 14 1 / 16 ≡ 4
  pub ihl : 5 ≤ be_value p 14 1 % 16
  pub whole_ip : 14 + ip_len p ≤ length p
  pub unfragmented : bit_and (be_value p 20 2) 0x3fff ≡ 0
  pub protocol : be_value p 23 1 ≡ 17
  pub whole_header : 8 + 32 ≤ udp_len p
  pub whole_udp : ihl_len p + udp_len p ≤ ip_len p
  pub port : classify (be_value p (udp_at p + 2) 2) ≡ some path
  pub well_formed : is_experiment_header (decode_header p (udp_at p + 8)) ≡ true
  pub identity : key ≡ packet_key (decode_header p (udp_at p + 8))

-- What is left of the description from the UDP header on.
record IsExperimentUdp (p : List ℕ) (key : PacketKey) (path udp room : ℕ) : Type 0 where
  whole_header : 8 + 32 ≤ be_value p (udp + 4) 2
  whole_udp : be_value p (udp + 4) 2 ≤ room
  port : classify (be_value p (udp + 2) 2) ≡ some path
  well_formed : is_experiment_header (decode_header p (udp + 8)) ≡ true
  identity : key ≡ packet_key (decode_header p (udp + 8))

parse_envelope_inv :
    (p : List ℕ) (payload len path : ℕ) (s s' : Stats) (key : PacketKey) (path' : ℕ)
    → parse_envelope p payload len path s ≡ some (experiment key path', s')
    → (40 ≤ len)
      × (path ≡ path')
      × (is_experiment_header (decode_header p payload) ≡ true)
      × (key ≡ packet_key (decode_header p payload))
      × (s ≡ s')
unfolding parse_envelope
parse_envelope_inv p payload len path s s' key path' h =
    ground (arith, read_header_in_bounds p payload)

parse_port_inv :
    (p : List ℕ) (payload len : ℕ) (path : Option ℕ) (s s' : Stats) (key : PacketKey) (path' : ℕ)
    → parse_port p payload len path s ≡ some (experiment key path', s')
    → (40 ≤ len)
      × (path ≡ some path')
      × (is_experiment_header (decode_header p payload) ≡ true)
      × (key ≡ packet_key (decode_header p payload))
      × (s ≡ s')
unfolding parse_port
parse_port_inv p payload len none s s' key path' h = cc
parse_port_inv p payload len (some path) s s' key path' h =
    ground (arith, parse_envelope_inv p payload len path s s' key path' h)

parse_udp_inv :
    (p : List ℕ) (udp ihl ip : ℕ) (s s' : Stats) (key : PacketKey) (path : ℕ)
    → parse_udp p udp ihl ip s ≡ some (experiment key path, s')
    → IsExperimentUdp p key path udp (ip - ihl) × (s ≡ s')
unfolding parse_udp
parse_udp_inv p udp ihl ip s s' key path h = ground (
  arith,
  load_in_bounds p (udp + 4) 2,
  load_in_bounds p (udp + 2) 2,
  parse_port_inv p (udp + 8) (be_value p (udp + 4) 2) (classify (be_value p (udp + 2) 2)) s s' key
      path,
)

parse_protocol_inv :
    (p : List ℕ) (ihl ip : ℕ) (s s' : Stats) (key : PacketKey) (path : ℕ)
    → 34 ≤ length p
    → parse_protocol p ihl ip s ≡ some (experiment key path, s')
    → (bit_and (be_value p 20 2) 0x3fff ≡ 0)
      × (be_value p 23 1 ≡ 17)
      × (IsExperimentUdp p key path (14 + ihl) (ip - ihl) × (s ≡ s'))
unfolding parse_protocol
parse_protocol_inv p ihl ip s s' key path enough h = ground (
  arith,
  load_in_bounds p 20 2,
  load_in_bounds p 23 1,
  parse_udp_inv p (14 + ihl) ihl ip s s' key path,
)

parse_ipv4_guards :
    (p : List ℕ) (s s' : Stats) (key : PacketKey) (path : ℕ)
    → parse_ipv4 p s ≡ some (experiment key path, s')
    → (34 ≤ length p)
      × (be_value p 14 1 / 16 ≡ 4)
      × (5 ≤ be_value p 14 1 % 16)
      × (14 + ip_len p ≤ length p)
      × (parse_protocol p (ihl_len p) (ip_len p) s ≡ some (experiment key path, s'))
unfolding parse_ipv4
parse_ipv4_guards p s s' key path h = ground (arith, load_in_bounds p 14 1, load_in_bounds p 16 2)

parse_ipv4_inv :
    (p : List ℕ) (s s' : Stats) (key : PacketKey) (path : ℕ)
    → be_value p 12 2 ≡ 0x0800
    → parse_ipv4 p s ≡ some (experiment key path, s')
    → IsExperimentPacket p key path × (s ≡ s')
parse_ipv4_inv p s s' key path e h =
    let g = parse_ipv4_guards p s s' key path h in
    let u = parse_protocol_inv p (ihl_len p) (ip_len p) s s' key path g.0 g.4 in
    let v = u.2.0 in
    (
      record {
        ethertype = e;
        version = g.1;
        ihl = g.2;
        whole_ip = g.3;
        unfragmented = u.0;
        protocol = u.1;
        whole_header = v.whole_header;
        whole_udp = omega (arith, v.whole_udp, v.whole_header);
        port = v.port;
        well_formed = v.well_formed;
        identity = v.identity;
      },
      u.2.1,
    )

parse_guards :
    (p : List ℕ) (s s' : Stats) (key : PacketKey) (path : ℕ)
    → parse_experiment_packet p s ≡ some (experiment key path, s')
    → (be_value p 12 2 ≡ 0x0800) × (parse_ipv4 p s ≡ some (experiment key path, s'))
unfolding parse_experiment_packet
parse_guards p s s' key path h = ground (arith, load_in_bounds p 12 2)

pub parse_inv :
    (p : List ℕ) (s s' : Stats) (key : PacketKey) (path : ℕ)
    → parse_experiment_packet p s ≡ some (experiment key path, s')
    → IsExperimentPacket p key path × (s ≡ s')
parse_inv p s s' key path h =
    let g = parse_guards p s s' key path h in parse_ipv4_inv p s s' key path g.0 g.1

parse_enter :
    (p : List ℕ) (s : Stats)
    → 14 ≤ length p
    → be_value p 12 2 ≡ 0x0800
    → parse_experiment_packet p s ≡ parse_ipv4 p s
unfolding parse_experiment_packet
parse_enter p s h e = ground (arith, load_in_bounds p 12 2)

parse_port_lem :
    (p : List ℕ) (payload len path : ℕ) (s : Stats)
    → 40 ≤ len
    → payload + 32 ≤ length p
    → is_experiment_header (decode_header p payload) ≡ true
    → parse_port p payload len (some path) s
      ≡ some (experiment (packet_key (decode_header p payload)) path, s)
unfolding parse_port parse_envelope
parse_port_lem p payload len path s h fits ok = ground (arith, read_header_in_bounds p payload)

parse_udp_lem :
    (p : List ℕ) (udp ihl ip : ℕ) (s : Stats) (key : PacketKey) (path : ℕ)
    → udp + be_value p (udp + 4) 2 ≤ length p
    → IsExperimentUdp p key path udp (ip - ihl)
    → parse_udp p udp ihl ip s ≡ some (experiment key path, s)
unfolding parse_udp
parse_udp_lem p udp ihl ip s key path fits v = ground (
  arith,
  load_in_bounds p (udp + 4) 2,
  load_in_bounds p (udp + 2) 2,
  parse_port_lem p (udp + 8) (be_value p (udp + 4) 2) path s,
)

parse_protocol_lem :
    (p : List ℕ) (ihl ip : ℕ) (s : Stats) (key : PacketKey) (path : ℕ)
    → 34 ≤ length p
    → bit_and (be_value p 20 2) 0x3fff ≡ 0
    → be_value p 23 1 ≡ 17
    → ihl + 8 ≤ ip
    → 14 + ihl + be_value p (14 + ihl + 4) 2 ≤ length p
    → IsExperimentUdp p key path (14 + ihl) (ip - ihl)
    → parse_protocol p ihl ip s ≡ some (experiment key path, s)
unfolding parse_protocol
parse_protocol_lem p ihl ip s key path enough whole udp room fits v = ground (
  arith,
  load_in_bounds p 20 2,
  load_in_bounds p 23 1,
  parse_udp_lem p (14 + ihl) ihl ip s key path fits v,
)

parse_ipv4_lem :
    (p : List ℕ) (s : Stats) (key : PacketKey) (path : ℕ)
    → IsExperimentPacket p key path
    → parse_ipv4 p s ≡ some (experiment key path, s)
unfolding parse_ipv4
parse_ipv4_lem p s key path v = ground (
  arith,
  load_in_bounds p 14 1,
  load_in_bounds p 16 2,
  parse_protocol_lem p (ihl_len p) (ip_len p) s key path (omega (arith, v)) v.unfragmented
      v.protocol (omega (arith, v)) (omega (arith, v))
      (record {
        whole_header = v.whole_header;
        whole_udp = omega (arith, v);
        port = v.port;
        well_formed = v.well_formed;
        identity = v.identity;
      }),
)

-- The parser takes a packet for an experiment packet with this key and path, and leaves the
-- counters alone, exactly when the bytes are such a packet by `IsExperimentPacket`.
pub parse_experiment_packet_iff :
    (p : List ℕ) (s : Stats) (key : PacketKey) (path : ℕ)
    → (parse_experiment_packet p s ≡ some (experiment key path, s)) ↔ IsExperimentPacket p key path
parse_experiment_packet_iff p s key path = (
  λ h. (parse_inv p s s key path h).0,
  λ v. parse_enter p s (omega (arith, v.whole_ip)) v.ethertype ∙ parse_ipv4_lem p s key path v,
)

-- A packet that is taken for an experiment packet leaves every counter of the parser as it was.
pub parse_experiment_packet_stats :
    (p : List ℕ) (s s' : Stats) (key : PacketKey) (path : ℕ)
    → parse_experiment_packet p s ≡ some (experiment key path, s')
    → s ≡ s'
parse_experiment_packet_stats p s s' key path h = (parse_inv p s s' key path h).1
