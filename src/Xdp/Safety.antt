-- ===== src/Xdp/Safety.antt =====
-- The parser reads no byte outside the packet.
use aceteam_bachelor_thesis.Prelude.{
  ℕ, ◌+◌, ◌*◌, ◌%◌, ◌≤◌, ◌≡◌, ◌≢◌, Option, none, some, List, length, arith,
}
use aceteam_bachelor_thesis.Abi.Stat.{Stats}
use aceteam_bachelor_thesis.Abi.Wire.{load, be_value, read_header, decode_header}
use aceteam_bachelor_thesis.Xdp.{
  classify, parse_envelope, parse_port, parse_udp, parse_protocol, parse_ipv4,
  parse_experiment_packet,
}

pub load_in_bounds :
    (p : List ℕ) (off n : ℕ) → off + n ≤ length p → load p off n ≡ some (be_value p off n)
unfolding load
load_in_bounds p off n h = ground arith

pub read_header_in_bounds :
    (p : List ℕ) (off : ℕ) → off + 32 ≤ length p → read_header p off ≡ some (decode_header p off)
unfolding read_header
read_header_in_bounds p off h = ground arith

parse_envelope_safe :
    (p : List ℕ) (payload udp_len path : ℕ) (s : Stats)
    → parse_envelope p payload udp_len path s ≢ none
unfolding parse_envelope
parse_envelope_safe p payload udp_len path s h = ground (arith, read_header_in_bounds p payload)

parse_port_safe :
    (p : List ℕ) (payload udp_len : ℕ) (path : Option ℕ) (s : Stats)
    → parse_port p payload udp_len path s ≢ none
unfolding parse_port
parse_port_safe p payload udp_len none s h = cc
parse_port_safe p payload udp_len (some path) s h = parse_envelope_safe p payload udp_len path s h

parse_udp_safe :
    (p : List ℕ) (udp ihl_len ip_len : ℕ) (s : Stats) → parse_udp p udp ihl_len ip_len s ≢ none
unfolding parse_udp
parse_udp_safe p udp ihl_len ip_len s h = ground (
  arith,
  load_in_bounds p (udp + 4) 2,
  load_in_bounds p (udp + 2) 2,
  parse_port_safe p (udp + 8) (be_value p (udp + 4) 2) (classify (be_value p (udp + 2) 2)) s,
)

parse_protocol_safe :
    (p : List ℕ) (ihl_len ip_len : ℕ) (s : Stats)
    → 34 ≤ length p
    → parse_protocol p ihl_len ip_len s ≢ none
unfolding parse_protocol
parse_protocol_safe p ihl_len ip_len s enough h = ground (
  arith,
  load_in_bounds p 20 2,
  load_in_bounds p 23 1,
  parse_udp_safe p (14 + ihl_len) ihl_len ip_len s,
)

parse_ipv4_safe : (p : List ℕ) (s : Stats) → parse_ipv4 p s ≢ none
unfolding parse_ipv4
parse_ipv4_safe p s h = ground (
  arith,
  load_in_bounds p 14 1,
  load_in_bounds p 16 2,
  parse_protocol_safe p (be_value p 14 1 % 16 * 4) (be_value p 16 2) s,
)

-- The parser gives a verdict on every packet, of any bytes and any length: no read of it goes past
-- the end of the packet.
pub parse_experiment_packet_in_bounds :
    (p : List ℕ) (s : Stats) → parse_experiment_packet p s ≢ none
unfolding parse_experiment_packet
parse_experiment_packet_in_bounds p s h = ground (arith, load_in_bounds p 12 2, parse_ipv4_safe p s)
