-- ===== src/Xdp.antt =====
-- BPF/xdp_kern.c: `parse_experiment_packet`. The packet is the bytes from `data` to `data_end`, an
-- offset is a pointer into it, and `none` is a read past `data_end`, which the verifier refuses.
pub mod Safety
pub mod Envelope
pub mod Measure
pub mod Cpumap
use aceteam_bachelor_thesis.Prelude.{
  ℕ, ◌+◌, ◌-◌, ◌*◌, ◌/◌, ◌%◌, Option, none, some, Bool, not, ◌&&◌, ◌||◌, List, ltb, ◌==◌,
  if◌then◌else◌, ◌>>=◌, length, bit_and,
}
use aceteam_bachelor_thesis.Abi.{
  pass_port, rt_port, xsk_port, path_pass, path_cpumap, path_xsk, PacketKey,
}
use aceteam_bachelor_thesis.Abi.Stat
use aceteam_bachelor_thesis.Abi.Stat.{Stats, count_stat}
use aceteam_bachelor_thesis.Abi.Wire.{load, ExperimentHeader, read_header, is_experiment_header}

-- The results 0, -1 and 1 of the parser; the last with `*key` and `*requested_path`.
pub data Parsed : Type 0 where
  unrelated : Parsed
  invalid : Parsed
  experiment : PacketKey → ℕ → Parsed

-- An early return, with the counter that it bumps.
abbrev pub reject : Parsed → ℕ → Stats → Option (Parsed × Stats)
reject verdict id s = some (verdict, count_stat s id)

-- `dest` to the requested path; `none` is traffic of another port.
unfoldable pub classify : ℕ → Option ℕ
classify dest =
    if dest == pass_port
    then some path_pass
    else if dest == rt_port
    then some path_cpumap
    else if dest == xsk_port
    then some path_xsk
    else none

unfoldable pub packet_key : ExperimentHeader → PacketKey
packet_key h = record { flow_id = h.flow_id; reserved = 0; sequence = h.sequence }

-- From `payload`: the experiment envelope.
parse_envelope : List ℕ → ℕ → ℕ → ℕ → Stats → Option (Parsed × Stats)
unfolding packet_key
parse_envelope p payload udp_len path s =
    if ltb udp_len (8 + 32) || ltb (length p) (payload + 32)
    then reject invalid Stat.packet_header_invalid s
    else do
      h ← read_header p payload
      if is_experiment_header h
          then some (experiment (packet_key h) path, s)
          else reject invalid Stat.packet_header_invalid s

parse_port : List ℕ → ℕ → ℕ → Option ℕ → Stats → Option (Parsed × Stats)
unfolding parse_envelope
parse_port p payload udp_len none s = some (unrelated, s)
parse_port p payload udp_len (some path) s = parse_envelope p payload udp_len path s

-- From `udp`: the UDP header at the offset `udp`, below an IPv4 datagram of `ip_len` bytes.
parse_udp : List ℕ → ℕ → ℕ → ℕ → Stats → Option (Parsed × Stats)
unfolding parse_port classify
parse_udp p udp ihl_len ip_len s =
    if ltb (length p) (udp + 8) then reject unrelated Stat.ipv4_invalid s else do
      udp_len ← load p (udp + 4) 2
      if ltb udp_len 8 || ltb (ip_len - ihl_len) udp_len || ltb (length p) (udp + udp_len)
          then reject unrelated Stat.ipv4_invalid s
          else do dest ← load p (udp + 2) 2; parse_port p (udp + 8) udp_len (classify dest) s

-- From the length checks on: fragments and the protocol.
parse_protocol : List ℕ → ℕ → ℕ → Stats → Option (Parsed × Stats)
unfolding parse_udp
parse_protocol p ihl_len ip_len s = do
  frag_off ← load p 20 2
  if not (bit_and frag_off 0x3fff == 0) then reject unrelated Stat.ipv4_fragment s else do
    protocol ← load p 23 1
    if not (protocol == 17)
        then some (unrelated, s)
        else if ltb ip_len (ihl_len + 8)
        then reject unrelated Stat.ipv4_invalid s
        else parse_udp p (14 + ihl_len) ihl_len ip_len s

-- The IPv4 header behind the 14 bytes of Ethernet.
parse_ipv4 : List ℕ → Stats → Option (Parsed × Stats)
unfolding parse_protocol
parse_ipv4 p s = if ltb (length p) (14 + 20) then reject unrelated Stat.ipv4_invalid s else do
  first ← load p 14 1
  if not (first / 16 == 4) || ltb (first % 16) 5 then reject unrelated Stat.ipv4_invalid s else do
    ip_len ← load p 16 2
    let ihl_len = first % 16 * 4
    if ltb ip_len ihl_len || ltb (length p) (14 + ihl_len) || ltb (length p) (14 + ip_len)
        then reject unrelated Stat.ipv4_invalid s
        else parse_protocol p ihl_len ip_len s

unfoldable pub parse_experiment_packet : List ℕ → Stats → Option (Parsed × Stats)
unfolding parse_ipv4
parse_experiment_packet p s = if ltb (length p) 14 then some (unrelated, s) else do
  h_proto ← load p 12 2
  if not (h_proto == 0x0800) then some (unrelated, s) else parse_ipv4 p s
