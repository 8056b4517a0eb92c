-- ===== src/Xdp/Measure/Counters.antt =====
-- The counters of `xdp_dispatch`: every packet is counted once, and by where it went.
use aceteam_bachelor_thesis.Prelude.{
  ℕ, ◌+◌, ◌<◌, ◌%◌, ◌*◌, ◌^◌, ◌≡◌, ◌↔◌, refl, Option, none, some, List, arith, ◌>>=◌,
}
use aceteam_bachelor_thesis.Abi.{effective_requested_path, PacketKey, RxMeta, IngressRecord}
use aceteam_bachelor_thesis.Abi.HashMap.{HashMap}
use aceteam_bachelor_thesis.Abi.Stat
use aceteam_bachelor_thesis.Abi.Stat.{Stats, count_stat}
use aceteam_bachelor_thesis.Abi.Wire.{load, be_value}
use aceteam_bachelor_thesis.Xdp.{
  unrelated, invalid, experiment, Parsed, classify, parse_envelope, parse_port, parse_udp,
  parse_protocol, parse_ipv4, parse_experiment_packet,
}
use aceteam_bachelor_thesis.Xdp.Safety.{parse_experiment_packet_in_bounds}
use aceteam_bachelor_thesis.Xdp.Measure.{
  Helpers, xdp_pass, xdp_redirect, dispatch_requested_path, State, Outcome, write_meta, prepare_in,
  prepare_measurement_metadata, deliver, handle, xdp_dispatch,
}

-- The slots of the packets' destinations and of the prepared metadata are as they were.
abbrev Quiet : Stats → Stats → Type 0
Quiet s t =
    (t Stat.pass ≡ s Stat.pass)
    × (t Stat.cpumap ≡ s Stat.cpumap)
    × (t Stat.xsk ≡ s Stat.xsk)
    × (t Stat.total ≡ s Stat.total)

abbrev Quietly : Stats → Option (Parsed × Stats) → Type 0
Quietly s none = Unit {0}
Quietly s (some (r, t)) = Quiet s t

parse_envelope_quiet :
    (p : List ℕ) (payload len path : ℕ) (s : Stats)
    → Quietly s (parse_envelope p payload len path s)
unfolding parse_envelope
parse_envelope_quiet p payload len path s = ground arith

parse_port_quiet :
    (p : List ℕ) (payload len : ℕ) (path : Option ℕ) (s : Stats)
    → Quietly s (parse_port p payload len path s)
unfolding parse_port
parse_port_quiet p payload len none s = ground arith
parse_port_quiet p payload len (some path) s = parse_envelope_quiet p payload len path s

parse_udp_quiet : (p : List ℕ) (udp ihl ip : ℕ) (s : Stats) → Quietly s (parse_udp p udp ihl ip s)
unfolding parse_udp load
parse_udp_quiet p udp ihl ip s = ground (
  arith,
  parse_port_quiet p (udp + 8) (be_value p (udp + 4) 2) (classify (be_value p (udp + 2) 2)) s,
)

parse_protocol_quiet : (p : List ℕ) (ihl ip : ℕ) (s : Stats) → Quietly s (parse_protocol p ihl ip s)
unfolding parse_protocol load
parse_protocol_quiet p ihl ip s = ground (arith, parse_udp_quiet p (14 + ihl) ihl ip s)

parse_ipv4_quiet : (p : List ℕ) (s : Stats) → Quietly s (parse_ipv4 p s)
unfolding parse_ipv4 load
parse_ipv4_quiet p s =
    ground (arith, parse_protocol_quiet p (be_value p 14 1 % 16 * 4) (be_value p 16 2) s)

parse_quiet : (p : List ℕ) (s : Stats) → Quietly s (parse_experiment_packet p s)
unfolding parse_experiment_packet load
parse_quiet p s = ground (arith, parse_ipv4_quiet p s)

-- The counters of the destinations count on from `s`, which is below the wrap of a __u64.
abbrev pub Roomy : Stats → Type 0
Roomy s =
    (s Stat.pass + 1 < 2 ^ 64)
    × (s Stat.cpumap + 1 < 2 ^ 64)
    × (s Stat.xsk + 1 < 2 ^ 64)
    × (s Stat.total + 1 < 2 ^ 64)

-- One packet went to one destination, and `action` is the one that its counter stands for.
abbrev pub CountsOne : Stats → Stats → ℕ → Type 0
CountsOne s t action =
    (t Stat.pass + t Stat.cpumap + t Stat.xsk ≡ s Stat.pass + s Stat.cpumap + s Stat.xsk + 1)
    × ((action ≡ xdp_pass) ↔ (t Stat.pass ≡ s Stat.pass + 1))
    × ((action ≡ xdp_redirect) ↔ (t Stat.cpumap + t Stat.xsk ≡ s Stat.cpumap + s Stat.xsk + 1))

dispatch_counts :
    (e : Helpers) (path : ℕ) (s : Stats)
    → Roomy s
    → CountsOne s (dispatch_requested_path e path s).1 (dispatch_requested_path e path s).0
      × ((dispatch_requested_path e path s).1 Stat.total ≡ s Stat.total)
unfolding dispatch_requested_path
dispatch_counts e path s r = ground arith

module _ (ingress : HashMap PacketKey IngressRecord) where
  write_meta-Quiet :
      (e : Helpers) (key : PacketKey) (path : ℕ) (s : State ingress)
      → Quiet s.stats (write_meta ingress e key path s).1.stats
  unfolding write_meta
  write_meta-Quiet e key path s = ground arith

  prepare-Quiet :
      (room : Option ℕ) (e : Helpers) (key : PacketKey) (path : ℕ) (s : State ingress)
      → Quiet s.stats (prepare_in ingress room e key path s).1.stats
  unfolding prepare_in
  prepare-Quiet none e key path s = ground arith
  prepare-Quiet (some room) e key path s = ground (arith, write_meta-Quiet e key path s)

  deliver_counts :
      (e : Helpers) (path : ℕ) (meta : Option RxMeta) (s : State ingress)
      → Roomy s.stats
      → CountsOne s.stats
          (deliver ingress e path meta s).state.stats
          (deliver ingress e path meta s).action
        × ((deliver ingress e path meta s).state.stats Stat.total ≡ s.stats Stat.total)
  unfolding deliver
  deliver_counts e path none s r = ground arith
  deliver_counts e path (some meta) s r = dispatch_counts e path s.stats r

  handle_counts :
      (mode : ℕ) (e : Helpers) (parsed : Parsed) (s : State ingress)
      → Roomy s.stats
      → CountsOne s.stats
          (handle ingress mode e parsed s).state.stats
          (handle ingress mode e parsed s).action
        × ((handle ingress mode e parsed s).state.stats Stat.total ≡ s.stats Stat.total)
  unfolding handle
  handle_counts mode e unrelated s r = deliver_counts e 0 none s r
  handle_counts mode e invalid s r = deliver_counts e 0 none s r
  handle_counts mode e (experiment key path) s r =
      let effective = effective_requested_path mode path in
      let prepared = prepare_measurement_metadata ingress e key effective s in
      ground (
        arith,
        prepare-Quiet e.meta_room e key effective s,
        deliver_counts e effective prepared.0 prepared.1,
      )

  -- Every packet adds one to the total and one to exactly one of the three destinations: PASS
  -- when the program returns XDP_PASS, CPUMAP or XSK when it returns XDP_REDIRECT (while no
  -- counter has reached the wrap of its 64 bits).
  pub xdp_dispatch_counts :
      (mode : ℕ) (e : Helpers) (p : List ℕ) (s : State ingress) (o : Outcome ingress)
      → Roomy s.stats
      → xdp_dispatch ingress mode e p s ≡ some o
      → CountsOne s.stats o.state.stats o.action
        × (o.state.stats Stat.total ≡ s.stats Stat.total + 1)
  unfolding xdp_dispatch
  xdp_dispatch_counts mode e p s o r h =
      go (parse_experiment_packet p (count_stat s.stats Stat.total))
        (parse_quiet p (count_stat s.stats Stat.total)) h
    where
      go :
          (parsed : Option (Parsed × Stats))
          → Quietly (count_stat s.stats Stat.total) parsed
          → (parsed >>= λ (a, t). some (handle ingress mode e a (record s { stats = t }))) ≡ some o
          → CountsOne s.stats o.state.stats o.action
            × (o.state.stats Stat.total ≡ s.stats Stat.total + 1)
      go none q h = cc
      go (some (a, t)) q h = ground (arith, handle_counts mode e a (record s { stats = t }))

  -- The program reads nothing past the packet's end: it always returns.
  pub xdp_dispatch_returns :
      (mode : ℕ) (e : Helpers) (p : List ℕ) (s : State ingress)
      → (o : Outcome ingress) × (xdp_dispatch ingress mode e p s ≡ some o)
  unfolding xdp_dispatch
  xdp_dispatch_returns mode e p s =
      go (parse_experiment_packet p (count_stat s.stats Stat.total)) refl
    where
      go :
          (parsed : Option (Parsed × Stats))
          → parse_experiment_packet p (count_stat s.stats Stat.total) ≡ parsed
          → (o : Outcome ingress) × ((parsed >>= λ (a, t).
                some (handle ingress mode e a (record s { stats = t })))
              ≡ some o)
      go none h = absurd (parse_experiment_packet_in_bounds p (count_stat s.stats Stat.total) h)
      go (some (a, t)) h = (handle ingress mode e a (record s { stats = t }), refl)
