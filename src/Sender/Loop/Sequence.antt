-- ===== src/Sender/Loop/Sequence.antt =====
-- The packets, the counts and the deadlines of the send loop of udp_socket/src/sender.c.
use native.Mathlib.Nat.{div-mul-le_self, mul-le-mul_right, mul-le-mul_left}
use aceteam_bachelor_thesis.Prelude.{
  ℕ, ◌+◌, ◌-◌, ◌*◌, ◌/◌, ◌%◌, ◌^◌, ◌≡◌, ◌≤◌, ◌<◌, refl, ap, ◌∙◌, Bool, arith, length,
}
use aceteam_bachelor_thesis.Sender.{Timespec, total_ns}
use aceteam_bachelor_thesis.Sender.Loop.{
  SenderConfig, int64_max, launched, base_ns, launch, Progress, first_progress, Sending, ended,
  under_way, outcome,
}
use aceteam_bachelor_thesis.Sender.Loop.Turn.{Numbered, errors_of, Sequenced}

-- The checked schedule.
pub launch_fits :
    (config : SenderConfig) (start_ns : ℕ) (t : Timespec)
    → 0 < config.packet_count
    → config.packet_count < 2 ^ 64
    → base_ns config start_ns < 2 ^ 63
    → launch config start_ns ≡ launched t
    → (t.tv_nsec < 1000000000)
      × (total_ns t ≡ base_ns config start_ns)
      × (base_ns config start_ns + (config.packet_count - 1) * config.period_ns ≤ int64_max)
unfolding launch
launch_fits config start_ns t some_there small base_small e =
    let base = base_ns config start_ns in
    let room = (int64_max + 2 ^ 64 - base) % 2 ^ 64 in
    let exact : room ≡ int64_max - base = omega arith in
    let steps : config.packet_count - 1 ≤ room / config.period_ns = ground arith in
    let first : t ≡ record { tv_sec = base / 1000000000; tv_nsec = base % 1000000000 } =
      ground arith in
    let product = mul-le-mul_right config.period_ns steps in
    let quotient = div-mul-le_self room config.period_ns in
    (rw first (omega arith), rw first (omega arith), omega (arith, product, quotient))

module _ (config : SenderConfig) (base : ℕ) where
  -- How the loop stands: the packets that have been given to sendto, and the deadline.
  abbrev pub Sends : Sending → Type 0
  Sends (ended reason t) = (seq : ℕ) × Sequenced config base seq (errors_of reason) t
  Sends (under_way t) = (seq : ℕ) × Sequenced config base seq 0 t

-- What a run has given to sendto and counted, with `extra` errors that are no packet's.
pub record Transmitted (config : SenderConfig) (base extra : ℕ) (s : Progress) : Type 0 where
  pub numbered : Numbered config 0 s.wire
  pub attempts : s.attempted ≡ length s.wire
  pub within : s.attempted ≤ config.packet_count
  pub balance : s.sent + s.errors ≡ s.attempted + extra
  pub step : ℕ
  pub step_within : step < config.packet_count
  pub on_schedule : total_ns s.next_send ≡ base + step * config.period_ns
  pub fits : total_ns s.next_send ≤ int64_max
  pub complete :
      (stop : Bool)
      → outcome config stop s ≡ 0
      → (s.sent ≡ config.packet_count) × (s.attempted ≡ config.packet_count)

abbrev pub AllTransmitted : SenderConfig → ℕ → Sending → Type 0
AllTransmitted config base (ended reason s) = Transmitted config base (errors_of reason) s
AllTransmitted config base (under_way s) = Transmitted config base 0 s

-- The start of the loop, and the bounds that the accepted deadlines give.
pub first_Sequenced :
    (config : SenderConfig) (start_ns : ℕ) (t : Timespec)
    → 0 < config.packet_count
    → config.packet_count < 2 ^ 64
    → 0 < config.period_ns
    → base_ns config start_ns < 2 ^ 63
    → launch config start_ns ≡ launched t
    → (config.packet_count ≤ 2 ^ 63)
      × Sequenced config (base_ns config start_ns) 0 0 (first_progress t)
      × (total_ns t ≡ base_ns config start_ns + (0 - 1) * config.period_ns)
unfolding first_progress
first_Sequenced config start_ns t some_there fits positive base_small e =
    let base = base_ns config start_ns in
    let (normal, time, room) = launch_fits config start_ns t some_there fits base_small e in
    let due : total_ns t ≡ base + 0 * config.period_ns = omega (arith, time) in
    (
      omega (arith, mul-le-mul_left (config.packet_count - 1) positive),
      record {
        numbered = tt;
        many = refl;
        attempts = refl;
        within = omega arith;
        balance = refl;
        own = omega arith;
        normal = normal;
        step = 0;
        step_within = some_there;
        on_schedule = due;
      },
      due ∙ ap (λ k. base + k * config.period_ns) (omega arith),
    )
