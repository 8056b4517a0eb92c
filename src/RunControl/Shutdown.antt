-- ===== src/RunControl/Shutdown.antt =====
-- BPF/afxdp_run_control.h: the one deadline of the receiver's drain. Times are 64-bit nanosecond
-- counts within their range; a negative result, -1, is `none`.
use aceteam_bachelor_thesis.Prelude.{
  ℕ, ◌+◌, ◌-◌, ◌*◌, ◌/◌, ◌≤◌, ◌<◌, ◌≡◌, ◌⊎◌, ◌↔◌, refl, Bool, true, false, List, [], ◌∷◌, Option,
  none, some, leb, arith, if◌then◌else◌,
}

pub record Drain : Type 0 where
  pub active : Bool
  pub deadline_ns : ℕ

unfoldable pub ace_xsk_drain_begin : Drain → ℕ → ℕ → Drain
ace_xsk_drain_begin drain now_ns duration_ms =
    if drain.active
    then drain
    else record { active = true; deadline_ns = now_ns + duration_ms * 1000000 }

-- `none` is -1: the window has ended.
unfoldable pub ace_xsk_drain_poll_ms : Drain → ℕ → Option ℕ
ace_xsk_drain_poll_ms drain now_ns =
    let remaining = drain.deadline_ns - now_ns in
    if drain.active
    then if leb drain.deadline_ns now_ns
      then none
      else if leb 1000000000 remaining
      then some 1000
      else some ((remaining + 999999) / 1000000)
    else some 1000

-- Signals at the times of a list, each with the duration asked for.
abbrev pub signals : Drain → List (ℕ × ℕ) → Drain
signals drain [] = drain
signals drain ((now, duration) ∷ rest) = signals (ace_xsk_drain_begin drain now duration) rest

active_stays :
    (deadline : ℕ) (rest : List (ℕ × ℕ))
    → let d : Drain = record { active = true; deadline_ns = deadline } in signals d rest ≡ d
unfolding ace_xsk_drain_begin
active_stays deadline [] = refl
active_stays deadline ((now, duration) ∷ rest) = active_stays deadline rest

-- Of the signals that come to a drain that is not active the first fixes the deadline, whatever
-- comes after it; and a poll after them ends the window exactly from the deadline on, else it
-- gives a wait of 1 to 1000 ms, which is 1000 ms or reaches the deadline with less than 1 ms to
-- spare.
pub drain_poll-signals :
    (drain : Drain) (first duration now : ℕ) (rest : List (ℕ × ℕ))
    → drain.active ≡ false
    → let deadline = first + duration * 1000000 in
      let d = signals drain ((first, duration) ∷ rest) in
      (d.deadline_ns ≡ deadline)
      × ((ace_xsk_drain_poll_ms d now ≡ none) ↔ (deadline ≤ now))
      × ((ms : ℕ)
          → ace_xsk_drain_poll_ms d now ≡ some ms
          → (1 ≤ ms)
            × (ms ≤ 1000)
            × ((ms ≡ 1000)
                ⊎ ((deadline ≤ now + ms * 1000000) × (now + ms * 1000000 < deadline + 1000000))))
unfolding ace_xsk_drain_begin ace_xsk_drain_poll_ms
drain_poll-signals drain first duration now rest h =
    rw h (
      rw (active_stays (first + duration * 1000000) rest)
        (refl, ground arith, λ ms e. ground arith))
