-- ===== src/RunConfig/Counts.antt =====
-- experiment/run_config.c, `flow_count`: the packets of a flow in a run.
use native.Mathlib.Nat.{div-add-mod, mod-lt}
use aceteam_bachelor_thesis.Prelude.{
  ℕ, ◌+◌, ◌-◌, ◌*◌, ◌/◌, ◌%◌, ◌^◌, ◌≤◌, ◌<◌, ◌≡◌, ◌≢◌, ◌∙◌, arith,
}
use aceteam_bachelor_thesis.RunConfig.{RunFlow, flow_count}

-- A quotient that is rounded up.
ceiling : (n p q r : ℕ) → p * q + r ≡ n + p - 1 → r < p → 0 < n → (n ≤ p * q) × (p * q < n + p)
ceiling n p q r sum small some = (omega arith, omega arith)

-- Where the sum fits 64 bits, a flow sends the least number of packets whose periods cover a
-- duration of at least a millisecond.
pub flow_count_least :
    (f : RunFlow) (duration_ms : ℕ)
    → f.period_ns ≢ 0
    → duration_ms ≢ 0
    → duration_ms * 1000000 + f.period_ns ≤ 2 ^ 64
    → let covered = f.period_ns * flow_count f duration_ms in
      (duration_ms * 1000000 ≤ covered) × (covered < duration_ms * 1000000 + f.period_ns)
unfolding flow_count
flow_count_least f duration some some_ms fits =
    let n = duration * 1000000 in
    let p = f.period_ns in
    let x = (n + p + 2 ^ 64 - 1) % 2 ^ 64 in
    let whole : x ≡ n + p - 1 = omega arith in
    ceiling n p (x / p) (x % p) (div-add-mod x p ∙ whole) (mod-lt x (omega arith)) (omega arith)
