-- ===== src/Sender/Wait.antt =====
-- `sleep_until` of udp_socket/src/sender.c. What a turn of its loop meets is a value of `Nap`.
use aceteam_bachelor_thesis.Prelude.{
  ℕ, ◌+◌, ◌-◌, ◌*◌, ◌≡◌, ◌≤◌, ◌≢◌, ◌<◌, ◌⊎◌, inl, inr, refl, Bool, false, Bool-cases, not, ◌&&◌,
  Option, none, some, List, [], ◌∷◌, ltb, leb, leb→le, ◌==◌, arith, eintr, if◌then◌else◌, length,
}

-- The stop flag, the monotonic clock or its error number, and what clock_nanosleep answers.
pub data Clock : Type 0 where
  reads : ℕ → Clock
  fails : ℕ → Clock

pub record Nap : Type 0 where
  pub stop : Bool
  pub clock : Clock
  pub result : ℕ

-- The time that the turn sleeps to: 10 ms on, or the deadline.
unfoldable pub wake_time : ℕ → ℕ → ℕ
wake_time target now = if ltb 10000000 (target - now) then now + 10000000 else target

abbrev pub nap : ℕ → Clock → ℕ → Option ℕ → Option ℕ
nap target (fails e) result next = some e
nap target (reads now) result next =
    if leb target now
    then some 0
    else if not (result == 0) && not (result == eintr)
    then some result
    else next

-- 0, or the error number; `none` sleeps on behind the given turns.
unfoldable pub sleep_until : List Nap → ℕ → Option ℕ
sleep_until [] target = none
sleep_until (n ∷ ns) target =
    if n.stop then some eintr else nap target n.clock n.result (sleep_until ns target)

-- Turns without a signal, whose clock is at `now` at first and no later than a sleep without an
-- error has to end.
abbrev pub Sleeps : ℕ → ℕ → List Nap → Type 0
Sleeps target now [] = Unit
Sleeps target now (n ∷ ns) =
    (n.stop ≡ false)
    × ((later : ℕ) × (n.clock ≡ reads later)
        × (now ≤ later)
        × (n.result ≡ 0)
        × Sleeps target (wake_time target later) ns)

-- When no signal comes and every sleep lasts as long as it has to, `sleep_until` returns 0 within
-- one turn for each 10 ms up to the deadline, and one more.
pub sleep_until_ends :
    (naps : List Nap) (target now : ℕ)
    → Sleeps target now naps
    → target + 10000000 ≤ now + 10000000 * length naps
    → (0 < length naps)
    → sleep_until naps target ≡ some 0
unfolding sleep_until wake_time
sleep_until_ends [] target now sleeps enough some_there = absurd (omega arith)
sleep_until_ends (n ∷ ns) target now (up, (later, clock, order, result, sleeps)) enough some_there =
    elim (Bool-cases (leb target later)) [
      | inl over ↦ rw (up, clock, over) refl
      | inr early ↦
          rw (up, clock, early, result)
            (sleep_until_ends ns target (wake_time target later) sleeps (ground arith)
              (ground arith))
    ]

-- A reading of the clock among the turns.
abbrev pub Read : List Nap → ℕ → Type 0
Read [] t = ⊥
Read (n ∷ ns) t = (n.clock ≡ reads t) ⊎ Read ns t

-- A clock that fails sets errno to an error number, which is not 0.
abbrev pub HasErrno : List Nap → Type 0
HasErrno [] = Unit
HasErrno (n ∷ ns) = ((e : ℕ) → n.clock ≡ fails e → e ≢ 0) × HasErrno ns

-- It returns 0 only when the clock has been read at the deadline or later.
pub sleep_until_not_early :
    (naps : List Nap) (target : ℕ)
    → HasErrno naps
    → sleep_until naps target ≡ some 0
    → (t : ℕ) × Read naps t × (target ≤ t)
unfolding sleep_until
sleep_until_not_early [] target errno e = absurd (cc)
sleep_until_not_early (n ∷ ns) target (errno, more) e = elim (Bool-cases n.stop) [
  | inl up ↦ absurd (ground (arith, rw up at e))
  | inr down ↦ go n.clock refl (rw down at e) (sleep_until_not_early ns target more)
]
  where
    go :
        (clock : Clock)
        → n.clock ≡ clock
        → nap target clock n.result (sleep_until ns target) ≡ some 0
        → (sleep_until ns target ≡ some 0 → (t : ℕ) × Read ns t × (target ≤ t))
        → (t : ℕ) × Read (n ∷ ns) t × (target ≤ t)
    go (fails err) is_clock h rest = absurd (errno err is_clock (ground arith))
    go (reads now) is_clock h rest = elim (Bool-cases (leb target now)) [
      | inl over ↦ (now, inl is_clock, leb→le target now over)
      | inr early ↦ elim (Bool-cases (not (n.result == 0) && not (n.result == eintr))) [
        | inl broken ↦ absurd (ground (arith, rw (early, broken) at h))
        | inr slept ↦ let (t, read, late) = rest (rw (early, slept) at h) in (t, inr read, late)
      ]
    ]
