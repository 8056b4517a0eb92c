-- ===== src/UdpReceiver/Capture/Drain.antt =====
-- The end of the capture loop of udp_socket/src/receiver.c behind a signal.
use aceteam_bachelor_thesis.Prelude.{
  ℕ, ◌+◌, ◌-◌, ◌*◌, ◌%◌, ◌^◌, ◌≡◌, ◌≤◌, ◌<◌, inl, inr, refl, true, false, Bool-cases, ◌||◌, Option,
  none, some, List, [], ◌∷◌, ◌++◌, ltb, leb, le→leb, ◌==◌, arith, eintr, eagain,
}
use aceteam_bachelor_thesis.UdpReceiver.{ReceiverConfig}
use aceteam_bachelor_thesis.UdpReceiver.Cmsg.{extract_rxq_overflow}
use aceteam_bachelor_thesis.UdpReceiver.Capture.{
  Message, Answer, error, message, Round, Reason, Capture, Turn, leave, again, fail, has_elapsed,
  start_drain, check_drain, check_time, before_receive, store, take_message, note_drops,
  after_receive, then_receive, turn, Ending, ended, after_turn, capture, signal_drain, count,
}

-- The flag is up at both reads: a signal has come, and nothing takes the flag back.
abbrev pub Stops : Round → Type 0
Stops r = (r.stop ≡ true) × (r.stop_again ≡ true)

abbrev pub AllStop : List Round → Type 0
AllStop [] = Unit
AllStop (r ∷ rs) = Stops r × AllStop rs

abbrev pub HasEnded : Ending → Type 0
HasEnded e = (reason : Reason) × (s : Capture) × (e ≡ ended reason s)

-- A turn that goes on leaves the start of the drain where it is.
abbrev Keeps : ℕ → Turn → Type 0
Keeps start (leave reason s) = Unit
Keeps start (again s) = s.drain_start_ns ≡ start

module _ (config : ReceiverConfig) (start : ℕ) where
  taken :
      (m : Message) (mono real : ℕ) (s : Capture)
      → s.drain_start_ns ≡ start
      → (take_message config m mono real s).drain_start_ns ≡ start
  unfolding take_message store
  taken m mono real s k = ground arith

  after_receive-Keeps :
      (a : Answer) (s : Capture) → s.drain_start_ns ≡ start → Keeps start (after_receive config a s)
  unfolding after_receive fail
  after_receive-Keeps (error e) s k = elim (Bool-cases (e == eintr || e == eagain)) [
    | inl retry ↦ rw retry k
    | inr broken ↦ rw broken tt
  ]
  after_receive-Keeps (message m none real) s k = tt
  after_receive-Keeps (message m (some mono) none) s k = tt
  after_receive-Keeps (message m (some mono) (some real)) s k = go (extract_rxq_overflow m.control)
    where
      go :
          (drops : Option ℕ)
          → (take_message config m mono real (note_drops drops s)).drain_start_ns ≡ start
      go none = unfold note_drops in taken m mono real s k
      go (some n) = unfold note_drops in taken m mono real (record s { socket_drops = n }) k

  start_drain_same :
      (now : ℕ) (s : Capture) → 0 < start → s.drain_start_ns ≡ start → start_drain now s ≡ s
  unfolding start_drain
  start_drain_same now s positive k =
      let set : (s.drain_start_ns == 0) ≡ false = ground arith in simp set refl

  -- Behind a signal, before the time is over.
  turn-Keeps :
      (r : Round) (s : Capture)
      → Stops r
      → 0 < start
      → s.drain_start_ns ≡ start
      → Keeps start (turn config r s)
  unfolding turn before_receive check_time check_drain fail
  turn-Keeps r s (up, up_again) positive k = rw up (go r.clock)
    where
      go :
          (clock : Option ℕ)
          → Keeps start (then_receive config r.answer (check_time config r.stop_again s clock))
      go none = tt
      go (some now) =
          rw (up_again, start_drain_same now s positive k)
            (elim (Bool-cases (has_elapsed now s.drain_start_ns config.drain_ms)) [
              | inl over ↦ rw over tt
              | inr early ↦ rw early (after_receive-Keeps r.answer s k)
            ])

  -- When the time is over.
  turn-leaves :
      (r : Round) (s : Capture) (now : ℕ)
      → Stops r
      → r.clock ≡ some now
      → 0 < start
      → s.drain_start_ns ≡ start
      → start + config.drain_ms * 1000000 ≤ now
      → now < 2 ^ 63
      → turn config r s ≡ leave signal_drain s
  unfolding turn before_receive check_time check_drain has_elapsed
  turn-leaves r s now (up, up_again) clock positive k late small =
      let over : leb (config.drain_ms * 1000000 % 2 ^ 64)
            ((now + 2 ^ 64 - s.drain_start_ns) % 2 ^ 64)
          ≡ true =
        le→leb _ _ (omega arith) in
      rw (up, clock, up_again) (simp (start_drain_same now s positive k, over) refl)

  -- The turn that begins the drain.
  turn_first-Keeps :
      (r : Round) (s : Capture)
      → Stops r
      → r.clock ≡ some start
      → s.drain_start_ns ≡ 0
      → Keeps start (turn config r s)
  unfolding turn before_receive check_time check_drain start_drain
  turn_first-Keeps r s (up, up_again) clock idle =
      let unset : (s.drain_start_ns == 0) ≡ true = ground arith in
      rw (up, clock, up_again)
        (simp unset (elim (Bool-cases (has_elapsed start start config.drain_ms)) [
          | inl over ↦ rw over tt
          | inr early ↦
              rw early (after_receive-Keeps r.answer (record s { drain_start_ns = start }) refl)
        ]))

  after_turn-HasEnded :
      (t : Turn) (next : Capture → Ending)
      → Keeps start t
      → ((u : Capture) → u.drain_start_ns ≡ start → HasEnded (next u))
      → HasEnded (after_turn t next)
  after_turn-HasEnded (leave reason u) next k ends = (reason, u, refl)
  after_turn-HasEnded (again u) next k ends = ends u k

  capture_late :
      (before : List Round) (late : Round) (after : List Round) (now : ℕ) (s : Capture)
      → AllStop before
      → Stops late
      → late.clock ≡ some now
      → 0 < start
      → s.drain_start_ns ≡ start
      → start + config.drain_ms * 1000000 ≤ now
      → now < 2 ^ 63
      → HasEnded (capture config (before ++ late ∷ after) s)
  unfolding capture
  capture_late [] late after now s ups up clock positive k over small =
      elim (Bool-cases (ltb s.received config.expected_samples)) [
        | inr full ↦ rw full (count, s, refl)
        | inl room ↦
            rw (room, turn-leaves late s now up clock positive k over small) (signal_drain, s, refl)
      ]
  capture_late (r ∷ before) late after now s ups up clock positive k over small =
      elim (Bool-cases (ltb s.received config.expected_samples)) [
        | inr full ↦ rw full (count, s, refl)
        | inl room ↦ rw room (
            after_turn-HasEnded (turn config r s) _ (turn-Keeps r s ups.0 positive k)
              (λ u k'. capture_late before late after now u ups.1 up clock positive k' over small))
      ]

-- A signal comes before the first of these rounds, and their clock reads `start` in the first and,
-- `drain_ms` later or more, `now` in a later one: then the loop ends in one of the rounds up to the
-- latter, whatever messages and errors recvmsg gives. No drain is under way at first, `start` is not
-- 0, and the clock stays below 2 ^ 63.
pub capture-HasEnded :
    (config : ReceiverConfig) (r : Round) (before : List Round) (late : Round) (after : List Round)
    (start now : ℕ) (s : Capture)
    → Stops r
    → AllStop before
    → Stops late
    → s.drain_start_ns ≡ 0
    → r.clock ≡ some start
    → late.clock ≡ some now
    → 0 < start
    → start + config.drain_ms * 1000000 ≤ now
    → now < 2 ^ 63
    → HasEnded (capture config (r ∷ before ++ late ∷ after) s)
unfolding capture
capture-HasEnded config r before late after start now s up_r ups up idle clock_r clock positive over
      small =
    elim (Bool-cases (ltb s.received config.expected_samples)) [
      | inr full ↦ rw full (count, s, refl)
      | inl room ↦ rw room (
          after_turn-HasEnded config start (turn config r s) _
            (turn_first-Keeps config start r s up_r clock_r idle)
            (λ u k.
              capture_late config start before late after now u ups up clock positive k over small))
    ]
