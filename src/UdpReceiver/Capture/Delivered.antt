-- ===== src/UdpReceiver/Capture/Delivered.antt =====
-- What the capture loop of udp_socket/src/receiver.c has stored and counted when it ends.
use mathlib.Core.List.{append_assoc, append-nil}
use aceteam_bachelor_thesis.Prelude.{
  ℕ, ◌^◌, ◌≡◌, ◌<◌, inl, inr, refl, subst, false, Bool-cases, List, [], ◌∷◌, ◌++◌, ltb, ltb→lt,
  arith,
}
use aceteam_bachelor_thesis.UdpReceiver.{ReceiverConfig}
use aceteam_bachelor_thesis.UdpReceiver.Capture.{
  Round, Reason, Capture, first_capture, Turn, leave, again, turn, Ending, ended, waiting,
  after_turn, capture, count,
}
use aceteam_bachelor_thesis.UdpReceiver.Capture.Books.{Delivered}
use aceteam_bachelor_thesis.UdpReceiver.Capture.Stored.{errors_of, Turned, turn-Turned}

-- How the loop stands after some of the rounds.
pub record Ended (config : ReceiverConfig) (rounds : List Round) (reason : Reason) (s : Capture)
    : Type 0 where
  pub used : List Round
  pub rest : List Round
  pub split : rounds ≡ used ++ rest
  pub delivered : Delivered config used s
  pub full : reason ≡ count → s.received ≡ config.expected_samples
  pub errors : s.receive_errors ≡ errors_of reason

abbrev pub Ends : ReceiverConfig → List Round → Ending → Type 0
Ends config rounds (ended reason s) = Ended config rounds reason s
Ends config rounds (waiting s) =
    Delivered config rounds s × (s.received < config.expected_samples) × (s.receive_errors ≡ 0)

-- The loop's own end.
Ended-full :
    (config : ReceiverConfig) (used rest : List Round) (s : Capture)
    → ltb s.received config.expected_samples ≡ false
    → s.receive_errors ≡ 0
    → Delivered config used s
    → Ended config (used ++ rest) count s
Ended-full config used rest s full clean d = record {
  used = used;
  rest = rest;
  split = refl;
  delivered = d;
  full = λ e. ground (arith, d.within);
  errors = clean;
}

after_turn-Ends :
    (config : ReceiverConfig) (used rest : List Round) (r : Round) (t : Turn)
    → Turned config used r t
    → ((u : Capture)
        → u.receive_errors ≡ 0
        → Delivered config (used ++ r ∷ []) u
        → Ends config ((used ++ r ∷ []) ++ rest) (capture config rest u))
    → Ends config (used ++ r ∷ rest) (after_turn t (capture config rest))
after_turn-Ends config used rest r (leave reason t) (d, early, errors) next = record {
  used = used;
  rest = r ∷ rest;
  split = refl;
  delivered = d;
  full = λ e. absurd (early e);
  errors = errors;
}
after_turn-Ends config used rest r (again t) (d, clean) next =
    subst (λ rounds. Ends config rounds (capture config rest t)) (append_assoc used (r ∷ []) rest)
      (next t clean d)

capture_from :
    (config : ReceiverConfig) (rest used : List Round) (s : Capture)
    → config.expected_samples < 2 ^ 64
    → s.receive_errors ≡ 0
    → Delivered config used s
    → Ends config (used ++ rest) (capture config rest s)
unfolding capture
capture_from config [] used s small clean d =
    elim (Bool-cases (ltb s.received config.expected_samples)) [
      | inl room ↦ rw (room, append-nil used) (d, ltb→lt _ _ room, clean)
      | inr full ↦ rw full (Ended-full config used ([]) s full clean d)
    ]
capture_from config (r ∷ rest) used s small clean d =
    elim (Bool-cases (ltb s.received config.expected_samples)) [
      | inr full ↦ rw full (Ended-full config used (r ∷ rest) s full clean d)
      | inl room ↦ rw room (
          after_turn-Ends config used rest r (turn config r s)
            (turn-Turned config used r s small (ltb→lt _ _ room) clean d)
            (λ u clean' d'. capture_from config rest (used ++ r ∷ []) u small clean' d'))
    ]

-- Whatever the rounds bring, when fewer than 2 ^ 64 samples are expected: the records are those of
-- the messages that pass, in their order, of the rounds before the one that ends the loop, and
-- there are no more of them than expected, exactly as many if the loop ends by its count; the
-- mapping behind them is zero; the loop counts the records without a hardware time, and, modulo
-- 2 ^ 64, the other messages as invalid; it counts one error if it ends by one, and none
-- otherwise. A loop that waits for another round has used them all.
pub capture-Ends :
    (config : ReceiverConfig) (rounds : List Round) (start_ns : ℕ)
    → config.expected_samples < 2 ^ 64
    → Ends config rounds (capture config rounds (first_capture start_ns))
unfolding first_capture
capture-Ends config rounds start_ns small =
    capture_from config rounds ([]) (first_capture start_ns) small refl (record {
      within = omega arith;
      stored = refl;
      untouched = λ i le. refl;
      missing = refl;
      others = refl;
    })
