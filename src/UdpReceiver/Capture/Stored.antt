-- ===== src/UdpReceiver/Capture/Stored.antt =====
-- One turn of the capture loop of udp_socket/src/receiver.c: what it stores and counts.
use aceteam_bachelor_thesis.Prelude.{
  ℕ, ◌^◌, ◌≡◌, ◌≢◌, ◌<◌, inl, inr, refl, ap, ◌∙◌, Bool-cases, not, ◌||◌, Option, none, some, List,
  [], ◌∷◌, ◌++◌, ◌==◌, arith, eintr, eagain, if◌then◌else◌, length,
}
use aceteam_bachelor_thesis.Abi.Wire.{decode_header}
use aceteam_bachelor_thesis.UdpReceiver.{ReceiverConfig, expected_packet_size}
use aceteam_bachelor_thesis.UdpReceiver.Cmsg.{extract_rxq_overflow}
use aceteam_bachelor_thesis.UdpReceiver.Capture.{
  Message, Answer, error, message, Round, Reason, Capture, Turn, leave, again, fail, start_drain,
  check_drain, check_time, before_receive, is_flow_header, store, take_message, note_drops,
  after_receive, turn, receive_error, clock_error, then_receive, count,
}
use aceteam_bachelor_thesis.UdpReceiver.Capture.Books.{
  Delivered, SameBooks, Delivered-same, Delivered-skip, Delivered-reject, Delivered-store,
}

-- The answer of recvmsg, by the tests that it meets.
take_message-Delivered :
    (config : ReceiverConfig) (used : List Round) (r : Round) (m : Message) (mono real : ℕ)
    (s : Capture)
    → r.answer ≡ message m (some mono) (some real)
    → config.expected_samples < 2 ^ 64
    → s.received < config.expected_samples
    → Delivered config used s
    → Delivered config (used ++ r ∷ []) (take_message config m mono real s)
unfolding take_message
take_message-Delivered config used r m mono real s is_message small room d =
    elim (Bool-cases m.truncated) [
      | inl cut ↦ simp cut (
          Delivered-reject config used r (rw is_message (simp cut refl))
            (rw is_message (simp cut refl)) refl refl refl refl d)
      | inr whole ↦ elim (Bool-cases (length m.bytes == expected_packet_size config)) [
        | inr short ↦
            simp (whole, short)
              (Delivered-reject config used r (rw is_message (simp (whole, short) refl))
                (rw is_message (simp (whole, short) refl)) refl refl refl refl d)
        | inl long ↦ elim (Bool-cases (is_flow_header config (decode_header m.bytes 0))) [
          | inr other ↦
              simp (whole, long, other)
                (Delivered-reject config used r (rw is_message (simp (whole, long, other) refl))
                  (rw is_message (simp (whole, long, other) refl)) refl refl refl refl d)
          | inl ours ↦
              simp (whole, long, ours)
                (Delivered-store config used r m mono real s
                  (rw is_message (simp (whole, long, ours) refl))
                  (rw is_message (simp (whole, long, ours) refl)) small room d)
        ]
      ]
    ]

-- The errors that the loop counts: one, if it ends with an error.
abbrev pub errors_of : Reason → ℕ
errors_of receive_error = 1
errors_of clock_error = 1
errors_of _ = 0

-- Before recvmsg nothing is stored or counted as a message.
abbrev Checked : Capture → Turn → Type 0
Checked s (leave reason t) =
    SameBooks s t × (reason ≢ count) × (t.receive_errors ≡ errors_of reason)
Checked s (again t) = SameBooks s t × (t.receive_errors ≡ 0)

before_receive-Checked :
    (config : ReceiverConfig) (r : Round) (s : Capture)
    → s.receive_errors ≡ 0
    → Checked s (before_receive config r s)
unfolding before_receive check_time check_drain start_drain fail
before_receive-Checked config r s clean = go r.clock
  where
    go :
        (clock : Option ℕ)
        → Checked s (
            if r.stop || not (config.idle_timeout_ms == 0)
            then check_time config r.stop_again s clock
            else again s)
    go none = ground (arith)
    go (some now) = ground (arith)

abbrev pub Turned : ReceiverConfig → List Round → Round → Turn → Type 0
Turned config used r (leave reason t) =
    Delivered config used t × (reason ≢ count) × (t.receive_errors ≡ errors_of reason)
Turned config used r (again t) = Delivered config (used ++ r ∷ []) t × (t.receive_errors ≡ 0)

fail-Turned :
    (config : ReceiverConfig) (used : List Round) (r : Round) (reason : Reason) (s : Capture)
    → errors_of reason ≡ 1
    → s.receive_errors ≡ 0
    → Delivered config used s
    → Turned config used r (fail reason s)
unfolding fail
fail-Turned config used r reason s one clean d = (
  Delivered-same config used (refl, refl, refl, refl) d,
  λ e. omega (arith, ap errors_of e),
  omega (arith),
)

take_message_errors :
    (config : ReceiverConfig) (m : Message) (mono real : ℕ) (s : Capture)
    → (take_message config m mono real s).receive_errors ≡ s.receive_errors
unfolding take_message store
take_message_errors config m mono real s = ground arith

after_receive-Turned :
    (config : ReceiverConfig) (used : List Round) (r : Round) (a : Answer) (s : Capture)
    → r.answer ≡ a
    → config.expected_samples < 2 ^ 64
    → s.received < config.expected_samples
    → s.receive_errors ≡ 0
    → Delivered config used s
    → Turned config used r (after_receive config a s)
unfolding after_receive note_drops
after_receive-Turned config used r (error e) s is_a small room clean d =
    elim (Bool-cases (e == eintr || e == eagain)) [
      | inl retry ↦ rw retry (Delivered-skip config used r (rw is_a refl) (rw is_a refl) d, clean)
      | inr broken ↦ rw broken (fail-Turned config used r receive_error s refl clean d)
    ]
after_receive-Turned config used r (message m none real) s is_a small room clean d =
    fail-Turned config used r clock_error s refl clean d
after_receive-Turned config used r (message m (some mono) none) s is_a small room clean d =
    fail-Turned config used r clock_error s refl clean d
after_receive-Turned config used r (message m (some mono) (some real)) s is_a small room clean d =
    go (extract_rxq_overflow m.control)
  where
    go :
        (drops : Option ℕ)
        → Turned config used r (again (take_message config m mono real (note_drops drops s)))
    go none = (
      take_message-Delivered config used r m mono real s is_a small room d,
      take_message_errors config m mono real s ∙ clean,
    )
    go (some n) = (
      take_message-Delivered config used r m mono real (record s { socket_drops = n }) is_a small
          room (Delivered-same config used (refl, refl, refl, refl) d),
      take_message_errors config m mono real (record s { socket_drops = n }) ∙ clean,
    )

pub turn-Turned :
    (config : ReceiverConfig) (used : List Round) (r : Round) (s : Capture)
    → config.expected_samples < 2 ^ 64
    → s.received < config.expected_samples
    → s.receive_errors ≡ 0
    → Delivered config used s
    → Turned config used r (turn config r s)
unfolding turn
turn-Turned config used r s small room clean d =
    go (before_receive config r s) (before_receive-Checked config r s clean)
  where
    go : (t : Turn) → Checked s t → Turned config used r (then_receive config r.answer t)
    go (leave reason t) (same, early, errors) = (Delivered-same config used same d, early, errors)
    go (again t) (same, clean') =
        after_receive-Turned config used r r.answer t refl small (omega arith) clean'
          (Delivered-same config used same d)
