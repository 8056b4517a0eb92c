-- ===== src/UdpReceiver/Capture.antt =====
-- The capture loop of `main` in udp_socket/src/receiver.c. What the environment does in a turn, the
-- stop flag, the clocks and the answer of recvmsg, is a value of `Round`.
pub mod Books
pub mod Stored
pub mod Delivered
pub mod Datagram
pub mod Drain
use aceteam_bachelor_thesis.Prelude.{
  ℕ, ◌+◌, ◌-◌, ◌*◌, ◌%◌, ◌^◌, Option, none, some, Bool, true, false, not, ◌&&◌, ◌||◌, List, [], ◌∷◌,
  ltb, leb, ◌==◌, if◌then◌else◌, length, eintr, eagain, inc,
}
use aceteam_bachelor_thesis.Abi.Wire.{ExperimentHeader, decode_header, is_experiment_header}
use aceteam_bachelor_thesis.UdpReceiver.{
  ReceiverConfig, SampleRecord, zero_record, sample_hwts_valid, sample_cmsg_truncated,
  expected_packet_size,
}
use aceteam_bachelor_thesis.UdpReceiver.Cmsg.{
  ControlMessage, extract_hw_timestamp, extract_rxq_overflow,
}

-- What recvmsg gives: the bytes that it put into the buffer, their number being what it returns,
-- MSG_TRUNC and MSG_CTRUNC of its flags, and the control messages.
pub record Message : Type 0 where
  pub bytes : List ℕ
  pub truncated : Bool
  pub control_truncated : Bool
  pub control : List ControlMessage

-- The answer of recvmsg: an error number, or a message and the two clocks behind it. A clock that
-- cannot be read is `none`.
pub data Answer : Type 0 where
  error : ℕ → Answer
  message : Message → Option ℕ → Option ℕ → Answer

-- The flag is read twice in a turn, and a signal may come in between.
pub record Round : Type 0 where
  pub stop : Bool
  pub clock : Option ℕ
  pub stop_again : Bool
  pub answer : Answer

pub data Reason : Type 0 where
  count : Reason
  signal_drain : Reason
  idle_timeout : Reason
  receive_error : Reason
  clock_error : Reason

-- The local variables of the loop; `records` is the mapping.
pub record Capture : Type 0 where
  pub records : ℕ → SampleRecord
  pub received : ℕ
  pub invalid : ℕ
  pub truncated : ℕ
  pub missing_hwts : ℕ
  pub socket_drops : ℕ
  pub receive_errors : ℕ
  pub drain_start_ns : ℕ
  pub last_valid_ns : ℕ

unfoldable pub first_capture : ℕ → Capture
first_capture start_ns = record {
  records = λ i. zero_record;
  received = 0;
  invalid = 0;
  truncated = 0;
  missing_hwts = 0;
  socket_drops = 0;
  receive_errors = 0;
  drain_start_ns = 0;
  last_valid_ns = start_ns;
}

pub data Turn : Type 0 where
  leave : Reason → Capture → Turn
  again : Capture → Turn

unfoldable pub fail : Reason → Capture → Turn
fail reason s = leave reason (record s { receive_errors = inc s.receive_errors })

-- `(uint64_t)(now - since) >= ms * 1000000ULL`.
unfoldable pub has_elapsed : ℕ → ℕ → ℕ → Bool
has_elapsed now since ms = leb (ms * 1000000 % 2 ^ 64) ((now + 2 ^ 64 - since) % 2 ^ 64)

unfoldable pub start_drain : ℕ → Capture → Capture
start_drain now s = if s.drain_start_ns == 0 then record s { drain_start_ns = now } else s

unfoldable pub check_drain : ReceiverConfig → ℕ → Capture → Turn
check_drain config now s =
    if has_elapsed now s.drain_start_ns config.drain_ms then leave signal_drain s else again s

unfoldable pub check_time : ReceiverConfig → Bool → Capture → Option ℕ → Turn
check_time config stop_again s none = fail clock_error s
check_time config stop_again s (some now) =
    if stop_again
    then check_drain config now (start_drain now s)
    else if has_elapsed now s.last_valid_ns config.idle_timeout_ms
    then leave idle_timeout s
    else again s

-- The part of a turn before recvmsg.
unfoldable pub before_receive : ReceiverConfig → Round → Capture → Turn
before_receive config r s =
    if r.stop || not (config.idle_timeout_ms == 0)
    then check_time config r.stop_again s r.clock
    else again s

unfoldable pub is_flow_header : ReceiverConfig → ExperimentHeader → Bool
is_flow_header config h = is_experiment_header h && h.flow_id == config.flow_id

unfoldable pub hw_time : Message → Option ℕ
hw_time m = if m.control_truncated then none else extract_hw_timestamp m.control

unfoldable pub hw_ns : Option ℕ → ℕ
hw_ns none = 0
hw_ns (some t) = t

unfoldable pub hw_flag : Option ℕ → ℕ
hw_flag none = 0
hw_flag (some t) = sample_hwts_valid

unfoldable pub count_missing : Option ℕ → ℕ → ℕ
count_missing none n = inc n
count_missing (some t) n = n

unfoldable pub new_record : ReceiverConfig → Message → ℕ → ℕ → SampleRecord
new_record config m mono real =
    let h = decode_header m.bytes 0 in
    let hw = hw_time m in
    record {
      seq = h.sequence;
      tx_ns = h.tx_realtime_ns;
      user_rx_mono_ns = mono;
      user_rx_real_ns = real;
      hw_rx_ns = hw_ns hw;
      flow_id = config.flow_id;
      len = length m.bytes % 2 ^ 32;
      flags = hw_flag hw + (if m.control_truncated then sample_cmsg_truncated else 0);
      reserved16 = 0;
      reserved32 = 0;
    }

-- `records[received] = record; received++`, and the two variables with it.
unfoldable pub store : ReceiverConfig → Message → ℕ → ℕ → Capture → Capture
store config m mono real s = record s {
  records = λ i. if i == s.received then new_record config m mono real else s.records i;
  received = inc s.received;
  missing_hwts = count_missing (hw_time m) s.missing_hwts;
  last_valid_ns = mono;
}

-- The tests of a message, behind the clocks. The header lies in the buffer, since the length is
-- that of a header and a payload.
unfoldable pub take_message : ReceiverConfig → Message → ℕ → ℕ → Capture → Capture
take_message config m mono real s =
    if m.truncated
    then record s { truncated = inc s.truncated; invalid = inc s.invalid }
    else if not (length m.bytes == expected_packet_size config)
    then record s { invalid = inc s.invalid }
    else if not (is_flow_header config (decode_header m.bytes 0))
    then record s { invalid = inc s.invalid }
    else store config m mono real s

unfoldable pub note_drops : Option ℕ → Capture → Capture
note_drops none s = s
note_drops (some n) s = record s { socket_drops = n }

-- The part of a turn behind recvmsg.
unfoldable pub after_receive : ReceiverConfig → Answer → Capture → Turn
after_receive config (error e) s =
    if e == eintr || e == eagain then again s else fail receive_error s
after_receive config (message m none real) s = fail clock_error s
after_receive config (message m (some mono) none) s = fail clock_error s
after_receive config (message m (some mono) (some real)) s =
    again (take_message config m mono real (note_drops (extract_rxq_overflow m.control) s))

abbrev pub then_receive : ReceiverConfig → Answer → Turn → Turn
then_receive config a (leave reason s) = leave reason s
then_receive config a (again s) = after_receive config a s

unfoldable pub turn : ReceiverConfig → Round → Capture → Turn
turn config r s = then_receive config r.answer (before_receive config r s)

-- Where the loop is when the given rounds are over: it has ended, or it waits for another one.
pub data Ending : Type 0 where
  ended : Reason → Capture → Ending
  waiting : Capture → Ending

abbrev pub after_turn : Turn → (Capture → Ending) → Ending
after_turn (leave reason s) next = ended reason s
after_turn (again s) next = next s

unfoldable pub capture : ReceiverConfig → List Round → Capture → Ending
capture config [] s = if ltb s.received config.expected_samples then waiting s else ended count s
capture config (r ∷ rs) s =
    if ltb s.received config.expected_samples
    then after_turn (turn config r s) (capture config rs)
    else ended count s
