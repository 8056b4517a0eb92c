-- ===== src/Sender/Loop.antt =====
-- `main` of udp_socket/src/sender.c from the check of the deadlines to the exit status, without the
-- two sums that are kept in floating point. What a turn of the send loop meets is a value of `Slot`.
pub mod Turn
pub mod Sequence
pub mod Pacing
use aceteam_bachelor_thesis.Prelude.{
  ℕ, zero, suc, ◌+◌, ◌-◌, ◌*◌, ◌/◌, ◌%◌, ◌^◌, Bool, true, false, not, ◌&&◌, ◌||◌, Option, none,
  some, List, [], ◌∷◌, ◌++◌, ltb, leb, ◌==◌, eintr, eio, inc, if◌then◌else◌,
}
use aceteam_bachelor_thesis.Abi.{packet_header_size}
use aceteam_bachelor_thesis.Abi.Wire.{sender_header, encode_header}
use aceteam_bachelor_thesis.Sender.{Timespec, add_ns, total_ns}
use aceteam_bachelor_thesis.Sender.Wait.{Nap, sleep_until}

-- `struct sender_config`, as far as the run behind the set-up reads it.
pub record SenderConfig : Type 0 where
  pub flow_id : ℕ
  pub payload_size : ℕ
  pub period_ns : ℕ
  pub packet_count : ℕ
  pub start_at_ns : ℕ

pub data Reason : Type 0 where
  count : Reason
  signal : Reason
  sleep_error : Reason
  clock_error : Reason
  send_error : Reason
  start_deadline_expired : Reason
  configuration_error : Reason

abbrev pub int64_max : ℕ
int64_max = 2 ^ 63 - 1

-- The time of the first packet, or why there is none.
pub data Launch : Type 0 where
  refused : Reason → Launch
  launched : Timespec → Launch

unfoldable pub base_ns : SenderConfig → ℕ → ℕ
base_ns config start_ns = if config.start_at_ns == 0 then start_ns else config.start_at_ns

-- The whole sequence of deadlines is checked before the first packet is sent.
unfoldable pub launch : SenderConfig → ℕ → Launch
launch config start_ns =
    let base = base_ns config start_ns in
    if not (config.start_at_ns == 0) && leb base start_ns
    then refused start_deadline_expired
    else if ltb ((int64_max + 2 ^ 64 - base) % 2 ^ 64 / config.period_ns)
        ((config.packet_count + 2 ^ 64 - 1) % 2 ^ 64)
    then refused configuration_error
    else launched (record { tv_sec = base / 1000000000; tv_nsec = base % 1000000000 })

-- What sendto answers: a number of bytes, or an error number.
pub data SendAnswer : Type 0 where
  sent_bytes : ℕ → SendAnswer
  send_failed : ℕ → SendAnswer

-- The stop flag at the head of the loop and behind the sleep, the turns of the sleep, and the two
-- clocks; a clock that cannot be read is `none`.
pub record Slot : Type 0 where
  pub stop : Bool
  pub naps : List Nap
  pub stop_after_sleep : Bool
  pub clock : Option ℕ
  pub real : Option ℕ
  pub answer : SendAnswer

-- A packet given to sendto, and the monotonic time read before it.
pub record Shot : Type 0 where
  pub packet : List ℕ
  pub actual_ns : ℕ

-- The local variables of the loop, and what has been given to sendto.
pub record Progress : Type 0 where
  pub wire : List Shot
  pub next_send : Timespec
  pub sent : ℕ
  pub errors : ℕ
  pub attempted : ℕ
  pub interval_count : ℕ
  pub interval_min : ℕ
  pub interval_max : ℕ
  pub late_count : ℕ
  pub late_max : ℕ
  pub late_periods : ℕ
  pub previous_tx_ns : ℕ
  pub first_tx_ns : ℕ
  pub last_tx_ns : ℕ
  pub last_send_errno : ℕ

unfoldable pub first_progress : Timespec → Progress
first_progress next_send = record {
  wire = [];
  next_send = next_send;
  sent = 0;
  errors = 0;
  attempted = 0;
  interval_count = 0;
  interval_min = 2 ^ 64 - 1;
  interval_max = 0;
  late_count = 0;
  late_max = 0;
  late_periods = 0;
  previous_tx_ns = 0;
  first_tx_ns = 0;
  last_tx_ns = 0;
  last_send_errno = 0;
}

-- How a turn goes on: it leaves the loop, it goes on, or it still sleeps.
pub data Pace : Type 0 where
  leave : Reason → Progress → Pace
  go_on : Progress → Pace
  asleep : Pace

unfoldable pub fail : Reason → Progress → Pace
fail reason s = leave reason (record s { errors = inc s.errors })

abbrev pub after_sleep : Option ℕ → Bool → Progress → Pace
after_sleep none stop s = asleep
after_sleep (some e) stop s =
    if not (e == 0) && not (e == eintr)
    then fail sleep_error s
    else if stop
    then leave count s
    else go_on s

unfoldable pub schedule : SenderConfig → ℕ → Progress → Progress
schedule config seq s =
    if seq == 0 then s else record s { next_send = add_ns s.next_send config.period_ns }

-- The deadline, and the sleep up to it, which the first packet without a start time leaves out.
unfoldable pub pace : SenderConfig → ℕ → Slot → Progress → Pace
pace config seq slot s =
    if not (seq == 0) || not (config.start_at_ns == 0)
    then after_sleep (sleep_until slot.naps (total_ns (schedule config seq s).next_send))
        slot.stop_after_sleep (schedule config seq s)
    else go_on s

abbrev pub max_of : ℕ → ℕ → ℕ
max_of a b = if ltb b a then a else b

-- The statistics of lateness.
unfoldable pub count_late : ℕ → ℕ → Progress → Progress
count_late period lateness s = record s {
  late_count = if lateness == 0 then s.late_count else inc s.late_count;
  late_periods = if leb period lateness then inc s.late_periods else s.late_periods;
  late_max = max_of lateness s.late_max;
}

-- The statistics of the intervals between packets.
unfoldable pub count_interval : ℕ → Progress → Progress
count_interval actual_ns s =
    let interval = (actual_ns + 2 ^ 64 - s.previous_tx_ns) % 2 ^ 64 in
    if s.previous_tx_ns == 0 then s else record s {
      interval_min = if ltb interval s.interval_min then interval else s.interval_min;
      interval_max = max_of interval s.interval_max;
      interval_count = inc s.interval_count;
    }

unfoldable pub observe : SenderConfig → ℕ → Progress → Progress
observe config actual_ns s =
    let deadline_ns = total_ns s.next_send in
    let lateness = if ltb deadline_ns actual_ns then actual_ns - deadline_ns else 0 in
    record (count_interval actual_ns (count_late config.period_ns lateness s)) {
      previous_tx_ns = actual_ns;
    }

unfoldable pub packet_size : SenderConfig → ℕ
packet_size config = packet_header_size + config.payload_size

abbrev pub zeros : ℕ → List ℕ
zeros zero = []
zeros (suc n) = 0 ∷ zeros n

-- The buffer, which is zero behind the header.
unfoldable pub packet_of : SenderConfig → ℕ → ℕ → List ℕ
packet_of config seq tx_ns =
    encode_header (sender_header config.flow_id seq tx_ns) ++ zeros config.payload_size

unfoldable pub answered : SenderConfig → SendAnswer → Progress → Progress
answered config (sent_bytes n) s =
    if n == packet_size config
    then record s { sent = inc s.sent }
    else record s { last_send_errno = eio; errors = inc s.errors }
answered config (send_failed e) s = record s { last_send_errno = e; errors = inc s.errors }

unfoldable pub attempt : SenderConfig → ℕ → ℕ → ℕ → Progress → Progress
attempt config seq actual_ns tx_ns s = record s {
  wire = s.wire ++ record { packet = packet_of config seq tx_ns; actual_ns = actual_ns } ∷ [];
  first_tx_ns = if s.attempted == 0 then actual_ns else s.first_tx_ns;
  last_tx_ns = actual_ns;
  attempted = inc s.attempted;
}

abbrev pub shoot : SenderConfig → ℕ → ℕ → Option ℕ → SendAnswer → Progress → Pace
shoot config seq actual_ns none answer s = fail clock_error s
shoot config seq actual_ns (some tx_ns) answer s =
    go_on (answered config answer (attempt config seq actual_ns tx_ns s))

abbrev pub behind_sleep : SenderConfig → ℕ → Option ℕ → Slot → Progress → Pace
behind_sleep config seq none slot s = fail clock_error s
behind_sleep config seq (some actual_ns) slot s =
    shoot config seq actual_ns slot.real slot.answer (observe config actual_ns s)

abbrev pub then_shoot : SenderConfig → ℕ → Slot → Pace → Pace
then_shoot config seq slot (leave reason s) = leave reason s
then_shoot config seq slot (go_on s) = behind_sleep config seq slot.clock slot s
then_shoot config seq slot asleep = asleep

unfoldable pub send_slot : SenderConfig → ℕ → Slot → Progress → Pace
send_slot config seq slot s = then_shoot config seq slot (pace config seq slot s)

-- The loop has ended, or it goes on behind the given turns.
pub data Sending : Type 0 where
  ended : Reason → Progress → Sending
  under_way : Progress → Sending

abbrev pub after_slot : Pace → Progress → (Progress → Sending) → Sending
after_slot (leave reason t) s next = ended reason t
after_slot (go_on t) s next = next t
after_slot asleep s next = under_way s

unfoldable pub send_loop : SenderConfig → List Slot → ℕ → Progress → Sending
send_loop config [] seq s = if ltb seq config.packet_count then under_way s else ended count s
send_loop config (slot ∷ slots) seq s =
    if ltb seq config.packet_count && not slot.stop
    then after_slot (send_slot config seq slot s) s (send_loop config slots (suc seq))
    else ended count s

-- The loop, from the launch on.
unfoldable pub run : SenderConfig → List Slot → Timespec → Sending
run config slots next_send = send_loop config slots 0 (first_progress next_send)

abbrev pub send_errors : Reason → Reason
send_errors count = send_error
send_errors reason = reason

-- The reason that the statistics name, by the flag behind the loop.
unfoldable pub final_reason : Bool → Reason → Progress → Reason
final_reason stop reason s =
    if stop then signal else if not (s.errors == 0) then send_errors reason else reason

-- The byte for the completion pipe, and the exit status of a run without further errors.
unfoldable pub outcome : SenderConfig → Bool → Progress → ℕ
outcome config stop s =
    if not (s.errors == 0) || stop || not (s.attempted == config.packet_count) then 1 else 0
