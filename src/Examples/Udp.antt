-- ===== src/Examples/Udp.antt =====
-- The UDP receiver and the UDP sender on a flow of small packets.
use aceteam_bachelor_thesis.Prelude.{
  ℕ, ◌+◌, ◌≡◌, ◌↔◌, refl, true, false, List, [], ◌∷◌, none, some, ◌==◌, arith, if◌then◌else◌,
}
use aceteam_bachelor_thesis.Abi.Wire.{decode_header, be_value, is_experiment_header}
use aceteam_bachelor_thesis.Afxdp.Metadata.{le_value}
use aceteam_bachelor_thesis.RunControl.Number.{ace_parse_u64, strtoull_digits}
use aceteam_bachelor_thesis.UdpReceiver.{ReceiverConfig, expected_packet_size}
use aceteam_bachelor_thesis.UdpReceiver.Cmsg.{
  ControlMessage, extract_rxq_overflow, extract_hw_timestamp, hardware_ns, is_timestamp,
}
use aceteam_bachelor_thesis.UdpReceiver.Capture.{
  Message, message, error, Round, capture, first_capture, new_record, turn, before_receive,
  after_receive, take_message, store, note_drops, count_missing, hw_time, hw_ns, hw_flag,
  is_flow_header,
}
use aceteam_bachelor_thesis.UdpReceiver.Capture.Books.{passes, samples}
use aceteam_bachelor_thesis.UdpReceiver.Capture.Delivered.{Ends, capture-Ends}
use aceteam_bachelor_thesis.UdpReceiver.Capture.Datagram.{Sent, passes-iff-Sent}
use aceteam_bachelor_thesis.UdpReceiver.Capture.Drain.{HasEnded, capture-HasEnded}
use aceteam_bachelor_thesis.UdpReceiver.Save.{
  wrote, refused, Settled, save_records, save_records-Settled, records_bytes, write_all,
  record_bytes, le_bytes,
}
use aceteam_bachelor_thesis.UdpReceiver.Finish.{
  Calls, Outcome, receive, finish, complete, save_result, save_status, clean_up, has_failed,
  after_capture,
}
use aceteam_bachelor_thesis.UdpReceiver.Finish.Result.{IsSaved, receive-IsSaved}
use aceteam_bachelor_thesis.Sender.{Timespec}
use aceteam_bachelor_thesis.Sender.Wait.{Nap, reads, wake_time, sleep_until, sleep_until_ends}
use aceteam_bachelor_thesis.Sender.StartFile.{
  Try, missing, contents, enoent, start_of, strip, wait_start_file, FileStart,
  wait_start_file-Found,
}
use aceteam_bachelor_thesis.Sender.Loop.{SenderConfig, Slot, sent_bytes}

abbrev receiver : ReceiverConfig
receiver = record {
  flow_id = 7;
  payload_size = 2;
  expected_samples = 1;
  drain_ms = 1;
  idle_timeout_ms = 0;
  require_hwts = true;
  defer_flush = false;
  has_completion_fd = true;
}

-- SCM_TIMESTAMPING with 9 ns.
abbrev hardware_time : ControlMessage
hardware_time = record {
  cmsg_level = 1;
  cmsg_type = 37;
  cmsg_len = 64;
  body = λ i. if i == 40 then 9 else 0;
}

-- The packet 5 of the flow 7, sent at 1000.
abbrev datagram : Message
datagram = record {
  bytes =
      65 ∷ 67 ∷ 69 ∷ 49 ∷ 0 ∷ 1 ∷ 0 ∷ 32 ∷ 0 ∷ 0 ∷ 0 ∷ 7 ∷ 0 ∷ 0 ∷ 0 ∷ 0 ∷ 0 ∷ 0 ∷ 0 ∷ 0 ∷ 0 ∷ 0 ∷ 0
      ∷ 5 ∷ 0 ∷ 0 ∷ 0 ∷ 0 ∷ 0 ∷ 0 ∷ 3 ∷ 232 ∷ 1 ∷ 2 ∷ [];
  truncated = false;
  control_truncated = false;
  control = hardware_time ∷ [];
}

abbrev quiet : Round
quiet = record { stop = false; clock = none; stop_again = false; answer = error 11 }

abbrev busy : Round
busy = record quiet { answer = message datagram (some 100) (some 200) }

abbrev stopping : ℕ → Round
stopping now = record { stop = true; clock = some now; stop_again = true; answer = error 11 }

capture-Ends_example :
    Ends receiver (quiet ∷ busy ∷ []) (capture receiver (quiet ∷ busy ∷ []) (first_capture 50))
capture-Ends_example = capture-Ends receiver (quiet ∷ busy ∷ []) 50 (omega arith)

passes-iff-Sent_example :
    ((passes receiver datagram ≡ true)
      × ((new_record receiver datagram 100 200).seq ≡ 5)
      × ((new_record receiver datagram 100 200).tx_ns ≡ 1000))
    ↔ ((datagram.truncated ≡ false) × Sent receiver datagram 5 1000)
passes-iff-Sent_example =
    passes-iff-Sent receiver datagram 100 200 5 1000 (omega arith) (omega arith) (omega arith)
      (omega arith)

capture-HasEnded_example :
    HasEnded
      (capture receiver (stopping 10 ∷ stopping 20 ∷ stopping 2000000 ∷ []) (first_capture 5))
unfolding first_capture
capture-HasEnded_example =
    capture-HasEnded receiver (stopping 10) (stopping 20 ∷ []) (stopping 2000000) ([]) 10 2000000
      (first_capture 5) (refl, refl) ((refl, refl), tt) (refl, refl) refl refl refl (omega arith)
      (omega arith) (omega arith)

save_records-Settled_example :
    Settled
      (wrote 2 ∷ refused 4 ∷ wrote 1 ∷ [])
      (8 ∷ 9 ∷ 10 ∷ [])
      (save_records (wrote 2 ∷ refused 4 ∷ wrote 1 ∷ []) 0 (8 ∷ 9 ∷ 10 ∷ []))
save_records-Settled_example =
    save_records-Settled (wrote 2 ∷ refused 4 ∷ wrote 1 ∷ []) 0 (8 ∷ 9 ∷ 10 ∷ [])

abbrev calls : Calls
calls = record {
  end_clock = true;
  block_stop = true;
  completion_write = true;
  block_flush = true;
  msync = true;
  writes = wrote 56 ∷ [];
  fsync = 0;
  close_result = true;
  ftruncate = true;
  close_tmpfs = true;
  restore_hwtstamp = true;
  close_socket = true;
  finish_stats = true;
}

abbrev finished : Outcome
finished = record {
  completion = some 0;
  exit_status = 0;
  result = records_bytes (samples receiver (busy ∷ []));
}

receive_run : receive receiver calls 50 (quiet ∷ busy ∷ []) ≡ some finished
unfolding receive finish complete save_result save_status clean_up has_failed after_capture
    save_records write_all record_bytes le_bytes capture first_capture turn before_receive
    after_receive take_message store note_drops count_missing new_record hw_time hw_ns hw_flag
    is_flow_header expected_packet_size extract_rxq_overflow extract_hw_timestamp hardware_ns
    is_timestamp le_value decode_header be_value is_experiment_header
receive_run = refl

receive-IsSaved_example : IsSaved receiver 50 (quiet ∷ busy ∷ []) finished
receive-IsSaved_example =
    receive-IsSaved receiver calls 50 (quiet ∷ busy ∷ []) finished (omega arith) receive_run refl

abbrev nap : ℕ → Nap
nap now = record { stop = false; clock = reads now; result = 0 }

sleep_until_ends_example : sleep_until (nap 90 ∷ nap 100 ∷ []) 100 ≡ some 0
unfolding wake_time
sleep_until_ends_example =
    sleep_until_ends (nap 90 ∷ nap 100 ∷ []) 100 0
      (refl, (90, refl, omega arith, refl, (refl, (100, refl, omega arith, refl, tt))))
      (omega arith) (omega arith)

-- No file at first, then one that holds 2000 and a line feed.
abbrev tries : List Try
tries =
    record { stop = false; opened = missing enoent; clock = none }
    ∷ record { stop = false; opened = contents (50 ∷ 48 ∷ 48 ∷ 48 ∷ 10 ∷ []); clock = some 1000 }
    ∷ []

wait_start_file-Found_example : FileStart tries 2000
unfolding wait_start_file start_of strip ace_parse_u64 strtoull_digits
wait_start_file-Found_example = wait_start_file-Found tries 2000 refl

abbrev sender : SenderConfig
sender = record {
  flow_id = 7;
  payload_size = 2;
  period_ns = 1000;
  packet_count = 2;
  start_at_ns = 0;
}

abbrev slot : ℕ → Slot
slot now = record {
  stop = false;
  naps = nap now ∷ [];
  stop_after_sleep = false;
  clock = some (now + 5);
  real = some 900;
  answer = sent_bytes 34;
}

abbrev start : Timespec
start = record { tv_sec = 0; tv_nsec = 4000 }
