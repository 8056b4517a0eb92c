-- ===== src/UdpReceiver/Finish.antt =====
-- `main` of udp_socket/src/receiver.c behind the capture loop: the completion pipe, the result file
-- and the exit status. What the system calls answer is a record. The two waits for a signal end by
-- it and change none of this.
pub mod Result
use mathlib.Core.List.{append-nil}
use aceteam_bachelor_thesis.Prelude.{
  ℕ, zero, suc, ◌+◌, ◌*◌, ◌%◌, ◌^◌, ◌≤◌, ◌<◌, ◌≡◌, ◌≢◌, inl, inr, refl, sym, ap, ◌∙◌, Bool, true,
  false, Bool-cases, not, ◌&&◌, ◌||◌, Option, none, some, List, [], ◌∷◌, ◌++◌, ◌==◌, arith, inc,
  if◌then◌else◌, length,
}
use aceteam_bachelor_thesis.UdpReceiver.{ReceiverConfig, SampleRecord}
use aceteam_bachelor_thesis.UdpReceiver.Capture.{
  Round, Reason, Capture, first_capture, Ending, ended, waiting, capture,
}
use aceteam_bachelor_thesis.UdpReceiver.Capture.Books.{
  first, samples, lacks_hwts, lacking, Delivered,
}
use aceteam_bachelor_thesis.UdpReceiver.Capture.Stored.{errors_of}
use aceteam_bachelor_thesis.UdpReceiver.Capture.Delivered.{Ended, Ends, capture-Ends}
use aceteam_bachelor_thesis.UdpReceiver.Save.{
  records_bytes, Write, Save, saved, lost, writing, save_records, save_records-Settled, Settled,
}

-- Whether each call succeeds, the answers of write, and the error of fsync or 0.
pub record Calls : Type 0 where
  pub end_clock : Bool
  pub block_stop : Bool
  pub completion_write : Bool
  pub block_flush : Bool
  pub msync : Bool
  pub writes : List Write
  pub fsync : ℕ
  pub close_result : Bool
  pub ftruncate : Bool
  pub close_tmpfs : Bool
  pub restore_hwtstamp : Bool
  pub close_socket : Bool
  pub finish_stats : Bool

abbrev pub count_error : Bool → Capture → Capture
count_error true s = s
count_error false s = record s { receive_errors = inc s.receive_errors }

-- `receive_errors || (config.require_hwts && missing_hwts)`.
unfoldable pub has_failed : ReceiverConfig → Capture → Bool
has_failed config s =
    not (s.receive_errors == 0) || (config.require_hwts && not (s.missing_hwts == 0))

-- The clock behind the loop and the wait for the signal.
unfoldable pub after_capture : ReceiverConfig → Calls → Capture → Capture
after_capture config calls s =
    let t = count_error calls.end_clock s in
    if config.defer_flush && t.received == config.expected_samples
    then count_error calls.block_stop t
    else t

-- The byte in the pipe, if it is written, and the wait for the flush.
unfoldable pub complete : ReceiverConfig → Calls → Capture → Option ℕ × Capture
complete config calls s =
    if config.has_completion_fd
    then if calls.completion_write
      then (
        some (if has_failed config s then 1 else 0),
        if config.defer_flush && not (has_failed config s)
            then count_error calls.block_flush s
            else s,
      )
      else (none, count_error false s)
    else (none, s)

-- The exit status before the cleanup, and the result file; `none` waits for a write.
unfoldable pub save_status : ReceiverConfig → Calls → Capture → Save → Option (ℕ × List ℕ)
save_status config calls s (writing cursor file) = none
save_status config calls s (lost e file) = some (1, file)
save_status config calls s (saved file) =
    some (
      (if not calls.close_result || not calls.ftruncate || has_failed config s then 1 else 0),
      file,
    )

unfoldable pub save_result : ReceiverConfig → Calls → Capture → Option (ℕ × List ℕ)
save_result config calls s =
    let bytes = records_bytes (first s.records s.received) in
    if not (s.received == 0) && not calls.msync
    then some (1, [])
    else save_status config calls s (save_records calls.writes calls.fsync bytes)

-- Every call of the cleanup is made, and one that fails sets the exit status.
unfoldable pub clean_up : Calls → ℕ → ℕ
clean_up calls status =
    if not calls.close_tmpfs
      || not calls.restore_hwtstamp
      || not calls.close_socket
      || not calls.finish_stats
    then 1
    else status

-- What is left of a run: the byte in the pipe, the exit status and the result file.
pub record Outcome : Type 0 where
  pub completion : Option ℕ
  pub exit_status : ℕ
  pub result : List ℕ

abbrev pub outcome_of : Calls → Option ℕ → Option (ℕ × List ℕ) → Option Outcome
outcome_of calls byte none = none
outcome_of calls byte (some (status, file)) =
    some (record { completion = byte; exit_status = clean_up calls status; result = file })

unfoldable pub finish : ReceiverConfig → Calls → Capture → Option Outcome
finish config calls s =
    let (byte, t) = complete config calls (after_capture config calls s) in
    outcome_of calls byte (save_result config calls t)

-- The loop and what is behind it; `none` is a run that still waits.
abbrev pub finish_ending : ReceiverConfig → Calls → Ending → Option Outcome
finish_ending config calls (ended reason s) = finish config calls s
finish_ending config calls (waiting s) = none

unfoldable pub receive : ReceiverConfig → Calls → ℕ → List Round → Option Outcome
receive config calls start_ns rounds =
    finish_ending config calls (capture config rounds (first_capture start_ns))
