-- ===== src/Phc.antt =====
-- include/ace_phc.h and udp_socket/src/phc_track.c: one batch of the offset between the network
-- card's clock and CLOCK_MONOTONIC. What the ioctl leaves in its request is a list of samples.
pub mod Fits
pub mod Batch
use aceteam_bachelor_thesis.Prelude.{
  ℕ, zero, suc, ◌+◌, ◌-◌, ◌*◌, ◌/◌, ◌%◌, ◌^◌, Bool, true, false, not, ◌&&◌, ◌||◌, List, [], ◌∷◌,
  Option, none, some, ltb, leb, ◌==◌, if◌then◌else◌, ◌>>=◌,
}
use aceteam_bachelor_thesis.Prelude.Int.{ℤ, pos, negsuc, sub_ℕ, ltb_ℤ, pos_part, neg_part}

abbrev pub int64_max : ℕ
int64_max = 9223372036854775807

abbrev pub erange : ℕ
erange = 34

-- `struct ptp_clock_time`, and the three readings of a sample: MONOTONIC, PHC, MONOTONIC.
pub record PtpClockTime : Type 0 where
  pub sec : ℤ
  pub nsec : ℕ

pub record Sample : Type 0 where
  pub before : PtpClockTime
  pub phc : PtpClockTime
  pub after : PtpClockTime

-- The source's signed sum of 64 bits: past INT64_MAX it has no value.
abbrev pub int64_sum : ℕ → Option ℕ
int64_sum n = if ltb int64_max n then none else some n

abbrev pub seconds_to_ns : ℤ → ℕ → Option (Option ℕ)
seconds_to_ns (negsuc s) nsec = some none
seconds_to_ns (pos s) nsec =
    if leb 1000000000 nsec || ltb (int64_max / 1000000000) s
    then some none
    else do ns ← int64_sum (s * 1000000000 + nsec); some (some ns)

-- `some none` is false; `none` is a sum that overflows, behind which the source says nothing.
unfoldable pub ptp_time_to_ns : PtpClockTime → Option (Option ℕ)
ptp_time_to_ns time = seconds_to_ns time.sec time.nsec

-- `struct result` of a valid sample.
pub record Result : Type 0 where
  pub before_ns : ℕ
  pub phc_ns : ℕ
  pub after_ns : ℕ
  pub span_ns : ℕ
  pub offset_ns : ℤ

abbrev pub result_of : ℕ → ℕ → ℕ → Result
result_of before phc after = record {
  before_ns = before;
  phc_ns = phc;
  after_ns = after;
  span_ns = after - before;
  offset_ns = sub_ℕ phc (before + (after - before) / 2);
}

-- The test `!ptp_time_to_ns(...) ||`: a reading that is not valid ends the turn.
abbrev pub reading : Option (Option ℕ) → (ℕ → Option (Option Result)) → Option (Option Result)
reading none next = none
reading (some none) next = some none
reading (some (some ns)) next = next ns

-- One turn of the loop up to its `continue`: `some none` is a sample that is not valid, `none` one
-- with a sum that overflows.
unfoldable pub measure : Sample → Option (Option Result)
measure s = reading (ptp_time_to_ns s.before) (λ before. reading (ptp_time_to_ns s.phc) (λ phc.
    reading (ptp_time_to_ns s.after)
      (λ after. some (if ltb after before then none else some (result_of before phc after)))))

-- What the loop keeps: the shortest span so far with its index, and the count of valid samples.
pub record Best : Type 0 where
  pub best_span : ℕ
  pub best_index : ℕ
  pub valid_count : ℕ

unfoldable pub consider : ℕ → Option Result → Best → Best
consider i none best = best
consider i (some r) best =
    let counted = record best { valid_count = best.valid_count + 1 } in
    if ltb r.span_ns best.best_span
    then record counted { best_span = r.span_ns; best_index = i }
    else counted

abbrev pub scan : ℕ → List Sample → Best → Option Best
scan i [] best = some best
scan i (s ∷ ss) best = measure s >>= λ r. scan (suc i) ss (consider i r best)

-- The ioctl fails with an error number, or leaves the samples in the request.
pub data BatchAnswer : Type 0 where
  refused : ℕ → BatchAnswer
  read_samples : List Sample → BatchAnswer

-- -1 with errno, 0 with the index of the best sample, or a sum that overflows; `index` is what the
-- caller's variable held.
pub data Collected : Type 0 where
  failed : ℕ → Collected
  best_at : ℕ → Collected
  overflowed : Collected

abbrev pub report : Option Best → Collected
report none = overflowed
report (some best) = if best.valid_count == 0 then failed erange else best_at best.best_index

unfoldable pub collect_batch : BatchAnswer → ℕ → Collected
collect_batch (refused errno) index = failed errno
collect_batch (read_samples samples) index =
    report (scan 0 samples (record { best_span = int64_max; best_index = index; valid_count = 0 }))
