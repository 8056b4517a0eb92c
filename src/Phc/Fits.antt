-- ===== src/Phc/Fits.antt =====
-- include/ace_phc.h: batches without a time that overflows.
use aceteam_bachelor_thesis.Prelude.{
  ℕ, suc, ◌+◌, ◌*◌, ◌/◌, leb, ◌||◌, ◌≤◌, ◌<◌, ◌≡◌, inl, inr, refl, sym, ap, ◌∙◌, false, Bool-cases,
  List, [], ◌∷◌, Option, none, some, ltb, ◌==◌, arith, ◌>>=◌,
}
use aceteam_bachelor_thesis.Prelude.Int.{ℤ, pos, negsuc}
use aceteam_bachelor_thesis.Phc.{
  PtpClockTime, ptp_time_to_ns, seconds_to_ns, reading, Sample, Result, measure, Best, consider,
  scan, int64_max,
}

-- The result of a sample, if it has one.
abbrev pub valid : Sample → Option Result
valid s = measure s >>= λ r. r

-- A time in the last second that the test of `ptp_time_to_ns` lets through is at most INT64_MAX ns.
abbrev pub Fits : PtpClockTime → Type 0
Fits time = time.sec ≡ pos 9223372036 → time.nsec < 1000000000 → time.nsec ≤ 854775807

abbrev pub AllFit : List Sample → Type 0
AllFit [] = Unit
AllFit (s ∷ ss) = Fits s.before × Fits s.phc × Fits s.after × AllFit ss

ptp_time_to_ns-Fits :
    (time : PtpClockTime) → Fits time → (o : Option ℕ) × (ptp_time_to_ns time ≡ some o)
unfolding ptp_time_to_ns
ptp_time_to_ns-Fits time fits = go time.sec refl
  where
    small_sum :
        (s nsec : ℕ)
        → (leb 1000000000 nsec || ltb (int64_max / 1000000000) s) ≡ false
        → (s ≡ 9223372036 → nsec < 1000000000 → nsec ≤ 854775807)
        → ltb int64_max (s * 1000000000 + nsec) ≡ false
    small_sum s nsec in_range last = elim (Bool-cases (s == 9223372036)) [
      | inl same ↦
          let e : s ≡ 9223372036 = ground arith in let bound = last e (ground arith) in ground arith
      | inr other ↦ ground arith
    ]

    go : (sec : ℤ) → time.sec ≡ sec → (o : Option ℕ) × (seconds_to_ns sec time.nsec ≡ some o)
    go (negsuc s) h = (none, refl)
    go (pos s) h = elim (Bool-cases (leb 1000000000 time.nsec || ltb (int64_max / 1000000000) s)) [
      | inl out ↦ rw out (none, refl)
      | inr in_range ↦
          let small : ltb int64_max (s * 1000000000 + time.nsec) ≡ false =
            small_sum s time.nsec in_range (λ e. fits (h ∙ ap pos e)) in
          rw (in_range, small) (some (s * 1000000000 + time.nsec), refl)
    ]

reading-some :
    (o : Option ℕ) (next : ℕ → Option (Option Result))
    → ((n : ℕ) → (r : Option Result) × (next n ≡ some r))
    → (r : Option Result) × (reading (some o) next ≡ some r)
reading-some none next h = (none, refl)
reading-some (some n) next h = h n

measure-Fits : (s : Sample) → Fits s.before → Fits s.phc → Fits s.after → measure s ≡ some (valid s)
unfolding measure
measure-Fits s before phc after =
    let (a, e) = ptp_time_to_ns-Fits s.before before in
    let (b, e') = ptp_time_to_ns-Fits s.phc phc in
    let (c, e'') = ptp_time_to_ns-Fits s.after after in
    let (r, h) : (r : Option Result) × (measure s ≡ some r) =
      rw (e, e', e'')
        (reading-some a _ (λ n. reading-some b _ (λ m. reading-some c _ (λ k. (_, refl))))) in
    h ∙ ap some (sym (ap (λ o. o >>= λ x. x) h))

-- The scan over the results of samples without an overflow.
abbrev pub scan_valid : ℕ → List Sample → Best → Best
scan_valid i [] best = best
scan_valid i (s ∷ ss) best = scan_valid (suc i) ss (consider i (valid s) best)

pub scan-scan_valid :
    (ss : List Sample) (i : ℕ) (best : Best)
    → AllFit ss
    → scan i ss best ≡ some (scan_valid i ss best)
scan-scan_valid [] i best fits = refl
scan-scan_valid (s ∷ ss) i best (before, phc, after, fits) =
    rw (measure-Fits s before phc after) (scan-scan_valid ss (suc i) _ fits)
