-- ===== src/UdpReceiver/Finish/Result.antt =====
-- What an exit status of 0 of udp_socket/src/receiver.c says of the result file.
use aceteam_bachelor_thesis.Prelude.{
  ℕ, zero, suc, ◌+◌, ◌^◌, ◌≤◌, ◌<◌, ◌≡◌, inl, inr, refl, sym, ap, subst, ◌∙◌, true, false,
  Bool-cases, not, ◌&&◌, Option, none, some, List, [], ◌∷◌, ◌++◌, ◌==◌, arith,
}
use aceteam_bachelor_thesis.UdpReceiver.{ReceiverConfig, SampleRecord}
use aceteam_bachelor_thesis.UdpReceiver.Capture.{
  Round, Reason, Capture, first_capture, Ending, ended, waiting, capture,
}
use aceteam_bachelor_thesis.UdpReceiver.Capture.Books.{first, samples, lacks_hwts, lacking}
use aceteam_bachelor_thesis.UdpReceiver.Capture.Stored.{errors_of}
use aceteam_bachelor_thesis.UdpReceiver.Capture.Delivered.{Ends, capture-Ends}
use aceteam_bachelor_thesis.UdpReceiver.Save.{
  records_bytes, Save, saved, lost, writing, save_records, save_records-Settled, Settled,
}
use aceteam_bachelor_thesis.UdpReceiver.Finish.{
  Calls, has_failed, after_capture, complete, save_status, save_result, clean_up, Outcome,
  outcome_of, finish, finish_ending, receive,
}

-- Every record has the flag of a hardware time.
abbrev pub AllTimed : List SampleRecord → Type 0
AllTimed [] = Unit
AllTimed (r ∷ rs) = (lacks_hwts r ≡ false) × AllTimed rs

AllTimed-append :
    (rs : List SampleRecord) (r : SampleRecord)
    → AllTimed rs
    → lacks_hwts r ≡ false
    → AllTimed (rs ++ r ∷ [])
AllTimed-append [] r timed one = (one, tt)
AllTimed-append (x ∷ rs) r (head, timed) one = (head, AllTimed-append rs r timed one)

lacking-AllTimed : (f : ℕ → SampleRecord) (n : ℕ) → lacking f n ≡ 0 → AllTimed (first f n)
lacking-AllTimed f zero h = tt
lacking-AllTimed f (suc n) h = elim (Bool-cases (lacks_hwts (f n))) [
  | inl bare ↦ absurd (omega (arith, rw bare at h))
  | inr timed ↦
      AllTimed-append (first f n) (f n) (lacking-AllTimed f n (omega (arith, rw timed at h))) timed
]

-- The steps between the loop and the file leave the records alone, and lose no error.
record Kept (s t : Capture) : Type 0 where
  same_records : t.records ≡ s.records
  same_received : t.received ≡ s.received
  same_missing : t.missing_hwts ≡ s.missing_hwts
  no_fewer_errors : s.receive_errors ≤ t.receive_errors
  few_errors : t.receive_errors ≤ s.receive_errors + 2

after_capture-Kept :
    (config : ReceiverConfig) (calls : Calls) (s : Capture)
    → s.receive_errors ≤ 1
    → Kept s (after_capture config calls s)
unfolding after_capture
after_capture-Kept config calls s few = ground arith

complete-Kept :
    (config : ReceiverConfig) (calls : Calls) (s : Capture)
    → s.receive_errors ≤ 3
    → Kept s (complete config calls s).1
unfolding complete
complete-Kept config calls s few = ground arith

save_status-saved :
    (config : ReceiverConfig) (calls : Calls) (s : Capture) (x : Save) (bytes file : List ℕ)
    → Settled calls.writes bytes x
    → save_status config calls s x ≡ some (0, file)
    → (file ≡ bytes) × (has_failed config s ≡ false)
unfolding save_status
save_status-saved config calls s (saved out) bytes file settled e =
    let same : out ≡ file = cc in (sym same ∙ settled, ground arith)
save_status-saved config calls s (lost err out) bytes file settled e = absurd (ground arith)
save_status-saved config calls s (writing left out) bytes file settled e = absurd (cc)

-- A file saved with the status 0.
save_result-saved :
    (config : ReceiverConfig) (calls : Calls) (s : Capture) (file : List ℕ)
    → save_result config calls s ≡ some (0, file)
    → (file ≡ records_bytes (first s.records s.received)) × (has_failed config s ≡ false)
unfolding save_result
save_result-saved config calls s file e =
    let bytes = records_bytes (first s.records s.received) in
    elim (Bool-cases (not (s.received == 0) && not calls.msync)) [
      | inl broken ↦ absurd (one_zero (rw broken at e))
      | inr synced_map ↦
          save_status-saved config calls s (save_records calls.writes calls.fsync bytes) bytes file
            (save_records-Settled calls.writes calls.fsync bytes) (rw synced_map at e)
    ]
  where
    one_zero : {out : List ℕ} → ¬ (◌≡◌ {A = Option (ℕ × List ℕ)} (some (1, [])) (some (0, out)))
    one_zero h = ground arith

outcome_of-exit_status :
    (calls : Calls) (byte : Option ℕ) (r : Option (ℕ × List ℕ)) (o : Outcome)
    → outcome_of calls byte r ≡ some o
    → o.exit_status ≡ 0
    → r ≡ some (0, o.result)
unfolding clean_up
outcome_of-exit_status calls byte none o e zero_status = absurd (cc)
outcome_of-exit_status calls byte (some (status, file)) o e zero_status = ground arith

-- What a finished run says of the variables behind the loop, if its status is 0.
finish-saved :
    (config : ReceiverConfig) (calls : Calls) (s : Capture) (o : Outcome)
    → s.receive_errors ≤ 1
    → finish config calls s ≡ some o
    → o.exit_status ≡ 0
    → (o.result ≡ records_bytes (first s.records s.received))
      × (s.receive_errors ≡ 0)
      × (config.require_hwts ≡ true → s.missing_hwts ≡ 0)
unfolding finish
finish-saved config calls s o few e zero_status =
    let t = after_capture config calls s in
    let u = (complete config calls t).1 in
    let k = after_capture-Kept config calls s few in
    let k' = complete-Kept config calls t (omega (arith, k.few_errors)) in
    let done =
      outcome_of-exit_status calls (complete config calls t).0 (save_result config calls u) o e
        zero_status in
    let (file, fine) = save_result-saved config calls u o.result done in
    let clean : u.receive_errors ≡ 0 = unfold has_failed in ground arith in
    let none_missing : config.require_hwts ≡ true → u.missing_hwts ≡ 0 =
      λ needed. unfold has_failed in ground arith in
    (
      rw (k'.same_records, k'.same_received, k.same_records, k.same_received) at file,
      omega (arith, k.no_fewer_errors, k'.no_fewer_errors),
      λ needed. (sym (k'.same_missing ∙ k.same_missing)) ∙ none_missing needed,
    )

errors_of-le : (reason : Reason) → errors_of reason ≤ 1
errors_of-le reason = ground arith

-- What a result file holds after some rounds.
pub record IsSaved (config : ReceiverConfig) (start_ns : ℕ) (rounds : List Round) (o : Outcome)
    : Type 0 where
  pub used : List Round
  pub rest : List Round
  pub split : rounds ≡ used ++ rest
  pub reason : Reason
  pub last : Capture
  pub ends : capture config rounds (first_capture start_ns) ≡ ended reason last
  pub no_error : errors_of reason ≡ 0
  pub file : o.result ≡ records_bytes (samples config used)
  pub timed : config.require_hwts ≡ true → AllTimed (samples config used)

-- A run of the receiver that ends with the exit status 0, when fewer than 2 ^ 64 samples are
-- expected, leaves a result file of exactly the records of the messages that pass, in their order,
-- in a first part of the rounds; its loop has ended, and not by an error; and if hardware times are
-- required, every record in the file has one.
pub receive-IsSaved :
    (config : ReceiverConfig) (calls : Calls) (start_ns : ℕ) (rounds : List Round) (o : Outcome)
    → config.expected_samples < 2 ^ 64
    → receive config calls start_ns rounds ≡ some o
    → o.exit_status ≡ 0
    → IsSaved config start_ns rounds o
unfolding receive
receive-IsSaved config calls start_ns rounds o small e zero_status =
    go (capture config rounds (first_capture start_ns)) refl
      (capture-Ends config rounds start_ns small) e
  where
    go :
        (end : Ending)
        → capture config rounds (first_capture start_ns) ≡ end
        → Ends config rounds end
        → finish_ending config calls end ≡ some o
        → IsSaved config start_ns rounds o
    go (waiting s) is_end d h = absurd (cc)
    go (ended reason s) is_end d h =
        let (file, clean, timed) =
          finish-saved config calls s o (omega (arith, d.errors, errors_of-le reason)) h
            zero_status in
        record {
          used = d.used;
          rest = d.rest;
          split = d.split;
          reason = reason;
          last = s;
          ends = is_end;
          no_error = sym d.errors ∙ clean;
          file = file ∙ ap records_bytes d.delivered.stored;
          timed = λ needed.
              subst AllTimed d.delivered.stored
                (lacking-AllTimed s.records s.received (sym d.delivered.missing ∙ timed needed));
        }
