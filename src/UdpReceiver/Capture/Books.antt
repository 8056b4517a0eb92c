-- ===== src/UdpReceiver/Capture/Books.antt =====
-- The records and the counts of the capture loop of udp_socket/src/receiver.c, and how a message
-- changes them.
use mathlib.Core.List.{append_assoc, append-nil}
use aceteam_bachelor_thesis.Prelude.{
  ℕ, zero, suc, ◌+◌, ◌%◌, ◌^◌, ◌≡◌, ◌≤◌, ◌<◌, refl, sym, ap, ◌∙◌, Bool, not, ◌&&◌, Option, none,
  some, List, [], ◌∷◌, ◌++◌, ◌==◌, arith, inc, if◌then◌else◌, length,
}
use aceteam_bachelor_thesis.Abi.Wire.{decode_header}
use aceteam_bachelor_thesis.UdpReceiver.{
  ReceiverConfig, SampleRecord, zero_record, expected_packet_size,
}
use aceteam_bachelor_thesis.UdpReceiver.Capture.{
  Message, Answer, error, message, Round, Capture, is_flow_header, hw_time, hw_flag, count_missing,
  new_record, store,
}

-- The first `n` records of the mapping.
abbrev pub first : (ℕ → SampleRecord) → ℕ → List SampleRecord
first f zero = []
first f (suc n) = first f n ++ f n ∷ []

abbrev pub lacks_hwts : SampleRecord → Bool
lacks_hwts r = not (r.flags % 2 == 1)

-- Those among them without the flag of a hardware time.
abbrev pub lacking : (ℕ → SampleRecord) → ℕ → ℕ
lacking f zero = 0
lacking f (suc n) = lacking f n + (if lacks_hwts (f n) then 1 else 0)

abbrev pub passes : ReceiverConfig → Message → Bool
passes config m =
    not m.truncated
    && length m.bytes == expected_packet_size config
    && is_flow_header config (decode_header m.bytes 0)

-- The record that an answer stands for, as a list.
abbrev pub sample : ReceiverConfig → Answer → List SampleRecord
sample config (error e) = []
sample config (message m none real) = []
sample config (message m (some mono) none) = []
sample config (message m (some mono) (some real)) =
    if passes config m then new_record config m mono real ∷ [] else []

abbrev pub samples : ReceiverConfig → List Round → List SampleRecord
samples config [] = []
samples config (r ∷ rs) = sample config r.answer ++ samples config rs

-- One for a message that stands for no record.
abbrev pub rejects : ReceiverConfig → Answer → ℕ
rejects config (error e) = 0
rejects config (message m none real) = 0
rejects config (message m (some mono) none) = 0
rejects config (message m (some mono) (some real)) = if passes config m then 0 else 1

abbrev pub rejected : ReceiverConfig → List Round → ℕ
rejected config [] = 0
rejected config (r ∷ rs) = rejects config r.answer + rejected config rs

-- The variables of the loop after the rounds `used`.
pub record Delivered (config : ReceiverConfig) (used : List Round) (s : Capture) : Type 0 where
  pub within : s.received ≤ config.expected_samples
  pub stored : first s.records s.received ≡ samples config used
  pub untouched : (i : ℕ) → s.received ≤ i → s.records i ≡ zero_record
  pub missing : s.missing_hwts ≡ lacking s.records s.received
  pub others : s.invalid ≡ rejected config used % 2 ^ 64

samples-append :
    (config : ReceiverConfig) (xs ys : List Round)
    → samples config (xs ++ ys) ≡ samples config xs ++ samples config ys
samples-append config [] ys = refl
samples-append config (x ∷ xs) ys =
    ap (λ t. sample config x.answer ++ t) (samples-append config xs ys)
    ∙ sym (append_assoc (sample config x.answer) (samples config xs) (samples config ys))

rejected-append :
    (config : ReceiverConfig) (xs ys : List Round)
    → rejected config (xs ++ ys) ≡ rejected config xs + rejected config ys
rejected-append config [] ys = omega arith
rejected-append config (x ∷ xs) ys = omega (arith, rejected-append config xs ys)

module _ (f g : ℕ → SampleRecord) where
  first_agree : (n : ℕ) → ((i : ℕ) → i < n → f i ≡ g i) → first f n ≡ first g n
  first_agree zero same = refl
  first_agree (suc n) same =
      rw (same n (omega arith), first_agree n (λ i lt. same i (omega arith))) refl

  lacking_agree : (n : ℕ) → ((i : ℕ) → i < n → f i ≡ g i) → lacking f n ≡ lacking g n
  lacking_agree zero same = refl
  lacking_agree (suc n) same =
      rw (same n (omega arith), lacking_agree n (λ i lt. same i (omega arith))) refl

pub lacking-le : (f : ℕ → SampleRecord) (n : ℕ) → lacking f n ≤ n
lacking-le f zero = omega arith
lacking-le f (suc n) = ground (arith, lacking-le f n)

-- What a turn may change besides the records and the counts that `Delivered` is about.
abbrev pub SameBooks : Capture → Capture → Type 0
SameBooks s t =
    (t.received ≡ s.received)
    × (t.records ≡ s.records)
    × (t.missing_hwts ≡ s.missing_hwts)
    × (t.invalid ≡ s.invalid)

module _ (config : ReceiverConfig) (used : List Round) where
  pub Delivered-same :
      {s t : Capture} → SameBooks s t → Delivered config used s → Delivered config used t
  Delivered-same {s} {t} (n, f, m, i) d = record {
    within = omega (arith, d.within);
    stored = rw (n, f) d.stored;
    untouched = λ j le. rw f (d.untouched j (omega arith));
    missing = rw (n, f, m) d.missing;
    others = i ∙ d.others;
  }

  module _ (r : Round) where
    samples_skip :
        sample config r.answer ≡ [] → samples config (used ++ r ∷ []) ≡ samples config used
    samples_skip none_there =
        samples-append config used (r ∷ []) ∙ rw none_there (append-nil (samples config used))

    samples_one :
        (x : SampleRecord)
        → sample config r.answer ≡ x ∷ []
        → samples config (used ++ r ∷ []) ≡ samples config used ++ x ∷ []
    samples_one x one = samples-append config used (r ∷ []) ∙ rw (one, append-nil) refl

    -- A turn that stands for no record and rejects none.
    pub Delivered-skip :
        {s : Capture}
        → sample config r.answer ≡ []
        → rejects config r.answer ≡ 0
        → Delivered config used s
        → Delivered config (used ++ r ∷ []) s
    Delivered-skip {s} none_there zero_there d = record {
      within = d.within;
      stored = d.stored ∙ sym (samples_skip none_there);
      untouched = d.untouched;
      missing = d.missing;
      others = omega (arith, rejected-append config used (r ∷ []), d.others);
    }

    -- A message that is counted as invalid.
    pub Delivered-reject :
        {s t : Capture}
        → sample config r.answer ≡ []
        → rejects config r.answer ≡ 1
        → t.received ≡ s.received
        → t.records ≡ s.records
        → t.missing_hwts ≡ s.missing_hwts
        → t.invalid ≡ inc s.invalid
        → Delivered config used s
        → Delivered config (used ++ r ∷ []) t
    Delivered-reject {s} {t} none_there one_there n f m i d = record {
      within = omega (arith, d.within);
      stored = rw (n, f) (d.stored ∙ sym (samples_skip none_there));
      untouched = λ j le. rw f (d.untouched j (omega arith));
      missing = rw (n, f, m) d.missing;
      others = omega (arith, rejected-append config used (r ∷ []), d.others);
    }

count_missing_lem :
    (config : ReceiverConfig) (m : Message) (mono real n : ℕ)
    → n + 1 < 2 ^ 64
    → count_missing (hw_time m) n
      ≡ n + (if lacks_hwts (new_record config m mono real) then 1 else 0)
unfolding new_record count_missing hw_flag
count_missing_lem config m mono real n small = go (hw_time m) m.control_truncated
  where
    go :
        (hw : Option ℕ) (cut : Bool)
        → count_missing hw n
          ≡ n + (if not ((hw_flag hw + (if cut then 2 else 0)) % 2 == 1) then 1 else 0)
    go none cut = ground arith
    go (some t) cut = ground arith

-- A message that is stored.
pub Delivered-store :
    (config : ReceiverConfig) (used : List Round) (r : Round) (m : Message) (mono real : ℕ)
    (s : Capture)
    → sample config r.answer ≡ new_record config m mono real ∷ []
    → rejects config r.answer ≡ 0
    → config.expected_samples < 2 ^ 64
    → s.received < config.expected_samples
    → Delivered config used s
    → Delivered config (used ++ r ∷ []) (store config m mono real s)
unfolding store
Delivered-store config used r m mono real s one zero_there small room d =
    let x = new_record config m mono real in
    let f : ℕ → SampleRecord = λ i. if i == s.received then x else s.records i in
    let n : inc s.received ≡ suc s.received = omega arith in
    let last : f s.received ≡ x = ground arith in
    let same : (i : ℕ) → i < s.received → f i ≡ s.records i = λ i lt. ground arith in
    record {
      within = omega arith;
      stored =
          rw (n, last, first_agree f s.records s.received same)
            (ap (λ t. t ++ x ∷ []) d.stored ∙ sym (samples_one config used r x one));
      untouched = λ i le. ground (arith, d.untouched i);
      missing =
          rw (n, last, lacking_agree f s.records s.received same, ← d.missing)
            (count_missing_lem config m mono real s.missing_hwts
              (omega (arith, d.missing, lacking-le s.records s.received)));
      others = omega (arith, rejected-append config used (r ∷ []), d.others);
    }
