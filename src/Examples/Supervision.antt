-- ===== src/Examples/Supervision.antt =====
-- The supervisors and the manifest on small texts.
use aceteam_bachelor_thesis.Prelude.{
  ℕ, ◌≡◌, ◌↔◌, inl, inr, refl, true, false, not, ◌==◌, List, [], ◌∷◌, some, arith, if◌then◌else◌,
  ◌≢◌, ◌++◌, Option, none,
}
use aceteam_bachelor_thesis.Manifest.{json_string}
use aceteam_bachelor_thesis.Manifest.Utf8.{utf8_text, AllScalar}
use aceteam_bachelor_thesis.Manifest.Utf8.Accepts.{json_string-utf8_text}
use aceteam_bachelor_thesis.Manifest.Utf8.Read.{json_read, json_read-json_string}
use aceteam_bachelor_thesis.Process.{contents, ticks, ace_process_start_ticks}
use aceteam_bachelor_thesis.Process.Fields.{
  IsWord, AllWords, spaced, ace_process_start_ticks-spaced,
}
use aceteam_bachelor_thesis.Supervisor.{Context, frame_bytes, receive_frame}
use aceteam_bachelor_thesis.Supervisor.Waiting.{exited, signaled, running, reaped, again, lost}
use aceteam_bachelor_thesis.Supervisor.Adopted.{Round, owns}
use aceteam_bachelor_thesis.Supervisor.Children.{Kind, Family, Poll}
use aceteam_bachelor_thesis.Supervisor.Fields.{IsContext}
use aceteam_bachelor_thesis.Supervisor.Phases.{InStep, receive_frame-frame_bytes}

-- A quote, a euro sign and a code point of a higher plane.
abbrev characters : List ℕ
characters = 34 ∷ 8364 ∷ 128512 ∷ []

characters-AllScalar : AllScalar characters
characters-AllScalar = (
  ((λ e. omega arith), inl (omega arith)),
  (
    ((λ e. omega arith), inl (omega arith)),
    (((λ e. omega arith), inr (omega arith, omega arith)), tt),
  ),
)

json_read-json_string_example :
    (out : List ℕ) × (json_string (some (utf8_text characters)) ≡ some out)
    × (json_read out ≡ some characters)
json_read-json_string_example = json_read-json_string characters characters-AllScalar

-- The bytes of e with an acute accent.
abbrev accent : List ℕ
accent = 195 ∷ 169 ∷ []

json_string-utf8_text_example :
    ((out : List ℕ) × (json_string (some accent) ≡ some out))
    ↔ ((cps : List ℕ) × AllScalar cps × (accent ≡ utf8_text cps))
json_string-utf8_text_example =
    json_string-utf8_text accent
      ((λ e. omega arith), omega arith, ((λ e. omega arith), omega arith, tt))

abbrev sender_side : Context
sender_side = record {
  index = 3;
  nonce = 1 ∷ 2 ∷ 3 ∷ 4 ∷ 5 ∷ 6 ∷ 7 ∷ 8 ∷ 9 ∷ 10 ∷ 11 ∷ 12 ∷ 13 ∷ 14 ∷ 15 ∷ 16 ∷ [];
  digest = 97 ∷ 98 ∷ [];
  run_id = 114 ∷ 49 ∷ [];
  receiver = false;
}

abbrev receiver_side : Context
receiver_side = record sender_side { receiver = true }

sender_side-IsContext : IsContext sender_side
sender_side-IsContext = record {
  index_fits = omega arith;
  nonce_fits = refl;
  digest_text = ((λ e. omega arith), ((λ e. omega arith), tt));
  digest_fits = omega arith;
  run_id_text = ((λ e. omega arith), ((λ e. omega arith), tt));
  run_id_fits = omega arith;
}

receive_frame-frame_bytes_example :
    (((receive_frame receiver_side 3 (frame_bytes sender_side 3)).1 ≡ true)
      ↔ InStep sender_side 3 receiver_side 3)
    × (InStep sender_side 3 receiver_side 3
        → (receive_frame receiver_side 3 (frame_bytes sender_side 3)).0.nonce
          ≡ (if receiver_side.receiver then receiver_side.nonce else sender_side.nonce))
receive_frame-frame_bytes_example =
    receive_frame-frame_bytes sender_side receiver_side 3 3 sender_side-IsContext (omega arith)

-- The loader, and a receiver at the barrier.
abbrev kinds : ℕ → Kind
kinds i = record {
  loader = i == 0;
  external_load = false;
  persistent = i == 0;
  barrier = not (i == 0);
}

abbrev both : Family
both = record {
  children = 2;
  child = λ i. record { done = false; status = exited 0; stopping = false };
  log = [];
}

-- In each wait the first turn finds the children running and the second the time over.
abbrev slow : ℕ → List Poll
slow i =
    record {
      stop = false;
      answers = λ j. running;
      timed_out = false;
      killed = again ∷ reaped (signaled 9) ∷ [];
    }
    ∷ record {
      stop = false;
      answers = λ j. running;
      timed_out = true;
      killed = again ∷ reaped (signaled 9) ∷ [];
    }
    ∷ []

-- A descendant that does not end by itself, and then none.
abbrev rounds : List Round
rounds =
    owns (record { pid = 77; turns = (running, true) ∷ []; killed = lost ∷ [] } ∷ []) ∷ owns [] ∷ []

abbrev reads_seven : List ℕ → Option (ℕ × List ℕ)
reads_seven [] = none
reads_seven (x ∷ xs) = if x == 55 then some (7, xs) else none

-- A name that ends in a parenthesis and a space.
abbrev odd_name : List ℕ
odd_name = 49 ∷ 32 ∷ 40 ∷ 41 ∷ 32 ∷ []

-- 19 fields of one zero.
abbrev zeros : List (List ℕ)
zeros =
    (48 ∷ [])
    ∷ (48 ∷ [])
    ∷ (48 ∷ [])
    ∷ (48 ∷ [])
    ∷ (48 ∷ [])
    ∷ (48 ∷ [])
    ∷ (48 ∷ [])
    ∷ (48 ∷ [])
    ∷ (48 ∷ [])
    ∷ (48 ∷ [])
    ∷ (48 ∷ [])
    ∷ (48 ∷ [])
    ∷ (48 ∷ [])
    ∷ (48 ∷ [])
    ∷ (48 ∷ [])
    ∷ (48 ∷ [])
    ∷ (48 ∷ [])
    ∷ (48 ∷ [])
    ∷ (48 ∷ [])
    ∷ []

zero_digit-IsWord : IsWord (48 ∷ [])
zero_digit-IsWord = (ground arith, ground arith, ground arith, tt)

abbrev zero_digit : List ℕ
zero_digit = 48 ∷ []

word_zero : zero_digit ≢ []
word_zero e = ground arith

zeros-AllWords : AllWords zeros
zeros-AllWords = (
  word_zero,
  zero_digit-IsWord,
  (
    word_zero,
    zero_digit-IsWord,
    (
      word_zero,
      zero_digit-IsWord,
      (
        word_zero,
        zero_digit-IsWord,
        (
          word_zero,
          zero_digit-IsWord,
          (
            word_zero,
            zero_digit-IsWord,
            (
              word_zero,
              zero_digit-IsWord,
              (
                word_zero,
                zero_digit-IsWord,
                (
                  word_zero,
                  zero_digit-IsWord,
                  (
                    word_zero,
                    zero_digit-IsWord,
                    (
                      word_zero,
                      zero_digit-IsWord,
                      (
                        word_zero,
                        zero_digit-IsWord,
                        (
                          word_zero,
                          zero_digit-IsWord,
                          (
                            word_zero,
                            zero_digit-IsWord,
                            (
                              word_zero,
                              zero_digit-IsWord,
                              (
                                word_zero,
                                zero_digit-IsWord,
                                (
                                  word_zero,
                                  zero_digit-IsWord,
                                  (
                                    word_zero,
                                    zero_digit-IsWord,
                                    (word_zero, zero_digit-IsWord, tt),
                                  ),
                                ),
                              ),
                            ),
                          ),
                        ),
                      ),
                    ),
                  ),
                ),
              ),
            ),
          ),
        ),
      ),
    ),
  ),
)

ace_process_start_ticks-spaced_example :
    ace_process_start_ticks reads_seven true
      (contents (odd_name ++ 41 ∷ spaced zeros (32 ∷ 55 ∷ 10 ∷ [])))
    ≡ ticks 7
ace_process_start_ticks-spaced_example =
    ace_process_start_ticks-spaced reads_seven (55 ∷ []) (10 ∷ []) 7 (λ e. ground arith)
      (ground arith, ground arith, ground arith, tt) (inr refl) refl odd_name zeros refl
      zeros-AllWords (ground arith, tt) (omega arith) (omega arith) refl
