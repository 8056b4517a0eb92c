-- ===== src/RunControl/Number.antt =====
-- `ace_parse_u64`, and the two parsers of BPF/afxdp_recv.c with its shape. A text is its bytes,
-- without the closing 0. strtoull on a text of digits is the C library's: the value, or ERANGE
-- with ULLONG_MAX when the value is above it.
use aceteam_bachelor_thesis.Prelude.{
  ℕ, ◌+◌, ◌-◌, ◌*◌, ◌^◌, ◌≤◌, ◌<◌, ◌≡◌, ◌≢◌, ◌↔◌, refl, Bool, true, false, not, ◌&&◌, ◌||◌, List,
  [], ◌∷◌, Option, none, some, ltb, leb, arith, length, ◌==◌, if◌then◌else◌,
}
use aceteam_bachelor_thesis.Abi.{record_max_entries}

abbrev pub is_digit : ℕ → Bool
is_digit c = leb 48 c && leb c 57

abbrev pub all_digits : List ℕ → Bool
all_digits [] = true
all_digits (c ∷ cs) = is_digit c && all_digits cs

abbrev pub value_from : ℕ → List ℕ → ℕ
value_from n [] = n
value_from n (c ∷ cs) = value_from (n * 10 + (c - 48)) cs

abbrev pub ullong_max : ℕ
ullong_max = 18446744073709551615

-- `errno` and the number of strtoull(text, &end, 10) at a text of digits, which it reads whole.
unfoldable pub strtoull_digits : List ℕ → Bool × ℕ
strtoull_digits text =
    if leb (value_from 0 text) ullong_max then (false, value_from 0 text) else (true, ullong_max)

-- `none` is -1.
unfoldable pub ace_parse_u64 : List ℕ → ℕ → ℕ → Option ℕ
unfolding strtoull_digits
ace_parse_u64 [] minimum maximum = none
ace_parse_u64 (c ∷ cs) minimum maximum =
    let (range_error, parsed) = strtoull_digits (c ∷ cs) in
    if not (all_digits (c ∷ cs))
    then none
    else if range_error || ltb parsed minimum || ltb maximum parsed
    then none
    else some parsed

-- The queue of the receiver's command line: -EINVAL or -ERANGE, or the number.
pub data Parsed : Type 0 where
  parsed : ℕ → Parsed
  error : ℕ → Parsed

unfoldable pub parse_queue_id : List ℕ → Parsed
unfolding strtoull_digits
parse_queue_id [] = error 22
parse_queue_id (c ∷ cs) =
    let (range_error, n) = strtoull_digits (c ∷ cs) in
    if not (all_digits (c ∷ cs))
    then error 22
    else if range_error || ltb 4294967295 n
    then error 34
    else parsed n

unfoldable pub parse_record_capacity : List ℕ → Parsed
unfolding strtoull_digits
parse_record_capacity [] = error 22
parse_record_capacity (c ∷ cs) =
    let (range_error, n) = strtoull_digits (c ∷ cs) in
    if not (all_digits (c ∷ cs))
    then error 22
    else if range_error || ltb n 1 || ltb record_max_entries n
    then error 22
    else parsed n

-- `parse_u64` of udp_socket/src/receiver.c and of udp_socket/src/sender.c, which are copies of each
-- other, with the test that the number is not empty. strtoull stops behind the last digit.
unfoldable pub parse_u64 : List ℕ → ℕ → ℕ → Option ℕ
unfolding strtoull_digits
parse_u64 [] minimum maximum = none
parse_u64 (c ∷ cs) minimum maximum =
    let (range_error, n) = strtoull_digits (c ∷ cs) in
    if not (all_digits (c ∷ cs))
    then none
    else if range_error || length (c ∷ cs) == 0 || ltb n minimum || ltb maximum n
    then none
    else some n

-- A decimal number: digits, at least one.
pub IsNumeral : List ℕ → ℕ → Type 0
IsNumeral text n = (text ≢ []) × (all_digits text ≡ true) × (value_from 0 text ≡ n)

-- `ace_parse_u64` accepts a text with the value `n` exactly when the text is a decimal numeral of
-- `n` and `n` is within the two bounds, the upper of which fits 64 bits.
pub ace_parse_u64_iff :
    (text : List ℕ) (minimum maximum n : ℕ)
    → maximum < 2 ^ 64
    → (ace_parse_u64 text minimum maximum ≡ some n)
      ↔ (IsNumeral text n × (minimum ≤ n) × (n ≤ maximum))
unfolding ace_parse_u64 strtoull_digits IsNumeral
ace_parse_u64_iff [] minimum maximum n fits = (λ h. absurd (none-some h), λ h. absurd (h.0.0 refl))
  where
    none-some : ¬ (none ≡ some n)
    none-some k = cc
ace_parse_u64_iff (c ∷ cs) minimum maximum n fits = ground arith

-- The two parsers of the receiver give a number exactly for the decimal numerals in their ranges:
-- 32 bits for a queue, 1 to the maximum of the record maps for a capacity.
pub parse_queue_id-parse_record_capacity :
    (text : List ℕ) (n : ℕ)
    → ((parse_queue_id text ≡ parsed n) ↔ (IsNumeral text n × (n < 2 ^ 32)))
      × ((parse_record_capacity text ≡ parsed n) ↔ (IsNumeral text n × (1 ≤ n) × (n ≤ 1048576)))
unfolding parse_queue_id parse_record_capacity strtoull_digits IsNumeral
parse_queue_id-parse_record_capacity [] n = (
  (λ h. absurd (error_parsed h), λ h. absurd (h.0.0 refl)),
  (λ h. absurd (error_parsed h), λ h. absurd (h.0.0 refl)),
)
  where
    error_parsed : ¬ (error 22 ≡ parsed n)
    error_parsed k = cc
parse_queue_id-parse_record_capacity (c ∷ cs) n = (ground arith, ground arith)

-- The sender's and the UDP receiver's parser is the shared one, on every text and in all bounds.
pub parse_u64-ace_parse_u64 :
    (text : List ℕ) (minimum maximum : ℕ)
    → parse_u64 text minimum maximum ≡ ace_parse_u64 text minimum maximum
unfolding parse_u64 ace_parse_u64
parse_u64-ace_parse_u64 [] minimum maximum = refl
parse_u64-ace_parse_u64 (c ∷ cs) minimum maximum = ground arith
