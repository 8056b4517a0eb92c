-- ===== src/Sender/StartFile.antt =====
-- `wait_start_file` of udp_socket/src/sender.c. What a turn of its loop meets is a value of `Try`.
use aceteam_bachelor_thesis.Prelude.{
  ℕ, ◌-◌, ◌^◌, ◌≡◌, ◌<◌, ◌⊎◌, inl, inr, refl, ap, ◌∙◌, ◌++◌, Bool, false, Bool-cases, not, ◌&&◌,
  ◌||◌, Option, none, some, List, [], ◌∷◌, leb, ◌==◌, arith, eintr, if◌then◌else◌, length,
}
use aceteam_bachelor_thesis.RunControl.Number.{ace_parse_u64, IsNumeral, ace_parse_u64_iff}

-- What open and read give: an error number, something that is no regular file, or the bytes that
-- read puts into the buffer, 79 at most; none of them stand for an error of read or an empty file.
pub data Opened : Type 0 where
  missing : ℕ → Opened
  special : Opened
  contents : List ℕ → Opened

pub record Try : Type 0 where
  pub stop : Bool
  pub opened : Opened
  pub clock : Option ℕ

-- 0 with the deadline, -1 with errno, or -1 with the errno of the clock; `polling` waits behind
-- the given turns.
pub data Start : Type 0 where
  start_at : ℕ → Start
  refused : ℕ → Start
  no_clock : Start
  polling : Start

abbrev pub enoent : ℕ
enoent = 2

abbrev pub einval : ℕ
einval = 22

abbrev pub etime : ℕ
etime = 62

abbrev pub has_zero : List ℕ → Bool
has_zero [] = false
has_zero (c ∷ cs) = c == 0 || has_zero cs

-- A line feed or a carriage return.
abbrev pub is_line_end : ℕ → Bool
is_line_end c = c == 10 || c == 13

abbrev pub strip_before : ℕ → List ℕ → List ℕ
strip_before c [] = if is_line_end c then [] else c ∷ []
strip_before c (d ∷ ds) = c ∷ d ∷ ds

-- The text without the line ends behind it.
unfoldable pub strip : List ℕ → List ℕ
strip [] = []
strip (c ∷ cs) = strip_before c (strip cs)

abbrev pub start_in_future : Option ℕ → ℕ → Start
start_in_future none deadline = no_clock
start_in_future (some now) deadline = if leb deadline now then refused etime else start_at deadline

abbrev pub start_parsed : Option ℕ → Option ℕ → Start
start_parsed none clock = refused einval
start_parsed (some deadline) clock = start_in_future clock deadline

unfoldable pub start_of : List ℕ → Option ℕ → Start
start_of bytes clock =
    if length bytes == 0 || length bytes == 79 || has_zero bytes
    then refused einval
    else start_parsed (ace_parse_u64 (strip bytes) 1 (2 ^ 63 - 1)) clock

abbrev pub try_open : Opened → Option ℕ → Start → Start
try_open (missing e) clock next = if not (e == enoent) && not (e == eintr) then refused e else next
try_open special clock next = refused einval
try_open (contents bytes) clock next = start_of bytes clock

unfoldable pub wait_start_file : List Try → Start
wait_start_file [] = polling
wait_start_file (t ∷ ts) =
    if t.stop then refused eintr else try_open t.opened t.clock (wait_start_file ts)

-- A file that one of the turns has read.
abbrev pub Found : List Try → List ℕ → ℕ → Type 0
Found [] bytes now = ⊥
Found (t ∷ ts) bytes now = ((t.opened ≡ contents bytes) × (t.clock ≡ some now)) ⊎ Found ts bytes now

abbrev pub AllLineEnds : List ℕ → Type 0
AllLineEnds [] = Unit
AllLineEnds (c ∷ cs) = ((c ≡ 10) ⊎ (c ≡ 13)) × AllLineEnds cs

-- The bytes are the digits of the number, with line feeds and carriage returns behind them only.
abbrev pub NumberLine : List ℕ → ℕ → Type 0
NumberLine bytes n =
    (digits : List ℕ) × (ends : List ℕ) × (bytes ≡ digits ++ ends)
    × AllLineEnds ends
    × IsNumeral digits n

strip_before-ends :
    (c : ℕ) (text ends : List ℕ)
    → AllLineEnds ends
    → (more : List ℕ) × (c ∷ (text ++ ends) ≡ strip_before c text ++ more) × AllLineEnds more
strip_before-ends c (d ∷ ds) ends h = (ends, refl, h)
strip_before-ends c [] ends h = elim (Bool-cases (is_line_end c)) [
  | inl end ↦ rw end (c ∷ ends, refl, (ground arith, h))
  | inr other ↦ rw other (ends, refl, h)
]

strip-ends : (bytes : List ℕ) → (ends : List ℕ) × (bytes ≡ strip bytes ++ ends) × AllLineEnds ends
unfolding strip
strip-ends [] = ([], refl, tt)
strip-ends (c ∷ cs) =
    let (ends, split, h) = strip-ends cs in
    let (more, split', h') = strip_before-ends c (strip cs) ends h in
    (more, ap (λ xs. c ∷ xs) split ∙ split', h')

strip-NumberLine : (bytes : List ℕ) (n : ℕ) → IsNumeral (strip bytes) n → NumberLine bytes n
strip-NumberLine bytes n numeral =
    let (ends, split, h) = strip-ends bytes in (strip bytes, ends, split, h, numeral)

abbrev Starts : List ℕ → Option ℕ → ℕ → Type 0
Starts bytes clock deadline =
    (now : ℕ) × (clock ≡ some now)
    × NumberLine bytes deadline
    × (now < deadline)
    × (deadline < 2 ^ 63)

start_parsed-Starts :
    (bytes : List ℕ) (o clock : Option ℕ) (deadline : ℕ)
    → ace_parse_u64 (strip bytes) 1 (2 ^ 63 - 1) ≡ o
    → start_parsed o clock ≡ start_at deadline
    → Starts bytes clock deadline
start_parsed-Starts bytes none clock deadline parse e = absurd (cc)
start_parsed-Starts bytes (some n) none deadline parse e = absurd (cc)
start_parsed-Starts bytes (some n) (some now) deadline parse e = elim (Bool-cases (leb n now)) [
  | inl past ↦ absurd (ground (arith, rw past at e))
  | inr future ↦
      let same : n ≡ deadline = ground (arith, rw future at e) in
      let (numeral, low, high) =
        (ace_parse_u64_iff (strip bytes) 1 (2 ^ 63 - 1) deadline (omega arith)).0
          (rw (← same) parse) in
      (now, refl, strip-NumberLine bytes deadline numeral, ground arith, omega arith)
]

start_of-Starts :
    (bytes : List ℕ) (clock : Option ℕ) (deadline : ℕ)
    → start_of bytes clock ≡ start_at deadline
    → Starts bytes clock deadline
unfolding start_of
start_of-Starts bytes clock deadline e =
    elim (Bool-cases (length bytes == 0 || length bytes == 79 || has_zero bytes)) [
      | inl bad ↦ absurd (refused_start (rw bad at e))
      | inr good ↦
          start_parsed-Starts bytes (ace_parse_u64 (strip bytes) 1 (2 ^ 63 - 1)) clock deadline refl
            (rw good at e)
    ]
  where
    refused_start : ¬ (refused einval ≡ start_at deadline)
    refused_start h = cc

abbrev pub FileStart : List Try → ℕ → Type 0
FileStart tries deadline =
    (bytes : List ℕ) × (now : ℕ) × Found tries bytes now
    × NumberLine bytes deadline
    × (now < deadline)
    × (deadline < 2 ^ 63)

-- A start that `wait_start_file` returns is the decimal number of a file that it has read: the file
-- is the number's digits and nothing else but line feeds and carriage returns behind them, and the
-- number is below 2 ^ 63 and later than the clock behind the read.
pub wait_start_file-Found :
    (tries : List Try) (deadline : ℕ)
    → wait_start_file tries ≡ start_at deadline
    → FileStart tries deadline
unfolding wait_start_file
wait_start_file-Found [] deadline e = absurd (cc)
wait_start_file-Found (t ∷ ts) deadline e = elim (Bool-cases t.stop) [
  | inl up ↦ absurd (refused_start eintr (rw up at e))
  | inr down ↦ go t.opened refl (rw down at e) (wait_start_file-Found ts deadline)
]
  where
    refused_start : (err : ℕ) → ¬ (refused err ≡ start_at deadline)
    refused_start err h = cc

    go :
        (opened : Opened)
        → t.opened ≡ opened
        → try_open opened t.clock (wait_start_file ts) ≡ start_at deadline
        → (wait_start_file ts ≡ start_at deadline → FileStart ts deadline)
        → FileStart (t ∷ ts) deadline
    go (missing err) is_opened h rest =
        elim (Bool-cases (not (err == enoent) && not (err == eintr))) [
          | inl broken ↦ absurd (refused_start err (rw broken at h))
          | inr retry ↦
              let (bytes, now, found, numeral, future, small) = rest (rw retry at h) in
              (bytes, now, inr found, numeral, future, small)
        ]
    go special is_opened h rest = absurd (refused_start einval h)
    go (contents bytes) is_opened h rest =
        let (now, read, numeral, future, small) = start_of-Starts bytes t.clock deadline h in
        (bytes, now, inl (is_opened, read), numeral, future, small)
