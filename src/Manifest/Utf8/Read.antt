-- ===== src/Manifest/Utf8/Read.antt =====
-- A JSON reader (RFC 8259) gives back the code points of what `json_string` of
-- experiment/ace_manifest.c prints.
use aceteam_bachelor_thesis.Prelude.{
  ℕ, zero, suc, ◌+◌, ◌-◌, ◌*◌, ◌/◌, ◌%◌, ◌≡◌, ◌≤◌, ◌<◌, inl, inr, refl, ap, ◌∙◌, true, false,
  Bool-cases, ◌&&◌, ◌||◌, Option, none, some, List, [], ◌∷◌, ◌++◌, ltb, leb, ◌==◌, arith,
  if◌then◌else◌, ◌>>=◌, length, length-append,
}
use aceteam_bachelor_thesis.Manifest.{hex_digit, unit_escape, ascii, escape, json_string}
use aceteam_bachelor_thesis.Manifest.Utf8.{
  IsScalar, utf8_text, AllScalar, piece, pieces, json_chars-utf8_text,
}

-- A digit of a \u escape in lower case.
abbrev pub hex_value : ℕ → Option ℕ
hex_value d =
    if leb 48 d && leb d 57
    then some (d - 48)
    else if leb 97 d && leb d 102
    then some (d - 87)
    else none

-- Four digits.
unfoldable pub read_unit : List ℕ → Option (ℕ × List ℕ)
read_unit (a ∷ b ∷ c ∷ d ∷ rest) = do
  x ← hex_value a
  y ← hex_value b
  z ← hex_value c
  w ← hex_value d
  some (((x * 16 + y) * 16 + z) * 16 + w, rest)
read_unit _ = none

abbrev pub low_surrogate : ℕ → ℕ × List ℕ → Option (ℕ × List ℕ)
low_surrogate high (low, rest) =
    if leb 0xdc00 low && leb low 0xdfff
    then some (0x10000 + (high - 0xd800) * 1024 + (low - 0xdc00), rest)
    else none

-- Behind a first escape: the other half of a pair, if it is the first half of one.
unfoldable pub read_pair : ℕ → List ℕ → Option (ℕ × List ℕ)
read_pair high (a ∷ b ∷ rest) =
    if leb 0xd800 high && leb high 0xdbff
    then (if a == 92 && b == 117 then read_unit rest >>= low_surrogate high else none)
    else some (high, a ∷ b ∷ rest)
read_pair high rest = if leb 0xd800 high && leb high 0xdbff then none else some (high, rest)

unfoldable pub read_escape : List ℕ → Option (ℕ × List ℕ)
read_escape [] = none
read_escape (e ∷ cs) =
    if e == 34 || e == 92
    then some (e, cs)
    else if e == 117
    then (do (high, rest) ← read_unit cs; read_pair high rest)
    else none

unfoldable pub read_char : ℕ → List ℕ → Option (ℕ × List ℕ)
read_char c cs =
    if c == 92 then read_escape cs else if ltb c 32 || ltb 127 c then none else some (c, cs)

-- The characters up to the closing quote, behind which there is nothing.
unfoldable pub read_chars : ℕ → List ℕ → Option (List ℕ)
read_chars fuel [] = none
read_chars zero (c ∷ cs) = none
read_chars (suc fuel) (c ∷ cs) =
    let next = (do (cp, rest) ← read_char c cs; cps ← read_chars fuel rest; some (cp ∷ cps)) in
    if c == 34 then (if length cs == 0 then some [] else none) else next

unfoldable pub json_read : List ℕ → Option (List ℕ)
json_read [] = none
json_read (c ∷ cs) = if c == 34 then read_chars (length cs) cs else none

hex_value-hex_digit : (d : ℕ) → d < 16 → hex_value (hex_digit d) ≡ some d
hex_value-hex_digit d h = ground arith

read_unit-digits :
    (n : ℕ) (rest : List ℕ)
    → n < 65536
    → read_unit (
        hex_digit (n / 4096 % 16)
        ∷ hex_digit (n / 256 % 16)
        ∷ hex_digit (n / 16 % 16)
        ∷ hex_digit (n % 16)
        ∷ rest)
      ≡ some (n, rest)
unfolding read_unit
read_unit-digits n rest h =
    let whole : ((n / 4096 % 16 * 16 + n / 256 % 16) * 16 + n / 16 % 16) * 16 + n % 16 ≡ n =
      omega arith in
    simp
      (
        hex_value-hex_digit (n / 4096 % 16) (omega arith),
        hex_value-hex_digit (n / 256 % 16) (omega arith),
        hex_value-hex_digit (n / 16 % 16) (omega arith),
        hex_value-hex_digit (n % 16) (omega arith),
      )
      (ap (λ k. some (k, rest)) whole)

-- A number that is no first half of a pair.
read_pair-single :
    (n : ℕ) (rest : List ℕ)
    → (leb 0xd800 n && leb n 0xdbff) ≡ false
    → read_pair n rest ≡ some (n, rest)
unfolding read_pair
read_pair-single n [] h = rw h refl
read_pair-single n (a ∷ []) h = rw h refl
read_pair-single n (a ∷ b ∷ rest) h = rw h refl

read_pair-low :
    (high low : ℕ) (rest : List ℕ)
    → high < 1024
    → low < 1024
    → read_pair (0xd800 + high) (unit_escape (0xdc00 + low) ++ rest)
      ≡ some (0x10000 + high * 1024 + low, rest)
unfolding read_pair unit_escape
read_pair-low high low rest h l =
    let first : (leb 0xd800 (0xd800 + high) && leb (0xd800 + high) 0xdbff) ≡ true = ground arith in
    let second : (leb 0xdc00 (0xdc00 + low) && leb (0xdc00 + low) 0xdfff) ≡ true = ground arith in
    let sum : 0x10000 + (0xd800 + high - 0xd800) * 1024 + (0xdc00 + low - 0xdc00)
        ≡ 0x10000 + high * 1024 + low =
      omega arith in
    rw (first, read_unit-digits (0xdc00 + low) rest (omega arith))
      (rw second (ap (λ k. some (k, rest)) sum))

-- A character that is read from some bytes: none of them closes the string.
abbrev Reads : ℕ → List ℕ → List ℕ → Type 0
Reads cp [] rest = ⊥
Reads cp (c ∷ cs) rest = ((c == 34) ≡ false) × (read_char c (cs ++ rest) ≡ some (cp, rest))

unit_escape-Reads :
    (cp : ℕ) (rest : List ℕ)
    → cp < 65536
    → (leb 0xd800 cp && leb cp 0xdbff) ≡ false
    → Reads cp (unit_escape cp) rest
unfolding unit_escape read_char read_escape
unit_escape-Reads cp rest small single =
    (refl, rw (read_unit-digits cp rest small) (read_pair-single cp rest single))

pair-Reads :
    (cp high low : ℕ) (rest : List ℕ)
    → high < 1024
    → low < 1024
    → 0x10000 + high * 1024 + low ≡ cp
    → Reads cp (unit_escape (0xd800 + high) ++ unit_escape (0xdc00 + low)) rest
unfolding unit_escape read_char read_escape
pair-Reads cp high low rest h l e =
    let both = read_pair-low high low rest h l in
    (
      refl,
      rw (read_unit-digits (0xd800 + high) (unit_escape (0xdc00 + low) ++ rest) (omega arith))
          (both ∙ ap (λ k. some (k, rest)) e),
    )

piece-Reads : (cp : ℕ) (rest : List ℕ) → IsScalar cp → Reads cp (piece cp) rest
unfolding ascii escape
piece-Reads cp rest (positive, range) = elim (Bool-cases (ltb cp 0x80)) [
  | inl short ↦ elim (Bool-cases (cp == 34 || cp == 92)) [
    | inl marked ↦ rw (short, marked) (refl, unfold read_char read_escape in rw marked refl)
    | inr plain ↦ elim (Bool-cases (ltb cp 32)) [
      | inl control ↦
          rw (short, plain, control) (unit_escape-Reads cp rest (ground arith) (ground arith))
      | inr printable ↦
          rw (short, plain, printable) (ground arith, unfold read_char in ground arith)
    ]
  ]
  | inr long ↦ elim (Bool-cases (leb cp 0xffff)) [
    | inl one ↦ rw (long, one) (unit_escape-Reads cp rest (ground arith) (ground arith))
    | inr two ↦
        rw (long, two)
          (pair-Reads cp ((cp - 0x10000) / 1024) ((cp - 0x10000) % 1024) rest (ground arith)
            (omega arith) (ground arith))
  ]
]

read_chars_step :
    (cp fuel : ℕ) (p rest : List ℕ) (cps : List ℕ)
    → Reads cp p rest
    → length (p ++ rest) ≤ fuel
    → ((f : ℕ) → length rest ≤ f → read_chars f rest ≡ some cps)
    → read_chars fuel (p ++ rest) ≡ some (cp ∷ cps)
unfolding read_chars
read_chars_step cp fuel [] rest cps reads enough next = absurd reads
read_chars_step cp zero (c ∷ cs) rest cps reads enough next = absurd (omega arith)
read_chars_step cp (suc fuel) (c ∷ cs) rest cps (no_quote, reads) enough next =
    rw (no_quote, reads) (rw (next fuel (omega (arith, length-append cs rest))) refl)

read_chars-pieces :
    (cps : List ℕ) (fuel : ℕ)
    → AllScalar cps
    → length (pieces cps) ≤ fuel
    → read_chars fuel (pieces cps) ≡ some cps
read_chars-pieces [] zero scalars enough = absurd (omega arith)
read_chars-pieces [] (suc fuel) scalars enough = unfold read_chars in refl
read_chars-pieces (cp ∷ cps) fuel (scalar, scalars) enough =
    read_chars_step cp fuel (piece cp) (pieces cps) cps (piece-Reads cp (pieces cps) scalar) enough
      (λ f le. read_chars-pieces cps f scalars le)

-- What `json_string` prints for the encoding of some code points, none of them a surrogate, 0 or
-- above 0x10ffff, is a JSON string, whose reader gives back these code points: quotes, backslashes,
-- control characters and the pairs of the higher planes included.
pub json_read-json_string :
    (cps : List ℕ)
    → AllScalar cps
    → (out : List ℕ) × (json_string (some (utf8_text cps)) ≡ some out) × (json_read out ≡ some cps)
unfolding json_string json_read
json_read-json_string cps scalars = (
  34 ∷ pieces cps,
  rw (json_chars-utf8_text cps (length (utf8_text cps)) scalars (omega arith)) refl,
  read_chars-pieces cps (length (pieces cps)) scalars (omega arith),
)
