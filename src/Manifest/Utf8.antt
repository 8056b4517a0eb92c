-- ===== src/Manifest/Utf8.antt =====
-- What `json_string` of experiment/ace_manifest.c prints is read back by a JSON reader, and it
-- accepts exactly the texts of UTF-8 (RFC 3629, RFC 8259).
pub mod Accepts
pub mod Read
use mathlib.Core.List.{append_assoc}
use aceteam_bachelor_thesis.Prelude.{
  ℕ, zero, suc, ◌+◌, ◌-◌, ◌*◌, ◌/◌, ◌%◌, ◌≡◌, ◌≢◌, ◌≤◌, ◌<◌, ◌⊎◌, inl, inr, refl, sym, ap, ◌∙◌,
  Bool, true, false, Bool-cases, not, ◌&&◌, ◌||◌, Option, none, some, Option-cases, List, [], ◌∷◌,
  ◌++◌, ltb, leb, ◌==◌, arith, if◌then◌else◌, ◌>>=◌, length, length-append,
}
use aceteam_bachelor_thesis.Manifest.{
  unit_escape, ascii, lead, continue, is_malformed, escape, next_char, json_chars, json_string,
}

-- A code point that stands for a character of a C text: no surrogate, and not 0.
abbrev pub IsScalar : ℕ → Type 0
IsScalar cp = (cp ≢ 0) × ((cp < 0xd800) ⊎ ((0xdfff < cp) × (cp < 0x110000)))

-- The bytes of a code point.
abbrev pub utf8 : ℕ → List ℕ
utf8 cp =
    if ltb cp 0x80
    then cp ∷ []
    else if ltb cp 0x800
    then (0xc0 + cp / 64) ∷ (0x80 + cp % 64) ∷ []
    else if ltb cp 0x10000
    then (0xe0 + cp / 4096) ∷ (0x80 + cp / 64 % 64) ∷ (0x80 + cp % 64) ∷ []
    else (0xf0 + cp / 262144)
      ∷ (0x80 + cp / 4096 % 64)
      ∷ (0x80 + cp / 64 % 64)
      ∷ (0x80 + cp % 64)
      ∷ []

abbrev pub utf8_text : List ℕ → List ℕ
utf8_text [] = []
utf8_text (cp ∷ cps) = utf8 cp ++ utf8_text cps

abbrev pub AllScalar : List ℕ → Type 0
AllScalar [] = Unit
AllScalar (cp ∷ cps) = IsScalar cp × AllScalar cps

-- What is printed for a code point.
abbrev pub piece : ℕ → List ℕ
piece cp = if ltb cp 0x80 then ascii cp else escape cp

abbrev pub pieces : List ℕ → List ℕ
pieces [] = 34 ∷ []
pieces (cp ∷ cps) = piece cp ++ pieces cps

-- A turn at the first byte of a character takes the character, and prints its piece.
abbrev Takes : ℕ → List ℕ → List ℕ → Type 0
Takes cp [] rest = ⊥
Takes cp (c ∷ cs) rest = next_char c (cs ++ rest) ≡ some (piece cp, rest)

next_char_long :
    (c : ℕ) (cs rest : List ℕ) (bits continuation cp : ℕ)
    → ltb c 0x80 ≡ false
    → lead c ≡ some (bits, continuation)
    → continue continuation bits cs ≡ some (cp, rest)
    → is_malformed continuation cp ≡ false
    → next_char c cs ≡ some (escape cp, rest)
unfolding next_char
next_char_long c cs rest bits continuation cp long first behind fine =
    rw (long, first) (rw behind (rw fine refl))

continue_step :
    (n bits x : ℕ) (cs : List ℕ)
    → continue (suc n) bits ((0x80 + x % 64) ∷ cs) ≡ continue n (bits * 64 + x % 64) cs
unfolding continue
continue_step n bits x cs =
    let marked : ((0x80 + x % 64) / 64 == 2) ≡ true = ground arith in
    let low : (0x80 + x % 64) % 64 ≡ x % 64 = omega arith in rw (marked, low) refl

-- The last of the bytes gives the code point.
continue_end :
    (bits cp high : ℕ) (rest : List ℕ)
    → bits * 64 + high % 64 ≡ cp
    → continue 1 bits ((0x80 + high % 64) ∷ rest) ≡ some (cp, rest)
unfolding continue
continue_end bits cp high rest e = continue_step 0 bits high rest ∙ ap (λ k. some (k, rest)) e

module _ (cp : ℕ) (rest : List ℕ) (scalar : IsScalar cp) where
  Takes_two :
      0x80 ≤ cp
      → cp < 0x800
      → next_char (0xc0 + cp / 64) ((0x80 + cp % 64) ∷ rest) ≡ some (escape cp, rest)
  Takes_two low high =
      next_char_long _ _ rest (cp / 64) 1 cp (ground arith) (unfold lead in ground arith)
        (continue_end (cp / 64) cp cp rest (omega arith)) (unfold is_malformed in ground arith)

  Takes_three :
      0x800 ≤ cp
      → cp < 0x10000
      → next_char (0xe0 + cp / 4096) ((0x80 + cp / 64 % 64) ∷ (0x80 + cp % 64) ∷ rest)
        ≡ some (escape cp, rest)
  Takes_three low high =
      next_char_long _ _ rest (cp / 4096) 2 cp (ground arith) (unfold lead in ground arith)
        (continue_step 1 (cp / 4096) (cp / 64) ((0x80 + cp % 64) ∷ rest)
          ∙ continue_end (cp / 4096 * 64 + cp / 64 % 64) cp cp rest (omega arith))
        (unfold is_malformed in ground arith)

  Takes_four :
      0x10000 ≤ cp
      → cp < 0x110000
      → next_char
          (0xf0 + cp / 262144)
          ((0x80 + cp / 4096 % 64) ∷ (0x80 + cp / 64 % 64) ∷ (0x80 + cp % 64) ∷ rest)
        ≡ some (escape cp, rest)
  Takes_four low high =
      next_char_long _ _ rest (cp / 262144) 3 cp (ground arith) (unfold lead in ground arith)
        (continue_step 2 (cp / 262144) (cp / 4096) ((0x80 + cp / 64 % 64) ∷ (0x80 + cp % 64) ∷ rest)
          ∙ continue_step 1 (cp / 262144 * 64 + cp / 4096 % 64) (cp / 64) ((0x80 + cp % 64) ∷ rest)
          ∙ continue_end ((cp / 262144 * 64 + cp / 4096 % 64) * 64 + cp / 64 % 64) cp cp rest
              (omega arith))
        (unfold is_malformed in ground arith)

  utf8-Takes : Takes cp (utf8 cp) rest
  unfolding next_char
  utf8-Takes = elim (Bool-cases (ltb cp 0x80)) [
    | inl one ↦ rw (one, one) refl
    | inr more ↦
        let shown : escape cp ≡ piece cp = rw more refl in
        let as_piece : ◌≡◌ {A = Option (List ℕ × List ℕ)} (some (escape cp, rest))
            (some (piece cp, rest)) =
          ap (λ t. some (t, rest)) shown in
        elim (Bool-cases (ltb cp 0x800)) [
          | inl two ↦ rw (more, two) (Takes_two (ground arith) (ground arith) ∙ as_piece)
          | inr longer ↦ elim (Bool-cases (ltb cp 0x10000)) [
            | inl three ↦
                rw (more, longer, three) (Takes_three (ground arith) (ground arith) ∙ as_piece)
            | inr four ↦
                rw (more, longer, four) (Takes_four (ground arith) (ground arith) ∙ as_piece)
          ]
        ]
  ]

json_chars_step :
    (cp fuel : ℕ) (u rest more : List ℕ)
    → Takes cp u rest
    → length (u ++ rest) ≤ fuel
    → ((f : ℕ) → length rest ≤ f → json_chars f rest ≡ some more)
    → json_chars fuel (u ++ rest) ≡ some (piece cp ++ more)
unfolding json_chars
json_chars_step cp fuel [] rest more takes enough next = absurd takes
json_chars_step cp zero (c ∷ cs) rest more takes enough next = absurd (omega arith)
json_chars_step cp (suc fuel) (c ∷ cs) rest more takes enough next =
    rw takes (rw (next fuel (omega (arith, length-append cs rest))) refl)

pub json_chars-utf8_text :
    (cps : List ℕ) (fuel : ℕ)
    → AllScalar cps
    → length (utf8_text cps) ≤ fuel
    → json_chars fuel (utf8_text cps) ≡ some (pieces cps)
json_chars-utf8_text [] fuel scalars enough = unfold json_chars in refl
json_chars-utf8_text (cp ∷ cps) fuel (scalar, scalars) enough =
    json_chars_step cp fuel (utf8 cp) (utf8_text cps) (pieces cps)
      (utf8-Takes cp (utf8_text cps) scalar) enough (λ f le. json_chars-utf8_text cps f scalars le)

-- The bytes of a C text.
abbrev pub IsText : List ℕ → Type 0
IsText [] = Unit
IsText (c ∷ cs) = (c ≢ 0) × (c < 256) × IsText cs

-- A turn that succeeds has met a character.
abbrev Met : ℕ → List ℕ → List ℕ → List ℕ → Type 0
Met c cs out rest =
    (cp : ℕ) × IsScalar cp × (c ∷ cs ≡ utf8 cp ++ rest) × (out ≡ piece cp) × IsText rest

pub utf8_two :
    (c b cp : ℕ)
    → 0xc2 ≤ c
    → c ≤ 0xdf
    → b / 64 ≡ 2
    → cp ≡ c % 32 * 64 + b % 64
    → (utf8 cp ≡ c ∷ b ∷ []) × IsScalar cp × (ltb cp 0x80 ≡ false)
utf8_two c b cp low high mark e = (ground arith, ground arith, ground arith)

pub utf8_three :
    (c b b' cp : ℕ)
    → 0xe0 ≤ c
    → c ≤ 0xef
    → b / 64 ≡ 2
    → b' / 64 ≡ 2
    → cp ≡ (c % 16 * 64 + b % 64) * 64 + b' % 64
    → 0x800 ≤ cp
    → (cp < 0xd800) ⊎ (0xdfff < cp)
    → (utf8 cp ≡ c ∷ b ∷ b' ∷ []) × IsScalar cp × (ltb cp 0x80 ≡ false)
utf8_three c b b' cp low high mark mark' e big range = (ground arith, ground arith, ground arith)

pub utf8_four :
    (c b b' b'' cp : ℕ)
    → 0xf0 ≤ c
    → c ≤ 0xf4
    → b / 64 ≡ 2
    → b' / 64 ≡ 2
    → b'' / 64 ≡ 2
    → cp ≡ ((c % 8 * 64 + b % 64) * 64 + b' % 64) * 64 + b'' % 64
    → 0x10000 ≤ cp
    → cp ≤ 0x10ffff
    → (utf8 cp ≡ c ∷ b ∷ b' ∷ b'' ∷ []) × IsScalar cp × (ltb cp 0x80 ≡ false)
utf8_four c b b' b'' cp low high m m' m'' e big range = (ground arith, ground arith, ground arith)
