-- ===== src/Process/Fields.antt =====
-- `ace_process_start_ticks` of include/ace_process.h finds field 22 whatever the command's name is.
use aceteam_bachelor_thesis.Prelude.{
  ℕ, Bool, not, ◌&&◌, suc, ◌≡◌, ◌≢◌, ◌<◌, ◌⊎◌, inl, refl, sym, ap, ◌∙◌, true, false, ◌||◌, Option,
  none, some, List, [], ◌∷◌, ◌++◌, ◌==◌, arith, length,
}
use aceteam_bachelor_thesis.Process.{
  contents, ticks, string_in, behind_comm, skip_spaces, field_end, non_empty, pass_fields,
  start_field, parse_stat, ace_process_start_ticks,
}

-- A field: bytes other than a space, a line feed and a closing parenthesis.
abbrev pub IsWord : List ℕ → Type 0
IsWord [] = Unit
IsWord (x ∷ xs) = (x ≢ 32) × (x ≢ 10) × (x ≢ 41) × IsWord xs

abbrev pub AllWords : List (List ℕ) → Type 0
AllWords [] = Unit
AllWords (w ∷ ws) = (w ≢ []) × IsWord w × AllWords ws

-- The fields, each with a space before it.
abbrev pub spaced : List (List ℕ) → List ℕ → List ℕ
spaced [] rest = rest
spaced (w ∷ ws) rest = 32 ∷ (w ++ spaced ws rest)

-- Where a field can end.
abbrev pub IsEnd : List ℕ → Type 0
IsEnd [] = Unit
IsEnd (x ∷ xs) = (x ≡ 32) ⊎ (x ≡ 10)

abbrev pub NoParenthesis : List ℕ → Type 0
NoParenthesis [] = Unit
NoParenthesis (x ∷ xs) = (x ≢ 41) × NoParenthesis xs

abbrev pub non_zero : List ℕ → Bool
non_zero [] = true
non_zero (x ∷ xs) = not (x == 0) && non_zero xs

string_in-non_zero : (xs : List ℕ) → non_zero xs ≡ true → string_in xs ≡ xs
unfolding string_in
string_in-non_zero [] h = refl
string_in-non_zero (x ∷ xs) h =
    let inside : (x == 0) ≡ false = ground arith in
    let others : non_zero xs ≡ true = ground arith in
    rw inside (ap (λ ys. x ∷ ys) (string_in-non_zero xs others))

behind_comm-none : (xs : List ℕ) → NoParenthesis xs → behind_comm xs ≡ none
unfolding behind_comm
behind_comm-none [] h = refl
behind_comm-none (x ∷ xs) (other, h) =
    let differs : (x == 41) ≡ false = ground arith in rw (behind_comm-none xs h) (rw differs refl)

behind_comm-append : (xs ys : List ℕ) → NoParenthesis ys → behind_comm (xs ++ 41 ∷ ys) ≡ some ys
unfolding behind_comm
behind_comm-append [] ys h = rw (behind_comm-none ys h) refl
behind_comm-append (x ∷ xs) ys h = rw (behind_comm-append xs ys h) refl

field_end-append : (w rest : List ℕ) → IsWord w → IsEnd rest → field_end (w ++ rest) ≡ rest
unfolding field_end
field_end-append [] [] h end = refl
field_end-append [] (x ∷ xs) h end =
    let closing : (x == 32 || x == 10) ≡ true = ground arith in rw closing refl
field_end-append (x ∷ w) rest (a, b, c, h) end =
    let inside : (x == 32 || x == 10) ≡ false = ground arith in
    rw inside (field_end-append w rest h end)

-- The start of a field behind its space.
skip_spaces-word :
    (w rest : List ℕ)
    → w ≢ []
    → IsWord w
    → non_empty (skip_spaces (32 ∷ (w ++ rest))) ≡ some (w ++ rest)
unfolding skip_spaces
skip_spaces-word [] rest some_there h = absurd (some_there refl)
skip_spaces-word (x ∷ w) rest some_there (a, b, c, h) =
    let word : (x == 32) ≡ false = ground arith in rw word refl

spaced-IsEnd : (ws : List (List ℕ)) (rest : List ℕ) → IsEnd rest → IsEnd (spaced ws rest)
spaced-IsEnd [] rest end = end
spaced-IsEnd (w ∷ ws) rest end = inl refl

abbrev pub count : List (List ℕ) → ℕ
count [] = 0
count (w ∷ ws) = suc (count ws)

append-NoParenthesis : (w rest : List ℕ) → IsWord w → NoParenthesis rest → NoParenthesis (w ++ rest)
append-NoParenthesis [] rest h none_in = none_in
append-NoParenthesis (x ∷ w) rest (a, b, c, h) none_in = (c, append-NoParenthesis w rest h none_in)

spaced-NoParenthesis :
    (ws : List (List ℕ)) (rest : List ℕ)
    → AllWords ws
    → NoParenthesis rest
    → NoParenthesis (spaced ws rest)
spaced-NoParenthesis [] rest h none_in = none_in
spaced-NoParenthesis (w ∷ ws) rest (there, word, h) none_in = (
  ground arith,
  append-NoParenthesis w (spaced ws rest) word (spaced-NoParenthesis ws rest h none_in),
)

pass_fields-spaced :
    (ws : List (List ℕ)) (rest : List ℕ)
    → AllWords ws
    → IsEnd rest
    → pass_fields (count ws) (spaced ws rest) ≡ some rest
unfolding pass_fields
pass_fields-spaced [] rest h end = refl
pass_fields-spaced (w ∷ ws) rest (there, word, h) end =
    rw (skip_spaces-word w (spaced ws rest) there word) (
      rw (field_end-append w (spaced ws rest) word (spaced-IsEnd ws rest end))
        (pass_fields-spaced ws rest h end))

module _ (strtoull : List ℕ → Option (ℕ × List ℕ)) (digits rest : List ℕ) (n : ℕ)
    (there : digits ≢ []) (word : IsWord digits) (end : IsEnd rest)
    (number : strtoull (digits ++ rest) ≡ some (n, rest)) where
  start_field-digits : start_field strtoull (32 ∷ (digits ++ rest)) ≡ some n
  unfolding start_field
  start_field-digits =
      let same : (length rest == length rest) ≡ true = ground arith in
      rw (skip_spaces-word digits rest there word)
        (rw number (rw (field_end-append digits rest word end) (rw same refl)))

  parse_stat-spaced :
      (name : List ℕ) (ws : List (List ℕ))
      → count ws ≡ 19
      → AllWords ws
      → NoParenthesis rest
      → parse_stat strtoull (name ++ 41 ∷ spaced ws (32 ∷ (digits ++ rest))) ≡ some n
  unfolding parse_stat
  parse_stat-spaced name ws nineteen h none_in =
      let behind = spaced ws (32 ∷ (digits ++ rest)) in
      let none_behind : NoParenthesis behind =
        spaced-NoParenthesis ws (32 ∷ (digits ++ rest)) h
          (ground arith, append-NoParenthesis digits rest word none_in) in
      let passed : pass_fields 19 behind ≡ some (32 ∷ (digits ++ rest)) =
        ap (λ k. pass_fields k behind) (sym nineteen)
        ∙ pass_fields-spaced ws (32 ∷ (digits ++ rest)) h (inl refl) in
      rw (behind_comm-append name behind none_behind) (rw passed start_field-digits)

  -- The start time is field 22. Say the PID is above 0 and the text, of 1 to 4094 bytes other than
  -- 0, is any bytes, a closing parenthesis, 19 fields with a space before each, a space, a field
  -- that strtoull reads as n up to its end, and a rest. A field is one or more bytes other than a
  -- space, a line feed and a closing parenthesis; the rest is empty or starts with a space or a
  -- line feed, and has no closing parenthesis. Then the function succeeds with n.
  pub ace_process_start_ticks-spaced :
      (name : List ℕ) (ws : List (List ℕ))
      → count ws ≡ 19
      → AllWords ws
      → NoParenthesis rest
      → 0 < length (name ++ 41 ∷ spaced ws (32 ∷ (digits ++ rest)))
      → length (name ++ 41 ∷ spaced ws (32 ∷ (digits ++ rest))) < 4095
      → non_zero (name ++ 41 ∷ spaced ws (32 ∷ (digits ++ rest))) ≡ true
      → ace_process_start_ticks strtoull true
          (contents (name ++ 41 ∷ spaced ws (32 ∷ (digits ++ rest))))
        ≡ ticks n
  unfolding ace_process_start_ticks
  ace_process_start_ticks-spaced name ws nineteen h none_in above below string =
      let text = name ++ 41 ∷ spaced ws (32 ∷ (digits ++ rest)) in
      let fits : (length text == 0 || length text == 4095) ≡ false = ground arith in
      rw fits (
        rw (string_in-non_zero text string)
          (rw (parse_stat-spaced name ws nineteen h none_in) refl))
