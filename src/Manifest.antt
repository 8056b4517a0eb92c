-- ===== src/Manifest.antt =====
-- `json_string` of experiment/ace_manifest.c: UTF-8 to a JSON string of ASCII bytes. A text is its
-- bytes, without the closing 0. The result is what is printed; `none` is -1 for a text that is not
-- UTF-8. A write to the stream that fails is left out.
pub mod Utf8
use aceteam_bachelor_thesis.Prelude.{
  ℕ, zero, suc, ◌+◌, ◌-◌, ◌*◌, ◌/◌, ◌%◌, Bool, true, false, not, ◌&&◌, ◌||◌, Option, none, some,
  List, [], ◌∷◌, ◌++◌, ltb, leb, ◌==◌, if◌then◌else◌, ◌>>=◌, length,
}

-- A digit of `%04x`.
abbrev pub hex_digit : ℕ → ℕ
hex_digit d = if ltb d 10 then 48 + d else 87 + d

-- `\u%04x` of a number of 16 bits.
unfoldable pub unit_escape : ℕ → List ℕ
unit_escape n =
    92
    ∷ 117
    ∷ hex_digit (n / 4096 % 16)
    ∷ hex_digit (n / 256 % 16)
    ∷ hex_digit (n / 16 % 16)
    ∷ hex_digit (n % 16)
    ∷ []

unfoldable pub ascii : ℕ → List ℕ
ascii c = if c == 34 || c == 92 then 92 ∷ c ∷ [] else if ltb c 32 then unit_escape c else c ∷ []

-- The first byte of a longer character: its bits, and how many bytes follow.
unfoldable pub lead : ℕ → Option (ℕ × ℕ)
lead c =
    if leb 0xc2 c && leb c 0xdf
    then some (c % 32, 1)
    else if leb 0xe0 c && leb c 0xef
    then some (c % 16, 2)
    else if leb 0xf0 c && leb c 0xf4
    then some (c % 8, 3)
    else none

unfoldable pub continue : ℕ → ℕ → List ℕ → Option (ℕ × List ℕ)
continue zero cp text = some (cp, text)
continue (suc n) cp [] = none
continue (suc n) cp (b ∷ bs) = if b / 64 == 2 then continue n (cp * 64 + b % 64) bs else none

unfoldable pub is_malformed : ℕ → ℕ → Bool
is_malformed continuation cp =
    (continuation == 1 && ltb cp 0x80)
    || (continuation == 2 && ltb cp 0x800)
    || (continuation == 3 && ltb cp 0x10000)
    || ltb 0x10ffff cp
    || (leb 0xd800 cp && leb cp 0xdfff)

unfoldable pub escape : ℕ → List ℕ
escape cp =
    if leb cp 0xffff
    then unit_escape cp
    else unit_escape (0xd800 + (cp - 0x10000) / 1024)
      ++ unit_escape (0xdc00 + (cp - 0x10000) % 1024)

-- A turn of the loop: what it prints, and the text that is left.
unfoldable pub next_char : ℕ → List ℕ → Option (List ℕ × List ℕ)
next_char c cs = if ltb c 0x80 then some (ascii c, cs) else do
  (bits, continuation) ← lead c
  (cp, rest) ← continue continuation bits cs
  if is_malformed continuation cp then none else some (escape cp, rest)

-- The loop, on fuel, and the closing quote.
unfoldable pub json_chars : ℕ → List ℕ → Option (List ℕ)
json_chars fuel [] = some (34 ∷ [])
json_chars zero (c ∷ cs) = none
json_chars (suc fuel) (c ∷ cs) = do
  (piece, rest) ← next_char c cs
  out ← json_chars fuel rest
  some (piece ++ out)

-- With no text it prints null. A turn takes a byte at least, so the length is fuel enough.
unfoldable pub json_string : Option (List ℕ) → Option (List ℕ)
json_string none = some (110 ∷ 117 ∷ 108 ∷ 108 ∷ [])
json_string (some text) = do out ← json_chars (length text) text; some (34 ∷ out)
