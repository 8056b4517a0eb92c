-- ===== src/Process.antt =====
-- `ace_process_start_ticks` of include/ace_process.h: field 22 of /proc/PID/stat. A text is its
-- bytes up to the first 0. strtoull is a parameter: the number with the text behind it, or
-- `none` when it sets errno.
pub mod Fields
use aceteam_bachelor_thesis.Prelude.{
  ℕ, zero, suc, ◌+◌, Bool, true, false, not, ◌&&◌, ◌||◌, Option, none, some, List, [], ◌∷◌, ◌++◌,
  leb, ◌==◌, if◌then◌else◌, ◌>>=◌, length,
}

-- What open, read and close give: an error number, or the bytes in the buffer of 4096.
pub data StatFile : Type 0 where
  unreadable : ℕ → StatFile
  contents : List ℕ → StatFile

-- 0 with the start, or the error number.
pub data StartTicks : Type 0 where
  ticks : ℕ → StartTicks
  failed : ℕ → StartTicks

abbrev pub einval : ℕ
einval = 22

abbrev pub eoverflow : ℕ
eoverflow = 75

-- The string in a buffer: `ticks_of` writes a 0 behind the bytes read.
unfoldable pub string_in : List ℕ → List ℕ
string_in [] = []
string_in (x ∷ xs) = if x == 0 then [] else x ∷ string_in xs

abbrev pub last_of : Option (List ℕ) → ℕ → List ℕ → Option (List ℕ)
last_of (some behind) x xs = some behind
last_of none x xs = if x == 41 then some xs else none

-- The text behind the last closing parenthesis.
unfoldable pub behind_comm : List ℕ → Option (List ℕ)
behind_comm [] = none
behind_comm (x ∷ xs) = last_of (behind_comm xs) x xs

unfoldable pub skip_spaces : List ℕ → List ℕ
skip_spaces [] = []
skip_spaces (x ∷ xs) = if x == 32 then skip_spaces xs else x ∷ xs

-- The text from the end of a field on: a space or a line feed.
unfoldable pub field_end : List ℕ → List ℕ
field_end [] = []
field_end (x ∷ xs) = if x == 32 || x == 10 then x ∷ xs else field_end xs

abbrev pub non_empty : List ℕ → Option (List ℕ)
non_empty [] = none
non_empty (x ∷ xs) = some (x ∷ xs)

-- The turns of the loop that pass a field each.
unfoldable pub pass_fields : ℕ → List ℕ → Option (List ℕ)
pass_fields zero text = some text
pass_fields (suc n) text = do
  cursor ← non_empty (skip_spaces text)
  pass_fields n (field_end cursor)

module _ (strtoull : List ℕ → Option (ℕ × List ℕ)) where
  -- The turn for field 22: the number has to reach the end of the field.
  unfoldable pub start_field : List ℕ → Option ℕ
  start_field text = do
    cursor ← non_empty (skip_spaces text)
    (parsed, parsed_end) ← strtoull cursor
    if length parsed_end == length (field_end cursor) then some parsed else none

  -- The fields from 3 on, 19 of which come before field 22.
  unfoldable pub parse_stat : List ℕ → Option ℕ
  parse_stat text = do behind ← behind_comm text; cursor ← pass_fields 19 behind; start_field cursor

  abbrev pub as_ticks : Option ℕ → StartTicks
  as_ticks none = failed einval
  as_ticks (some n) = ticks n

  abbrev pub ticks_of : StatFile → StartTicks
  ticks_of (unreadable e) = failed e
  ticks_of (contents text) =
      if length text == 0 || length text == 4095
      then failed eoverflow
      else as_ticks (parse_stat (string_in text))

  -- `positive` tells whether the PID is above 0.
  unfoldable pub ace_process_start_ticks : Bool → StatFile → StartTicks
  ace_process_start_ticks positive file = if positive then ticks_of file else failed einval
