-- ===== src/Supervisor.antt =====
-- experiment/ace-run.c: the frames by which the two supervisors of a run keep in step (`message`,
-- without the transfer of the 256 bytes). A text is its bytes, without the closing 0.
pub mod Fields
pub mod Waiting
pub mod Adopted
pub mod Children
pub mod Phases
use aceteam_bachelor_thesis.Prelude.{
  ℕ, zero, suc, ◌+◌, ◌-◌, Bool, true, false, not, ◌&&◌, ◌||◌, List, [], ◌∷◌, ◌++◌, ◌==◌,
  if◌then◌else◌, length, take, drop,
}
use aceteam_bachelor_thesis.Abi.Wire.{be_value, be_bytes}

-- What `struct context` keeps of a run for its frames.
pub record Context : Type 0 where
  pub index : ℕ
  pub nonce : List ℕ
  pub digest : List ℕ
  pub run_id : List ℕ
  pub receiver : Bool

abbrev pub hello : ℕ
hello = 1

abbrev pub frame_magic : ℕ
frame_magic = 0x41434552

abbrev pub frame_version : ℕ
frame_version = 1

abbrev pub zeros : ℕ → List ℕ
zeros zero = []
zeros (suc n) = 0 ∷ zeros n

-- strcpy into a field of `n` zero bytes.
abbrev pub padded : ℕ → List ℕ → List ℕ
padded n text = text ++ zeros (n - length text)

-- The frame that is sent: `struct frame` in network order.
unfoldable pub frame_bytes : Context → ℕ → List ℕ
frame_bytes x type =
    be_bytes 4 frame_magic
    ++ (be_bytes 4 frame_version
        ++ (be_bytes 4 type
            ++ (be_bytes 4 x.index
                ++ (x.nonce ++ (padded 65 x.digest ++ (padded 128 x.run_id ++ zeros 31))))))

abbrev pub field : List ℕ → ℕ → ℕ → List ℕ
field f off n = take n (drop off f)

-- memchr(field, 0, size).
abbrev pub has_zero : List ℕ → Bool
has_zero [] = false
has_zero (c ∷ cs) = c == 0 || has_zero cs

-- The text in a field.
abbrev pub c_text : List ℕ → List ℕ
c_text [] = []
c_text (c ∷ cs) = if c == 0 then [] else c ∷ c_text cs

-- strcmp and memcmp, as a test for equality.
abbrev pub same_bytes : List ℕ → List ℕ → Bool
same_bytes [] [] = true
same_bytes [] (y ∷ ys) = false
same_bytes (x ∷ xs) [] = false
same_bytes (x ∷ xs) (y ∷ ys) = x == y && same_bytes xs ys

abbrev pub all_zero : List ℕ → Bool
all_zero [] = true
all_zero (c ∷ cs) = c == 0 && all_zero cs

-- Whose frame it is: the magic, the version, the position in the suite and the two texts.
unfoldable pub is_of_run : Context → List ℕ → Bool
is_of_run x f =
    be_value f 0 4 == frame_magic
    && be_value f 4 4 == frame_version
    && be_value f 12 4 == x.index
    && has_zero (field f 32 65)
    && has_zero (field f 97 128)
    && same_bytes (c_text (field f 32 65)) x.digest
    && same_bytes (c_text (field f 97 128)) x.run_id

-- The sender's side takes the nonce of the first frame over.
unfoldable pub take_nonce : Context → ℕ → List ℕ → Context
take_nonce x type f =
    if type == hello && not x.receiver then record x { nonce = field f 16 16 } else x

-- The nonce matters in every frame but the first.
unfoldable pub is_of_session : Context → ℕ → List ℕ → Bool
is_of_session x type f = if type == hello then true else same_bytes (field f 16 16) x.nonce

-- A frame that has come, for the phase `type`: the context behind it, and whether it is accepted.
unfoldable pub receive_frame : Context → ℕ → List ℕ → Context × Bool
receive_frame x type f =
    if not (is_of_run x f) || not (all_zero (field f 225 31))
    then (x, false)
    else if not (is_of_session x type f)
    then (x, false)
    else (take_nonce x type f, be_value f 8 4 == type)
