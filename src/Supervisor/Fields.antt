-- ===== src/Supervisor/Fields.antt =====
-- The fields of a frame of experiment/ace-run.c, read back from its bytes.
use mathlib.Core.List.{append_assoc, append-nil}
use aceteam_bachelor_thesis.Prelude.{
  ℕ, zero, suc, ◌-◌, ◌^◌, ◌≡◌, ◌≢◌, ◌≤◌, ◌<◌, ◌↔◌, refl, sym, ap, true, false, List, [], ◌∷◌, ◌++◌,
  ◌==◌, arith, length, take, drop, length-append,
}
use aceteam_bachelor_thesis.Abi.Wire.{be_value, be_bytes}
use aceteam_bachelor_thesis.Abi.Wire.RoundTrip.{length-be_bytes, be_value-be_bytes}
use aceteam_bachelor_thesis.Supervisor.{
  Context, frame_magic, frame_version, zeros, padded, frame_bytes, field, has_zero, c_text,
  same_bytes, all_zero,
}

drop-append : (xs ys : List ℕ) → drop (length xs) (xs ++ ys) ≡ ys
drop-append [] ys = refl
drop-append (x ∷ xs) ys = drop-append xs ys

take-append : (xs ys : List ℕ) → take (length xs) (xs ++ ys) ≡ xs
take-append [] ys = refl
take-append (x ∷ xs) ys = ap (λ t. x ∷ t) (take-append xs ys)

-- The bytes between others.
field_of :
    (f pre v post : List ℕ) (off n : ℕ)
    → off ≡ length pre
    → n ≡ length v
    → f ≡ pre ++ (v ++ post)
    → field f off n ≡ v
field_of f pre v post off n e d split =
    rw (split, e, d, drop-append pre (v ++ post)) (take-append v post)

number_of :
    (f pre post : List ℕ) (off v : ℕ)
    → off ≡ length pre
    → v < 2 ^ 32
    → f ≡ pre ++ (be_bytes 4 v ++ post)
    → be_value f off 4 ≡ v
number_of f pre post off v e fits split = rw split (be_value-be_bytes 4 v off pre post e fits)

length-zeros : (n : ℕ) → length (zeros n) ≡ n
length-zeros zero = refl
length-zeros (suc n) = ap suc (length-zeros n)

pub all_zero-zeros : (n : ℕ) → all_zero (zeros n) ≡ true
all_zero-zeros zero = refl
all_zero-zeros (suc n) = all_zero-zeros n

-- A text without a 0 byte.
abbrev pub IsText : List ℕ → Type 0
IsText [] = Unit
IsText (c ∷ cs) = (c ≢ 0) × IsText cs

pub c_text-append : (text : List ℕ) (n : ℕ) → IsText text → c_text (text ++ zeros n) ≡ text
c_text-append [] zero t = refl
c_text-append [] (suc n) t = refl
c_text-append (c ∷ cs) n (nonzero, t) =
    let other : (c == 0) ≡ false = ground arith in rw other (ap (λ x. c ∷ x) (c_text-append cs n t))

pub has_zero-append : (text : List ℕ) (n : ℕ) → has_zero (text ++ zeros (suc n)) ≡ true
has_zero-append [] n = refl
has_zero-append (c ∷ cs) n = rw (has_zero-append cs n) (ground arith)

length-padded : (n : ℕ) (text : List ℕ) → length text ≤ n → length (padded n text) ≡ n
length-padded n text fits =
    omega (arith, length-append text (zeros (n - length text)), length-zeros (n - length text))

pub same_bytes_iff : (xs ys : List ℕ) → (same_bytes xs ys ≡ true) ↔ (xs ≡ ys)
same_bytes_iff [] [] = (λ h. refl, λ h. refl)
same_bytes_iff [] (y ∷ ys) = (λ h. absurd (cc), λ h. absurd (cc))
same_bytes_iff (x ∷ xs) [] = (λ h. absurd (cc), λ h. absurd (cc))
same_bytes_iff (x ∷ xs) (y ∷ ys) =
    let (to, from) = same_bytes_iff xs ys in (λ h. ground (arith, to), λ h. ground (arith, from))

-- What a supervisor's context is: a number, a nonce of 16 bytes, and texts that fit their fields.
pub record IsContext (x : Context) : Type 0 where
  pub index_fits : x.index < 2 ^ 32
  pub nonce_fits : length x.nonce ≡ 16
  pub digest_text : IsText x.digest
  pub digest_fits : length x.digest < 65
  pub run_id_text : IsText x.run_id
  pub run_id_fits : length x.run_id < 128

-- The fields of a frame that a supervisor has sent.
module _ (x : Context) (type : ℕ) (valid : IsContext x) (type_fits : type < 2 ^ 32) where
  abbrev frame : List ℕ
  frame = frame_bytes x type

  pub magic_read : be_value frame 0 4 ≡ frame_magic
  unfolding frame_bytes
  magic_read = number_of frame ([]) _ 0 frame_magic refl (omega arith) refl

  pub version_read : be_value frame 4 4 ≡ frame_version
  unfolding frame_bytes
  version_read =
      number_of frame (be_bytes 4 frame_magic) _ 4 frame_version (simp length-be_bytes)
        (omega arith) refl

  pub type_read : be_value frame 8 4 ≡ type
  unfolding frame_bytes
  type_read =
      number_of frame (be_bytes 4 frame_magic ++ be_bytes 4 frame_version)
        (be_bytes 4 x.index
          ++ (x.nonce ++ (padded 65 x.digest ++ (padded 128 x.run_id ++ zeros 31))))
        8 type (simp (length-append, length-be_bytes)) type_fits (simp append_assoc)

  pub index_read : be_value frame 12 4 ≡ x.index
  unfolding frame_bytes
  index_read =
      number_of frame (be_bytes 4 frame_magic ++ (be_bytes 4 frame_version ++ be_bytes 4 type))
        (x.nonce ++ (padded 65 x.digest ++ (padded 128 x.run_id ++ zeros 31))) 12 x.index
        (simp (length-append, length-be_bytes)) valid.index_fits (simp append_assoc)

  -- The four numbers at the front.
  abbrev front : List ℕ
  front =
      be_bytes 4 frame_magic
      ++ (be_bytes 4 frame_version ++ (be_bytes 4 type ++ be_bytes 4 x.index))

  length-front : 16 ≡ length front
  length-front = simp (length-append, length-be_bytes)

  pub nonce_read : field frame 16 16 ≡ x.nonce
  unfolding frame_bytes
  nonce_read =
      field_of frame front x.nonce (padded 65 x.digest ++ (padded 128 x.run_id ++ zeros 31)) 16 16
        length-front (sym valid.nonce_fits) (simp append_assoc)

  pub digest_read : field frame 32 65 ≡ padded 65 x.digest
  unfolding frame_bytes
  digest_read =
      field_of frame (front ++ x.nonce) (padded 65 x.digest) (padded 128 x.run_id ++ zeros 31) 32 65
        (omega (arith, length-append front x.nonce, length-front, valid.nonce_fits))
        (sym (length-padded 65 x.digest (omega (arith, valid.digest_fits)))) (simp append_assoc)

  pub run_id_read : field frame 97 128 ≡ padded 128 x.run_id
  unfolding frame_bytes
  run_id_read =
      field_of frame (front ++ (x.nonce ++ padded 65 x.digest)) (padded 128 x.run_id) (zeros 31) 97
        128
        (omega (
          arith,
          length-append front (x.nonce ++ padded 65 x.digest),
          length-append x.nonce (padded 65 x.digest),
          length-padded 65 x.digest (omega (arith, valid.digest_fits)),
          length-front,
          valid.nonce_fits,
        ))
        (sym (length-padded 128 x.run_id (omega (arith, valid.run_id_fits)))) (simp append_assoc)

  pub reserved_read : field frame 225 31 ≡ zeros 31
  unfolding frame_bytes
  reserved_read =
      field_of frame (front ++ (x.nonce ++ (padded 65 x.digest ++ padded 128 x.run_id))) (zeros 31)
        ([]) 225 31
        (omega (
          arith,
          length-append front (x.nonce ++ (padded 65 x.digest ++ padded 128 x.run_id)),
          length-append x.nonce (padded 65 x.digest ++ padded 128 x.run_id),
          length-append (padded 65 x.digest) (padded 128 x.run_id),
          length-padded 65 x.digest (omega (arith, valid.digest_fits)),
          length-padded 128 x.run_id (omega (arith, valid.run_id_fits)),
          length-front,
          valid.nonce_fits,
        ))
        refl (simp (append_assoc, append-nil))
