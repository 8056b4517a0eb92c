-- ===== src/Manifest/Utf8/Accepts.antt =====
-- The texts that `json_string` of experiment/ace_manifest.c accepts are those of UTF-8.
use aceteam_bachelor_thesis.Prelude.{
  ℕ, zero, suc, ◌+◌, ◌*◌, ◌/◌, ◌%◌, ◌≡◌, ◌≤◌, ◌↔◌, inl, inr, refl, sym, ap, subst, ◌∙◌, true, false,
  Bool-cases, Option, none, some, Option-cases, List, [], ◌∷◌, ◌++◌, ltb, ◌==◌, arith, length,
}
use aceteam_bachelor_thesis.Manifest.{
  ascii, lead, continue, is_malformed, escape, next_char, json_chars, json_string,
}
use aceteam_bachelor_thesis.Manifest.Utf8.{
  IsScalar, utf8, utf8_text, AllScalar, piece, pieces, IsText, Met, utf8_two, utf8_three, utf8_four,
  json_chars-utf8_text,
}

-- The bytes that `continue` takes.
continue-some :
    (n bits : ℕ) (cs : List ℕ) (r : ℕ × List ℕ)
    → continue (suc n) bits cs ≡ some r
    → (b : ℕ) × (bs : List ℕ) × (cs ≡ b ∷ bs)
      × (b / 64 ≡ 2)
      × (continue n (bits * 64 + b % 64) bs ≡ some r)
unfolding continue
continue-some n bits [] r h = absurd (cc)
continue-some n bits (b ∷ bs) r h = elim (Bool-cases (b / 64 == 2)) [
  | inl marked ↦ (b, bs, refl, ground arith, rw marked at h)
  | inr other ↦ absurd (none-some r (rw other at h))
]
  where
    none-some : (x : ℕ × List ℕ) → ¬ (◌≡◌ {A = Option (ℕ × List ℕ)} none (some x))
    none-some x k = cc

-- A longer character that is met: its bits, the bytes behind the first, and the code point.
record Long (c : ℕ) (cs out rest : List ℕ) : Type 0 where
  bits : ℕ
  continuation : ℕ
  cp : ℕ
  first : lead c ≡ some (bits, continuation)
  behind : continue continuation bits cs ≡ some (cp, rest)
  fine : is_malformed continuation cp ≡ false
  printed : out ≡ escape cp

next_char-Long :
    (c : ℕ) (cs out rest : List ℕ)
    → ltb c 0x80 ≡ false
    → next_char c cs ≡ some (out, rest)
    → Long c cs out rest
unfolding next_char
next_char-Long c cs out rest long h = elim (Option-cases (lead c)) [
  | inl e ↦ absurd (none-some (rw e at (rw long at h)))
  | inr ((bits, n), e) ↦ elim (Option-cases (continue n bits cs)) [
    | inl e' ↦ absurd (none-some (rw e' at (rw e at (rw long at h))))
    | inr ((cp, r), e') ↦ elim (Bool-cases (is_malformed n cp)) [
      | inl bad ↦ absurd (none-some (rw bad at (rw e' at (rw e at (rw long at h)))))
      | inr good ↦ met bits n cp r e e' good (rw good at (rw e' at (rw e at (rw long at h))))
    ]
  ]
]
  where
    none-some : ¬ (◌≡◌ {A = Option (List ℕ × List ℕ)} none (some (out, rest)))
    none-some k = cc

    met :
        (bits n cp : ℕ) (r : List ℕ)
        → lead c ≡ some (bits, n)
        → continue n bits cs ≡ some (cp, r)
        → is_malformed n cp ≡ false
        → ◌≡◌ {A = Option (List ℕ × List ℕ)} (some (escape cp, r)) (some (out, rest))
        → Long c cs out rest
    met bits n cp r e e' good same =
        let left : r ≡ rest = cc in
        let printed : out ≡ escape cp = cc in
        record {
          bits = bits;
          continuation = n;
          cp = cp;
          first = e;
          behind = e' ∙ ap (λ t. some (cp, t)) left;
          fine = good;
          printed = printed;
        }

-- The first byte tells how long the character is.
abbrev Lead : ℕ → ℕ → ℕ → Type 0
Lead c bits zero = ⊥
Lead c bits (suc zero) = (0xc2 ≤ c) × (c ≤ 0xdf) × (bits ≡ c % 32)
Lead c bits (suc (suc zero)) = (0xe0 ≤ c) × (c ≤ 0xef) × (bits ≡ c % 16)
Lead c bits (suc (suc (suc zero))) = (0xf0 ≤ c) × (c ≤ 0xf4) × (bits ≡ c % 8)
Lead c bits (suc (suc (suc (suc n)))) = ⊥

lead-Lead : (c bits n : ℕ) → lead c ≡ some (bits, n) → Lead c bits n
unfolding lead
lead-Lead c bits zero e = ground arith
lead-Lead c bits (suc zero) e = ground arith
lead-Lead c bits (suc (suc zero)) e = ground arith
lead-Lead c bits (suc (suc (suc zero))) e = ground arith
lead-Lead c bits (suc (suc (suc (suc n)))) e = ground arith

end-some :
    (bits cp : ℕ) (cs rest : List ℕ)
    → continue 0 bits cs ≡ some (cp, rest)
    → (bits ≡ cp) × (cs ≡ rest)
unfolding continue
end-some bits cp cs rest e = (cc, cc)

IsText-append_right : (xs ys : List ℕ) → IsText (xs ++ ys) → IsText ys
IsText-append_right [] ys t = t
IsText-append_right (x ∷ xs) ys (a, b, t) = IsText-append_right xs ys t

-- A character of the bytes `c` and `bytes`.
as-Met :
    (c cp : ℕ) (cs bytes rest : List ℕ)
    → cs ≡ bytes ++ rest
    → (utf8 cp ≡ c ∷ bytes) × IsScalar cp × (ltb cp 0x80 ≡ false)
    → IsText cs
    → Met c cs (escape cp) rest
as-Met c cp cs bytes rest split (whole, scalar, long) text = (
  cp,
  scalar,
  ap (λ t. c ∷ t) split ∙ ap (λ t. t ++ rest) (sym whole),
  rw long refl,
  IsText-append_right bytes rest (subst IsText split text),
)

module _ (c bits cp : ℕ) (cs rest : List ℕ) (text : IsText cs) where
  two-Met :
      Lead c bits 1
      → continue 1 bits cs ≡ some (cp, rest)
      → is_malformed 1 cp ≡ false
      → Met c cs (escape cp) rest
  two-Met (low, high, is_bits) e good =
      let (b, bs, split, mark, e') = continue-some 0 bits cs (cp, rest) e in
      let (value, behind) = end-some (bits * 64 + b % 64) cp bs rest e' in
      as-Met c cp cs (b ∷ []) rest (split ∙ ap (λ t. b ∷ t) behind)
        (utf8_two c b cp low high mark (sym value ∙ ap (λ k. k * 64 + b % 64) is_bits)) text

  three-Met :
      Lead c bits 2
      → continue 2 bits cs ≡ some (cp, rest)
      → is_malformed 2 cp ≡ false
      → Met c cs (escape cp) rest
  three-Met (low, high, is_bits) e good =
      let (b, bs, split, mark, e1) = continue-some 1 bits cs (cp, rest) e in
      let (b', bs', split', mark', e2) = continue-some 0 (bits * 64 + b % 64) bs (cp, rest) e1 in
      let (value, behind) = end-some ((bits * 64 + b % 64) * 64 + b' % 64) cp bs' rest e2 in
      as-Met c cp cs (b ∷ b' ∷ []) rest (split ∙ ap (λ t. b ∷ t) (split' ∙ ap (λ t. b' ∷ t) behind))
        (utf8_three c b b' cp low high mark mark'
          (sym value ∙ ap (λ k. (k * 64 + b % 64) * 64 + b' % 64) is_bits)
          (unfold is_malformed in ground arith) (unfold is_malformed in ground arith))
        text

  four-Met :
      Lead c bits 3
      → continue 3 bits cs ≡ some (cp, rest)
      → is_malformed 3 cp ≡ false
      → Met c cs (escape cp) rest
  four-Met (low, high, is_bits) e good =
      let (b, bs, split, mark, e1) = continue-some 2 bits cs (cp, rest) e in
      let (b', bs', split', mark', e2) = continue-some 1 (bits * 64 + b % 64) bs (cp, rest) e1 in
      let v = (bits * 64 + b % 64) * 64 + b' % 64 in
      let (b'', bs'', split'', mark'', e3) = continue-some 0 v bs' (cp, rest) e2 in
      let (value, behind) = end-some (v * 64 + b'' % 64) cp bs'' rest e3 in
      as-Met c cp cs (b ∷ b' ∷ b'' ∷ []) rest
        (split ∙ ap (λ t. b ∷ t) (split' ∙ ap (λ t. b' ∷ t) (split'' ∙ ap (λ t. b'' ∷ t) behind)))
        (utf8_four c b b' b'' cp low high mark mark' mark''
          (sym value ∙ ap (λ k. ((k * 64 + b % 64) * 64 + b' % 64) * 64 + b'' % 64) is_bits)
          (unfold is_malformed in ground arith) (unfold is_malformed in ground arith))
        text

Long-Met : (c : ℕ) (cs out rest : List ℕ) → IsText cs → Long c cs out rest → Met c cs out rest
Long-Met c cs out rest text l =
    subst (λ t. Met c cs t rest) (sym l.printed)
      (go l.continuation l.behind l.fine (lead-Lead c l.bits l.continuation l.first))
  where
    go :
        (n : ℕ)
        → continue n l.bits cs ≡ some (l.cp, rest)
        → is_malformed n l.cp ≡ false
        → Lead c l.bits n
        → Met c cs (escape l.cp) rest
    go zero e good h = absurd h
    go (suc zero) e good h = two-Met c l.bits l.cp cs rest text h e good
    go (suc (suc zero)) e good h = three-Met c l.bits l.cp cs rest text h e good
    go (suc (suc (suc zero))) e good h = four-Met c l.bits l.cp cs rest text h e good
    go (suc (suc (suc (suc n)))) e good h = absurd h

next_char-Met :
    (c : ℕ) (cs out rest : List ℕ)
    → IsText (c ∷ cs)
    → next_char c cs ≡ some (out, rest)
    → Met c cs out rest
next_char-Met c cs out rest (positive, byte, text) h = elim (Bool-cases (ltb c 0x80)) [
  | inr long ↦ Long-Met c cs out rest text (next_char-Long c cs out rest long h)
  | inl short ↦ one (unfold next_char in rw short at h) short
]
  where
    one :
        ◌≡◌ {A = Option (List ℕ × List ℕ)} (some (ascii c, cs)) (some (out, rest))
        → ltb c 0x80 ≡ true
        → Met c cs out rest
    one same short =
        let printed : out ≡ ascii c = cc in
        let left : cs ≡ rest = cc in
        (
          c,
          (positive, ground arith),
          rw short (ap (λ t. c ∷ t) left),
          printed ∙ rw short refl,
          subst IsText left text,
        )

-- The characters of a text that is printed.
abbrev Characters : List ℕ → List ℕ → Type 0
Characters text out = (cps : List ℕ) × AllScalar cps × (text ≡ utf8_text cps) × (out ≡ pieces cps)

json_chars-Characters :
    (fuel : ℕ) (text out : List ℕ)
    → IsText text
    → json_chars fuel text ≡ some out
    → Characters text out
unfolding json_chars
json_chars-Characters zero [] out t h = ([], tt, refl, cc)
json_chars-Characters (suc fuel) [] out t h = ([], tt, refl, cc)
json_chars-Characters zero (c ∷ cs) out t h = absurd (cc)
json_chars-Characters (suc fuel) (c ∷ cs) out t h = elim (Option-cases (next_char c cs)) [
  | inl e ↦ absurd (none-some (rw e at h))
  | inr ((piece_out, rest), e) ↦ elim (Option-cases (json_chars fuel rest)) [
    | inl e' ↦ absurd (none-some (rw e' at (rw e at h)))
    | inr (more, e') ↦
        let met = next_char-Met c cs piece_out rest t e in
        joined piece_out rest more met (json_chars-Characters fuel rest more met.4 e')
          (rw e' at (rw e at h))
  ]
]
  where
    none-some : ¬ (◌≡◌ {A = Option (List ℕ)} none (some out))
    none-some k = cc

    joined :
        (piece_out rest more : List ℕ)
        → Met c cs piece_out rest
        → Characters rest more
        → ◌≡◌ {A = Option (List ℕ)} (some (piece_out ++ more)) (some out)
        → Characters (c ∷ cs) out
    joined piece_out rest more (cp, scalar, whole, printed, t') (cps, scalars, text, all) same =
        let is_out : out ≡ piece_out ++ more = cc in
        (
          cp ∷ cps,
          (scalar, scalars),
          whole ∙ ap (λ x. utf8 cp ++ x) text,
          is_out ∙ ap (λ x. x ++ more) printed ∙ ap (λ x. piece cp ++ x) all,
        )

-- `json_string` prints a text exactly when the text is UTF-8: the encoding of some code points,
-- none of them a surrogate or above 0x10ffff. Otherwise it is -1: nothing that is not shortest, is
-- cut off, or is no character passes.
pub json_string-utf8_text :
    (text : List ℕ)
    → IsText text
    → ((out : List ℕ) × (json_string (some text) ≡ some out))
      ↔ ((cps : List ℕ) × AllScalar cps × (text ≡ utf8_text cps))
unfolding json_string
json_string-utf8_text text t = (accepted, refused_none)
  where
    accepted :
        (out : List ℕ) × (json_string (some text) ≡ some out)
        → (cps : List ℕ) × AllScalar cps × (text ≡ utf8_text cps)
    accepted (out, h) = elim (Option-cases (json_chars (length text) text)) [
      | inl e ↦ absurd (none_some out (rw e at h))
      | inr (chars, e) ↦
          let (cps, scalars, whole, printed) = json_chars-Characters (length text) text chars t e in
          (cps, scalars, whole)
    ]
      where
        none_some : (x : List ℕ) → ¬ (◌≡◌ {A = Option (List ℕ)} none (some x))
        none_some x k = cc

    refused_none :
        (cps : List ℕ) × AllScalar cps × (text ≡ utf8_text cps)
        → (out : List ℕ) × (json_string (some text) ≡ some out)
    refused_none (cps, scalars, whole) =
        let printed : json_chars (length text) text ≡ some (pieces cps) =
          ap (json_chars (length text)) whole
          ∙ json_chars-utf8_text cps (length text) scalars (omega (arith, ap length whole)) in
        (34 ∷ pieces cps, rw printed refl)
