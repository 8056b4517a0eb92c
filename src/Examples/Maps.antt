-- ===== src/Examples/Maps.antt =====
-- A map of at most `capacity` entries, as a list: it has what is assumed of the kernel's.
use aceteam_bachelor_thesis.Prelude.{
  ℕ, ◌≡◌, ◌≢◌, ◌↔◌, refl, ap, inl, inr, Bool, true, Bool-cases, ◌&&◌, List, [], ◌∷◌, Option, none,
  some, ltb, ◌==◌, arith, length, if◌then◌else◌,
}
use aceteam_bachelor_thesis.Abi.{PacketKey}
use aceteam_bachelor_thesis.Abi.HashMap.{HashMap, eexist, bpf_noexist}

abbrev pub key_eq : PacketKey → PacketKey → Bool
key_eq a b = a.flow_id == b.flow_id && a.reserved == b.reserved && a.sequence == b.sequence

key_eq_iff : (a b : PacketKey) → (key_eq a b ≡ true) ↔ (a ≡ b)
key_eq_iff a b = ground arith

module _ {V : Type 0} (capacity : ℕ) where
  abbrev pub find : List (PacketKey × V) → PacketKey → Option V
  find [] k = none
  find ((j, v) ∷ m) k = if key_eq j k then some v else find m k

  -- An entry that is replaced goes before the one that it hides.
  abbrev pub add_at : Option V → List (PacketKey × V) → PacketKey → V → ℕ → List (PacketKey × V) × ℕ
  add_at (some w) m k v flags = if flags == bpf_noexist then (m, eexist) else ((k, v) ∷ m, 0)
  add_at none m k v flags = if ltb (length m) capacity then ((k, v) ∷ m, 0) else (m, 7)

  abbrev pub add : List (PacketKey × V) → PacketKey → V → ℕ → List (PacketKey × V) × ℕ
  add m k v flags = add_at (find m k) m k v flags

  pub add_at_failed :
      (o : Option V) (m : List (PacketKey × V)) (k : PacketKey) (v : V) (flags : ℕ)
      → (add_at o m k v flags).1 ≢ 0
      → (add_at o m k v flags).0 ≡ m
  add_at_failed (some w) m k v flags h = elim (Bool-cases (flags == bpf_noexist)) [
    | inl x ↦ rw x refl
    | inr x ↦ absurd (rw x at h refl)
  ]
  add_at_failed none m k v flags h = elim (Bool-cases (ltb (length m) capacity)) [
    | inl x ↦ absurd (rw x at h refl)
    | inr x ↦ rw x refl
  ]

  pub add_at_fresh :
      (o : Option V) (m : List (PacketKey × V)) (k : PacketKey) (v : V)
      → (add_at o m k v bpf_noexist).1 ≢ eexist
      → o ≡ none
  add_at_fresh (some w) m k v h = absurd (h refl)
  add_at_fresh none m k v h = refl

  first_self : (m : List (PacketKey × V)) (k : PacketKey) (v : V) → find ((k, v) ∷ m) k ≡ some v
  first_self m k v = rw ((key_eq_iff k k).1 refl) refl

  first_ne :
      (m : List (PacketKey × V)) (k j : PacketKey) (v : V) → k ≢ j → find ((k, v) ∷ m) j ≡ find m j
  first_ne m k j v h = elim (Bool-cases (key_eq k j)) [
    | inl same ↦ absurd (h ((key_eq_iff k j).0 same))
    | inr other ↦ rw other refl
  ]

  pub add_at_self :
      (o : Option V) (m : List (PacketKey × V)) (k : PacketKey) (v : V) (flags : ℕ)
      → (add_at o m k v flags).1 ≡ 0
      → find (add_at o m k v flags).0 k ≡ some v
  add_at_self (some w) m k v flags h = elim (Bool-cases (flags == bpf_noexist)) [
    | inl x ↦ absurd (omega (arith, rw x at h))
    | inr x ↦ rw x (first_self m k v)
  ]
  add_at_self none m k v flags h = elim (Bool-cases (ltb (length m) capacity)) [
    | inl x ↦ rw x (first_self m k v)
    | inr x ↦ absurd (omega (arith, rw x at h))
  ]

  pub add_at_ne :
      (o : Option V) (m : List (PacketKey × V)) (k j : PacketKey) (v : V) (flags : ℕ)
      → k ≢ j
      → find (add_at o m k v flags).0 j ≡ find m j
  add_at_ne (some w) m k j v flags h = elim (Bool-cases (flags == bpf_noexist)) [
    | inl x ↦ rw x refl
    | inr x ↦ rw x (first_ne m k j v h)
  ]
  add_at_ne none m k j v flags h = elim (Bool-cases (ltb (length m) capacity)) [
    | inl x ↦ rw x (first_ne m k j v h)
    | inr x ↦ rw x refl
  ]

  abbrev pub bounded : HashMap PacketKey V
  bounded = record {
    Map = List (PacketKey × V);
    lookup = find;
    update = add;
    update_taken = λ m k v w h. ap (λ o. add_at o m k w bpf_noexist) h;
    update_failed = λ m k v flags h. add_at_failed (find m k) m k v flags h;
    update_fresh = λ m k v x h. add_at_fresh (find m k) m k v h;
    lookup-update_self = λ m k v flags h. add_at_self (find m k) m k v flags h;
    lookup-update_ne = λ m k j v flags h. add_at_ne (find m k) m k j v flags h;
  }
