-- ===== src/Examples/Claims.antt =====
-- Two receivers of the AF_XDP kind and the claim of one queue.
use aceteam_bachelor_thesis.Prelude.{
  ℕ, ◌≡◌, ◌≢◌, ◌⊎◌, inl, inr, refl, sym, ap, ==_iff, Bool-cases, if◌then◌else◌, Option, none, some,
  ◌==◌, arith,
}
use aceteam_bachelor_thesis.Abi.HashMap.{HashMap, bpf_noexist}
use aceteam_bachelor_thesis.Prelude.{List, [], ◌∷◌}
use aceteam_bachelor_thesis.Loader.Claims.{Turn, found, lost, ticks, no_start}
use aceteam_bachelor_thesis.Afxdp.Owner.{
  XskOwner, OwnerMap, Looked, held, failed, IsRefusal, SameClaims, claim_xsk_queue,
  release_xsk_queue, release_xsk_queue-claim_xsk_queue,
}

-- A map of claims as a function, that takes every entry.
abbrev claims : ℕ → Option XskOwner
claims j = none

abbrev put_at :
    Option XskOwner → (ℕ → Option XskOwner) → ℕ → XskOwner → ℕ → (ℕ → Option XskOwner) × ℕ
put_at (some w) m k v flags =
    if flags == bpf_noexist then (m, 17) else (λ j. if j == k then some v else m j, 0)
put_at none m k v flags = (λ j. if j == k then some v else m j, 0)

put_failed :
    (o : Option XskOwner) (m : ℕ → Option XskOwner) (k : ℕ) (v : XskOwner) (flags : ℕ)
    → (put_at o m k v flags).1 ≢ 0
    → (put_at o m k v flags).0 ≡ m
put_failed (some w) m k v flags h = elim (Bool-cases (flags == bpf_noexist)) [
  | inl x ↦ rw x refl
  | inr x ↦ absurd (rw x at h refl)
]
put_failed none m k v flags h = absurd (h refl)

put_fresh :
    (o : Option XskOwner) (m : ℕ → Option XskOwner) (k : ℕ) (v : XskOwner)
    → (put_at o m k v bpf_noexist).1 ≢ 17
    → o ≡ none
put_fresh (some w) m k v h = absurd (h refl)
put_fresh none m k v h = refl

put_self :
    (o : Option XskOwner) (m : ℕ → Option XskOwner) (k : ℕ) (v : XskOwner) (flags : ℕ)
    → (put_at o m k v flags).1 ≡ 0
    → (put_at o m k v flags).0 k ≡ some v
put_self (some w) m k v flags h = elim (Bool-cases (flags == bpf_noexist)) [
  | inl x ↦ absurd (omega (arith, rw x at h))
  | inr x ↦ rw x (rw ((==_iff k k).1 refl) refl)
]
put_self none m k v flags h = rw ((==_iff k k).1 refl) refl

other_entry : {A : Type 0} (k j : ℕ) (a b : A) → k ≢ j → (if j == k then a else b) ≡ b
other_entry k j a b h = elim (Bool-cases (j == k)) [
  | inl x ↦ absurd (h (sym ((==_iff j k).0 x)))
  | inr x ↦ rw x refl
]

put_ne :
    (o : Option XskOwner) (m : ℕ → Option XskOwner) (k j : ℕ) (v : XskOwner) (flags : ℕ)
    → k ≢ j
    → (put_at o m k v flags).0 j ≡ m j
put_ne (some w) m k j v flags h = elim (Bool-cases (flags == bpf_noexist)) [
  | inl x ↦ rw x refl
  | inr x ↦ rw x (other_entry k j (some v) (m j) h)
]
put_ne none m k j v flags h = other_entry k j (some v) (m j) h

abbrev claims_map : HashMap ℕ XskOwner
claims_map = record {
  Map = ℕ → Option XskOwner;
  lookup = λ m k. m k;
  update = λ m k v flags. put_at (m k) m k v flags;
  update_taken = λ m k v w h. ap (λ o. put_at o m k w bpf_noexist) h;
  update_failed = λ m k v flags h. put_failed (m k) m k v flags h;
  update_fresh = λ m k v x h. put_fresh (m k) m k v h;
  lookup-update_self = λ m k v flags h. put_self (m k) m k v flags h;
  lookup-update_ne = λ m k j v flags h. put_ne (m k) m k j v flags h;
}

abbrev look_at : Option XskOwner → Looked
look_at none = failed 2
look_at (some v) = held v

look_at-some : (o : Option XskOwner) (v : XskOwner) → look_at o ≡ held v → o ≡ some v
look_at-some none v h = absurd (cc)
look_at-some (some w) v h = cc

look_at_none : (o : Option XskOwner) (errno : ℕ) → look_at o ≡ failed errno → errno ≢ 0
look_at_none none errno h = let e : 2 ≡ errno = cc in ground arith
look_at_none (some w) errno h = absurd (cc)

abbrev owners : OwnerMap
owners = record {
  base = claims_map;
  look = λ m k. look_at (m k);
  delete = λ m k. (λ j. if j == k then none else m j, 0);
  look-held = λ m k v h. look_at-some (m k) v h;
  look-failed = λ m k errno h. look_at_none (m k) errno h;
  delete_failed = λ m k h. absurd (h refl);
  lookup-delete_self = λ m k h. rw ((==_iff k k).1 refl) refl;
  lookup-delete_ne = λ m k j h. other_entry k j none (m j) h;
}

abbrev first_owner : XskOwner
first_owner = record { process_start_ticks = 100; pid = 7; reserved = 0 }

abbrev second_owner : XskOwner
second_owner = record { process_start_ticks = 200; pid = 7; reserved = 0 }

differ : second_owner ≢ first_owner
differ h = absurd (omega (arith, ap (λ (o : XskOwner). o.process_start_ticks) h))

release_xsk_queue-claim_xsk_queue_example :
    let t = (claim_xsk_queue owners claims 0 first_owner).0 in
    (claim_xsk_queue owners t 0 second_owner ≡ (t, 17))
    × ((release_xsk_queue owners t 0 second_owner).0 ≡ t)
    × IsRefusal owners (held first_owner) (release_xsk_queue owners t 0 second_owner).1
    × ((((release_xsk_queue owners t 0 first_owner).1 ≡ 0)
          × SameClaims owners (release_xsk_queue owners t 0 first_owner).0 claims)
        ⊎ (((release_xsk_queue owners t 0 first_owner).1 ≢ 0)
            × ((release_xsk_queue owners t 0 first_owner).0 ≡ t)))
unfolding claim_xsk_queue
release_xsk_queue-claim_xsk_queue_example =
    release_xsk_queue-claim_xsk_queue owners claims 0 first_owner second_owner refl differ

-- A dead receiver's claim that is removed, and one that is gone before it is looked up.
abbrev turns : List Turn
turns =
    record { first = found first_owner; start = no_start 2; latest = lost 2; deletion = 0 }
    ∷ record { first = lost 2; start = ticks 100; latest = lost 2; deletion = 0 }
    ∷ []
