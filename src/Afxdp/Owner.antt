-- ===== src/Afxdp/Owner.antt =====
-- BPF/afxdp_recv.c, the claims of the receive queues: `xsk_owner_equal`, `claim_xsk_queue` and
-- `release_xsk_queue`. The map of the claims is the kernel's.
use aceteam_bachelor_thesis.Prelude.{
  ℕ, ◌≡◌, ◌≢◌, ◌↔◌, ◌⊎◌, inl, inr, refl, sym, ap, subst, ◌∙◌, ==_iff, Bool, true, false, Bool-cases,
  ◌&&◌, Option, none, some, ◌==◌, arith, if◌then◌else◌,
}
use aceteam_bachelor_thesis.Abi.HashMap.{HashMap, eexist, bpf_noexist}

abbrev pub enoent : ℕ
enoent = 2

abbrev pub estale : ℕ
estale = 116

-- `struct ace_xsk_owner`.
pub record XskOwner : Type 0 where
  pub process_start_ticks : ℕ
  pub pid : ℕ
  pub reserved : ℕ

unfoldable pub xsk_owner_equal : XskOwner → XskOwner → Bool
xsk_owner_equal left right =
    left.process_start_ticks == right.process_start_ticks
    && left.pid == right.pid
    && left.reserved == right.reserved

pub xsk_owner_equal_iff : (a b : XskOwner) → (xsk_owner_equal a b ≡ true) ↔ (a ≡ b)
unfolding xsk_owner_equal
xsk_owner_equal_iff a b = ground arith

-- bpf_map_lookup_elem: 0 with the claim, or the error number.
pub data Looked : Type 0 where
  held : XskOwner → Looked
  failed : ℕ → Looked

-- The calls on the map of the claims: bpf_map_update_elem is `base.update`. A lookup may fail for a
-- reason of its own; a deletion gives the map, and 0 or the error number.
pub record OwnerMap : Type 1 where
  pub base : HashMap ℕ XskOwner
  pub look : base.Map → ℕ → Looked
  pub delete : base.Map → ℕ → base.Map × ℕ
  pub look-held :
      (m : base.Map) (k : ℕ) (v : XskOwner) → look m k ≡ held v → base.lookup m k ≡ some v
  pub look-failed : (m : base.Map) (k errno : ℕ) → look m k ≡ failed errno → errno ≢ 0
  pub delete_failed : (m : base.Map) (k : ℕ) → (delete m k).1 ≢ 0 → (delete m k).0 ≡ m
  pub lookup-delete_self :
      (m : base.Map) (k : ℕ) → (delete m k).1 ≡ 0 → base.lookup (delete m k).0 k ≡ none
  pub lookup-delete_ne :
      (m : base.Map) (k j : ℕ) → k ≢ j → base.lookup (delete m k).0 j ≡ base.lookup m j

xsk_owner_equal_ne : (a b : XskOwner) → a ≢ b → xsk_owner_equal a b ≡ false
xsk_owner_equal_ne a b h = elim (Bool-cases (xsk_owner_equal a b)) [
  | inl x ↦ absurd (h ((xsk_owner_equal_iff a b).0 x))
  | inr x ↦ x
]

some_eq : (a b : XskOwner) → some a ≡ some b → a ≡ b
some_eq a b h = cc

module _ (owners : OwnerMap) where
  open owners use {
    base, look, delete, look-held, look-failed, delete_failed, lookup-delete_self, lookup-delete_ne,
  }

  unfoldable pub claim_xsk_queue : base.Map → ℕ → XskOwner → base.Map × ℕ
  claim_xsk_queue m queue_id owner = base.update m queue_id owner bpf_noexist

  unfoldable pub release_found : Looked → base.Map → ℕ → XskOwner → base.Map × ℕ
  release_found (failed errno) m queue_id owner = (m, if errno == enoent then estale else errno)
  release_found (held current) m queue_id owner =
      if xsk_owner_equal current owner then delete m queue_id else (m, estale)

  unfoldable pub release_xsk_queue : base.Map → ℕ → XskOwner → base.Map × ℕ
  unfolding release_found
  release_xsk_queue m queue_id owner = release_found (look m queue_id) m queue_id owner

  -- A map that has lost no claim and won none.
  abbrev pub SameClaims : base.Map → base.Map → Type 0
  SameClaims a b = (j : ℕ) → base.lookup a j ≡ base.lookup b j

  -- ESTALE, or the error of a lookup that failed for another reason.
  abbrev pub IsRefusal : Looked → ℕ → Type 0
  IsRefusal answer result =
      (result ≡ estale)
      ⊎ ((errno : ℕ) × (answer ≡ failed errno) × (errno ≢ enoent) × (result ≡ errno))

  -- A release by somebody else, whatever the lookup answers.
  refused_release :
      (answer : Looked) (m : base.Map) (queue_id : ℕ) (owner other : XskOwner)
      → ((v : XskOwner) → answer ≡ held v → v ≡ owner)
      → other ≢ owner
      → ((release_found answer m queue_id other).0 ≡ m)
        × IsRefusal answer (release_found answer m queue_id other).1
  unfolding release_found
  refused_release (failed errno) m queue_id owner other only differs =
      elim (Bool-cases (errno == enoent)) [
        | inl gone ↦ rw gone (refl, inl refl)
        | inr odd ↦ rw odd (refl, inr (errno, refl, ground arith, refl))
      ]
  refused_release (held v) m queue_id owner other only differs =
      let strange : xsk_owner_equal v other ≡ false =
        xsk_owner_equal_ne v other (λ e. differs (sym e ∙ only v refl)) in
      rw strange (refl, inl refl)

  -- A release by the owner.
  own_release :
      (answer : Looked) (m : base.Map) (queue_id : ℕ) (owner : XskOwner)
      → look m queue_id ≡ answer
      → ((v : XskOwner) → answer ≡ held v → v ≡ owner)
      → (((release_found answer m queue_id owner).1 ≡ 0)
          × (release_found answer m queue_id owner ≡ delete m queue_id))
        ⊎ (((release_found answer m queue_id owner).1 ≢ 0)
            × ((release_found answer m queue_id owner).0 ≡ m))
  unfolding release_found
  own_release (failed errno) m queue_id owner looked only = elim (Bool-cases (errno == enoent)) [
    | inl gone ↦ rw gone (inr (ground arith, refl))
    | inr odd ↦ rw odd (inr (look-failed m queue_id errno looked, refl))
  ]
  own_release (held v) m queue_id owner looked only =
      rw ((xsk_owner_equal_iff v owner).1 (only v refl))
        (elim (Bool-cases ((delete m queue_id).1 == 0)) [
          | inl z ↦ inl (ground arith, refl)
          | inr n ↦
              let failing : (delete m queue_id).1 ≢ 0 = ground arith in
              inr (failing, delete_failed m queue_id failing)
        ])

  -- A queue that a claim was entered for had none before.
  claimed_free :
      (m : base.Map) (queue_id : ℕ) (owner : XskOwner) (o : Option XskOwner)
      → base.lookup m queue_id ≡ o
      → (base.update m queue_id owner bpf_noexist).1 ≡ 0
      → base.lookup m queue_id ≡ none
  claimed_free m queue_id owner none h z = h
  claimed_free m queue_id owner (some w) h z =
      absurd
        (omega (arith, z, ap (λ (r : base.Map × ℕ). r.1) (base.update_taken m queue_id w owner h)))

  claim-delete :
      (m : base.Map) (queue_id : ℕ) (owner : XskOwner)
      → let t = (base.update m queue_id owner bpf_noexist).0 in
        (base.update m queue_id owner bpf_noexist).1 ≡ 0
        → (delete t queue_id).1 ≡ 0
        → SameClaims (delete t queue_id).0 m
  claim-delete m queue_id owner z gone j =
      let t = (base.update m queue_id owner bpf_noexist).0 in
      elim (Bool-cases (queue_id == j)) [
        | inl same ↦
            let e : queue_id ≡ j = (==_iff queue_id j).0 same in
            subst (λ k. base.lookup (delete t queue_id).0 k ≡ base.lookup m k) e
              (lookup-delete_self t queue_id gone
                ∙ sym (claimed_free m queue_id owner (base.lookup m queue_id) refl z))
        | inr other ↦
            let ne : queue_id ≢ j = ground arith in
            lookup-delete_ne t queue_id j ne
            ∙ base.lookup-update_ne m queue_id j owner bpf_noexist ne
      ]

  -- Once an owner has claimed a queue, another claim of it fails with EEXIST. A release by another
  -- owner fails too, with ESTALE or with the error of a lookup that failed for a reason other than
  -- ENOENT. Both leave the map as it is. A release by the owner either returns 0, and then each
  -- queue has the claim that it had before the owner's, or fails and leaves the map as it is.
  pub release_xsk_queue-claim_xsk_queue :
      (m : base.Map) (queue_id : ℕ) (owner other : XskOwner)
      → (claim_xsk_queue m queue_id owner).1 ≡ 0
      → other ≢ owner
      → let t = (claim_xsk_queue m queue_id owner).0 in
        (claim_xsk_queue t queue_id other ≡ (t, eexist))
        × ((release_xsk_queue t queue_id other).0 ≡ t)
        × IsRefusal (look t queue_id) (release_xsk_queue t queue_id other).1
        × ((((release_xsk_queue t queue_id owner).1 ≡ 0)
              × SameClaims (release_xsk_queue t queue_id owner).0 m)
            ⊎ (((release_xsk_queue t queue_id owner).1 ≢ 0)
                × ((release_xsk_queue t queue_id owner).0 ≡ t)))
  unfolding claim_xsk_queue release_xsk_queue
  release_xsk_queue-claim_xsk_queue m queue_id owner other z differs =
      let t = (base.update m queue_id owner bpf_noexist).0 in
      let claimed = base.lookup-update_self m queue_id owner bpf_noexist z in
      let only : (v : XskOwner) → look t queue_id ≡ held v → v ≡ owner =
        λ v e. some_eq v owner (sym (look-held t queue_id v e) ∙ claimed) in
      let (kept, refusal) = refused_release (look t queue_id) t queue_id owner other only differs in
      (
        base.update_taken t queue_id owner other claimed,
        kept,
        refusal,
        elim (own_release (look t queue_id) t queue_id owner refl only) [
          | inr failing ↦ inr failing
          | inl (zero_result, deleted) ↦
              let gone : (delete t queue_id).1 ≡ 0 =
                ap (λ (r : base.Map × ℕ). r.1) (sym deleted) ∙ zero_result in
              inl (
                zero_result,
                subst (λ (r : base.Map × ℕ). SameClaims r.0 m) (sym deleted)
                    (claim-delete m queue_id owner z gone),
              )
        ],
      )
