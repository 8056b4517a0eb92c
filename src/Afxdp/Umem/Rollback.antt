-- ===== src/Afxdp/Umem/Rollback.antt =====
-- A batch that is cancelled gives every frame back.
use aceteam_bachelor_thesis.Prelude.{
  ℕ, zero, suc, ◌+◌, ◌*◌, ◌^◌, ◌≤◌, ◌<◌, ◌≡◌, refl, sym, ap, ◌∙◌, ◌⊎◌, inl, inr, Bool, true, false,
  Bool-cases, subst, leb, not, ◌||◌, List, [], ◌∷◌, ◌++◌, arith, ◌==◌, length, length-append,
}
use aceteam_bachelor_thesis.Afxdp.Umem.{
  Descriptor, Address, Validated, refused, within, validate_rx_descriptor, num_frames, umem_size,
  frame_size, Umem, frame_of, inc32, dec32, give_back, take_frame, roll_back, claim_next, euclean,
  invariant_error, Claimed, cancelled, claim_frames,
}

-- A descriptor that is accepted lies, with its whole packet, inside one frame of the UMEM, and the
-- address that goes back to the kernel is the start of that frame.
pub validate_rx_descriptor_bounds :
    (d : Descriptor) (a : Address)
    → validate_rx_descriptor d ≡ within a
    → (frame_of a < num_frames)
      × (a.fill_addr ≡ frame_of a * frame_size)
      × (a.fill_addr ≤ a.data_addr)
      × (0 < d.len)
      × (a.data_addr + d.len ≤ a.fill_addr + frame_size)
      × (a.data_addr + d.len ≤ umem_size)
unfolding validate_rx_descriptor
validate_rx_descriptor_bounds d a h = ground arith

-- The frame is among the addresses.
abbrev pub holds : List Address → ℕ → Bool
holds [] g = false
holds (a ∷ more) g = g == frame_of a || holds more g

pub roll_back_owner :
    (taken : List Address) (u : Umem) (g : ℕ)
    → (roll_back taken u).frame_in_kernel g ≡ (holds taken g || u.frame_in_kernel g)
unfolding roll_back give_back
roll_back_owner [] u g = refl
roll_back_owner (a ∷ taken) u g = ground (arith, roll_back_owner taken (give_back a u) g)

abbrev pub decs : ℕ → ℕ → ℕ
decs zero n = n
decs (suc k) n = decs k (dec32 n)

pub roll_back_count :
    (taken : List Address) (u : Umem)
    → (roll_back taken u).userspace_owned_frames ≡ decs (length taken) u.userspace_owned_frames
unfolding roll_back give_back
roll_back_count [] u = refl
roll_back_count (a ∷ taken) u = roll_back_count taken (give_back a u)

pub holds-append :
    (more : List Address) (a : Address) (g : ℕ)
    → holds (more ++ a ∷ []) g ≡ (holds more g || g == frame_of a)
holds-append [] a g = ground arith
holds-append (b ∷ more) a g = ground (arith, holds-append more a g)

-- The same owner for each frame, and the same count.
pub record SameOwners (u v : Umem) : Type 0 where
  pub owner : (g : ℕ) → u.frame_in_kernel g ≡ v.frame_in_kernel g
  pub count : u.userspace_owned_frames ≡ v.userspace_owned_frames

-- To take a frame and to roll it back too is to roll the others back.
pub roll_back_taken :
    (taken : List Address) (a : Address) (u : Umem)
    → u.frame_in_kernel (frame_of a) ≡ true
    → u.userspace_owned_frames < 2 ^ 32
    → SameOwners (roll_back (taken ++ a ∷ []) (take_frame a u)) (roll_back taken u)
unfolding take_frame
roll_back_taken taken a u here small = record {
  owner = λ g. ground (
    arith,
    roll_back_owner (taken ++ a ∷ []) (take_frame a u) g,
    roll_back_owner taken u g,
    holds-append taken a g,
  );
  count =
      roll_back_count (taken ++ a ∷ []) (take_frame a u)
      ∙ ap (λ k. decs k (inc32 u.userspace_owned_frames)) one_more
      ∙ ap (decs (length taken)) (omega arith)
      ∙ sym (roll_back_count taken u);
}
  where
    one_more : length (taken ++ a ∷ []) ≡ suc (length taken)
    one_more = omega (arith, length-append taken (a ∷ []))

-- The frame is taken in this round.
pub record Takes (r : Validated) (u : Umem) (a : Address) : Type 0 where
  pub valid : r ≡ within a
  pub in_range : frame_of a < num_frames
  pub in_kernel : u.frame_in_kernel (frame_of a) ≡ true

pub claim_next_cases :
    (r : Validated) (taken : List Address) (u : Umem) (rest : Address → Claimed) (c : Claimed)
    → claim_next r taken u rest ≡ c
    → ((err : ℕ) × (v : Umem) × (c ≡ cancelled err v) × SameOwners v (roll_back taken u))
      ⊎ ((a : Address) × Takes r u a × (rest a ≡ c))
unfolding claim_next
claim_next_cases (refused err) taken u rest c h =
    inl (err, roll_back taken u, sym h, record { owner = λ g. refl; count = refl })
claim_next_cases (within a) taken u rest c h =
    elim (Bool-cases (leb num_frames (frame_of a) || not (u.frame_in_kernel (frame_of a)))) [
      | inl bad ↦ inl (
        euclean,
        invariant_error (roll_back taken u),
        sym h ∙ rw bad refl,
        record { owner = λ g. refl; count = refl },
      )
      | inr good ↦ inr (
        a,
        record { valid = refl; in_range = ground arith; in_kernel = ground arith },
        rw good at h,
      )
    ]

pub SameOwners-trans : {u v w : Umem} → SameOwners u v → SameOwners v w → SameOwners u w
SameOwners-trans a b = record { owner = λ g. a.owner g ∙ b.owner g; count = a.count ∙ b.count }

claim_frames_cancelled :
    (ds : List Descriptor) (taken : List Address) (u v : Umem) (err : ℕ)
    → u.userspace_owned_frames + length ds < 2 ^ 32
    → claim_frames ds taken u ≡ cancelled err v
    → SameOwners v (roll_back taken u)
unfolding claim_frames
claim_frames_cancelled [] taken u v err small h = cc
claim_frames_cancelled (d ∷ ds) taken u v err small h =
    elim (claim_next_cases (validate_rx_descriptor d) taken u
      (λ a. claim_frames ds (taken ++ a ∷ []) (take_frame a u)) (cancelled err v) h) [
        | inl (err', w, e, same) ↦
            let is_that : w ≡ v = cc in subst (λ x. SameOwners x (roll_back taken u)) is_that same
        | inr (a, t, e) ↦
            SameOwners-trans
              (claim_frames_cancelled ds (taken ++ a ∷ []) (take_frame a u) v err
                (unfold take_frame in omega arith) e)
              (roll_back_taken taken a u t.in_kernel (omega arith))
      ]

-- When the first loop gives up on a batch, for a descriptor that is no good or a frame that the
-- kernel does not own, every frame has the owner that it had before the batch.
pub claim_frames_restores :
    (ds : List Descriptor) (u v : Umem) (err : ℕ)
    → u.userspace_owned_frames + length ds < 2 ^ 32
    → claim_frames ds [] u ≡ cancelled err v
    → SameOwners v u
unfolding roll_back
claim_frames_restores ds u v err small h = claim_frames_cancelled ds [] u v err small h
