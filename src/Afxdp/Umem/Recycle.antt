-- ===== src/Afxdp/Umem/Recycle.antt =====
-- A batch that is taken: its frames are distinct and out of the kernel's hands until each is recycled.
use aceteam_bachelor_thesis.Prelude.{
  ℕ, ◌+◌, ◌^◌, ◌<◌, ◌≡◌, refl, sym, ap, subst, ◌∙◌, inl, inr, true, false, List, [], ◌∷◌, ◌++◌,
  arith, length, length-append,
}
use aceteam_bachelor_thesis.Afxdp.Umem.{
  Descriptor, Address, validate_rx_descriptor, Umem, frame_of, give_back, take_frame, roll_back,
  claimed, claim_frames, recycled, recycle_frame,
}
use aceteam_bachelor_thesis.Afxdp.Umem.Rollback.{
  holds, holds-append, SameOwners, SameOwners-trans, claim_next_cases, roll_back_taken,
}

abbrev pub Distinct : List Address → Type 0
Distinct [] = Unit {0}
Distinct (a ∷ more) = (holds more (frame_of a) ≡ false) × Distinct more

-- The frames of these addresses are distinct, the kernel has none of them, and no others are out.
pub record Out (taken : List Address) (u : Umem) : Type 0 where
  pub distinct : Distinct taken
  pub free : (g : ℕ) → holds taken g ≡ true → u.frame_in_kernel g ≡ false
  pub count : u.userspace_owned_frames ≡ length taken

Distinct-append :
    (taken : List Address) (a : Address)
    → Distinct taken
    → holds taken (frame_of a) ≡ false
    → Distinct (taken ++ a ∷ [])
Distinct-append [] a d h = (refl, tt)
Distinct-append (b ∷ taken) a d h =
    (ground (arith, holds-append taken a (frame_of b)), Distinct-append taken a d.1 (ground arith))

Out-take :
    (taken : List Address) (a : Address) (u : Umem)
    → Out taken u
    → u.frame_in_kernel (frame_of a) ≡ true
    → length taken + 1 < 2 ^ 32
    → Out (taken ++ a ∷ []) (take_frame a u)
unfolding take_frame
Out-take taken a u o here small =
    let fresh : holds taken (frame_of a) ≡ false = ground (arith, o.free (frame_of a)) in
    record {
      distinct = Distinct-append taken a o.distinct fresh;
      free = λ g h. ground (arith, o.free g, holds-append taken a g);
      count = omega (arith, o.count, length-append taken (a ∷ []));
    }

pub claim_frames-Out :
    (ds : List Descriptor) (taken addrs : List Address) (u v : Umem)
    → Out taken u
    → length taken + length ds < 2 ^ 32
    → claim_frames ds taken u ≡ claimed addrs v
    → Out addrs v
      × SameOwners (roll_back addrs v) (roll_back taken u)
      × (length addrs ≡ length taken + length ds)
unfolding claim_frames
claim_frames-Out [] taken addrs u v o small h =
    let same_list : taken ≡ addrs = cc in
    let same : u ≡ v = cc in
    (
      subst (λ x. Out addrs x) same (subst (λ x. Out x u) same_list o),
      record {
        owner = λ g.
            ap (λ x. (roll_back addrs x).frame_in_kernel g) (sym same)
            ∙ ap (λ x. (roll_back x u).frame_in_kernel g) (sym same_list);
        count =
            ap (λ x. (roll_back addrs x).userspace_owned_frames) (sym same)
            ∙ ap (λ x. (roll_back x u).userspace_owned_frames) (sym same_list);
      },
      omega (arith, ap (λ (x : List Address). length x) same_list),
    )
claim_frames-Out (d ∷ ds) taken addrs u v o small h =
    elim (claim_next_cases (validate_rx_descriptor d) taken u
      (λ a. claim_frames ds (taken ++ a ∷ []) (take_frame a u)) (claimed addrs v) h) [
        | inl (err, w, e, same) ↦ cc
        | inr (a, t, e) ↦
            let longer = length-append taken (a ∷ []) in
            let (out, same, count) =
              claim_frames-Out ds (taken ++ a ∷ []) addrs (take_frame a u) v
                (Out-take taken a u o t.in_kernel (omega arith)) (omega (arith, longer)) e in
            (
              out,
              SameOwners-trans same
                  (roll_back_taken taken a u t.in_kernel (omega (arith, o.count))),
              omega (arith, count, longer),
            )
      ]

-- Each recycling of a frame that is out succeeds, and is one step of the roll-back.
pub recycle_frame-Out :
    (a : Address) (rest : List Address) (u : Umem)
    → length rest + 1 < 2 ^ 32
    → Out (a ∷ rest) u
    → (recycle_frame a u ≡ (give_back a u, recycled)) × Out rest (give_back a u)
unfolding recycle_frame give_back
recycle_frame-Out a rest u small o = (
  ground (arith, o.free (frame_of a), o.count),
  record {
    distinct = o.distinct.1;
    free = λ g h. ground (arith, o.free g, o.distinct.0);
    count = omega (arith, o.count);
  },
)
