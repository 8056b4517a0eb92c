-- ===== src/Loader/Detach.antt =====
-- BPF/xdp_loader.c, `detach_if_owned`: the interface's program is taken off only by its identity.
-- What libbpf's two calls answer is a parameter: bpf_xdp_query_id gives the id of the attached
-- program, 0 for none, and bpf_xdp_detach with `old_prog_fd` leaves another program alone.
use aceteam_bachelor_thesis.Prelude.{
  ℕ, ◌≡◌, ◌≢◌, inl, inr, refl, Bool-cases, not, ◌==◌, ==_iff, arith, if◌then◌else◌,
}

abbrev pub estale : ℕ
estale = 116

-- 0 and the id, or the error number.
pub data Query : Type 0 where
  attached : ℕ → Query
  query_error : ℕ → Query

-- An interface under the driver's XDP mode.
pub record Interface : Type 1 where
  pub State : Type 0
  pub query : State → Query
  pub detach : State → State × ℕ
  pub query_errno : (s : State) (e : ℕ) → query s ≡ query_error e → e ≢ 0
  pub detach_failed : (s : State) → (detach s).1 ≢ 0 → (detach s).0 ≡ s
  pub query-detach : (s : State) → (detach s).1 ≡ 0 → query (detach s).0 ≡ attached 0

module _ (interface : Interface) where
  open interface use {State, query, detach, query_errno, detach_failed, query-detach}

  detach_queried : Query → State → ℕ → State × ℕ
  detach_queried (query_error e) s owned_id = (s, e)
  detach_queried (attached current_id) s owned_id =
      if current_id == 0
      then (s, 0)
      else if not (current_id == owned_id)
      then (s, estale)
      else detach s

  -- The state, and 0 or the error number.
  unfoldable pub detach_if_owned : State → ℕ → State × ℕ
  unfolding detach_queried
  detach_if_owned s owned_id = detach_queried (query s) s owned_id

  detach_queried_lem :
      (q : Query) (s : State) (owned_id : ℕ)
      → query s ≡ q
      → let r = detach_queried q s owned_id in
        ((r.1 ≡ 0) → (query r.0 ≡ attached 0))
        × ((r.1 ≢ 0) → (r.0 ≡ s))
        × ((query s ≢ attached owned_id) → (r.0 ≡ s))
  unfolding detach_queried
  detach_queried_lem (query_error e) s owned_id h =
      (λ z. absurd (query_errno s e h z), λ z. refl, λ z. refl)
  detach_queried_lem (attached current_id) s owned_id h = elim (Bool-cases (current_id == 0)) [
    | inl x ↦ rw x (λ z. rw h (rw ((==_iff current_id 0).0 x) refl), λ z. refl, λ z. refl)
    | inr x ↦ rw x (elim (Bool-cases (current_id == owned_id)) [
      | inl y ↦ rw y (
        query-detach s,
        detach_failed s,
        λ other. absurd (other (rw h (rw ((==_iff current_id owned_id).0 y) refl))),
      )
      | inr y ↦ rw y (λ z. absurd (omega (arith, z)), λ z. refl, λ z. refl)
    ])
  ]

  -- When `detach_if_owned` returns 0, the interface has no program; when it returns an error, and
  -- whenever the attached program is not the owned one, the interface is as it was.
  pub detach_if_owned_lem :
      (s : State) (owned_id : ℕ)
      → let r = detach_if_owned s owned_id in
        ((r.1 ≡ 0) → (query r.0 ≡ attached 0))
        × ((r.1 ≢ 0) → (r.0 ≡ s))
        × ((query s ≢ attached owned_id) → (r.0 ≡ s))
  unfolding detach_if_owned
  detach_if_owned_lem s owned_id = detach_queried_lem (query s) s owned_id refl
