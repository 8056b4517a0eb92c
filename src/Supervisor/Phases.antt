-- ===== src/Supervisor/Phases.antt =====
-- The two supervisors of a run (experiment/ace-run.c) accept a frame of each other exactly in the
-- same phase of the same run.
use aceteam_bachelor_thesis.Prelude.{
  ℕ, suc, ◌-◌, ◌^◌, ◌≡◌, ◌≢◌, ◌<◌, ◌↔◌, inl, inr, refl, sym, subst, ◌∙◌, true, false, Bool-cases,
  List, ◌++◌, ◌==◌, arith, if◌then◌else◌, length,
}
use aceteam_bachelor_thesis.Supervisor.{
  Context, hello, zeros, padded, frame_bytes, field, has_zero, all_zero, is_of_run, take_nonce,
  is_of_session, receive_frame,
}
use aceteam_bachelor_thesis.Supervisor.Fields.{
  all_zero-zeros, c_text-append, has_zero-append, same_bytes_iff, IsContext, magic_read,
  version_read, type_read, index_read, nonce_read, digest_read, run_id_read, reserved_read,
}

has_zero-padded : (n : ℕ) (text : List ℕ) → length text < n → has_zero (padded n text) ≡ true
has_zero-padded n text fits =
    let room : n - length text ≡ suc (n - length text - 1) = omega arith in
    subst (λ k. has_zero (text ++ zeros k) ≡ true) (sym room)
      (has_zero-append text (n - length text - 1))

-- Two contexts of the same position of the same run.
abbrev pub SameRun : Context → Context → Type 0
SameRun x y = (x.index ≡ y.index) × (x.digest ≡ y.digest) × (x.run_id ≡ y.run_id)

is_of_run-frame :
    (x y : Context) (type : ℕ)
    → IsContext x
    → type < 2 ^ 32
    → (is_of_run y (frame_bytes x type) ≡ true) ↔ SameRun x y
unfolding is_of_run
is_of_run-frame x y type valid fits =
    let (digest_to, digest_from) = same_bytes_iff x.digest y.digest in
    let (run_id_to, run_id_from) = same_bytes_iff x.run_id y.run_id in
    rw
      (
        magic_read x type valid fits,
        version_read x type valid fits,
        index_read x type valid fits,
        digest_read x type valid fits,
        run_id_read x type valid fits,
        has_zero-padded 65 x.digest valid.digest_fits,
        has_zero-padded 128 x.run_id valid.run_id_fits,
        c_text-append x.digest (65 - length x.digest) valid.digest_text,
        c_text-append x.run_id (128 - length x.run_id) valid.run_id_text,
      )
      (
        (λ h. (ground arith, digest_to (ground arith), run_id_to (ground arith))),
        (λ (i, d, r).
            let same_digest = digest_from d in let same_run = run_id_from r in ground arith),
      )

-- The same phase of the same run, and of the same session behind the first phase.
abbrev pub InStep : Context → ℕ → Context → ℕ → Type 0
InStep x sent y expected = SameRun x y × (sent ≡ expected) × (expected ≢ hello → x.nonce ≡ y.nonce)

is_of_session-frame :
    (x y : Context) (sent expected : ℕ)
    → IsContext x
    → sent < 2 ^ 32
    → (is_of_session y expected (frame_bytes x sent) ≡ true)
      ↔ (expected ≢ hello → x.nonce ≡ y.nonce)
unfolding is_of_session
is_of_session-frame x y sent expected valid fits =
    let (to, from) = same_bytes_iff x.nonce y.nonce in
    rw (nonce_read x sent valid fits) (elim (Bool-cases (expected == hello)) [
      | inl first ↦ rw first ((λ h later. absurd (later (ground arith))), (λ h. refl))
      | inr later ↦ rw later ((λ h no_hello. to h), (λ h. from (h (λ e. ground arith))))
    ])

nonce_taken :
    (x y : Context) (sent expected : ℕ)
    → IsContext x
    → sent < 2 ^ 32
    → (expected ≢ hello → x.nonce ≡ y.nonce)
    → (take_nonce y expected (frame_bytes x sent)).nonce ≡ (if y.receiver then y.nonce else x.nonce)
unfolding take_nonce
nonce_taken x y sent expected valid fits same =
    let read = nonce_read x sent valid fits in
    elim (Bool-cases y.receiver) [
      | inl here ↦ simp here (elim (Bool-cases (expected == hello)) [
        | inl first ↦ simp first refl
        | inr later ↦ simp later refl
      ])
      | inr there ↦ elim (Bool-cases (expected == hello)) [
        | inl first ↦ simp (first, there) read
        | inr later ↦ simp (later, there) (sym (same (λ e. ground arith)))
      ]
    ]

-- A frame that a supervisor sends for a phase is accepted by its peer, which expects a phase, if
-- and only if the two are in step: they are at the same position of the same run, with the same
-- configuration digest, the phase is the same, and, in every phase but the first, so is the nonce.
-- The sender's side then has the nonce of the frame, also behind the first phase; the receiver's
-- side keeps its own. The fields of the sending context fit the frame.
pub receive_frame-frame_bytes :
    (x y : Context) (sent expected : ℕ)
    → IsContext x
    → sent < 2 ^ 32
    → (((receive_frame y expected (frame_bytes x sent)).1 ≡ true) ↔ InStep x sent y expected)
      × (InStep x sent y expected
          → (receive_frame y expected (frame_bytes x sent)).0.nonce
            ≡ (if y.receiver then y.nonce else x.nonce))
unfolding receive_frame take_nonce
receive_frame-frame_bytes x y sent expected valid fits =
    let f = frame_bytes x sent in
    let (run_to, run_from) = is_of_run-frame x y sent valid fits in
    let (session_to, session_from) = is_of_session-frame x y sent expected valid fits in
    let clear : all_zero (field f 225 31) ≡ true =
      rw (reserved_read x sent valid fits) (all_zero-zeros 31) in
    elim (Bool-cases (is_of_run y f)) [
      | inr other ↦
          simp (other, clear)
            (
              (
                λ h. absurd (cc),
                λ (run, phase, nonce). absurd (false_true (sym other ∙ run_from run)),
              ),
              λ (run, phase, nonce). absurd (false_true (sym other ∙ run_from run)),
            )
      | inl ours ↦ elim (Bool-cases (is_of_session y expected f)) [
        | inr stale ↦
            simp (ours, clear, stale)
              (
                (
                  λ h. absurd (cc),
                  λ (run, phase, nonce). absurd (false_true (sym stale ∙ session_from nonce)),
                ),
                λ (run, phase, nonce). absurd (false_true (sym stale ∙ session_from nonce)),
              )
        | inl fresh ↦
            simp (ours, clear, fresh, type_read x sent valid fits)
              (
                (
                  λ h. (run_to ours, ground arith, session_to fresh),
                  λ (run, phase, nonce). ground arith,
                ),
                λ (run, phase, nonce). nonce_taken x y sent expected valid fits nonce,
              )
      ]
    ]
  where
    false_true : ¬ (false ≡ true)
    false_true h = cc
