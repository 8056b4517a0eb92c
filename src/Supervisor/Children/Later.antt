-- ===== src/Supervisor/Children/Later.antt =====
-- What the steps of a cleanup of experiment/ace-run.c keep: no child comes back, and whom they
-- signal.
use aceteam_bachelor_thesis.Prelude.{
  ℕ, ◌≡◌, inl, inr, refl, ◌∙◌, true, false, Bool-cases, not, ◌&&◌, List, [], ◌∷◌, ◌++◌, arith,
}
use aceteam_bachelor_thesis.Supervisor.Children.{
  Child, Kind, Signal, term, usr1, sigkill, Family, reap_child, reap, request_stop, killed_child,
}
use aceteam_bachelor_thesis.Supervisor.Waiting.{Status, Waited, ended, running, interrupted, failed}

abbrev pub target : Signal → ℕ
target (term i) = i
target (usr1 i) = i
target (sigkill i) = i

-- Signals to other children than the loader.
abbrev pub ToOthers : (ℕ → Kind) → List Signal → Type 0
ToOthers kind [] = Unit
ToOthers kind (x ∷ xs) = ((kind (target x)).loader ≡ false) × ToOthers kind xs

pub ToOthers-append :
    (kind : ℕ → Kind) (xs : List Signal) (x : Signal)
    → ToOthers kind xs
    → (kind (target x)).loader ≡ false
    → ToOthers kind (xs ++ x ∷ [])
ToOthers-append kind [] x h one = (one, tt)
ToOthers-append kind (y ∷ xs) x (head, h) one = (head, ToOthers-append kind xs x h one)

-- No child comes back.
pub record Later (s t : Family) : Type 0 where
  pub same_children : t.children ≡ s.children
  pub stays_done : (i : ℕ) → (s.child i).done ≡ true → (t.child i).done ≡ true

pub Later-refl : (s : Family) → Later s s
Later-refl s = record { same_children = refl; stays_done = λ i h. h }

pub Later-trans : {s t u : Family} → Later s t → Later t u → Later s u
Later-trans a b = record {
  same_children = b.same_children ∙ a.same_children;
  stays_done = λ i h. b.stays_done i (a.stays_done i h);
}

pub reap_child_done : (w : Waited) (c : Child) → c.done ≡ true → (reap_child w c).done ≡ true
unfolding reap_child
reap_child_done (ended status) c h = ground arith
reap_child_done running c h = h
reap_child_done interrupted c h = h
reap_child_done failed c h = ground arith

pub reap-Later : (answers : ℕ → Waited) (s : Family) → Later s (reap answers s)
unfolding reap
reap-Later answers s = record {
  same_children = refl;
  stays_done = λ i h. ground (arith, reap_child_done (answers i) (s.child i));
}

pub reap_log : (answers : ℕ → Waited) (s : Family) → (reap answers s).log ≡ s.log
unfolding reap
reap_log answers s = refl

pub request_stop-Later : (i : ℕ) (s : Family) → Later s (request_stop i s)
unfolding request_stop
request_stop-Later i s = elim (Bool-cases (not (s.child i).done && not (s.child i).stopping)) [
  | inl alive ↦ rw alive (record { same_children = refl; stays_done = λ j h. ground arith })
  | inr over ↦ rw over (Later-refl s)
]

pub killed_child-Later : (i : ℕ) (status : Status) (s : Family) → Later s (killed_child i status s)
killed_child-Later i status s = record { same_children = refl; stays_done = λ j h. ground arith }
