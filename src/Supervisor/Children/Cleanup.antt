-- ===== src/Supervisor/Children/Cleanup.antt =====
-- The cleanup of experiment/ace-run.c ends, and stops the loader after all other children.
use aceteam_bachelor_thesis.Prelude.{
  ℕ, ◌+◌, ◌≡◌, ◌≤◌, ◌<◌, ◌⊎◌, Bool, true, false, Option, some, List, [], ◌∷◌, ◌>>=◌,
}
use aceteam_bachelor_thesis.Supervisor.Children.{
  Kind, Family, Poll, Wait, family_of, stop_others, cleanup_children,
}
use aceteam_bachelor_thesis.Supervisor.Waiting.{Returns}
use aceteam_bachelor_thesis.Supervisor.Adopted.{Round, Sent}
use aceteam_bachelor_thesis.Supervisor.Adopted.Rest.{AllListed, AllTargets}
use aceteam_bachelor_thesis.Supervisor.Children.Later.{ToOthers, Later}

-- One of the turns finds the time over, and waitpid behind a SIGKILL returns.
abbrev pub HasEnd : List Poll → Type 0
HasEnd [] = ⊥
HasEnd (p ∷ ps) = Returns p.killed × ((p.timed_out ≡ true) ⊎ HasEnd ps)

module _ (kind : ℕ → Kind) where
  -- A step for a child that is not the loader sends no signal to the loader.
  abbrev Spares : ℕ → Family → Family → Type 0
  Spares i s t = (kind i).loader ≡ false → ToOthers kind s.log → ToOthers kind t.log

  -- The end of a wait for `i`.
  abbrev Waits : ℕ → Family → Option Family → Type 0
  Waits i s o = (t : Family) × (o ≡ some t) × Later s t × ((t.child i).done ≡ true) × Spares i s t

  abbrev family : Option Wait → Option Family
  family o = o >>= λ w. some (family_of w)

  module _ (polls : ℕ → List Poll) (ends : (i : ℕ) → HasEnd (polls i)) where
    -- The children from `i` on, `n` of them, of which those of one sort are done.
    abbrev Done : Bool → ℕ → ℕ → Family → Type 0
    Done loader n i t =
        (j : ℕ) → i ≤ j → j < i + n → (kind j).loader ≡ loader → (t.child j).done ≡ true

  -- A step that no child comes back in, with signals to others only.
  abbrev Calm : Family → Family → Type 0
  Calm s t = Later s t × ToOthers kind t.log

-- The state before the loaders are stopped, and at the end, with the signals to the adopted
-- descendants: whatever holds of all that are listed in the rounds holds of the signals' targets.
pub record Cleaned (kind : ℕ → Kind) (polls : ℕ → List Poll) (rounds : List Round) (s : Family)
    : Type 1 where
  pub before_loaders : Family
  pub at_end : Family
  pub adopted : List Sent
  pub others_stopped : stop_others kind polls s ≡ some before_loaders
  pub others_done :
      (j : ℕ) → j < s.children → (kind j).loader ≡ false → (before_loaders.child j).done ≡ true
  pub loaders_spared : ToOthers kind before_loaders.log
  pub ends : cleanup_children kind polls rounds s ≡ some (at_end, adopted)
  pub all_done : (j : ℕ) → j < s.children → (at_end.child j).done ≡ true
  pub own_only : (P : ℕ → Type 0) → AllListed P rounds → AllTargets P adopted
