-- ===== src/Supervisor/Waiting.antt =====
-- What waitpid answers to experiment/ace-run.c, and its loops `while (waitpid(...) < 0 && errno ==
-- EINTR) {}` behind a SIGKILL.
use aceteam_bachelor_thesis.Prelude.{ℕ, Option, none, some, List, [], ◌∷◌, ◌≡◌, refl}

-- A status of waitpid: WEXITSTATUS, or WTERMSIG.
pub data Status : Type 0 where
  exited : ℕ → Status
  signaled : ℕ → Status

-- waitpid with WNOHANG: the child has ended, it is running, or an error, EINTR or another.
pub data Waited : Type 0 where
  ended : Status → Waited
  running : Waited
  interrupted : Waited
  failed : Waited

-- waitpid without WNOHANG: the child has ended, or an error, EINTR or another.
pub data Reaped : Type 0 where
  reaped : Status → Reaped
  again : Reaped
  lost : Reaped

-- The status behind the loop; an error leaves the old one. `none` waits behind the given answers.
unfoldable pub wait_killed : List Reaped → Status → Option Status
wait_killed [] old = none
wait_killed (reaped status ∷ answers) old = some status
wait_killed (again ∷ answers) old = wait_killed answers old
wait_killed (lost ∷ answers) old = some old

-- One of the answers is not EINTR.
abbrev pub Returns : List Reaped → Type 0
Returns [] = ⊥
Returns (reaped status ∷ answers) = Unit
Returns (again ∷ answers) = Returns answers
Returns (lost ∷ answers) = Unit

pub wait_killed-Returns :
    (answers : List Reaped) (old : Status)
    → Returns answers
    → (status : Status) × (wait_killed answers old ≡ some status)
unfolding wait_killed
wait_killed-Returns [] old h = absurd h
wait_killed-Returns (reaped status ∷ answers) old h = (status, refl)
wait_killed-Returns (again ∷ answers) old h = wait_killed-Returns answers old h
wait_killed-Returns (lost ∷ answers) old h = (old, refl)
