-- ===== src/Supervisor/Adopted.antt =====
-- `cleanup_adopted_children` of experiment/ace-run.c: the descendants that the supervisor has become
-- the parent of. Each round of its loop reads their list, which is a value of `Round`.
pub mod Rest
use aceteam_bachelor_thesis.Prelude.{
  ℕ, Option, none, some, List, [], ◌∷◌, ◌++◌, Bool, true, false, ◌==◌, if◌then◌else◌, ◌>>=◌, length,
  take,
}
use aceteam_bachelor_thesis.Supervisor.Waiting.{
  Status, exited, Waited, ended, running, interrupted, failed, Reaped, wait_killed,
}

-- A PID of the list, what waitpid and the clock answer for it, turn for turn, and what waitpid
-- answers behind a SIGKILL. The list holds the PIDs above 0.
pub record Owned : Type 0 where
  pub pid : ℕ
  pub turns : List (Waited × Bool)
  pub killed : List Reaped

-- The list, or `unreadable` if it cannot be opened.
pub data Round : Type 0 where
  unreadable : Round
  owns : List Owned → Round

-- kill, with the PID.
pub data Sent : Type 0 where
  term : ℕ → Sent
  sigkill : ℕ → Sent

-- The waitpid loop up to its break: whether the process still runs. `none` waits behind the turns.
unfoldable pub wait_owned : List (Waited × Bool) → Option Bool
wait_owned [] = none
wait_owned ((ended status, over) ∷ turns) = some false
wait_owned ((failed, over) ∷ turns) = some false
wait_owned ((interrupted, over) ∷ turns) = wait_owned turns
wait_owned ((running, over) ∷ turns) = if over then some true else wait_owned turns

-- SIGKILL for a process that still runs; its status is not used.
unfoldable pub end_owned : Owned → Bool → List Sent → Option (List Sent)
end_owned p false log = some log
end_owned p true log =
    wait_killed p.killed (exited 0) >>= λ status. some (log ++ sigkill p.pid ∷ [])

unfoldable pub end_all : List Owned → List Sent → Option (List Sent)
end_all [] log = some log
end_all (p ∷ ps) log = do runs ← wait_owned p.turns; log' ← end_owned p runs log; end_all ps log'

unfoldable pub term_all : List Owned → List Sent
term_all [] = []
term_all (p ∷ ps) = term p.pid ∷ term_all ps

-- The array of the PIDs has 512 places.
abbrev pub owned_of : List Owned → List Owned
owned_of listed = take 512 listed

-- The signals that were sent; `none` waits behind the given rounds.
unfoldable pub cleanup_adopted_children : List Round → List Sent → Option (List Sent)
cleanup_adopted_children [] log = none
cleanup_adopted_children (unreadable ∷ rounds) log = some log
cleanup_adopted_children (owns listed ∷ rounds) log =
    let rest =
      end_all (owned_of listed) (log ++ term_all (owned_of listed))
      >>= cleanup_adopted_children rounds in
    if length (owned_of listed) == 0 then some log else rest
