-- ===== src/Supervisor/Children.antt =====
-- The children of a run in experiment/ace-run.c: `reap`, `request_stop`, `wait_child` and
-- `cleanup_children`, over the children that are in the array. What a turn of a wait meets is a
-- value of `Poll`.
pub mod Later
pub mod Cleanup
use aceteam_bachelor_thesis.Prelude.{
  ℕ, zero, suc, ◌+◌, Bool, true, false, not, ◌&&◌, ◌||◌, Option, none, some, List, [], ◌∷◌, ◌++◌,
  ltb, ◌==◌, if◌then◌else◌, ◌>>=◌,
}
use aceteam_bachelor_thesis.Supervisor.Waiting.{
  Status, exited, signaled, Waited, ended, running, interrupted, failed, Reaped, wait_killed,
}
use aceteam_bachelor_thesis.Supervisor.Adopted.{Round, Sent, cleanup_adopted_children}

-- The fields of `struct child` that change.
pub record Child : Type 0 where
  pub done : Bool
  pub status : Status
  pub stopping : Bool

-- What does not: whether it is the loader, an external load, a child that must not end by itself,
-- or one that waits at the completion barrier.
pub record Kind : Type 0 where
  pub loader : Bool
  pub external_load : Bool
  pub persistent : Bool
  pub barrier : Bool

-- kill, with the index of the child.
pub data Signal : Type 0 where
  term : ℕ → Signal
  usr1 : ℕ → Signal
  sigkill : ℕ → Signal

pub record Family : Type 0 where
  pub children : ℕ
  pub child : ℕ → Child
  pub log : List Signal

unfoldable pub reap_child : Waited → Child → Child
reap_child (ended status) c = if c.done then c else record c { done = true; status = status }
reap_child running c = c
reap_child interrupted c = c
reap_child failed c = if c.done then c else record c { done = true; status = exited 1 }

abbrev pub is_success : Status → Bool
is_success (exited n) = n == 0
is_success (signaled n) = false

-- The children are static but for their states.
module _ (kind : ℕ → Kind) where
  unfoldable pub has_failed : ℕ → Child → Bool
  has_failed i c = c.done && not c.stopping && ((kind i).persistent || not (is_success c.status))

  abbrev pub any_failed : ℕ → (ℕ → Child) → Bool
  any_failed zero child = false
  any_failed (suc n) child = any_failed n child || has_failed n (child n)

unfoldable pub reap : (ℕ → Waited) → Family → Family
reap answers s = record s {
  child = λ i. if ltb i s.children then reap_child (answers i) (s.child i) else s.child i;
}

abbrev pub set_child : ℕ → Child → Family → Family
set_child i c s = record s { child = λ j. if j == i then c else s.child j }

abbrev pub send : Signal → Family → Family
send signal s = record s { log = s.log ++ signal ∷ [] }

unfoldable pub request_stop : ℕ → Family → Family
request_stop i s =
    if not (s.child i).done && not (s.child i).stopping
    then send (term i) (set_child i (record (s.child i) { stopping = true }) s)
    else s

-- The stop flag, what waitpid answers for each child, whether the time is over, and what waitpid
-- answers behind a SIGKILL.
pub record Poll : Type 0 where
  pub stop : Bool
  pub answers : ℕ → Waited
  pub timed_out : Bool
  pub killed : List Reaped

-- The end of a wait: the child is done, its time is over, or the wait is given up.
pub data Wait : Type 0 where
  is_done : Family → Wait
  timed_out : Family → Wait
  given_up : Family → Wait

abbrev pub killed_child : ℕ → Status → Family → Family
killed_child i status s =
    send (sigkill i) (set_child i (record { done = true; status = status; stopping = true }) s)

unfoldable pub kill_child : ℕ → List Reaped → Family → Option Family
kill_child i answers s = do
  status ← wait_killed answers (s.child i).status
  some (killed_child i status s)

-- A turn of the loop, with the rest of the loop.
unfoldable pub wait_turn :
    (ℕ → Kind) → ℕ → Bool → Poll → Family → (Family → Option Wait) → Option Wait
wait_turn kind i cleanup p s next =
    let t = reap p.answers s in
    if not cleanup && p.stop
    then some (given_up s)
    else if not cleanup && any_failed kind t.children t.child
    then some (given_up t)
    else if (t.child i).done
    then some (is_done t)
    else if p.timed_out
    then kill_child i p.killed t >>= (λ k. some (timed_out k))
    else next t

-- The loop; `none` waits behind the given turns.
unfoldable pub wait_loop : (ℕ → Kind) → ℕ → Bool → List Poll → Family → Option Wait
wait_loop kind i cleanup [] s = if (s.child i).done then some (is_done s) else none
wait_loop kind i cleanup (p ∷ ps) s =
    if (s.child i).done
    then some (is_done s)
    else wait_turn kind i cleanup p s (wait_loop kind i cleanup ps)

-- Whether a child that is done has ended as it should: 0, or as an external load ends when it is
-- stopped. 15 is SIGTERM.
unfoldable pub ended_well : Kind → Bool → Status → Bool
ended_well k stopping (exited n) = n == 0 || (k.external_load && stopping && n == 130)
ended_well k stopping (signaled n) = k.external_load && stopping && n == 15

-- What the caller of a cleanup goes on with.
abbrev pub family_of : Wait → Family
family_of (is_done s) = s
family_of (timed_out s) = s
family_of (given_up s) = s

unfoldable pub wait_child : (ℕ → Kind) → (ℕ → List Poll) → ℕ → Family → Option Family
wait_child kind polls i s = do w ← wait_loop kind i true (polls i) s; some (family_of w)

-- The loops of the cleanup over the children from `i` on, `n` of them.
unfoldable pub request_others : (ℕ → Kind) → ℕ → ℕ → Family → Family
request_others kind zero i s = s
request_others kind (suc n) i s =
    request_others kind n (suc i) (if (kind i).loader then s else request_stop i s)

unfoldable pub release_barriers : (ℕ → Kind) → ℕ → ℕ → Family → Family
release_barriers kind zero i s = s
release_barriers kind (suc n) i s =
    release_barriers kind n (suc i)
      (if (kind i).barrier && not (s.child i).done then send (usr1 i) s else s)

unfoldable pub wait_others : (ℕ → Kind) → (ℕ → List Poll) → ℕ → ℕ → Family → Option Family
wait_others kind polls zero i s = some s
wait_others kind polls (suc n) i s = do
  t ← if (kind i).loader then some s else wait_child kind polls i s
  wait_others kind polls n (suc i) t

unfoldable pub stop_loaders : (ℕ → Kind) → (ℕ → List Poll) → ℕ → ℕ → Family → Option Family
stop_loaders kind polls zero i s = some s
stop_loaders kind polls (suc n) i s = do
  t ← if (kind i).loader then wait_child kind polls i (request_stop i s) else some s
  stop_loaders kind polls n (suc i) t

-- `cleanup_children` up to the loaders.
unfoldable pub stop_others : (ℕ → Kind) → (ℕ → List Poll) → Family → Option Family
stop_others kind polls s =
    wait_others kind polls s.children 0
      (release_barriers kind s.children 0 (request_others kind s.children 0 s))

-- The children, and the signals to the adopted descendants behind them.
unfoldable pub cleanup_children :
    (ℕ → Kind) → (ℕ → List Poll) → List Round → Family → Option (Family × List Sent)
cleanup_children kind polls rounds s = do
  t ← stop_others kind polls s
  u ← stop_loaders kind polls t.children 0 t
  log ← cleanup_adopted_children rounds []
  some (u, log)
