-- ===== src/Supervisor/Adopted/Rest.antt =====
-- `cleanup_adopted_children` of experiment/ace-run.c ends once no descendant is left, and signals
-- the listed descendants only.
use aceteam_bachelor_thesis.Prelude.{
  ℕ, zero, suc, ◌≡◌, ◌⊎◌, inl, inr, refl, sym, subst, ◌∙◌, Option, some, List, [], ◌∷◌, ◌++◌, Bool,
  true, false, Bool-cases, ◌==◌, length, take,
}
use aceteam_bachelor_thesis.Supervisor.Waiting.{
  Waited, ended, running, interrupted, failed, Returns, exited, wait_killed-Returns,
}
use aceteam_bachelor_thesis.Supervisor.Adopted.{
  Owned, Round, unreadable, owns, Sent, term, sigkill, wait_owned, end_owned, end_all, term_all,
  owned_of, cleanup_adopted_children,
}

-- A turn that finds the process ended or the time over.
abbrev pub Stops : List (Waited × Bool) → Type 0
Stops [] = ⊥
Stops ((ended status, over) ∷ turns) = Unit
Stops ((failed, over) ∷ turns) = Unit
Stops ((interrupted, over) ∷ turns) = Stops turns
Stops ((running, over) ∷ turns) = (over ≡ true) ⊎ Stops turns

abbrev pub AllStop : List Owned → Type 0
AllStop [] = Unit
AllStop (p ∷ ps) = Stops p.turns × Returns p.killed × AllStop ps

-- One of the rounds finds no descendant or no list, and all waits before it come to an end.
abbrev pub ComesToRest : List Round → Type 0
ComesToRest [] = ⊥
ComesToRest (unreadable ∷ rounds) = Unit
ComesToRest (owns listed ∷ rounds) = (listed ≡ []) ⊎ (AllStop listed × ComesToRest rounds)

abbrev pub AllOwned : (ℕ → Type 0) → List Owned → Type 0
AllOwned P [] = Unit
AllOwned P (p ∷ ps) = P p.pid × AllOwned P ps

-- The listed processes, and the targets of the signals.
abbrev pub AllListed : (ℕ → Type 0) → List Round → Type 0
AllListed P [] = Unit
AllListed P (unreadable ∷ rounds) = AllListed P rounds
AllListed P (owns listed ∷ rounds) = AllOwned P listed × AllListed P rounds

abbrev pub AllTargets : (ℕ → Type 0) → List Sent → Type 0
AllTargets P [] = Unit
AllTargets P (term pid ∷ log) = P pid × AllTargets P log
AllTargets P (sigkill pid ∷ log) = P pid × AllTargets P log

wait_owned-Stops :
    (turns : List (Waited × Bool)) → Stops turns → (runs : Bool) × (wait_owned turns ≡ some runs)
unfolding wait_owned
wait_owned-Stops [] h = absurd h
wait_owned-Stops ((ended status, over) ∷ turns) h = (false, refl)
wait_owned-Stops ((failed, over) ∷ turns) h = (false, refl)
wait_owned-Stops ((interrupted, over) ∷ turns) h = wait_owned-Stops turns h
wait_owned-Stops ((running, over) ∷ turns) h = elim (Bool-cases over) [
  | inl late ↦ rw late (true, refl)
  | inr early ↦ rw early (wait_owned-Stops turns (later h early))
]
  where
    later : (over ≡ true) ⊎ Stops turns → over ≡ false → Stops turns
    later (inl late) early = absurd (cc)
    later (inr stops) early = stops

module _ (P : ℕ → Type 0) where
  targets-append : (xs ys : List Sent) → AllTargets P xs → AllTargets P ys → AllTargets P (xs ++ ys)
  targets-append [] ys h g = g
  targets-append (term pid ∷ xs) ys (one, h) g = (one, targets-append xs ys h g)
  targets-append (sigkill pid ∷ xs) ys (one, h) g = (one, targets-append xs ys h g)

  term_all-AllTargets : (ps : List Owned) → AllOwned P ps → AllTargets P (term_all ps)
  unfolding term_all
  term_all-AllTargets [] h = tt
  term_all-AllTargets (p ∷ ps) (one, h) = (one, term_all-AllTargets ps h)

  -- A step that returns, and signals those processes only.
  abbrev Returned : Option (List Sent) → Type 0
  Returned o = (log : List Sent) × (o ≡ some log) × AllTargets P log

  end_owned-Returned :
      (p : Owned) (runs : Bool) (log : List Sent)
      → Returns p.killed
      → P p.pid
      → AllTargets P log
      → Returned (end_owned p runs log)
  unfolding end_owned
  end_owned-Returned p false log returns one h = (log, refl, h)
  end_owned-Returned p true log returns one h =
      let (status, e) = wait_killed-Returns p.killed (exited 0) returns in
      rw e (log ++ sigkill p.pid ∷ [], refl, targets-append log (sigkill p.pid ∷ []) h (one, tt))

  end_all-Returned :
      (ps : List Owned) (log : List Sent)
      → AllStop ps
      → AllOwned P ps
      → AllTargets P log
      → Returned (end_all ps log)
  unfolding end_all
  end_all-Returned [] log stops own h = (log, refl, h)
  end_all-Returned (p ∷ ps) log (stops, returns, rest) (one, own) h =
      let (runs, e) = wait_owned-Stops p.turns stops in
      let (log', e', h') = end_owned-Returned p runs log returns one h in
      rw (e, e') (end_all-Returned ps log' rest own h')

  take-AllOwned : (n : ℕ) (ps : List Owned) → AllOwned P ps → AllOwned P (take n ps)
  take-AllOwned zero ps h = tt
  take-AllOwned (suc n) [] h = tt
  take-AllOwned (suc n) (p ∷ ps) (one, h) = (one, take-AllOwned n ps h)

  take-AllStop : (n : ℕ) (ps : List Owned) → AllStop ps → AllStop (take n ps)
  take-AllStop zero ps h = tt
  take-AllStop (suc n) [] h = tt
  take-AllStop (suc n) (p ∷ ps) (one, two, h) = (one, two, take-AllStop n ps h)

  pub cleanup_adopted_children-Returned :
      (rounds : List Round) (log : List Sent)
      → ComesToRest rounds
      → AllListed P rounds
      → AllTargets P log
      → (log' : List Sent) × (cleanup_adopted_children rounds log ≡ some log') × AllTargets P log'
  unfolding cleanup_adopted_children
  cleanup_adopted_children-Returned [] log rest own h = absurd rest
  cleanup_adopted_children-Returned (unreadable ∷ rounds) log rest own h = (log, refl, h)
  cleanup_adopted_children-Returned (owns listed ∷ rounds) log (inl empty) own h =
      rw empty (log, refl, h)
  cleanup_adopted_children-Returned (owns listed ∷ rounds) log (inr (stops, rest)) (own, owns_) h =
      elim (Bool-cases (length (owned_of listed) == 0)) [
        | inl z ↦ rw z (log, refl, h)
        | inr n ↦
            let ps = owned_of listed in
            let own' = take-AllOwned 512 listed own in
            let (log', e, h') =
              end_all-Returned ps (log ++ term_all ps) (take-AllStop 512 listed stops) own'
                (targets-append log (term_all ps) h (term_all-AllTargets ps own')) in
            rw (n, e) (cleanup_adopted_children-Returned rounds log' rest owns_ h')
      ]

some_eq : {A : Type 0} (x y : A) → some x ≡ some y → x ≡ y
some_eq x y h = cc

-- The loop ends with one list of signals, whose targets have any property that the listed have.
pub cleanup_adopted_children_rest :
    (rounds : List Round)
    → ComesToRest rounds
    → (log : List Sent) × (cleanup_adopted_children rounds [] ≡ some log)
      × ((P : ℕ → Type 0) → AllListed P rounds → AllTargets P log)
cleanup_adopted_children_rest rounds rest =
    let (log, e, _) =
      cleanup_adopted_children-Returned (λ pid. Unit) rounds [] rest (all_listed rounds) tt in
    (
      log,
      e,
      λ P own.
          let (log', e', h) = cleanup_adopted_children-Returned P rounds [] rest own tt in
          subst (AllTargets P) (some_eq log' log (sym e' ∙ e)) h,
    )
  where
    all_owned : (ps : List Owned) → AllOwned (λ pid. Unit) ps
    all_owned [] = tt
    all_owned (p ∷ ps) = (tt, all_owned ps)

    all_listed : (rounds : List Round) → AllListed (λ pid. Unit) rounds
    all_listed [] = tt
    all_listed (unreadable ∷ rounds) = all_listed rounds
    all_listed (owns listed ∷ rounds) = (all_owned listed, all_listed rounds)
