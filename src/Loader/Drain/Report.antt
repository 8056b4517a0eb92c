-- ===== src/Loader/Drain/Report.antt =====
-- The end of `wait_for_cpumap_records` in BPF/xdp_loader.c: that it comes, and what it reports.
use aceteam_bachelor_thesis.Prelude.{
  ℕ, zero, suc, ◌+◌, ◌-◌, ◌*◌, ◌%◌, ◌^◌, ◌≤◌, ◌<◌, ◌≡◌, ◌≢◌, inl, inr, refl, sym, ap, subst, Bool,
  true, false, ◌&&◌, Bool-cases, Option, some, ltb, leb, le→leb, ◌==◌, arith,
}
use aceteam_bachelor_thesis.Abi.Stat
use aceteam_bachelor_thesis.Loader.Drain.{
  Lookup, values, missing, add_values, total, lookup_stat_total, DrainReport, Drained, reported,
  gave_up, unreported, Watch, Step, stop, again, watch, judge, with_total, after_step, stat_total,
  poll_round, poll, first_watch, wait_for_cpumap_records,
}

module _ (counter : ℕ → ℕ → Lookup) where
  -- The counters at the time `elapsed`: the requests, and the sum of the four outcomes.
  pub record Reads (elapsed requested terminal : ℕ) : Type 0 where
    pub recorded : ℕ
    pub duplicate : ℕ
    pub update_error : ℕ
    pub invalid : ℕ
    pub recorded_read : stat_total counter elapsed Stat.cpumap_recorded ≡ total recorded
    pub duplicate_read : stat_total counter elapsed Stat.cpumap_duplicate ≡ total duplicate
    pub update_error_read : stat_total counter elapsed Stat.cpumap_update_error ≡ total update_error
    pub invalid_read : stat_total counter elapsed Stat.cpumap_meta_invalid ≡ total invalid
    pub requested_read : stat_total counter elapsed Stat.cpumap ≡ total requested
    pub sum : terminal ≡ (recorded + duplicate + update_error + invalid) % 2 ^ 64

  -- A report made at the time `elapsed`.
  pub record Justified (r : DrainReport) : Type 0 where
    pub elapsed : ℕ
    pub in_window : (100 ≤ elapsed) × (elapsed ≤ 5000)
    pub steady : (k : ℕ) → k ≤ 10 → Reads (elapsed - 10 * k) r.requested r.terminal
    pub balance : r.requested ≡ r.terminal + r.unobserved
    pub losses_last : r.unobserved ≢ 0 → elapsed ≡ 5000

  unfoldable pub IsSound : Drained → Type 0
  IsSound (reported r) = Justified r
  IsSound (gave_up e) = e ≢ 0
  IsSound unreported = ⊥

  History : ℕ → Watch → Type 0
  History e w =
      (k : ℕ)
      → k ≤ w.stable_snapshots
      → 10 * suc k ≤ e
      → Reads (e - 10 * suc k) w.previous_requested w.previous_terminal

  Recent : ℕ → ℕ → ℕ → ℕ → Type 0
  Recent e r t stable = (k : ℕ) → k ≤ stable → 10 * k ≤ e → Reads (e - 10 * k) r t

  watch-Recent :
      (e r t : ℕ) (w : Watch)
      → History e w
      → Reads e r t
      → Recent e r t (watch e r t w).stable_snapshots
  unfolding watch History Recent
  watch-Recent e r t w old now zero le room = subst (λ x. Reads x r t) (omega arith) now
  watch-Recent e r t w old now (suc k) le room =
      elim (Bool-cases (r == w.previous_requested && t == w.previous_terminal)) [
        | inl same ↦
            let before = old k (omega (arith, rw same at le)) (omega arith) in
            subst (λ x. Reads (e - 10 * suc k) x t) (sym (ground arith))
              (subst (λ x. Reads (e - 10 * suc k) w.previous_requested x) (sym (ground arith))
                before)
        | inr differs ↦ absurd (omega (arith, rw differs at le))
      ]

  Fine : ℕ → Step → Type 0
  unfolding IsSound
  Fine e (stop r) = IsSound r
  Fine e (again w) = (e ≢ 5000) × History (e + 10) w

  again-History :
      (e r t : ℕ) (w : Watch)
      → Recent e r t w.stable_snapshots
      → History (e + 10) (record w { previous_requested = r; previous_terminal = t })
  unfolding History Recent
  again-History e r t w now k le room =
      subst (λ x. Reads x r t) (omega arith) (now k le (omega arith))

  judge-Fine :
      (e r t : ℕ) (w : Watch) → e ≤ 5000 → Recent e r t w.stable_snapshots → Fine e (judge e r t w)
  unfolding judge Fine Recent
  judge-Fine e r t w le now = elim (Bool-cases (r == t && leb 100 e && leb 10 w.stable_snapshots)) [
    | inl balanced ↦ rw balanced (record {
      elapsed = e;
      in_window = (ground arith, le);
      steady = λ k small. now k (ground arith) (ground arith);
      balance = ground arith;
      losses_last = λ x. absurd (x refl);
    })
    | inr unbalanced ↦ rw unbalanced (elim (Bool-cases (e == 5000)) [
      | inr early ↦ rw early (ground arith, again-History e r t w now)
      | inl last ↦
          rw last
            (elim (Bool-cases
              (ltb t r && leb 1000 (e - w.last_change_ms) && leb 10 w.stable_snapshots)) [
                | inl quiet ↦ rw quiet (record {
                  elapsed = e;
                  in_window = (ground arith, le);
                  steady = λ k small. now k (ground arith) (ground arith);
                  balance = ground arith;
                  losses_last = λ x. ground arith;
                })
                | inr restless ↦ rw restless (λ z. omega arith)
              ])
    ])
  ]

  module _ (errno : (e id err : ℕ) → counter e id ≡ missing err → err ≢ 0) where
    -- A counter that cannot be read ends the wait with the error number.
    with_total-Fine :
        (e id : ℕ) (next : ℕ → Step)
        → ((n : ℕ) → stat_total counter e id ≡ total n → Fine e (next n))
        → Fine e (with_total (stat_total counter e id) next)
    unfolding lookup_stat_total Fine IsSound
    with_total-Fine e id next fine = go (counter e id) refl
      where
        go : (x : Lookup) → counter e id ≡ x → Fine e (with_total (lookup_stat_total x) next)
        go (values vs) h = fine (add_values 0 vs) (ap lookup_stat_total h)
        go (missing err) h = errno e id err h

    round-Fine : (e : ℕ) (w : Watch) → e ≤ 5000 → History e w → Fine e (poll_round counter e w)
    unfolding poll_round
    round-Fine e w le old = with_total-Fine e Stat.cpumap_recorded _ (λ recorded recorded_read.
        with_total-Fine e Stat.cpumap_duplicate _ (λ duplicate duplicate_read.
          with_total-Fine e Stat.cpumap_update_error _ (λ update_error update_error_read.
            with_total-Fine e Stat.cpumap_meta_invalid _ (λ invalid invalid_read.
              with_total-Fine e Stat.cpumap _ (λ requested requested_read.
                let t = (recorded + duplicate + update_error + invalid) % 2 ^ 64 in
                let reads : Reads e requested t = record {
                  recorded = recorded;
                  duplicate = duplicate;
                  update_error = update_error;
                  invalid = invalid;
                  recorded_read = recorded_read;
                  duplicate_read = duplicate_read;
                  update_error_read = update_error_read;
                  invalid_read = invalid_read;
                  requested_read = requested_read;
                  sum = refl;
                } in
                judge-Fine e requested t (watch e requested t w) le
                  (watch-Recent e requested t w old reads))))))

    after_step-IsSound :
        (e : ℕ) (x : Step) (next : Watch → Option Drained)
        → Fine e x
        → ((w : Watch)
            → e ≢ 5000
            → History (e + 10) w
            → (r : Drained) × (next w ≡ some r) × IsSound r)
        → (r : Drained) × (after_step x next ≡ some r) × IsSound r
    unfolding Fine
    after_step-IsSound e (stop r) next fine rest = (r, refl, fine)
    after_step-IsSound e (again w) next (early, history) rest = rest w early history

    poll-IsSound :
        (fuel e : ℕ) (w : Watch)
        → e + 10 * fuel ≡ 5010
        → 0 < fuel
        → History e w
        → (r : Drained) × (poll counter fuel e w ≡ some r) × IsSound r
    unfolding poll
    poll-IsSound zero e w sum more old = absurd (omega arith)
    poll-IsSound (suc fuel) e w sum more old = rw (le→leb e 5000 (omega arith)) (
        after_step-IsSound e (poll_round counter e w) (poll counter fuel (e + 10))
          (round-Fine e w (omega arith) old)
          (λ w' early history. poll-IsSound fuel (e + 10) w' (omega arith) (omega arith) history))

    -- The wait for the CPUMAP's records comes to an end within its 501 rounds whatever the counters
    -- hold, when a counter that cannot be read has an error number other than 0. It ends with an
    -- error other than 0, or with a report, and never with 0 and no report. A report's two counts
    -- are what eleven rounds in succession read, the last of them between 100 and 5000 ms: the
    -- requests, and the sum of the four outcomes modulo 2 ^ 64. The requests are the outcomes and
    -- the unobserved packets together, and there are unobserved packets only at 5000 ms.
    pub wait_for_cpumap_records-IsSound :
        (ncpu : ℕ) (allocated : Bool)
        → (r : Drained) × (wait_for_cpumap_records counter ncpu allocated ≡ some r) × IsSound r
    unfolding wait_for_cpumap_records IsSound History
    wait_for_cpumap_records-IsSound ncpu true = elim (Bool-cases (ltb ncpu 1)) [
      | inl none_there ↦ rw none_there (gave_up 22, refl, λ z. omega arith)
      | inr some_there ↦
          rw some_there
            (poll-IsSound 501 0 first_watch refl (omega arith) (λ k le room. absurd (omega arith)))
    ]
    wait_for_cpumap_records-IsSound ncpu false = elim (Bool-cases (ltb ncpu 1)) [
      | inl none_there ↦ rw none_there (gave_up 22, refl, λ z. omega arith)
      | inr some_there ↦ rw some_there (gave_up 12, refl, λ z. omega arith)
    ]
