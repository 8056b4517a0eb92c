-- ===== src/RunConfig/Cpus/Bounds.antt =====
-- experiment/run_config.c, `run_parse_cpus`: the sets that it accepts, and its end.
use aceteam_bachelor_thesis.Prelude.{
  ℕ, zero, suc, ◌+◌, ◌-◌, ◌*◌, ◌≡◌, ◌<◌, ◌≤◌, inl, inr, refl, ap, subst, true, false, Bool-cases,
  List, [], ◌∷◌, Option, none, some, Option-cases, ltb, leb, ◌==◌, arith, if◌then◌else◌, ◌>>=◌,
  length,
}
use aceteam_bachelor_thesis.RunControl.Number.{is_digit}
use aceteam_bachelor_thesis.RunConfig.{CpuSet, cpu_zero, cpu_set}
use aceteam_bachelor_thesis.RunConfig.Cpus.{
  cpu_setsize, more_digits, parse_cpu, parse_last, add_range, after_entry, parse_entry,
  parse_entries, run_parse_cpus,
}

-- No CPU from CPU_SETSIZE on.
abbrev pub IsBounded : CpuSet → Type 0
IsBounded set = (n : ℕ) → set n ≡ true → n < cpu_setsize

-- The number is below CPU_SETSIZE, and `extra` bytes of the text at least are read.
abbrev Shorter : List ℕ → ℕ → Option (ℕ × List ℕ) → Type 0
Shorter text extra none = Unit
Shorter text extra (some (n, rest)) = (n < cpu_setsize) × (length rest + extra ≤ length text)

Shorter-cons :
    (c : ℕ) (cs : List ℕ) (extra : ℕ) (o : Option (ℕ × List ℕ))
    → Shorter cs 0 o
    → extra ≤ 1
    → Shorter (c ∷ cs) extra o
Shorter-cons c cs extra none h small = tt
Shorter-cons c cs extra (some (n, rest)) (lo, hi) small = (lo, omega arith)

more_digits-Shorter :
    (n : ℕ) (text : List ℕ) → n < cpu_setsize → Shorter text 0 (more_digits n text)
more_digits-Shorter n [] h = (h, omega arith)
more_digits-Shorter n (c ∷ cs) h = elim (Bool-cases (is_digit c)) [
  | inr x ↦ rw x (h, omega arith)
  | inl x ↦ rw x (elim (Bool-cases (leb cpu_setsize (n * 10 + (c - 48)))) [
    | inl y ↦ rw y tt
    | inr y ↦ rw y (
        Shorter-cons c cs 0 _ (more_digits-Shorter (n * 10 + (c - 48)) cs (ground arith))
          (omega arith))
  ])
]

parse_cpu-Shorter : (text : List ℕ) → Shorter text 1 (parse_cpu text)
parse_cpu-Shorter [] = tt
parse_cpu-Shorter (c ∷ cs) = elim (Bool-cases (is_digit c)) [
  | inr x ↦ rw x tt
  | inl x ↦ rw x (elim (Bool-cases (leb cpu_setsize (0 * 10 + (c - 48)))) [
    | inl y ↦ rw y tt
    | inr y ↦ rw y (
        Shorter-cons c cs 1 _ (more_digits-Shorter (0 * 10 + (c - 48)) cs (ground arith))
          (omega arith))
  ])
]

parse_last-Shorter :
    (first : ℕ) (text : List ℕ) → first < cpu_setsize → Shorter text 0 (parse_last first text)
parse_last-Shorter first [] h = (h, omega arith)
parse_last-Shorter first (c ∷ cs) h = elim (Bool-cases (c == 45)) [
  | inr x ↦ rw x (h, omega arith)
  | inl x ↦
      rw x (Shorter-cons c cs 0 _ (weaken (parse_cpu cs) (parse_cpu-Shorter cs)) (omega arith))
]
  where
    weaken : (o : Option (ℕ × List ℕ)) → Shorter cs 1 o → Shorter cs 0 o
    weaken none k = tt
    weaken (some (n, rest)) (lo, hi) = (lo, omega arith)

some-eq : (s t : CpuSet) → some s ≡ some t → s ≡ t
some-eq s t h = cc

none-some : {A : Type 0} (x : A) → ¬ (none ≡ some x)
none-some x h = cc

add_range-IsBounded :
    (count first : ℕ) (set t : CpuSet)
    → IsBounded set
    → first + count ≤ cpu_setsize
    → add_range count first set ≡ some t
    → IsBounded t
add_range-IsBounded zero first set t b small h = subst IsBounded (some-eq set t h) b
add_range-IsBounded (suc count) first set t b small h = elim (Bool-cases (set first)) [
  | inl x ↦ absurd (none-some t (rw x at h))
  | inr x ↦
      add_range-IsBounded count (suc first) (cpu_set first set) t (λ n on. ground (arith, b n))
        (omega arith) (rw x at h)
]

-- What a loop's rest does, for every shorter text.
after_entry-IsBounded :
    (next : List ℕ → CpuSet → Option CpuSet) (text : List ℕ) (set t : CpuSet)
    → ((rest : List ℕ) (s u : CpuSet) → IsBounded s → next rest s ≡ some u → IsBounded u)
    → IsBounded set
    → after_entry next text set ≡ some t
    → IsBounded t
after_entry-IsBounded next [] set t step b h = subst IsBounded (some-eq set t h) b
after_entry-IsBounded next (c ∷ []) set t step b h = absurd (none-some t h)
after_entry-IsBounded next (c ∷ d ∷ cs) set t step b h = elim (Bool-cases (c == 44)) [
  | inl x ↦ step (d ∷ cs) set t b (rw x at h)
  | inr x ↦ absurd (none-some t (rw x at h))
]

-- Behind the two numbers of an entry.
range-IsBounded :
    (next : List ℕ → CpuSet → Option CpuSet) (first last : ℕ) (behind : List ℕ) (set t : CpuSet)
    → ((rest : List ℕ) (s u : CpuSet) → IsBounded s → next rest s ≡ some u → IsBounded u)
    → IsBounded set
    → last < cpu_setsize
    → (if ltb last first
        then none
        else (add_range (suc last - first) first set >>= λ u. after_entry next behind u))
      ≡ some t
    → IsBounded t
range-IsBounded next first last behind set t step b small h = elim (Bool-cases (ltb last first)) [
  | inl x ↦ absurd (none-some t (rw x at h))
  | inr x ↦ elim (Option-cases (add_range (suc last - first) first set)) [
    | inl none_there ↦ absurd (none-some t (rw none_there at (rw x at h)))
    | inr (u, e) ↦
        after_entry-IsBounded next behind u t step
          (add_range-IsBounded (suc last - first) first set u b (ground arith) e)
          (rw e at (rw x at h))
  ]
]

entry-IsBounded :
    (next : List ℕ → CpuSet → Option CpuSet) (text : List ℕ) (set t : CpuSet)
    → ((rest : List ℕ) (s u : CpuSet) → IsBounded s → next rest s ≡ some u → IsBounded u)
    → IsBounded set
    → parse_entry next text set ≡ some t
    → IsBounded t
entry-IsBounded next text set t step b h = elim (Option-cases (parse_cpu text)) [
  | inl e ↦ absurd (none-some t (rw e at h))
  | inr ((first, behind_first), e) ↦
      let lo = subst (Shorter text 1) e (parse_cpu-Shorter text) in
      elim (Option-cases (parse_last first behind_first)) [
        | inl e' ↦ absurd (none-some t (rw e' at (rw e at h)))
        | inr ((last, behind), e') ↦
            let hi =
              subst (Shorter behind_first 0) e' (parse_last-Shorter first behind_first lo.0) in
            range-IsBounded next first last behind set t step b hi.0 (rw e' at (rw e at h))
      ]
]

entries-IsBounded :
    (fuel : ℕ) (text : List ℕ) (set t : CpuSet)
    → IsBounded set
    → parse_entries fuel text set ≡ some t
    → IsBounded t
entries-IsBounded zero text set t b h = absurd (none-some t h)
entries-IsBounded (suc fuel) text set t b h =
    entry-IsBounded (parse_entries fuel) text set t (entries-IsBounded fuel) b h

-- Every CPU of a set that `run_parse_cpus` accepts is below CPU_SETSIZE: the parser sets no bit
-- past the end of a cpu_set_t.
pub run_parse_cpus-IsBounded :
    (text : List ℕ) (t : CpuSet) → run_parse_cpus text ≡ some t → IsBounded t
unfolding run_parse_cpus
run_parse_cpus-IsBounded text t h =
    entries-IsBounded (length text) text cpu_zero t (λ n on. absurd (false_true on)) h
  where
    false_true : ¬ (false ≡ true)
    false_true k = cc

after_entry_agree :
    (next next' : List ℕ → CpuSet → Option CpuSet) (text : List ℕ) (set : CpuSet)
    → ((rest : List ℕ) (s : CpuSet) → length rest < length text → next rest s ≡ next' rest s)
    → after_entry next text set ≡ after_entry next' text set
after_entry_agree next next' [] set same = refl
after_entry_agree next next' (c ∷ []) set same = refl
after_entry_agree next next' (c ∷ d ∷ cs) set same = rw (same (d ∷ cs) set (omega arith)) refl

entry_agree :
    (next next' : List ℕ → CpuSet → Option CpuSet) (text : List ℕ) (set : CpuSet)
    → ((rest : List ℕ) (s : CpuSet) → length rest < length text → next rest s ≡ next' rest s)
    → parse_entry next text set ≡ parse_entry next' text set
entry_agree next next' text set same = elim (Option-cases (parse_cpu text)) [
  | inl e ↦ rw e refl
  | inr ((first, behind_first), e) ↦
      let lo = subst (Shorter text 1) e (parse_cpu-Shorter text) in
      rw e (elim (Option-cases (parse_last first behind_first)) [
        | inl e' ↦ rw e' refl
        | inr ((last, behind), e') ↦
            let hi =
              subst (Shorter behind_first 0) e' (parse_last-Shorter first behind_first lo.0) in
            rw e' (elim (Option-cases (add_range (suc last - first) first set)) [
              | inl x ↦ rw x refl
              | inr (u, x) ↦ rw x (
                  ap (λ (o : Option CpuSet). if ltb last first then none else o)
                    (after_entry_agree next next' behind u
                      (λ rest s short. same rest s (omega (arith, short, lo.1, hi.1)))))
            ])
      ])
]

entries_agree :
    (fuel other : ℕ) (text : List ℕ) (set : CpuSet)
    → length text ≤ fuel
    → length text ≤ other
    → parse_entries fuel text set ≡ parse_entries other text set
entries_agree zero zero text set enough enough' = refl
entries_agree zero (suc other) [] set enough enough' = refl
entries_agree zero (suc other) (c ∷ cs) set enough enough' = absurd (omega arith)
entries_agree (suc fuel) zero [] set enough enough' = refl
entries_agree (suc fuel) zero (c ∷ cs) set enough enough' = absurd (omega arith)
entries_agree (suc fuel) (suc other) text set enough enough' =
    entry_agree (parse_entries fuel) (parse_entries other) text set
      (λ rest s short. entries_agree fuel other rest s (omega arith) (omega arith))

-- The fuel of `run_parse_cpus` is enough: with any more of it the result is the same, so that -1
-- never comes from the fuel.
pub run_parse_cpus_fuel :
    (text : List ℕ) (fuel : ℕ)
    → length text ≤ fuel
    → parse_entries fuel text cpu_zero ≡ run_parse_cpus text
unfolding run_parse_cpus
run_parse_cpus_fuel text fuel enough =
    entries_agree fuel (length text) text cpu_zero enough (omega arith)
