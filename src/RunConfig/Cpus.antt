-- ===== src/RunConfig/Cpus.antt =====
-- experiment/run_config.c, `run_parse_cpus`. A text is its bytes, without the closing 0.
pub mod Bounds
use aceteam_bachelor_thesis.Prelude.{
  ℕ, zero, suc, ◌+◌, ◌-◌, ◌*◌, ◌≡◌, ◌≢◌, ◌<◌, ◌≤◌, ◌⊎◌, inl, inr, refl, sym, ap, ◌∙◌, Bool, true,
  false, Bool-cases, not, ◌&&◌, ◌||◌, List, [], ◌∷◌, Option, none, some, Option-cases, ltb, leb,
  ◌==◌, arith, if◌then◌else◌, ◌>>=◌, length,
}
use aceteam_bachelor_thesis.RunControl.Number.{is_digit}
use aceteam_bachelor_thesis.RunConfig.{CpuSet, cpu_zero, cpu_set}

-- CPU_SETSIZE of the C library.
abbrev pub cpu_setsize : ℕ
cpu_setsize = 1024

-- The do-while over digits behind the first one: the number, and what is left of the text.
abbrev pub more_digits : ℕ → List ℕ → Option (ℕ × List ℕ)
more_digits n [] = some (n, [])
more_digits n (c ∷ cs) =
    if is_digit c
    then if leb cpu_setsize (n * 10 + (c - 48)) then none else more_digits (n * 10 + (c - 48)) cs
    else some (n, c ∷ cs)

abbrev pub parse_cpu : List ℕ → Option (ℕ × List ℕ)
parse_cpu [] = none
parse_cpu (c ∷ cs) = if is_digit c then more_digits 0 (c ∷ cs) else none

-- Behind the first number: the end of a range, 45 being `-`, or the number again.
abbrev pub parse_last : ℕ → List ℕ → Option (ℕ × List ℕ)
parse_last first [] = some (first, [])
parse_last first (c ∷ cs) = if c == 45 then parse_cpu cs else some (first, c ∷ cs)

-- The CPUs from `first` on, `count` of them; `none` if one of them is in the set already.
abbrev pub add_range : ℕ → ℕ → CpuSet → Option CpuSet
add_range zero first set = some set
add_range (suc count) first set =
    if set first then none else add_range count (suc first) (cpu_set first set)

-- Behind an entry: the end, or 44, a comma, and another one.
abbrev pub after_entry : (List ℕ → CpuSet → Option CpuSet) → List ℕ → CpuSet → Option CpuSet
after_entry next [] set = some set
after_entry next (c ∷ []) set = none
after_entry next (c ∷ d ∷ cs) set = if c == 44 then next (d ∷ cs) set else none

-- A turn of the loop, with the rest of the loop.
abbrev pub parse_entry : (List ℕ → CpuSet → Option CpuSet) → List ℕ → CpuSet → Option CpuSet
parse_entry next text set = do
  (first, behind_first) ← parse_cpu text
  (last, behind) ← parse_last first behind_first
  if ltb last first
      then none
      else do t ← add_range (suc last - first) first set; after_entry next behind t

-- The loop, on fuel.
abbrev pub parse_entries : ℕ → List ℕ → CpuSet → Option CpuSet
parse_entries zero text set = none
parse_entries (suc fuel) text set = parse_entry (parse_entries fuel) text set

-- `none` is -1. An entry takes a byte at least, so the length of the text is fuel enough.
unfoldable pub run_parse_cpus : List ℕ → Option CpuSet
run_parse_cpus text = parse_entries (length text) text cpu_zero
