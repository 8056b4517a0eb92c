-- ===== src/Phc/Batch.antt =====
-- include/ace_phc.h: the sample that `collect_batch` chooses.
use aceteam_bachelor_thesis.Prelude.{
  ℕ, ◌+◌, ◌≤◌, ◌<◌, ◌≡◌, ◌⊎◌, List, Option, some, get_elem?, ◌>>=◌,
}
use aceteam_bachelor_thesis.Phc.{Sample, Result, Best, Collected, best_at}
use aceteam_bachelor_thesis.Phc.Fits.{valid}

-- The valid result at an index.
abbrev pub result_at : List Sample → ℕ → Option Result
result_at ss j = get_elem? ss j >>= valid

-- The scan of `ss` found a new best sample, at `k`, and the first of its span.
record Found (ss : List Sample) (i : ℕ) (old new : Best) : Type 0 where
  k : ℕ
  result : Result
  at : result_at ss k ≡ some result
  span : new.best_span ≡ result.span_ns
  index : new.best_index ≡ i + k
  shorter : new.best_span < old.best_span
  first : (j : ℕ) (r : Result) → j < k → result_at ss j ≡ some r → new.best_span < r.span_ns

-- The scan kept the best sample, or found one; none of the scanned ones is shorter.
record Scanned (ss : List Sample) (i : ℕ) (old new : Best) : Type 0 where
  choice :
      ((new.best_span ≡ old.best_span) × (new.best_index ≡ old.best_index)) ⊎ Found ss i old new
  least : (j : ℕ) (r : Result) → result_at ss j ≡ some r → new.best_span ≤ r.span_ns
  bound : new.best_span ≤ old.best_span

-- The index that is reported, and its sample: the shortest, and the first of those.
pub record Chosen (samples : List Sample) (c : Collected) : Type 0 where
  pub index : ℕ
  pub result : Result
  pub reported : c ≡ best_at index
  pub at : result_at samples index ≡ some result
  pub least : (j : ℕ) (r : Result) → result_at samples j ≡ some r → result.span_ns ≤ r.span_ns
  pub first :
      (j : ℕ) (r : Result) → j < index → result_at samples j ≡ some r → result.span_ns < r.span_ns
