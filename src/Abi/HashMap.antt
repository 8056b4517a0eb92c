-- ===== src/Abi/HashMap.antt =====
-- A preallocated BPF hash map, which the kernel implements: what the code relies on of
-- `bpf_map_update_elem`, with BPF_ANY and with BPF_NOEXIST, and of `bpf_map_lookup_elem`, as bpf(2) documents it.
use aceteam_bachelor_thesis.Prelude.{ℕ, ◌≡◌, ◌≢◌, ap, ◌∙◌, Option, none, some}

abbrev pub eexist : ℕ
eexist = 17

-- The flags of an update: it may replace an entry, or must not.
abbrev pub bpf_any : ℕ
bpf_any = 0

abbrev pub bpf_noexist : ℕ
bpf_noexist = 1

pub record HashMap (K V : Type 0) : Type 1 where
  pub Map : Type 0
  pub lookup : Map → K → Option V
  -- The map afterwards, and 0 or the error number; the last argument is the flags.
  pub update : Map → K → V → ℕ → Map × ℕ
  pub update_taken :
      (m : Map) (k : K) (v w : V) → lookup m k ≡ some v → update m k w bpf_noexist ≡ (m, eexist)
  pub update_failed :
      (m : Map) (k : K) (v : V) (flags : ℕ)
      → (update m k v flags).1 ≢ 0
      → (update m k v flags).0 ≡ m
  pub update_fresh :
      (m : Map) (k : K) (v : V)
      → (update m k v bpf_noexist).1 ≢ 0
      → (update m k v bpf_noexist).1 ≢ eexist
      → lookup m k ≡ none
  pub lookup-update_self :
      (m : Map) (k : K) (v : V) (flags : ℕ)
      → (update m k v flags).1 ≡ 0
      → lookup (update m k v flags).0 k ≡ some v
  pub lookup-update_ne :
      (m : Map) (k j : K) (v : V) (flags : ℕ) → k ≢ j → lookup (update m k v flags).0 j ≡ lookup m j

module _ {K V : Type 0} (discrete : Discrete K) (h : HashMap K V) where
  -- An update with BPF_NOEXIST, of any key, leaves a stored value in place, its own key's too.
  pub update_keeps :
      (m : h.Map) (k j : K) (v w : V)
      → h.lookup m j ≡ some v
      → h.lookup (h.update m k w bpf_noexist).0 j ≡ some v
  update_keeps m k j v w e = elim (discrete k j) [
    | yes same ↦
        let taken = h.update_taken m k v w (ap (h.lookup m) same ∙ e) in
        ap (λ (r : h.Map × ℕ). h.lookup r.0 j) taken ∙ e
    | no other ↦ h.lookup-update_ne m k j w bpf_noexist other ∙ e
  ]
