-- ===== src/Loader/Claims.antt =====
-- include/ace_process.h, `ace_process_identity_is_alive`, and BPF/xdp_loader.c,
-- `xsk_owners_have_live_claim`. Receivers may come and go while the loop runs, so that each turn has
-- answers of its own: what the kernel says of the first key of the map at that turn.
use aceteam_bachelor_thesis.Prelude.{
  ℕ, ◌≡◌, ◌⊎◌, Bool, true, false, not, ◌&&◌, ◌||◌, List, [], ◌∷◌, ltb, ◌==◌, if◌then◌else◌,
}
use aceteam_bachelor_thesis.Afxdp.Owner.{XskOwner}

abbrev pub enoent : ℕ
enoent = 2

abbrev pub esrch : ℕ
esrch = 3

abbrev pub einval : ℕ
einval = 22

-- `ace_process_start_ticks`: the start of the process, or the error number.
pub data Start : Type 0 where
  ticks : ℕ → Start
  no_start : ℕ → Start

-- 0 and `*alive`, or the error number.
pub data Alive : Type 0 where
  alive : Bool → Alive
  unknown : ℕ → Alive

started : Start → ℕ → Alive
started (no_start e) expected_start_ticks =
    if e == enoent || e == esrch then alive false else unknown e
started (ticks actual) expected_start_ticks = alive (actual == expected_start_ticks)

unfoldable pub ace_process_identity_is_alive : Start → ℕ → ℕ → Alive
unfolding started
ace_process_identity_is_alive start pid expected_start_ticks =
    if pid == 0 || expected_start_ticks == 0
    then unknown einval
    else started start expected_start_ticks

-- bpf_map_lookup_elem on a claim.
pub data Lookup : Type 0 where
  found : XskOwner → Lookup
  lost : ℕ → Lookup

-- The answers of one turn: the two lookups of the key, the start of the owner's process, and 0 or
-- the error number of the deletion.
pub record Turn : Type 0 where
  pub first : Lookup
  pub start : Start
  pub latest : Lookup
  pub deletion : ℕ

-- How a turn ends: another one, `*has_live` with 0, or an error number.
pub data Verdict : Type 0 where
  next_turn live : Verdict
  error : ℕ → Verdict

-- The second lookup, of an owner who is alive.
confirm : Lookup → Verdict
confirm (found owner) = live
confirm (lost e) = if e == enoent then next_turn else error e

judge_owner : Alive → Turn → Verdict
unfolding confirm
judge_owner (unknown e) t = error e
judge_owner (alive true) t = confirm t.latest
judge_owner (alive false) t =
    if not (t.deletion == 0) && not (t.deletion == enoent) then error t.deletion else next_turn

judge_claim : Lookup → Turn → Verdict
unfolding judge_owner
judge_claim (lost e) t = if e == enoent then next_turn else error e
judge_claim (found owner) t =
    if owner.pid == 0
      || ltb 2147483647 owner.pid
      || owner.process_start_ticks == 0
      || not (owner.reserved == 0)
    then error einval
    else judge_owner (ace_process_identity_is_alive t.start owner.pid owner.process_start_ticks) t

unfoldable pub judge_turn : Turn → Verdict
unfolding judge_claim
judge_turn t = judge_claim t.first t

-- What the function returns: 0 with `*has_live`, or the error number.
pub data Claims : Type 0 where
  has_live : Bool → Claims
  failed : ℕ → Claims

-- The loop over the turns; `last` is the error number of the bpf_map_get_next_key that ends it.
abbrev pub xsk_owners_have_live_claim : List Turn → ℕ → Claims
xsk_owners_have_live_claim [] last = if last == enoent then has_live false else failed last
xsk_owners_have_live_claim (t ∷ ts) last = elim (judge_turn t) [
  | next_turn ↦ xsk_owners_have_live_claim ts last
  | live ↦ has_live true
  | error e ↦ failed e
]

-- A turn in which the claim was gone at a lookup, or its owner was dead and the claim is removed.
pub IsSettled : Turn → Type 0
IsSettled t =
    (t.first ≡ lost enoent)
    ⊎ (t.latest ≡ lost enoent)
    ⊎ ((owner : XskOwner) × (t.first ≡ found owner)
        × (ace_process_identity_is_alive t.start owner.pid owner.process_start_ticks ≡ alive false)
        × ((t.deletion ≡ 0) ⊎ (t.deletion ≡ enoent)))
