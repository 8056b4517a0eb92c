-- ===== src/RunConfig/Modes.antt =====
-- experiment/run_config.c: the order of the modes, and the modes' paths beside the XDP program's.
use aceteam_bachelor_thesis.Prelude.{
  ℕ, zero, suc, ◌+◌, ◌-◌, ◌%◌, ◌^◌, ◌≤◌, ◌<◌, ◌≡◌, ◌≢◌, inl, inr, false, not, ◌&&◌, Bool-cases,
  ◌==◌, arith,
}
use aceteam_bachelor_thesis.Abi.{
  forward_mixed, forward_all_pass, forward_pass_xsk, effective_requested_path, path_pass,
}
use aceteam_bachelor_thesis.RunConfig.{
  Mode, mixed, all_pass, pass_xsk, socket_only, RunConfig, run_flow_path, run_mode_index,
}

-- The forwarding mode that the loader is started with under a mode. There is none under
-- `socket_only`, where no XDP program runs and the kernel's stack gets every packet.
abbrev pub xdp_path : Mode → ℕ → ℕ
xdp_path mixed path = effective_requested_path forward_mixed path
xdp_path all_pass path = effective_requested_path forward_all_pass path
xdp_path pass_xsk path = effective_requested_path forward_pass_xsk path
xdp_path socket_only path = path_pass

-- For each of the three flows, whose ports are classified as the paths 0, 1 and 2, the supervisor
-- expects the path that the XDP program asks for under the mode.
pub run_flow_path-effective_requested_path :
    (mode : Mode) (flow_index : ℕ)
    → flow_index < 3
    → run_flow_path mode flow_index ≡ xdp_path mode flow_index
unfolding run_flow_path effective_requested_path
run_flow_path-effective_requested_path mixed i h = ground arith
run_flow_path-effective_requested_path all_pass i h = ground arith
run_flow_path-effective_requested_path pass_xsk i h = ground arith
run_flow_path-effective_requested_path socket_only i h = ground arith

rotation :
    (count offset i j : ℕ)
    → count ≢ 0
    → count ≤ 4
    → i < count
    → j < count
    → offset < 10000
    → ((i + offset) % 2 ^ 32 % count < count)
      × ((i + offset) % 2 ^ 32 % count ≡ (j + offset) % 2 ^ 32 % count → i ≡ j)
rotation zero offset i j some most hi hj small = absurd (omega arith)
rotation (suc zero) offset i j some most hi hj small = (omega arith, λ e. omega arith)
rotation (suc (suc zero)) offset i j some most hi hj small = (omega arith, λ e. omega arith)
rotation (suc (suc (suc zero))) offset i j some most hi hj small = (omega arith, λ e. omega arith)
rotation (suc (suc (suc (suc zero)))) offset i j some most hi hj small =
    (omega arith, λ e. omega arith)
rotation (suc (suc (suc (suc (suc n))))) offset i j some most hi hj small = absurd (omega arith)

-- With 1 to 4 modes and at most 10000 repeats, a repeat runs every mode once: its positions go to
-- modes in range, and no two of them to the same one.
pub run_mode_index_once :
    (c : RunConfig) (turn i j : ℕ)
    → c.mode_count ≢ 0
    → c.mode_count ≤ 4
    → turn ≤ 10000
    → i < c.mode_count
    → j < c.mode_count
    → (run_mode_index c turn i < c.mode_count)
      × (run_mode_index c turn i ≡ run_mode_index c turn j → i ≡ j)
unfolding run_mode_index
run_mode_index_once c turn i j some most turns hi hj =
    elim (Bool-cases (c.alternate_mode_order && not (turn == 0))) [
      | inl x ↦ rw x (
          rw (nonzero c.mode_count some)
            (rotation c.mode_count (turn - 1) i j some most hi hj (ground arith)))
      | inr x ↦ rw x (
          rw (nonzero c.mode_count some)
            (rotation c.mode_count 0 i j some most hi hj (omega arith)))
    ]
  where
    nonzero : (n : ℕ) → n ≢ 0 → (n == 0) ≡ false
    nonzero n h = ground arith
