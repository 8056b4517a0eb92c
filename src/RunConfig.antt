-- ===== src/RunConfig.antt =====
-- experiment/run_config.c behind its parser: what a checked configuration makes of a flow, a mode
-- and a repeat. A mode is one of the four names that the parser accepts; a CPU set is a predicate.
pub mod Modes
pub mod Domains
pub mod Counts
pub mod Cpus
use aceteam_bachelor_thesis.Prelude.{
  ℕ, ◌+◌, ◌-◌, ◌*◌, ◌/◌, ◌%◌, ◌^◌, Bool, true, false, not, ◌&&◌, ◌||◌, List, [], ◌∷◌, ltb, leb,
  ◌==◌, if◌then◌else◌,
}
use aceteam_bachelor_thesis.Prelude.Int.{ℤ, pos, negsuc}
use aceteam_bachelor_thesis.Abi.{path_pass, path_cpumap, path_xsk}

pub data Mode : Type 0 where
  mixed all_pass pass_xsk socket_only : Mode

abbrev pub is_mixed : Mode → Bool
is_mixed mixed = true
is_mixed m = false

abbrev pub is_all_pass : Mode → Bool
is_all_pass all_pass = true
is_all_pass m = false

abbrev pub is_pass_xsk : Mode → Bool
is_pass_xsk pass_xsk = true
is_pass_xsk m = false

-- The fields of `struct run_flow` that are read here; -1 is an inherited CPU.
pub record RunFlow : Type 0 where
  pub enabled : Bool
  pub period_ns : ℕ
  pub rx_cpu : ℤ
  pub all_pass_rx_cpu : ℤ

abbrev pub CpuSet : Type 0
CpuSet = ℕ → Bool

abbrev pub cpu_zero : CpuSet
cpu_zero n = false

abbrev pub cpu_set : ℕ → CpuSet → CpuSet
cpu_set cpu set n = n == cpu || set n

abbrev pub cpu_clr : ℕ → CpuSet → CpuSet
cpu_clr cpu set n = not (n == cpu) && set n

-- The fields of `struct run_config` that are read here. `receiver_shared` is whether the text
-- `receiver_shared_cpus` is nonempty.
pub record RunConfig : Type 0 where
  pub receiver_shared : Bool
  pub receiver_shared_mask : CpuSet
  pub receiver_cpumap_cpu : ℕ
  pub alternate_mode_order : Bool
  pub mode_count : ℕ
  pub flows : ℕ → RunFlow

unfoldable pub flow_count : RunFlow → ℕ → ℕ
flow_count f duration_ms = (duration_ms * 1000000 + f.period_ns + 2 ^ 64 - 1) % 2 ^ 64 / f.period_ns

-- The paths' names, as the paths' numbers.
unfoldable pub run_flow_path : Mode → ℕ → ℕ
run_flow_path mode flow_index =
    if flow_index == 2 && (is_mixed mode || is_pass_xsk mode)
    then path_xsk
    else if flow_index == 1 && is_mixed mode
    then path_cpumap
    else path_pass

unfoldable pub run_rx_cpu : RunFlow → Mode → ℤ
run_rx_cpu f mode = if is_all_pass mode then f.all_pass_rx_cpu else f.rx_cpu

unfoldable pub run_cpumap_active : RunConfig → Mode → Bool
run_cpumap_active c mode = c.receiver_shared && is_mixed mode && (c.flows 1).enabled

unfoldable pub run_general_cpu_set : RunConfig → Mode → CpuSet
unfolding run_cpumap_active
run_general_cpu_set c mode =
    if run_cpumap_active c mode
    then cpu_clr c.receiver_cpumap_cpu c.receiver_shared_mask
    else c.receiver_shared_mask

abbrev pub set_inherited : ℤ → CpuSet
set_inherited (pos n) = cpu_set n cpu_zero
set_inherited (negsuc n) = cpu_zero

unfoldable pub run_rx_cpu_set : RunConfig → ℕ → Mode → CpuSet
unfolding run_general_cpu_set run_cpumap_active run_rx_cpu
run_rx_cpu_set c flow_index mode =
    if c.receiver_shared
    then if flow_index == 1 && run_cpumap_active c mode
      then cpu_set c.receiver_cpumap_cpu cpu_zero
      else run_general_cpu_set c mode
    else set_inherited (run_rx_cpu (c.flows flow_index) mode)

-- In 32 bits.
unfoldable pub run_mode_index : RunConfig → ℕ → ℕ → ℕ
run_mode_index c turn position =
    let offset = if c.alternate_mode_order && not (turn == 0) then turn - 1 else 0 in
    if c.mode_count == 0 then 0 else (position + offset) % 2 ^ 32 % c.mode_count
