-- ===== src/RunConfig/Domains.antt =====
-- experiment/run_config.c: the receiver's CPU domains while the CPUMAP's kthread has a CPU.
use aceteam_bachelor_thesis.Prelude.{ℕ, ◌≡◌, ◌≢◌, ◌↔◌, true, false, ◌&&◌, ◌||◌, arith}
use aceteam_bachelor_thesis.RunConfig.{
  Mode, RunConfig, run_cpumap_active, run_general_cpu_set, run_rx_cpu_set,
}

-- While the CPUMAP is active, flow 1 may run on the CPUMAP's CPU alone and every other flow on the
-- shared CPUs without it: the two sets have no CPU in common, and with the CPUMAP's CPU among the
-- shared ones they are the shared ones together.
pub run_rx_cpu_set_split :
    (c : RunConfig) (mode : Mode) (flow_index cpu : ℕ)
    → run_cpumap_active c mode ≡ true
    → flow_index ≢ 1
    → c.receiver_shared_mask c.receiver_cpumap_cpu ≡ true
    → let reserved = run_rx_cpu_set c 1 mode cpu in
      let general = run_rx_cpu_set c flow_index mode cpu in
      ((reserved && general) ≡ false)
      × ((reserved || general) ≡ c.receiver_shared_mask cpu)
      × ((reserved ≡ true) ↔ (cpu ≡ c.receiver_cpumap_cpu))
unfolding run_rx_cpu_set run_general_cpu_set run_cpumap_active
run_rx_cpu_set_split c mode i cpu active other member = ground arith
