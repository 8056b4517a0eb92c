-- ===== src/Examples/Control.antt =====
-- Numbers, deadlines, configurations and clock samples.
use aceteam_bachelor_thesis.Prelude.{
  ℕ, ◌+◌, ◌*◌, ◌≡◌, ◌<◌, ◌≤◌, ◌⊎◌, ◌↔◌, refl, true, false, ◌&&◌, ◌||◌, List, [], ◌∷◌, none, some,
  ◌==◌, arith,
}
use aceteam_bachelor_thesis.Prelude.Int.{pos, negsuc}
use aceteam_bachelor_thesis.Abi.{effective_requested_path, forward_mixed}
use aceteam_bachelor_thesis.RunControl.Number.{ace_parse_u64, IsNumeral, ace_parse_u64_iff}
use aceteam_bachelor_thesis.RunControl.Shutdown.{
  Drain, ace_xsk_drain_poll_ms, signals, drain_poll-signals,
}
use aceteam_bachelor_thesis.RunConfig.{
  mixed, RunFlow, RunConfig, run_flow_path, run_cpumap_active, run_rx_cpu_set, run_mode_index,
}
use aceteam_bachelor_thesis.RunConfig.Modes.{
  run_flow_path-effective_requested_path, run_mode_index_once,
}
use aceteam_bachelor_thesis.RunConfig.Domains.{run_rx_cpu_set_split}
use aceteam_bachelor_thesis.Phc.{PtpClockTime, Sample}
use aceteam_bachelor_thesis.Phc.Fits.{Fits}

-- The text 9000.
abbrev text : List ℕ
text = 57 ∷ 48 ∷ 48 ∷ 48 ∷ []

ace_parse_u64_iff_example :
    (ace_parse_u64 text 1024 65535 ≡ some 9000)
    ↔ (IsNumeral text 9000 × (1024 ≤ 9000) × (9000 ≤ 65535))
ace_parse_u64_iff_example = ace_parse_u64_iff text 1024 65535 9000 (omega arith)

abbrev idle : Drain
idle = record { active = false; deadline_ns = 0 }

drain_poll-signals_example :
    let d = signals idle ((1000000, 50) ∷ (2000000, 900) ∷ []) in
    (d.deadline_ns ≡ 51000000)
    × ((ace_xsk_drain_poll_ms d 3500000 ≡ none) ↔ (51000000 ≤ 3500000))
    × ((ms : ℕ)
        → ace_xsk_drain_poll_ms d 3500000 ≡ some ms
        → (1 ≤ ms)
          × (ms ≤ 1000)
          × ((ms ≡ 1000)
              ⊎ ((51000000 ≤ 3500000 + ms * 1000000) × (3500000 + ms * 1000000 < 52000000))))
drain_poll-signals_example = drain_poll-signals idle 1000000 50 3500000 ((2000000, 900) ∷ []) refl

abbrev flow : RunFlow
flow = record { enabled = true; period_ns = 3000000; rx_cpu = pos 2; all_pass_rx_cpu = negsuc 0 }

abbrev config : RunConfig
config = record {
  receiver_shared = true;
  receiver_shared_mask = λ n. n == 1 || (n == 2 || n == 3);
  receiver_cpumap_cpu = 3;
  alternate_mode_order = true;
  mode_count = 3;
  flows = λ i. flow;
}

run_flow_path-effective_requested_path_example :
    run_flow_path mixed 1 ≡ effective_requested_path forward_mixed 1
run_flow_path-effective_requested_path_example =
    run_flow_path-effective_requested_path mixed 1 (omega arith)

run_mode_index_once_example :
    (run_mode_index config 5 0 < 3)
    × (run_mode_index config 5 0 ≡ run_mode_index config 5 2 → ◌≡◌ {A = ℕ} 0 2)
run_mode_index_once_example =
    run_mode_index_once config 5 0 2 (omega arith) (omega arith) (omega arith) (omega arith)
      (omega arith)

run_rx_cpu_set_split_example :
    let reserved = run_rx_cpu_set config 1 mixed 3 in
    let general = run_rx_cpu_set config 0 mixed 3 in
    ((reserved && general) ≡ false)
    × ((reserved || general) ≡ true)
    × ((reserved ≡ true) ↔ (3 ≡ config.receiver_cpumap_cpu))
unfolding run_cpumap_active
run_rx_cpu_set_split_example = run_rx_cpu_set_split config mixed 0 3 refl (omega arith) refl

abbrev time : ℕ → PtpClockTime
time n = record { sec = pos 5; nsec = n }

-- The second sample is read backwards, the third in the shortest time.
abbrev samples : List Sample
samples =
    record { before = time 100; phc = time 900; after = time 180 }
    ∷ record { before = time 300; phc = time 1100; after = time 250 }
    ∷ record { before = time 400; phc = time 1200; after = time 440 }
    ∷ []
