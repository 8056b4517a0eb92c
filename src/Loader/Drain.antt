-- ===== src/Loader/Drain.antt =====
-- BPF/xdp_loader.c, `lookup_stat_total` and `wait_for_cpumap_records`. What the counters hold when
-- a round reads them is a parameter, by the round's time and the counter's id.
pub mod Report
use aceteam_bachelor_thesis.Prelude.{
  ℕ, zero, suc, ◌+◌, ◌-◌, ◌*◌, ◌%◌, ◌^◌, Bool, true, false, ◌&&◌, List, [], ◌∷◌, Option, none, some,
  ltb, leb, ◌==◌, if◌then◌else◌,
}
use aceteam_bachelor_thesis.Abi.Stat

-- BPF/config.h.
abbrev pub drain_timeout_ms : ℕ
drain_timeout_ms = 5000

abbrev pub drain_poll_ms : ℕ
drain_poll_ms = 10

abbrev pub drain_grace_ms : ℕ
drain_grace_ms = 100

abbrev pub loss_quiet_ms : ℕ
loss_quiet_ms = 1000

abbrev pub stable_polls : ℕ
stable_polls = 10

abbrev pub einval : ℕ
einval = 22

abbrev pub enomem : ℕ
enomem = 12

abbrev pub etimedout : ℕ
etimedout = 110

-- bpf_map_lookup_elem on a per-CPU array: a value for each CPU, or the error number.
pub data Lookup : Type 0 where
  values : List ℕ → Lookup
  missing : ℕ → Lookup

-- A sum over the CPUs, or the error number.
pub data Total : Type 0 where
  total : ℕ → Total
  failed : ℕ → Total

-- `*total += values[cpu]`, in 64 bits.
abbrev pub add_values : ℕ → List ℕ → ℕ
add_values t [] = t
add_values t (v ∷ vs) = add_values ((t + v) % 2 ^ 64) vs

unfoldable pub lookup_stat_total : Lookup → Total
lookup_stat_total (values vs) = total (add_values 0 vs)
lookup_stat_total (missing e) = failed e

-- `struct cpumap_drain_report`.
pub record DrainReport : Type 0 where
  pub requested : ℕ
  pub terminal : ℕ
  pub unobserved : ℕ

-- What the function returns: 0 with the report written, -e, or 0 with the report left alone.
pub data Drained : Type 0 where
  reported : DrainReport → Drained
  gave_up : ℕ → Drained
  unreported : Drained

-- What the loop keeps from round to round.
pub record Watch : Type 0 where
  pub previous_requested : ℕ
  pub previous_terminal : ℕ
  pub last_change_ms : ℕ
  pub stable_snapshots : ℕ

pub data Step : Type 0 where
  stop : Drained → Step
  again : Watch → Step

-- The two counters compared with the round before.
unfoldable pub watch : ℕ → ℕ → ℕ → Watch → Watch
watch elapsed requested terminal w =
    if requested == w.previous_requested && terminal == w.previous_terminal
    then record w { stable_snapshots = w.stable_snapshots + 1 }
    else record w { stable_snapshots = 0; last_change_ms = elapsed }

-- A round behind its reads.
unfoldable pub judge : ℕ → ℕ → ℕ → Watch → Step
judge elapsed requested terminal w =
    if requested == terminal && leb drain_grace_ms elapsed && leb stable_polls w.stable_snapshots
    then stop (reported (record { requested = requested; terminal = terminal; unobserved = 0 }))
    else if elapsed == drain_timeout_ms
    then if ltb terminal requested
        && leb loss_quiet_ms (elapsed - w.last_change_ms)
        && leb stable_polls w.stable_snapshots
      then stop (
          reported (record {
            requested = requested;
            terminal = terminal;
            unobserved = requested - terminal;
          }))
      else stop (gave_up etimedout)
    else again (record w { previous_requested = requested; previous_terminal = terminal })

abbrev pub with_total : Total → (ℕ → Step) → Step
with_total (failed e) next = stop (gave_up e)
with_total (total n) next = next n

abbrev pub after_step : Step → (Watch → Option Drained) → Option Drained
after_step (stop r) next = some r
after_step (again w) next = next w

abbrev pub first_watch : Watch
first_watch = record {
  previous_requested = 2 ^ 64 - 1;
  previous_terminal = 2 ^ 64 - 1;
  last_change_ms = 0;
  stable_snapshots = 0;
}

module _ (counter : ℕ → ℕ → Lookup) where
  abbrev pub stat_total : ℕ → ℕ → Total
  stat_total elapsed id = lookup_stat_total (counter elapsed id)

  -- One turn of the loop: the four terminal counters are read first, the requests last.
  unfoldable pub poll_round : ℕ → Watch → Step
  poll_round elapsed w = with_total (stat_total elapsed Stat.cpumap_recorded) (λ recorded.
      with_total (stat_total elapsed Stat.cpumap_duplicate) (λ duplicate.
        with_total (stat_total elapsed Stat.cpumap_update_error) (λ update_error.
          with_total (stat_total elapsed Stat.cpumap_meta_invalid) (λ invalid.
            with_total (stat_total elapsed Stat.cpumap) (λ requested.
              let terminal = (recorded + duplicate + update_error + invalid) % 2 ^ 64 in
              judge elapsed requested terminal (watch elapsed requested terminal w))))))

  -- The loop. The first argument is the fuel, and `none` is running out of it.
  unfoldable pub poll : ℕ → ℕ → Watch → Option Drained
  poll zero elapsed w = none
  poll (suc fuel) elapsed w =
      if leb elapsed drain_timeout_ms
      then after_step (poll_round elapsed w) (λ w'. poll fuel (elapsed + drain_poll_ms) w')
      else some unreported

  -- With what libbpf_num_possible_cpus answers, and whether calloc gives the memory.
  unfoldable pub wait_for_cpumap_records : ℕ → Bool → Option Drained
  wait_for_cpumap_records ncpu allocated =
      if ltb ncpu 1
      then some (gave_up einval)
      else if allocated
      then poll 501 0 first_watch
      else some (gave_up enomem)
