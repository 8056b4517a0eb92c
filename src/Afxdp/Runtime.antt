-- ===== src/Afxdp/Runtime.antt =====
-- BPF/afxdp_recv.c: the pinned runtime configuration that the receiver takes a queue under.
use aceteam_bachelor_thesis.Prelude.{ℕ, Bool, not, ◌&&◌, ◌||◌, ltb, ◌==◌}
use aceteam_bachelor_thesis.Abi.{record_max_entries, runtime_abi_version, has_flag}
use aceteam_bachelor_thesis.Hwtstamp.{filter_all}
use aceteam_bachelor_thesis.Loader.Runtime.{
  RuntimeConfig, runtime_captured, runtime_applying, runtime_applied, runtime_stopping,
  runtime_all_pass,
}

-- The two tests of `main` on the configuration, negated: -EXDEV, and -EINVAL under all-pass.
unfoldable pub is_accepted : RuntimeConfig → ℕ → Bool
is_accepted r ifindex =
    not (
      not (r.abi_version == runtime_abi_version)
      || not (r.ifindex == ifindex)
      || r.record_capacity == 0
      || ltb record_max_entries r.record_capacity
      || r.xdp_program_id == 0
      || r.owner_pid == 0
      || r.owner_start_ticks == 0
      || not (has_flag r.flags runtime_captured && has_flag r.flags runtime_applied)
      || (has_flag r.flags runtime_applying || has_flag r.flags runtime_stopping)
      || ltb 63 r.flags
      || not (r.effective_hwtstamp.rx_filter == filter_all))
    && not (has_flag r.flags runtime_all_pass)
