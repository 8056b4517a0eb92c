-- ===== src/Loader/Runtime.antt =====
-- BPF/xdp_loader.c: `struct ace_runtime_config` as the loader pins it, what `--recover` accepts of
-- it, and how the recovery puts the interface's timestamp configuration back.
pub mod Crash
pub mod Publish
use aceteam_bachelor_thesis.Prelude.{
  ℕ, ◌+◌, ◌-◌, ◌/◌, ◌%◌, Bool, true, false, not, ◌&&◌, ◌||◌, List, leb, ltb, ◌==◌, if◌then◌else◌,
  length,
}
use aceteam_bachelor_thesis.Abi.{
  record_max_entries, runtime_abi_version, forward_all_pass, forward_pass_xsk, has_flag, set_flag,
  clear_flag,
}
use aceteam_bachelor_thesis.Hwtstamp.{
  Config, config_equal, Driver, HwtstampState, Restored, restored, skipped, failed, zero_state,
  zero_config, RestoreResult, restore_allow_saved, ifnamsiz, enametoolong,
}

-- `enum ace_runtime_flags` of BPF/metadata.h.
abbrev pub runtime_captured : ℕ
runtime_captured = 1

abbrev pub runtime_applying : ℕ
runtime_applying = 2

abbrev pub runtime_applied : ℕ
runtime_applied = 4

abbrev pub runtime_stopping : ℕ
runtime_stopping = 8

abbrev pub runtime_all_pass : ℕ
runtime_all_pass = 16

abbrev pub runtime_pass_xsk : ℕ
runtime_pass_xsk = 32

abbrev pub enodata : ℕ
enodata = 61

-- The six hwtstamp fields are two configurations here.
pub record RuntimeConfig : Type 0 where
  pub abi_version : ℕ
  pub ifindex : ℕ
  pub record_capacity : ℕ
  pub xdp_program_id : ℕ
  pub owner_start_ticks : ℕ
  pub owner_pid : ℕ
  pub flags : ℕ
  pub saved_hwtstamp : Config
  pub effective_hwtstamp : Config

-- The configuration that `main` fills in before its first publication.
unfoldable pub initial_runtime : ℕ → ℕ → ℕ → ℕ → ℕ → ℕ → RuntimeConfig
initial_runtime mode ifindex capacity owned_id pid start_ticks = record {
  abi_version = runtime_abi_version;
  ifindex = ifindex;
  record_capacity = capacity;
  xdp_program_id = owned_id;
  owner_start_ticks = start_ticks;
  owner_pid = pid;
  flags =
      if mode == forward_all_pass
      then set_flag 0 runtime_all_pass
      else if mode == forward_pass_xsk
      then set_flag 0 runtime_pass_xsk
      else 0;
  saved_hwtstamp = zero_config;
  effective_hwtstamp = zero_config;
}

-- `flags &= ~(APPLYING | APPLIED)`.
abbrev pub clear_progress : ℕ → ℕ
clear_progress flags = clear_flag (clear_flag flags runtime_applying) runtime_applied

unfoldable pub runtime_set_hwtstamp : RuntimeConfig → HwtstampState → Bool → RuntimeConfig
runtime_set_hwtstamp runtime state is_applied =
    let flags = clear_progress (set_flag runtime.flags runtime_captured) in
    record runtime {
      saved_hwtstamp = state.saved;
      effective_hwtstamp = state.effective;
      flags = if is_applied then set_flag flags runtime_applied else flags;
    }

unfoldable pub runtime_set_hwtstamp_applying : RuntimeConfig → HwtstampState → RuntimeConfig
unfolding runtime_set_hwtstamp
runtime_set_hwtstamp_applying runtime state =
    let r = runtime_set_hwtstamp runtime state false in
    record r { flags = set_flag r.flags runtime_applying }

-- What `--recover` refuses in a pinned configuration, negated.
unfoldable pub is_recoverable : RuntimeConfig → ℕ → Bool
is_recoverable r ifindex = not (
    not (r.abi_version == runtime_abi_version)
    || not (r.ifindex == ifindex)
    || r.record_capacity == 0
    || ltb record_max_entries r.record_capacity
    || r.xdp_program_id == 0
    || r.owner_pid == 0
    || r.owner_start_ticks == 0
    || not (has_flag r.flags runtime_captured)
    || (has_flag r.flags runtime_applying && has_flag r.flags runtime_applied)
    || ltb 63 r.flags
    || (has_flag r.flags runtime_all_pass && has_flag r.flags runtime_pass_xsk))

-- 0 or the error number, and the state.
unfoldable pub hwtstamp_state_from_runtime :
    RuntimeConfig → List ℕ → HwtstampState → ℕ × HwtstampState
unfolding config_equal
hwtstamp_state_from_runtime runtime ifname state =
    if not (has_flag runtime.flags runtime_captured)
    then (enodata, state)
    else if leb ifnamsiz (length ifname)
    then (enametoolong, state)
    else (
      0,
      record {
        saved = runtime.saved_hwtstamp;
        effective = runtime.effective_hwtstamp;
        interface_name = ifname;
        active = true;
        changed = not (config_equal runtime.saved_hwtstamp runtime.effective_hwtstamp);
      },
    )

-- The pinned configuration after the restore returned 0.
unfoldable pub runtime_restored : RuntimeConfig → RuntimeConfig
runtime_restored runtime = record runtime {
  effective_hwtstamp = runtime.saved_hwtstamp;
  flags = clear_progress runtime.flags;
}

module _ (driver : Driver) where
  open driver use {Device}

  -- What the recovery leaves: the device, the pinned configuration, and how the restore ended.
  pub record Recovery : Type 0 where
    pub result : Restored
    pub device : Device
    pub runtime : RuntimeConfig

  finish_recovery : RestoreResult driver → RuntimeConfig → Recovery
  unfolding runtime_restored
  finish_recovery r runtime = record {
    result = r.result;
    device = r.device;
    runtime = elim r.result [ restored ↦ runtime_restored runtime | _ ↦ runtime ];
  }

  -- The part of `recover_pinned_measurement` on the timestamp configuration.
  unfoldable pub recover_hwtstamp : Device → RuntimeConfig → List ℕ → Recovery
  unfolding finish_recovery
  recover_hwtstamp d runtime ifname =
      let (e, state) = hwtstamp_state_from_runtime runtime ifname zero_state in
      if e == 0
      then finish_recovery (restore_allow_saved driver d state true) runtime
      else record { result = failed e; device = d; runtime = runtime }
