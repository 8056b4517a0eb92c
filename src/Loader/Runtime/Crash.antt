-- ===== src/Loader/Runtime/Crash.antt =====
-- BPF/xdp_loader.c: wherever the loader dies while it sets the timestamps up, `--recover` puts the
-- interface's configuration back. The steps are those of `main` from the capture to the last
-- `update_runtime_config`, one ioctl or one publication each.
use aceteam_bachelor_thesis.Prelude.{
  ℕ, ◌≡◌, ◌⊎◌, inl, inr, refl, sym, ap, ◌∙◌, Bool, true, false, not, List, leb, arith, length,
}
use aceteam_bachelor_thesis.Abi.{has_flag}
use aceteam_bachelor_thesis.Hwtstamp.{
  config_equal, ok, Driver, HwtstampState, restored, failed, prepare_rx_all, capture,
  apply_prepared_rx_all, ifnamsiz,
}
use aceteam_bachelor_thesis.Hwtstamp.Enable.{
  prepare_rx_all_lem, capture-Captured, TakesAsIs, apply_device, apply-Took,
}
use aceteam_bachelor_thesis.Hwtstamp.Restore.{restore_allowed}
use aceteam_bachelor_thesis.Loader.Runtime.{
  RuntimeConfig, runtime_captured, runtime_set_hwtstamp, runtime_set_hwtstamp_applying,
  hwtstamp_state_from_runtime, recover_hwtstamp,
}

pub data Phase : Type 0 where
  captured applying asked applied : Phase

module _ (driver : Driver) (before : driver.Device) (name : List ℕ) where
  open driver use {Device, get, set}

  -- The device, the pinned configuration and the loader's own state at a point of the set-up.
  pub data Setup : Phase → Device → RuntimeConfig → HwtstampState → Type 0 where
    publish_captured :
        (r : RuntimeConfig) (s : HwtstampState)
        → (capture driver before name s).0 ≡ 0
        → Setup captured before
            (runtime_set_hwtstamp r (capture driver before name s).1 false)
            (capture driver before name s).1
    publish_applying :
        (d : Device) (r : RuntimeConfig) (s : HwtstampState)
        → Setup captured d r s
        → (prepare_rx_all s).0 ≡ 0
        → Setup applying d
            (runtime_set_hwtstamp_applying r (prepare_rx_all s).1)
            (prepare_rx_all s).1
    ask_driver :
        (d : Device) (r : RuntimeConfig) (s : HwtstampState)
        → Setup applying d r s
        → TakesAsIs driver d s.effective
        → Setup asked
            (apply_prepared_rx_all driver d s).device
            r
            (apply_prepared_rx_all driver d s).state
    publish_applied :
        (d : Device) (r : RuntimeConfig) (s : HwtstampState)
        → Setup applying d r s
        → (apply_prepared_rx_all driver d s).error ≡ 0
        → Setup applied
            (apply_prepared_rx_all driver d s).device
            (runtime_set_hwtstamp r (apply_prepared_rx_all driver d s).state true)
            (apply_prepared_rx_all driver d s).state

  -- What the pinned configuration says of the device.
  record Recorded (d : Device) (r : RuntimeConfig) : Type 0 where
    is_captured : has_flag r.flags runtime_captured ≡ true
    saved : get before ≡ ok r.saved_hwtstamp
    current : (get d ≡ ok r.effective_hwtstamp) ⊎ (get d ≡ ok r.saved_hwtstamp)
    room : leb ifnamsiz (length name) ≡ false

  -- Before the driver is asked, its configuration is the one that was captured.
  record Untouched (d : Device) (r : RuntimeConfig) (s : HwtstampState) : Type 0 where
    recorded : Recorded d r
    device : get d ≡ ok s.saved
    active : s.active ≡ true
    same_saved : r.saved_hwtstamp ≡ s.saved
    same_effective : r.effective_hwtstamp ≡ s.effective

  set_captured :
      (r : RuntimeConfig) (s : HwtstampState) (b : Bool)
      → has_flag (runtime_set_hwtstamp r s b).flags runtime_captured ≡ true
  unfolding runtime_set_hwtstamp
  set_captured r s true = ground arith
  set_captured r s false = ground arith

  applying_captured :
      (r : RuntimeConfig) (s : HwtstampState)
      → has_flag (runtime_set_hwtstamp_applying r s).flags runtime_captured ≡ true
  unfolding runtime_set_hwtstamp_applying
  applying_captured r s = ground (arith, set_captured r s false)

  set_fields :
      (r : RuntimeConfig) (s : HwtstampState) (b : Bool)
      → let t = runtime_set_hwtstamp r s b in
        (t.saved_hwtstamp ≡ s.saved) × (t.effective_hwtstamp ≡ s.effective)
  unfolding runtime_set_hwtstamp
  set_fields r s b = (refl, refl)

  applying_fields :
      (r : RuntimeConfig) (s : HwtstampState)
      → let t = runtime_set_hwtstamp_applying r s in
        (t.saved_hwtstamp ≡ s.saved) × (t.effective_hwtstamp ≡ s.effective)
  unfolding runtime_set_hwtstamp_applying runtime_set_hwtstamp
  applying_fields r s = (refl, refl)

  Untouched-captured :
      (d : Device) (r : RuntimeConfig) (s : HwtstampState) → Setup captured d r s → Untouched d r s
  Untouched-captured _ _ _ (publish_captured r s z) =
      let c = capture-Captured driver before name s z in
      let t = (capture driver before name s).1 in
      let (saved, effective) = set_fields r t false in
      record {
        recorded = record {
          is_captured = set_captured r t false;
          saved = c.saved ∙ ap ok (sym saved);
          current = inr (c.saved ∙ ap ok (sym saved));
          room = c.room;
        };
        device = c.saved;
        active = c.active;
        same_saved = saved;
        same_effective = effective;
      }

  Untouched-applying :
      (d : Device) (r : RuntimeConfig) (s : HwtstampState) → Setup applying d r s → Untouched d r s
  Untouched-applying _ _ _ (publish_applying d r s h z) =
      let u = Untouched-captured d r s h in
      let t = (prepare_rx_all s).1 in
      let (x, active, kept, y, z', w) = prepare_rx_all_lem s u.active in
      let (saved, effective) = applying_fields r t in
      let all_saved = saved ∙ kept in
      record {
        recorded = record {
          is_captured = applying_captured r t;
          saved = u.recorded.saved ∙ ap ok (u.same_saved ∙ sym all_saved);
          current = inr (u.device ∙ ap ok (sym all_saved));
          room = u.recorded.room;
        };
        device = u.device ∙ ap ok (sym kept);
        active = active;
        same_saved = saved;
        same_effective = effective;
      }

  Setup-Recorded :
      (p : Phase) (d : Device) (r : RuntimeConfig) (s : HwtstampState)
      → Setup p d r s
      → Recorded d r
  Setup-Recorded _ _ _ _ (publish_captured r s z) =
      (Untouched-captured _ _ _ (publish_captured r s z)).recorded
  Setup-Recorded _ _ _ _ (publish_applying d r s h z) =
      (Untouched-applying _ _ _ (publish_applying d r s h z)).recorded
  Setup-Recorded _ _ _ _ (ask_driver d r s h as_is) =
      let u = Untouched-applying d r s h in
      record {
        is_captured = u.recorded.is_captured;
        saved = u.recorded.saved;
        current = elim (apply_device driver d s as_is) [
          | inl same ↦ inr (ap get same ∙ u.device ∙ ap ok (sym u.same_saved))
          | inr taken ↦ inl (taken ∙ ap ok (sym u.same_effective))
        ];
        room = u.recorded.room;
      }
  Setup-Recorded _ _ _ _ (publish_applied d r s h z) =
      let u = Untouched-applying d r s h in
      let t = apply_prepared_rx_all driver d s in
      let (took, x) = apply-Took driver d s z in
      let (saved, effective) = set_fields r t.state true in
      let all_saved = saved ∙ took.saved ∙ sym u.same_saved in
      record {
        is_captured = set_captured r t.state true;
        saved = u.recorded.saved ∙ ap ok (sym all_saved);
        current = inl (
            ap get took.device
            ∙ driver.get-set d s.effective took.config took.answer
            ∙ ap ok (sym (effective ∙ took.effective)));
        room = u.recorded.room;
      }

  -- The loader dies at any of the four points of its set-up, and nobody else sets the interface's
  -- configuration: `--recover` then puts back what the device reported before, or returns an error
  -- and leaves the device as it is. Between the driver's answer and its publication this assumes
  -- that the driver took the prepared configuration as it is, or refused it.
  pub recover-Setup :
      (p : Phase) (d : Device) (r : RuntimeConfig) (s : HwtstampState)
      → Setup p d r s
      → let x = recover_hwtstamp driver d r name in
        ((x.result ≡ restored) × (get x.device ≡ get before))
        ⊎ ((e : ℕ) × (x.result ≡ failed e) × (x.device ≡ d))
  unfolding recover_hwtstamp hwtstamp_state_from_runtime
  recover-Setup p d r s h =
      let known = Setup-Recorded p d r s h in
      let state : HwtstampState = record {
        saved = r.saved_hwtstamp;
        effective = r.effective_hwtstamp;
        interface_name = name;
        active = true;
        changed = not (config_equal r.saved_hwtstamp r.effective_hwtstamp);
      } in
      rw known.is_captured (
        rw known.room (
          restore_allowed driver before d state true refl known.saved
            (elim known.current [ inl effective ↦ inl effective | inr saved ↦ inr (saved, refl) ])))
