-- ===== src/Hwtstamp/Restore.antt =====
-- include/ace_hwtstamp.h: restoring comes back to the interface's configuration, and nobody else's
-- is overwritten.
use aceteam_bachelor_thesis.Prelude.{
  ℕ, ◌≡◌, ◌≢◌, ◌⊎◌, inl, inr, refl, sym, ap, ◌∙◌, Bool, true, false, Bool-cases, List,
}
use aceteam_bachelor_thesis.Hwtstamp.{
  Config, config_equal, Answer, ok, err, Driver, HwtstampState, restored, skipped, failed, enable,
  put_back, restore_current, restore_allow_saved, restore,
}
use aceteam_bachelor_thesis.Hwtstamp.Enable.{config_equal_iff, enable-Enabled}

module _ (driver : Driver) where
  open driver use {Device, get, set, get_errno, set_errno, set_failed, get-set, set-get}

  put_back_lem :
      (d : Device) (r : Device × Answer) (s : HwtstampState) (before : Device)
      → set d s.saved ≡ r
      → get before ≡ ok s.saved
      → let x = put_back driver r s in
        ((x.result ≡ restored) × (get x.device ≡ get before))
        ⊎ ((e : ℕ) × (x.result ≡ failed e) × (x.device ≡ d))
  unfolding put_back
  put_back_lem d (d', err e) s before h saved = inr (
    e,
    refl,
    ap (λ (x : Device × Answer). x.0) (sym h)
        ∙ set_failed d s.saved e (ap (λ (x : Device × Answer). x.1) h),
  )
  put_back_lem d (d', ok c) s before h saved =
      let answer = ap (λ (x : Device × Answer). x.1) h in
      inl (
        refl,
        ap get (ap (λ (x : Device × Answer). x.0) (sym h))
            ∙ get-set d s.saved c answer
            ∙ ap ok (set-get d before s.saved c saved answer)
            ∙ sym saved,
      )

  restore_allow_saved_active :
      (d : Device) (s : HwtstampState) (allow_saved : Bool)
      → s.active ≡ true
      → restore_allow_saved driver d s allow_saved ≡ restore_current driver (get d) d s allow_saved
  unfolding restore_allow_saved
  restore_allow_saved_active d s allow_saved h = simp h

  -- A restore that is allowed to run on the device, whose saved configuration was that of `before`.
  pub restore_allowed :
      (before d : Device) (s : HwtstampState) (allow_saved : Bool)
      → s.active ≡ true
      → get before ≡ ok s.saved
      → (get d ≡ ok s.effective) ⊎ ((get d ≡ ok s.saved) × (allow_saved ≡ true))
      → let x = restore_allow_saved driver d s allow_saved in
        ((x.result ≡ restored) × (get x.device ≡ get before))
        ⊎ ((e : ℕ) × (x.result ≡ failed e) × (x.device ≡ d))
  unfolding restore_allow_saved restore_current
  restore_allowed before d s allow_saved active saved (inl effective) =
      rw (restore_allow_saved_active d s allow_saved active) (
        rw effective (
          rw ((config_equal_iff s.effective s.effective).1 refl)
            (put_back_lem d (set d s.saved) s before refl saved)))
  restore_allowed before d s allow_saved active saved (inr (same, allowed)) =
      rw (restore_allow_saved_active d s allow_saved active) (
        rw same (
          rw allowed (
            rw ((config_equal_iff s.saved s.saved).1 refl)
              (elim (Bool-cases (config_equal s.saved s.effective)) [
                | inl x ↦ rw x (put_back_lem d (set d s.saved) s before refl saved)
                | inr x ↦ rw x (put_back_lem d (set d s.saved) s before refl saved)
              ]))))

  -- Behind an `ace_hwtstamp_enable` that returned 0, `ace_hwtstamp_restore` on the device and the
  -- state that it left either returns 0, and then the device reports again what it reported before
  -- the two calls, or it returns an error and leaves the device as it was.
  pub restore-enable :
      (d : Device) (name : List ℕ) (s : HwtstampState)
      → (enable driver d name s).error ≡ 0
      → let t = enable driver d name s in
        let x = restore driver t.device t.state in
        ((x.result ≡ restored) × (get x.device ≡ get d))
        ⊎ ((e : ℕ) × (x.result ≡ failed e) × (x.device ≡ t.device))
  unfolding restore
  restore-enable d name s z =
      let t = enable driver d name s in
      let e = enable-Enabled driver d name s z in
      restore_allowed d t.device t.state false e.active e.saved (inl e.effective)

  -- `ace_hwtstamp_restore` on an active state leaves a device alone, and returns 1, when its
  -- configuration is not the one that was applied: another program has set it since.
  pub restore_skips :
      (d : Device) (s : HwtstampState) (current : Config)
      → s.active ≡ true
      → get d ≡ ok current
      → current ≢ s.effective
      → let x = restore driver d s in (x.result ≡ skipped) × (x.device ≡ d) × (x.state ≡ s)
  unfolding restore restore_current
  restore_skips d s current active answer other = rw (restore_allow_saved_active d s false active) (
      rw answer (elim (Bool-cases (config_equal current s.effective)) [
        | inl same ↦ absurd (other ((config_equal_iff current s.effective).0 same))
        | inr differs ↦ rw differs (refl, refl, refl)
      ]))
