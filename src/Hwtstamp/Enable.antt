-- ===== src/Hwtstamp/Enable.antt =====
-- include/ace_hwtstamp.h: what a successful capture, application and enabling mean.
use aceteam_bachelor_thesis.Prelude.{
  ℕ, ◌≡◌, ◌≢◌, ◌↔◌, ◌⊎◌, inl, inr, refl, sym, ap, ◌∙◌, true, false, Bool-cases, not, ◌||◌, List,
  leb, ◌==◌, ==_iff, arith, length,
}
use aceteam_bachelor_thesis.Hwtstamp.{
  Config, config_equal, Answer, ok, err, Driver, HwtstampState, filter_all, zero_state,
  prepare_rx_all, query, Applied, captured, capture, undo_apply, applied, apply_current,
  apply_prepared_rx_all, apply_rx_all, enable, ifnamsiz,
}

pub config_equal_iff : (a b : Config) → (config_equal a b ≡ true) ↔ (a ≡ b)
unfolding config_equal
config_equal_iff a b = ground arith

-- A prepared configuration asks for every packet's time, keeps the transmit mode, and is marked as
-- a change exactly when it differs from the saved one.
pub prepare_rx_all_lem :
    (s : HwtstampState)
    → s.active ≡ true
    → let (e, t) = prepare_rx_all s in
      (e ≡ 0)
      × (t.active ≡ true)
      × (t.saved ≡ s.saved)
      × (t.effective.rx_filter ≡ filter_all)
      × (t.effective.tx_type ≡ s.saved.tx_type)
      × ((t.changed ≡ false) ↔ (t.effective ≡ s.saved))
unfolding prepare_rx_all
prepare_rx_all_lem s h = ground arith

module _ (driver : Driver) where
  open driver use {Device, get, set, get_errno, set_errno, set_failed, get-set, set-get}

  -- The prepared configuration was taken, and asks for every packet's time.
  pub record Took (d : Device) (s : HwtstampState) (t : Applied driver) : Type 0 where
    pub config : Config
    pub device : t.device ≡ (set d s.effective).0
    pub answer : (set d s.effective).1 ≡ ok config
    pub effective : t.state.effective ≡ config
    pub saved : t.state.saved ≡ s.saved
    pub active : t.state.active ≡ s.active
    pub all : config.rx_filter ≡ filter_all

  undo_fails :
      (r : Device × Answer) (s : HwtstampState)
      → ((e : ℕ) → r.1 ≡ err e → e ≢ 0)
      → (undo_apply driver r s).error ≢ 0
  unfolding undo_apply
  undo_fails (d, err e) s nonzero h = nonzero e refl h
  undo_fails (d, ok c) s nonzero h = cc

  applied-Took :
      (d : Device) (r : Device × Answer) (s : HwtstampState)
      → set d s.effective ≡ r
      → (applied driver r s).error ≡ 0
      → Took d s (applied driver r s)
  unfolding applied
  applied-Took d (d', err e) s h z =
      absurd (set_errno d s.effective e (ap (λ (x : Device × Answer). x.1) h) z)
  applied-Took d (d', ok c) s h z = elim (Bool-cases (c.rx_filter == filter_all)) [
    | inl all ↦ rw all (record {
      config = c;
      device = ap (λ (x : Device × Answer). x.0) (sym h);
      answer = ap (λ (x : Device × Answer). x.1) h;
      effective = refl;
      saved = refl;
      active = refl;
      all = (==_iff c.rx_filter filter_all).0 all;
    })
    | inr other ↦ absurd (
        undo_fails (set d' s.saved)
          (record s { effective = c; changed = not (config_equal s.saved c) })
          (λ e k. set_errno d' s.saved e k) (rw other at z))
  ]

  query_errno : (d : Device) (name : List ℕ) (e : ℕ) → query driver d name ≡ err e → e ≢ 0
  unfolding query
  query_errno d name e h z = ground (arith, get_errno d e)

  query_ok : (d : Device) (name : List ℕ) (c : Config) → query driver d name ≡ ok c → get d ≡ ok c
  unfolding query
  query_ok d name c h = ground arith

  current-Took :
      (a : Answer) (d : Device) (s : HwtstampState)
      → query driver d s.interface_name ≡ a
      → (apply_current driver a d s).error ≡ 0
      → Took d s (apply_current driver a d s) × (get d ≡ ok s.saved)
  unfolding apply_current
  current-Took (err e) d s h z = absurd (query_errno d s.interface_name e h z)
  current-Took (ok current) d s h z = elim (Bool-cases (config_equal current s.saved)) [
    | inl same ↦
        let found = query_ok d s.interface_name current h in
        (
          rw same (applied-Took d (set d s.effective) s refl (rw same at z)),
          found ∙ ap ok ((config_equal_iff current s.saved).0 same),
        )
    | inr other ↦ absurd (stale (rw other at z))
  ]
    where
      stale : ¬ (◌≡◌ {A = ℕ} 116 0)
      stale h = cc

  -- The prepared state was applied to a device whose configuration is still the saved one.
  pub apply-Took :
      (d : Device) (s : HwtstampState)
      → (apply_prepared_rx_all driver d s).error ≡ 0
      → Took d s (apply_prepared_rx_all driver d s) × (get d ≡ ok s.saved)
  unfolding apply_prepared_rx_all
  apply-Took d s z = elim (Bool-cases (not s.active || not (s.effective.rx_filter == filter_all))) [
    | inl bad ↦ absurd (invalid (rw bad at z))
    | inr good ↦ rw good (current-Took (query driver d s.interface_name) d s refl (rw good at z))
  ]
    where
      invalid : ¬ (◌≡◌ {A = ℕ} 22 0)
      invalid h = cc

  -- What a successful call of `ace_hwtstamp_enable` means.
  pub record Enabled (d : Device) (t : Applied driver) : Type 0 where
    pub saved : get d ≡ ok t.state.saved
    pub effective : get t.device ≡ ok t.state.effective
    pub active : t.state.active ≡ true
    pub every_packet : t.state.effective.rx_filter ≡ filter_all

  apply-Enabled :
      (d : Device) (s : HwtstampState)
      → s.active ≡ true
      → (apply_rx_all driver d s).error ≡ 0
      → Enabled d (apply_rx_all driver d s)
  unfolding apply_rx_all
  apply-Enabled d s on z =
      let p = prepare_rx_all s in
      let prepared = prepare_rx_all_lem s on in
      let z' = rw prepared.0 at z in
      let (took, same) = apply-Took d p.1 z' in
      rw prepared.0 (record {
        saved = same ∙ ap ok (sym took.saved);
        effective =
            ap get took.device
            ∙ get-set d p.1.effective took.config took.answer
            ∙ ap ok (sym took.effective);
        active = took.active ∙ prepared.1;
        every_packet = ap (λ (c : Config). c.rx_filter) took.effective ∙ took.all;
      })

  captured_active :
      (a : Answer) (s : HwtstampState)
      → ((e : ℕ) → a ≡ err e → e ≢ 0)
      → (captured driver a s).0 ≡ 0
      → ((captured driver a s).1.active ≡ true)
  unfolding captured
  captured_active (err e) s nonzero z = absurd (nonzero e refl z)
  captured_active (ok c) s nonzero z = refl

  capture_active :
      (d : Device) (name : List ℕ) (s : HwtstampState)
      → (capture driver d name s).0 ≡ 0
      → ((capture driver d name s).1.active ≡ true)
  unfolding capture
  capture_active d name s z =
      let t : HwtstampState = record zero_state { interface_name = name } in
      ground (arith, captured_active (query driver d name) t (query_errno d name))

  -- When `ace_hwtstamp_enable` returns 0, the device had the configuration that is saved, has the
  -- one that is recorded as effective, and that one stamps every received packet.
  pub enable-Enabled :
      (d : Device) (name : List ℕ) (s : HwtstampState)
      → (enable driver d name s).error ≡ 0
      → Enabled d (enable driver d name s)
  unfolding enable
  enable-Enabled d name s z = elim (Bool-cases ((capture driver d name s).0 == 0)) [
    | inl good ↦ rw good (
        apply-Enabled d (capture driver d name s).1 (capture_active d name s ((==_iff _ _).0 good))
          (rw good at z))
    | inr bad ↦ absurd (nonzero (capture driver d name s).0 bad (rw bad at z))
  ]
    where
      nonzero : (e : ℕ) → (e == 0) ≡ false → e ≢ 0
      nonzero e h z = ground arith

  captured_saved :
      (a : Answer) (s : HwtstampState)
      → ((e : ℕ) → a ≡ err e → e ≢ 0)
      → (captured driver a s).0 ≡ 0
      → (a ≡ ok (captured driver a s).1.saved)
  unfolding captured
  captured_saved (err e) s nonzero z = absurd (nonzero e refl z)
  captured_saved (ok c) s nonzero z = refl

  -- What a successful capture means.
  pub record Captured (d : Device) (name : List ℕ) (s : HwtstampState) : Type 0 where
    pub active : s.active ≡ true
    pub saved : get d ≡ ok s.saved
    pub room : leb ifnamsiz (length name) ≡ false

  pub capture-Captured :
      (d : Device) (name : List ℕ) (s : HwtstampState)
      → (capture driver d name s).0 ≡ 0
      → Captured d name (capture driver d name s).1
  unfolding capture
  capture-Captured d name s z =
      let t : HwtstampState = record zero_state { interface_name = name } in
      record {
        active = capture_active d name s z;
        saved =
            ground
              (arith, captured_saved (query driver d name) t (query_errno d name), query_ok d name);
        room = ground arith;
      }

  -- The driver takes this configuration as it is, or refuses it.
  abbrev pub TakesAsIs : Device → Config → Type 0
  TakesAsIs d c = ((set d c).1 ≡ ok c) ⊎ ((e : ℕ) × ((set d c).1 ≡ err e))

  applied_device :
      (d : Device) (r : Device × Answer) (s : HwtstampState)
      → set d s.effective ≡ r
      → (s.effective.rx_filter == filter_all) ≡ true
      → TakesAsIs d s.effective
      → ((applied driver r s).device ≡ d) ⊎ (get (applied driver r s).device ≡ ok s.effective)
  unfolding applied
  applied_device d (d', err e) s h all as_is = inl (
      ap (λ (x : Device × Answer). x.0) (sym h)
      ∙ set_failed d s.effective e (ap (λ (x : Device × Answer). x.1) h))
  applied_device d (d', ok c) s h all (inr (e, refused)) =
      absurd (ok_err (sym (ap (λ (x : Device × Answer). x.1) h) ∙ refused))
    where
      ok_err : ¬ (ok c ≡ err e)
      ok_err k = cc
  applied_device d (d', ok c) s h all (inl taken) =
      let answer = ap (λ (x : Device × Answer). x.1) h in
      let same : c ≡ s.effective = ok_injective (sym answer ∙ taken) in
      rw (ap (λ (x : Config). x.rx_filter == filter_all) same ∙ all) (
        inr (
          ap get (ap (λ (x : Device × Answer). x.0) (sym h))
          ∙ get-set d s.effective c answer
          ∙ ap ok same))
    where
      ok_injective : ok c ≡ ok s.effective → c ≡ s.effective
      ok_injective k = cc

  current_device :
      (a : Answer) (d : Device) (s : HwtstampState)
      → (s.effective.rx_filter == filter_all) ≡ true
      → TakesAsIs d s.effective
      → ((apply_current driver a d s).device ≡ d)
        ⊎ (get (apply_current driver a d s).device ≡ ok s.effective)
  unfolding apply_current
  current_device (err e) d s all as_is = inl refl
  current_device (ok current) d s all as_is = elim (Bool-cases (config_equal current s.saved)) [
    | inl same ↦ rw same (applied_device d (set d s.effective) s refl all as_is)
    | inr other ↦ rw other (inl refl)
  ]

  pub apply_device :
      (d : Device) (s : HwtstampState)
      → TakesAsIs d s.effective
      → let t = apply_prepared_rx_all driver d s in (t.device ≡ d) ⊎ (get t.device ≡ ok s.effective)
  unfolding apply_prepared_rx_all
  apply_device d s as_is =
      elim (Bool-cases (not s.active || not (s.effective.rx_filter == filter_all))) [
        | inl bad ↦ rw bad (inl refl)
        | inr good ↦
            rw good (current_device (query driver d s.interface_name) d s (ground arith) as_is)
      ]
