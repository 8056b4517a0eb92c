-- ===== src/Examples/Interface.antt =====
-- An interface that takes every configuration but those with flags, and the loader on it.
use aceteam_bachelor_thesis.Prelude.{
  ℕ, ◌≡◌, ◌≢◌, ◌⊎◌, ◌↔◌, inl, inr, refl, ap, sym, true, false, Bool-cases, List, [], ◌∷◌, some,
  ◌==◌, arith, if◌then◌else◌,
}
use aceteam_bachelor_thesis.Hwtstamp.{
  Config, Answer, ok, err, Driver, HwtstampState, restored, failed, zero_state, config_equal, query,
  capture, apply_rx_all, prepare_rx_all, apply_prepared_rx_all, enable, restore,
}
use aceteam_bachelor_thesis.Hwtstamp.Restore.{restore-enable}
use aceteam_bachelor_thesis.Loader.Detach.{
  Interface, attached, query_error, detach_if_owned, detach_if_owned_lem,
}
use aceteam_bachelor_thesis.Loader.Drain.{Lookup, values, missing, Drained, wait_for_cpumap_records}
use aceteam_bachelor_thesis.Loader.Drain.Report.{IsSound, wait_for_cpumap_records-IsSound}
use aceteam_bachelor_thesis.Loader.Runtime.{
  RuntimeConfig, initial_runtime, runtime_set_hwtstamp, runtime_set_hwtstamp_applying,
  is_recoverable, recover_hwtstamp,
}
use aceteam_bachelor_thesis.Loader.Runtime.Crash.{
  Phase, Setup, publish_captured, publish_applying, recover-Setup,
}
use aceteam_bachelor_thesis.Loader.Runtime.Publish.{publish_recoverable}
use aceteam_bachelor_thesis.Afxdp.Runtime.{is_accepted}

abbrev ask : Config → Config → Config × Answer
ask d c = if c.flags == 0 then (c, ok c) else (d, err 22)

ok_injective : (a b : Config) → ok a ≡ ok b → a ≡ b
ok_injective a b h = cc

ok_err : (a : Config) (e : ℕ) → ¬ (ok a ≡ err e)
ok_err a e h = cc

ask_errno : (d c : Config) (e : ℕ) → (ask d c).1 ≡ err e → e ≢ 0
ask_errno d c e h z = elim (Bool-cases (c.flags == 0)) [
  | inl x ↦ ok_err c e (rw x at h)
  | inr x ↦ other (rw x at h)
]
  where
    other : ¬ (err 22 ≡ err e)
    other k = cc

ask_failed : (d c : Config) (e : ℕ) → (ask d c).1 ≡ err e → (ask d c).0 ≡ d
ask_failed d c e h = elim (Bool-cases (c.flags == 0)) [
  | inl x ↦ absurd (ok_err c e (rw x at h))
  | inr x ↦ rw x refl
]

taken : (d c a : Config) → (ask d c).1 ≡ ok a → ((ask d c).0 ≡ a) × (a ≡ c)
taken d c a h = elim (Bool-cases (c.flags == 0)) [
  | inl x ↦ let same = ok_injective c a (rw x at h) in (rw x same, sym same)
  | inr x ↦ absurd (ok_err a 22 (sym (rw x at h)))
]

abbrev card : Driver
card = record {
  Device = Config;
  get = ok;
  set = ask;
  get_errno = λ d e h. absurd (ok_err d e h);
  set_errno = ask_errno;
  set_failed = ask_failed;
  get-set = λ d c a h. ap ok (taken d c a h).0;
  set-get = λ d before c a g h. (taken d c a h).1;
}

abbrev before : Config
before = record { flags = 0; tx_type = 1; rx_filter = 0 }

-- The name eth0.
abbrev name : List ℕ
name = 101 ∷ 116 ∷ 104 ∷ 48 ∷ []

restore-enable_example :
    let t = enable card before name zero_state in
    let x = restore card t.device t.state in
    ((x.result ≡ restored) × (ok x.device ≡ ok before))
    ⊎ ((e : ℕ) × (x.result ≡ failed e) × (x.device ≡ t.device))
unfolding enable apply_rx_all prepare_rx_all apply_prepared_rx_all capture query config_equal
restore-enable_example = restore-enable card before name zero_state refl

abbrev applied_state : HwtstampState
applied_state = record {
  saved = before;
  effective = record { flags = 0; tx_type = 1; rx_filter = 1 };
  interface_name = name;
  active = true;
  changed = true;
}

abbrev stranger : Config
stranger = record { flags = 0; tx_type = 0; rx_filter = 12 }

-- One CPU, five requests, four of them recorded and one that could not be.
abbrev counter : ℕ → ℕ → Lookup
counter elapsed id =
    if id == 1
    then values (5 ∷ [])
    else if id == 16
    then values (4 ∷ [])
    else if id == 18
    then values (1 ∷ [])
    else values (0 ∷ [])

readable : (e id x : ℕ) → counter e id ≡ missing x → x ≢ 0
readable e id x h z = elim (Bool-cases (id == 1)) [
  | inl a ↦ no (5 ∷ []) (rw a at h)
  | inr a ↦ elim (Bool-cases (id == 16)) [
    | inl b ↦ no (4 ∷ []) (rw b at (rw a at h))
    | inr b ↦ elim (Bool-cases (id == 18)) [
      | inl c ↦ no (1 ∷ []) (rw c at (rw b at (rw a at h)))
      | inr c ↦ no (0 ∷ []) (rw c at (rw b at (rw a at h)))
    ]
  ]
]
  where
    no : (vs : List ℕ) → ¬ (values vs ≡ missing x)
    no vs k = cc

wait_for_cpumap_records-IsSound_example :
    (r : Drained) × (wait_for_cpumap_records counter 1 true ≡ some r) × IsSound counter r
wait_for_cpumap_records-IsSound_example = wait_for_cpumap_records-IsSound counter readable 1 true

abbrev runtime : RuntimeConfig
runtime = initial_runtime 0 2 1024 40 77 123

abbrev captured_state : HwtstampState
captured_state = (capture card before name zero_state).1

abbrev applying_state : HwtstampState
applying_state = (prepare_rx_all captured_state).1

set_up_captured :
    Setup card before name Phase.captured before
      (runtime_set_hwtstamp runtime captured_state false)
      captured_state
unfolding capture query
set_up_captured = publish_captured runtime zero_state refl

set_up_applying :
    Setup card before name Phase.applying before
      (runtime_set_hwtstamp_applying
        (runtime_set_hwtstamp runtime captured_state false)
        applying_state)
      applying_state
unfolding capture query prepare_rx_all
set_up_applying = publish_applying before _ captured_state set_up_captured refl

recover-Setup_example :
    let x =
      recover_hwtstamp card before
        (runtime_set_hwtstamp_applying
          (runtime_set_hwtstamp runtime captured_state false)
          applying_state)
        name in
    ((x.result ≡ restored) × (ok x.device ≡ ok before))
    ⊎ ((e : ℕ) × (x.result ≡ failed e) × (x.device ≡ before))
recover-Setup_example =
    recover-Setup card before name Phase.applying before _ applying_state set_up_applying

publish_recoverable_example :
    let captured = runtime_set_hwtstamp runtime applied_state false in
    let applying = runtime_set_hwtstamp_applying captured applied_state in
    let applied = runtime_set_hwtstamp applying applied_state true in
    (is_recoverable captured 2 ≡ true)
    × (is_accepted captured 2 ≡ false)
    × (is_recoverable applying 2 ≡ true)
    × (is_accepted applying 2 ≡ false)
    × (is_recoverable applied 2 ≡ true)
    × ((is_accepted applied 2 ≡ true)
        ↔ ((◌≢◌ {A = ℕ} 0 1) × (applied_state.effective.rx_filter ≡ 1)))
publish_recoverable_example =
    publish_recoverable 0 2 1024 40 77 123 (omega arith) (omega arith) (omega arith) (omega arith)
      (omega arith) applied_state applied_state applied_state

-- An interface with one program at most, that takes any program off.
link_errno : (id e : ℕ) → attached id ≡ query_error e → e ≢ 0
link_errno id e h = absurd (different h)
  where
    different : ¬ (attached id ≡ query_error e)
    different k = cc

abbrev link : Interface
link = record {
  State = ℕ;
  query = attached;
  detach = λ s. (0, 0);
  query_errno = link_errno;
  detach_failed = λ s h. absurd (h refl);
  query-detach = λ s h. refl;
}

detach_if_owned_lem_example :
    let r = detach_if_owned link 41 40 in
    ((r.1 ≡ 0) → (attached r.0 ≡ attached 0))
    × ((r.1 ≢ 0) → (r.0 ≡ 41))
    × ((attached 41 ≢ attached 40) → (r.0 ≡ 41))
detach_if_owned_lem_example = detach_if_owned_lem link 41 40
