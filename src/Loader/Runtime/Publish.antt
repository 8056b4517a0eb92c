-- ===== src/Loader/Runtime/Publish.antt =====
-- What the loader publishes while it sets the timestamps up, as `--recover` and the AF_XDP
-- receiver read it.
use aceteam_bachelor_thesis.Prelude.{
  ℕ, ◌≡◌, ◌≢◌, ◌≤◌, ◌↔◌, inl, inr, refl, true, false, not, ◌&&◌, Bool-cases, ltb, ◌==◌, ==_iff,
  arith,
}
use aceteam_bachelor_thesis.Abi.{forward_all_pass}
use aceteam_bachelor_thesis.Hwtstamp.{HwtstampState, filter_all}
use aceteam_bachelor_thesis.Loader.Runtime.{
  RuntimeConfig, initial_runtime, runtime_set_hwtstamp, runtime_set_hwtstamp_applying,
  is_recoverable,
}
use aceteam_bachelor_thesis.Afxdp.Runtime.{is_accepted}

nonzero : (n : ℕ) → n ≢ 0 → (n == 0) ≡ false
nonzero n h = ground arith

not_above : (n : ℕ) → n ≤ 1048576 → ltb 1048576 n ≡ false
not_above n h = ground arith

closed :
    (mode filter : ℕ)
    → (mode == 1) ≡ true
    → ((not (not (filter == filter_all)) && false) ≡ true)
      ↔ ((mode ≢ forward_all_pass) × (filter ≡ filter_all))
closed mode filter h = ground arith

open_to :
    (mode filter : ℕ)
    → (mode == 1) ≡ false
    → ((not (not (filter == filter_all)) && true) ≡ true)
      ↔ ((mode ≢ forward_all_pass) × (filter ≡ filter_all))
open_to mode filter h = ground arith

module _ (mode ifindex capacity owned_id pid start_ticks : ℕ) (some_records : capacity ≢ 0)
    (few_records : capacity ≤ 1048576) (some_program : owned_id ≢ 0) (some_pid : pid ≢ 0)
    (some_ticks : start_ticks ≢ 0) where
  abbrev pub first_runtime : RuntimeConfig
  first_runtime = initial_runtime mode ifindex capacity owned_id pid start_ticks

  -- Each of the loader's three publications, under any forwarding mode, is one that `--recover`
  -- accepts, where the record capacity is in its range, and the program, the process and its
  -- start are not 0. The receiver accepts the last one alone, provided that the mode is not
  -- all-pass and the driver's filter takes all packets.
  pub publish_recoverable :
      (s t u : HwtstampState)
      → let captured = runtime_set_hwtstamp first_runtime s false in
        let applying = runtime_set_hwtstamp_applying captured t in
        let applied = runtime_set_hwtstamp applying u true in
        (is_recoverable captured ifindex ≡ true)
        × (is_accepted captured ifindex ≡ false)
        × (is_recoverable applying ifindex ≡ true)
        × (is_accepted applying ifindex ≡ false)
        × (is_recoverable applied ifindex ≡ true)
        × ((is_accepted applied ifindex ≡ true)
            ↔ ((mode ≢ forward_all_pass) × (u.effective.rx_filter ≡ filter_all)))
  unfolding initial_runtime runtime_set_hwtstamp runtime_set_hwtstamp_applying is_recoverable
      is_accepted
  publish_recoverable s t u = rw ((==_iff ifindex ifindex).1 refl) (
      rw (nonzero capacity some_records) (
        rw (nonzero owned_id some_program) (
          rw (nonzero pid some_pid) (
            rw (nonzero start_ticks some_ticks) (
              rw (not_above capacity few_records) (elim (Bool-cases (mode == 1)) [
                | inl all ↦
                    rw all (refl, refl, refl, refl, refl, closed mode u.effective.rx_filter all)
                | inr mixed ↦ rw mixed (elim (Bool-cases (mode == 2)) [
                  | inl x ↦
                      rw x (refl, refl, refl, refl, refl, open_to mode u.effective.rx_filter mixed)
                  | inr x ↦
                      rw x (refl, refl, refl, refl, refl, open_to mode u.effective.rx_filter mixed)
                ])
              ]))))))
