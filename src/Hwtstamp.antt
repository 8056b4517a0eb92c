-- ===== src/Hwtstamp.antt =====
-- include/ace_hwtstamp.h: saving, applying and restoring an interface's timestamp configuration.
-- The driver's two ioctls are a parameter. A name is its bytes, without the closing 0.
pub mod Enable
pub mod Restore
use aceteam_bachelor_thesis.Prelude.{
  ℕ, ◌<◌, ◌≡◌, ◌≢◌, Bool, true, false, not, ◌&&◌, ◌||◌, List, [], ◌∷◌, leb, ◌==◌, if◌then◌else◌,
  length,
}

abbrev pub einval : ℕ
einval = 22

abbrev pub enametoolong : ℕ
enametoolong = 36

abbrev pub eopnotsupp : ℕ
eopnotsupp = 95

abbrev pub estale : ℕ
estale = 116

-- IFNAMSIZ and HWTSTAMP_FILTER_ALL of the kernel's headers.
abbrev pub ifnamsiz : ℕ
ifnamsiz = 16

abbrev pub filter_all : ℕ
filter_all = 1

-- `struct hwtstamp_config`; the fields are the bit patterns of its ints.
pub record Config : Type 0 where
  pub flags : ℕ
  pub tx_type : ℕ
  pub rx_filter : ℕ

unfoldable pub config_equal : Config → Config → Bool
config_equal a b = a.flags == b.flags && a.tx_type == b.tx_type && a.rx_filter == b.rx_filter

-- An ioctl's answer: the struct that it left, or the error number.
pub data Answer : Type 0 where
  ok : Config → Answer
  err : ℕ → Answer

-- SIOCGHWTSTAMP and SIOCSHWTSTAMP, with what the kernel's documentation says of them: an error
-- number is not 0, a failed request changes nothing, a successful one is what is reported next, and a configuration that
-- the driver reported itself is taken as it is.
pub record Driver : Type 1 where
  pub Device : Type 0
  pub get : Device → Answer
  pub set : Device → Config → Device × Answer
  pub get_errno : (d : Device) (e : ℕ) → get d ≡ err e → e ≢ 0
  pub set_errno : (d : Device) (c : Config) (e : ℕ) → (set d c).1 ≡ err e → e ≢ 0
  pub set_failed : (d : Device) (c : Config) (e : ℕ) → (set d c).1 ≡ err e → (set d c).0 ≡ d
  pub get-set : (d : Device) (c a : Config) → (set d c).1 ≡ ok a → get (set d c).0 ≡ ok a
  pub set-get : (d before : Device) (c a : Config) → get before ≡ ok c → (set d c).1 ≡ ok a → a ≡ c

-- `struct ace_hwtstamp_state`.
pub record HwtstampState : Type 0 where
  pub saved : Config
  pub effective : Config
  pub interface_name : List ℕ
  pub active : Bool
  pub changed : Bool

abbrev pub zero_config : Config
zero_config = record { flags = 0; tx_type = 0; rx_filter = 0 }

abbrev pub zero_state : HwtstampState
zero_state = record {
  saved = zero_config;
  effective = zero_config;
  interface_name = [];
  active = false;
  changed = false;
}

abbrev pub is_empty : List ℕ → Bool
is_empty [] = true
is_empty (c ∷ cs) = false

-- The results of `ace_hwtstamp_restore`: 0, 1 and -e.
pub data Restored : Type 0 where
  restored skipped : Restored
  failed : ℕ → Restored

-- `ace_hwtstamp_prepare_rx_all`: 0 or the error number, and the state.
unfoldable pub prepare_rx_all : HwtstampState → ℕ × HwtstampState
unfolding config_equal
prepare_rx_all s =
    let wanted : Config = record (s.saved) { flags = 0; rx_filter = filter_all } in
    if s.active
    then (0, record s { effective = wanted; changed = not (config_equal s.saved wanted) })
    else (einval, s)

module _ (driver : Driver) where
  open driver use {Device, get, set}

  unfoldable pub query : Device → List ℕ → Answer
  query d name =
      if is_empty name
      then err einval
      else if leb ifnamsiz (length name)
      then err enametoolong
      else get d

  -- What a call leaves: 0 or the error number, the state and the device.
  pub record Applied : Type 0 where
    pub error : ℕ
    pub state : HwtstampState
    pub device : Device

  captured : Answer → HwtstampState → ℕ × HwtstampState
  captured (err e) s = (e, s)
  captured (ok c) s = (0, record s { saved = c; effective = c; active = true })

  unfoldable pub capture : Device → List ℕ → HwtstampState → ℕ × HwtstampState
  unfolding captured query
  capture d name s =
      if is_empty name
      then (einval, s)
      else if leb ifnamsiz (length name)
      then (enametoolong, zero_state)
      else captured (query d name) (record zero_state { interface_name = name })

  -- The driver took another filter: the saved configuration is put back.
  undo_apply : Device × Answer → HwtstampState → Applied
  undo_apply (d, err e) s = record { error = e; state = s; device = d }
  undo_apply (d, ok c) s = record {
    error = eopnotsupp;
    state = record s { saved = c; effective = c; changed = false };
    device = d;
  }

  -- Behind the SIOCSHWTSTAMP of the prepared configuration.
  applied : Device × Answer → HwtstampState → Applied
  unfolding undo_apply config_equal
  applied (d, err e) s = record { error = e; state = s; device = d }
  applied (d, ok c) s =
      let t = record s { effective = c; changed = not (config_equal s.saved c) } in
      if c.rx_filter == filter_all
      then record { error = 0; state = t; device = d }
      else undo_apply (set d s.saved) t

  -- Behind the second query.
  apply_current : Answer → Device → HwtstampState → Applied
  unfolding applied
  apply_current (err e) d s = record { error = e; state = s; device = d }
  apply_current (ok current) d s =
      if config_equal current s.saved
      then applied (set d s.effective) s
      else record { error = estale; state = s; device = d }

  unfoldable pub apply_prepared_rx_all : Device → HwtstampState → Applied
  unfolding apply_current query
  apply_prepared_rx_all d s =
      if not s.active || not (s.effective.rx_filter == filter_all)
      then record { error = einval; state = s; device = d }
      else apply_current (query d s.interface_name) d s

  -- Behind a step that gave an error number and a state.
  when_ok : ℕ × HwtstampState → Device → (HwtstampState → Applied) → Applied
  when_ok (e, s) d next = if e == 0 then next s else record { error = e; state = s; device = d }

  unfoldable pub apply_rx_all : Device → HwtstampState → Applied
  unfolding when_ok
  apply_rx_all d s = when_ok (prepare_rx_all s) d (apply_prepared_rx_all d)

  unfoldable pub enable : Device → List ℕ → HwtstampState → Applied
  unfolding when_ok
  enable d name s = when_ok (capture d name s) d (apply_rx_all d)

  pub record RestoreResult : Type 0 where
    pub result : Restored
    pub state : HwtstampState
    pub device : Device

  put_back : Device × Answer → HwtstampState → RestoreResult
  put_back (d, err e) s = record { result = failed e; state = s; device = d }
  put_back (d, ok c) s = record {
    result = restored;
    state = record s { saved = c; effective = c; changed = false; active = false };
    device = d;
  }

  restore_current : Answer → Device → HwtstampState → Bool → RestoreResult
  unfolding put_back config_equal
  restore_current (err e) d s allow_saved = record { result = failed e; state = s; device = d }
  restore_current (ok current) d s allow_saved =
      if not (config_equal current s.effective) && not (allow_saved && config_equal current s.saved)
      then record { result = skipped; state = s; device = d }
      else put_back (set d s.saved) s

  unfoldable pub restore_allow_saved : Device → HwtstampState → Bool → RestoreResult
  unfolding restore_current
  restore_allow_saved d s allow_saved =
      if s.active
      then restore_current (get d) d s allow_saved
      else record { result = restored; state = s; device = d }

  unfoldable pub restore : Device → HwtstampState → RestoreResult
  unfolding restore_allow_saved
  restore d s = restore_allow_saved d s false
