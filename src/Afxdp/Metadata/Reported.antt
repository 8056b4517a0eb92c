-- ===== src/Afxdp/Metadata/Reported.antt =====
-- The receiver reports what the classifier of BPF/xdp_kern.c saw.
use aceteam_bachelor_thesis.Prelude.{ℕ, ◌↔◌, ◌≡◌, true, false}
use aceteam_bachelor_thesis.Abi.{RxMeta, path_xsk, has_flag, meta_hwts_valid, meta_timestamp_error}
use aceteam_bachelor_thesis.Xdp.Measure.{Helpers, stamp}
use aceteam_bachelor_thesis.Afxdp.Metadata.{XskUserRecord}

-- A record that reports what the classifier saw: its times, its path and its error.
pub record Reports (e : Helpers) (m : RxMeta) (q : XskUserRecord) : Type 0 where
  pub initial_xdp_ns : q.initial_xdp_ns ≡ e.now
  pub requested_path : q.requested_path ≡ path_xsk
  pub hw_rx_ns : (ns : ℕ) → e.rx_timestamp ≡ stamp ns → q.hw_rx_ns ≡ ns
  pub hwts_valid :
      (has_flag q.meta_flags meta_hwts_valid ≡ true) ↔ ((ns : ℕ) × (e.rx_timestamp ≡ stamp ns))
  pub hwts_failed :
      (has_flag q.meta_flags meta_timestamp_error ≡ true)
      ↔ (has_flag q.meta_flags meta_hwts_valid ≡ false)
  pub timestamp_error : q.timestamp_error ≡ m.timestamp_error
