-- ===== src/UdpReceiver.antt =====
-- udp_socket/src/receiver.c and the records of udp_socket/include/protocol.h: the configuration of
-- a run, and one sample. Signed 64-bit fields are kept as their bit patterns.
pub mod Cmsg
pub mod Capture
pub mod Save
pub mod Finish
use aceteam_bachelor_thesis.Prelude.{ℕ, ◌+◌, Bool}
use aceteam_bachelor_thesis.Abi.{packet_header_size}

-- `struct receiver_config`, as far as the run after the set-up reads it. The completion pipe is
-- there when `completion_fd` is not negative.
pub record ReceiverConfig : Type 0 where
  pub flow_id : ℕ
  pub payload_size : ℕ
  pub expected_samples : ℕ
  pub drain_ms : ℕ
  pub idle_timeout_ms : ℕ
  pub require_hwts : Bool
  pub defer_flush : Bool
  pub has_completion_fd : Bool

-- `struct sample_record`.
pub record SampleRecord : Type 0 where
  pub seq : ℕ
  pub tx_ns : ℕ
  pub user_rx_mono_ns : ℕ
  pub user_rx_real_ns : ℕ
  pub hw_rx_ns : ℕ
  pub flow_id : ℕ
  pub len : ℕ
  pub flags : ℕ
  pub reserved16 : ℕ
  pub reserved32 : ℕ

-- A record of zero bytes, as memset leaves it.
abbrev pub zero_record : SampleRecord
zero_record = record {
  seq = 0;
  tx_ns = 0;
  user_rx_mono_ns = 0;
  user_rx_real_ns = 0;
  hw_rx_ns = 0;
  flow_id = 0;
  len = 0;
  flags = 0;
  reserved16 = 0;
  reserved32 = 0;
}

-- ACE_SAMPLE_F_HWTS_VALID and ACE_SAMPLE_F_CMSG_TRUNCATED.
abbrev pub sample_hwts_valid : ℕ
sample_hwts_valid = 1

abbrev pub sample_cmsg_truncated : ℕ
sample_cmsg_truncated = 2

unfoldable pub expected_packet_size : ReceiverConfig → ℕ
expected_packet_size config = packet_header_size + config.payload_size
