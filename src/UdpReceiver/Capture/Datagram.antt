-- ===== src/UdpReceiver/Capture/Datagram.antt =====
-- The datagrams that udp_socket/src/receiver.c stores are those that udp_socket/src/sender.c sends.
use mathlib.Core.List.{append_assoc}
use aceteam_bachelor_thesis.Prelude.{
  ℕ, zero, suc, ◌+◌, ◌*◌, ◌/◌, ◌%◌, ◌^◌, ◌≡◌, ◌≤◌, ◌<◌, ◌↔◌, refl, ap, subst, ◌∙◌, true, false,
  List, [], ◌∷◌, ◌++◌, arith, length, get_or, drop, length-append, length-drop,
}
use aceteam_bachelor_thesis.Abi.{packet_magic, packet_version, packet_header_size}
use aceteam_bachelor_thesis.Abi.Wire.{
  be_value, be_bytes, decode_header, encode_header, sender_header, is_experiment_header,
}
use aceteam_bachelor_thesis.Abi.Wire.RoundTrip.{length-encode_header, decode_header-encode_header}
use aceteam_bachelor_thesis.UdpReceiver.{ReceiverConfig, expected_packet_size}
use aceteam_bachelor_thesis.UdpReceiver.Capture.{Message, is_flow_header, new_record}
use aceteam_bachelor_thesis.UdpReceiver.Capture.Books.{passes}

abbrev pub AreBytes : List ℕ → Type 0
AreBytes [] = Unit
AreBytes (x ∷ xs) = (x < 256) × AreBytes xs

get_or-lt : (p : List ℕ) (i : ℕ) → AreBytes p → get_or p i 0 < 256
get_or-lt [] i h = omega arith
get_or-lt (x ∷ xs) zero h = h.0
get_or-lt (x ∷ xs) (suc i) h = get_or-lt xs i h.1

drop_step : (p : List ℕ) (i : ℕ) → i < length p → drop i p ≡ get_or p i 0 ∷ drop (suc i) p
drop_step [] i h = absurd (omega arith)
drop_step (x ∷ xs) zero h = refl
drop_step (x ∷ xs) (suc i) h = drop_step xs i (omega arith)

-- Some bytes of a packet are those of the number that they stand for.
drop-be_bytes :
    (p : List ℕ) (n off : ℕ)
    → AreBytes p
    → off + n ≤ length p
    → drop off p ≡ be_bytes n (be_value p off n) ++ drop (off + n) p
unfolding be_bytes be_value
drop-be_bytes p zero off bytes fits = ap (λ k. drop k p) (omega arith)
drop-be_bytes p (suc n) off bytes fits =
    let v = be_value p off n in
    let b = get_or p (off + n) 0 in
    let small = get_or-lt p (off + n) bytes in
    let high : (v * 256 + b) / 256 ≡ v = omega arith in
    let low : (v * 256 + b) % 256 ≡ b = omega arith in
    let next : off + suc n ≡ suc (off + n) = omega arith in
    rw (high, low, next, append_assoc (be_bytes n v) (b ∷ []) (drop (suc (off + n)) p))
      (drop-be_bytes p n off bytes (omega arith)
        ∙ ap (λ t. be_bytes n v ++ t) (drop_step p (off + n) (omega arith)))

-- A packet with room for a header begins with the encoding of the header that is decoded from it.
pub encode_header-decode_header :
    (p : List ℕ) → AreBytes p → 32 ≤ length p → p ≡ encode_header (decode_header p 0) ++ drop 32 p
unfolding encode_header decode_header
encode_header-decode_header p bytes long =
    let at = λ (n off : ℕ) (fits : off + n ≤ length p). drop-be_bytes p n off bytes fits in
    simp append_assoc (
      at 4 0 (omega arith)
      ∙ ap (λ t. be_bytes 4 (be_value p 0 4) ++ t)
          (at 2 4 (omega arith)
            ∙ ap (λ t. be_bytes 2 (be_value p 4 2) ++ t)
                (at 2 6 (omega arith)
                  ∙ ap (λ t. be_bytes 2 (be_value p 6 2) ++ t)
                      (at 4 8 (omega arith)
                        ∙ ap (λ t. be_bytes 4 (be_value p 8 4) ++ t)
                            (at 4 12 (omega arith)
                              ∙ ap (λ t. be_bytes 4 (be_value p 12 4) ++ t)
                                  (at 8 16 (omega arith)
                                    ∙ ap (λ t. be_bytes 8 (be_value p 16 8) ++ t)
                                        (at 8 24 (omega arith))))))))

-- The datagram of a packet that the sender counts as `seq` and sends at `tx`, with some payload.
abbrev pub Sent : ReceiverConfig → Message → ℕ → ℕ → Type 0
Sent config m seq tx =
    (payload : List ℕ) × (m.bytes ≡ encode_header (sender_header config.flow_id seq tx) ++ payload)
    × (length payload ≡ config.payload_size)

module _ (config : ReceiverConfig) (m : Message) (mono real seq tx : ℕ) where
  passes-Sent :
      AreBytes m.bytes
      → (passes config m ≡ true)
        × ((new_record config m mono real).seq ≡ seq)
        × ((new_record config m mono real).tx_ns ≡ tx)
      → (m.truncated ≡ false) × Sent config m seq tx
  unfolding new_record expected_packet_size is_flow_header is_experiment_header sender_header
  passes-Sent bytes (pass, of_seq, of_tx) =
      let whole : m.truncated ≡ false = ground arith in
      let long : length m.bytes ≡ 32 + config.payload_size = ground arith in
      let h = decode_header m.bytes 0 in
      let magic : h.magic ≡ packet_magic = ground arith in
      let version : h.version ≡ packet_version = ground arith in
      let size : h.size ≡ packet_header_size = ground arith in
      let reserved : h.reserved ≡ 0 = ground arith in
      let flow : h.flow_id ≡ config.flow_id = ground arith in
      let same : h ≡ sender_header config.flow_id seq tx = λ i. record {
        magic = magic i;
        version = version i;
        size = size i;
        flow_id = flow i;
        reserved = reserved i;
        sequence = of_seq i;
        tx_realtime_ns = of_tx i;
      } in
      let split = encode_header-decode_header m.bytes bytes (omega arith) in
      (
        whole,
        (
          drop 32 m.bytes,
          subst (λ x. m.bytes ≡ encode_header x ++ drop 32 m.bytes) same split,
          omega (arith, length-drop 32 m.bytes),
        ),
      )

  Sent-passes :
      config.flow_id < 2 ^ 32
      → seq < 2 ^ 64
      → tx < 2 ^ 64
      → (m.truncated ≡ false) × Sent config m seq tx
      → (passes config m ≡ true)
        × ((new_record config m mono real).seq ≡ seq)
        × ((new_record config m mono real).tx_ns ≡ tx)
  unfolding new_record expected_packet_size is_flow_header is_experiment_header sender_header
  Sent-passes flow_fits seq_fits tx_fits (whole, (payload, sent, size)) =
      let h = sender_header config.flow_id seq tx in
      let decoded : decode_header m.bytes 0 ≡ h =
        rw sent (decode_header-encode_header h 0 ([]) payload (omega arith) refl) in
      let long : length m.bytes ≡ 32 + config.payload_size =
        rw sent
          (omega (arith, length-append (encode_header h) payload, length-encode_header h, size)) in
      let ours : is_flow_header config (decode_header m.bytes 0) ≡ true =
        rw decoded (ground arith) in
      (ground arith, ap (λ x. x.sequence) decoded, ap (λ x. x.tx_realtime_ns) decoded)

  -- When the datagram is made of bytes and the numbers fit their fields: a message passes the tests
  -- of the receiver, and its record has this sequence number and this sending time, exactly if it
  -- is whole and its bytes are the header that the sender writes for them in the receiver's flow,
  -- followed by a payload of the configured length.
  pub passes-iff-Sent :
      AreBytes m.bytes
      → config.flow_id < 2 ^ 32
      → seq < 2 ^ 64
      → tx < 2 ^ 64
      → ((passes config m ≡ true)
          × ((new_record config m mono real).seq ≡ seq)
          × ((new_record config m mono real).tx_ns ≡ tx))
        ↔ ((m.truncated ≡ false) × Sent config m seq tx)
  passes-iff-Sent bytes flow_fits seq_fits tx_fits =
      (passes-Sent bytes, Sent-passes flow_fits seq_fits tx_fits)
