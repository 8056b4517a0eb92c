-- ===== src/Abi/Wire/RoundTrip.antt =====
-- Decoding a header gives back what the sender encoded, wherever the header stands in the packet.
use mathlib.Core.List.{append_assoc, append-nil}
use native.Mathlib.Nat.{pow-suc, add-zero}
use aceteam_bachelor_thesis.Prelude.{
  ℕ, zero, suc, ◌+◌, ◌/◌, ◌%◌, ◌^◌, ◌<◌, ◌≡◌, refl, sym, ap, ◌∙◌, List, [], ◌∷◌, ◌++◌, arith,
  length, get_or, length-append, get_or-append_right,
}
use aceteam_bachelor_thesis.Abi.Wire.{
  be_value, be_bytes, ExperimentHeader, decode_header, encode_header,
}

pub length-be_bytes : (n v : ℕ) → length (be_bytes n v) ≡ n
unfolding be_bytes
length-be_bytes zero v = refl
length-be_bytes (suc n) v =
    omega
      (arith, length-append (be_bytes n (v / 256)) ((v % 256) ∷ []), length-be_bytes n (v / 256))

be_value_step :
    (q : List ℕ) (off n v : ℕ)
    → be_value q off n ≡ v / 256
    → get_or q (off + n) 0 ≡ v % 256
    → be_value q off (suc n) ≡ v
unfolding be_value
be_value_step q off n v high low = omega arith

-- A field that fits its bytes is read back from them, with any bytes before and behind it.
pub be_value-be_bytes :
    (n v off : ℕ) (pre post : List ℕ)
    → off ≡ length pre
    → v < 256 ^ n
    → be_value (pre ++ (be_bytes n v ++ post)) off n ≡ v
unfolding be_bytes
be_value-be_bytes zero v off pre post e h = unfold be_value in omega arith
be_value-be_bytes (suc n) v off pre post e h =
    let behind : List ℕ = (v % 256) ∷ post in
    let fits : v / 256 < 256 ^ n = omega (arith, pow-suc 256 n) in
    let bytes = be_bytes n (v / 256) in
    let inner =
      get_or-append_right bytes behind n 0 0 (omega (arith, length-be_bytes n (v / 256))) in
    rw (append_assoc bytes ((v % 256) ∷ []) post) (
      be_value_step (pre ++ (bytes ++ behind)) off n v
        (be_value-be_bytes n (v / 256) off pre behind e fits)
        (get_or-append_right pre (bytes ++ behind) (off + n) n 0 (omega arith) ∙ inner))

abbrev pub IsHeader : ExperimentHeader → Type 0
IsHeader h =
    (h.magic < 2 ^ 32)
    × (h.version < 2 ^ 16)
    × (h.size < 2 ^ 16)
    × (h.flow_id < 2 ^ 32)
    × (h.reserved < 2 ^ 32)
    × (h.sequence < 2 ^ 64)
    × (h.tx_realtime_ns < 2 ^ 64)

pub length-encode_header : (h : ExperimentHeader) → length (encode_header h) ≡ 32
unfolding encode_header
length-encode_header h = simp (length-append, length-be_bytes)

-- One field of a header: `pre` is what stands before the header, `front` the fields before it.
field_of :
    (n v off k : ℕ) (q pre front rest post : List ℕ)
    → off ≡ length pre
    → k ≡ length front
    → v < 256 ^ n
    → q ≡ pre ++ ((front ++ (be_bytes n v ++ rest)) ++ post)
    → be_value q (off + k) n ≡ v
field_of n v off k q pre front rest post e d h split =
    let e' : off + k ≡ length (pre ++ front) = omega (arith, length-append pre front) in
    rw split (
      simp append_assoc (
        rw (← append_assoc pre front (be_bytes n v ++ (rest ++ post)))
          (be_value-be_bytes n v (off + k) (pre ++ front) (rest ++ post) e' h)))

module _ (h : ExperimentHeader) (off : ℕ) (pre post : List ℕ) (fits : IsHeader h)
    (e : off ≡ length pre) where
  abbrev packet : List ℕ
  packet = pre ++ (encode_header h ++ post)

  magic_read : be_value packet (off + 0) 4 ≡ h.magic
  unfolding encode_header
  magic_read =
      field_of 4 h.magic off 0 packet pre ([])
        (be_bytes 2 h.version
          ++ (be_bytes 2 h.size
              ++ (be_bytes 4 h.flow_id
                  ++ (be_bytes 4 h.reserved
                      ++ (be_bytes 8 h.sequence ++ (be_bytes 8 h.tx_realtime_ns))))))
        post e refl fits.0 (simp (append_assoc, append-nil))

  version_read : be_value packet (off + 4) 2 ≡ h.version
  unfolding encode_header
  version_read =
      field_of 2 h.version off 4 packet pre (be_bytes 4 h.magic)
        (be_bytes 2 h.size
          ++ (be_bytes 4 h.flow_id
              ++ (be_bytes 4 h.reserved
                  ++ (be_bytes 8 h.sequence ++ (be_bytes 8 h.tx_realtime_ns)))))
        post e (simp length-be_bytes) fits.1 (simp append_assoc)

  size_read : be_value packet (off + 6) 2 ≡ h.size
  unfolding encode_header
  size_read =
      field_of 2 h.size off 6 packet pre (be_bytes 4 h.magic ++ (be_bytes 2 h.version))
        (be_bytes 4 h.flow_id
          ++ (be_bytes 4 h.reserved ++ (be_bytes 8 h.sequence ++ (be_bytes 8 h.tx_realtime_ns))))
        post e (simp (length-append, length-be_bytes)) fits.2 (simp append_assoc)

  flow_id_read : be_value packet (off + 8) 4 ≡ h.flow_id
  unfolding encode_header
  flow_id_read =
      field_of 4 h.flow_id off 8 packet pre
        (be_bytes 4 h.magic ++ (be_bytes 2 h.version ++ (be_bytes 2 h.size)))
        (be_bytes 4 h.reserved ++ (be_bytes 8 h.sequence ++ (be_bytes 8 h.tx_realtime_ns))) post e
        (simp (length-append, length-be_bytes)) fits.3 (simp append_assoc)

  reserved_read : be_value packet (off + 12) 4 ≡ h.reserved
  unfolding encode_header
  reserved_read =
      field_of 4 h.reserved off 12 packet pre
        (be_bytes 4 h.magic
          ++ (be_bytes 2 h.version ++ (be_bytes 2 h.size ++ (be_bytes 4 h.flow_id))))
        (be_bytes 8 h.sequence ++ (be_bytes 8 h.tx_realtime_ns)) post e
        (simp (length-append, length-be_bytes)) fits.4 (simp append_assoc)

  sequence_read : be_value packet (off + 16) 8 ≡ h.sequence
  unfolding encode_header
  sequence_read =
      field_of 8 h.sequence off 16 packet pre
        (be_bytes 4 h.magic
          ++ (be_bytes 2 h.version
              ++ (be_bytes 2 h.size ++ (be_bytes 4 h.flow_id ++ (be_bytes 4 h.reserved)))))
        (be_bytes 8 h.tx_realtime_ns) post e (simp (length-append, length-be_bytes)) fits.5
        (simp append_assoc)

  tx_realtime_ns_read : be_value packet (off + 24) 8 ≡ h.tx_realtime_ns
  unfolding encode_header
  tx_realtime_ns_read =
      field_of 8 h.tx_realtime_ns off 24 packet pre
        (be_bytes 4 h.magic
          ++ (be_bytes 2 h.version
              ++ (be_bytes 2 h.size
                  ++ (be_bytes 4 h.flow_id ++ (be_bytes 4 h.reserved ++ (be_bytes 8 h.sequence))))))
        ([]) post e (simp (length-append, length-be_bytes)) fits.6 (simp (append_assoc, append-nil))

-- A receiver that decodes the header at its place reads exactly the fields that were encoded,
-- whatever stands before and behind it, for every header whose fields fit their widths.
pub decode_header-encode_header :
    (h : ExperimentHeader) (off : ℕ) (pre post : List ℕ)
    → IsHeader h
    → off ≡ length pre
    → decode_header (pre ++ (encode_header h ++ post)) off ≡ h
unfolding decode_header
decode_header-encode_header h off pre post fits e = λ i. record {
  magic =
      (ap (λ k. be_value (packet h off pre post fits e) k 4) (sym (add-zero off))
          ∙ magic_read h off pre post fits e)
        i;
  version = version_read h off pre post fits e i;
  size = size_read h off pre post fits e i;
  flow_id = flow_id_read h off pre post fits e i;
  reserved = reserved_read h off pre post fits e i;
  sequence = sequence_read h off pre post fits e i;
  tx_realtime_ns = tx_realtime_ns_read h off pre post fits e i;
}
