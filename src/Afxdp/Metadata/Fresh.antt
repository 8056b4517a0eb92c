-- ===== src/Afxdp/Metadata/Fresh.antt =====
-- The receiver takes measurements only from metadata of this very packet.
use aceteam_bachelor_thesis.Prelude.{
  ℕ, zero, suc, ◌+◌, ◌*◌, ◌/◌, ◌≤◌, ◌<◌, ◌≡◌, ◌⊎◌, inl, inr, refl, ap, Option, none, some, Bool,
  true, false, ◌&&◌, arith, ◌==◌,
}
use aceteam_bachelor_thesis.Abi.{
  RxMeta, path_xsk, rx_meta_size, rx_meta_magic, rx_meta_version, has_flag, meta_packet_id_valid,
}
use aceteam_bachelor_thesis.Afxdp.Umem.{umem_size, frame_size, chunk_start}
use aceteam_bachelor_thesis.Afxdp.Metadata.{
  Memory, le_value, decode_meta, XskUserRecord, metadata_addr, is_rx_meta, match_flags,
  copy_metadata, use_metadata, read_at, read_xdp_metadata, clear_at, clear_xdp_metadata,
  record_meta_valid, record_key_match, record_path_match,
}

-- The metadata lies inside the packet's own frame, in front of the packet.
pub metadata_addr_bounds :
    (packet_addr a : ℕ)
    → metadata_addr packet_addr ≡ some a
    → (a + rx_meta_size ≡ packet_addr)
      × (chunk_start packet_addr ≤ a)
      × (a + rx_meta_size ≤ umem_size)
unfolding metadata_addr
metadata_addr_bounds packet_addr a h = ground arith

-- The 56 bytes from `a` on end where the packet starts, lie in the packet's frame, and in the UMEM.
abbrev pub InFront : ℕ → ℕ → Type 0
InFront a packet_addr =
    (a + 56 ≡ packet_addr)
    × (frame_size * (packet_addr / frame_size) ≤ a)
    × (packet_addr < frame_size * (packet_addr / frame_size + 1))
    × (packet_addr ≤ umem_size)

metadata_addr-InFront :
    (packet_addr a : ℕ) → metadata_addr packet_addr ≡ some a → InFront a packet_addr
metadata_addr-InFront packet_addr a h =
    let bounds = metadata_addr_bounds packet_addr a h in
    (omega arith, omega arith, omega arith, omega arith)

-- A record that is new: no validation bit is set, and no measurement is in it.
abbrev pub IsNew : XskUserRecord → Type 0
IsNew r =
    (r.validation_flags ≡ 0)
    × (r.hw_rx_ns ≡ 0)
    × (r.initial_xdp_ns ≡ 0)
    × (r.meta_flags ≡ 0)
    × (r.requested_path ≡ 0)
    × (r.timestamp_error ≡ 0)

-- The bits that a new record gets.
pub match_flags_new :
    (m : RxMeta) (flow_id sequence : ℕ)
    → (has_flag (match_flags m flow_id sequence 0) record_key_match
        ≡ (m.flow_id == flow_id && m.sequence == sequence))
      × (has_flag (match_flags m flow_id sequence 0) record_path_match
          ≡ (m.requested_path == path_xsk))
      × (has_flag (match_flags m flow_id sequence 0) record_meta_valid ≡ true)
unfolding match_flags
match_flags_new m flow_id sequence = ground arith

copy_metadata_flags :
    (m : RxMeta) (r : XskUserRecord) → (copy_metadata m r).0.validation_flags ≡ r.validation_flags
unfolding copy_metadata
copy_metadata_flags m r = ground arith

-- A record whose metadata was not counted as invalid holds the measurements of metadata with this
-- very key, written for XSK; a record whose metadata was counted holds no measurement.
pub record Trusts (m : RxMeta) (flow_id sequence : ℕ) (q : XskUserRecord) (bad : Bool)
    : Type 0 where
  pub key : bad ≡ false → (m.flow_id ≡ flow_id) × (m.sequence ≡ sequence)
  pub path : bad ≡ false → m.requested_path ≡ path_xsk
  pub well_formed :
      bad ≡ false
      → (m.magic ≡ rx_meta_magic)
        × (m.version ≡ rx_meta_version)
        × (m.size ≡ rx_meta_size)
        × (has_flag m.flags meta_packet_id_valid ≡ true)
  pub copied :
      bad ≡ false
      → (q.hw_rx_ns ≡ m.hw_rx_ns)
        × (q.initial_xdp_ns ≡ m.initial_xdp_ns)
        × (q.meta_flags ≡ m.flags)
        × (q.requested_path ≡ m.requested_path)
        × (q.timestamp_error ≡ m.timestamp_error)
  pub empty :
      bad ≡ true
      → (q.hw_rx_ns ≡ 0)
        × (q.initial_xdp_ns ≡ 0)
        × (q.meta_flags ≡ 0)
        × (q.requested_path ≡ 0)
        × (q.timestamp_error ≡ 0)

use_metadata_sound :
    (m : RxMeta) (flow_id sequence : ℕ) (r : XskUserRecord)
    → IsNew r
    → Trusts m flow_id sequence
        (use_metadata m flow_id sequence r).0
        (use_metadata m flow_id sequence r).1
unfolding use_metadata copy_metadata is_rx_meta
use_metadata_sound m flow_id sequence r new =
    let bits = match_flags_new m flow_id sequence in
    let w = ap (match_flags m flow_id sequence) new.0 in
    record {
      key = λ h. ground (arith, bits, w);
      path = λ h. ground (arith, bits, w);
      well_formed = λ h. ground (arith, bits, w);
      copied = λ h. ground (arith, bits, w);
      empty = λ h. ground (arith, bits, w);
    }

-- The receiver copies measurements into a new record only from the 56 bytes right in front of the
-- packet, which lie inside the packet's frame and the UMEM, and only if they carry the magic
-- number, version, size and identity flag of metadata, the packet's own key and the XSK path;
-- otherwise the record holds no measurement.
pub read_xdp_metadata-Trusts :
    (mem : Memory) (packet_addr flow_id sequence : ℕ) (r : XskUserRecord)
    → IsNew r
    → ((a : ℕ) × InFront a packet_addr
        × Trusts
            (decode_meta mem a)
            flow_id
            sequence
            (read_xdp_metadata mem packet_addr flow_id sequence r).0
            (read_xdp_metadata mem packet_addr flow_id sequence r).1)
      ⊎ (read_xdp_metadata mem packet_addr flow_id sequence r ≡ (r, true))
read_xdp_metadata-Trusts mem packet_addr flow_id sequence r new =
    unfold read_xdp_metadata in go (metadata_addr packet_addr) refl
  where
    go :
        (where_ : Option ℕ)
        → metadata_addr packet_addr ≡ where_
        → ((a : ℕ) × InFront a packet_addr
            × Trusts
                (decode_meta mem a)
                flow_id
                sequence
                (read_at where_ mem flow_id sequence r).0
                (read_at where_ mem flow_id sequence r).1)
          ⊎ (read_at where_ mem flow_id sequence r ≡ (r, true))
    go none h = inr (unfold read_at in refl)
    go (some a) h = inl (
      a,
      metadata_addr-InFront packet_addr a h,
      unfold read_at in use_metadata_sound (decode_meta mem a) flow_id sequence r new,
    )

-- Clearing zeroes the 56 bytes of the packet's metadata and no other byte.
pub clear_xdp_metadata_lem :
    (mem : Memory) (packet_addr a j : ℕ)
    → metadata_addr packet_addr ≡ some a
    → (a ≤ j → j < packet_addr → clear_xdp_metadata mem packet_addr j ≡ 0)
      × ((j < a) ⊎ (packet_addr ≤ j) → clear_xdp_metadata mem packet_addr j ≡ mem j)
unfolding clear_xdp_metadata clear_at
clear_xdp_metadata_lem mem packet_addr a j at =
    let bounds = metadata_addr_bounds packet_addr a at in
    rw (at, clear_at) (λ lo hi. ground arith, λ out. ground arith)

le_value_zero :
    (n : ℕ) (mem : Memory) (off : ℕ)
    → ((j : ℕ) → off ≤ j → j < off + n → mem j ≡ 0)
    → le_value mem off n ≡ 0
unfolding le_value
le_value_zero zero mem off h = refl
le_value_zero (suc n) mem off h = omega (
  arith,
  h off (omega arith) (omega arith),
  le_value_zero n mem (off + 1) (λ j lo hi. h j (omega arith) (omega arith)),
)

cleared_magic :
    (mem : Memory) (packet_addr a : ℕ)
    → metadata_addr packet_addr ≡ some a
    → (decode_meta (clear_xdp_metadata mem packet_addr) a).magic ≡ 0
unfolding decode_meta
cleared_magic mem packet_addr a at =
    let bounds = metadata_addr_bounds packet_addr a at in
    le_value_zero 4 (clear_xdp_metadata mem packet_addr) a
      (λ j lo hi. (clear_xdp_metadata_lem mem packet_addr a j at).0 lo (omega (arith, bounds)))

-- After a frame's metadata was cleared, a packet that comes to the same place without metadata of
-- its own is not given the former packet's: its record stays as it was, and it is counted.
pub read-clear_xdp_metadata :
    (mem : Memory) (packet_addr flow_id sequence : ℕ) (r : XskUserRecord)
    → read_xdp_metadata (clear_xdp_metadata mem packet_addr) packet_addr flow_id sequence r
      ≡ (r, true)
read-clear_xdp_metadata mem packet_addr flow_id sequence r =
    unfold read_xdp_metadata in go (metadata_addr packet_addr) refl
  where
    bad : (m : RxMeta) → m.magic ≡ 0 → use_metadata m flow_id sequence r ≡ (r, true)
    bad m h = unfold use_metadata is_rx_meta in ground arith

    go :
        (where_ : Option ℕ)
        → metadata_addr packet_addr ≡ where_
        → read_at where_ (clear_xdp_metadata mem packet_addr) flow_id sequence r ≡ (r, true)
    go none h = unfold read_at in refl
    go (some a) h =
        unfold read_at in
        bad (decode_meta (clear_xdp_metadata mem packet_addr) a) (cleared_magic mem packet_addr a h)
