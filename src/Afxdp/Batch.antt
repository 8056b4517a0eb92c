-- ===== src/Afxdp/Batch.antt =====
-- `receive_batch` of BPF/afxdp_recv.c. The rings are libxdp's: a call is given the descriptors that
-- xsk_ring_cons__peek hands out, and what xsk_ring_prod__reserve answers on the FILL ring; its
-- result says what is released and submitted.
pub mod Conservation
use aceteam_bachelor_thesis.Prelude.{
  ℕ, zero, suc, ◌+◌, ◌*◌, ◌%◌, ◌^◌, Option, none, some, Bool, true, false, not, List, [], ◌∷◌, ◌++◌,
  ltb, ◌==◌, if◌then◌else◌, length,
}
use aceteam_bachelor_thesis.Afxdp.Packet.{
  PacketId, Reception, malformed, unexpected_port, other_payload, experiment, inspect_packet,
}
use aceteam_bachelor_thesis.Afxdp.Umem.{
  Descriptor, Address, Umem, Claimed, cancelled, claimed, claim_frames, give_back, take_frame,
  Recycled, recycled, broken, recycle_frame, roll_back, enospc, euclean, invariant_error,
}
use aceteam_bachelor_thesis.Afxdp.Metadata.{
  Memory, XskUserRecord, read_xdp_metadata, clear_xdp_metadata,
}

-- The unsigned long long counters of the file.
pub record Counters : Type 0 where
  pub received_packets : ℕ
  pub received_udp_packets : ℕ
  pub received_experiment_packets : ℕ
  pub malformed_packets : ℕ
  pub unexpected_port_packets : ℕ
  pub metadata_invalid_packets : ℕ
  pub record_overflow_packets : ℕ
  pub recycled_frames : ℕ

-- `capture_user_timestamps`: both clocks, or the error number of a failed clock_gettime.
pub data Clocks : Type 0 where
  at : ℕ → ℕ → Clocks
  clock_error : ℕ → Clocks

-- One packet of the batch: its place, its length, and what the clocks say when its turn comes.
pub record Slot : Type 0 where
  pub address : Address
  pub len : ℕ
  pub clocks : Clocks

-- `batch_error` is 0 or the error number. The records are in the order of their arrival.
pub record Receiver : Type 0 where
  pub umem : Umem
  pub memory : Memory
  pub counters : Counters
  pub records : List XskUserRecord
  pub fill : List ℕ
  pub batch_error : ℕ

abbrev inc64 : ℕ → ℕ
inc64 n = (n + 1) % 2 ^ 64

-- if (!batch_error) batch_error = err.
abbrev note_error : ℕ → Receiver → Receiver
note_error err s = record s { batch_error = if s.batch_error == 0 then err else s.batch_error }

-- The bytes of a packet.
pub slice : Memory → ℕ → ℕ → List ℕ
slice mem a zero = []
slice mem a (suc n) = mem a ∷ slice mem (a + 1) n

new_record : PacketId → ℕ → ℕ → ℕ → ℕ → XskUserRecord
new_record id queue_id mono real len = record {
  flow_id = id.flow_id;
  rx_queue = queue_id;
  sequence = id.sequence;
  tx_realtime_ns = id.tx_realtime_ns;
  user_rx_mono_ns = mono;
  user_rx_real_ns = real;
  hw_rx_ns = 0;
  initial_xdp_ns = 0;
  meta_flags = 0;
  requested_path = 0;
  timestamp_error = 0;
  packet_length = len;
  validation_flags = 0;
}

-- The bookkeeping of the frame, behind the label.
settle : Umem × Recycled → Receiver → Receiver
settle (u, recycled) s =
    let c = s.counters in
    record s { umem = u; counters = record c { recycled_frames = inc64 c.recycled_frames } }
settle (u, broken) s = note_error euclean (record s { umem = u })

module _ (queue_id record_capacity : ℕ) where
  -- The record of an experiment packet, or the overflow.
  store_record : PacketId → ℕ → ℕ → Slot → Receiver → Receiver
  unfolding new_record
  store_record id mono real slot s =
      let (r, bad) =
        read_xdp_metadata s.memory slot.address.data_addr id.flow_id id.sequence
          (new_record id queue_id mono real slot.len) in
      let c = s.counters in
      if ltb (length s.records) record_capacity
      then record s {
        records = s.records ++ r ∷ [];
        counters = record c {
          metadata_invalid_packets =
              if bad then inc64 c.metadata_invalid_packets else c.metadata_invalid_packets;
        };
      }
      else note_error enospc (record s {
        counters = record c { record_overflow_packets = inc64 c.record_overflow_packets };
      })

  -- What the parsers make of the packet. `none`, a read past the packet, does not happen.
  account_packet : Option Reception → ℕ → ℕ → Slot → Receiver → Receiver
  unfolding store_record
  account_packet none mono real slot s = s
  account_packet (some malformed) mono real slot s =
      let c = s.counters in
      record s { counters = record c { malformed_packets = inc64 c.malformed_packets } }
  account_packet (some unexpected_port) mono real slot s =
      let c = s.counters in
      record s {
        counters = record c {
          received_udp_packets = inc64 c.received_udp_packets;
          unexpected_port_packets = inc64 c.unexpected_port_packets;
        };
      }
  account_packet (some other_payload) mono real slot s =
      let c = s.counters in
      record s { counters = record c { received_udp_packets = inc64 c.received_udp_packets } }
  account_packet (some (experiment id)) mono real slot s =
      let c = s.counters in
      store_record id mono real slot (record s {
        counters = record c {
          received_udp_packets = inc64 c.received_udp_packets;
          received_experiment_packets = inc64 c.received_experiment_packets;
        };
      })

  -- Up to the label `recycle`.
  observe : Clocks → Slot → Receiver → Receiver
  unfolding account_packet slice
  observe (clock_error err) slot s = note_error err s
  observe (at mono real) slot s =
      account_packet (inspect_packet (slice s.memory slot.address.data_addr slot.len)) mono real
        slot s

  -- One round of the third loop.
  receive_packet : Slot → Receiver → Receiver
  unfolding observe settle recycle_frame
  receive_packet slot s =
      let c = s.counters in
      let t =
        observe slot.clocks slot
          (record s { counters = record c { received_packets = inc64 c.received_packets } }) in
      settle (recycle_frame slot.address t.umem) (record t {
        memory = clear_xdp_metadata t.memory slot.address.data_addr;
        fill = t.fill ++ slot.address.fill_addr ∷ [];
      })

  receive_packets : List Slot → Receiver → Receiver
  unfolding receive_packet
  receive_packets [] s = s
  receive_packets (slot ∷ slots) s = receive_packets slots (receive_packet slot s)

-- The packets of a batch whose descriptors were all accepted; `clocks i` is read for the i-th.
make_slots : List Address → List Descriptor → ℕ → (ℕ → Clocks) → List Slot
make_slots [] ds i clocks = []
make_slots (a ∷ more) [] i clocks = []
make_slots (a ∷ more) (d ∷ ds) i clocks =
    record { address = a; len = d.len; clocks = clocks i } ∷ make_slots more ds (i + 1) clocks

-- `consumed` says that the RX entries are released and the FILL entries submitted; otherwise the
-- peek is cancelled. `error` is 0 if the call returns the number of packets.
pub record BatchResult : Type 0 where
  pub error : ℕ
  pub count : ℕ
  pub consumed : Bool
  pub state : Receiver

-- Behind the third loop: a frame that is still out is a broken invariant.
final_check : Receiver → Receiver
final_check s =
    if s.umem.userspace_owned_frames == 0
    then s
    else note_error euclean (record s { umem = invariant_error s.umem })

module _ (queue_id record_capacity : ℕ) where
  consume : List Slot → ℕ → Receiver → BatchResult
  unfolding receive_packets final_check
  consume slots received s =
      let t = final_check (
        receive_packets queue_id record_capacity slots (record s { fill = []; batch_error = 0 })) in
      record { error = t.batch_error; count = received; consumed = true; state = t }

  -- Behind the first loop, with the number of FILL entries that could be reserved.
  after_claim : Claimed → List Descriptor → ℕ → (ℕ → Clocks) → Receiver → BatchResult
  unfolding consume make_slots roll_back
  after_claim (cancelled err u) ds reserved clocks s = record {
    error = err;
    count = 0;
    consumed = false;
    state = record s { umem = u };
  }
  after_claim (claimed addrs u) ds reserved clocks s =
      if reserved == length ds
      then consume (make_slots addrs ds 0 clocks) (length ds) (record s { umem = u })
      else record {
        error = enospc;
        count = 0;
        consumed = false;
        state = record s { umem = roll_back addrs u };
      }

  unfoldable pub receive_batch : List Descriptor → ℕ → (ℕ → Clocks) → Receiver → BatchResult
  unfolding after_claim claim_frames
  receive_batch [] reserved clocks s = record { error = 0; count = 0; consumed = false; state = s }
  receive_batch (d ∷ ds) reserved clocks s =
      after_claim (claim_frames (d ∷ ds) [] s.umem) (d ∷ ds) reserved clocks s
