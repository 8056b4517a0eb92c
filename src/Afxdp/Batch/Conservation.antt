-- ===== src/Afxdp/Batch/Conservation.antt =====
-- No frame of the UMEM is lost or given back twice by `receive_batch`.
use aceteam_bachelor_thesis.Prelude.{
  ℕ, ◌+◌, ◌^◌, ◌<◌, ◌%◌, ◌≡◌, refl, sym, ap, subst, ◌∙◌, inl, inr, Option, none, some, true,
  Bool-cases, List, [], ◌∷◌, ◌++◌, map, arith, ◌==◌, length, length-map,
}
use mathlib.Core.List.{append_assoc, append-nil}
use aceteam_bachelor_thesis.Afxdp.Packet.{
  Reception, malformed, unexpected_port, other_payload, experiment, inspect_packet,
}
use aceteam_bachelor_thesis.Afxdp.Umem.{
  Descriptor, Address, Umem, Claimed, cancelled, claimed, claim_frames, give_back, recycled, broken,
  recycle_frame, Recycled, roll_back,
}
use aceteam_bachelor_thesis.Afxdp.Umem.Rollback.{SameOwners, claim_frames_restores}
use aceteam_bachelor_thesis.Afxdp.Umem.Recycle.{Out, claim_frames-Out, recycle_frame-Out}
use aceteam_bachelor_thesis.Afxdp.Metadata.{clear_xdp_metadata}
use aceteam_bachelor_thesis.Afxdp.Batch.{
  Clocks, at, clock_error, Slot, Receiver, BatchResult, slice, account_packet, observe, settle,
  receive_packet, receive_packets, make_slots, final_check, consume, after_claim, receive_batch,
}

settle_frames :
    (r : Umem × Recycled) (s : Receiver) → ((settle r s).umem ≡ r.0) × ((settle r s).fill ≡ s.fill)
unfolding settle
settle_frames (u, recycled) s = (refl, refl)
settle_frames (u, broken) s = (refl, refl)

module _ (queue_id capacity : ℕ) where
  account_frames :
      (r : Option Reception) (mono real : ℕ) (slot : Slot) (s : Receiver)
      → ((account_packet queue_id capacity r mono real slot s).umem ≡ s.umem)
        × ((account_packet queue_id capacity r mono real slot s).fill ≡ s.fill)
  unfolding account_packet
  account_frames none mono real slot s = (refl, refl)
  account_frames (some malformed) mono real slot s = (refl, refl)
  account_frames (some unexpected_port) mono real slot s = (refl, refl)
  account_frames (some other_payload) mono real slot s = (refl, refl)
  account_frames (some (experiment id)) mono real slot s = ground arith

  observe_frames :
      (c : Clocks) (slot : Slot) (s : Receiver)
      → ((observe queue_id capacity c slot s).umem ≡ s.umem)
        × ((observe queue_id capacity c slot s).fill ≡ s.fill)
  unfolding observe
  observe_frames (clock_error err) slot s = (refl, refl)
  observe_frames (at mono real) slot s =
      account_frames (inspect_packet (slice s.memory slot.address.data_addr slot.len)) mono real
        slot s

  receive_packet_frames :
      (slot : Slot) (s : Receiver)
      → ((receive_packet queue_id capacity slot s).umem ≡ (recycle_frame slot.address s.umem).0)
        × ((receive_packet queue_id capacity slot s).fill ≡ s.fill ++ slot.address.fill_addr ∷ [])
  unfolding receive_packet
  receive_packet_frames slot s =
      let c = s.counters in
      let start : Receiver = record s {
        counters = record c { received_packets = (c.received_packets + 1) % 2 ^ 64 };
      } in
      let t = observe queue_id capacity slot.clocks slot start in
      let seen = observe_frames slot.clocks slot start in
      let books = settle_frames (recycle_frame slot.address t.umem) (record t {
        memory = clear_xdp_metadata t.memory slot.address.data_addr;
        fill = t.fill ++ slot.address.fill_addr ∷ [];
      }) in
      (
        books.0 ∙ ap (λ u. (recycle_frame slot.address u).0) seen.0,
        books.1 ∙ ap (λ l. l ++ slot.address.fill_addr ∷ []) seen.1,
      )

  -- The rounds of the third loop put the frames back one by one, and enter each in the FILL ring.
  receive_packets_frames :
      (slots : List Slot) (s : Receiver)
      → length slots < 2 ^ 32
      → Out (map (λ (x : Slot). x.address) slots) s.umem
      → let t = receive_packets queue_id capacity slots s in
        (t.umem ≡ roll_back (map (λ (x : Slot). x.address) slots) s.umem)
        × (t.fill ≡ s.fill ++ map (λ (x : Slot). x.address.fill_addr) slots)
  unfolding receive_packets roll_back
  receive_packets_frames [] s small out = (refl, sym (append-nil s.fill))
  receive_packets_frames (slot ∷ slots) s small out =
      let addrs = map (λ (x : Slot). x.address) slots in
      let step =
        recycle_frame-Out slot.address addrs s.umem
          (omega (arith, length-map (λ (x : Slot). x.address) slots)) out in
      let one = receive_packet_frames slot s in
      let back : (receive_packet queue_id capacity slot s).umem ≡ give_back slot.address s.umem =
        one.0 ∙ ap (λ (r : Umem × Recycled). r.0) step.0 in
      let rest =
        receive_packets_frames slots (receive_packet queue_id capacity slot s) (omega arith)
          (subst (Out addrs) (sym back) step.1) in
      (
        rest.0 ∙ ap (roll_back addrs) back,
        rest.1
            ∙ ap (λ l. l ++ map (λ (x : Slot). x.address.fill_addr) slots) one.1
            ∙ append_assoc s.fill (slot.address.fill_addr ∷ [])
                (map (λ (x : Slot). x.address.fill_addr) slots),
      )

final_check_sound : (s : Receiver) → s.umem.userspace_owned_frames ≡ 0 → final_check s ≡ s
unfolding final_check
final_check_sound s h = ground arith

make_slots_addresses :
    (addrs : List Address) (ds : List Descriptor) (i : ℕ) (clocks : ℕ → Clocks)
    → length addrs ≡ length ds
    → map (λ (x : Slot). x.address) (make_slots addrs ds i clocks) ≡ addrs
unfolding make_slots
make_slots_addresses [] ds i clocks h = refl
make_slots_addresses (a ∷ addrs) [] i clocks h = absurd (omega arith)
make_slots_addresses (a ∷ addrs) (d ∷ ds) i clocks h =
    ap (λ l. a ∷ l) (make_slots_addresses addrs ds (i + 1) clocks (omega arith))

-- What a call leaves of the frames: nobody's frame has changed hands, and none is out.
pub record Conserves (before : Receiver) (r : BatchResult) : Type 0 where
  pub owners : SameOwners r.state.umem before.umem
  -- A call that consumes its descriptors enters as many frames in the FILL ring.
  pub refilled : r.consumed ≡ true → length r.state.fill ≡ r.count

module _ (queue_id capacity : ℕ) where
  consume-Conserves :
      (addrs : List Address) (slots : List Slot) (n : ℕ) (u : Umem) (s : Receiver)
      → map (λ (x : Slot). x.address) slots ≡ addrs
      → length addrs ≡ n
      → n < 2 ^ 32
      → Out addrs u
      → SameOwners (roll_back addrs u) s.umem
      → s.umem.userspace_owned_frames ≡ 0
      → Conserves s (consume queue_id capacity slots n (record s { umem = u }))
  unfolding consume
  consume-Conserves addrs slots n u s same len small out back clean =
      let start : Receiver = record s { umem = u; fill = []; batch_error = 0 } in
      let many : length slots ≡ n =
        sym (length-map (λ (x : Slot). x.address) slots)
        ∙ ap (λ (l : List Address). length l) same
        ∙ len in
      let t = receive_packets queue_id capacity slots start in
      let done =
        receive_packets_frames queue_id capacity slots start (omega (arith, many))
          (subst (λ l. Out l u) (sym same) out) in
      let umem : t.umem ≡ roll_back addrs u = done.0 ∙ ap (λ l. roll_back l u) same in
      let nobody : t.umem.userspace_owned_frames ≡ 0 =
        ap (λ (x : Umem). x.userspace_owned_frames) umem ∙ back.count ∙ clean in
      let checked = final_check_sound t nobody in
      record {
        owners = record {
          owner = λ g.
              ap (λ (x : Receiver). x.umem.frame_in_kernel g) checked
              ∙ ap (λ (x : Umem). x.frame_in_kernel g) umem
              ∙ back.owner g;
          count = ap (λ (x : Receiver). x.umem.userspace_owned_frames) checked ∙ nobody ∙ sym clean;
        };
        refilled = λ _.
            ap (λ (x : Receiver). length x.fill) checked
            ∙ ap (λ (l : List ℕ). length l) done.1
            ∙ length-map (λ (x : Slot). x.address.fill_addr) slots
            ∙ many;
      }

  -- Whatever the descriptors say, however many FILL entries are free and whatever the clocks and
  -- the packets are: a call that starts with no frame out ends with no frame out, each frame has
  -- the owner that it had, and a call that consumes its descriptors has entered exactly as many
  -- frames in the FILL ring.
  pub receive_batch-Conserves :
      (ds : List Descriptor) (reserved : ℕ) (clocks : ℕ → Clocks) (s : Receiver)
      → length ds < 2 ^ 32
      → s.umem.userspace_owned_frames ≡ 0
      → Conserves s (receive_batch queue_id capacity ds reserved clocks s)
  unfolding receive_batch
  receive_batch-Conserves [] reserved clocks s small clean = record {
    owners = record { owner = λ g. refl; count = refl };
    refilled = λ h. cc;
  }
  receive_batch-Conserves (d ∷ ds) reserved clocks s small clean =
      go (claim_frames (d ∷ ds) [] s.umem) refl
    where
      go :
          (c : Claimed)
          → claim_frames (d ∷ ds) [] s.umem ≡ c
          → Conserves s (after_claim queue_id capacity c (d ∷ ds) reserved clocks s)
      go (cancelled err u) e =
          unfold after_claim in
          record {
            owners = claim_frames_restores (d ∷ ds) s.umem u err (omega arith) e;
            refilled = λ h. cc;
          }
      go (claimed addrs u) e =
          let (out, back, len) =
            claim_frames-Out (d ∷ ds) [] addrs s.umem u
              (record { distinct = tt; free = λ g h. cc; count = clean }) (omega arith) e in
          let same : SameOwners (roll_back addrs u) s.umem = unfold roll_back in back in
          elim (Bool-cases (reserved == length (d ∷ ds))) [
            | inl enough ↦
                unfold after_claim in
                rw enough (
                  consume-Conserves addrs (make_slots addrs (d ∷ ds) 0 clocks) (length (d ∷ ds)) u s
                    (make_slots_addresses addrs (d ∷ ds) 0 clocks (omega (arith, len)))
                    (omega (arith, len)) small out same clean)
            | inr short ↦
                unfold after_claim in rw short (record { owners = same; refilled = λ h. cc })
          ]
