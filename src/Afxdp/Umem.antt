-- ===== src/Afxdp/Umem.antt =====
-- The frames of the UMEM and the RX descriptors: `validate_rx_descriptor` and the ownership
-- bookkeeping of `receive_batch` in BPF/afxdp_recv.c. The frame size is libxdp's documented default,
-- 4096, so `addr & ~(FRAME_SIZE - 1)` is `addr / 4096 * 4096`.
pub mod Rollback
pub mod Recycle
use aceteam_bachelor_thesis.Prelude.{
  ℕ, ◌+◌, ◌-◌, ◌*◌, ◌/◌, ◌%◌, ◌^◌, Bool, true, false, not, ◌||◌, List, [], ◌∷◌, ◌++◌, ltb, leb,
  ◌==◌, if◌then◌else◌,
}
use aceteam_bachelor_thesis.Abi.{has_flag}

abbrev pub num_frames : ℕ
num_frames = 4096

abbrev pub frame_size : ℕ
frame_size = 4096

abbrev pub umem_size : ℕ
umem_size = 16777216

abbrev pub enospc : ℕ
enospc = 28

abbrev pub erange : ℕ
erange = 34

abbrev pub eopnotsupp : ℕ
eopnotsupp = 95

abbrev pub euclean : ℕ
euclean = 117

-- XDP_PKT_CONTD.
abbrev pub pkt_contd : ℕ
pkt_contd = 1

-- A descriptor of the RX ring. `base` and `data` are what libxdp's xsk_umem__extract_addr and
-- xsk_umem__add_offset_to_addr make of its address.
pub record Descriptor : Type 0 where
  pub base : ℕ
  pub data_addr : ℕ
  pub len : ℕ
  pub options : ℕ

-- A packet's frame, as an address, and the packet's address in it.
pub record Address : Type 0 where
  pub fill_addr : ℕ
  pub data_addr : ℕ

pub data Validated : Type 0 where
  refused : ℕ → Validated
  within : Address → Validated

abbrev pub chunk_start : ℕ → ℕ
chunk_start addr = addr / frame_size * frame_size

unfoldable pub validate_rx_descriptor : Descriptor → Validated
validate_rx_descriptor d =
    if has_flag d.options pkt_contd
    then refused eopnotsupp
    else if not (d.options == 0)
    then refused eopnotsupp
    else if leb umem_size d.base
        || leb umem_size d.data_addr
        || d.len == 0
        || ltb (umem_size - d.data_addr) d.len
    then refused erange
    else if ltb d.data_addr (chunk_start d.base)
        || leb (chunk_start d.base + frame_size) d.data_addr
        || ltb (chunk_start d.base + frame_size - d.data_addr) d.len
    then refused erange
    else within (record { fill_addr = chunk_start d.base; data_addr = d.data_addr })

-- The fields of `struct umem_info` that say who owns which frame. The count is an unsigned int.
pub record Umem : Type 0 where
  pub frame_in_kernel : ℕ → Bool
  pub userspace_owned_frames : ℕ
  pub invariant_errors : ℕ

abbrev pub frame_of : Address → ℕ
frame_of a = a.fill_addr / frame_size

abbrev pub inc32 : ℕ → ℕ
inc32 n = (n + 1) % 2 ^ 32

abbrev pub dec32 : ℕ → ℕ
dec32 n = (n + (2 ^ 32 - 1)) % 2 ^ 32

abbrev pub put : (ℕ → Bool) → ℕ → Bool → ℕ → Bool
put owner frame b = λ g. if g == frame then b else owner g

-- frame_in_kernel[frame] = 1; userspace_owned_frames--.
unfoldable pub give_back : Address → Umem → Umem
give_back a u = record u {
  frame_in_kernel = put u.frame_in_kernel (frame_of a) true;
  userspace_owned_frames = dec32 u.userspace_owned_frames;
}

-- frame_in_kernel[frame] = 0; userspace_owned_frames++.
unfoldable pub take_frame : Address → Umem → Umem
take_frame a u = record u {
  frame_in_kernel = put u.frame_in_kernel (frame_of a) false;
  userspace_owned_frames = inc32 u.userspace_owned_frames;
}

-- The loop over the frames that were taken so far, when the batch is cancelled.
unfoldable pub roll_back : List Address → Umem → Umem
unfolding give_back
roll_back [] u = u
roll_back (a ∷ taken) u = roll_back taken (give_back a u)

-- umem_invariant_errors++, an unsigned long long.
abbrev pub invariant_error : Umem → Umem
invariant_error u = record u { invariant_errors = (u.invariant_errors + 1) % 2 ^ 64 }

pub data Claimed : Type 0 where
  cancelled : ℕ → Umem → Claimed
  claimed : List Address → Umem → Claimed

-- One round: what becomes of a descriptor's validation, and `rest` for the next descriptors.
pub claim_next : Validated → List Address → Umem → (Address → Claimed) → Claimed
unfolding roll_back
claim_next (refused err) taken u rest = cancelled err (roll_back taken u)
claim_next (within a) taken u rest =
    if leb num_frames (frame_of a) || not (u.frame_in_kernel (frame_of a))
    then cancelled euclean (invariant_error (roll_back taken u))
    else rest a

-- The first loop of `receive_batch`: the descriptors that are left, and the addresses so far.
unfoldable pub claim_frames : List Descriptor → List Address → Umem → Claimed
unfolding validate_rx_descriptor take_frame claim_next
claim_frames [] taken u = claimed taken u
claim_frames (d ∷ ds) taken u =
    claim_next (validate_rx_descriptor d) taken u
      λ a. claim_frames ds (taken ++ a ∷ []) (take_frame a u)

-- The bookkeeping at the end of a packet's round: the frame goes back to the kernel, unless the
-- books say that the kernel has it already or that no frame is out.
pub data Recycled : Type 0 where
  recycled broken : Recycled

unfoldable pub recycle_frame : Address → Umem → Umem × Recycled
unfolding give_back
recycle_frame a u =
    if u.frame_in_kernel (frame_of a) || u.userspace_owned_frames == 0
    then (invariant_error u, broken)
    else (give_back a u, recycled)
