-- ===== src/UdpReceiver/Cmsg.antt =====
-- `extract_hw_timestamp` and `extract_rxq_overflow` of udp_socket/src/receiver.c, over the control
-- messages of a recvmsg call in the order of CMSG_NXTHDR, on a 64-bit Linux target.
use aceteam_bachelor_thesis.Prelude.{
  ℕ, ◌+◌, ◌-◌, ◌*◌, ◌/◌, ◌%◌, ◌^◌, Bool, not, ◌&&◌, ◌||◌, Option, none, some, List, [], ◌∷◌, ltb,
  leb, ◌==◌, if◌then◌else◌,
}
use aceteam_bachelor_thesis.Afxdp.Metadata.{Memory, le_value}

-- `struct cmsghdr`, with the bytes behind CMSG_DATA.
pub record ControlMessage : Type 0 where
  pub cmsg_level : ℕ
  pub cmsg_type : ℕ
  pub cmsg_len : ℕ
  pub body : Memory

abbrev pub sol_socket : ℕ
sol_socket = 1

abbrev pub scm_timestamping : ℕ
scm_timestamping = 37

abbrev pub scm_timestamping_new : ℕ
scm_timestamping_new = 65

abbrev pub so_rxq_ovfl : ℕ
so_rxq_ovfl = 40

-- CMSG_LEN: the header takes 16 bytes.
abbrev pub cmsg_len_of : ℕ → ℕ
cmsg_len_of n = 16 + n

unfoldable pub is_timestamp : ControlMessage → Bool
is_timestamp c =
    (c.cmsg_level == sol_socket && c.cmsg_type == scm_timestamping)
    || (c.cmsg_level == sol_socket && c.cmsg_type == scm_timestamping_new)

-- The third of the three times of `struct scm_timestamping`: two signed words at 32 and 40. The
-- result is the pattern of the signed sum.
unfoldable pub hardware_ns : Memory → Option ℕ
hardware_ns body =
    let sec = le_value body 32 8 in
    let nsec = le_value body 40 8 in
    if leb (2 ^ 63) sec || leb (2 ^ 63) nsec || leb 1000000000 nsec || (sec == 0 && nsec == 0)
    then none
    else if ltb ((2 ^ 63 - 1) / 1000000000) sec
    then none
    else some ((sec * 1000000000 + nsec) % 2 ^ 64)

unfoldable pub extract_hw_timestamp : List ControlMessage → Option ℕ
extract_hw_timestamp [] = none
extract_hw_timestamp (c ∷ cs) =
    if not (is_timestamp c) || ltb c.cmsg_len (cmsg_len_of 48)
    then extract_hw_timestamp cs
    else hardware_ns c.body

-- `none` leaves the caller's number of drops as it is.
unfoldable pub extract_rxq_overflow : List ControlMessage → Option ℕ
extract_rxq_overflow [] = none
extract_rxq_overflow (c ∷ cs) =
    if not (c.cmsg_level == sol_socket)
      || not (c.cmsg_type == so_rxq_ovfl)
      || ltb c.cmsg_len (cmsg_len_of 4)
    then extract_rxq_overflow cs
    else some (le_value c.body 0 4)
