-- ===== src/Afxdp.antt =====
-- BPF/afxdp_recv.c: the AF_XDP receiver.
pub mod Packet
pub mod Umem
pub mod Metadata
pub mod Batch
pub mod Runtime
pub mod Owner
