-- ===== src/Loader.antt =====
-- BPF/xdp_loader.c: the end of a run, when the CPUMAP's records are waited for, and the runtime
-- configuration that the loader pins and that `--recover` reads.
pub mod Drain
pub mod Runtime
pub mod Detach
pub mod Claims
