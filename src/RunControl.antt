-- ===== src/RunControl.antt =====
-- include/ace_run_control.h and BPF/afxdp_run_control.h: the numbers on the command lines and the
-- end of the AF_XDP receiver's run.
pub mod Number
pub mod Shutdown
