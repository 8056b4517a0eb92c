-- ===== src/Lib.antt =====
-- The packet measurement of the repository: an XDP program that classifies the experiment's UDP
-- packets and measures their arrival, the ways on from it (the kernel's stack, another CPU by
-- CPUMAP, an AF_XDP socket), and the programs that set a run up and take it down.
--
-- How the parts interact. udp_socket/src/sender.c puts a 32-byte header in front of each payload.
-- BPF/xdp_kern.c parses it, writes 56 bytes of metadata in front of the packet, enters a record in
-- a hash map and redirects the packet. On the target CPU `xdp_cpumap_measure` reads the metadata;
-- on the AF_XDP way BPF/afxdp_recv.c parses the packet again and matches the metadata with it.
-- BPF/xdp_loader.c switches hardware timestamps on, pins what it did in a runtime configuration,
-- waits at the end for the CPUMAP's records and, after a crash, recovers from the pinned state.
--
-- Prelude: shared names, tests, lists and integers. Abi: include/ace_packet_abi.h, BPF/metadata.h
-- and BPF/config.h; Abi.Wire is the header as bytes, Abi.HashMap what the code relies on of a BPF
-- hash map, Abi.Stat the counters. Xdp: `parse_experiment_packet` of BPF/xdp_kern.c, a packet
-- being its list of bytes; Xdp.Measure: from `record_ingress` to `xdp_dispatch`; Xdp.Cpumap:
-- `xdp_cpumap_measure`. Afxdp: BPF/afxdp_recv.c, with Packet (`packet_udp_info`,
-- `experiment_packet_id`), Umem (`validate_rx_descriptor` and the owners of the frames), Metadata
-- (`read_xdp_metadata`, `clear_xdp_metadata`), Batch (`receive_batch`), Owner (the claims of the
-- queues) and Runtime (the test on the pinned configuration). Hwtstamp: include/ace_hwtstamp.h.
-- Loader.Drain: `wait_for_cpumap_records` of BPF/xdp_loader.c; Loader.Runtime: its runtime
-- configuration and `--recover`; Loader.Detach: `detach_if_owned`; Loader.Claims:
-- `xsk_owners_have_live_claim`, with include/ace_process.h. Process: include/ace_process.h
-- (`ace_process_start_ticks`). Sender: udp_socket/src/sender.c, with Wait (`sleep_until`),
-- StartFile (`wait_start_file`) and Loop (the check of the deadlines and the send loop).
-- UdpReceiver: udp_socket/src/receiver.c, with Cmsg (the scan of the control messages), Capture
-- (the receive loop), Save (`save_records`) and Finish (the end of `main`). RunControl:
-- include/ace_run_control.h and BPF/afxdp_run_control.h. RunConfig: experiment/run_config.c behind
-- its file parser, with the CPU lists in RunConfig.Cpus. Manifest: `json_string` of
-- experiment/ace_manifest.c. Supervisor: the control frames of experiment/ace-run.c;
-- Supervisor.Waiting: its calls of waitpid; Supervisor.Adopted: `cleanup_adopted_children`;
-- Supervisor.Children: its children, from `reap` to `cleanup_children`. Phc: include/ace_phc.h.
-- Examples: concrete runs.
--
-- A C function is a function of the same name; its state is a record that is passed on, an error
-- number a value, and a read out of bounds `none`; a signed sum of include/ace_phc.h that
-- overflows has an outcome of its own, since C gives it no value. A w-bit counter wraps modulo 2 ^
-- w. A long function is cut into steps that call each other in the source's order. What is not in
-- the repository is a parameter: BPF hash maps (a record with bpf(2)'s laws for an update with
-- either flag), the answers of the kernel's helpers, libxdp's rings, the driver's two timestamp
-- requests (a record with the kernel's documented behaviour), the counters at each time of the
-- drain, and what the kernel answers at each turn of the loop over the claims and of the loops of
-- udp_socket: the stop flag, the clocks and the system calls.
--
-- Three loops are on fuel. That of Loader.Drain has 501 rounds, since it steps by 10 ms from 0 and
-- stops at 5000 ms; that of RunConfig.Cpus has the length of the text, since each round reads a
-- byte at least, and so has that of Manifest. The others run on lists.
--
-- Not modelled: system calls, files, sockets and libbpf's loading and pinning; the option parsers;
-- the file parser of experiment/run_config.c; experiment/ace-run.c but for its frames and the end
-- of its children, and the manifest but for its strings; the options, the socket set-up, the
-- statistics' text and the floating-point sums of udp_socket; the Python analysis, the shell
-- scripts and the kernel patches.
pub mod Prelude
pub mod Abi
pub mod Xdp
pub mod Afxdp
pub mod Hwtstamp
pub mod Loader
pub mod RunControl
pub mod Sender
pub mod UdpReceiver
pub mod RunConfig
pub mod Manifest
pub mod Supervisor
pub mod Process
pub mod Phc
pub mod Examples
