-- ===== src/Examples.antt =====
-- Concrete packets, maps, devices and runs: the theorems at inputs that exercise the code.
mod Packets
mod Maps
mod Dispatch
mod Receiver
mod Interface
mod Control
mod Claims
mod Udp
mod Supervision
