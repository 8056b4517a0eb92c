-- ===== src/Examples/Packets.antt =====
-- Whole Ethernet frames of the experiment, as udp_socket/src/sender.c has them sent.
use aceteam_bachelor_thesis.Prelude.{ℕ, ◌+◌, List, [], ◌∷◌, ◌++◌}
use aceteam_bachelor_thesis.Abi.{PacketKey}
use aceteam_bachelor_thesis.Abi.Wire.{ExperimentHeader, sender_header, encode_header}

abbrev pub header : ExperimentHeader
header = sender_header 7 5 1000

abbrev pub key : PacketKey
key = record { flow_id = 7; reserved = 0; sequence = 5 }

-- Ethernet, IPv4 and UDP in front of the header, to the port 9000 + `n`, `n` being 0 to 2.
abbrev pub envelope : ℕ → List ℕ
envelope n =
    0
    ∷ 0
    ∷ 0
    ∷ 0
    ∷ 0
    ∷ 0
    ∷ 0
    ∷ 0
    ∷ 0
    ∷ 0
    ∷ 0
    ∷ 0
    ∷ 8
    ∷ 0
    ∷ 69
    ∷ 0
    ∷ 0
    ∷ 60
    ∷ 0
    ∷ 0
    ∷ 0
    ∷ 0
    ∷ 64
    ∷ 17
    ∷ 0
    ∷ 0
    ∷ 10
    ∷ 0
    ∷ 0
    ∷ 1
    ∷ 10
    ∷ 0
    ∷ 0
    ∷ 2
    ∷ 200
    ∷ 0
    ∷ 35
    ∷ (40 + n)
    ∷ 0
    ∷ 40
    ∷ 0
    ∷ 0
    ∷ []

abbrev pub packet : ℕ → List ℕ
packet n = envelope n ++ encode_header header
