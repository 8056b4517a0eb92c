-- ===== src/Abi/Stat.antt =====
-- `enum ace_xdp_stat_id` of BPF/config.h: the keys of the `stats` map, and the map's slots.
use aceteam_bachelor_thesis.Prelude.{ℕ, ◌+◌, ◌%◌, ◌^◌, ◌==◌, if◌then◌else◌}

abbrev pub pass : ℕ
pass = 0

abbrev pub cpumap : ℕ
cpumap = 1

abbrev pub xsk : ℕ
xsk = 2

abbrev pub total : ℕ
total = 3

abbrev pub experiment_pass : ℕ
experiment_pass = 4

abbrev pub ipv4_invalid : ℕ
ipv4_invalid = 5

abbrev pub ipv4_fragment : ℕ
ipv4_fragment = 6

abbrev pub packet_header_invalid : ℕ
packet_header_invalid = 7

abbrev pub meta_adjust_error : ℕ
meta_adjust_error = 8

abbrev pub meta_bounds_error : ℕ
meta_bounds_error = 9

abbrev pub hwts_valid : ℕ
hwts_valid = 10

abbrev pub hwts_error : ℕ
hwts_error = 11

abbrev pub ingress_recorded : ℕ
ingress_recorded = 12

abbrev pub ingress_duplicate : ℕ
ingress_duplicate = 13

abbrev pub ingress_update_error : ℕ
ingress_update_error = 14

abbrev pub cpumap_meta_invalid : ℕ
cpumap_meta_invalid = 15

abbrev pub cpumap_recorded : ℕ
cpumap_recorded = 16

abbrev pub cpumap_duplicate : ℕ
cpumap_duplicate = 17

abbrev pub cpumap_update_error : ℕ
cpumap_update_error = 18

abbrev pub cpumap_fallback : ℕ
cpumap_fallback = 19

abbrev pub xsk_fallback : ℕ
xsk_fallback = 20

-- The slots of the CPU that the program runs on; a program touches no other.
abbrev pub Stats : Type 0
Stats = ℕ → ℕ

-- `count_stat`. The key is always below the number of slots, so the lookup finds its slot.
abbrev pub count_stat : Stats → ℕ → Stats
count_stat s id = λ j. if j == id then (s j + 1) % 2 ^ 64 else s j
