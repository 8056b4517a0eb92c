-- ===== src/Prelude/System.antt =====
-- What the programs take from C and Linux: error numbers and the increment of a uint64_t.
use Prim.Native.Nat.{ℕ, ◌+◌, ◌%◌, ◌^◌}

abbrev pub eintr : ℕ
eintr = 4

abbrev pub eio : ℕ
eio = 5

-- EAGAIN and EWOULDBLOCK.
abbrev pub eagain : ℕ
eagain = 11

abbrev pub inc : ℕ → ℕ
inc n = (n + 1) % 2 ^ 64
