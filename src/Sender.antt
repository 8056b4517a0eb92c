-- ===== src/Sender.antt =====
-- udp_socket/src/sender.c: the absolute times of the packets.
pub mod Wait
pub mod StartFile
pub mod Loop
use native.Mathlib.Nat.{suc-mul}
use aceteam_bachelor_thesis.Prelude.{
  ℕ, zero, suc, ◌+◌, ◌-◌, ◌*◌, ◌/◌, ◌%◌, ◌≡◌, ◌<◌, leb, arith, if◌then◌else◌,
}

-- `struct timespec`, from the epoch of its clock on.
pub record Timespec : Type 0 where
  pub tv_sec : ℕ
  pub tv_nsec : ℕ

unfoldable pub add_ns : Timespec → ℕ → Timespec
add_ns time nanoseconds =
    let sec = time.tv_sec + nanoseconds / 1000000000 in
    let nsec = time.tv_nsec + nanoseconds % 1000000000 in
    if leb 1000000000 nsec
    then record { tv_sec = sec + 1; tv_nsec = nsec - 1000000000 }
    else record { tv_sec = sec; tv_nsec = nsec }

abbrev pub total_ns : Timespec → ℕ
total_ns t = t.tv_sec * 1000000000 + t.tv_nsec

-- The deadline after `n` packets.
abbrev pub deadline_after : ℕ → ℕ → Timespec → Timespec
deadline_after zero period start = start
deadline_after (suc n) period start = add_ns (deadline_after n period start) period

add_ns_lem :
    (t : Timespec) (n : ℕ)
    → t.tv_nsec < 1000000000
    → ((add_ns t n).tv_nsec < 1000000000) × (total_ns (add_ns t n) ≡ total_ns t + n)
unfolding add_ns
add_ns_lem t n h = ground arith

-- From a normal time on, the deadline of the packet `n` is exactly `n` periods after the start,
-- however long the period, and its nanoseconds are below a second: the schedule does not drift.
pub deadline_after_lem :
    (n period : ℕ) (start : Timespec)
    → start.tv_nsec < 1000000000
    → ((deadline_after n period start).tv_nsec < 1000000000)
      × (total_ns (deadline_after n period start) ≡ total_ns start + n * period)
deadline_after_lem zero period start h = (h, omega arith)
deadline_after_lem (suc n) period start h =
    let (normal, sum) = deadline_after_lem n period start h in
    let (normal', sum') = add_ns_lem (deadline_after n period start) period normal in
    (normal', omega (arith, sum, sum', suc-mul n period))
