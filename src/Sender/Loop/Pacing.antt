-- ===== src/Sender/Loop/Pacing.antt =====
-- The times at which the send loop of udp_socket/src/sender.c gives its packets to sendto.
use aceteam_bachelor_thesis.Prelude.{ℕ, ◌+◌, ◌≡◌, ◌≤◌, true, some, List, [], ◌∷◌, eintr}
use aceteam_bachelor_thesis.Sender.{total_ns}
use aceteam_bachelor_thesis.Sender.Wait.{sleep_until, Read, HasErrno}
use aceteam_bachelor_thesis.Sender.Loop.{
  SenderConfig, base_ns, Slot, Shot, Progress, Pace, leave, go_on, asleep, Sending, ended,
  under_way,
}

-- No shot before its time, the first of them being due at `due`.
abbrev pub Punctual : ℕ → ℕ → List Shot → Type 0
Punctual period due [] = Unit
Punctual period due (x ∷ xs) = (due ≤ x.actual_ns) × Punctual period (due + period) xs

-- What the clock and the signals promise of a turn, `start_ns` being read before the loop: a clock
-- does not go back, a clock that fails has an error number, and a sleep that is interrupted has
-- seen the flag, which stays up.
pub record Honest (start_ns : ℕ) (slot : Slot) : Type 0 where
  pub errno : HasErrno slot.naps
  pub after_start : (a : ℕ) → slot.clock ≡ some a → start_ns ≤ a
  pub after_nap : (t a : ℕ) → Read slot.naps t → slot.clock ≡ some a → t ≤ a
  pub flag : (target : ℕ) → sleep_until slot.naps target ≡ some eintr → slot.stop_after_sleep ≡ true

abbrev pub AllHonest : ℕ → List Slot → Type 0
AllHonest start_ns [] = Unit
AllHonest start_ns (x ∷ xs) = Honest start_ns x × AllHonest start_ns xs

module _ (config : SenderConfig) (start_ns base : ℕ)
    (base_is : base_ns config start_ns ≡ base) where
  -- Behind the sleep, the clock is at the deadline or later.
  abbrev Due : Slot → Progress → Pace → Type 0
  Due slot s (leave reason t) = t.wire ≡ s.wire
  Due slot s (go_on t) =
      (t.wire ≡ s.wire) × ((a : ℕ) → slot.clock ≡ some a → total_ns t.next_send ≤ a)
  Due slot s asleep = Unit

  abbrev Timed : Pace → Type 0
  Timed (leave reason t) = Punctual config.period_ns base t.wire
  Timed (go_on t) = Punctual config.period_ns base t.wire
  Timed asleep = Unit

  abbrev pub AllPunctual : Sending → Type 0
  AllPunctual (ended reason t) = Punctual config.period_ns base t.wire
  AllPunctual (under_way t) = Punctual config.period_ns base t.wire
