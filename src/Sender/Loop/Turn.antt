-- ===== src/Sender/Loop/Turn.antt =====
-- One turn of the send loop of udp_socket/src/sender.c: its packet, its counts and its deadline.
use native.Mathlib.Nat.{suc-mul}
use aceteam_bachelor_thesis.Prelude.{
  ℕ, zero, suc, ◌+◌, ◌-◌, ◌*◌, ◌^◌, ◌≡◌, ◌≤◌, ◌<◌, inl, inr, sym, ap, subst, ◌∙◌, Bool, false,
  Bool-cases, not, ◌&&◌, ◌||◌, Option, none, some, List, [], ◌∷◌, ◌++◌, ◌==◌, arith, eintr, inc,
  length, length-append,
}
use aceteam_bachelor_thesis.Sender.{add_ns, total_ns, add_ns_lem}
use aceteam_bachelor_thesis.Sender.Wait.{sleep_until}
use aceteam_bachelor_thesis.Sender.Loop.{
  SenderConfig, Reason, sleep_error, clock_error, SendAnswer, Slot, Shot, Progress, Pace, leave,
  go_on, asleep, fail, after_sleep, schedule, pace, count_late, count_interval, observe, packet_of,
  answered, attempt, shoot, behind_sleep, then_shoot, send_slot,
}

-- The packets from the number `i` on, each with some sending time.
abbrev pub Numbered : SenderConfig → ℕ → List Shot → Type 0
Numbered config i [] = Unit
Numbered config i (x ∷ xs) =
    ((tx_ns : ℕ) × (x.packet ≡ packet_of config i tx_ns)) × Numbered config (suc i) xs

Numbered-append :
    (config : SenderConfig) (i : ℕ) (xs : List Shot) (x : Shot) (tx_ns : ℕ)
    → Numbered config i xs
    → x.packet ≡ packet_of config (i + length xs) tx_ns
    → Numbered config i (xs ++ x ∷ [])
Numbered-append config i [] x tx_ns old new =
    ((tx_ns, new ∙ ap (λ k. packet_of config k tx_ns) (omega arith)), tt)
Numbered-append config i (y ∷ xs) x tx_ns (head, old) new = (
  head,
  Numbered-append config (suc i) xs x tx_ns old
      (new ∙ ap (λ k. packet_of config k tx_ns) (omega arith)),
)

-- One for a loop that ends by an error of its own.
abbrev pub errors_of : Reason → ℕ
errors_of sleep_error = 1
errors_of clock_error = 1
errors_of _ = 0

-- The variables of the loop when `seq` packets have been given to sendto, and `extra` errors are
-- no packet's.
pub record Sequenced (config : SenderConfig) (base seq extra : ℕ) (s : Progress) : Type 0 where
  pub numbered : Numbered config 0 s.wire
  pub many : length s.wire ≡ seq
  pub attempts : s.attempted ≡ seq
  pub within : seq ≤ config.packet_count
  pub balance : s.sent + s.errors ≡ seq + extra
  pub own : extra ≤ s.errors
  pub normal : s.next_send.tv_nsec < 1000000000
  pub step : ℕ
  pub step_within : step < config.packet_count
  pub on_schedule : total_ns s.next_send ≡ base + step * config.period_ns

-- What the parts of a turn leave alone.
pub record SameCounts (s t : Progress) : Type 0 where
  pub same_wire : t.wire ≡ s.wire
  pub same_next : t.next_send ≡ s.next_send
  pub same_sent : t.sent ≡ s.sent
  pub same_errors : t.errors ≡ s.errors
  pub same_attempts : t.attempted ≡ s.attempted

pub observe-SameCounts :
    (config : SenderConfig) (actual_ns : ℕ) (s : Progress)
    → SameCounts s (observe config actual_ns s)
unfolding observe count_interval count_late
observe-SameCounts config actual_ns s = ground arith

module _ (config : SenderConfig) (base : ℕ) where
  Sequenced-same :
      {seq extra : ℕ} {s t : Progress}
      → SameCounts s t
      → Sequenced config base seq extra s
      → Sequenced config base seq extra t
  Sequenced-same {seq} {extra} {s} {t} k d = record {
    numbered = subst (Numbered config 0) (sym k.same_wire) d.numbered;
    many = ap length k.same_wire ∙ d.many;
    attempts = k.same_attempts ∙ d.attempts;
    within = d.within;
    balance = omega (arith, k.same_sent, k.same_errors, d.balance);
    own = omega (arith, k.same_errors, d.own);
    normal = rw k.same_next d.normal;
    step = d.step;
    step_within = d.step_within;
    on_schedule = ap total_ns k.same_next ∙ d.on_schedule;
  }

  fail-Sequenced :
      {seq : ℕ} {s : Progress}
      → config.packet_count ≤ 2 ^ 63
      → Sequenced config base seq 0 s
      → Sequenced config base seq 1 (record s { errors = inc s.errors })
  fail-Sequenced {seq} {s} small d = record {
    numbered = d.numbered;
    many = d.many;
    attempts = d.attempts;
    within = d.within;
    balance = omega (arith, d.balance, d.within);
    own = omega (arith, d.balance, d.within);
    normal = d.normal;
    step = d.step;
    step_within = d.step_within;
    on_schedule = d.on_schedule;
  }

  -- The deadline of the packet `seq`.
  schedule-Sequenced :
      (seq : ℕ) (s : Progress)
      → seq < config.packet_count
      → Sequenced config base seq 0 s
      → (s.next_send.tv_nsec < 1000000000)
      → total_ns s.next_send ≡ base + (seq - 1) * config.period_ns
      → Sequenced config base seq 0 (schedule config seq s)
        × (total_ns (schedule config seq s).next_send ≡ base + seq * config.period_ns)
  unfolding schedule
  schedule-Sequenced zero s room d normal time = (d, omega arith)
  schedule-Sequenced (suc seq) s room d normal time =
      let t : Progress = record s { next_send = add_ns s.next_send config.period_ns } in
      let later : (suc seq == 0) ≡ false = ground arith in
      let before : suc seq - 1 ≡ seq = omega arith in
      let (normal', sum) = add_ns_lem s.next_send config.period_ns normal in
      let due : total_ns t.next_send ≡ base + suc seq * config.period_ns = omega (
        arith,
        sum,
        time ∙ ap (λ k. base + k * config.period_ns) before,
        suc-mul seq config.period_ns,
      ) in
      simp later (
        record {
          numbered = d.numbered;
          many = d.many;
          attempts = d.attempts;
          within = d.within;
          balance = d.balance;
          own = d.own;
          normal = normal';
          step = suc seq;
          step_within = room;
          on_schedule = due;
        },
        due,
      )

  attempt_next :
      (seq actual_ns tx_ns : ℕ) (answer : SendAnswer) (s : Progress)
      → (answered config answer (attempt config seq actual_ns tx_ns s)).next_send ≡ s.next_send
  unfolding answered attempt
  attempt_next seq actual_ns tx_ns answer s = ground arith

  -- A packet given to sendto, whatever it answers.
  attempt-Sequenced :
      (seq actual_ns tx_ns : ℕ) (answer : SendAnswer) (s : Progress)
      → seq < config.packet_count
      → config.packet_count ≤ 2 ^ 63
      → Sequenced config base seq 0 s
      → Sequenced config base
          (suc seq)
          0
          (answered config answer (attempt config seq actual_ns tx_ns s))
  unfolding attempt
  attempt-Sequenced seq actual_ns tx_ns answer s room small d =
      let t = answered config answer (attempt config seq actual_ns tx_ns s) in
      let x : Shot = record { packet = packet_of config seq tx_ns; actual_ns = actual_ns } in
      let wire : t.wire ≡ s.wire ++ x ∷ [] = unfold answered in ground arith in
      let next = attempt_next seq actual_ns tx_ns answer s in
      let attempts : t.attempted ≡ inc s.attempted = unfold answered in ground arith in
      let sum : t.sent + t.errors ≡ suc (s.sent + s.errors) =
        unfold answered in ground (arith, d.balance, d.within) in
      record {
        numbered = subst (Numbered config 0) (sym wire) (
            Numbered-append config 0 s.wire x tx_ns d.numbered
              (ap (λ k. packet_of config k tx_ns) (omega (arith, d.many))));
        many = ap length wire ∙ omega (arith, length-append s.wire (x ∷ []), d.many);
        attempts = omega (arith, attempts, d.attempts, d.within);
        within = room;
        balance = omega (arith, sum, d.balance);
        own = omega arith;
        normal = rw next d.normal;
        step = d.step;
        step_within = d.step_within;
        on_schedule = ap total_ns next ∙ d.on_schedule;
      }

  -- A turn that goes on has sent the packet `seq` by its deadline's schedule.
  abbrev pub Paced : ℕ → Pace → Type 0
  Paced seq (leave reason t) = Sequenced config base seq (errors_of reason) t
  Paced seq (go_on t) =
      Sequenced config base (suc seq) 0 t × (total_ns t.next_send ≡ base + seq * config.period_ns)
  Paced seq asleep = Unit

  -- Behind the sleep.
  abbrev pub Awake : ℕ → Pace → Type 0
  Awake seq (leave reason t) = Sequenced config base seq (errors_of reason) t
  Awake seq (go_on t) =
      Sequenced config base seq 0 t × (total_ns t.next_send ≡ base + seq * config.period_ns)
  Awake seq asleep = Unit

  after_sleep-Awake :
      (seq : ℕ) (o : Option ℕ) (stop : Bool) (s : Progress)
      → config.packet_count ≤ 2 ^ 63
      → Sequenced config base seq 0 s
      → total_ns s.next_send ≡ base + seq * config.period_ns
      → Awake seq (after_sleep o stop s)
  unfolding fail
  after_sleep-Awake seq none stop s small d due = tt
  after_sleep-Awake seq (some e) stop s small d due =
      elim (Bool-cases (not (e == 0) && not (e == eintr))) [
        | inl broken ↦ rw broken (fail-Sequenced small d)
        | inr slept ↦ elim (Bool-cases stop) [
          | inl up ↦ rw (slept, up) d
          | inr down ↦ rw (slept, down) (d, due)
        ]
      ]

  pub pace-Awake :
      (seq : ℕ) (slot : Slot) (s : Progress)
      → config.packet_count ≤ 2 ^ 63
      → seq < config.packet_count
      → Sequenced config base seq 0 s
      → total_ns s.next_send ≡ base + (seq - 1) * config.period_ns
      → Awake seq (pace config seq slot s)
  unfolding pace
  pace-Awake seq slot s small room d time =
      let (d', due) = schedule-Sequenced seq s room d d.normal time in
      elim (Bool-cases (not (seq == 0) || not (config.start_at_ns == 0))) [
        | inl waits ↦ rw waits (
            after_sleep-Awake seq
              (sleep_until slot.naps (total_ns (schedule config seq s).next_send))
              slot.stop_after_sleep (schedule config seq s) small d' due)
        | inr first ↦
            let start : seq ≡ 0 = ground arith in
            rw first (d, time ∙ ap (λ k. base + k * config.period_ns) (omega arith))
      ]

  behind_sleep-Paced :
      (seq : ℕ) (slot : Slot) (s : Progress)
      → config.packet_count ≤ 2 ^ 63
      → seq < config.packet_count
      → Sequenced config base seq 0 s
      → total_ns s.next_send ≡ base + seq * config.period_ns
      → Paced seq (behind_sleep config seq slot.clock slot s)
  unfolding fail
  behind_sleep-Paced seq slot s small room d due = go slot.clock
    where
      seen : (actual_ns : ℕ) → Sequenced config base seq 0 (observe config actual_ns s)
      seen actual_ns = Sequenced-same (observe-SameCounts config actual_ns s) d

      sent :
          (actual_ns : ℕ) (real : Option ℕ)
          → Paced seq (shoot config seq actual_ns real slot.answer (observe config actual_ns s))
      sent actual_ns none = fail-Sequenced small (seen actual_ns)
      sent actual_ns (some tx_ns) = (
        attempt-Sequenced seq actual_ns tx_ns slot.answer _ room small (seen actual_ns),
        ap total_ns (
              attempt_next seq actual_ns tx_ns slot.answer (observe config actual_ns s)
              ∙ (observe-SameCounts config actual_ns s).same_next)
            ∙ due,
      )

      go : (clock : Option ℕ) → Paced seq (behind_sleep config seq clock slot s)
      go none = fail-Sequenced small d
      go (some actual_ns) = sent actual_ns slot.real

  pub send_slot-Paced :
      (seq : ℕ) (slot : Slot) (s : Progress)
      → config.packet_count ≤ 2 ^ 63
      → seq < config.packet_count
      → Sequenced config base seq 0 s
      → total_ns s.next_send ≡ base + (seq - 1) * config.period_ns
      → Paced seq (send_slot config seq slot s)
  unfolding send_slot
  send_slot-Paced seq slot s small room d time =
      go (pace config seq slot s) (pace-Awake seq slot s small room d time)
    where
      go : (p : Pace) → Awake seq p → Paced seq (then_shoot config seq slot p)
      go (leave reason t) d' = d'
      go (go_on t) (d', due) = behind_sleep-Paced seq slot t small room d' due
      go asleep d' = tt
