-- ===== src/Consensus/RoundTimer/Growth.antt =====
-- ace-consensus/src/round_timer.rs: timeouts as the rounds grow, and the clock tests.
use ace_chain.Common.{
  ℕ, ◌+◌, ◌≤◌, ◌≡◌, ◌*◌, ◌<◌, ◌↔◌, refl, true, false, arith, u64_max, u32_mod, min,
}
use ace_chain.Consensus.Tendermint.{RoundStep, propose, prevote, precommit, commit_wait, committed}
use ace_chain.Consensus.RoundTimer.{
  TimeoutConfig, RoundTimer, scaled, timeout_for, start_step, is_timed_out, time_remaining,
  timeout_duration, elapsed,
}

-- The steps in which the node waits for others.
abbrev pub Waits : RoundStep → Type 0
Waits propose = Unit
Waits prevote = Unit
Waits precommit = Unit
Waits _ = ⊥

scaled_mono : (c : TimeoutConfig) (base q r : ℕ) → q ≤ r → scaled c base q ≤ scaled c base r
unfolding scaled
scaled_mono c base q r h = grind arith

-- A later round never has a shorter timeout, in any step.
pub timeout_for_mono :
    (c : TimeoutConfig) (st : RoundStep) (q r : ℕ) → q ≤ r → timeout_for c q st ≤ timeout_for c r st
unfolding timeout_for
timeout_for_mono c propose q r h = scaled_mono c c.propose_ms q r h
timeout_for_mono c prevote q r h = scaled_mono c c.prevote_ms q r h
timeout_for_mono c precommit q r h = scaled_mono c c.precommit_ms q r h
timeout_for_mono c commit_wait q r h = omega arith
timeout_for_mono c committed q r h = scaled_mono c _ q r h

-- The timeout of such a step in round 0.
abbrev pub base_of : TimeoutConfig → RoundStep → ℕ
base_of c propose = c.propose_ms
base_of c prevote = c.prevote_ms
base_of c precommit = c.precommit_ms
base_of c _ = 0

timeout_for-base :
    (c : TimeoutConfig) (st : RoundStep) (r : ℕ)
    → Waits st
    → timeout_for c r st ≡ scaled c (base_of c st) r
unfolding timeout_for
timeout_for-base c propose r w = refl
timeout_for-base c prevote r w = refl
timeout_for-base c precommit r w = refl
timeout_for-base c commit_wait r w = absurd w
timeout_for-base c committed r w = absurd w

scaled_exact :
    (c : TimeoutConfig) (base r : ℕ)
    → base + r * c.delta_ms ≤ u64_max
    → scaled c base r ≡ base + r * c.delta_ms
unfolding scaled
scaled_exact c base r h = grind arith

scaled_reach :
    (c : TimeoutConfig) (base r delay : ℕ)
    → 1 ≤ c.delta_ms
    → delay < r
    → r < u32_mod
    → delay < scaled c base r
unfolding scaled
scaled_reach c base r delay d h b = grind arith

-- For a step that waits for others, started at an instant in a round below 2^32: where its timeout in
-- milliseconds, the step's base and the increase times the round, is a 64-bit word, it has timed out
-- after a delay exactly when the delay is that long; and with an increase of at least one millisecond
-- per round, it has not timed out after any delay of fewer milliseconds than the round's number.
pub is_timed_out-start_step :
    (t : RoundTimer) (st : RoundStep) (start r delay : ℕ)
    → Waits st
    → r < u32_mod
    → let late = is_timed_out (start_step t start r st) (start + delay) in
      (base_of t.config st + r * t.config.delta_ms ≤ u64_max
        → (late ≡ true) ↔ (base_of t.config st + r * t.config.delta_ms ≤ delay))
      × (1 ≤ t.config.delta_ms → delay < r → late ≡ false)
unfolding is_timed_out start_step timeout_duration
is_timed_out-start_step t st start r delay w b =
    let base = timeout_for-base t.config st r w in
    (
      λ fits.
          let exact = scaled_exact t.config (base_of t.config st) r fits in
          (λ e. ground (arith, e, base, exact), λ e. ground (arith, e, base, exact)),
      λ d h.
          let long = scaled_reach t.config (base_of t.config st) r delay d h b in
          ground (arith, long, base),
    )

-- A step has timed out exactly when no time remains, and the time that has passed, held down to the
-- timeout, and the time that remains make up the timeout.
pub is_timed_out_iff :
    (t : RoundTimer) (now : ℕ)
    → ((is_timed_out t now ≡ true) ↔ (time_remaining t now ≡ 0))
      × (min (elapsed t now) (timeout_duration t) + time_remaining t now ≡ timeout_duration t)
unfolding is_timed_out time_remaining
is_timed_out_iff t now = ((λ e. ground arith, λ e. ground arith), ground arith)
