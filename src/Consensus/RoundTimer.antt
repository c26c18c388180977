-- ===== src/Consensus/RoundTimer.antt =====
-- ace-consensus/src/round_timer.rs: the timeout of a step. Instants are the milliseconds of a clock
-- that the caller reads; the latency statistics are left out.
pub mod Growth
mod Tests
use ace_chain.Common.{
  ℕ, ◌-◌, ◌/◌, Bool, Option, none, some, leb, saturating_add, saturating_mul, u64_max,
}
use ace_chain.Consensus.Tendermint.{
  RoundStep, propose, prevote, precommit, commit_wait, committed, is_propose,
}
use ace_chain.Common.{if◌then◌else◌}

pub record TimeoutConfig : Type 0 where
  pub propose_ms : ℕ
  pub prevote_ms : ℕ
  pub precommit_ms : ℕ
  pub delta_ms : ℕ
  pub commit_wait_ms : ℕ

abbrev pub default : TimeoutConfig
default = record {
  propose_ms = 3000;
  prevote_ms = 1000;
  precommit_ms = 1000;
  delta_ms = 500;
  commit_wait_ms = 200;
}

abbrev pub devnet : TimeoutConfig
devnet = record {
  propose_ms = 2000;
  prevote_ms = 1000;
  precommit_ms = 1000;
  delta_ms = 500;
  commit_wait_ms = 200;
}

pub record RoundTimer : Type 0 where
  pub config : TimeoutConfig
  pub step_started : ℕ
  pub current_step : RoundStep
  pub current_round : ℕ
  pub height_start : ℕ
  pub round_start : ℕ

unfoldable pub new : TimeoutConfig → ℕ → RoundTimer
new config now = record {
  config = config;
  step_started = now;
  current_step = propose;
  current_round = 0;
  height_start = now;
  round_start = now;
}

unfoldable pub start_step : RoundTimer → ℕ → ℕ → RoundStep → RoundTimer
start_step t now round step = record t {
  round_start = if is_propose step then now else t.round_start;
  current_round = round;
  current_step = step;
  step_started = now;
}

unfoldable pub reset : RoundTimer → ℕ → RoundTimer
reset t now = record t {
  height_start = now;
  round_start = now;
  step_started = now;
  current_round = 0;
  current_step = propose;
}

-- The base of a step, and the increase per round.
unfoldable pub scaled : TimeoutConfig → ℕ → ℕ → ℕ
scaled c base round = saturating_add base (saturating_mul round c.delta_ms)

-- A round is a u32, which what is proved of it says.
unfoldable pub timeout_for : TimeoutConfig → ℕ → RoundStep → ℕ
unfolding scaled
timeout_for c round propose = scaled c c.propose_ms round
timeout_for c round prevote = scaled c c.prevote_ms round
timeout_for c round precommit = scaled c c.precommit_ms round
timeout_for c round commit_wait = c.commit_wait_ms
timeout_for c round committed = scaled c (u64_max / 2) round

unfoldable pub timeout_duration : RoundTimer → ℕ
unfolding timeout_for
timeout_duration t = timeout_for t.config t.current_round t.current_step

-- A clock that runs back shows no time elapsed.
abbrev pub elapsed : RoundTimer → ℕ → ℕ
elapsed t now = now - t.step_started

unfoldable pub is_timed_out : RoundTimer → ℕ → Bool
unfolding timeout_duration
is_timed_out t now = leb (timeout_duration t) (elapsed t now)

unfoldable pub time_remaining : RoundTimer → ℕ → ℕ
unfolding timeout_duration
time_remaining t now = timeout_duration t - elapsed t now
