-- ===== src/Consensus/RoundTimer/Tests.antt =====
-- Timeouts of the default configuration.
use ace_chain.Common.{◌+◌, ◌*◌, ◌≤◌, ◌<◌, ◌≡◌, ◌↔◌, true, false, arith, u64_max}
use ace_chain.Consensus.Tendermint.{propose}
use ace_chain.Consensus.RoundTimer.{RoundTimer, default, start_step, is_timed_out}
use ace_chain.Consensus.RoundTimer.Growth.{base_of, is_timed_out-start_step}

abbrev timer : RoundTimer
timer = record {
  config = default;
  step_started = 100;
  current_step = propose;
  current_round = 2;
  height_start = 0;
  round_start = 50;
}

-- In round 4 a proposal is waited for 3000 + 4 * 500 milliseconds.
is_timed_out-start_step_example :
    let late = is_timed_out (start_step timer 700 4 propose) (700 + 3) in
    (base_of default propose + 4 * 500 ≤ u64_max
      → (late ≡ true) ↔ (base_of default propose + 4 * 500 ≤ 3))
    × (1 ≤ 500 → 3 < 4 → late ≡ false)
is_timed_out-start_step_example = is_timed_out-start_step timer propose 700 4 3 tt (omega arith)
