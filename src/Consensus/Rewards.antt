-- ===== src/Consensus/Rewards.antt =====
-- ace-consensus/src/rewards.rs: epochs, the reward pool and its distribution. `u64` sums saturate or
-- wrap as written there; `usize` has 64 bits. The products of 128 bits fit, so they are plain.
pub mod Payout
pub mod Equal
pub mod Weighted
pub mod Conservation
pub mod Epochs
mod Tests
use ace_chain.Common.{
  ℕ, zero, suc, ◌+◌, ◌-◌, ◌*◌, ◌/◌, ◌%◌, ◌^◌, min, Bool, Option, none, some, List, [], ◌∷◌, map,
  ◌==◌, ltb, leb, if◌then◌else◌, add64, u64_mod, saturating_add, saturating_mul, length, replicate,
}

abbrev pub blocks_per_epoch : ℕ
blocks_per_epoch = 216000

abbrev pub initial_daily_reward : ℕ
initial_daily_reward = 100000 * 1000000000

abbrev pub warmup_target_validators : ℕ
warmup_target_validators = 1000

abbrev pub target_daily_reward_per_validator : ℕ
target_daily_reward_per_validator = initial_daily_reward / warmup_target_validators

abbrev pub tx_fee : ℕ
tx_fee = 20000

abbrev pub halving_interval_epochs : ℕ
halving_interval_epochs = 1461

abbrev pub max_supply : ℕ
max_supply = 1000000000 * 1000000000

abbrev pub base_reward_bps : ℕ
base_reward_bps = 7500

abbrev pub performance_reward_bps : ℕ
performance_reward_bps = 1700

abbrev pub bps_denominator : ℕ
bps_denominator = 10000

abbrev pub perf_weight_floor_bps : ℕ
perf_weight_floor_bps = 8500

abbrev pub perf_weight_ceil_bps : ℕ
perf_weight_ceil_bps = 11500

pub record RewardProfile : Type 0 where
  pub validator : ℕ
  pub perf_weight_bps : ℕ
  pub age_weight_bps : ℕ

pub record EpochTracker : Type 0 where
  pub current_epoch : ℕ
  pub accumulated_fees : ℕ
  pub total_minted : ℕ
  pub blocks_in_epoch : ℕ
  pub epoch_tx_count : ℕ
  pub last_epoch_tx_count : ℕ

unfoldable pub with_checkpoint : ℕ → ℕ → ℕ → ℕ → EpochTracker
with_checkpoint epoch total_minted accumulated_fees blocks_in_epoch = record {
  current_epoch = epoch;
  accumulated_fees = accumulated_fees;
  total_minted = total_minted;
  blocks_in_epoch = blocks_in_epoch;
  epoch_tx_count = 0;
  last_epoch_tx_count = 0;
}

unfoldable pub with_state : ℕ → ℕ → EpochTracker
unfolding with_checkpoint
with_state epoch total_minted = with_checkpoint epoch total_minted 0 0

unfoldable pub new : EpochTracker
unfolding with_checkpoint
new = with_checkpoint 0 0 0 0

unfoldable pub on_block : EpochTracker → ℕ → EpochTracker × Option ℕ
on_block t tx_count =
    let fees = saturating_add t.accumulated_fees (saturating_mul tx_count tx_fee) in
    let txs = saturating_add t.epoch_tx_count tx_count in
    let blocks = add64 t.blocks_in_epoch 1 in
    if leb blocks_per_epoch blocks
    then (
      record t {
        accumulated_fees = fees;
        last_epoch_tx_count = txs;
        current_epoch = add64 t.current_epoch 1;
        blocks_in_epoch = 0;
        epoch_tx_count = 0;
      },
      some t.current_epoch,
    )
    else (
      record t { accumulated_fees = fees; epoch_tx_count = txs; blocks_in_epoch = blocks },
      none,
    )

unfoldable pub take_fees : EpochTracker → EpochTracker × ℕ
take_fees t = (record t { accumulated_fees = 0 }, t.accumulated_fees)

unfoldable pub record_mint : EpochTracker → ℕ → EpochTracker
record_mint t amount = record t { total_minted = saturating_add t.total_minted amount }

unfoldable pub epoch_reward_pool : ℕ → ℕ → ℕ → ℕ
epoch_reward_pool epoch total_minted active_validator_count =
    if active_validator_count == 0
    then 0
    else if leb 20 (epoch / halving_interval_epochs)
    then 0
    else min
        (saturating_mul (min active_validator_count warmup_target_validators)
            target_daily_reward_per_validator
          / 2 ^ (epoch / halving_interval_epochs))
        (max_supply - total_minted)

-- Whether the validator at `i` of `count` gets one of the `remainder` units left over.
unfoldable pub gets_extra : ℕ → ℕ → ℕ → ℕ → ℕ
gets_extra count rotation remainder i =
    if ltb ((i + count - rotation % count) % count) remainder then 1 else 0

-- The loop of `distribute_equal`, from index `i`.
unfoldable pub add_equal : ℕ → ℕ → ℕ → ℕ → ℕ → List ℕ → List ℕ
unfolding gets_extra
add_equal count rotation remainder per i [] = []
add_equal count rotation remainder per i (x ∷ xs) =
    saturating_add x (per + gets_extra count rotation remainder i)
    ∷ add_equal count rotation remainder per (suc i) xs

unfoldable pub distribute_equal : ℕ → List ℕ → ℕ → List ℕ
unfolding add_equal
distribute_equal amount outputs rotation =
    if length outputs == 0
    then outputs
    else if amount == 0
    then outputs
    else add_equal (length outputs) rotation (amount % length outputs) (amount / length outputs) 0
        outputs

-- `weights.iter().copied().fold(0u64, u64::saturating_add)`.
unfoldable pub total_weight : ℕ → List ℕ → ℕ
total_weight acc [] = acc
total_weight acc (w ∷ ws) = total_weight (saturating_add acc w) ws

-- The loop over the shares: the new outputs, and what is distributed. `weights[index]` of a list that
-- is too short would panic; the callers pass as many weights as outputs.
unfoldable pub add_shares : ℕ → ℕ → List ℕ → List ℕ → ℕ → List ℕ × ℕ
add_shares amount total [] outputs distributed = (outputs, distributed)
add_shares amount total (w ∷ ws) [] distributed = ([], distributed)
add_shares amount total (w ∷ ws) (x ∷ xs) distributed =
    let share = amount * w / total in
    let (rest, sum) = add_shares amount total ws xs (saturating_add distributed share) in
    (saturating_add x share ∷ rest, sum)

-- `outputs[idx] = outputs[idx].saturating_add(1)`.
unfoldable pub bump : ℕ → List ℕ → List ℕ
bump i [] = []
bump zero (x ∷ xs) = saturating_add x 1 ∷ xs
bump (suc i) (x ∷ xs) = x ∷ bump i xs

-- The loop over the remainder, from `j`, with the given number of rounds to go.
unfoldable pub add_remainder : ℕ → ℕ → ℕ → ℕ → List ℕ → List ℕ
unfolding bump
add_remainder zero count rotation j outputs = outputs
add_remainder (suc n) count rotation j outputs =
    add_remainder n count rotation (suc j) (bump ((rotation + j) % u64_mod % count) outputs)

unfoldable pub distribute_weighted : ℕ → List ℕ → List ℕ → ℕ → List ℕ
unfolding total_weight add_shares add_remainder
distribute_weighted amount weights outputs rotation =
    if length outputs == 0
    then outputs
    else if amount == 0
    then outputs
    else if total_weight 0 weights == 0
    then distribute_equal amount outputs rotation
    else (let (shared, distributed) =
          add_shares amount (total_weight 0 weights) weights outputs 0 in
        add_remainder (min (amount - distributed) (length outputs)) (length outputs) rotation 0
          shared)
