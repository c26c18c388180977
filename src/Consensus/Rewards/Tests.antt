-- ===== src/Consensus/Rewards/Tests.antt =====
-- Distributions among a few validators.
use ace_chain.Common.{ℕ, ◌+◌, ◌≡◌, List, [], ◌∷◌, arith, length, sum_of, All, min, u64_max}
use ace_chain.Consensus.Rewards.{RewardProfile, EpochTracker, epoch_reward_pool}
use ace_chain.Consensus.Rewards.Payout.{distribute}
use ace_chain.Consensus.Rewards.Conservation.{IsProfile, amount_of, distribute_conserves}

abbrev profile : ℕ → ℕ → RewardProfile
profile id weight = record { validator = id; perf_weight_bps = weight; age_weight_bps = weight }

abbrev profiles : List RewardProfile
profiles = profile 1 9000 ∷ profile 2 1200 ∷ profile 3 6000 ∷ []

profiles-All : All IsProfile profiles
profiles-All =
    ((omega arith, omega arith), ((omega arith, omega arith), ((omega arith, omega arith), tt)))

distribute_conserves_example :
    sum_of amount_of (distribute 4 1000 55 profiles)
    ≡ min (epoch_reward_pool 4 1000 (length profiles) + 55) u64_max
distribute_conserves_example =
    distribute_conserves 4 1000 55 profiles (omega arith) (omega arith) profiles-All

abbrev weights : List ℕ
weights = 3 ∷ 4 ∷ []

abbrev outputs : List ℕ
outputs = 1 ∷ 2 ∷ []

-- The tracker before the last block of epoch 4.
abbrev tracker : EpochTracker
tracker = record {
  current_epoch = 4;
  accumulated_fees = 0;
  total_minted = 1000;
  blocks_in_epoch = 215999;
  epoch_tx_count = 12;
  last_epoch_tx_count = 0;
}
