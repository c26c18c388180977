-- ===== src/Consensus/Rewards/Payout.antt =====
-- ace-consensus/src/rewards.rs: `RewardEngine::distribute`, over the three buckets.
use ace_chain.Common.{
  ℕ, ◌-◌, ◌/◌, List, [], ◌∷◌, map, ◌==◌, ltb, if◌then◌else◌, saturating_add, saturating_mul, length,
  replicate,
}
use ace_chain.Consensus.Rewards.{
  RewardProfile, epoch_reward_pool, distribute_equal, distribute_weighted, base_reward_bps,
  performance_reward_bps, bps_denominator, perf_weight_floor_bps, perf_weight_ceil_bps,
}

-- `perf_weight_bps.clamp(PERF_WEIGHT_FLOOR_BPS, PERF_WEIGHT_CEIL_BPS)`.
unfoldable pub perf_weight : RewardProfile → ℕ
perf_weight p =
    if ltb p.perf_weight_bps perf_weight_floor_bps
    then perf_weight_floor_bps
    else if ltb perf_weight_ceil_bps p.perf_weight_bps
    then perf_weight_ceil_bps
    else p.perf_weight_bps

abbrev pub age_weight : RewardProfile → ℕ
age_weight p = p.age_weight_bps

unfoldable pub base_pool : ℕ → ℕ
base_pool total = saturating_mul total base_reward_bps / bps_denominator

unfoldable pub perf_pool : ℕ → ℕ
perf_pool total = saturating_mul total performance_reward_bps / bps_denominator

-- The reward of each validator from the three pools.
unfoldable pub rewards_of : ℕ → ℕ → List RewardProfile → List ℕ
unfolding base_pool perf_pool
rewards_of total rotation profiles =
    let base = distribute_equal (base_pool total) (replicate (length profiles) 0) rotation in
    let perf = distribute_weighted (perf_pool total) (map perf_weight profiles) base rotation in
    distribute_weighted (total - base_pool total - perf_pool total) (map age_weight profiles) perf
      rotation

-- `zip` and `filter_map`: the validators with a positive amount.
unfoldable pub payouts : List RewardProfile → List ℕ → List (ℕ × ℕ)
payouts [] amounts = []
payouts (p ∷ ps) [] = []
payouts (p ∷ ps) (a ∷ rest) =
    if ltb 0 a then (p.validator, a) ∷ payouts ps rest else payouts ps rest

unfoldable pub total_reward : ℕ → ℕ → ℕ → List RewardProfile → ℕ
unfolding epoch_reward_pool
total_reward epoch total_minted accumulated_fees profiles =
    saturating_add (epoch_reward_pool epoch total_minted (length profiles)) accumulated_fees

unfoldable pub distribute : ℕ → ℕ → ℕ → List RewardProfile → List (ℕ × ℕ)
unfolding rewards_of payouts total_reward
distribute epoch total_minted accumulated_fees profiles =
    if length profiles == 0
    then []
    else if total_reward epoch total_minted accumulated_fees profiles == 0
    then []
    else payouts profiles
        (rewards_of (total_reward epoch total_minted accumulated_fees profiles) epoch profiles)
