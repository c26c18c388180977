-- ===== src/Consensus/Rewards/Conservation.antt =====
-- ace-consensus/src/rewards.rs: the amounts that RewardEngine::distribute pays out, and the
-- bounds of the pool.
use ace_chain.Common.{
  ℕ, zero, suc, ◌+◌, ◌-◌, ◌*◌, ◌/◌, ◌^◌, ◌≤◌, ◌<◌, ◌≡◌, refl, min, List, [], ◌∷◌, arith, length,
  sum, sum_of, u64_max, map, replicate, ap, length-replicate, saturating_mul, All,
}
use native.Mathlib.Nat.{div-le_self}
use ace_chain.Consensus.Rewards.{
  RewardProfile, epoch_reward_pool, distribute_equal, distribute_weighted, max_supply,
  initial_daily_reward, warmup_target_validators, target_daily_reward_per_validator,
  halving_interval_epochs,
}
use ace_chain.Consensus.Rewards.Payout.{
  perf_weight, age_weight, base_pool, perf_pool, rewards_of, payouts, total_reward, distribute,
}
use ace_chain.Consensus.Rewards.Equal.{sum-distribute_equal, length-distribute_equal}
use ace_chain.Consensus.Rewards.Weighted.{distribute_weighted_lem}

-- The weights are 16-bit numbers.
abbrev pub IsProfile : RewardProfile → Type 0
IsProfile p = (p.perf_weight_bps < 2 ^ 16) × (p.age_weight_bps < 2 ^ 16)

sum-replicate : (n : ℕ) → sum (replicate n 0) ≡ 0
sum-replicate zero = refl
sum-replicate (suc n) = omega (arith, sum-replicate n)

sum-weights :
    (ps : List RewardProfile)
    → All IsProfile ps
    → (sum (map perf_weight ps) ≤ 2 ^ 16 * length ps)
      × (sum (map age_weight ps) ≤ 2 ^ 16 * length ps)
unfolding perf_weight
sum-weights [] h = (omega arith, omega arith)
sum-weights (p ∷ ps) h =
    let rest = sum-weights ps h.1 in (ground (arith, rest.0), ground (arith, rest.1))

length-map {ℓ} : {A : Type ℓ} (f : A → ℕ) (xs : List A) → length (map f xs) ≡ length xs
length-map f [] = refl
length-map f (x ∷ xs) = ap suc (length-map f xs)

pools-le : (total : ℕ) → base_pool total + perf_pool total ≤ total
unfolding base_pool perf_pool
pools-le total = omega arith

rewards_of_lem :
    (total rotation : ℕ) (ps : List RewardProfile)
    → 1 ≤ length ps
    → length ps ≤ 2 ^ 47
    → All IsProfile ps
    → total ≤ u64_max
    → (sum (rewards_of total rotation ps) ≡ total)
      × (length (rewards_of total rotation ps) ≡ length ps)
unfolding rewards_of
rewards_of_lem total rotation ps one many h small =
    let n = length ps in
    let zeros : List ℕ = replicate n 0 in
    let fit = pools-le total in
    let light = sum-weights ps h in
    let len0 = length-replicate {A = ℕ} n 0 in
    let base = distribute_equal (base_pool total) zeros rotation in
    let l1 = length-distribute_equal (base_pool total) zeros rotation in
    let s1 =
      sum-distribute_equal (base_pool total) zeros rotation (omega (arith, len0))
        (omega (arith, sum-replicate n, fit)) in
    let perf = distribute_weighted (perf_pool total) (map perf_weight ps) base rotation in
    let s2 =
      distribute_weighted_lem (perf_pool total) (map perf_weight ps) base rotation
        (omega (arith, length-map perf_weight ps, l1, len0)) (omega (arith, l1, len0))
        (omega (arith, light.0)) (omega (arith, s1, sum-replicate n, fit)) in
    let s3 =
      distribute_weighted_lem (total - base_pool total - perf_pool total) (map age_weight ps) perf
        rotation (omega (arith, length-map age_weight ps, s2.1, l1, len0))
        (omega (arith, s2.1, l1, len0)) (omega (arith, light.1))
        (omega (arith, s2.0, s1, sum-replicate n, fit)) in
    (omega (arith, s3.0, s2.0, s1, sum-replicate n, fit), omega (arith, s3.1, s2.1, l1, len0))

abbrev pub amount_of : ℕ × ℕ → ℕ
amount_of p = p.1

sum-payouts :
    (ps : List RewardProfile) (amounts : List ℕ)
    → length amounts ≡ length ps
    → sum_of amount_of (payouts ps amounts) ≡ sum amounts
unfolding payouts
sum-payouts [] [] e = refl
sum-payouts [] (a ∷ rest) e = absurd (omega arith)
sum-payouts (p ∷ ps) [] e = refl
sum-payouts (p ∷ ps) (a ∷ rest) e = ground (arith, sum-payouts ps rest (omega arith))

-- For at least one and at most 2^47 validators with 16-bit weights, what an epoch pays out is exactly
-- its reward pool plus the accumulated fees, held down to the largest 64-bit number: no unit is lost
-- to rounding and none is made.
pub distribute_conserves :
    (epoch total_minted fees : ℕ) (ps : List RewardProfile)
    → 1 ≤ length ps
    → length ps ≤ 2 ^ 47
    → All IsProfile ps
    → sum_of amount_of (distribute epoch total_minted fees ps)
      ≡ min (epoch_reward_pool epoch total_minted (length ps) + fees) u64_max
unfolding distribute total_reward
distribute_conserves epoch total_minted fees ps one many h =
    let total = total_reward epoch total_minted fees ps in
    let shared = rewards_of_lem total epoch ps one many h (omega arith) in
    let paid = sum-payouts ps (rewards_of total epoch ps) (shared.1) in
    ground (arith, shared.0, paid)

-- While no more than the maximum supply is minted, the pool of an epoch never exceeds the initial
-- daily reward, nor takes what is minted above the maximum; and it is empty without validators
-- and from the twentieth halving on.
pub epoch_reward_pool_bounds :
    (epoch later total_minted count : ℕ)
    → total_minted ≤ max_supply
    → (epoch_reward_pool epoch total_minted count ≤ initial_daily_reward)
      × (total_minted + epoch_reward_pool epoch total_minted count ≤ max_supply)
      × (epoch_reward_pool epoch total_minted 0 ≡ 0)
      × (epoch_reward_pool (20 * halving_interval_epochs + later) total_minted count ≡ 0)
unfolding epoch_reward_pool
epoch_reward_pool_bounds epoch later total_minted count p =
    let less =
      div-le_self
        (saturating_mul (min count warmup_target_validators) target_daily_reward_per_validator)
        (2 ^ (epoch / halving_interval_epochs)) in
    (ground (arith, less), ground (arith, less), refl, ground arith)
