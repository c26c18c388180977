-- ===== src/Consensus/Leader/Tests.antt =====
-- Elections among the three validators.
use ace_chain.Common.{ℕ, ◌+◌, ◌%◌, ◌≤◌, ◌<◌, ◌≡◌, ◌↔◌, refl, false, some, arith, u64_max}
use ace_chain.Consensus.Validators.{ValidatorSet, new, is_empty, get_by_id}
use ace_chain.Consensus.Validators.Laws
use ace_chain.Consensus.Validators.Laws.{new-IsValid}
use ace_chain.Consensus.Validators.Samples.{validator, three, three-IsDistinct}
use ace_chain.Consensus.Leader.{threshold, draw, elect}
use ace_chain.Consensus.Leader.Intervals.{before}
use ace_chain.Consensus.Leader.Draw.{value_at, elect_interval}

abbrev sample : ValidatorSet
sample = new three

sample-IsValid : Laws.IsValid sample
sample-IsValid = (new-IsValid three three-IsDistinct (omega arith)).0

some_one : is_empty sample ≡ false
unfolding new is_empty
some_one = refl

-- Every value that follows the first one, which is above the threshold.
abbrev rehash : ℕ → ℕ
rehash counter = 1234 + counter

second_low : value_at rehash u64_max 0 1 < threshold sample.total_stake
unfolding new threshold value_at
second_low = omega arith

drawn : draw 3 (threshold sample.total_stake) rehash u64_max 0 ≡ some 1235
unfolding new threshold draw
drawn = refl

member : get_by_id sample (validator 1).id_com ≡ some (validator 1)
unfolding new get_by_id
member = refl

elect_interval_example : (elect 3 sample u64_max rehash ≡ some 1) ↔ (
    (before 1 sample.validators ≤ 1235 % sample.total_stake)
    × (1235 % sample.total_stake < before 1 sample.validators + 100))
elect_interval_example =
    elect_interval sample sample-IsValid some_one 3 u64_max 1235 rehash (validator 1) drawn member
