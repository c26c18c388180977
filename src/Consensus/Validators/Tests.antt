-- ===== src/Consensus/Validators/Tests.antt =====
-- Operations on the set of the three validators.
use ace_chain.Common.{ℕ, ◌+◌, ◌<◌, ◌≡◌, arith, u64_mod}
use ace_chain.Consensus.Validators.{ValidatorSet, new, get_by_id}
use ace_chain.Consensus.Validators.Order.{by_id}
use ace_chain.Consensus.Validators.Stake.{staked}
use ace_chain.Consensus.Validators.Samples.{three, three-IsDistinct}
use ace_chain.Consensus.Validators.Laws.{IsValid, new-IsValid}

abbrev sample : ValidatorSet
sample = new three

sample-IsValid : IsValid sample
sample-IsValid = (new-IsValid three three-IsDistinct (omega arith)).0

sample_room : sample.total_stake + 100 < u64_mod
unfolding new
sample_room = omega arith

new-IsValid_example :
    IsValid (new three) × ((id : ℕ) → get_by_id (new three) id ≡ staked (by_id id three))
new-IsValid_example = new-IsValid three three-IsDistinct (omega arith)
