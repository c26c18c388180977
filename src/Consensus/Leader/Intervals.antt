-- ===== src/Consensus/Leader/Intervals.antt =====
-- ace-consensus/src/leader_schedule.rs: the walk of an election, seen as intervals of targets.
use ace_chain.Common.{
  ℕ, ◌+◌, ◌≤◌, ◌<◌, ◌≡◌, ◌↔◌, true, some, List, [], ◌∷◌, arith, ◌==◌, if◌then◌else◌, sum_of,
  u64_mod,
}
use ace_chain.Consensus.Validators.{Validator}
use ace_chain.Consensus.Validators.Order.{IsDistinct, by_id, has_id}
use ace_chain.Consensus.Validators.Stake.{stake_of}
use ace_chain.Consensus.Leader.{pick}

-- The stakes of the validators that stand before `id`.
pub before : ℕ → List Validator → ℕ
before id [] = 0
before id (v ∷ vs) = if v.id_com == id then 0 else v.stake + before id vs

pub pick-has_id :
    (last : ℕ) (vs : List Validator) (acc target : ℕ)
    → acc + sum_of stake_of vs < u64_mod
    → acc ≤ target
    → target < acc + sum_of stake_of vs
    → has_id (pick last vs acc target) vs ≡ true
unfolding pick
pick-has_id last [] acc target small low high = absurd (omega arith)
pick-has_id last (v ∷ vs) acc target small low high =
    ground (arith, pick-has_id v.id_com vs (acc + v.stake) target)

pub pick_interval :
    (last : ℕ) (vs : List Validator) (acc target : ℕ) (v : Validator)
    → IsDistinct vs
    → acc + sum_of stake_of vs < u64_mod
    → acc ≤ target
    → target < acc + sum_of stake_of vs
    → by_id v.id_com vs ≡ some v
    → (pick last vs acc target ≡ v.id_com)
      ↔ ((acc + before v.id_com vs ≤ target) × (target < acc + before v.id_com vs + v.stake))
unfolding pick before
pick_interval last [] acc target v d small low high e = cc
pick_interval last (w ∷ ws) acc target v d small low high e = ground (
  arith,
  pick_interval w.id_com ws (acc + w.stake) target v d.1,
  pick-has_id w.id_com ws (acc + w.stake) target,
)
