-- ===== src/Consensus/Validators/Stake.antt =====
-- ace-consensus/src/validator_set.rs: the stakes of the validators, their sum under each
-- change of the list, and the wrapping sum.
use ace_chain.Common.{
  ℕ, ◌+◌, ◌≤◌, ◌≡◌, refl, none, some, List, [], ◌∷◌, ◌++◌, arith, u64_mod, filter, leb, sum_of, All,
  Option, false, ◌%◌, if◌then◌else◌,
}
use ace_chain.Consensus.Validators.{
  Validator, insert_by_id, sort_by_id, sum_stakes, remove_id, set_stake, min_validator_stake,
}
use ace_chain.Consensus.Validators.Order.{by_id, has_id, IsDistinct}

abbrev pub stake_of : Validator → ℕ
stake_of v = v.stake

abbrev pub IsStaked : Validator → Type 0
IsStaked v = 1 ≤ v.stake

sum-insert :
    (v : Validator) (vs : List Validator)
    → sum_of stake_of (insert_by_id v vs) ≡ v.stake + sum_of stake_of vs
unfolding insert_by_id
sum-insert v [] = refl
sum-insert v (w ∷ ws) = ground (arith, sum-insert v ws)

pub sum-sort : (vs : List Validator) → sum_of stake_of (sort_by_id vs) ≡ sum_of stake_of vs
unfolding sort_by_id
sum-sort [] = refl
sum-sort (v ∷ vs) = ground (arith, sum-insert v (sort_by_id vs), sum-sort vs)

pub sum-append :
    (vs : List Validator) (v : Validator)
    → sum_of stake_of (vs ++ v ∷ []) ≡ v.stake + sum_of stake_of vs
sum-append [] v = refl
sum-append (w ∷ ws) v = ground (arith, sum-append ws v)

-- The `u64` sum wraps once around the true sum.
pub sum_stakes-eq-mod : (vs : List Validator) → sum_stakes vs ≡ sum_of stake_of vs % u64_mod
unfolding sum_stakes
sum_stakes-eq-mod [] = refl
sum_stakes-eq-mod (v ∷ vs) = rw (sum_stakes-eq-mod vs) (omega arith)

pub sum-remove :
    (id : ℕ) (vs : List Validator) (v : Validator)
    → by_id id vs ≡ some v
    → sum_of stake_of (remove_id id vs) + v.stake ≡ sum_of stake_of vs
unfolding remove_id
sum-remove id [] v e = cc
sum-remove id (w ∷ ws) v e = ground (arith, sum-remove id ws v)

pub sum-set_stake :
    (id stake : ℕ) (vs : List Validator) (v : Validator)
    → by_id id vs ≡ some v
    → sum_of stake_of (set_stake id stake vs) + v.stake ≡ sum_of stake_of vs + stake
unfolding set_stake
sum-set_stake id stake [] v e = cc
sum-set_stake id stake (w ∷ ws) v e = ground (arith, sum-set_stake id stake ws v)

pub stake-le-sum :
    (id : ℕ) (vs : List Validator) (v : Validator)
    → by_id id vs ≡ some v
    → v.stake ≤ sum_of stake_of vs
stake-le-sum id [] v e = cc
stake-le-sum id (w ∷ ws) v e = ground (arith, stake-le-sum id ws v)

-- Every stake stays positive.
IsStaked-insert :
    (v : Validator) (vs : List Validator)
    → IsStaked v
    → All IsStaked vs
    → All IsStaked (insert_by_id v vs)
unfolding insert_by_id
IsStaked-insert v [] p h = (p, tt)
IsStaked-insert v (w ∷ ws) p h = ground (arith, IsStaked-insert v ws p h.1)

pub IsStaked-sort : (vs : List Validator) → All IsStaked vs → All IsStaked (sort_by_id vs)
unfolding sort_by_id
IsStaked-sort [] h = tt
IsStaked-sort (v ∷ vs) h = IsStaked-insert v (sort_by_id vs) h.0 (IsStaked-sort vs h.1)

pub IsStaked-append :
    (vs : List Validator) (v : Validator)
    → All IsStaked vs
    → IsStaked v
    → All IsStaked (vs ++ v ∷ [])
IsStaked-append [] v h p = (p, tt)
IsStaked-append (w ∷ ws) v h p = (h.0, IsStaked-append ws v h.1 p)

pub IsStaked-set_stake :
    (id stake : ℕ) (vs : List Validator)
    → 1 ≤ stake
    → All IsStaked vs
    → All IsStaked (set_stake id stake vs)
unfolding set_stake
IsStaked-set_stake id stake [] p h = tt
IsStaked-set_stake id stake (w ∷ ws) p h = ground (arith, IsStaked-set_stake id stake ws p h.1)

-- The validators that `new` admits.
abbrev pub admitted : List Validator → List Validator
admitted vs = filter (λ v. leb min_validator_stake v.stake) vs

pub IsStaked-admitted : (vs : List Validator) → All IsStaked (admitted vs)
IsStaked-admitted [] = tt
IsStaked-admitted (v ∷ vs) = ground (arith, IsStaked-admitted vs)

has_id-admitted :
    (id : ℕ) (vs : List Validator) → has_id id vs ≡ false → has_id id (admitted vs) ≡ false
has_id-admitted id [] h = refl
has_id-admitted id (v ∷ vs) h = ground (arith, has_id-admitted id vs)

pub admitted-IsDistinct : (vs : List Validator) → IsDistinct vs → IsDistinct (admitted vs)
admitted-IsDistinct [] d = tt
admitted-IsDistinct (v ∷ vs) d =
    ground (arith, admitted-IsDistinct vs d.1, has_id-admitted v.id_com vs d.0)

abbrev pub if_staked : Validator → Option Validator
if_staked v = if leb min_validator_stake v.stake then some v else none

abbrev pub staked : Option Validator → Option Validator
staked none = none
staked (some v) = if_staked v

by_id-admitted-none :
    (id : ℕ) (vs : List Validator) → has_id id vs ≡ false → by_id id (admitted vs) ≡ none
by_id-admitted-none id [] h = refl
by_id-admitted-none id (v ∷ vs) h = ground (arith, by_id-admitted-none id vs)

pub by_id-admitted :
    (id : ℕ) (vs : List Validator) → IsDistinct vs → by_id id (admitted vs) ≡ staked (by_id id vs)
by_id-admitted id [] d = refl
by_id-admitted id (v ∷ vs) d =
    ground (arith, by_id-admitted id vs d.1, by_id-admitted-none v.id_com vs d.0)
