-- ===== src/Consensus/Validators/Laws.antt =====
-- ace-consensus/src/validator_set.rs: the invariant of a validator set (sorted by identifier
-- with none twice, every stake at least the minimum, a total that is the sum of the stakes),
-- and the operations as changes of the map from identifiers to validators.
use ace_chain.Common.{
  ◌⊎◌, ℕ, ◌+◌, ◌≤◌, ◌<◌, ◌≡◌, refl, ◌∙◌, Option, none, some, List, [], ◌∷◌, ◌++◌, arith, ◌==◌, ltb,
  if◌then◌else◌, u64_mod, sum_of, All, any, false, true, Option-cases, inl, inr, Bool-cases, add64,
  ◌-◌, ==_iff,
}
use ace_chain.Consensus.Validators.{
  Validator, ValidatorSet, new, get_by_id, add_validator, AddResult, added, refused,
  insufficient_stake, duplicate_id, duplicate_index, remove_validator, update_stake, sort_by_id,
  min_validator_stake, set_stake,
}
use ace_chain.Consensus.Validators.Order.{
  IsOrdered, IsDistinct, has_id, by_id, restake, sort-IsOrdered, append-IsDistinct,
  IsOrdered-IsDistinct, by_id-sort, by_id-append, by_id-remove, by_id-set_stake, remove-IsOrdered,
  All-remove, set_stake-IsOrdered,
}
use ace_chain.Consensus.Validators.Stake.{
  stake_of, IsStaked, admitted, staked, sum-sort, sum-append, sum_stakes-eq-mod, sum-remove,
  sum-set_stake, stake-le-sum, IsStaked-sort, IsStaked-append, IsStaked-set_stake,
  IsStaked-admitted, admitted-IsDistinct, by_id-admitted,
}

pub record IsValid (s : ValidatorSet) : Type 0 where
  pub ordered : IsOrdered s.validators
  pub positive : All IsStaked s.validators
  pub counted : s.total_stake ≡ sum_of stake_of s.validators
  pub bounded : s.total_stake < u64_mod

-- From validators of distinct identifiers whose admitted stakes add up below 2^64, `new` makes a
-- valid set that holds exactly those with the minimum stake.
pub new-IsValid :
    (vs : List Validator)
    → IsDistinct vs
    → sum_of stake_of (admitted vs) < u64_mod
    → IsValid (new vs) × ((id : ℕ) → get_by_id (new vs) id ≡ staked (by_id id vs))
unfolding new get_by_id
new-IsValid vs d small =
    let apart = admitted-IsDistinct vs d in
    (
      record {
        ordered = sort-IsOrdered (admitted vs) apart;
        positive = IsStaked-sort (admitted vs) (IsStaked-admitted vs);
        counted =
            omega (arith, sum_stakes-eq-mod (sort_by_id (admitted vs)), sum-sort (admitted vs));
        bounded = omega (arith, sum_stakes-eq-mod (sort_by_id (admitted vs)));
      },
      λ id. by_id-sort id (admitted vs) apart ∙ by_id-admitted id vs d,
    )

-- Which test of `add_validator` refuses a validator, or that none does.
abbrev pub AddSpec : ValidatorSet → Validator → AddResult → Type 0
AddSpec s v (refused insufficient_stake) = v.stake < min_validator_stake
AddSpec s v (refused duplicate_id) = (1 ≤ v.stake) × (has_id v.id_com s.validators ≡ true)
AddSpec s v (refused duplicate_index) =
    (1 ≤ v.stake)
    × (has_id v.id_com s.validators ≡ false)
    × (any (λ w. w.index == v.index) s.validators ≡ true)
AddSpec s v (added t) =
    IsValid t
    × (t.total_stake ≡ s.total_stake + v.stake)
    × ((id : ℕ) → get_by_id t id ≡ (if v.id_com == id then some v else get_by_id s id))

-- The step of `add_validator` past its three tests.
added-AddSpec :
    (s : ValidatorSet) (v : Validator)
    → IsValid s
    → s.total_stake + v.stake < u64_mod
    → 1 ≤ v.stake
    → has_id v.id_com s.validators ≡ false
    → AddSpec s v (
        added (record s {
          validators = sort_by_id (s.validators ++ v ∷ []);
          total_stake = add64 s.total_stake v.stake;
        }))
unfolding get_by_id
added-AddSpec s v h small p e =
    let vs = s.validators in
    let apart = append-IsDistinct vs v (IsOrdered-IsDistinct vs h.ordered) e in
    (
      record {
        ordered = sort-IsOrdered (vs ++ v ∷ []) apart;
        positive = IsStaked-sort (vs ++ v ∷ []) (IsStaked-append vs v h.positive p);
        counted = omega (arith, sum-sort (vs ++ v ∷ []), sum-append vs v, h.counted);
        bounded = omega arith;
      },
      omega arith,
      λ id. by_id-sort id (vs ++ v ∷ []) apart ∙ by_id-append id vs v e,
    )

abbrev pub found_stake : Option Validator → ℕ
found_stake none = 0
found_stake (some v) = v.stake

-- `t` is `s` with the stake of `id`, if it is there, set anew.
abbrev pub Restakes : ValidatorSet → ℕ → ℕ → ValidatorSet → Type 0
Restakes s id stake t =
    IsValid t
    × (t.total_stake + found_stake (get_by_id s id) ≡ s.total_stake + found_stake (get_by_id t id))
    × ((j : ℕ) → get_by_id t j ≡ (if id == j then restake stake (get_by_id s j) else get_by_id s j))

-- On a valid set whose total has room for the new stake, `add_validator` refuses by exactly the
-- first test that fails, and otherwise keeps the set valid, adds the stake to the total, and changes
-- the lookup at the new identifier alone.
pub add_validator-AddSpec :
    (s : ValidatorSet) (v : Validator)
    → IsValid s
    → s.total_stake + v.stake < u64_mod
    → AddSpec s v (add_validator s v)
unfolding add_validator
add_validator-AddSpec s v h small = elim (Bool-cases (ltb v.stake min_validator_stake)) [
  | inl e ↦ rw e (ground arith)
  | inr e ↦ elim (Bool-cases (has_id v.id_com s.validators)) [
    | inl e' ↦ rw (e, e') (ground arith, e')
    | inr e' ↦ elim (Bool-cases (any (λ w. w.index == v.index) s.validators)) [
      | inl e'' ↦ rw (e, e', e'') (ground arith, e', e'')
      | inr e'' ↦ rw (e, e', e'') (added-AddSpec s v h small (ground arith) e')
    ]
  ]
]

-- Removing a validator from a valid set keeps it valid, takes its stake off the total, returns it, and changes
-- the lookup at its identifier alone; an unknown identifier changes nothing.
pub remove_validator-IsValid :
    (s : ValidatorSet) (id : ℕ)
    → IsValid s
    → let (t, removed) = remove_validator s id in
      IsValid t
      × (removed ≡ get_by_id s id)
      × (t.total_stake + found_stake removed ≡ s.total_stake)
      × ((j : ℕ) → get_by_id t j ≡ (if id == j then none else get_by_id s j))
unfolding remove_validator get_by_id
remove_validator-IsValid s id h = elim (Option-cases (by_id id s.validators)) [
  | inl e ↦ rw (e, remove_validator) (h, refl, omega arith, λ j. ground arith)
  | inr (v, e) ↦
      rw (e, remove_validator)
        (
          record {
            ordered = remove-IsOrdered id s.validators h.ordered;
            positive = All-remove IsStaked id s.validators h.positive;
            counted = omega (arith, sum-remove id s.validators v e, h.counted);
            bounded = omega (arith, h.bounded);
          },
          refl,
          omega (arith, stake-le-sum id s.validators v e, h.counted),
          λ j. by_id-remove id j s.validators (IsOrdered-IsDistinct s.validators h.ordered),
        )
]

restake-none :
    (id j stake : ℕ) (vs : List Validator)
    → by_id id vs ≡ none
    → by_id j vs ≡ (if id == j then restake stake (by_id j vs) else by_id j vs)
restake-none id j stake vs e = elim (Bool-cases (id == j)) [
  | inl same ↦
      let missing : by_id j vs ≡ none = rw (← (==_iff id j).0 same) e in rw (same, missing) refl
  | inr other ↦ rw other refl
]

restake_lem :
    (s : ValidatorSet) (id stake : ℕ) (found : Option Validator)
    → by_id id s.validators ≡ found
    → IsValid s
    → s.total_stake + stake < u64_mod
    → 1 ≤ stake
    → Restakes s id stake (elim found [
      | none ↦ s
      | some v ↦ record s {
        validators = set_stake id stake s.validators;
        total_stake = add64 (s.total_stake - v.stake) stake;
      }
    ])
unfolding get_by_id
restake_lem s id stake none e h small p = (h, refl, λ j. restake-none id j stake s.validators e)
restake_lem s id stake (some v) e h small p =
    let vs = s.validators in
    let room = stake-le-sum id vs v e in
    (
      record {
        ordered = set_stake-IsOrdered id stake vs h.ordered;
        positive = IsStaked-set_stake id stake vs p h.positive;
        counted = omega (arith, sum-set_stake id stake vs v e, room, h.counted);
        bounded = omega arith;
      },
      ground (arith, by_id-set_stake id id stake vs, room, h.counted),
      λ j. by_id-set_stake id j stake vs,
    )

-- On a valid set whose total has room for the new stake, an update below the minimum stake is
-- a removal. Any other keeps the set valid, puts the new stake in the place of the old one in
-- the total, and changes the stake of that validator alone; an unknown identifier changes
-- nothing.
pub update_stake-IsValid :
    (s : ValidatorSet) (id stake : ℕ)
    → IsValid s
    → s.total_stake + stake < u64_mod
    → (stake < 1) × (update_stake s id stake ≡ (remove_validator s id).0)
      ⊎ (1 ≤ stake) × Restakes s id stake (update_stake s id stake)
unfolding update_stake get_by_id
update_stake-IsValid s id stake h small = elim (Bool-cases (ltb stake 1)) [
  | inl e ↦ inl (rw e (ground arith, refl))
  | inr e ↦
      let p : 1 ≤ stake = ground (arith, e) in
      inr (rw e (p, restake_lem s id stake (by_id id s.validators) refl h small p))
]
