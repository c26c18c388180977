-- ===== src/Consensus/Validators.antt =====
-- ace-consensus/src/validator_set.rs: the validators of an epoch with their stakes. An `AccountId`
-- is the number that its 32 bytes spell, most significant first, so that the order of the bytes is
-- the order of the numbers. A `u64` sum wraps, as in a release build.
pub mod Order
pub mod Stake
pub mod Laws
pub mod Samples
mod Tests
use ace_chain.Common.{
  ℕ, ◌-◌, Bool, Option, none, some, List, [], ◌∷◌, ◌++◌, ◌==◌, leb, ltb, if◌then◌else◌, add64,
  filter, find?, any, length,
}
use ace_chain.Runtime.SigAlgo.{TaggedPubkey}

pub record ValidatorCapabilities : Type 0 where
  pub evm_core : Bool
  pub btc_payments : Bool
  pub solana_light : Bool

pub data CommitteeDomain : Type 0 where
  btc_payments solana_light : CommitteeDomain

pub record Validator : Type 0 where
  pub id_com : ℕ
  pub stake : ℕ
  pub index : ℕ
  pub signing_pubkey : TaggedPubkey
  pub capabilities : ValidatorCapabilities

abbrev pub min_validator_stake : ℕ
min_validator_stake = 1

pub record ValidatorSet : Type 0 where
  pub validators : List Validator
  pub total_stake : ℕ
  pub generation : ℕ

-- The stable `sort_by` on the identifiers.
unfoldable pub insert_by_id : Validator → List Validator → List Validator
insert_by_id v [] = v ∷ []
insert_by_id v (w ∷ ws) = if leb v.id_com w.id_com then v ∷ w ∷ ws else w ∷ insert_by_id v ws

unfoldable pub sort_by_id : List Validator → List Validator
unfolding insert_by_id
sort_by_id [] = []
sort_by_id (v ∷ vs) = insert_by_id v (sort_by_id vs)

-- `iter().map(|v| v.stake).sum()` on `u64`.
unfoldable pub sum_stakes : List Validator → ℕ
sum_stakes [] = 0
sum_stakes (v ∷ vs) = add64 v.stake (sum_stakes vs)

unfoldable pub new : List Validator → ValidatorSet
unfolding sort_by_id sum_stakes
new vs =
    let sorted = sort_by_id (filter (λ v. leb min_validator_stake v.stake) vs) in
    record { validators = sorted; total_stake = sum_stakes sorted; generation = 0 }

unfoldable pub is_empty : ValidatorSet → Bool
is_empty s = length s.validators == 0

unfoldable pub set_generation : ValidatorSet → ℕ → ValidatorSet
set_generation s g = record s { generation = g }

unfoldable pub get_by_index : ValidatorSet → ℕ → Option Validator
get_by_index s i = find? (λ v. v.index == i) s.validators

unfoldable pub get_by_id : ValidatorSet → ℕ → Option Validator
get_by_id s id = find? (λ v. v.id_com == id) s.validators

abbrev pub supports : CommitteeDomain → ValidatorCapabilities → Bool
supports btc_payments c = c.btc_payments
supports solana_light c = c.solana_light

unfoldable pub validators_for_domain : ValidatorSet → CommitteeDomain → List Validator
validators_for_domain s domain = filter (λ v. supports domain v.capabilities) s.validators

-- The allowed identifiers, a `BTreeSet`, as a list.
unfoldable pub filtered : ValidatorSet → List ℕ → ValidatorSet
unfolding new
filtered s allowed = new (filter (λ v. any (λ id. id == v.id_com) allowed) s.validators)

-- The three refusals of `add_validator`, whose texts are dropped.
pub data AddError : Type 0 where
  insufficient_stake duplicate_id duplicate_index : AddError

pub data AddResult : Type 0 where
  added : ValidatorSet → AddResult
  refused : AddError → AddResult

unfoldable pub add_validator : ValidatorSet → Validator → AddResult
unfolding sort_by_id
add_validator s v =
    if ltb v.stake min_validator_stake
    then refused insufficient_stake
    else if any (λ w. w.id_com == v.id_com) s.validators
    then refused duplicate_id
    else if any (λ w. w.index == v.index) s.validators
    then refused duplicate_index
    else added (record s {
      validators = sort_by_id (s.validators ++ v ∷ []);
      total_stake = add64 s.total_stake v.stake;
    })

-- `position` and `remove`: the first validator of that identifier goes.
unfoldable pub remove_id : ℕ → List Validator → List Validator
remove_id id [] = []
remove_id id (v ∷ vs) = if v.id_com == id then vs else v ∷ remove_id id vs

unfoldable pub remove_validator : ValidatorSet → ℕ → ValidatorSet × Option Validator
unfolding remove_id
remove_validator s id = elim (find? (λ v. v.id_com == id) s.validators) [
  | none ↦ (s, none)
  | some v ↦ (
    record s { validators = remove_id id s.validators; total_stake = s.total_stake - v.stake },
    some v,
  )
]

-- `iter_mut().find`: the first validator of that identifier is changed in place.
unfoldable pub set_stake : ℕ → ℕ → List Validator → List Validator
set_stake id stake [] = []
set_stake id stake (v ∷ vs) =
    if v.id_com == id then record v { stake = stake } ∷ vs else v ∷ set_stake id stake vs

unfoldable pub update_stake : ValidatorSet → ℕ → ℕ → ValidatorSet
unfolding remove_validator set_stake
update_stake s id new_stake =
    if ltb new_stake min_validator_stake
    then (remove_validator s id).0
    else elim (find? (λ v. v.id_com == id) s.validators) [
      | none ↦ s
      | some v ↦ record s {
        validators = set_stake id new_stake s.validators;
        total_stake = add64 (s.total_stake - v.stake) new_stake;
      }
    ]
