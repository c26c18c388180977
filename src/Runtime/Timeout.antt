-- ===== src/Runtime/Timeout.antt =====
-- ace-runtime/src/consensus/timeout.rs: the two windows of a block's proof, and the record of the
-- validators that hold its witness. Slots are 64-bit numbers; an addition of them wraps as a
-- release build's does. `slot_duration_ms` (config.rs) depends on a build feature, so it is an argument.
pub mod Laws
use ace_chain.Common.{
  ℕ, ◌+◌, ◌-◌, ◌*◌, Bool, true, false, not, ◌&&◌, Option, none, some, List, [], ◌∷◌, ltb, leb,
  is_some, if◌then◌else◌, add64, u64_mod, ◌%◌, length,
}
use ace_chain.Common.Assoc.{Map, lookup, insert}
use ace_chain.Runtime.Quorum.{quorum_numerator, quorum_denominator}

abbrev pub k_builder_slots : ℕ
k_builder_slots = 3

abbrev pub k_backup_slots : ℕ
k_backup_slots = 3

pub data TimeoutPhase : Type 0 where
  builder_window backup_window expired resolved_phase : TimeoutPhase

pub record TimeoutProtocol : Type 0 where
  pub block_slot : ℕ
  pub resolved : Bool

unfoldable pub new : ℕ → TimeoutProtocol
new block_slot = record { block_slot = block_slot; resolved = false }

unfoldable pub resolve : TimeoutProtocol → TimeoutProtocol
resolve t = record t { resolved = true }

unfoldable pub phase : TimeoutProtocol → ℕ → TimeoutPhase
phase t current_slot =
    if t.resolved
    then resolved_phase
    else if leb (current_slot - t.block_slot) k_builder_slots
    then builder_window
    else if leb (current_slot - t.block_slot) (k_builder_slots + k_backup_slots)
    then backup_window
    else expired

unfoldable pub builder_deadline : TimeoutProtocol → ℕ
builder_deadline t = add64 t.block_slot k_builder_slots

unfoldable pub backup_deadline : TimeoutProtocol → ℕ
backup_deadline t = add64 (add64 t.block_slot k_builder_slots) k_backup_slots

unfoldable pub builder_deadline_ms : ℕ → ℕ
builder_deadline_ms slot_duration_ms = k_builder_slots * slot_duration_ms

unfoldable pub total_deadline_ms : ℕ → ℕ
total_deadline_ms slot_duration_ms = (k_builder_slots + k_backup_slots) * slot_duration_ms

unfoldable pub is_builder_expired : TimeoutProtocol → ℕ → Bool
unfolding builder_deadline
is_builder_expired t current_slot = not t.resolved && ltb (builder_deadline t) current_slot

unfoldable pub is_fully_expired : TimeoutProtocol → ℕ → Bool
unfolding backup_deadline
is_fully_expired t current_slot = not t.resolved && ltb (backup_deadline t) current_slot

pub record WitnessAvailability : Type 0 where
  pub received : Map ℕ
  pub total_validators : ℕ
  pub valid_validators : Option (Map ℕ)

unfoldable pub new_witness : ℕ → WitnessAvailability
new_witness total_validators = record {
  received = [];
  total_validators = total_validators;
  valid_validators = none;
}

unfoldable pub new_with_validator_set : ℕ → Map ℕ → WitnessAvailability
new_with_validator_set total_validators valid_set = record {
  received = [];
  total_validators = total_validators;
  valid_validators = some valid_set;
}

-- The stake that a receipt of the validator counts for.
unfoldable pub receipt_stake : Option (Map ℕ) → ℕ → Option ℕ
receipt_stake (some valid_set) validator_id = lookup validator_id valid_set
receipt_stake none validator_id = some 1

abbrev pub receive : WitnessAvailability → ℕ → Option ℕ → WitnessAvailability × Bool
receive w validator_id none = (w, false)
receive w validator_id (some stake) =
    (record w { received = insert validator_id stake w.received }, true)

unfoldable pub record_receipt : WitnessAvailability → ℕ → WitnessAvailability × Bool
unfolding receipt_stake
record_receipt w validator_id =
    if is_some (lookup validator_id w.received)
    then (w, false)
    else receive w validator_id (receipt_stake w.valid_validators validator_id)

unfoldable pub received_count : WitnessAvailability → ℕ
received_count w = length w.received

-- The `u64` sum of the values of a map.
unfoldable pub sum_values : Map ℕ → ℕ
sum_values [] = 0
sum_values ((k, v) ∷ m) = add64 v (sum_values m)

unfoldable pub received_stake : WitnessAvailability → ℕ
unfolding sum_values
received_stake w = sum_values w.received

unfoldable pub is_available : WitnessAvailability → Bool
unfolding received_stake
is_available w = leb (quorum_numerator * w.total_validators) (received_stake w * quorum_denominator)
