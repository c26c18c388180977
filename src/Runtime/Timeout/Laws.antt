-- ===== src/Runtime/Timeout/Laws.antt =====
-- ace-runtime/src/consensus/timeout.rs: the phases and the deadlines, and the receipts.
use ace_chain.Common.{
  ℕ, suc, ◌+◌, ◌%◌, ◌^◌, ◌≤◌, ◌<◌, ◌≡◌, refl, true, false, Option, none, some, [], ◌∷◌, arith, ◌↔◌,
  length, ◌⊎◌, inl, inr, ◌≢◌,
}
use ace_chain.Common.Assoc.{Map, lookup, insert, lookup-insert}
use ace_chain.Runtime.Timeout.{
  TimeoutPhase, builder_window, backup_window, expired, resolved_phase, TimeoutProtocol, phase,
  builder_deadline, backup_deadline, is_builder_expired, is_fully_expired, WitnessAvailability,
  receipt_stake, record_receipt, sum_values, k_builder_slots, k_backup_slots, received_stake,
  received_count,
}

-- The order in which the phases of an unresolved block follow each other.
abbrev pub stage : TimeoutPhase → ℕ
stage builder_window = 0
stage backup_window = 1
stage expired = 2
stage resolved_phase = 3

-- At a later slot a block is in the same phase or in a later one.
pub phase_mono :
    (t : TimeoutProtocol) (early late : ℕ)
    → early ≤ late
    → stage (phase t early) ≤ stage (phase t late)
unfolding phase
phase_mono t early late le = ground arith

-- While the deadlines fit 64 bits, the predicates on expiry, which add to the block's slot,
-- agree with the phase, which subtracts from the current one: the builder's window has expired
-- exactly in the backup window and after it, both windows have exactly in the last phase, and
-- the builder's deadline is the last slot of its window for a block that is not resolved.
pub phase_deadlines :
    (t : TimeoutProtocol) (slot : ℕ)
    → t.block_slot + (k_builder_slots + k_backup_slots) < 2 ^ 64
    → ((is_builder_expired t slot ≡ true)
        ↔ ((phase t slot ≡ backup_window) ⊎ (phase t slot ≡ expired)))
      × ((is_fully_expired t slot ≡ true) ↔ (phase t slot ≡ expired))
      × ((phase t slot ≡ builder_window) ↔ ((t.resolved ≡ false) × (slot ≤ builder_deadline t)))
unfolding phase is_builder_expired is_fully_expired builder_deadline backup_deadline
phase_deadlines t slot fit = (
  (λ p. ground (arith, fit), λ p. ground (arith, fit)),
  (λ p. ground (arith, fit), λ p. ground (arith, fit)),
  (λ p. (ground (arith, fit), ground (arith, fit)), λ p. ground (arith, fit)),
)

-- Every receipt counts a validator of the set, with the stake that the set gives it.
abbrev pub IsRecord : WitnessAvailability → Type 0
IsRecord w =
    (id stake : ℕ)
    → lookup id w.received ≡ some stake
    → receipt_stake w.valid_validators id ≡ some stake

abbrev pub FitsMap : Map ℕ → Type 0
FitsMap m = sum_values m < 2 ^ 64

sum_values-insert :
    (m : Map ℕ) (k v : ℕ)
    → lookup k m ≡ none
    → sum_values (insert k v m) ≡ (sum_values m + v) % 2 ^ 64
unfolding sum_values lookup insert
sum_values-insert [] k v e = ground arith
sum_values-insert ((j, w) ∷ m) k v e = ground (arith, sum_values-insert m k v)

length-insert : (m : Map ℕ) (k v : ℕ) → lookup k m ≡ none → length (insert k v m) ≡ suc (length m)
unfolding lookup insert
length-insert [] k v e = refl
length-insert ((j, w) ∷ m) k v e = ground (arith, length-insert m k v)

-- What recording a receipt may do: refuse it and change nothing, or count it.
abbrev pub ReceiptCounts : WitnessAvailability → ℕ → Type 0
ReceiptCounts w id =
    ((record_receipt w id).1 ≡ false)
      × ((record_receipt w id).0 ≡ w)
      × ((lookup id w.received ≢ none) ⊎ (receipt_stake w.valid_validators id ≡ none))
    ⊎ (stake : ℕ) × ((record_receipt w id).1 ≡ true)
      × (lookup id w.received ≡ none)
      × (receipt_stake w.valid_validators id ≡ some stake)
      × (received_stake (record_receipt w id).0 ≡ (received_stake w + stake) % 2 ^ 64)
      × (received_count (record_receipt w id).0 ≡ suc (received_count w))
      × (lookup id (record_receipt w id).0.received ≡ some stake)

receipt :
    (w : WitnessAvailability) (id : ℕ) (seen : Option ℕ)
    → lookup id w.received ≡ seen
    → (granted : Option ℕ) → receipt_stake w.valid_validators id ≡ granted
    → ReceiptCounts w id
unfolding record_receipt received_stake received_count
receipt w id (some s) e granted g = inl (rw e (refl, refl, inl (λ p. cc)))
receipt w id none e none g = inl (rw (e, g) (refl, refl, inr refl))
receipt w id none e (some stake) g =
    rw (e, g)
      (inr (
        stake,
        refl,
        refl,
        refl,
        sum_values-insert w.received id stake e,
        length-insert w.received id stake e,
        rw (lookup-insert id id stake w.received) (ground arith),
      ))

-- What recording a receipt does: it is taken exactly when the validator has not reported and the set,
-- if there is one, holds it; then its stake is added to the received stake (of 64 bits) and its
-- receipt to the count, and otherwise nothing changes. Reporting again is always refused.
pub record_receipt-counts : (w : WitnessAvailability) (id : ℕ) → ReceiptCounts w id
record_receipt-counts w id =
    receipt w id (lookup id w.received) refl (receipt_stake w.valid_validators id) refl
