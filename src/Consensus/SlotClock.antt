-- ===== src/Consensus/SlotClock.antt =====
-- ace-consensus/src/slot_clock.rs: slots of the wall clock. The time now is an argument; a slot's
-- duration is that of a devnet build or of another.
mod Tests
use ace_chain.Common.{
  ℕ, ◌+◌, ◌-◌, ◌*◌, ◌/◌, ◌%◌, ◌≤◌, ◌<◌, ◌≡◌, Bool, true, false, ltb, leb, if◌then◌else◌, u64_mod,
  add64, arith,
}

-- `SLOT_DURATION_MS`.
abbrev pub slot_duration_ms : Bool → ℕ
slot_duration_ms devnet = if devnet then 500 else 400

pub record SlotClock : Type 0 where
  pub genesis_time_ms : ℕ

module _ (devnet : Bool) where
  unfoldable pub current_slot : SlotClock → ℕ → ℕ
  current_slot c now = (now - c.genesis_time_ms) / slot_duration_ms devnet

  unfoldable pub has_started : SlotClock → ℕ → Bool
  has_started c now = leb c.genesis_time_ms now

  unfoldable pub slot_start_time_ms : SlotClock → ℕ → ℕ
  slot_start_time_ms c slot = add64 c.genesis_time_ms (slot * slot_duration_ms devnet % u64_mod)

  unfoldable pub time_until_genesis_ms : SlotClock → ℕ → ℕ
  time_until_genesis_ms c now = c.genesis_time_ms - now

  unfoldable pub time_until_next_slot_ms : SlotClock → ℕ → ℕ
  time_until_next_slot_ms c now =
      let d = slot_duration_ms devnet in
      let next = add64 ((now - c.genesis_time_ms) / d * d) d in
      if ltb now c.genesis_time_ms
      then c.genesis_time_ms - now
      else add64 c.genesis_time_ms next - now

-- From genesis on, and while the next slot's start fits a word, the current slot has started and its
-- successor has not, and the time until the next slot ends at the successor's start.
pub current_slot-bounds :
    (devnet : Bool) (c : SlotClock) (now : ℕ)
    → c.genesis_time_ms ≤ now
    → now + 500 < u64_mod
    → (slot_start_time_ms devnet c (current_slot devnet c now) ≤ now)
      × (now < slot_start_time_ms devnet c (current_slot devnet c now + 1))
      × (now + time_until_next_slot_ms devnet c now
          ≡ slot_start_time_ms devnet c (current_slot devnet c now + 1))
unfolding slot_start_time_ms current_slot time_until_next_slot_ms
current_slot-bounds true c now g fits =
    (ground (arith, g, fits), ground (arith, g, fits), ground (arith, g, fits))
current_slot-bounds false c now g fits =
    (ground (arith, g, fits), ground (arith, g, fits), ground (arith, g, fits))
