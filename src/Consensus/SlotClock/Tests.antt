-- ===== src/Consensus/SlotClock/Tests.antt =====
-- ace-consensus/src/slot_clock.rs: a clock whose genesis is at 1000.
use ace_chain.Common.{◌≡◌, refl, false}
use ace_chain.Consensus.SlotClock.{SlotClock, current_slot}

abbrev clock : SlotClock
clock = record { genesis_time_ms = 1000 }

third_slot : current_slot false clock 2000 ≡ 2
unfolding current_slot
third_slot = refl
