-- ===== src/Consensus.antt =====
-- ace-consensus: validators, votes, the round state machine, leader election, rewards.
pub mod Validators
pub mod Vote
pub mod Tendermint
pub mod Leader
pub mod RoundTimer
pub mod Rewards
pub mod Wal
pub mod Admission
pub mod SlotClock
