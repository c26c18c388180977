-- ===== src/Consensus/Leader.antt =====
-- ace-consensus/src/leader_schedule.rs: the election of a slot's leader and of a round's proposer,
-- weighted by stake. The search for a value below the threshold takes fuel, and `none` is that the
-- fuel ran out; SHA-256 is the field of `Crypto`.
pub mod Intervals
pub mod Draw
mod Tests
use ace_chain.Common.{
  ℕ, zero, suc, ◌-◌, ◌%◌, ◌||◌, Option, none, some, List, [], ◌∷◌, ◌++◌, ◌==◌, ltb, leb,
  if◌then◌else◌, add64, add32, u64_max, le_bytes, be_bytes, of_le_bytes, take,
}
use ace_chain.Runtime.SigAlgo.{Crypto}
use ace_chain.Consensus.Validators.{Validator, ValidatorSet, is_empty}

pub record LeaderSchedule : Type 0 where
  pub seed : ℕ

-- `AccountId::ZERO`.
abbrev pub zero_account : ℕ
zero_account = 0

-- `u64::from_le_bytes(digest[0..8])`.
unfoldable pub first_word : ℕ → ℕ
first_word digest = of_le_bytes (take 8 (be_bytes 32 digest))

-- The multiple of the total stake below which a value is taken.
unfoldable pub threshold : ℕ → ℕ
threshold total_stake = u64_max - u64_max % total_stake

-- The `while value >= threshold` loop: `rehash` gives the value at a counter.
unfoldable pub draw : ℕ → ℕ → (ℕ → ℕ) → ℕ → ℕ → Option ℕ
draw zero bound rehash value counter = none
draw (suc fuel) bound rehash value counter =
    let rest = draw fuel bound rehash (rehash (add32 counter 1)) (add32 counter 1) in
    if leb bound value then rest else some value

-- The walk over the validators; past the end the last one is taken.
unfoldable pub pick : ℕ → List Validator → ℕ → ℕ → ℕ
pick last [] accumulated target = last
pick last (v ∷ vs) accumulated target =
    if ltb target (add64 accumulated v.stake)
    then v.id_com
    else pick v.id_com vs (add64 accumulated v.stake) target

-- What both elections do with their stream of hashes.
unfoldable pub elect : ℕ → ValidatorSet → ℕ → (ℕ → ℕ) → Option ℕ
unfolding is_empty draw pick threshold
elect fuel validators first rehash =
    if is_empty validators || validators.total_stake == 0
    then some zero_account
    else elim (draw fuel (threshold validators.total_stake) rehash first 0) [
      | none ↦ none
      | some value ↦
          some (pick zero_account validators.validators 0 (value % validators.total_stake))
    ]

-- SHA-256(seed || slot), and with a counter behind it.
abbrev pub slot_bytes : LeaderSchedule → ℕ → List ℕ
slot_bytes s slot = be_bytes 32 s.seed ++ le_bytes 8 slot

unfoldable pub leader_for_slot : Crypto → ℕ → LeaderSchedule → ℕ → ValidatorSet → Option ℕ
unfolding elect first_word
leader_for_slot c fuel s slot validators =
    elect fuel validators (first_word (c.sha256 (slot_bytes s slot)))
      (λ counter. first_word (c.sha256 (slot_bytes s slot ++ le_bytes 4 counter)))

-- SHA-256(seed || height || round), and with a counter behind it.
abbrev pub round_bytes : LeaderSchedule → ℕ → ℕ → List ℕ
round_bytes s height round = be_bytes 32 s.seed ++ (le_bytes 8 height ++ le_bytes 4 round)

unfoldable pub proposer_for_height_round :
    Crypto → ℕ → LeaderSchedule → ℕ → ℕ → ValidatorSet → Option ℕ
unfolding elect first_word
proposer_for_height_round c fuel s height round validators =
    elect fuel validators (first_word (c.sha256 (round_bytes s height round)))
      (λ counter. first_word (c.sha256 (round_bytes s height round ++ le_bytes 4 counter)))

unfoldable pub rotate_seed : LeaderSchedule → ℕ → LeaderSchedule
rotate_seed s new_seed = record s { seed = new_seed }
