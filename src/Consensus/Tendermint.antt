-- ===== src/Consensus/Tendermint.antt =====
-- ace-consensus/src/tendermint.rs: the round state machine of one node. `HashMap`s are association
-- lists; `past_quorums`, whose values are all `true`, is kept as the list of its keys. Logging is
-- left out. `round + 1` wraps at 32 bits, as in a release build.
pub mod Votes
pub mod Invariant
pub mod Handlers
pub mod Counting
pub mod Timeouts
pub mod Run
pub mod Once
pub mod OnceRun
pub mod Locking
pub mod LockRound
mod Tests
use ace_chain.Common.{
  ℕ, Bool, true, false, not, ◌&&◌, ◌||◌, Option, none, some, List, [], ◌∷◌, ◌++◌, ◌==◌, leb, ltb,
  if◌then◌else◌, add32, any, filter,
}
use ace_chain.Common.Assoc.{Map, lookup, insert, remove}
use ace_chain.Consensus.Vote
use ace_chain.Consensus.Vote.{VoteCollector, add_vote_raw}
use ace_chain.Consensus.Vote.Quorum.{quorum_block_hash}

pub data RoundStep : Type 0 where
  propose prevote precommit commit_wait committed : RoundStep

abbrev pub nil_block_hash : ℕ
nil_block_hash = 0

pub data TendermintAction : Type 0 where
  no_action : TendermintAction
  schedule_proposal : ℕ → ℕ → TendermintAction
  broadcast_prevote : ℕ → ℕ → ℕ → TendermintAction
  broadcast_precommit : ℕ → ℕ → ℕ → TendermintAction
  commit : ℕ → ℕ → ℕ → TendermintAction

-- A buffered vote: voter, block hash, stake, and whether it is a precommit.
abbrev pub BufferedVote : Type 0
BufferedVote = ℕ × ℕ × ℕ × Bool

pub record TendermintState : Type 0 where
  pub height : ℕ
  pub round : ℕ
  pub step : RoundStep
  pub proposal_hash : Option ℕ
  pub proposal_received : Bool
  pub locked_round : Option ℕ
  pub locked_hash : Option ℕ
  pub valid_round : Option ℕ
  pub valid_hash : Option ℕ
  pub prevotes : VoteCollector
  pub precommits : VoteCollector
  pub total_stake : ℕ
  pub prevoted : Bool
  pub precommitted : Bool
  pub committed_hash : Option ℕ
  pub future_votes : Map (List BufferedVote)
  pub past_quorums : List (ℕ × ℕ)

-- `step == RoundStep::…`.
abbrev pub is_propose : RoundStep → Bool
is_propose propose = true
is_propose _ = false

abbrev pub is_prevote : RoundStep → Bool
is_prevote prevote = true
is_prevote _ = false

abbrev pub is_commit_wait : RoundStep → Bool
is_commit_wait commit_wait = true
is_commit_wait _ = false

-- `step == Committed || step == CommitWait`.
abbrev pub is_done : RoundStep → Bool
is_done commit_wait = true
is_done committed = true
is_done _ = false

unfoldable pub new : ℕ → ℕ → TendermintState
new height total_stake = record {
  height = height;
  round = 0;
  step = propose;
  proposal_hash = none;
  proposal_received = false;
  locked_round = none;
  locked_hash = none;
  valid_round = none;
  valid_hash = none;
  prevotes = Vote.new height total_stake;
  precommits = Vote.new height total_stake;
  total_stake = total_stake;
  prevoted = false;
  precommitted = false;
  committed_hash = none;
  future_votes = [];
  past_quorums = [];
}

unfoldable pub new_height : TendermintState → ℕ → ℕ → TendermintState
new_height s height total_stake = record s {
  height = height;
  round = 0;
  step = propose;
  proposal_hash = none;
  proposal_received = false;
  locked_round = none;
  locked_hash = none;
  valid_round = none;
  valid_hash = none;
  prevotes = Vote.new height total_stake;
  precommits = Vote.new height total_stake;
  total_stake = total_stake;
  prevoted = false;
  precommitted = false;
  committed_hash = none;
  future_votes = [];
  past_quorums = [];
}

unfoldable pub new_round : TendermintState → ℕ → TendermintState
new_round s round = record s {
  round = round;
  step = propose;
  proposal_hash = none;
  proposal_received = false;
  prevotes = Vote.new s.height s.total_stake;
  precommits = Vote.new s.height s.total_stake;
  prevoted = false;
  precommitted = false;
}

-- `past_quorums.contains_key(&(round, hash))`.
unfoldable pub seen_quorum : List (ℕ × ℕ) → ℕ → ℕ → Bool
seen_quorum [] r h = false
seen_quorum ((q, k) ∷ rest) r h = if q == r && k == h then true else seen_quorum rest r h

unfoldable pub do_prevote : TendermintState → ℕ → TendermintState × TendermintAction
do_prevote s block_hash = if s.prevoted then (s, no_action) else (
  record s { prevoted = true; step = if is_propose s.step then prevote else s.step },
  broadcast_prevote s.height s.round block_hash,
)

unfoldable pub do_precommit : TendermintState → ℕ → TendermintState × TendermintAction
do_precommit s block_hash =
    if s.precommitted
    then (s, no_action)
    else (record s { precommitted = true }, broadcast_precommit s.height s.round block_hash)

-- The hash to prevote for under the locking rule, once a proposal is taken.
unfoldable pub prevote_choice : TendermintState → ℕ → Option ℕ → ℕ
unfolding seen_quorum
prevote_choice s block_hash valid_round = elim s.locked_hash [
  | some locked ↦ if block_hash == locked then block_hash else elim valid_round [
    | none ↦ nil_block_hash
    | some vr ↦ elim s.locked_round [
      | none ↦ nil_block_hash
      | some lr ↦
          if leb lr vr
          then if seen_quorum s.past_quorums vr block_hash then block_hash else nil_block_hash
          else nil_block_hash
    ]
  ]
  | none ↦ elim valid_round [
    | none ↦ block_hash
    | some vr ↦ if seen_quorum s.past_quorums vr block_hash then block_hash else nil_block_hash
  ]
]

unfoldable pub on_proposal :
    TendermintState → ℕ → ℕ → ℕ → Option ℕ → TendermintState × TendermintAction
unfolding do_prevote prevote_choice
on_proposal s height round block_hash valid_round =
    if not (height == s.height) || not (round == s.round)
    then (s, no_action)
    else if s.proposal_received
    then (s, no_action)
    else if not (is_propose s.step)
    then (s, no_action)
    else do_prevote (record s { proposal_hash = some block_hash; proposal_received = true })
        (prevote_choice s block_hash valid_round)
