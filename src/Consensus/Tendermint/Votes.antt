-- ===== src/Consensus/Tendermint/Votes.antt =====
-- ace-consensus/src/tendermint.rs: incoming votes, timeouts, the forced commit and the replay of
-- buffered votes.
use ace_chain.Common.{
  ℕ, Bool, true, false, not, ◌&&◌, Option, none, some, List, [], ◌∷◌, ◌++◌, ◌==◌, leb, ltb,
  if◌then◌else◌, add32, filter,
}
use ace_chain.Common.Assoc.{Map, lookup, insert, remove}
use ace_chain.Consensus.Vote.{add_vote_raw}
use ace_chain.Consensus.Vote.Quorum.{quorum_block_hash}
use ace_chain.Consensus.Tendermint.{
  TendermintState, TendermintAction, no_action, schedule_proposal, commit, BufferedVote,
  nil_block_hash, precommit, commit_wait, committed, is_propose, is_prevote, is_done,
  is_commit_wait, do_prevote, do_precommit, new_round,
}

abbrev pub or_empty : Option (List BufferedVote) → List BufferedVote
or_empty none = []
or_empty (some vs) = vs

-- `future_votes.entry(round).or_default().push(vote)`.
unfoldable pub buffer_vote : TendermintState → ℕ → BufferedVote → TendermintState
buffer_vote s round vote = record s {
  future_votes = insert round (or_empty (lookup round s.future_votes) ++ vote ∷ []) s.future_votes;
}

abbrev pub unwrap_or_nil : Option ℕ → ℕ
unwrap_or_nil none = nil_block_hash
unwrap_or_nil (some h) = h

-- The end of `on_prevote`: a proposal that is held and not yet voted for.
unfoldable pub late_prevote : TendermintState → TendermintState × TendermintAction
unfolding do_prevote
late_prevote s =
    if is_propose s.step && (s.proposal_received && not s.prevoted)
    then elim s.locked_hash [
      | none ↦ do_prevote s (unwrap_or_nil s.proposal_hash)
      | some locked ↦
          if not (unwrap_or_nil s.proposal_hash == locked)
          then do_prevote s nil_block_hash
          else do_prevote s (unwrap_or_nil s.proposal_hash)
    ]
    else (s, no_action)

-- Two thirds of prevotes for a block: the valid block is set, and the quorum is remembered.
unfoldable pub saw_quorum : TendermintState → ℕ → TendermintState
saw_quorum s quorum_hash = record s {
  past_quorums = (s.round, quorum_hash) ∷ s.past_quorums;
  valid_round = some s.round;
  valid_hash = some quorum_hash;
}

unfoldable pub lock_on : TendermintState → ℕ → TendermintState
lock_on s quorum_hash = record s {
  locked_round = some s.round;
  locked_hash = some quorum_hash;
  step = precommit;
}

-- What `on_prevote` does once the vote is counted and the quorum read.
unfoldable pub after_prevote : TendermintState → Option ℕ → TendermintState × TendermintAction
unfolding late_prevote do_precommit saw_quorum lock_on
after_prevote s none = late_prevote s
after_prevote s (some quorum_hash) =
    if not (quorum_hash == nil_block_hash)
    then if is_prevote s.step
      then do_precommit (lock_on (saw_quorum s quorum_hash) quorum_hash) quorum_hash
      else late_prevote (saw_quorum s quorum_hash)
    else if is_prevote s.step
    then do_precommit (record s { step = precommit }) nil_block_hash
    else late_prevote s

unfoldable pub on_prevote : TendermintState → ℕ → ℕ → ℕ → ℕ → ℕ → TendermintState × TendermintAction
unfolding buffer_vote after_prevote
on_prevote s height round block_hash voter stake =
    if not (height == s.height)
    then (s, no_action)
    else if ltb s.round round
    then (buffer_vote s round (voter, block_hash, stake, false), no_action)
    else if not (round == s.round)
    then (s, no_action)
    else if is_done s.step
    then (s, no_action)
    else let counted = (add_vote_raw s.prevotes voter block_hash stake).0 in
      after_prevote (record s { prevotes = counted }) (quorum_block_hash counted)

-- What `on_precommit` does once the vote is counted and the quorum read.
unfoldable pub after_precommit : TendermintState → Option ℕ → TendermintState × TendermintAction
after_precommit s none = (s, no_action)
after_precommit s (some quorum_hash) =
    if not (quorum_hash == nil_block_hash)
    then (
      record s { step = commit_wait; committed_hash = some quorum_hash },
      commit s.height s.round quorum_hash,
    )
    else (s, no_action)

unfoldable pub on_precommit :
    TendermintState → ℕ → ℕ → ℕ → ℕ → ℕ → TendermintState × TendermintAction
unfolding buffer_vote after_precommit
on_precommit s height round block_hash voter stake =
    let counted = (add_vote_raw s.precommits voter block_hash stake).0 in
    if not (height == s.height)
    then (s, no_action)
    else if ltb s.round round
    then (buffer_vote s round (voter, block_hash, stake, true), no_action)
    else if not (round == s.round)
    then (s, no_action)
    else if is_done s.step
    then (if is_commit_wait s.step then record s { precommits = counted } else s, no_action)
    else after_precommit (record s { precommits = counted }) (quorum_block_hash counted)

unfoldable pub on_propose_timeout : TendermintState → TendermintState × TendermintAction
unfolding do_prevote
on_propose_timeout s = if is_propose s.step then do_prevote s nil_block_hash else (s, no_action)

unfoldable pub on_prevote_timeout : TendermintState → TendermintState × TendermintAction
unfolding do_precommit
on_prevote_timeout s =
    if is_prevote s.step
    then do_precommit (record s { step = precommit }) nil_block_hash
    else (s, no_action)

unfoldable pub on_precommit_timeout : TendermintState → TendermintState × TendermintAction
unfolding new_round
on_precommit_timeout s =
    if is_done s.step
    then (s, no_action)
    else let next = add32 s.round 1 in (new_round s next, schedule_proposal s.height next)

unfoldable pub on_commit_wait_timeout : TendermintState → TendermintState × TendermintAction
on_commit_wait_timeout s =
    (if is_commit_wait s.step then record s { step = committed } else s, no_action)

unfoldable pub force_commit : TendermintState → ℕ → ℕ → ℕ → TendermintState
force_commit s height round block_hash =
    if not (height == s.height)
    then s
    else record s { round = round; step = commit_wait; committed_hash = some block_hash }

unfoldable pub restore_lock : TendermintState → ℕ → ℕ → TendermintState
restore_lock s round hash = record s { locked_round = some round; locked_hash = some hash }

-- `future_votes.retain(|&r, _| r >= round)`.
unfoldable pub retain_from : ℕ → Map (List BufferedVote) → Map (List BufferedVote)
retain_from round m = filter (λ e. leb round e.0) m

abbrev pub is_action : TendermintAction → Bool
is_action no_action = false
is_action _ = true

abbrev pub push_action : TendermintAction → List TendermintAction → List TendermintAction
push_action a actions = if is_action a then a ∷ actions else actions

-- One buffered vote, handed in at the node's own height and round.
unfoldable pub replay_vote : TendermintState → BufferedVote → TendermintState × TendermintAction
unfolding on_prevote on_precommit
replay_vote s (voter, block_hash, stake, is_precommit) =
    if is_precommit
    then on_precommit s s.height s.round block_hash voter stake
    else on_prevote s s.height s.round block_hash voter stake

unfoldable pub replay_votes :
    TendermintState → List BufferedVote → TendermintState × List TendermintAction
unfolding replay_vote
replay_votes s [] = (s, [])
replay_votes s (v ∷ vs) =
    let (t, action) = replay_vote s v in
    let (u, actions) = replay_votes t vs in (u, push_action action actions)

unfoldable pub drain_buffered_votes : TendermintState → TendermintState × List TendermintAction
unfolding replay_votes retain_from
drain_buffered_votes s = elim (lookup s.round s.future_votes) [
  | none ↦ (s, [])
  | some votes ↦
      let rest = remove s.round s.future_votes in
      replay_votes
        (record s { future_votes = if ltb 0 s.round then retain_from s.round rest else rest }) votes
]
