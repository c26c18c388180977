-- ===== src/Consensus/Tendermint/OnceRun.antt =====
-- ace-consensus/src/tendermint.rs: how often a node votes over a whole run.
use ace_chain.Common.{
  ℕ, ◌+◌, ◌≤◌, ◌<◌, ◌≡◌, refl, true, false, Option, none, some, List, [], ◌∷◌, ◌++◌, arith,
  if◌then◌else◌, sum_of, u32_mod, ltb, inl, inr, Bool-cases,
}
use ace_chain.Common.Assoc.{lookup, remove, Map}
use ace_chain.Consensus.Validators.{Validator}
use ace_chain.Consensus.Validators.Stake.{stake_of}
use ace_chain.Consensus.Vote.{VoteType}
use ace_chain.Consensus.Tendermint.{
  TendermintState, TendermintAction, BufferedVote, new_round, new_height, nil_block_hash, RoundStep,
  is_propose, is_prevote,
}
use ace_chain.Consensus.Tendermint.Votes.{
  on_propose_timeout, on_prevote_timeout, on_precommit_timeout, on_commit_wait_timeout, replay_vote,
  replay_votes, drain_buffered_votes, force_commit, restore_lock, push_action, retain_from,
}
use ace_chain.Consensus.Tendermint.Run.{
  Event, got_proposal, got_prevote, got_precommit, propose_timeout, prevote_timeout,
  precommit_timeout, commit_wait_timeout, drain, advance, certified_commit, restored_lock, handle,
  run, Allowed, AllAllowed,
}
use ace_chain.Consensus.Tendermint.Once.{
  votes_at, limit, Sends, SameLimits, do_prevote-Sends, do_precommit-Sends, on_proposal-Sends,
  on_prevote-Sends, on_precommit-Sends, step-SameLimits, propose-open, prevote-open,
}

-- How many votes of a kind a list of actions sends for a height and round.
abbrev pub votes_in : VoteType → ℕ → ℕ → List TendermintAction → ℕ
votes_in k h r actions = sum_of (votes_at k h r) actions

votes_in-append :
    (k : VoteType) (h r : ℕ) (xs ys : List TendermintAction)
    → votes_in k h r (xs ++ ys) ≡ votes_in k h r xs + votes_in k h r ys
votes_in-append k h r [] ys = omega arith
votes_in-append k h r (a ∷ xs) ys = omega (arith, votes_in-append k h r xs ys)

votes_in-push :
    (k : VoteType) (h r : ℕ) (a : TendermintAction) (xs : List TendermintAction)
    → votes_in k h r (push_action a xs) ≡ votes_at k h r a + votes_in k h r xs
votes_in-push VoteType.prevote h r a xs = ground arith
votes_in-push VoteType.precommit h r a xs = ground arith

-- The same for the list of actions of one event.
abbrev SendsAll : VoteType → TendermintState → TendermintState × List TendermintAction → Type 0
SendsAll k s (t, xs) = (h r : ℕ) → votes_in k h r xs + limit k h r s ≤ limit k h r t

on_propose_timeout-Sends : (k : VoteType) (s : TendermintState) → Sends k s (on_propose_timeout s)
unfolding on_propose_timeout
on_propose_timeout-Sends k s h r = elim (Bool-cases (is_propose s.step)) [
  | inl e ↦ ground (arith, e, do_prevote-Sends k s nil_block_hash (propose-open s.step e) h r)
  | inr e ↦ ground (arith, e)
]

on_prevote_timeout-Sends : (k : VoteType) (s : TendermintState) → Sends k s (on_prevote_timeout s)
unfolding on_prevote_timeout
on_prevote_timeout-Sends k s h r = elim (Bool-cases (is_prevote s.step)) [
  | inl e ↦ ground (
    arith,
    do_precommit-Sends k (record s { step = RoundStep.precommit }) nil_block_hash refl h r,
    step-SameLimits s (prevote-open s.step e) k h r,
  )
  | inr e ↦ ground (arith, e)
]

on_precommit_timeout-Sends :
    (k : VoteType) (s : TendermintState)
    → s.round + 1 < u32_mod
    → Sends k s (on_precommit_timeout s)
unfolding on_precommit_timeout new_round
on_precommit_timeout-Sends VoteType.prevote s small h r = ground arith
on_precommit_timeout-Sends VoteType.precommit s small h r = ground arith

on_commit_wait_timeout-Sends :
    (k : VoteType) (s : TendermintState) → Sends k s (on_commit_wait_timeout s)
unfolding on_commit_wait_timeout
on_commit_wait_timeout-Sends VoteType.prevote s h r = ground arith
on_commit_wait_timeout-Sends VoteType.precommit s h r = ground arith

replay_vote-Sends :
    (k : VoteType) (s : TendermintState) (w : BufferedVote) → Sends k s (replay_vote s w)
unfolding replay_vote
replay_vote-Sends k s (voter, b, stake, true) h r =
    on_precommit-Sends k s s.height s.round b voter stake h r
replay_vote-Sends k s (voter, b, stake, false) h r =
    on_prevote-Sends k s s.height s.round b voter stake h r

replay_votes-Sends :
    (k : VoteType) (s : TendermintState) (ws : List BufferedVote) → SendsAll k s (replay_votes s ws)
unfolding replay_votes
replay_votes-Sends k s [] h r = omega arith
replay_votes-Sends k s (w ∷ ws) h r =
    let (t, a) = replay_vote s w in
    omega (
      arith,
      votes_in-push k h r a (replay_votes t ws).1,
      replay_vote-Sends k s w h r,
      replay_votes-Sends k t ws h r,
    )

buffer-SameLimits :
    (s : TendermintState) (m : Map (List BufferedVote))
    → SameLimits s (record s { future_votes = m })
buffer-SameLimits s m VoteType.prevote h r = refl
buffer-SameLimits s m VoteType.precommit h r = refl

drain_buffered_votes-Sends :
    (k : VoteType) (s : TendermintState) → SendsAll k s (drain_buffered_votes s)
unfolding drain_buffered_votes
drain_buffered_votes-Sends k s h r = go (lookup s.round s.future_votes)
  where
    rest : Map (List BufferedVote)
    rest =
        let later = remove s.round s.future_votes in
        if ltb 0 s.round then retain_from s.round later else later

    go :
        (o : Option (List BufferedVote))
        → let (t, xs) = elim o as (λ _. TendermintState × List TendermintAction) [
          | none ↦ (s, [])
          | some votes ↦ replay_votes (record s { future_votes = rest }) votes
        ] in
          votes_in k h r xs + limit k h r s ≤ limit k h r t
    go none = omega arith
    go (some ws) = omega (
      arith,
      buffer-SameLimits s rest k h r,
      replay_votes-Sends k (record s { future_votes = rest }) ws h r,
    )

new_height-Sends :
    (k : VoteType) (s : TendermintState) (height total : ℕ)
    → s.height < height
    → SendsAll k s (new_height s height total, [])
unfolding new_height
new_height-Sends VoteType.prevote s height total p h r = ground arith
new_height-Sends VoteType.precommit s height total p h r = ground arith

force_commit-Sends :
    (k : VoteType) (s : TendermintState) (height round b : ℕ)
    → SendsAll k s (force_commit s height round b, [])
unfolding force_commit
force_commit-Sends VoteType.prevote s height round b h r = ground arith
force_commit-Sends VoteType.precommit s height round b h r = ground arith

restore_lock-Sends :
    (k : VoteType) (s : TendermintState) (round b : ℕ) → SendsAll k s (restore_lock s round b, [])
unfolding restore_lock
restore_lock-Sends VoteType.prevote s round b h r = ground arith
restore_lock-Sends VoteType.precommit s round b h r = ground arith

one-Sends :
    (k : VoteType) (s : TendermintState) (p : TendermintState × TendermintAction)
    → Sends k s p
    → SendsAll k s (p.0, push_action p.1 [])
one-Sends k s (t, a) send h r = omega (arith, votes_in-push k h r a [], send h r)

module _ (vs : List Validator) (k : VoteType) where
  handle-Sends :
      (s : TendermintState) (e : Event)
      → Allowed vs s e
      → SendsAll k s (handle (sum_of stake_of vs) s e)
  unfolding handle
  handle-Sends s (got_proposal h r b vr) a = one-Sends k s _ (on_proposal-Sends k s h r b vr)
  handle-Sends s (got_prevote h r b voter stake) a =
      one-Sends k s _ (on_prevote-Sends k s h r b voter stake)
  handle-Sends s (got_precommit h r b voter stake) a =
      one-Sends k s _ (on_precommit-Sends k s h r b voter stake)
  handle-Sends s propose_timeout a = one-Sends k s _ (on_propose_timeout-Sends k s)
  handle-Sends s prevote_timeout a = one-Sends k s _ (on_prevote_timeout-Sends k s)
  handle-Sends s precommit_timeout a = one-Sends k s _ (on_precommit_timeout-Sends k s a)
  handle-Sends s commit_wait_timeout a = one-Sends k s _ (on_commit_wait_timeout-Sends k s)
  handle-Sends s drain a = drain_buffered_votes-Sends k s
  handle-Sends s (certified_commit h r b) a = force_commit-Sends k s h r b
  handle-Sends s (restored_lock r b) a = restore_lock-Sends k s r b
  handle-Sends s (advance h) a = new_height-Sends k s h (sum_of stake_of vs) a

  run-Sends :
      (s : TendermintState) (es : List Event)
      → AllAllowed vs s es
      → SendsAll k s (run (sum_of stake_of vs) s es)
  unfolding run
  run-Sends s [] a h r = omega arith
  run-Sends s (e ∷ es) a h r =
      let (t, first) = handle (sum_of stake_of vs) s e in
      omega (
        arith,
        votes_in-append k h r first (run (sum_of stake_of vs) t es).1,
        handle-Sends s e a.0 h r,
        run-Sends t es a.1 h r,
      )

  limit-le-one : (h r : ℕ) (s : TendermintState) → limit k h r s ≤ 1
  limit-le-one h r s = ground arith

  -- In a run from any state, through any number of rounds and heights, the node sends at most one
  -- vote of a kind for each height and round, as long as heights grow, no round number wraps, and
  -- votes come with their voters' stakes: it never signs two prevotes or two precommits there.
  pub votes_in-run-le-one :
      (s : TendermintState) (es : List Event) (h r : ℕ)
      → AllAllowed vs s es
      → votes_in k h r (run (sum_of stake_of vs) s es).1 ≤ 1
  votes_in-run-le-one s es h r a =
      let t = (run (sum_of stake_of vs) s es).0 in
      omega (arith, run-Sends s es a h r, limit-le-one h r t)
