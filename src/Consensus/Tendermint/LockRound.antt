-- ===== src/Consensus/Tendermint/LockRound.antt =====
-- ace-consensus/src/tendermint.rs: the round of the lock within a height.
use ace_chain.Common.{
  ℕ, ◌+◌, ◌≤◌, ◌<◌, ◌≡◌, refl, ◌∙◌, ◌==◌, inl, inr, Bool-cases, true, false, Option, none, some,
  List, [], ◌∷◌, arith, sum_of, All, u32_mod, ltb, if◌then◌else◌,
}
use ace_chain.Common.Assoc.{lookup, remove, Map}
use ace_chain.Consensus.Validators.{Validator}
use ace_chain.Consensus.Validators.Stake.{stake_of}
use ace_chain.Consensus.Vote.{add_vote_raw}
use ace_chain.Consensus.Vote.Quorum.{quorum_block_hash}
use ace_chain.Consensus.Tendermint.{
  TendermintState, TendermintAction, BufferedVote, new_round, on_proposal, do_prevote, do_precommit,
  is_done, prevote_choice,
}
use ace_chain.Consensus.Tendermint.Votes.{
  on_prevote, on_precommit, after_prevote, after_precommit, late_prevote, saw_quorum, lock_on,
  buffer_vote, on_propose_timeout, on_prevote_timeout, on_precommit_timeout, on_commit_wait_timeout,
  force_commit, replay_vote, replay_votes, drain_buffered_votes, retain_from,
}
use ace_chain.Consensus.Tendermint.Run.{
  Event, got_proposal, got_prevote, got_precommit, propose_timeout, prevote_timeout,
  precommit_timeout, commit_wait_timeout, drain, advance, certified_commit, restored_lock, handle,
  run, Allowed, AllAllowed,
}

-- The round of the lock, counted from 1; 0 without a lock.
abbrev pub lock_rank : TendermintState → ℕ
lock_rank s = elim s.locked_round [ none ↦ 0 | some r ↦ r + 1 ]

-- Until the node commits, its lock is not of a later round than its own.
abbrev pub IsBehind : TendermintState → Type 0
IsBehind s = is_done s.step ≡ false → lock_rank s ≤ s.round + 1

-- The step from `s` to `t`, where the lock of `s` is behind: the lock does not move back, and stays
-- behind; unless the height is being committed, the round does not move back; the height stays.
abbrev Moves : TendermintState → TendermintState → Type 0
Moves s t =
    IsBehind s
    → (lock_rank s ≤ lock_rank t)
      × IsBehind t
      × (is_done t.step ≡ false → (is_done s.step ≡ false) × (s.round ≤ t.round))
      × (s.height ≡ t.height)

do_prevote-Moves : (s : TendermintState) (h : ℕ) → Moves s (do_prevote s h).0
unfolding do_prevote
do_prevote-Moves s h p = ground arith

do_precommit-Moves : (s : TendermintState) (h : ℕ) → Moves s (do_precommit s h).0
unfolding do_precommit
do_precommit-Moves s h p = ground arith

on_proposal-Moves :
    (s : TendermintState) (height round b : ℕ) (vr : Option ℕ)
    → Moves s (on_proposal s height round b vr).0
unfolding on_proposal
on_proposal-Moves s height round b vr p = ground (
  arith,
  do_prevote-Moves (record s { proposal_hash = some b; proposal_received = true })
      (prevote_choice s b vr),
)

late_prevote-Moves : (s : TendermintState) → Moves s (late_prevote s).0
unfolding late_prevote do_prevote
late_prevote-Moves s p = ground arith

after_prevote-Moves : (s : TendermintState) (o : Option ℕ) → Moves s (after_prevote s o).0
unfolding after_prevote saw_quorum lock_on do_precommit
after_prevote-Moves s none p = late_prevote-Moves s p
after_prevote-Moves s (some q) p =
    ground (arith, late_prevote-Moves s p, late_prevote-Moves (saw_quorum s q) p)

on_prevote-Moves :
    (s : TendermintState) (height round b voter stake : ℕ)
    → Moves s (on_prevote s height round b voter stake).0
unfolding on_prevote buffer_vote
on_prevote-Moves s height round b voter stake p =
    let counted = (add_vote_raw s.prevotes voter b stake).0 in
    let after =
      after_prevote-Moves (record s { prevotes = counted }) (quorum_block_hash counted) p in
    ground (arith, after)

after_precommit-Moves : (s : TendermintState) (o : Option ℕ) → Moves s (after_precommit s o).0
unfolding after_precommit
after_precommit-Moves s none p = ground arith
after_precommit-Moves s (some q) p = ground arith

on_precommit-Moves :
    (s : TendermintState) (height round b voter stake : ℕ)
    → Moves s (on_precommit s height round b voter stake).0
unfolding on_precommit buffer_vote
on_precommit-Moves s height round b voter stake p =
    let counted = (add_vote_raw s.precommits voter b stake).0 in
    let after =
      after_precommit-Moves (record s { precommits = counted }) (quorum_block_hash counted) p in
    ground (arith, after)

on_propose_timeout-Moves : (s : TendermintState) → Moves s (on_propose_timeout s).0
unfolding on_propose_timeout do_prevote
on_propose_timeout-Moves s p = ground arith

on_prevote_timeout-Moves : (s : TendermintState) → Moves s (on_prevote_timeout s).0
unfolding on_prevote_timeout do_precommit
on_prevote_timeout-Moves s p = ground arith

on_precommit_timeout-Moves :
    (s : TendermintState) → s.round + 1 < u32_mod → Moves s (on_precommit_timeout s).0
unfolding on_precommit_timeout new_round
on_precommit_timeout-Moves s small p = ground arith

on_commit_wait_timeout-Moves : (s : TendermintState) → Moves s (on_commit_wait_timeout s).0
unfolding on_commit_wait_timeout
on_commit_wait_timeout-Moves s p = ground arith

trans-Moves : (s t u : TendermintState) → Moves s t → Moves t u → Moves s u
trans-Moves s t u a b p =
    let (rank, behind, round, height) = a p in
    let (rank2, behind2, round2, height2) = b behind in
    (
      omega arith,
      behind2,
      λ o. let (open_, le2) = round2 o in let (first, le) = round open_ in (first, omega arith),
      height ∙ height2,
    )

refl-Moves : (s : TendermintState) → Moves s s
refl-Moves s p = (omega arith, p, λ o. (o, omega arith), refl)

force_commit-Moves : (s : TendermintState) (h r b : ℕ) → Moves s (force_commit s h r b)
unfolding force_commit
force_commit-Moves s h r b p = elim (Bool-cases (h == s.height)) [
  | inl e ↦ rw e (omega arith, λ o. cc, λ o. cc, refl)
  | inr e ↦ rw e (refl-Moves s p)
]

replay_vote-Moves : (s : TendermintState) (w : BufferedVote) → Moves s (replay_vote s w).0
unfolding replay_vote
replay_vote-Moves s (voter, b, stake, true) = on_precommit-Moves s s.height s.round b voter stake
replay_vote-Moves s (voter, b, stake, false) = on_prevote-Moves s s.height s.round b voter stake

replay_votes-Moves : (s : TendermintState) (ws : List BufferedVote) → Moves s (replay_votes s ws).0
unfolding replay_votes
replay_votes-Moves s [] p = refl-Moves s p
replay_votes-Moves s (w ∷ ws) p =
    trans-Moves s (replay_vote s w).0 (replay_votes (replay_vote s w).0 ws).0
      (replay_vote-Moves s w) (replay_votes-Moves (replay_vote s w).0 ws) p

drain_buffered_votes-Moves : (s : TendermintState) → Moves s (drain_buffered_votes s).0
unfolding drain_buffered_votes
drain_buffered_votes-Moves s = go (lookup s.round s.future_votes)
  where
    rest : Map (List BufferedVote)
    rest =
        let later = remove s.round s.future_votes in
        if ltb 0 s.round then retain_from s.round later else later

    go :
        (o : Option (List BufferedVote))
        → Moves s
            (elim o as (λ _. TendermintState × List TendermintAction) [
              | none ↦ (s, [])
              | some votes ↦ replay_votes (record s { future_votes = rest }) votes
            ]).0
    go none p = refl-Moves s p
    go (some ws) p = replay_votes-Moves (record s { future_votes = rest }) ws p

-- The event is not the start of a height, nor of a node that reads its lock from the log.
abbrev pub IsInside : Event → Type 0
IsInside (advance h) = ⊥
IsInside (restored_lock r b) = ⊥
IsInside e = Unit

module _ (vs : List Validator) where
  handle-Moves :
      (s : TendermintState) (e : Event)
      → IsInside e
      → Allowed vs s e
      → Moves s (handle (sum_of stake_of vs) s e).0
  unfolding handle
  handle-Moves s (got_proposal h r b vr) i a = on_proposal-Moves s h r b vr
  handle-Moves s (got_prevote h r b voter stake) i a = on_prevote-Moves s h r b voter stake
  handle-Moves s (got_precommit h r b voter stake) i a = on_precommit-Moves s h r b voter stake
  handle-Moves s propose_timeout i a = on_propose_timeout-Moves s
  handle-Moves s prevote_timeout i a = on_prevote_timeout-Moves s
  handle-Moves s precommit_timeout i a = on_precommit_timeout-Moves s a
  handle-Moves s commit_wait_timeout i a = on_commit_wait_timeout-Moves s
  handle-Moves s drain i a = drain_buffered_votes-Moves s
  handle-Moves s (advance h) i a = absurd i
  handle-Moves s (restored_lock r b) i a = absurd i
  handle-Moves s (certified_commit h r b) i a = force_commit-Moves s h r b

  -- From a state whose lock is not of a later round than its own, or that is committing, through any
  -- events of one height, a commit certificate included but no lock restored from the log, as long as
  -- no round number wraps and votes come with their voters' stakes: the lock is never given up and never
  -- moves to an earlier round, and the height stays; where the node is not committing in the end, it was not at the start, its round has
  -- not moved back, and its lock is not ahead of its round.
  pub run-lock_rank :
      (s : TendermintState) (es : List Event)
      → All IsInside es
      → AllAllowed vs s es
      → IsBehind s
      → let t = (run (sum_of stake_of vs) s es).0 in
        (lock_rank s ≤ lock_rank t)
        × IsBehind t
        × (is_done t.step ≡ false → (is_done s.step ≡ false) × (s.round ≤ t.round))
        × (s.height ≡ t.height)
  unfolding run
  run-lock_rank s [] i a = refl-Moves s
  run-lock_rank s (e ∷ es) i a =
      let t = (handle (sum_of stake_of vs) s e).0 in
      trans-Moves s t (run (sum_of stake_of vs) t es).0 (handle-Moves s e i.0 a.0)
        (run-lock_rank t es i.1 a.1)
