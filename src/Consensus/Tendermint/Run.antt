-- ===== src/Consensus/Tendermint/Run.antt =====
-- ace-consensus/src/tendermint.rs: a node's life as a sequence of events, and the invariant
-- along it.
use ace_chain.Common.{
  ℕ, ◌+◌, ◌<◌, ◌≡◌, Option, none, some, List, [], ◌∷◌, ◌++◌, arith, sum_of, All, u64_mod, u32_mod,
  inl, inr, true, false, Bool-cases, ltb, if◌then◌else◌, ◌==◌,
}
use ace_chain.Common.Assoc.{lookup, remove}
use ace_chain.Consensus.Validators.{Validator}
use ace_chain.Consensus.Validators.Order.{IsDistinct, by_id}
use ace_chain.Consensus.Validators.Stake.{stake_of}
use ace_chain.Consensus.Validators.Laws.{found_stake}
use ace_chain.Consensus.Tendermint.{
  TendermintState, TendermintAction, new, new_height, on_proposal, BufferedVote,
}
use ace_chain.Consensus.Tendermint.Votes.{
  on_prevote, on_precommit, on_propose_timeout, on_prevote_timeout, on_precommit_timeout,
  on_commit_wait_timeout, force_commit, restore_lock, drain_buffered_votes, replay_vote,
  replay_votes, push_action, or_empty, retain_from,
}
use ace_chain.Consensus.Tendermint.Invariant.{
  Canonical, Known, IsValid, new-IsValid, new_height-IsValid, on_proposal-IsValid,
}
use ace_chain.Consensus.Tendermint.Handlers.{lookup-Canonical, remove-Canonical, retain-Canonical}
use ace_chain.Consensus.Tendermint.Counting.{on_prevote-IsValid, on_precommit-IsValid}
use ace_chain.Consensus.Tendermint.Timeouts.{
  on_propose_timeout-IsValid, on_prevote_timeout-IsValid, on_precommit_timeout-IsValid,
  on_commit_wait_timeout-IsValid,
}

-- What the engine hands to the state machine. A commit certificate of a peer, once it is verified, and a
-- lock that is read from the log at a start come from outside of the votes counted here.
pub data Event : Type 0 where
  got_proposal : ℕ → ℕ → ℕ → Option ℕ → Event
  got_prevote : ℕ → ℕ → ℕ → ℕ → ℕ → Event
  got_precommit : ℕ → ℕ → ℕ → ℕ → ℕ → Event
  propose_timeout prevote_timeout precommit_timeout commit_wait_timeout drain : Event
  advance : ℕ → Event
  certified_commit : ℕ → ℕ → ℕ → Event
  restored_lock : ℕ → ℕ → Event

-- `None` is no action to carry out.
abbrev pub acted : TendermintState × TendermintAction → TendermintState × List TendermintAction
acted (s, a) = (s, push_action a [])

unfoldable pub handle : ℕ → TendermintState → Event → TendermintState × List TendermintAction
handle total s (got_proposal h r b vr) = acted (on_proposal s h r b vr)
handle total s (got_prevote h r b voter stake) = acted (on_prevote s h r b voter stake)
handle total s (got_precommit h r b voter stake) = acted (on_precommit s h r b voter stake)
handle total s propose_timeout = acted (on_propose_timeout s)
handle total s prevote_timeout = acted (on_prevote_timeout s)
handle total s precommit_timeout = acted (on_precommit_timeout s)
handle total s commit_wait_timeout = acted (on_commit_wait_timeout s)
handle total s drain = drain_buffered_votes s
handle total s (advance h) = (new_height s h total, [])
handle total s (certified_commit h r b) = (force_commit s h r b, [])
handle total s (restored_lock r b) = (restore_lock s r b, [])

-- The events come with the voters' own stakes, heights only grow, and no round number wraps. Commit
-- certificates and restored locks may be any.
abbrev pub Allowed : List Validator → TendermintState → Event → Type 0
Allowed vs s (got_prevote h r b voter stake) = stake ≡ found_stake (by_id voter vs)
Allowed vs s (got_precommit h r b voter stake) = stake ≡ found_stake (by_id voter vs)
Allowed vs s precommit_timeout = s.round + 1 < u32_mod
Allowed vs s (advance h) = s.height < h
Allowed vs s _ = Unit

unfoldable pub run : ℕ → TendermintState → List Event → TendermintState × List TendermintAction
unfolding handle
run total s [] = (s, [])
run total s (e ∷ es) =
    let (t, first) = handle total s e in let (u, rest) = run total t es in (u, first ++ rest)

-- What a run is told from outside: a certificate and a restored lock hold of it when they are known.
abbrev pub IsKnown : Known → Event → Type 0
IsKnown known (certified_commit h r b) = known.certified h r b
IsKnown known (restored_lock r b) = known.restored r b
IsKnown known _ = Unit

-- Every event of a run is allowed where it comes.
abbrev pub AllAllowed : List Validator → TendermintState → List Event → Type 0
AllAllowed vs s [] = Unit
AllAllowed vs s (e ∷ es) = Allowed vs s e × AllAllowed vs (handle (sum_of stake_of vs) s e).0 es

certified_here :
    (known : Known) (s : TendermintState) (h r b x : ℕ)
    → known.certified h r b
    → (h == s.height) ≡ true
    → some b ≡ some x
    → known.certified s.height r x
certified_here known s h r b x k e same =
    let here : h ≡ s.height = ground (arith, e) in
    let that : b ≡ x = cc same in rw (← here, ← that) k

module _ (known : Known) (vs : List Validator) (apart : IsDistinct vs)
    (small : sum_of stake_of vs < u64_mod) where
  replay_vote-IsValid :
      (s : TendermintState) (w : BufferedVote)
      → Canonical vs w
      → IsValid known vs s
      → IsValid known vs (replay_vote s w).0
  unfolding replay_vote
  replay_vote-IsValid s (voter, b, stake, true) e v =
      on_precommit-IsValid known vs apart small s s.height s.round b voter stake e v
  replay_vote-IsValid s (voter, b, stake, false) e v =
      on_prevote-IsValid known vs apart small s s.height s.round b voter stake e v

  replay_votes-IsValid :
      (s : TendermintState) (ws : List BufferedVote)
      → All (Canonical vs) ws
      → IsValid known vs s
      → IsValid known vs (replay_votes s ws).0
  unfolding replay_votes
  replay_votes-IsValid s [] h v = v
  replay_votes-IsValid s (w ∷ ws) h v =
      replay_votes-IsValid (replay_vote s w).0 ws h.1 (replay_vote-IsValid s w h.0 v)

  -- The buffer without this round, and without the rounds before it.
  abbrev drained : TendermintState → TendermintState
  drained s =
      let rest = remove s.round s.future_votes in
      record s { future_votes = if ltb 0 s.round then retain_from s.round rest else rest }

  drained-IsValid : (s : TendermintState) → IsValid known vs s → IsValid known vs (drained s)
  drained-IsValid s v = record {
    phase = v.phase;
    lock = v.lock;
    past = v.past;
    prevotes = v.prevotes;
    precommits = v.precommits;
    total = v.total;
    buffered =
        let rest = remove-Canonical vs s.round s.future_votes v.buffered in
        elim (Bool-cases (ltb 0 s.round)) [
          | inl e ↦ rw e (retain-Canonical vs s.round (remove s.round s.future_votes) rest)
          | inr e ↦ rw e rest
        ];
    backed = v.backed;
  }

  -- Replaying the buffered votes of the current round keeps a state valid, for validators of distinct
  -- identifiers whose stakes add up below 2^64.
  pub drain_buffered_votes-IsValid :
      (s : TendermintState) → IsValid known vs s → IsValid known vs (drain_buffered_votes s).0
  unfolding drain_buffered_votes
  drain_buffered_votes-IsValid s v =
      go (lookup s.round s.future_votes) (lookup-Canonical vs s.round s.future_votes v.buffered)
    where
      go :
          (o : Option (List BufferedVote))
          → All (Canonical vs) (or_empty o)
          → IsValid known vs
              (elim o as (λ _. TendermintState × List TendermintAction) [
                | none ↦ (s, [])
                | some votes ↦ replay_votes (drained s) votes
              ]).0
      go none h = v
      go (some ws) h = replay_votes-IsValid (drained s) ws h (drained-IsValid s v)

  force_commit-IsValid :
      (s : TendermintState) (h r b : ℕ)
      → known.certified h r b
      → IsValid known vs s
      → IsValid known vs (force_commit s h r b)
  unfolding force_commit
  force_commit-IsValid s h r b k v = elim (Bool-cases (h == s.height)) [
    | inr e ↦ rw e v
    | inl e ↦ rw e (record {
      phase = λ eq. cc;
      lock = v.lock;
      past = λ o. cc;
      prevotes = v.prevotes;
      precommits = v.precommits;
      total = v.total;
      buffered = v.buffered;
      backed = λ x same. inr (certified_here known s h r b x k e same);
    })
  ]

  restore_lock-IsValid :
      (s : TendermintState) (r b : ℕ)
      → known.restored r b
      → IsValid known vs s
      → IsValid known vs (restore_lock s r b)
  unfolding restore_lock
  restore_lock-IsValid s r b k v = record {
    phase = v.phase;
    lock = inr k;
    past = v.past;
    prevotes = v.prevotes;
    precommits = v.precommits;
    total = v.total;
    buffered = v.buffered;
    backed = v.backed;
  }

  handle-IsValid :
      (s : TendermintState) (e : Event)
      → IsKnown known e
      → Allowed vs s e
      → IsValid known vs s
      → IsValid known vs (handle (sum_of stake_of vs) s e).0
  unfolding handle
  handle-IsValid s (got_proposal h r b vr) k a v = on_proposal-IsValid known vs s h r b vr v
  handle-IsValid s (got_prevote h r b voter stake) k a v =
      on_prevote-IsValid known vs apart small s h r b voter stake a v
  handle-IsValid s (got_precommit h r b voter stake) k a v =
      on_precommit-IsValid known vs apart small s h r b voter stake a v
  handle-IsValid s propose_timeout k a v = on_propose_timeout-IsValid known vs s v
  handle-IsValid s prevote_timeout k a v = on_prevote_timeout-IsValid known vs s v
  handle-IsValid s precommit_timeout k a v = on_precommit_timeout-IsValid known vs s v a
  handle-IsValid s commit_wait_timeout k a v = on_commit_wait_timeout-IsValid known vs s v
  handle-IsValid s drain k a v = drain_buffered_votes-IsValid s v
  handle-IsValid s (advance h) k a v = new_height-IsValid known vs s h
  handle-IsValid s (certified_commit h r b) k a v = force_commit-IsValid s h r b k v
  handle-IsValid s (restored_lock r b) k a v = restore_lock-IsValid s r b k v

  run_from-IsValid :
      (s : TendermintState) (es : List Event)
      → All (IsKnown known) es
      → AllAllowed vs s es
      → IsValid known vs s
      → IsValid known vs (run (sum_of stake_of vs) s es).0
  unfolding run
  run_from-IsValid s [] k h v = v
  run_from-IsValid s (e ∷ es) k h v =
      run_from-IsValid (handle (sum_of stake_of vs) s e).0 es k.1 h.1 (handle-IsValid s e k.0 h.0 v)

  -- For validators of distinct identifiers whose stakes add up below 2^64: whatever the events, in
  -- whatever order, commit certificates and restored locks included, as long as votes come with their
  -- voters' stakes, heights grow and no round number wraps, a node that starts at a height is in a
  -- valid state: flags and step agree; the lock names a quorum that was seen, or a restored lock; until
  -- it commits, the quorums it saw are of rounds not after its own; both collectors count each validator
  -- once; and a committed hash has a quorum of precommits or a certificate for the height and round. What
  -- certificates and locks came is what `known` says of them.
  pub run-IsValid :
      (height : ℕ) (es : List Event)
      → All (IsKnown known) es
      → AllAllowed vs (new height (sum_of stake_of vs)) es
      → IsValid known vs (run (sum_of stake_of vs) (new height (sum_of stake_of vs)) es).0
  run-IsValid height es k h =
      run_from-IsValid (new height (sum_of stake_of vs)) es k h (new-IsValid known vs height)
