-- ===== src/Consensus/Tendermint/Invariant.antt =====
-- ace-consensus/src/tendermint.rs: the invariant of one node's round state, for new heights
-- and rounds and proposals.
use ace_chain.Common.{
  ℕ, ◌≤◌, ◌≡◌, ◌≢◌, refl, Bool, true, false, Option, none, some, List, [], ◌∷◌, arith, sum_of, All,
  ◌⊎◌, inl, inr,
}
use ace_chain.Runtime.Quorum.{has_quorum}
use ace_chain.Consensus.Validators.{Validator}
use ace_chain.Consensus.Validators.Order.{by_id}
use ace_chain.Consensus.Validators.Stake.{stake_of}
use ace_chain.Consensus.Validators.Laws.{found_stake}
use ace_chain.Consensus.Vote.Collector.{IsTallied, new-IsTallied}
use ace_chain.Consensus.Vote.Tally.{support}
use ace_chain.Consensus.Tendermint.{
  TendermintState, RoundStep, propose, prevote, precommit, commit_wait, committed, is_done,
  BufferedVote, new, new_height, new_round, do_prevote, on_proposal, seen_quorum, prevote_choice,
  no_action, broadcast_prevote,
}

-- What each step says of the flags: no vote is out in `propose`, the prevote is in `prevote`, both
-- are in `precommit`, and a committed hash is there in the last two steps and nowhere else.
abbrev pub Phase : RoundStep → Bool → Bool → Bool → Option ℕ → Type 0
Phase propose received prevoted precommitted hash =
    (received ≡ false) × (prevoted ≡ false) × (precommitted ≡ false) × (hash ≡ none)
Phase prevote received prevoted precommitted hash =
    (prevoted ≡ true) × (precommitted ≡ false) × (hash ≡ none)
Phase precommit received prevoted precommitted hash =
    (prevoted ≡ true) × (precommitted ≡ true) × (hash ≡ none)
Phase commit_wait received prevoted precommitted hash = hash ≢ none
Phase committed received prevoted precommitted hash = hash ≢ none

-- What the node is told from outside of the votes it counts: the verified commit certificates, by
-- height, round and hash, and the locks read from its log, by round and hash.
pub record Known : Type 1 where
  pub certified : ℕ → ℕ → ℕ → Type 0
  pub restored : ℕ → ℕ → Type 0

-- A lock names a round in which a quorum for its hash was seen, or was read from the log.
abbrev pub LockIn : Known → List (ℕ × ℕ) → Option ℕ → Option ℕ → Type 0
LockIn known past none none = Unit
LockIn known past (some r) (some h) = (seen_quorum past r h ≡ true) ⊎ known.restored r h
LockIn known past _ _ = ⊥

-- The stake of a vote is that of its voter.
abbrev pub Canonical : List Validator → BufferedVote → Type 0
Canonical vs (voter, _, stake, _) = stake ≡ found_stake (by_id voter vs)

pub record IsValid (known : Known) (vs : List Validator) (s : TendermintState) : Type 0 where
  pub phase : Phase s.step s.proposal_received s.prevoted s.precommitted s.committed_hash
  pub lock : LockIn known s.past_quorums s.locked_round s.locked_hash
  pub past : is_done s.step ≡ false → All (λ e. e.0 ≤ s.round) s.past_quorums
  pub prevotes : IsTallied vs s.prevotes
  pub precommits : IsTallied vs s.precommits
  pub total : s.total_stake ≡ sum_of stake_of vs
  pub buffered : All (λ e. All (Canonical vs) e.1) s.future_votes
  pub backed :
      (h : ℕ)
      → s.committed_hash ≡ some h
      → (has_quorum (support vs s.precommits.voter_first_hash h) (sum_of stake_of vs) ≡ true)
        ⊎ known.certified s.height s.round h

pub new-IsValid :
    (known : Known) (vs : List Validator) (height : ℕ)
    → IsValid known vs (new height (sum_of stake_of vs))
unfolding new
new-IsValid known vs height = record {
  phase = (refl, refl, refl, refl);
  lock = tt;
  past = λ o. tt;
  prevotes = new-IsTallied vs height;
  precommits = new-IsTallied vs height;
  total = refl;
  buffered = tt;
  backed = λ h e. cc;
}

pub new_height-IsValid :
    (known : Known) (vs : List Validator) (s : TendermintState) (height : ℕ)
    → IsValid known vs (new_height s height (sum_of stake_of vs))
unfolding new_height
new_height-IsValid known vs s height = record {
  phase = (refl, refl, refl, refl);
  lock = tt;
  past = λ o. tt;
  prevotes = new-IsTallied vs height;
  precommits = new-IsTallied vs height;
  total = refl;
  buffered = tt;
  backed = λ h e. cc;
}

All-le : (r q : ℕ) (past : List (ℕ × ℕ)) → r ≤ q → All (λ e. e.0 ≤ r) past → All (λ e. e.0 ≤ q) past
All-le r q [] p h = tt
All-le r q (e ∷ es) p h = (omega arith, All-le r q es p h.1)

-- A later round: the lock and the quorums seen stay, the votes start anew.
pub new_round-IsValid :
    (known : Known) (vs : List Validator) (s : TendermintState) (round : ℕ)
    → s.round ≤ round
    → is_done s.step ≡ false
    → s.committed_hash ≡ none
    → IsValid known vs s
    → IsValid known vs (new_round s round)
unfolding new_round
new_round-IsValid known vs s round p o e v = record {
  phase = (refl, refl, refl, e);
  lock = v.lock;
  past = λ _. All-le s.round round s.past_quorums p (v.past o);
  prevotes = rw v.total (new-IsTallied vs s.height);
  precommits = rw v.total (new-IsTallied vs s.height);
  total = v.total;
  buffered = v.buffered;
  backed = λ h q. cc;
}

on_proposal-cases :
    (s : TendermintState) (height round h : ℕ) (vr : Option ℕ)
    → Phase s.step s.proposal_received s.prevoted s.precommitted s.committed_hash
    → (on_proposal s height round h vr ≡ (s, no_action))
      ⊎ ((s.step ≡ propose)
          × (height ≡ s.height)
          × (round ≡ s.round)
          × (s.committed_hash ≡ none)
          × (s.precommitted ≡ false)
          × (on_proposal s height round h vr ≡ (
            record s {
              proposal_hash = some h;
              proposal_received = true;
              prevoted = true;
              step = prevote;
            },
            broadcast_prevote s.height s.round (prevote_choice s h vr),
          )))
unfolding on_proposal do_prevote
on_proposal-cases s height round h vr ph = ground arith

-- A proposal keeps the invariant.
pub on_proposal-IsValid :
    (known : Known) (vs : List Validator) (s : TendermintState) (height round h : ℕ) (vr : Option ℕ)
    → IsValid known vs s
    → IsValid known vs (on_proposal s height round h vr).0
on_proposal-IsValid known vs s height round h vr v =
    elim (on_proposal-cases s height round h vr v.phase) [
      | inl e ↦ rw e v
      | inr (st, eh, er, open_, pc, e) ↦ rw e (record {
        phase = (refl, pc, open_);
        lock = v.lock;
        past = λ _. v.past (rw st refl);
        prevotes = v.prevotes;
        precommits = v.precommits;
        total = v.total;
        buffered = v.buffered;
        backed = v.backed;
      })
    ]
