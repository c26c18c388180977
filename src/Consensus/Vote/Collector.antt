-- ===== src/Consensus/Vote/Collector.antt =====
-- ace-consensus/src/vote.rs: add_vote_internal against the tally of the first votes.
use ace_chain.Common.{
  ℕ, ◌+◌, ◌%◌, ◌<◌, ◌≡◌, ◌≤◌, refl, sym, ◌∙◌, none, some, List, arith, ◌==◌, if◌then◌else◌, sum_of,
  u64_mod, Option-cases, inl, inr,
}
use native.Mathlib.Nat.{le_refl}
use ace_chain.Common.Assoc.{lookup, insert, lookup-insert}
use ace_chain.Consensus.Validators.{Validator}
use ace_chain.Consensus.Validators.Order.{IsDistinct, by_id}
use ace_chain.Consensus.Validators.Stake.{stake_of}
use ace_chain.Consensus.Validators.Laws.{found_stake}
use ace_chain.Consensus.Vote.{
  Vote, VoteCollector, new, add_vote_internal, voted_stake_for, push_vote, or_empty,
}
use ace_chain.Consensus.Vote.Tally.{support, support-insert, support-le-sum, support-nil}

-- The collector counts the validators `vs`.
pub record IsTallied (vs : List Validator) (c : VoteCollector) : Type 0 where
  pub stakes : (h : ℕ) → voted_stake_for c h ≡ support vs c.voter_first_hash h
  pub total : c.total_stake ≡ sum_of stake_of vs

pub new-IsTallied : (vs : List Validator) (slot : ℕ) → IsTallied vs (new slot (sum_of stake_of vs))
unfolding new voted_stake_for lookup
new-IsTallied vs slot = record { stakes = λ h. sym (support-nil vs h); total = refl }

-- A vote of a known voter changes the record of equivocators at most.
add_vote_known :
    (c : VoteCollector) (vote : Vote) (stake : ℕ) {a : ℕ}
    → lookup vote.voter c.voter_first_hash ≡ some a
    → let d = (add_vote_internal c vote stake).0 in
      (d.voter_first_hash ≡ c.voter_first_hash)
      × (d.buckets ≡ c.buckets)
      × (d.total_stake ≡ c.total_stake)
unfolding add_vote_internal
add_vote_known c vote stake e = ground arith

add_vote_fresh :
    (c : VoteCollector) (vote : Vote) (stake h : ℕ)
    → lookup vote.voter c.voter_first_hash ≡ none
    → let d = (add_vote_internal c vote stake).0 in
      (d.voter_first_hash ≡ insert vote.voter vote.block_hash c.voter_first_hash)
      × (voted_stake_for d h ≡ (
          if vote.block_hash == h
          then (voted_stake_for c h + stake) % u64_mod
          else voted_stake_for c h))
      × (d.total_stake ≡ c.total_stake)
unfolding add_vote_internal voted_stake_for
add_vote_fresh c vote stake h e =
    let b =
      push_vote (or_empty (lookup vote.block_hash c.buckets)) (record vote { voter_stake = stake })
        stake in
    ground (arith, lookup-insert vote.block_hash h b c.buckets)

module _ (vs : List Validator) (apart : IsDistinct vs) (small : sum_of stake_of vs < u64_mod) where
  -- For validators of distinct identifiers whose stakes add up below 2^64: a vote at the voter's stake
  -- keeps every bucket equal to the stake of the validators that named its hash first, be the vote
  -- new, a repetition or an equivocation.
  pub add_vote_internal-IsTallied :
      (c : VoteCollector) (vote : Vote) (stake : ℕ)
      → stake ≡ found_stake (by_id vote.voter vs)
      → IsTallied vs c
      → IsTallied vs (add_vote_internal c vote stake).0
  unfolding voted_stake_for
  add_vote_internal-IsTallied c vote stake e t =
      elim (Option-cases (lookup vote.voter c.voter_first_hash)) [
        | inr (first, known) ↦
            let same = add_vote_known c vote stake known in
            record { stakes = λ h. rw (same.0, same.1) (t.stakes h); total = same.2 ∙ t.total }
        | inl fresh ↦ record {
          stakes = λ h. ground (
            arith,
            add_vote_fresh c vote stake h fresh,
            support-insert vs c.voter_first_hash vote.voter vote.block_hash h apart fresh,
            support-le-sum vs (insert vote.voter vote.block_hash c.voter_first_hash) h,
            t.stakes h,
          );
          total = (add_vote_fresh c vote stake 0 fresh).2 ∙ t.total;
        }
      ]

module _ (vs : List Validator) (apart : IsDistinct vs) where
  -- The support of a hash never falls.
  pub add_vote_internal-support :
      (c : VoteCollector) (vote : Vote) (stake h : ℕ)
      → support vs c.voter_first_hash h
        ≤ support vs (add_vote_internal c vote stake).0.voter_first_hash h
  add_vote_internal-support c vote stake h =
      elim (Option-cases (lookup vote.voter c.voter_first_hash)) [
        | inr (first, known) ↦ rw (add_vote_known c vote stake known).0 (le_refl _)
        | inl fresh ↦
            rw
              (
                (add_vote_fresh c vote stake h fresh).0,
                support-insert vs c.voter_first_hash vote.voter vote.block_hash h apart fresh,
              )
              (omega arith)
      ]
