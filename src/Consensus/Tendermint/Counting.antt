-- ===== src/Consensus/Tendermint/Counting.antt =====
-- ace-consensus/src/tendermint.rs: the invariant of the round state where a vote is counted.
use ace_chain.Common.{
  ℕ, ◌≤◌, ◌<◌, ◌≡◌, ◌≢◌, refl, ◌∙◌, Bool, true, false, Option, none, some, List, arith, sum_of,
  u64_mod, inl, inr, Bool-cases, ◌==◌, ltb,
}
use ace_chain.Consensus.Validators.{Validator}
use ace_chain.Consensus.Validators.Order.{IsDistinct, by_id}
use ace_chain.Consensus.Validators.Stake.{stake_of}
use ace_chain.Consensus.Validators.Laws.{found_stake}
use ace_chain.Consensus.Vote.{add_vote_raw, raw_vote, VoteCollector}
use ace_chain.Consensus.Vote.Quorum.{quorum_block_hash}
use ace_chain.Consensus.Vote.Collector.{
  IsTallied, add_vote_internal-IsTallied, add_vote_internal-support,
}
use ace_chain.Consensus.Vote.Tally.{support, has_quorum_mono}
use ace_chain.Consensus.Vote.Majority.{quorum_block_hash_iff}
use ace_chain.Consensus.Tendermint.{
  TendermintState, RoundStep, nil_block_hash, is_done, is_commit_wait,
}
use ace_chain.Consensus.Tendermint.Votes.{on_prevote, after_precommit, on_precommit}
use ace_chain.Consensus.Tendermint.Invariant.{Phase, Known, IsValid}
use ace_chain.Consensus.Tendermint.Handlers.{after_prevote-IsValid, buffer_vote-IsValid}

pub Phase-open :
    (st : RoundStep) (r p c : Bool) (h : Option ℕ)
    → is_done st ≡ false
    → Phase st r p c h
    → h ≡ none
Phase-open st r p c h e ph = ground arith

pub Phase-done :
    (st : RoundStep) (r p c : Bool) (h : Option ℕ)
    → is_commit_wait st ≡ true
    → Phase st r p c h
    → h ≢ none
Phase-done st r p c h e ph = ground arith

module _ (known : Known) (vs : List Validator) (apart : IsDistinct vs)
    (small : sum_of stake_of vs < u64_mod) where
  raw-IsTallied :
      (c : VoteCollector) (voter h stake : ℕ)
      → stake ≡ found_stake (by_id voter vs)
      → IsTallied vs c
      → IsTallied vs (add_vote_raw c voter h stake).0
  unfolding add_vote_raw
  raw-IsTallied c voter h stake e t =
      add_vote_internal-IsTallied vs apart small c (raw_vote c voter h stake) stake e t

  raw-support :
      (c : VoteCollector) (voter b stake h : ℕ)
      → support vs c.voter_first_hash h
        ≤ support vs (add_vote_raw c voter b stake).0.voter_first_hash h
  unfolding add_vote_raw
  raw-support c voter b stake h =
      add_vote_internal-support vs apart c (raw_vote c voter b stake) stake h

  recount_prevotes-IsValid :
      (s : TendermintState) (c : VoteCollector)
      → IsTallied vs c
      → IsValid known vs s
      → IsValid known vs (record s { prevotes = c })
  recount_prevotes-IsValid s c t v = record {
    phase = v.phase;
    lock = v.lock;
    past = v.past;
    prevotes = t;
    precommits = v.precommits;
    total = v.total;
    buffered = v.buffered;
    backed = v.backed;
  }

  recount_precommits-IsValid :
      (s : TendermintState) (voter b stake : ℕ)
      → stake ≡ found_stake (by_id voter vs)
      → IsValid known vs s
      → IsValid known vs (record s { precommits = (add_vote_raw s.precommits voter b stake).0 })
  recount_precommits-IsValid s voter b stake e v = record {
    phase = v.phase;
    lock = v.lock;
    past = v.past;
    prevotes = v.prevotes;
    precommits = raw-IsTallied s.precommits voter b stake e v.precommits;
    total = v.total;
    buffered = v.buffered;
    backed = λ h c. elim (v.backed h c) [
      | inl e ↦ inl (has_quorum_mono _ _ _ (raw-support s.precommits voter b stake h) e)
      | inr e ↦ inr e
    ];
  }

  -- A prevote at its voter's stake keeps the invariant.
  pub on_prevote-IsValid :
      (s : TendermintState) (height round b voter stake : ℕ)
      → stake ≡ found_stake (by_id voter vs)
      → IsValid known vs s
      → IsValid known vs (on_prevote s height round b voter stake).0
  unfolding on_prevote
  on_prevote-IsValid s height round b voter stake e v =
      let counted = (add_vote_raw s.prevotes voter b stake).0 in
      elim (Bool-cases (height == s.height)) [
        | inr h ↦ rw h v
        | inl h ↦ elim (Bool-cases (ltb s.round round)) [
          | inl f ↦ rw (h, f) (buffer_vote-IsValid known vs s round (voter, b, stake, false) e v)
          | inr f ↦ elim (Bool-cases (round == s.round)) [
            | inr r ↦ rw (h, f, r) v
            | inl r ↦ elim (Bool-cases (is_done s.step)) [
              | inl d ↦ rw (h, f, r, d) v
              | inr d ↦
                  rw (h, f, r, d)
                    (after_prevote-IsValid known vs (record s { prevotes = counted })
                      (quorum_block_hash counted)
                      (recount_prevotes-IsValid s counted
                        (raw-IsTallied s.prevotes voter b stake e v.prevotes) v))
            ]
          ]
        ]
      ]

  after_precommit-IsValid :
      (s : TendermintState) (o : Option ℕ)
      → quorum_block_hash s.precommits ≡ o
      → IsValid known vs s
      → IsValid known vs (after_precommit s o).0
  unfolding after_precommit
  after_precommit-IsValid s none e v = v
  after_precommit-IsValid s (some q) e v = elim (Bool-cases (q == nil_block_hash)) [
    | inl n ↦ rw n v
    | inr n ↦ rw n (record {
      phase = λ eq. cc;
      lock = v.lock;
      past = λ o. cc;
      prevotes = v.prevotes;
      precommits = v.precommits;
      total = v.total;
      buffered = v.buffered;
      backed = λ h same. inl ((quorum_block_hash_iff vs s.precommits h v.precommits).0 (e ∙ same));
    })
  ]

  -- A precommit at its voter's stake keeps the invariant, so that a hash committed by it has a quorum
  -- of precommits.
  pub on_precommit-IsValid :
      (s : TendermintState) (height round b voter stake : ℕ)
      → stake ≡ found_stake (by_id voter vs)
      → IsValid known vs s
      → IsValid known vs (on_precommit s height round b voter stake).0
  unfolding on_precommit
  on_precommit-IsValid s height round b voter stake e v =
      let counted = (add_vote_raw s.precommits voter b stake).0 in
      let recounted = recount_precommits-IsValid s voter b stake e v in
      elim (Bool-cases (height == s.height)) [
        | inr h ↦ rw h v
        | inl h ↦ elim (Bool-cases (ltb s.round round)) [
          | inl f ↦ rw (h, f) (buffer_vote-IsValid known vs s round (voter, b, stake, true) e v)
          | inr f ↦ elim (Bool-cases (round == s.round)) [
            | inr r ↦ rw (h, f, r) v
            | inl r ↦ elim (Bool-cases (is_done s.step)) [
              | inl d ↦ elim (Bool-cases (is_commit_wait s.step)) [
                | inl w ↦ rw (h, f, r, d, w) recounted
                | inr w ↦ rw (h, f, r, d, w) v
              ]
              | inr d ↦
                  rw (h, f, r, d)
                    (after_precommit-IsValid (record s { precommits = counted })
                      (quorum_block_hash counted) refl recounted)
            ]
          ]
        ]
      ]
