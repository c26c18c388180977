-- ===== src/Consensus/Vote/Majority.antt =====
-- ace-consensus/src/vote.rs: what quorum_block_hash reports, against the stakes of the voters.
use ace_chain.Common.{
  ℕ, ◌*◌, ◌≤◌, ◌≡◌, ◌≢◌, ◌↔◌, refl, sym, ap, ==_iff, ◌∙◌, true, none, some, List, [], ◌∷◌, arith,
  ◌==◌, leb, if◌then◌else◌, sum_of, any, Option-cases, inl, inr, length,
}
use ace_chain.Common.Assoc.{Map, lookup}
use ace_chain.Runtime.Quorum.{has_quorum}
use ace_chain.Consensus.Validators.{Validator}
use ace_chain.Consensus.Validators.Stake.{stake_of}
use ace_chain.Consensus.Vote.{VoteBucket, VoteCollector, voted_stake_for, bucket_stake}
use ace_chain.Consensus.Vote.Quorum.{
  quorum_block_hash, find_quorum, first_quorum, sorted_keys, insert_key,
}
use ace_chain.Consensus.Vote.Tally.{
  support, overlap, support_disjoint, support-overlap, quorum-two_thirds,
}
use ace_chain.Consensus.Vote.Collector.{IsTallied}

abbrev stake_at : Map VoteBucket → ℕ → ℕ
stake_at m h = bucket_stake (lookup h m)

first_quorum_sound :
    (m : Map VoteBucket) (total h : ℕ) (hs : List ℕ)
    → first_quorum m total hs ≡ some h
    → has_quorum (stake_at m h) total ≡ true
unfolding first_quorum
first_quorum_sound m total h [] e = cc
first_quorum_sound m total h (k ∷ ks) e = ground (arith, first_quorum_sound m total h ks)

first_quorum_complete :
    (m : Map VoteBucket) (total h : ℕ) (hs : List ℕ)
    → any (λ k. k == h) hs ≡ true
    → has_quorum (stake_at m h) total ≡ true
    → first_quorum m total hs ≢ none
unfolding first_quorum
first_quorum_complete m total h [] mem q = cc
first_quorum_complete m total h (k ∷ ks) mem q = ground (arith, first_quorum_complete m total h ks)

any-insert_key :
    (h k : ℕ) (hs : List ℕ)
    → any (λ j. j == h) (insert_key k hs) ≡ (if k == h then true else any (λ j. j == h) hs)
unfolding insert_key
any-insert_key h k [] = refl
any-insert_key h k (j ∷ js) = ground (arith, any-insert_key h k js)

any-sorted_keys :
    (h : ℕ) (m : Map VoteBucket) → lookup h m ≢ none → any (λ j. j == h) (sorted_keys m) ≡ true
unfolding sorted_keys lookup
any-sorted_keys h [] e = absurd (e refl)
any-sorted_keys h ((k, b) ∷ m) e =
    ground (arith, any-insert_key h k (sorted_keys m), any-sorted_keys h m)

find_quorum_short :
    (m : Map VoteBucket) (total : ℕ)
    → leb (length m) 1 ≡ true
    → find_quorum m total ≡ first_quorum m total (sorted_keys m)
unfolding find_quorum first_quorum sorted_keys insert_key lookup
find_quorum_short [] total e = refl
find_quorum_short ((h, b) ∷ []) total e = ground arith
find_quorum_short ((h, b) ∷ x ∷ m) total e = absurd (ground arith)

-- The fast path and the loop over the sorted keys agree.
quorum_block_hash-eq :
    (c : VoteCollector)
    → quorum_block_hash c ≡ first_quorum c.buckets c.total_stake (sorted_keys c.buckets)
unfolding quorum_block_hash
quorum_block_hash-eq c = ground (arith, find_quorum_short c.buckets c.total_stake)

pub quorum_block_hash_sound :
    (c : VoteCollector) (h : ℕ)
    → quorum_block_hash c ≡ some h
    → has_quorum (voted_stake_for c h) c.total_stake ≡ true
unfolding voted_stake_for
quorum_block_hash_sound c h e =
    first_quorum_sound c.buckets c.total_stake h (sorted_keys c.buckets)
      (sym (quorum_block_hash-eq c) ∙ e)

quorum_block_hash_complete :
    (c : VoteCollector) (h : ℕ)
    → has_quorum (voted_stake_for c h) c.total_stake ≡ true
    → quorum_block_hash c ≢ none
unfolding voted_stake_for has_quorum
quorum_block_hash_complete c h q = ground (
  arith,
  quorum_block_hash-eq c,
  any-sorted_keys h c.buckets,
  first_quorum_complete c.buckets c.total_stake h (sorted_keys c.buckets),
)

module _ (vs : List Validator) where
  -- In one collector at most one hash has a quorum.
  quorum_unique :
      (c : VoteCollector) (h k : ℕ)
      → IsTallied vs c
      → has_quorum (voted_stake_for c h) c.total_stake ≡ true
      → has_quorum (voted_stake_for c k) c.total_stake ≡ true
      → (h == k) ≡ true
  quorum_unique c h k t p q = ground (
    arith,
    t.stakes h,
    t.stakes k,
    t.total,
    support_disjoint vs c.voter_first_hash h k,
    quorum-two_thirds (voted_stake_for c h) c.total_stake p,
    quorum-two_thirds (voted_stake_for c k) c.total_stake q,
  )

  -- A collector whose buckets hold the stakes of the validators `vs`, by the hash that each
  -- named first, reports a hash exactly when the validators that named it first hold two thirds
  -- of the stake.
  pub quorum_block_hash_iff :
      (c : VoteCollector) (h : ℕ)
      → IsTallied vs c
      → (quorum_block_hash c ≡ some h)
        ↔ (has_quorum (support vs c.voter_first_hash h) (sum_of stake_of vs) ≡ true)
  quorum_block_hash_iff c h t = (
    λ e. rw (← t.stakes h, ← t.total) (quorum_block_hash_sound c h e),
    λ q.
        let held : has_quorum (voted_stake_for c h) c.total_stake ≡ true =
          rw (t.stakes h, t.total) q in
        elim (Option-cases (quorum_block_hash c)) [
          | inl e ↦ absurd (quorum_block_hash_complete c h held e)
          | inr (k, e) ↦
              e
              ∙ ap some
                  ((==_iff k h).0 (quorum_unique c k h t (quorum_block_hash_sound c k e) held))
        ],
  )

  -- Two collectors that count the same validators and report quorums, for any two hashes: the
  -- validators whose first vote is for the one in the first and for the other in the second
  -- hold at least a third of the stake.
  pub quorum_intersection :
      (c d : VoteCollector) (h k : ℕ)
      → IsTallied vs c
      → IsTallied vs d
      → quorum_block_hash c ≡ some h
      → quorum_block_hash d ≡ some k
      → sum_of stake_of vs ≤ 3 * overlap vs c.voter_first_hash h d.voter_first_hash k
  quorum_intersection c d h k t u p q = omega (
    arith,
    t.stakes h,
    u.stakes k,
    t.total,
    u.total,
    support-overlap vs c.voter_first_hash d.voter_first_hash h k,
    quorum-two_thirds (voted_stake_for c h) c.total_stake (quorum_block_hash_sound c h p),
    quorum-two_thirds (voted_stake_for d k) d.total_stake (quorum_block_hash_sound d k q),
  )
