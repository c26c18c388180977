-- ===== src/Consensus/Vote/Quorum.antt =====
-- ace-consensus/src/vote.rs: what a `VoteCollector` reports, the quorum above all, and the
-- recount against a new validator set.
use ace_chain.Common.{
  ℕ, Bool, Option, none, some, List, [], ◌∷◌, ◌++◌, ◌==◌, leb, ltb, if◌then◌else◌, add64, length,
  is_some,
}
use ace_chain.Common.Assoc.{Map, lookup}
use ace_chain.Runtime.Quorum.{has_quorum}
use ace_chain.Runtime.SigAlgo.{Crypto}
use ace_chain.Consensus.Validators.{ValidatorSet}
use ace_chain.Consensus.Vote.{Vote, VoteBucket, VoteCollector, bucket_stake, add_vote_verified}

-- `sort_unstable` on the keys, which are distinct.
unfoldable pub insert_key : ℕ → List ℕ → List ℕ
insert_key k [] = k ∷ []
insert_key k (j ∷ js) = if leb k j then k ∷ j ∷ js else j ∷ insert_key k js

unfoldable pub sorted_keys {ℓ} : {V : Type ℓ} → Map V → List ℕ
unfolding insert_key
sorted_keys [] = []
sorted_keys ((k, _) ∷ m) = insert_key k (sorted_keys m)

-- The loop over the sorted keys.
unfoldable pub first_quorum : Map VoteBucket → ℕ → List ℕ → Option ℕ
unfolding has_quorum
first_quorum buckets total [] = none
first_quorum buckets total (h ∷ hs) =
    if has_quorum (bucket_stake (lookup h buckets)) total
    then some h
    else first_quorum buckets total hs

-- The fast path: `find_map` over at most one bucket.
unfoldable pub find_quorum : Map VoteBucket → ℕ → Option ℕ
unfolding has_quorum
find_quorum [] total = none
find_quorum ((h, b) ∷ m) total =
    if has_quorum b.voted_stake total then some h else find_quorum m total

unfoldable pub quorum_block_hash : VoteCollector → Option ℕ
unfolding find_quorum first_quorum sorted_keys
quorum_block_hash c =
    if leb (length c.buckets) 1
    then find_quorum c.buckets c.total_stake
    else first_quorum c.buckets c.total_stake (sorted_keys c.buckets)

unfoldable pub collector_has_quorum : VoteCollector → Bool
unfolding quorum_block_hash
collector_has_quorum c = is_some (quorum_block_hash c)

-- `max_by` keeps the later of two equal items; hash `a` with stake `s` is greater than `b` with `t`
-- when its stake is, or at equal stakes when its hash is lower.
abbrev pub beats : ℕ × ℕ → ℕ × ℕ → Bool
beats (a, s) (b, t) = if s == t then leb a b else ltb t s

unfoldable pub max_bucket : ℕ × ℕ → Map VoteBucket → ℕ × ℕ
max_bucket best [] = best
max_bucket best ((h, b) ∷ m) =
    max_bucket (if beats (h, b.voted_stake) best then (h, b.voted_stake) else best) m

unfoldable pub leading_bucket : Map VoteBucket → Option ℕ
unfolding max_bucket
leading_bucket [] = none
leading_bucket ((h, b) ∷ m) = some (max_bucket (h, b.voted_stake) m).0

unfoldable pub leading_block_hash : VoteCollector → Option ℕ
unfolding leading_bucket
leading_block_hash c = leading_bucket c.buckets

unfoldable pub sum_buckets : Map VoteBucket → ℕ
sum_buckets [] = 0
sum_buckets ((_, b) ∷ m) = add64 b.voted_stake (sum_buckets m)

unfoldable pub voted_stake : VoteCollector → ℕ
unfolding sum_buckets
voted_stake c = sum_buckets c.buckets

unfoldable pub voter_block_hash : VoteCollector → ℕ → Option ℕ
voter_block_hash c voter = lookup voter c.voter_first_hash

unfoldable pub all_votes : Map VoteBucket → List Vote
all_votes [] = []
all_votes ((_, b) ∷ m) = b.votes ++ all_votes m

unfoldable pub vote_count : VoteCollector → ℕ
unfolding all_votes
vote_count c = length (all_votes c.buckets)

-- The loop of `reconcile_validator_set` over the stored votes.
unfoldable pub add_votes_verified :
    Crypto → VoteCollector → List Vote → ValidatorSet → VoteCollector
unfolding add_vote_verified
add_votes_verified k c [] validators = c
add_votes_verified k c (v ∷ vs) validators =
    add_votes_verified k (add_vote_verified k c v validators).0 vs validators

unfoldable pub reconcile_validator_set : Crypto → VoteCollector → ValidatorSet → VoteCollector
unfolding add_votes_verified all_votes
reconcile_validator_set k c validators =
    if c.validator_set_generation == validators.generation
    then c
    else add_votes_verified k
        (record c {
          buckets = [];
          voter_first_hash = [];
          equivocators = [];
          total_stake = validators.total_stake;
          validator_set_generation = validators.generation;
        })
        (all_votes c.buckets) validators
