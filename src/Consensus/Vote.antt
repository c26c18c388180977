-- ===== src/Consensus/Vote.antt =====
-- ace-consensus/src/vote.rs: votes, their signatures, and the collector that counts them by block
-- hash. A hash and an `AccountId` are the numbers that their 32 bytes spell, most significant
-- first. A `HashMap` is an association list; its iteration order is that of the list. Logging and
-- the clock that times a verification are left out.
pub mod Quorum
pub mod Tally
pub mod Collector
pub mod Equivocation
pub mod Majority
pub mod Signing
mod Tests
use ace_chain.Common.{
  ℕ, Bool, true, false, not, ◌&&◌, Option, none, some, List, [], ◌∷◌, ◌++◌, ◌==◌, if◌then◌else◌,
  add64, le_bytes, be_bytes, codes, replicate,
}
use ace_chain.Common.Assoc.{Map, lookup, insert}
use ace_chain.Runtime.SigAlgo.{
  Crypto, TaggedPubkey, TaggedSignature, ed25519, same_algorithm, sig_well_formed, verify_signature,
}
use ace_chain.Consensus.Validators.{ValidatorSet, get_by_id}

pub data VoteType : Type 0 where
  prevote precommit : VoteType

pub record Vote : Type 0 where
  pub slot : ℕ
  pub block_hash : ℕ
  pub voter : ℕ
  pub voter_stake : ℕ
  pub signature : TaggedSignature
  pub chain_id : ℕ
  pub round : ℕ
  pub vote_type : VoteType

-- The bytes that `sign_message` hashes.
unfoldable pub legacy_bytes : ℕ → ℕ → ℕ → ℕ → List ℕ
legacy_bytes slot block_hash voter chain_id =
    codes "ACE-VOTE-V1"
    ++ (le_bytes 4 chain_id ++ (le_bytes 8 slot ++ (be_bytes 32 block_hash ++ be_bytes 32 voter)))

unfoldable pub sign_message : Crypto → ℕ → ℕ → ℕ → ℕ → ℕ
unfolding legacy_bytes
sign_message c slot block_hash voter chain_id =
    c.sha256 (legacy_bytes slot block_hash voter chain_id)

abbrev pub vote_prefix : VoteType → List ℕ
vote_prefix prevote = codes "ACE-PREVOTE-V1"
vote_prefix precommit = codes "ACE-PRECOMMIT-V1"

-- The bytes that `sign_message_tendermint` hashes.
unfoldable pub tendermint_bytes : ℕ → ℕ → VoteType → ℕ → ℕ → ℕ → List ℕ
tendermint_bytes slot round vote_type block_hash voter chain_id =
    vote_prefix vote_type
    ++ (le_bytes 4 chain_id
        ++ (le_bytes 8 slot ++ (le_bytes 4 round ++ (be_bytes 32 block_hash ++ be_bytes 32 voter))))

unfoldable pub sign_message_tendermint : Crypto → ℕ → ℕ → VoteType → ℕ → ℕ → ℕ → ℕ
unfolding tendermint_bytes
sign_message_tendermint c slot round vote_type block_hash voter chain_id =
    c.sha256 (tendermint_bytes slot round vote_type block_hash voter chain_id)

abbrev pub is_prevote : VoteType → Bool
is_prevote prevote = true
is_prevote precommit = false

-- The digest that a vote's signature must cover.
unfoldable pub vote_digest : Crypto → Vote → ℕ
unfolding sign_message sign_message_tendermint
vote_digest c v =
    if v.round == 0 && is_prevote v.vote_type
    then sign_message c v.slot v.block_hash v.voter v.chain_id
    else sign_message_tendermint c v.slot v.round v.vote_type v.block_hash v.voter v.chain_id

-- `Vote::verify_signature`.
unfoldable pub verify_vote : Crypto → Vote → TaggedPubkey → Bool
unfolding vote_digest verify_signature sig_well_formed
verify_vote c v pubkey =
    if not (sig_well_formed v.signature)
    then false
    else if not (same_algorithm v.signature.algorithm pubkey.algorithm)
    then false
    else verify_signature c pubkey (vote_digest c v) v.signature

pub record VoteBucket : Type 0 where
  pub votes : List Vote
  pub voted_stake : ℕ

abbrev pub empty_bucket : VoteBucket
empty_bucket = record { votes = []; voted_stake = 0 }

pub record VoteCollector : Type 0 where
  pub slot : ℕ
  pub buckets : Map VoteBucket
  pub total_stake : ℕ
  pub voter_first_hash : Map ℕ
  pub equivocators : Map (ℕ × ℕ)
  pub validator_set_generation : ℕ

unfoldable pub new : ℕ → ℕ → VoteCollector
new slot total_stake = record {
  slot = slot;
  buckets = [];
  total_stake = total_stake;
  voter_first_hash = [];
  equivocators = [];
  validator_set_generation = 0;
}

abbrev pub or_empty : Option VoteBucket → VoteBucket
or_empty none = empty_bucket
or_empty (some b) = b

-- `bucket.voted_stake += stake; bucket.votes.push(vote)`.
abbrev pub push_vote : VoteBucket → Vote → ℕ → VoteBucket
push_vote b vote stake = record {
  votes = b.votes ++ vote ∷ [];
  voted_stake = add64 b.voted_stake stake;
}

unfoldable pub add_vote_internal : VoteCollector → Vote → ℕ → VoteCollector × Bool
add_vote_internal c vote canonical_stake = elim (lookup vote.voter c.voter_first_hash) [
  | some first_hash ↦ if first_hash == vote.block_hash then (c, false) else (
    record c { equivocators = insert vote.voter (first_hash, vote.block_hash) c.equivocators },
    false,
  )
  | none ↦ (
    record c {
      buckets =
          insert vote.block_hash
            (push_vote (or_empty (lookup vote.block_hash c.buckets))
              (record vote { voter_stake = canonical_stake }) canonical_stake)
            c.buckets;
      voter_first_hash = insert vote.voter vote.block_hash c.voter_first_hash;
    },
    true,
  )
]

unfoldable pub add_vote_verified :
    Crypto → VoteCollector → Vote → ValidatorSet → VoteCollector × Bool
unfolding add_vote_internal verify_vote get_by_id
add_vote_verified k c vote validators =
    if not (vote.slot == c.slot) then (c, false) else elim (get_by_id validators vote.voter) [
      | none ↦ (c, false)
      | some v ↦
          if verify_vote k vote v.signing_pubkey
          then add_vote_internal c vote v.stake
          else (c, false)
    ]

-- A placeholder signature: `TaggedSignature::ed25519([0u8; 64])`.
abbrev pub zero_signature : TaggedSignature
zero_signature = record { algorithm = ed25519; bytes = replicate 64 0 }

abbrev pub raw_vote : VoteCollector → ℕ → ℕ → ℕ → Vote
raw_vote c voter block_hash stake = record {
  slot = c.slot;
  block_hash = block_hash;
  voter = voter;
  voter_stake = stake;
  signature = zero_signature;
  chain_id = 0;
  round = 0;
  vote_type = prevote;
}

unfoldable pub add_vote_raw : VoteCollector → ℕ → ℕ → ℕ → VoteCollector × Bool
unfolding add_vote_internal
add_vote_raw c voter block_hash stake =
    add_vote_internal c (raw_vote c voter block_hash stake) stake

abbrev pub bucket_stake : Option VoteBucket → ℕ
bucket_stake none = 0
bucket_stake (some b) = b.voted_stake

unfoldable pub voted_stake_for : VoteCollector → ℕ → ℕ
voted_stake_for c h = bucket_stake (lookup h c.buckets)
