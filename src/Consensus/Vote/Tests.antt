-- ===== src/Consensus/Vote/Tests.antt =====
-- Votes of the three validators.
use ace_chain.Common.{
  ℕ, ◌*◌, ◌≤◌, ◌≡◌, ◌↔◌, refl, ◌≢◌, true, none, some, List, [], ◌∷◌, arith, sum_of,
}
use ace_chain.Common.Assoc.{lookup, insert}
use ace_chain.Runtime.Quorum.{has_quorum}
use ace_chain.Consensus.Validators.Stake.{stake_of}
use ace_chain.Consensus.Validators.Samples.{three, three-IsDistinct}
use ace_chain.Consensus.Vote.{VoteType, Vote, VoteCollector, new, raw_vote, add_vote_internal}
use ace_chain.Consensus.Vote.Quorum.{quorum_block_hash}
use ace_chain.Consensus.Vote.Tally.{support, overlap}
use ace_chain.Consensus.Vote.Collector.{IsTallied, new-IsTallied, add_vote_internal-IsTallied}
use ace_chain.Consensus.Vote.Equivocation.{Voted, after, after-equivocators}
use ace_chain.Consensus.Vote.Signing.{IsSized, IsSame, signed_bytes, signed_bytes-injective}
use ace_chain.Consensus.Vote.Majority.{quorum_block_hash_iff, quorum_intersection}

abbrev empty : VoteCollector
empty = new 5 (sum_of stake_of three)

abbrev vote : ℕ → Vote
vote voter = raw_vote empty voter 7 100

abbrev one : VoteCollector
one = (add_vote_internal empty (vote 1) 100).0

abbrev two : VoteCollector
two = (add_vote_internal one (vote 2) 100).0

one-IsTallied : IsTallied three one
one-IsTallied =
    add_vote_internal-IsTallied three three-IsDistinct (omega arith) empty (vote 1) 100 refl
      (new-IsTallied three 5)

two-IsTallied : IsTallied three two
two-IsTallied =
    add_vote_internal-IsTallied three three-IsDistinct (omega arith) one (vote 2) 100 refl
      one-IsTallied

two_quorum : quorum_block_hash two ≡ some 7
unfolding new add_vote_internal quorum_block_hash lookup insert
two_quorum = refl

add_vote_internal-IsTallied_example : IsTallied three (add_vote_internal two (vote 3) 100).0
add_vote_internal-IsTallied_example =
    add_vote_internal-IsTallied three three-IsDistinct (omega arith) two (vote 3) 100 refl
      two-IsTallied

-- Validator 3 votes for 7, for 9, and for 7 again, and validator 1 for 7; the newest comes first.
abbrev twice : List (Vote × ℕ)
twice = (vote 3, 100) ∷ (vote 1, 100) ∷ (raw_vote empty 3 9 100, 100) ∷ (vote 3, 100) ∷ []

recorded_twice : lookup 3 (after 5 300 twice).equivocators ≡ some (7, 9)
unfolding new add_vote_internal lookup insert
recorded_twice = refl

after-equivocators_example :
    let c = after 5 300 twice in
    ((a b : ℕ)
      → lookup 3 c.equivocators ≡ some (a, b)
      → (a ≢ b) × Voted 3 a twice × Voted 3 b twice × (lookup 3 c.voter_first_hash ≡ some a))
    × ((a b : ℕ) → Voted 3 a twice → Voted 3 b twice → a ≢ b → lookup 3 c.equivocators ≢ none)
after-equivocators_example = after-equivocators 5 300 3 twice

quorum_block_hash_iff_example :
    (quorum_block_hash two ≡ some 7)
    ↔ (has_quorum (support three two.voter_first_hash 7) (sum_of stake_of three) ≡ true)
quorum_block_hash_iff_example = quorum_block_hash_iff three two 7 two-IsTallied

quorum_intersection_example :
    sum_of stake_of three ≤ 3 * overlap three two.voter_first_hash 7 two.voter_first_hash 7
quorum_intersection_example =
    quorum_intersection three two two 7 7 two-IsTallied two-IsTallied two_quorum two_quorum

vote-IsSized : IsSized (vote 1)
unfolding new
vote-IsSized = (omega arith, omega arith, omega arith, omega arith, omega arith)

signed_bytes-injective_example :
    IsSame (vote 1) (record (vote 1) { voter_stake = 5 })
    × ((vote 1).round ≡ 0)
    × ((vote 1).vote_type ≡ VoteType.prevote)
unfolding new signed_bytes
signed_bytes-injective_example =
    signed_bytes-injective (vote 1) (record (vote 1) { voter_stake = 5 }) vote-IsSized vote-IsSized
      refl
