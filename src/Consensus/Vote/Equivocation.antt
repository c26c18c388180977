-- ===== src/Consensus/Vote/Equivocation.antt =====
-- ace-consensus/src/vote.rs: the equivocators that add_vote_internal records over a sequence of votes.
use ace_chain.Common.{
  ℕ, ◌≡◌, ◌≢◌, ◌⊎◌, inl, inr, sym, ◌∙◌, none, some, List, [], ◌∷◌, arith, Option-cases,
}
use ace_chain.Common.Assoc.{lookup, lookup-insert}
use ace_chain.Consensus.Vote.{Vote, VoteCollector, new, add_vote_internal}

-- A collector after votes at their stakes, the newest first.
abbrev pub after : ℕ → ℕ → List (Vote × ℕ) → VoteCollector
after slot total [] = new slot total
after slot total ((vote, stake) ∷ earlier) =
    (add_vote_internal (after slot total earlier) vote stake).0

-- The validator voted for the hash.
abbrev pub Voted : ℕ → ℕ → List (Vote × ℕ) → Type 0
Voted v h [] = ⊥
Voted v h ((vote, _) ∷ earlier) = ((vote.voter ≡ v) × (vote.block_hash ≡ h)) ⊎ Voted v h earlier

-- What the collector `c` records of the validator `v` after the votes.
record Keeps (c : VoteCollector) (v : ℕ) (votes : List (Vote × ℕ)) : Type 0 where
  first : (a : ℕ) → lookup v c.voter_first_hash ≡ some a → Voted v a votes
  second :
      (a b : ℕ)
      → lookup v c.equivocators ≡ some (a, b)
      → (lookup v c.voter_first_hash ≡ some a) × (a ≢ b) × Voted v b votes
  all :
      (h : ℕ)
      → Voted v h votes
      → (lookup v c.voter_first_hash ≡ some h)
        ⊎ (lookup v c.equivocators ≢ none) × (lookup v c.voter_first_hash ≢ none)

add-Keeps :
    (c : VoteCollector) (v : ℕ) (vote : Vote) (stake : ℕ) (earlier : List (Vote × ℕ))
    → Keeps c v earlier
    → Keeps (add_vote_internal c vote stake).0 v ((vote, stake) ∷ earlier)
unfolding add_vote_internal
add-Keeps c v vote stake earlier k = elim (Option-cases (lookup vote.voter c.voter_first_hash)) [
  | inl e ↦
      let firsts = lookup-insert vote.voter v vote.block_hash c.voter_first_hash in
      record {
        first = λ a p. ground (arith, e, firsts, k.first a, p);
        second = λ a b p. ground (arith, e, firsts, k.second a b, p);
        all = λ h w. elim w [
          | inl q ↦ ground (arith, e, firsts, q)
          | inr q ↦ ground (arith, e, firsts, k.all h q)
        ];
      }
  | inr (q, e) ↦
      let others = lookup-insert vote.voter v (q, vote.block_hash) c.equivocators in
      record {
        first = λ a p. ground (arith, e, k.first a, p);
        second = λ a b p. ground (arith, e, others, k.second a b, p);
        all = λ h w. elim w [
          | inl p ↦ ground (arith, e, others, p)
          | inr p ↦ ground (arith, e, others, k.all h p)
        ];
      }
]

after-Keeps : (slot total v : ℕ) (votes : List (Vote × ℕ)) → Keeps (after slot total votes) v votes
unfolding new lookup
after-Keeps slot total v [] = record {
  first = λ a p. cc;
  second = λ a b p. cc;
  all = λ h w. absurd w;
}
after-Keeps slot total v ((vote, stake) ∷ earlier) =
    add-Keeps (after slot total earlier) v vote stake earlier (after-Keeps slot total v earlier)

-- After any votes at any stakes, from an empty collector: a pair of hashes that is recorded of a
-- validator as an equivocation is of two different hashes, the validator voted for both, and the first
-- of them is the one on record as its first hash; and a validator that voted for two different hashes
-- is recorded.
pub after-equivocators :
    (slot total v : ℕ) (votes : List (Vote × ℕ))
    → let c = after slot total votes in
      ((a b : ℕ)
        → lookup v c.equivocators ≡ some (a, b)
        → (a ≢ b) × Voted v a votes × Voted v b votes × (lookup v c.voter_first_hash ≡ some a))
      × ((a b : ℕ) → Voted v a votes → Voted v b votes → a ≢ b → lookup v c.equivocators ≢ none)
after-equivocators slot total v votes =
    let k = after-Keeps slot total v votes in
    (
      λ a b p.
          let (first, apart, second) = k.second a b p in (apart, k.first a first, second, first),
      λ a b p q n none_at. elim (k.all a p) [
        | inr r ↦ r.0 none_at
        | inl f ↦ elim (k.all b q) [ inr r ↦ r.0 none_at | inl g ↦ n (cc (sym f ∙ g)) ]
      ],
    )
