-- ===== src/Consensus/Vote/Signing.antt =====
-- ace-consensus/src/vote.rs: the bytes that the signature of a vote covers.
use ace_chain.Common.{
  ℕ, zero, suc, ◌^◌, ◌<◌, ◌≡◌, ◌≢◌, refl, ap, sym, ◌∙◌, List, [], ◌∷◌, ◌++◌, arith, le_bytes,
  be_bytes, codes, if◌then◌else◌, ◌==◌, ◌&&◌, Bool, Bool-cases, inl, inr, true, false,
}
use ace_chain.Common.Bytes.{append-injective, le_bytes-step, be_bytes-injective, be_bytes-step}
use ace_chain.Consensus.Vote.{
  VoteType, prevote, precommit, Vote, legacy_bytes, tendermint_bytes, vote_prefix, is_prevote,
  vote_digest, sign_message, sign_message_tendermint,
}
use ace_chain.Runtime.SigAlgo.{Crypto}

-- The fields hold what their types hold.
abbrev pub IsSized : Vote → Type 0
IsSized v =
    (v.slot < 2 ^ 64)
    × (v.block_hash < 2 ^ 256)
    × (v.voter < 2 ^ 256)
    × (v.chain_id < 2 ^ 32)
    × (v.round < 2 ^ 32)

-- The bytes whose digest `verify_signature` checks.
unfoldable pub signed_bytes : Vote → List ℕ
unfolding legacy_bytes tendermint_bytes
signed_bytes v =
    if v.round == 0 && is_prevote v.vote_type
    then legacy_bytes v.slot v.block_hash v.voter v.chain_id
    else tendermint_bytes v.slot v.round v.vote_type v.block_hash v.voter v.chain_id

pub vote_digest-eq : (c : Crypto) (v : Vote) → vote_digest c v ≡ c.sha256 (signed_bytes v)
unfolding vote_digest signed_bytes sign_message sign_message_tendermint
vote_digest-eq c v = elim (Bool-cases (v.round == 0 && is_prevote v.vote_type)) [
  | inl e ↦ rw e refl
  | inr e ↦ rw e refl
]

hash_voter-injective :
    (v w : Vote)
    → IsSized v
    → IsSized w
    → be_bytes 32 v.block_hash ++ be_bytes 32 v.voter
      ≡ be_bytes 32 w.block_hash ++ be_bytes 32 w.voter
    → (v.block_hash ≡ w.block_hash) × (v.voter ≡ w.voter)
hash_voter-injective v w p q e =
    let (hash, voter) =
      be_bytes-step 32 v.block_hash w.block_hash (be_bytes 32 v.voter) (be_bytes 32 w.voter)
        (omega (arith, p.1)) (omega (arith, q.1)) e in
    (hash, be_bytes-injective 32 v.voter w.voter (omega (arith, p.2)) (omega (arith, q.2)) voter)

-- Slot, hash, voter and chain of two votes agree.
abbrev pub IsSame : Vote → Vote → Type 0
IsSame v w =
    (v.slot ≡ w.slot)
    × (v.block_hash ≡ w.block_hash)
    × (v.voter ≡ w.voter)
    × (v.chain_id ≡ w.chain_id)

legacy_bytes-injective :
    (v w : Vote)
    → IsSized v
    → IsSized w
    → legacy_bytes v.slot v.block_hash v.voter v.chain_id
      ≡ legacy_bytes w.slot w.block_hash w.voter w.chain_id
    → IsSame v w
unfolding legacy_bytes
legacy_bytes-injective v w p q e =
    let (_, body) =
      append-injective (codes "ACE-VOTE-V1") (codes "ACE-VOTE-V1")
        (le_bytes 4 v.chain_id
          ++ (le_bytes 8 v.slot ++ (be_bytes 32 v.block_hash ++ be_bytes 32 v.voter)))
        (le_bytes 4 w.chain_id
          ++ (le_bytes 8 w.slot ++ (be_bytes 32 w.block_hash ++ be_bytes 32 w.voter)))
        refl e in
    let (chain, after_chain) =
      le_bytes-step 4 v.chain_id w.chain_id
        (le_bytes 8 v.slot ++ (be_bytes 32 v.block_hash ++ be_bytes 32 v.voter))
        (le_bytes 8 w.slot ++ (be_bytes 32 w.block_hash ++ be_bytes 32 w.voter)) (omega arith)
        (omega arith) body in
    let (slot, after_slot) =
      le_bytes-step 8 v.slot w.slot (be_bytes 32 v.block_hash ++ be_bytes 32 v.voter)
        (be_bytes 32 w.block_hash ++ be_bytes 32 w.voter) (omega arith) (omega arith) after_chain in
    let (hash, voter) = hash_voter-injective v w p q after_slot in (slot, hash, voter, chain)

tendermint_bytes-injective :
    (v w : Vote) (t : VoteType)
    → IsSized v
    → IsSized w
    → tendermint_bytes v.slot v.round t v.block_hash v.voter v.chain_id
      ≡ tendermint_bytes w.slot w.round t w.block_hash w.voter w.chain_id
    → IsSame v w × (v.round ≡ w.round)
unfolding tendermint_bytes
tendermint_bytes-injective v w t p q e =
    let (_, body) =
      append-injective (vote_prefix t) (vote_prefix t)
        (le_bytes 4 v.chain_id
          ++ (le_bytes 8 v.slot
              ++ (le_bytes 4 v.round ++ (be_bytes 32 v.block_hash ++ be_bytes 32 v.voter))))
        (le_bytes 4 w.chain_id
          ++ (le_bytes 8 w.slot
              ++ (le_bytes 4 w.round ++ (be_bytes 32 w.block_hash ++ be_bytes 32 w.voter))))
        refl e in
    let (chain, after_chain) =
      le_bytes-step 4 v.chain_id w.chain_id
        (le_bytes 8 v.slot
          ++ (le_bytes 4 v.round ++ (be_bytes 32 v.block_hash ++ be_bytes 32 v.voter)))
        (le_bytes 8 w.slot
          ++ (le_bytes 4 w.round ++ (be_bytes 32 w.block_hash ++ be_bytes 32 w.voter)))
        (omega arith) (omega arith) body in
    let (slot, after_slot) =
      le_bytes-step 8 v.slot w.slot
        (le_bytes 4 v.round ++ (be_bytes 32 v.block_hash ++ be_bytes 32 v.voter))
        (le_bytes 4 w.round ++ (be_bytes 32 w.block_hash ++ be_bytes 32 w.voter)) (omega arith)
        (omega arith) after_chain in
    let (round, after_round) =
      le_bytes-step 4 v.round w.round (be_bytes 32 v.block_hash ++ be_bytes 32 v.voter)
        (be_bytes 32 w.block_hash ++ be_bytes 32 w.voter) (omega arith) (omega arith) after_slot in
    let (hash, voter) = hash_voter-injective v w p q after_round in
    ((slot, hash, voter, chain), round)

-- The byte at an index, 0 past the end.
abbrev byte_at : ℕ → List ℕ → ℕ
byte_at i [] = 0
byte_at zero (x ∷ xs) = x
byte_at (suc i) (x ∷ xs) = byte_at i xs

-- Whatever follows them, the prefixes differ at the fifth byte, or at the eighth.
prefixes_differ :
    (us vs : List ℕ)
    → (codes "ACE-PREVOTE-V1" ++ us ≢ codes "ACE-PRECOMMIT-V1" ++ vs)
      × ((t : VoteType) → codes "ACE-VOTE-V1" ++ us ≢ vote_prefix t ++ vs)
prefixes_differ us vs = (λ e. let differ = ap (byte_at 7) e in absurd (omega (arith, differ)), go)
  where
    go : (t : VoteType) → codes "ACE-VOTE-V1" ++ us ≢ vote_prefix t ++ vs
    go prevote e = let differ = ap (byte_at 4) e in omega (arith, differ)
    go precommit e = let differ = ap (byte_at 4) e in omega (arith, differ)

-- Both kinds of votes at once, by type.
typed_bytes-injective :
    (v w : Vote) (t u : VoteType)
    → IsSized v
    → IsSized w
    → tendermint_bytes v.slot v.round t v.block_hash v.voter v.chain_id
      ≡ tendermint_bytes w.slot w.round u w.block_hash w.voter w.chain_id
    → IsSame v w × (v.round ≡ w.round) × (t ≡ u)
unfolding tendermint_bytes
typed_bytes-injective v w prevote prevote p q e =
    let (same, round) = tendermint_bytes-injective v w prevote p q e in (same, round, refl)
typed_bytes-injective v w precommit precommit p q e =
    let (same, round) = tendermint_bytes-injective v w precommit p q e in (same, round, refl)
typed_bytes-injective v w prevote precommit p q e = absurd ((prefixes_differ _ _).0 e)
typed_bytes-injective v w precommit prevote p q e = absurd ((prefixes_differ _ _).0 (sym e))

legacy-apart :
    (v w : Vote)
    → legacy_bytes v.slot v.block_hash v.voter v.chain_id
      ≢ tendermint_bytes w.slot w.round w.vote_type w.block_hash w.voter w.chain_id
unfolding legacy_bytes tendermint_bytes
legacy-apart v w = (prefixes_differ _ _).1 w.vote_type

abbrev legacy : Vote → Bool
legacy v = v.round == 0 && is_prevote v.vote_type

legacy-fields : (v : Vote) → legacy v ≡ true → (v.round ≡ 0) × (v.vote_type ≡ prevote)
legacy-fields v e = (ground (arith, e), of_type v.vote_type refl)
  where
    of_type : (t : VoteType) → v.vote_type ≡ t → v.vote_type ≡ prevote
    of_type prevote f = f
    of_type precommit f = absurd (ground (arith, e, f))

signed_bytes-legacy :
    (v : Vote)
    → legacy v ≡ true
    → signed_bytes v ≡ legacy_bytes v.slot v.block_hash v.voter v.chain_id
unfolding signed_bytes
signed_bytes-legacy v e = rw e refl

signed_bytes-typed :
    (v : Vote)
    → legacy v ≡ false
    → signed_bytes v ≡ tendermint_bytes v.slot v.round v.vote_type v.block_hash v.voter v.chain_id
unfolding signed_bytes
signed_bytes-typed v e = rw e refl

-- Two votes whose fields fit their types and whose signatures cover the same bytes agree on slot,
-- block hash, voter, chain, round and type. So the bytes of a prevote are never those of a
-- precommit, nor of another round, height or chain.
pub signed_bytes-injective :
    (v w : Vote)
    → IsSized v
    → IsSized w
    → signed_bytes v ≡ signed_bytes w
    → IsSame v w × (v.round ≡ w.round) × (v.vote_type ≡ w.vote_type)
signed_bytes-injective v w p q e = elim (Bool-cases (legacy v)) [
  | inl a ↦ elim (Bool-cases (legacy w)) [
    | inl b ↦
        let same =
          legacy_bytes-injective v w p q
            (sym (signed_bytes-legacy v a) ∙ e ∙ signed_bytes-legacy w b) in
        let (round, kind) = legacy-fields v a in
        let (round', kind') = legacy-fields w b in (same, round ∙ sym round', kind ∙ sym kind')
    | inr b ↦ absurd (legacy-apart v w (sym (signed_bytes-legacy v a) ∙ e ∙ signed_bytes-typed w b))
  ]
  | inr a ↦ elim (Bool-cases (legacy w)) [
    | inl b ↦
        absurd (legacy-apart w v (sym (signed_bytes-legacy w b) ∙ sym e ∙ signed_bytes-typed v a))
    | inr b ↦
        typed_bytes-injective v w v.vote_type w.vote_type p q
          (sym (signed_bytes-typed v a) ∙ e ∙ signed_bytes-typed w b)
  ]
]
