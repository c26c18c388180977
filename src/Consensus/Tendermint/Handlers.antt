-- ===== src/Consensus/Tendermint/Handlers.antt =====
-- ace-consensus/src/tendermint.rs: the invariant of the round state at the ends of the vote
-- handlers and in the buffer of votes.
use ace_chain.Common.{
  ℕ, ◌≡◌, refl, Bool, true, false, Option, none, some, List, [], ◌∷◌, ◌++◌, arith, All, inl, inr,
  Bool-cases, ◌==◌, leb,
}
use native.Mathlib.Nat.{le_refl}
use ace_chain.Common.Assoc.{Map, lookup, insert, remove}
use ace_chain.Consensus.Validators.{Validator}
use ace_chain.Consensus.Tendermint.{
  TendermintState, RoundStep, prevote, precommit, BufferedVote, nil_block_hash, is_prevote,
  no_action, do_precommit, seen_quorum,
}
use ace_chain.Consensus.Tendermint.Votes.{
  or_empty, buffer_vote, late_prevote, saw_quorum, lock_on, after_prevote, retain_from,
}
use ace_chain.Consensus.Tendermint.Invariant.{Phase, Known, LockIn, Canonical, IsValid}

-- With a valid phase the end of `on_prevote` never votes: a proposal that is held was voted for
-- when it came.
pub late_prevote-eq :
    (s : TendermintState)
    → Phase s.step s.proposal_received s.prevoted s.precommitted s.committed_hash
    → late_prevote s ≡ (s, no_action)
unfolding late_prevote
late_prevote-eq s ph = ground arith

Phase-prevote :
    (st : RoundStep) (r p c : Bool) (h : Option ℕ)
    → is_prevote st ≡ true
    → Phase st r p c h
    → (st ≡ prevote) × (p ≡ true) × (c ≡ false) × (h ≡ none)
Phase-prevote st r p c h e ph = ground arith

module _ (vs : List Validator) where
  -- The buffered votes stay at their voters' stakes.
  abbrev pub AreCanonical : Map (List BufferedVote) → Type 0
  AreCanonical m = All (λ e. All (Canonical vs) e.1) m

  push-Canonical :
      (ws : List BufferedVote) (w : BufferedVote)
      → All (Canonical vs) ws
      → Canonical vs w
      → All (Canonical vs) (ws ++ w ∷ [])
  push-Canonical [] w h p = (p, tt)
  push-Canonical (x ∷ xs) w h p = (h.0, push-Canonical xs w h.1 p)

  pub lookup-Canonical :
      (r : ℕ) (m : Map (List BufferedVote))
      → AreCanonical m
      → All (Canonical vs) (or_empty (lookup r m))
  unfolding lookup
  lookup-Canonical r [] h = tt
  lookup-Canonical r ((q, ws) ∷ m) h = elim (Bool-cases (q == r)) [
    | inl e ↦ rw e h.0
    | inr e ↦ rw e (lookup-Canonical r m h.1)
  ]

  insert-Canonical :
      (r : ℕ) (ws : List BufferedVote) (m : Map (List BufferedVote))
      → AreCanonical m
      → All (Canonical vs) ws
      → AreCanonical (insert r ws m)
  unfolding insert
  insert-Canonical r ws [] h p = (p, tt)
  insert-Canonical r ws ((q, xs) ∷ m) h p = elim (Bool-cases (q == r)) [
    | inl e ↦ rw e (p, h.1)
    | inr e ↦ rw e (h.0, insert-Canonical r ws m h.1 p)
  ]

  pub remove-Canonical :
      (r : ℕ) (m : Map (List BufferedVote)) → AreCanonical m → AreCanonical (remove r m)
  unfolding remove
  remove-Canonical r [] h = tt
  remove-Canonical r ((q, xs) ∷ m) h = elim (Bool-cases (q == r)) [
    | inl e ↦ rw e (remove-Canonical r m h.1)
    | inr e ↦ rw e (h.0, remove-Canonical r m h.1)
  ]

  pub retain-Canonical :
      (r : ℕ) (m : Map (List BufferedVote)) → AreCanonical m → AreCanonical (retain_from r m)
  unfolding retain_from
  retain-Canonical r [] h = tt
  retain-Canonical r ((q, xs) ∷ m) h = elim (Bool-cases (leb r q)) [
    | inl e ↦ rw e (h.0, retain-Canonical r m h.1)
    | inr e ↦ rw e (retain-Canonical r m h.1)
  ]

module _ (known : Known) (vs : List Validator) where
  pub buffer_vote-IsValid :
      (s : TendermintState) (r : ℕ) (w : BufferedVote)
      → Canonical vs w
      → IsValid known vs s
      → IsValid known vs (buffer_vote s r w)
  unfolding buffer_vote
  buffer_vote-IsValid s r w p v = record {
    phase = v.phase;
    lock = v.lock;
    past = v.past;
    prevotes = v.prevotes;
    precommits = v.precommits;
    total = v.total;
    buffered =
        insert-Canonical vs r (or_empty (lookup r s.future_votes) ++ w ∷ []) s.future_votes
          v.buffered
          (push-Canonical vs (or_empty (lookup r s.future_votes)) w
            (lookup-Canonical vs r s.future_votes v.buffered) p);
    backed = v.backed;
  }

  -- Remembering a quorum of this round.
  saw_quorum-IsValid :
      (s : TendermintState) (q : ℕ) → IsValid known vs s → IsValid known vs (saw_quorum s q)
  unfolding saw_quorum seen_quorum
  saw_quorum-IsValid s q v = record {
    phase = v.phase;
    lock = keep s.locked_round s.locked_hash v.lock;
    past = λ o. (le_refl s.round, v.past o);
    prevotes = v.prevotes;
    precommits = v.precommits;
    total = v.total;
    buffered = v.buffered;
    backed = v.backed;
  }
    where
      keep :
          (lr lh : Option ℕ)
          → LockIn known s.past_quorums lr lh
          → LockIn known ((s.round, q) ∷ s.past_quorums) lr lh
      keep none none h = tt
      keep (some r) (some k) (inl e) = inl (ground arith)
      keep (some r) (some k) (inr e) = inr e
      keep none (some k) h = h
      keep (some r) none h = h

  -- The two precommits of `on_prevote` and the one of its timeout.
  lock_precommit-IsValid :
      (s : TendermintState) (q : ℕ)
      → is_prevote s.step ≡ true
      → IsValid known vs s
      → IsValid known vs (do_precommit (lock_on (saw_quorum s q) q) q).0
  unfolding do_precommit lock_on saw_quorum seen_quorum
  lock_precommit-IsValid s q e v =
      let (st, pv, pc, ch) =
        Phase-prevote s.step s.proposal_received s.prevoted s.precommitted s.committed_hash e
          v.phase in
      rw pc (record {
        phase = (pv, refl, ch);
        lock = inl (ground arith);
        past = λ _. (le_refl s.round, v.past (rw st refl));
        prevotes = v.prevotes;
        precommits = v.precommits;
        total = v.total;
        buffered = v.buffered;
        backed = v.backed;
      })

  pub nil_precommit-IsValid :
      (s : TendermintState) (q : ℕ)
      → is_prevote s.step ≡ true
      → IsValid known vs s
      → IsValid known vs (do_precommit (record s { step = precommit }) q).0
  unfolding do_precommit
  nil_precommit-IsValid s q e v =
      let (st, pv, pc, ch) =
        Phase-prevote s.step s.proposal_received s.prevoted s.precommitted s.committed_hash e
          v.phase in
      rw pc (record {
        phase = (pv, refl, ch);
        lock = v.lock;
        past = λ _. v.past (rw st refl);
        prevotes = v.prevotes;
        precommits = v.precommits;
        total = v.total;
        buffered = v.buffered;
        backed = v.backed;
      })

  late-IsValid : (s : TendermintState) → IsValid known vs s → IsValid known vs (late_prevote s).0
  late-IsValid s v = rw (late_prevote-eq s v.phase) v

  pub after_prevote-IsValid :
      (s : TendermintState) (o : Option ℕ)
      → IsValid known vs s
      → IsValid known vs (after_prevote s o).0
  unfolding after_prevote
  after_prevote-IsValid s none v = late-IsValid s v
  after_prevote-IsValid s (some q) v = elim (Bool-cases (q == nil_block_hash)) [
    | inl e ↦ elim (Bool-cases (is_prevote s.step)) [
      | inl p ↦ rw (e, p) (nil_precommit-IsValid s nil_block_hash p v)
      | inr p ↦ rw (e, p) (late-IsValid s v)
    ]
    | inr e ↦ elim (Bool-cases (is_prevote s.step)) [
      | inl p ↦ rw (e, p) (lock_precommit-IsValid s q p v)
      | inr p ↦ rw (e, p) (late-IsValid (saw_quorum s q) (saw_quorum-IsValid s q v))
    ]
  ]
