-- ===== src/Consensus/Tendermint/Locking.antt =====
-- ace-consensus/src/tendermint.rs: what a locked node prevotes for.
use ace_chain.Common.{
  ℕ, ◌≤◌, ◌≡◌, refl, true, Option, none, some, arith, ◌⊎◌, inl, inr, Bool-cases, ◌==◌, leb, not,
  leb→le, ==_iff, ◌||◌,
}
use ace_chain.Consensus.Tendermint.{
  TendermintState, TendermintAction, no_action, broadcast_prevote, nil_block_hash, seen_quorum,
  prevote_choice, on_proposal, do_prevote, is_propose,
}

-- The hash is nil, or the locked one, or one for which a quorum of prevotes was seen in a round not
-- before that of the lock, which the proposal names.
abbrev pub Unlocks : TendermintState → ℕ → ℕ → Option ℕ → ℕ → Type 0
Unlocks s locked lr valid_round hash =
    (hash ≡ nil_block_hash)
    ⊎ ((hash ≡ locked)
        ⊎ ((r : ℕ) × (valid_round ≡ some r)
            × (lr ≤ r)
            × (seen_quorum s.past_quorums r hash ≡ true)))

prevote_choice-Unlocks :
    (s : TendermintState) (block_hash locked lr : ℕ) (valid_round : Option ℕ)
    → s.locked_hash ≡ some locked
    → s.locked_round ≡ some lr
    → Unlocks s locked lr valid_round (prevote_choice s block_hash valid_round)
unfolding prevote_choice
prevote_choice-Unlocks s b locked lr none e f = rw e (ground arith)
prevote_choice-Unlocks s b locked lr (some vr) e f = elim (Bool-cases (b == locked)) [
  | inl same ↦ rw (e, f, same) (inr (inl ((==_iff b locked).0 same)))
  | inr other ↦ elim (Bool-cases (leb lr vr)) [
    | inr early ↦ rw (e, f, other, early) (inl refl)
    | inl late ↦ elim (Bool-cases (seen_quorum s.past_quorums vr b)) [
      | inr unseen ↦ rw (e, f, other, late, unseen) (inl refl)
      | inl seen ↦ rw (e, f, other, late, seen) (inr (inr (vr, refl, leb→le lr vr late, seen)))
    ]
  ]
]

-- What a locked node may do with a proposal: keep its lock, and send at most one prevote, for a hash
-- that the lock allows.
abbrev pub KeepsLock :
    TendermintState → ℕ → ℕ → Option ℕ → TendermintState × TendermintAction → Type 0
KeepsLock s locked lr valid_round (t, a) =
    (t.locked_hash ≡ some locked)
    × (t.locked_round ≡ some lr)
    × ((a ≡ no_action)
        ⊎ (hash : ℕ) × (a ≡ broadcast_prevote s.height s.round hash)
          × Unlocks s locked lr valid_round hash)

do_prevote-KeepsLock :
    (s t : TendermintState) (locked lr hash : ℕ) (valid_round : Option ℕ)
    → t.locked_hash ≡ some locked
    → t.locked_round ≡ some lr
    → t.height ≡ s.height
    → t.round ≡ s.round
    → Unlocks s locked lr valid_round hash
    → KeepsLock s locked lr valid_round (do_prevote t hash)
unfolding do_prevote
do_prevote-KeepsLock s t locked lr hash valid_round e f h r u = elim (Bool-cases t.prevoted) [
  | inl out ↦ rw out (e, f, inl refl)
  | inr fresh ↦ rw (fresh, h, r) (e, f, inr (hash, refl, u))
]

-- A locked node that is handed a proposal keeps its lock, and what it prevotes for, if it does, is
-- nil, or the hash that it is locked on, or another for which it saw a quorum of prevotes itself, in
-- a round that the proposal names and that is not before that of the lock.
pub on_proposal-lock :
    (s : TendermintState) (height round block_hash locked lr : ℕ) (valid_round : Option ℕ)
    → s.locked_hash ≡ some locked
    → s.locked_round ≡ some lr
    → KeepsLock s locked lr valid_round (on_proposal s height round block_hash valid_round)
unfolding on_proposal
on_proposal-lock s height round b locked lr vr e f =
    elim (Bool-cases (not (height == s.height) || not (round == s.round))) [
      | inl far ↦ rw far (e, f, inl refl)
      | inr here ↦ elim (Bool-cases s.proposal_received) [
        | inl had ↦ rw (here, had) (e, f, inl refl)
        | inr new ↦ elim (Bool-cases (not (is_propose s.step))) [
          | inl past ↦ rw (here, new, past) (e, f, inl refl)
          | inr now ↦
              rw (here, new, now)
                (do_prevote-KeepsLock s
                  (record s { proposal_hash = some b; proposal_received = true }) locked lr
                  (prevote_choice s b vr) vr e f refl refl
                  (prevote_choice-Unlocks s b locked lr vr e f))
        ]
      ]
    ]
