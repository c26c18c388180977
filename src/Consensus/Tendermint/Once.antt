-- ===== src/Consensus/Tendermint/Once.antt =====
-- ace-consensus/src/tendermint.rs: the votes that one handler sends, against what the state
-- may still send for its height and round.
use ace_chain.Common.{
  ℕ, ◌+◌, ◌≤◌, ◌≡◌, refl, Bool, true, false, ◌&&◌, Option, none, some, arith, ◌==◌, if◌then◌else◌,
  ltb, inl, inr, Bool-cases,
}
use ace_chain.Consensus.Vote.{VoteType, VoteCollector, add_vote_raw}
use ace_chain.Consensus.Vote.Quorum.{quorum_block_hash}
use ace_chain.Consensus.Tendermint.{
  TendermintState, TendermintAction, broadcast_prevote, broadcast_precommit, on_proposal,
  do_prevote, do_precommit, BufferedVote, prevote_choice, RoundStep, is_done, is_propose,
  is_prevote,
}
use ace_chain.Consensus.Tendermint.Votes.{
  late_prevote, after_prevote, on_prevote, after_precommit, on_precommit, buffer_vote, saw_quorum,
  lock_on,
}

abbrev pub flag : VoteType → TendermintState → Bool
flag VoteType.prevote s = s.prevoted
flag VoteType.precommit s = s.precommitted

abbrev pub bit : Bool → ℕ
bit true = 1
bit false = 0

-- 1 if the action sends a vote of that kind for that height and round.
abbrev pub votes_at : VoteType → ℕ → ℕ → TendermintAction → ℕ
votes_at VoteType.prevote h r (broadcast_prevote g q _) = if g == h && q == r then 1 else 0
votes_at VoteType.precommit h r (broadcast_precommit g q _) = if g == h && q == r then 1 else 0
votes_at _ h r _ = 0

-- How many votes of that kind a state may have sent for `h` and `r` at most: one in the past, none in
-- the future, and as its flag says in the current round; at the height it commits, none is to come.
abbrev pub limit : VoteType → ℕ → ℕ → TendermintState → ℕ
limit k h r s =
    if ltb h s.height
    then 1
    else if ltb s.height h
    then 0
    else if is_done s.step
    then 1
    else if ltb r s.round
    then 1
    else if ltb s.round r
    then 0
    else bit (flag k s)

-- What is sent counts against the limit.
abbrev pub Sends : VoteType → TendermintState → TendermintState × TendermintAction → Type 0
Sends k s (t, a) = (h r : ℕ) → votes_at k h r a + limit k h r s ≤ limit k h r t

pub propose-open : (st : RoundStep) → is_propose st ≡ true → is_done st ≡ false
propose-open st e = ground arith

pub prevote-open : (st : RoundStep) → is_prevote st ≡ true → is_done st ≡ false
prevote-open st e = ground arith

pub do_prevote-Sends :
    (k : VoteType) (s : TendermintState) (b : ℕ)
    → is_done s.step ≡ false
    → Sends k s (do_prevote s b)
unfolding do_prevote
do_prevote-Sends VoteType.prevote s b o h r = ground arith
do_prevote-Sends VoteType.precommit s b o h r = ground arith

pub do_precommit-Sends :
    (k : VoteType) (s : TendermintState) (b : ℕ)
    → is_done s.step ≡ false
    → Sends k s (do_precommit s b)
unfolding do_precommit
do_precommit-Sends VoteType.prevote s b o h r = ground arith
do_precommit-Sends VoteType.precommit s b o h r = ground arith

pub on_proposal-Sends :
    (k : VoteType) (s : TendermintState) (height round b : ℕ) (vr : Option ℕ)
    → Sends k s (on_proposal s height round b vr)
unfolding on_proposal
on_proposal-Sends k s height round b vr h r = elim (Bool-cases (is_propose s.step)) [
  | inl e ↦ ground (
    arith,
    do_prevote-Sends k (record s { proposal_hash = some b; proposal_received = true })
        (prevote_choice s b vr) (propose-open s.step e) h r,
  )
  | inr e ↦ ground (arith, e)
]

late_prevote-Sends :
    (k : VoteType) (s : TendermintState) → is_done s.step ≡ false → Sends k s (late_prevote s)
unfolding late_prevote
late_prevote-Sends k s o h r = grind (arith, do_prevote-Sends)

-- States that differ in nothing that the limit reads.
abbrev pub SameLimits : TendermintState → TendermintState → Type 0
SameLimits s t = (k : VoteType) (h r : ℕ) → limit k h r s ≡ limit k h r t

saw_quorum-SameLimits : (s : TendermintState) (q : ℕ) → SameLimits s (saw_quorum s q)
unfolding saw_quorum
saw_quorum-SameLimits s q VoteType.prevote h r = refl
saw_quorum-SameLimits s q VoteType.precommit h r = refl

lock_on-SameLimits :
    (s : TendermintState) (q : ℕ) → is_done s.step ≡ false → SameLimits s (lock_on s q)
unfolding lock_on
lock_on-SameLimits s q o VoteType.prevote h r = rw o refl
lock_on-SameLimits s q o VoteType.precommit h r = rw o refl

pub step-SameLimits :
    (s : TendermintState)
    → is_done s.step ≡ false
    → SameLimits s (record s { step = RoundStep.precommit })
step-SameLimits s o VoteType.prevote h r = rw o refl
step-SameLimits s o VoteType.precommit h r = rw o refl

prevotes-SameLimits :
    (s : TendermintState) (c : VoteCollector) → SameLimits s (record s { prevotes = c })
prevotes-SameLimits s c VoteType.prevote h r = refl
prevotes-SameLimits s c VoteType.precommit h r = refl

precommits-SameLimits :
    (s : TendermintState) (c : VoteCollector) → SameLimits s (record s { precommits = c })
precommits-SameLimits s c VoteType.prevote h r = refl
precommits-SameLimits s c VoteType.precommit h r = refl

buffer_vote-SameLimits :
    (s : TendermintState) (round : ℕ) (w : BufferedVote) → SameLimits s (buffer_vote s round w)
unfolding buffer_vote
buffer_vote-SameLimits s round w VoteType.prevote h r = refl
buffer_vote-SameLimits s round w VoteType.precommit h r = refl

after_prevote-Sends :
    (k : VoteType) (s : TendermintState) (o : Option ℕ)
    → is_done s.step ≡ false
    → Sends k s (after_prevote s o)
unfolding after_prevote saw_quorum lock_on
after_prevote-Sends k s none u h r = late_prevote-Sends k s u h r
after_prevote-Sends k s (some q) u h r = ground (
  arith,
  late_prevote-Sends k s u h r,
  late_prevote-Sends k (saw_quorum s q) u h r,
  do_precommit-Sends k (lock_on (saw_quorum s q) q) q refl h r,
  do_precommit-Sends k (record s { step = RoundStep.precommit }) 0 refl h r,
  saw_quorum-SameLimits s q k h r,
  lock_on-SameLimits (saw_quorum s q) q u k h r,
  step-SameLimits s u k h r,
)

pub on_prevote-Sends :
    (k : VoteType) (s : TendermintState) (height round b voter stake : ℕ)
    → Sends k s (on_prevote s height round b voter stake)
unfolding on_prevote
on_prevote-Sends k s height round b voter stake h r =
    let c = (add_vote_raw s.prevotes voter b stake).0 in
    elim (Bool-cases (is_done s.step)) [
      | inl e ↦ ground (arith, e, buffer_vote-SameLimits s round (voter, b, stake, false) k h r)
      | inr e ↦ ground (
        arith,
        after_prevote-Sends k (record s { prevotes = c }) (quorum_block_hash c) e h r,
        prevotes-SameLimits s c k h r,
        buffer_vote-SameLimits s round (voter, b, stake, false) k h r,
      )
    ]

after_precommit-Sends :
    (k : VoteType) (s : TendermintState) (o : Option ℕ) → Sends k s (after_precommit s o)
unfolding after_precommit
after_precommit-Sends VoteType.prevote s none h r = ground arith
after_precommit-Sends VoteType.precommit s none h r = ground arith
after_precommit-Sends VoteType.prevote s (some q) h r = ground arith
after_precommit-Sends VoteType.precommit s (some q) h r = ground arith

pub on_precommit-Sends :
    (k : VoteType) (s : TendermintState) (height round b voter stake : ℕ)
    → Sends k s (on_precommit s height round b voter stake)
unfolding on_precommit
on_precommit-Sends k s height round b voter stake h r =
    let c = (add_vote_raw s.precommits voter b stake).0 in
    ground (
      arith,
      after_precommit-Sends k (record s { precommits = c }) (quorum_block_hash c) h r,
      precommits-SameLimits s c k h r,
      buffer_vote-SameLimits s round (voter, b, stake, true) k h r,
    )
