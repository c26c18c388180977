-- ===== src/Consensus/Tendermint/Tests.antt =====
-- Runs of the round state machine, on three validators of stake 100 each.
use ace_chain.Common.{◌≡◌, ◌≤◌, refl, false, none, some, List, [], ◌∷◌, arith, sum_of}
use ace_chain.Consensus.Validators.Samples.{three, three-IsDistinct}
use ace_chain.Consensus.Validators.Stake.{stake_of}
use ace_chain.Common.Assoc.{lookup, insert}
use ace_chain.Consensus.Vote
use ace_chain.Consensus.Vote.{VoteType, add_vote_raw}
use ace_chain.Consensus.Vote.Quorum.{quorum_block_hash}
use ace_chain.Consensus.Tendermint.{TendermintState, new, on_proposal, is_done}
use ace_chain.Consensus.Tendermint.Votes.{on_prevote, restore_lock}
use ace_chain.Consensus.Tendermint.Invariant.{Known, IsValid}
use ace_chain.Consensus.Tendermint.Run.{
  Event, got_proposal, got_prevote, got_precommit, certified_commit, restored_lock, run, AllAllowed,
  run-IsValid,
}
use ace_chain.Consensus.Tendermint.Locking.{KeepsLock, on_proposal-lock}
use ace_chain.Consensus.Tendermint.LockRound.{lock_rank, IsBehind, run-lock_rank}
use ace_chain.Consensus.Tendermint.OnceRun.{votes_in, votes_in-run-le-one}

-- A vote for a later round, the proposal and prevotes of one round, one precommit, and a commit
-- certificate before the other.
abbrev one_round : List Event
one_round =
    got_prevote 1 1 9 3 100
    ∷ got_proposal 1 0 7 none
    ∷ got_prevote 1 0 7 1 100
    ∷ got_prevote 1 0 7 2 100
    ∷ got_precommit 1 0 7 1 100
    ∷ certified_commit 1 0 7
    ∷ got_precommit 1 0 7 2 100
    ∷ []

-- The same with a lock from the log before it.
abbrev recovered : List Event
recovered = restored_lock 2 7 ∷ one_round

abbrev start : TendermintState
start = new 1 (sum_of stake_of three)

one_round-AllAllowed : AllAllowed three start one_round
one_round-AllAllowed = (refl, (tt, (refl, (refl, (refl, (tt, (refl, tt)))))))

recovered-AllAllowed : AllAllowed three start recovered
unfolding new
recovered-AllAllowed = (tt, (refl, (tt, (refl, (refl, (refl, (tt, (refl, tt))))))))

-- The certificates are for 7, and so is the lock.
abbrev on_seven : Known
on_seven = record { certified = λ h r b. b ≡ 7; restored = λ r b. b ≡ 7 }

run-IsValid_example : IsValid on_seven three (run (sum_of stake_of three) start recovered).0
run-IsValid_example =
    run-IsValid on_seven three three-IsDistinct (omega arith) 1 recovered
      (refl, (tt, (tt, (tt, (tt, (tt, (refl, (tt, tt)))))))) recovered-AllAllowed

votes_in-run-le-one_example :
    votes_in VoteType.precommit 1 0 (run (sum_of stake_of three) start recovered).1 ≤ 1
votes_in-run-le-one_example =
    votes_in-run-le-one three VoteType.precommit start recovered 1 0 recovered-AllAllowed

-- A restored lock of round 2 moves back to round 0 on a quorum for another hash there.
abbrev moved_back : List Event
moved_back =
    restored_lock 2 7
    ∷ got_proposal 1 0 8 none
    ∷ got_prevote 1 0 8 1 100
    ∷ got_prevote 1 0 8 2 100
    ∷ []

lock_moved_back :
    let t = (run (sum_of stake_of three) start moved_back).0 in
    (t.locked_round ≡ some 0) × (t.locked_hash ≡ some 8)
unfolding run new on_proposal on_prevote restore_lock Vote.new add_vote_raw quorum_block_hash lookup
    insert
lock_moved_back = (refl, refl)

-- Locked on 7 since round 0, in round 2.
abbrev locked_node : TendermintState
locked_node = record start {
  round = 2;
  locked_round = some 0;
  locked_hash = some 7;
  past_quorums = (1, 8) ∷ (0, 7) ∷ [];
}

on_proposal-lock_example :
    KeepsLock locked_node 7 0 (some 1) (on_proposal locked_node 1 2 8 (some 1))
unfolding new
on_proposal-lock_example = on_proposal-lock locked_node 1 2 8 7 0 (some 1) refl refl

run-lock_rank_example :
    let t = (run (sum_of stake_of three) start one_round).0 in
    (lock_rank start ≤ lock_rank t)
    × IsBehind t
    × (is_done t.step ≡ false → (is_done start.step ≡ false) × (start.round ≤ t.round))
    × (start.height ≡ t.height)
unfolding new
run-lock_rank_example =
    run-lock_rank three start one_round (tt, (tt, (tt, (tt, (tt, (tt, (tt, tt)))))))
      one_round-AllAllowed (λ o. omega arith)
