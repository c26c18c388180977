-- ===== src/Consensus/Tendermint/Timeouts.antt =====
-- ace-consensus/src/tendermint.rs: the invariant of the round state at the timeouts.
use ace_chain.Common.{
  ℕ, ◌+◌, ◌%◌, ◌<◌, ◌≡◌, refl, Bool, true, false, Option, none, List, arith, u32_mod, inl, inr,
  Bool-cases,
}
use ace_chain.Consensus.Validators.{Validator}
use ace_chain.Consensus.Tendermint.{
  TendermintState, RoundStep, is_done, is_propose, is_prevote, is_commit_wait, do_prevote,
  nil_block_hash,
}
use ace_chain.Consensus.Tendermint.Votes.{
  on_propose_timeout, on_prevote_timeout, on_precommit_timeout, on_commit_wait_timeout,
}
use ace_chain.Consensus.Tendermint.Invariant.{Phase, Known, IsValid, new_round-IsValid}
use ace_chain.Consensus.Tendermint.Handlers.{nil_precommit-IsValid}
use ace_chain.Consensus.Tendermint.Counting.{Phase-open, Phase-done}
use ace_chain.Consensus.Tendermint.Once.{propose-open}

Phase-propose :
    (st : RoundStep) (r p c : Bool) (h : Option ℕ)
    → is_propose st ≡ true
    → Phase st r p c h
    → (p ≡ false) × (c ≡ false) × (h ≡ none)
Phase-propose st r p c h e ph = ground arith

module _ (known : Known) (vs : List Validator) (s : TendermintState) (v : IsValid known vs s) where
  pub on_propose_timeout-IsValid : IsValid known vs (on_propose_timeout s).0
  unfolding on_propose_timeout do_prevote
  on_propose_timeout-IsValid = elim (Bool-cases (is_propose s.step)) [
    | inr e ↦ rw e v
    | inl e ↦
        let (pv, pc, ch) =
          Phase-propose s.step s.proposal_received s.prevoted s.precommitted s.committed_hash e
            v.phase in
        rw (e, pv)
          (record {
            phase = (refl, pc, ch);
            lock = v.lock;
            past = λ _. v.past (propose-open s.step e);
            prevotes = v.prevotes;
            precommits = v.precommits;
            total = v.total;
            buffered = v.buffered;
            backed = v.backed;
          })
  ]

  pub on_prevote_timeout-IsValid : IsValid known vs (on_prevote_timeout s).0
  unfolding on_prevote_timeout
  on_prevote_timeout-IsValid = elim (Bool-cases (is_prevote s.step)) [
    | inr e ↦ rw e v
    | inl e ↦ rw e (nil_precommit-IsValid known vs s nil_block_hash e v)
  ]

  pub on_precommit_timeout-IsValid :
      s.round + 1 < u32_mod → IsValid known vs (on_precommit_timeout s).0
  unfolding on_precommit_timeout
  on_precommit_timeout-IsValid small = elim (Bool-cases (is_done s.step)) [
    | inl d ↦ rw d v
    | inr d ↦ rw d (
        new_round-IsValid known vs s ((s.round + 1) % u32_mod) (omega arith) d
          (Phase-open s.step s.proposal_received s.prevoted s.precommitted s.committed_hash d
            v.phase)
          v)
  ]

  pub on_commit_wait_timeout-IsValid : IsValid known vs (on_commit_wait_timeout s).0
  unfolding on_commit_wait_timeout
  on_commit_wait_timeout-IsValid = elim (Bool-cases (is_commit_wait s.step)) [
    | inr e ↦ rw e v
    | inl e ↦ rw e (record {
      phase =
          Phase-done s.step s.proposal_received s.prevoted s.precommitted s.committed_hash e
            v.phase;
      lock = v.lock;
      past = λ o. cc;
      prevotes = v.prevotes;
      precommits = v.precommits;
      total = v.total;
      buffered = v.buffered;
      backed = v.backed;
    })
  ]
