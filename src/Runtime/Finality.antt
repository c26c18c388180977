-- ===== src/Runtime/Finality.antt =====
-- ace-runtime/src/types/finality.rs and ace-runtime/src/consensus/finality.rs: the finality state
-- machine of one block. The proof verifier is a trait object, and so a parameter; a `Block` is only
-- handed on to it, and so a type parameter.
pub mod Laws
mod Tests
use ace_chain.Common.{
  ℕ, Bool, true, false, not, ◌&&◌, Option, none, some, List, ◌==◌, if◌then◌else◌, opt_eq, length,
}
use ace_chain.Runtime.Quorum.{has_quorum}

pub data FinalityState : Type 0 where
  pending soft backup_wait hard rolled_back : FinalityState

abbrev pub is_terminal : FinalityState → Bool
is_terminal hard = true
is_terminal rolled_back = true
is_terminal _ = false

abbrev pub is_confirmed : FinalityState → Bool
is_confirmed soft = true
is_confirmed backup_wait = true
is_confirmed hard = true
is_confirmed _ = false

pub data FinalityProofMode : Type 0 where
  stark_v1 : FinalityProofMode

pub record FinalityCertificate : Type 0 where
  pub block_hash : ℕ
  pub slot : ℕ
  pub proof : List ℕ
  pub id_com_commitment : ℕ
  pub proof_mode : FinalityProofMode
  pub statement_root : ℕ
  pub tx_count : ℕ

unfoldable pub is_well_formed : FinalityCertificate → Bool
is_well_formed fc = elim fc.proof_mode [ stark_v1 ↦ not (length fc.proof == 0) ]

pub data FinalityEvent : Type 0 where
  block_received : ℕ → ℕ → ℕ → FinalityEvent
  finality_cert_received : FinalityCertificate → FinalityEvent
  builder_timeout backup_timeout : FinalityEvent

pub data FinalityAction : Type 0 where
  no_action slash_builder requeue_txs slash_and_requeue : FinalityAction

pub record FinalityStateMachine : Type 0 where
  pub state : FinalityState
  pub slot : ℕ
  pub builder_slashed : Bool
  pub expected_block_hash : Option ℕ
  pub invalid_fc_seen : Bool

pub record ProofVerifier (Block : Type 0) : Type 0 where
  pub verify_finality_certificate : FinalityCertificate → Bool
  pub verify_finality_certificate_for_block : FinalityCertificate → Block → Bool

unfoldable pub new : ℕ → FinalityStateMachine
new slot = record {
  state = pending;
  slot = slot;
  builder_slashed = false;
  expected_block_hash = none;
  invalid_fc_seen = false;
}

abbrev pub Outcome : Type 0
Outcome = FinalityStateMachine × FinalityAction

-- `match self.state` on one state.
abbrev pub is_pending : FinalityState → Bool
is_pending pending = true
is_pending _ = false

abbrev pub is_soft : FinalityState → Bool
is_soft soft = true
is_soft _ = false

abbrev pub is_backup_wait : FinalityState → Bool
is_backup_wait backup_wait = true
is_backup_wait _ = false

unfoldable pub on_block_received : FinalityStateMachine → ℕ → ℕ → ℕ → Outcome
unfolding has_quorum
on_block_received m votes total_stake block_hash =
    if not (is_pending m.state) then (m, no_action) else (
      if has_quorum votes total_stake
          then record m { state = soft; expected_block_hash = some block_hash }
          else m,
      no_action,
    )

-- The certificate is for this slot and block.
unfoldable pub context_valid : FinalityStateMachine → FinalityCertificate → Bool
context_valid m fc = fc.slot == m.slot && opt_eq m.expected_block_hash fc.block_hash

unfoldable pub on_builder_timeout : FinalityStateMachine → Outcome
on_builder_timeout m =
    if not (is_soft m.state)
    then (m, no_action)
    else if not m.builder_slashed
    then (record m { state = backup_wait; builder_slashed = true }, slash_builder)
    else (record m { state = backup_wait }, no_action)

unfoldable pub on_backup_timeout : FinalityStateMachine → Outcome
on_backup_timeout m =
    if not (is_backup_wait m.state)
    then (m, no_action)
    else (record m { state = rolled_back }, requeue_txs)

module _ {Block : Type 0} (v : ProofVerifier Block) where
  unfoldable pub fc_valid : FinalityStateMachine → FinalityCertificate → Option Block → Bool
  unfolding context_valid
  fc_valid m fc none = context_valid m fc && v.verify_finality_certificate fc
  fc_valid m fc (some b) = context_valid m fc && v.verify_finality_certificate_for_block fc b

  -- `on_finality_cert_received`, and `on_finality_certificate`, which only calls it.
  unfoldable pub on_finality_cert_received :
      FinalityStateMachine → FinalityCertificate → Option Block → Outcome
  unfolding fc_valid
  on_finality_cert_received m fc block =
      if is_soft m.state
      then (
        if fc_valid m fc block
            then record m { state = hard }
            else record m { invalid_fc_seen = true },
        no_action,
      )
      else if is_backup_wait m.state
      then (if fc_valid m fc block then record m { state = hard } else m, no_action)
      else (m, no_action)

  unfoldable pub dispatch : FinalityStateMachine → FinalityEvent → Outcome
  unfolding on_block_received on_finality_cert_received on_builder_timeout on_backup_timeout
  dispatch m (block_received votes total_stake block_hash) =
      on_block_received m votes total_stake block_hash
  dispatch m (finality_cert_received fc) = on_finality_cert_received m fc none
  dispatch m builder_timeout = on_builder_timeout m
  dispatch m backup_timeout = on_backup_timeout m

  unfoldable pub on_event : FinalityStateMachine → FinalityEvent → Outcome
  unfolding dispatch
  on_event m e = if is_terminal m.state then (m, no_action) else dispatch m e
