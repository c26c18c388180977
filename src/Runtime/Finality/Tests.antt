-- ===== src/Runtime/Finality/Tests.antt =====
-- Runs of the finality state machine, with a verifier that takes the certificates of a proof of two
-- bytes.
use ace_chain.Common.{ℕ, ◌≤◌, ◌≡◌, ◌==◌, List, [], ◌∷◌, length}
use ace_chain.Runtime.Finality.{
  FinalityEvent, ProofVerifier, block_received, builder_timeout, backup_timeout, new,
}
use ace_chain.Runtime.Finality.Laws.{rolled, run, run_effects}

abbrev verifier : ProofVerifier ℕ
verifier = record {
  verify_finality_certificate = λ fc. length fc.proof == 2;
  verify_finality_certificate_for_block = λ fc b. length fc.proof == b;
}

abbrev late : List FinalityEvent
late = block_received 200 300 7 ∷ builder_timeout ∷ builder_timeout ∷ backup_timeout ∷ []

run_effects_example :
    let r = run verifier (new 5) late in
    (r.slashes ≤ 1) × (r.requeues ≡ rolled r.machine.state) × (r.requeues ≤ r.slashes)
run_effects_example = run_effects verifier 5 late
