-- ===== src/Runtime/Finality/Laws.antt =====
-- ace-runtime/src/consensus/finality.rs: the flags of the machine in each state, and its
-- effects over a run.
use ace_chain.Common.{
  ℕ, ◌+◌, ◌≤◌, ◌≡◌, ◌≢◌, refl, Bool, true, false, Option, none, List, [], ◌∷◌, arith,
}
use ace_chain.Runtime.Finality.{
  FinalityState, pending, soft, backup_wait, hard, rolled_back, is_terminal, FinalityEvent,
  block_received, finality_cert_received, builder_timeout, backup_timeout, FinalityAction,
  slash_builder, requeue_txs, slash_and_requeue, FinalityStateMachine, ProofVerifier, new, on_event,
}

-- What each state says of the flags: a hash is expected from `soft` on, and the builder is slashed
-- exactly on the way through `backup_wait`.
abbrev pub IsCoherent : FinalityState → Bool → Option ℕ → Type 0
IsCoherent pending slashed hash = (slashed ≡ false) × (hash ≡ none)
IsCoherent soft slashed hash = (slashed ≡ false) × (hash ≢ none)
IsCoherent backup_wait slashed hash = (slashed ≡ true) × (hash ≢ none)
IsCoherent hard slashed hash = hash ≢ none
IsCoherent rolled_back slashed hash = (slashed ≡ true) × (hash ≢ none)

abbrev pub IsValid : FinalityStateMachine → Type 0
IsValid m = IsCoherent m.state m.builder_slashed m.expected_block_hash

abbrev pub is_slash : FinalityAction → ℕ
is_slash slash_builder = 1
is_slash slash_and_requeue = 1
is_slash _ = 0

abbrev pub is_requeue : FinalityAction → ℕ
is_requeue requeue_txs = 1
is_requeue slash_and_requeue = 1
is_requeue _ = 0

abbrev bit : Bool → ℕ
bit true = 1
bit false = 0

-- 1 once the block is rolled back.
abbrev pub rolled : FinalityState → ℕ
rolled rolled_back = 1
rolled _ = 0

module _ {Block : Type 0} (v : ProofVerifier Block) where
  pub on_event-IsValid :
      (m : FinalityStateMachine) (e : FinalityEvent) → IsValid m → IsValid (on_event v m e).0
  unfolding on_event
  on_event-IsValid m (block_received votes total h) ok = ground arith
  on_event-IsValid m (finality_cert_received fc) ok = ground arith
  on_event-IsValid m builder_timeout ok = ground arith
  on_event-IsValid m backup_timeout ok = ground arith

  on_event-effects :
      (m : FinalityStateMachine) (e : FinalityEvent)
      → IsValid m
      → (bit m.builder_slashed + is_slash (on_event v m e).1
          ≡ bit (on_event v m e).0.builder_slashed)
        × (rolled m.state + is_requeue (on_event v m e).1 ≡ rolled (on_event v m e).0.state)
  unfolding on_event
  on_event-effects m (block_received votes total h) ok = ground arith
  on_event-effects m (finality_cert_received fc) ok = ground arith
  on_event-effects m builder_timeout ok = ground arith
  on_event-effects m backup_timeout ok = ground arith

  -- The events of a block's life, in order, with the side effects counted.
  unfoldable pub run :
      FinalityStateMachine
      → List FinalityEvent
      → record { machine : FinalityStateMachine; slashes : ℕ; requeues : ℕ }
  run m [] = record { machine = m; slashes = 0; requeues = 0 }
  run m (e ∷ es) =
      let r = run (on_event v m e).0 es in
      record {
        machine = r.machine;
        slashes = is_slash (on_event v m e).1 + r.slashes;
        requeues = is_requeue (on_event v m e).1 + r.requeues;
      }

  run_from_effects :
      (m : FinalityStateMachine) (es : List FinalityEvent)
      → IsValid m
      → IsValid (run m es).machine
        × (bit m.builder_slashed + (run m es).slashes ≡ bit (run m es).machine.builder_slashed)
        × (rolled m.state + (run m es).requeues ≡ rolled (run m es).machine.state)
  unfolding run
  run_from_effects m [] ok = (ok, omega arith, omega arith)
  run_from_effects m (e ∷ es) ok =
      let (valid, slashed, requeued) =
        run_from_effects (on_event v m e).0 es (on_event-IsValid m e ok) in
      (valid, omega (arith, on_event-effects m e ok), omega (arith, on_event-effects m e ok))

  -- Over any events from a new machine the builder is slashed at most once, the transactions
  -- are requeued once if the block ends rolled back and never otherwise, and never without the
  -- builder slashed.
  pub run_effects :
      (slot : ℕ) (es : List FinalityEvent)
      → let r = run (new slot) es in
        (r.slashes ≤ 1) × (r.requeues ≡ rolled r.machine.state) × (r.requeues ≤ r.slashes)
  unfolding new
  run_effects slot es =
      let (valid, slashed, requeued) = run_from_effects (new slot) es (refl, refl) in
      (ground arith, omega arith, ground arith)

  -- A terminal state is final: no events change the machine, slash the builder or requeue
  -- transactions.
  pub run_terminal :
      (m : FinalityStateMachine) (es : List FinalityEvent)
      → is_terminal m.state ≡ true
      → ((run m es).machine ≡ m) × ((run m es).slashes ≡ 0) × ((run m es).requeues ≡ 0)
  unfolding run on_event
  run_terminal m [] t = (refl, refl, refl)
  run_terminal m (e ∷ es) t =
      let h = run_terminal m es t in rw t (h.0, omega (arith, h.1), omega (arith, h.2))
