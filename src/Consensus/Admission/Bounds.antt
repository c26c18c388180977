-- ===== src/Consensus/Admission/Bounds.antt =====
-- ace-consensus/src/admission.rs: the bounds of the quota over epochs.
use ace_chain.Common.{
  ℕ, ◌+◌, ◌/◌, ◌≤◌, ◌≡◌, refl, Bool, true, false, List, [], ◌∷◌, ◌==◌, if◌then◌else◌, min, max,
  arith,
}
use ace_chain.Consensus.Admission.{
  AdmissionController, AdmissionDecision, hard_cap_active_nodes, new, expansion, decide,
  on_epoch_boundary, next_ema, current_load_bps, held_decision,
}

-- At most 100 slots, and no more than a fifth of the active nodes or one.
expansion_bounds :
    (load active : ℕ)
    → (1 ≤ expansion load active)
      × (expansion load active ≤ 100)
      × (expansion load active ≤ max (active / 5) 1)
unfolding expansion
expansion_bounds load active = (omega arith, omega arith, omega arith)

-- What an epoch does to the quota, given the number of active nodes.
pub record Epoch (active : ℕ) (a : AdmissionController) (b : AdmissionController)
    (d : AdmissionDecision) : Type 0 where
  pub grown : b.active_target ≡ a.active_target + d.slots_to_release
  pub counted : b.total_slots_released ≡ a.total_slots_released + d.slots_to_release
  pub capped : b.active_target ≤ hard_cap_active_nodes
  pub limited : d.slots_to_release ≤ min 100 (max (active / 5) 1)
  pub reported : d.new_active_target ≡ b.active_target
  pub quiet : d.expanding ≡ false → d.slots_to_release ≡ 0
  pub loud : d.expanding ≡ true → 1 ≤ d.slots_to_release

abbrev Decided : ℕ → AdmissionController → AdmissionController × AdmissionDecision → Type 0
Decided active a r = Epoch active a (r.0) (r.1)

decide-Epoch :
    (a : AdmissionController) (active : ℕ)
    → a.active_target ≤ hard_cap_active_nodes
    → a.total_slots_released ≤ hard_cap_active_nodes
    → Epoch active a (decide a active).0 (decide a active).1
unfolding decide
decide-Epoch a active p q =
    let (some_slots, few, share) = expansion_bounds a.load_ema_bps active in
    record {
      grown = ground (arith, p, some_slots, few);
      counted = ground (arith, p, q, some_slots, few);
      capped = ground (arith, p);
      limited = ground (arith, p, few, share);
      reported = ground arith;
      quiet = λ e. ground (arith, e);
      loud = λ e. ground (arith, e, some_slots, p);
    }

-- An epoch's end, of a controller within its cap and with as many slots released, raises the quota by
-- the slots it releases, counts them, and keeps to the cap; it releases at most 100 slots and at most
-- a fifth of the active nodes, or one; and it releases some exactly when it says that it expands.
pub on_epoch_boundary-Epoch :
    (a : AdmissionController) (epoch txs active : ℕ)
    → a.active_target ≤ hard_cap_active_nodes
    → a.total_slots_released ≤ hard_cap_active_nodes
    → Epoch active a
        (on_epoch_boundary a epoch txs active).0
        (on_epoch_boundary a epoch txs active).1
unfolding on_epoch_boundary decide
on_epoch_boundary-Epoch a epoch txs active p q = go (active == 0)
  where
    go :
        (idle : Bool)
        → Decided active a (
            let updated = record a {
              load_ema_bps = next_ema a.load_ema_bps (current_load_bps txs active);
              last_adjustment_epoch = epoch;
            } in
            if idle
            then (a, record (held_decision a) { load_factor_bps = 0 })
            else decide updated active)
    go true = record {
      grown = omega arith;
      counted = omega arith;
      capped = p;
      limited = omega arith;
      reported = refl;
      quiet = λ e. refl;
      loud = λ e. cc e;
    }
    go false =
        let u = record a {
          load_ema_bps = next_ema a.load_ema_bps (current_load_bps txs active);
          last_adjustment_epoch = epoch;
        } in
        let w = decide-Epoch u active p q in
        record {
          grown = w.grown;
          counted = w.counted;
          capped = w.capped;
          limited = w.limited;
          reported = w.reported;
          quiet = w.quiet;
          loud = w.loud;
        }

-- The controller over a list of epochs, each with its number, transactions and active nodes.
unfoldable pub on_epochs : AdmissionController → List (ℕ × ℕ × ℕ) → AdmissionController
on_epochs a [] = a
on_epochs a ((epoch, txs, active) ∷ rest) = on_epochs (on_epoch_boundary a epoch txs active).0 rest

WithinCap : ℕ → AdmissionController → Type 0
WithinCap initial a =
    (a.active_target ≡ initial + a.total_slots_released) × (a.active_target ≤ hard_cap_active_nodes)

run-WithinCap :
    (initial : ℕ) (a : AdmissionController) (epochs : List (ℕ × ℕ × ℕ))
    → WithinCap initial a
    → WithinCap initial (on_epochs a epochs)
unfolding on_epochs WithinCap
run-WithinCap initial a [] w = w
run-WithinCap initial a ((epoch, txs, active) ∷ rest) (sum, cap) =
    let e = on_epoch_boundary-Epoch a epoch txs active cap (omega (arith, sum, cap)) in
    run-WithinCap initial (on_epoch_boundary a epoch txs active).0 rest
      (omega (arith, sum, e.grown, e.counted), e.capped)

-- Over any epochs of a new controller the quota is its first quota and all the slots released since,
-- and never above the cap.
pub on_epochs-quota :
    (initial : ℕ) (epochs : List (ℕ × ℕ × ℕ))
    → let a = on_epochs (new initial) epochs in
      (a.active_target ≡ min initial hard_cap_active_nodes + a.total_slots_released)
      × (a.active_target ≤ hard_cap_active_nodes)
unfolding WithinCap new
on_epochs-quota initial epochs =
    run-WithinCap (min initial hard_cap_active_nodes) (new initial) epochs
      (omega arith, omega arith)
