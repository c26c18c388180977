-- ===== src/Consensus/Admission/Tests.antt =====
-- ace-consensus/src/admission.rs: runs of a controller for a hundred nodes.
use ace_chain.Common.{◌≡◌, refl}
use ace_chain.Consensus.Admission.{new, expansion, decide, on_epoch_boundary}

-- A load of twice the target opens twenty slots.
spike : (on_epoch_boundary (new 100) 0 400000000 100).1.slots_to_release ≡ 20
unfolding on_epoch_boundary decide expansion new
spike = refl
