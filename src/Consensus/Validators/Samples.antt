-- ===== src/Consensus/Validators/Samples.antt =====
-- Validators for the tests: three with the identifiers 1, 2 and 3 and stake 100 each.
use ace_chain.Common.{ℕ, refl, false, List, [], ◌∷◌}
use ace_chain.Runtime.SigAlgo.{ed25519}
use ace_chain.Consensus.Validators.{Validator}
use ace_chain.Consensus.Validators.Order.{IsDistinct}

abbrev pub validator : ℕ → Validator
validator id = record {
  id_com = id;
  stake = 100;
  index = id;
  signing_pubkey = record { algorithm = ed25519; bytes = [] };
  capabilities = record { evm_core = false; btc_payments = false; solana_light = false };
}

abbrev pub three : List Validator
three = validator 1 ∷ validator 2 ∷ validator 3 ∷ []

pub three-IsDistinct : IsDistinct three
three-IsDistinct = (refl, (refl, (refl, tt)))
