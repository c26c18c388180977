-- ===== src/Defi/Types.antt =====
-- ace-defi/src/error.rs and reserve.rs: the errors of the calls modelled and the records it keeps of reserves.
-- An external asset and a canonical one are numbers; the texts of the errors, also of the ledger's, are left out.
use ace_chain.Common.{ℕ}

pub data BridgeError : Type 0 where
  invalid_amount amount_too_small arithmetic_overflow mapping_mismatch : BridgeError
  mint_disabled withdraw_disabled deposit_paused withdraw_paused limit_exceeded : BridgeError
  invalid_destination invalid_deposit_proof invalid_canonical_symbol reserve_invariant_violation :
      BridgeError
  asset_not_mapped canonical_asset_not_found canonical_asset_inactive : ℕ → BridgeError
  canonical_asset_already_exists external_asset_already_mapped : ℕ → BridgeError
  invalid_decimals deposit_already_processed : ℕ → BridgeError
  insufficient_reserve insufficient_balance : ℕ → ℕ → BridgeError
  mint_error burn_error : BridgeError

pub record ReservePosition : Type 0 where
  pub external_asset : ℕ
  pub canonical_asset : ℕ
  pub total_deposited : ℕ
  pub total_withdrawn : ℕ
  pub pending_withdrawal : ℕ
  pub available : ℕ
  pub last_updated_slot : ℕ

pub record CanonicalSupply : Type 0 where
  pub canonical_asset : ℕ
  pub total_minted : ℕ
  pub total_burned : ℕ
  pub active_supply : ℕ
  pub safety_buffer : ℕ

pub record CanonicalReserveTotal : Type 0 where
  pub canonical_asset : ℕ
  pub backing_total : ℕ
