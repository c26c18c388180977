-- ===== src/Defi/Deposit.antt =====
-- ace-defi/src/deposit.rs: a signed deposit of an external asset mints its canonical asset. A call that
-- fails is rolled back, so its result has no state. The check of a relayer's signature over the hash of
-- a deposit is a parameter.
use ace_chain.Common.{ℕ, Bool, true, not, ◌&&◌, ◌==◌, if◌then◌else◌}
use ace_chain.Common.Results.{Result, ok, ◌>>=◌, ◌>>◌, guard, ok_or}
use ace_chain.Vm.Token.{Tokens, mint_to_owner}
use ace_chain.Defi.Ledger.{tokens_or}
use ace_chain.Defi.Types.{
  BridgeError, invalid_amount, invalid_deposit_proof, deposit_already_processed, asset_not_mapped,
  mint_disabled, canonical_asset_not_found, canonical_asset_inactive, mint_error,
}
use ace_chain.Defi.Assets.{ExternalAsset, key_of}
use ace_chain.Defi.Amounts.{normalize_amount}
use ace_chain.Defi.Risk.{Counters, check_and_record_deposit}
use ace_chain.Defi.Reserve.{Reserves, record_deposit, increase_supply, check_invariant}
use ace_chain.Defi.Canonical.{
  Bridge, Hashes, CanonicalAsset, ExternalAssetMapping, get_canonical_asset, get_mapping,
}

pub record DepositRecord : Type 0 where
  pub deposit_id : ℕ
  pub intent_id : ℕ
  pub asset : ExternalAsset
  pub amount : ℕ
  pub recipient : ℕ
  pub processed_at : ℕ

pub record SignedDepositRecord : Type 0 where
  pub deposit : DepositRecord
  pub relayer_pubkey : ℕ
  pub relayer_signature : ℕ

abbrev pub deposited : Bridge → Counters → Reserves → Tokens → Bridge
deposited b daily reserves tokens = record b { daily = daily; reserves = reserves; tokens = tokens }

-- The word in the slot `id` starts with 1.
abbrev pub is_processed : Hashes → Bridge → ℕ → Bool
is_processed h b id = if h.held id then h.starts_with_one b id else b.processed id

-- The mark of a deposit replaces whatever stands in the slot `id`.
unfoldable pub mark_processed : Hashes → Bridge → ℕ → Bridge
mark_processed h b id =
    if h.held id
    then h.overwritten b id
    else record b { processed = λ d. if d == id then true else b.processed d }

-- What a deposit does once its asset and mapping are known.
unfoldable pub credit_deposit :
    Hashes
    → Bridge
    → DepositRecord
    → Counters
    → ExternalAssetMapping
    → CanonicalAsset
    → ℕ
    → ℕ
    → Result BridgeError (ℕ × Bridge)
unfolding record_deposit mint_to_owner increase_supply check_invariant mark_processed
credit_deposit h b deposit daily mapping canonical amount current_slot = do
  recorded ←
      record_deposit b.reserves (key_of deposit.asset) mapping.canonical_asset amount current_slot
  tokens ←
      tokens_or mint_error
        (mint_to_owner b.tokens canonical.mint deposit.recipient amount h.bridge_authority_id)
  reserves ← increase_supply recorded mapping.canonical_asset amount
  let marked = mark_processed h (deposited b daily reserves tokens) deposit.deposit_id in
      do check_invariant marked.reserves mapping.canonical_asset; ok (canonical.mint, marked)

unfoldable pub process_deposit_to_oasset :
    Bool
    → Hashes
    → (SignedDepositRecord → Bool)
    → Bridge
    → SignedDepositRecord
    → ℕ
    → Result BridgeError (ℕ × Bridge)
unfolding check_and_record_deposit normalize_amount credit_deposit
process_deposit_to_oasset devnet h verify b signed current_slot =
    let deposit = signed.deposit in
    do
      guard (b.relayers signed.relayer_pubkey && verify signed) invalid_deposit_proof
      guard (not (deposit.amount == 0)) invalid_amount
      guard (not (is_processed h b deposit.deposit_id))
          (deposit_already_processed deposit.deposit_id)
      mapping ← ok_or (get_mapping b deposit.asset) (asset_not_mapped (key_of deposit.asset))
      guard mapping.mint_enabled mint_disabled
      daily ←
          check_and_record_deposit devnet mapping.risk b.daily (key_of deposit.asset) deposit.amount
            current_slot
      canonical ←
          ok_or (get_canonical_asset b mapping.canonical_asset)
            (canonical_asset_not_found mapping.canonical_asset)
      guard canonical.active (canonical_asset_inactive mapping.canonical_asset)
      amount ← normalize_amount deposit.amount mapping.external_decimals mapping.canonical_decimals
      credit_deposit h b deposit daily mapping canonical amount current_slot
