-- ===== src/Defi/Withdraw.antt =====
-- ace-defi/src/withdraw.rs and wire.rs: a canonical asset is burned for an external one, and a relayer
-- reports that it was paid out. A call that fails is rolled back, so its result has no state. The check
-- of a relayer's signature and the hash of a withdrawal record are parameters.
use ace_chain.Common.{
  ℕ, Bool, true, false, not, ◌&&◌, Option, none, some, List, ◌==◌, leb, if◌then◌else◌,
}
use ace_chain.Common.Assoc.{lookup, insert}
use ace_chain.Common.Results.{Result, ok, ◌>>=◌, ◌>>◌, guard, ok_or}
use ace_chain.Vm.Token.{Tokens, balance_of, transfer_between_owners}
use ace_chain.Defi.Ledger.{tokens_or}
use ace_chain.Defi.Types.{
  BridgeError, invalid_amount, invalid_deposit_proof, asset_not_mapped, canonical_asset_not_found,
  canonical_asset_inactive, mapping_mismatch, withdraw_disabled, invalid_destination,
  insufficient_balance, burn_error,
}
use ace_chain.Defi.Assets.{
  ExternalAsset, ExternalChain, chain, chain_byte, key_of, valid_destination, same_bytes,
}
use ace_chain.Defi.Amounts.{normalize_amount}
use ace_chain.Defi.Risk.{Counters, check_and_record_withdrawal}
use ace_chain.Defi.Reserve.{
  Reserves, reserve_withdrawal, finalize_withdrawal, decrease_supply, check_invariant,
}
use ace_chain.Defi.Canonical.{
  Bridge, Hashes, ExternalAssetMapping, WithdrawalRecord, get_canonical_asset, get_mapping,
}

pub record WithdrawalCompletionRecord : Type 0 where
  pub withdrawal_id : ℕ
  pub destination_chain : ExternalChain
  pub external_tx_hash : ℕ
  pub withdrawal_record_hash : ℕ
  pub released_asset : ExternalAsset
  pub released_recipient : List ℕ
  pub released_amount : ℕ
  pub gateway_address : List ℕ
  pub relayer_pubkey : ℕ
  pub relayer_signature : ℕ

-- The request of a withdrawal: what the sender asks for and where it goes.
pub record WithdrawRequest : Type 0 where
  pub sender : ℕ
  pub intent_id : ℕ
  pub canonical_asset : ℕ
  pub amount : ℕ
  pub target_asset : ExternalAsset
  pub external_dest : List ℕ

abbrev pub load_withdrawal : Bridge → ℕ → Option WithdrawalRecord
load_withdrawal b id = lookup id b.withdrawals

abbrev new_record : WithdrawRequest → ℕ → ℕ → ℕ → WithdrawalRecord
new_record r id amount current_slot = record {
  withdrawal_id = id;
  intent_id = r.intent_id;
  asset = r.target_asset;
  amount = amount;
  sender = r.sender;
  external_dest = r.external_dest;
  requested_at = current_slot;
  completed = false;
}

abbrev debited : Bridge → Counters → Reserves → Tokens → WithdrawalRecord → Bridge
debited b daily reserves tokens w = record b {
  daily = daily;
  reserves = reserves;
  tokens = tokens;
  withdrawals = insert w.withdrawal_id w b.withdrawals;
}

-- What a withdrawal does once its limits are checked and its external amount is known.
unfoldable pub debit_withdrawal :
    Hashes
    → Bridge
    → WithdrawRequest
    → Counters
    → ℕ
    → ℕ
    → ℕ
    → ℕ
    → Result BridgeError (WithdrawalRecord × Bridge)
unfolding reserve_withdrawal transfer_between_owners decrease_supply check_invariant
debit_withdrawal h b r daily mint external_amount current_slot id =
    let balance = balance_of b.tokens mint r.sender in
    let w = new_record r id external_amount current_slot in
    do
      guard (leb r.amount balance) (insufficient_balance balance r.amount)
      reserved ←
          reserve_withdrawal b.reserves (key_of r.target_asset) r.canonical_asset r.amount
            current_slot
      tokens ←
          tokens_or burn_error
            (transfer_between_owners b.tokens mint r.sender h.bridge_authority_id r.amount)
      reserves ← decrease_supply reserved r.canonical_asset r.amount
      check_invariant reserves r.canonical_asset
      ok (w, debited b daily reserves tokens w)

unfoldable pub request_oasset_withdrawal :
    Bool
    → Hashes
    → Bridge
    → WithdrawRequest
    → ℕ
    → ℕ
    → Result BridgeError (WithdrawalRecord × Bridge)
unfolding check_and_record_withdrawal normalize_amount debit_withdrawal
request_oasset_withdrawal devnet h b r current_slot next_withdrawal_id = do
  guard (not (r.amount == 0)) invalid_amount
  canonical ←
      ok_or (get_canonical_asset b r.canonical_asset) (canonical_asset_not_found r.canonical_asset)
  guard canonical.active (canonical_asset_inactive r.canonical_asset)
  mapping ← ok_or (get_mapping b r.target_asset) (asset_not_mapped (key_of r.target_asset))
  guard (mapping.canonical_asset == r.canonical_asset) mapping_mismatch
  guard mapping.withdraw_enabled withdraw_disabled
  daily ←
      check_and_record_withdrawal devnet mapping.risk b.daily (key_of r.target_asset) r.amount
        current_slot
  guard (valid_destination r.target_asset r.external_dest) invalid_destination
  external ← normalize_amount r.amount mapping.canonical_decimals mapping.external_decimals
  debit_withdrawal h b r daily canonical.mint external current_slot next_withdrawal_id

-- A completion agrees with the record that it completes.
abbrev completion_matches :
    (WithdrawalRecord → ℕ) → WithdrawalRecord → WithdrawalCompletionRecord → Bool
completion_matches hash w c =
    not w.completed
    && (chain_byte (chain w.asset) == chain_byte c.destination_chain
        && (key_of w.asset == key_of c.released_asset
            && (same_bytes w.external_dest c.released_recipient
                && (w.amount == c.released_amount && c.withdrawal_record_hash == hash w))))

-- `verify_withdrawal_completion_against_state`, which gives the record that it loads.
unfoldable pub verify_completion :
    (WithdrawalRecord → ℕ)
    → (WithdrawalCompletionRecord → Bool)
    → Bridge
    → WithdrawalCompletionRecord
    → Result BridgeError WithdrawalRecord
verify_completion hash verify b c = do
  guard (b.relayers c.relayer_pubkey) invalid_deposit_proof
  w ← ok_or (load_withdrawal b c.withdrawal_id) invalid_deposit_proof
  guard (completion_matches hash w c) invalid_deposit_proof
  guard (verify c) invalid_deposit_proof
  ok w

abbrev complete : WithdrawalRecord → WithdrawalRecord
complete w = record w { completed = true }

-- The reserves are settled where the asset of the record is mapped.
unfoldable pub finalize_mapped :
    Bridge → WithdrawalRecord → Option ExternalAssetMapping → Result BridgeError Reserves
unfolding normalize_amount finalize_withdrawal
finalize_mapped b w none = ok b.reserves
finalize_mapped b w (some mapping) = do
  amount ← normalize_amount w.amount mapping.external_decimals mapping.canonical_decimals
  finalize_withdrawal b.reserves (key_of w.asset) amount w.requested_at

abbrev completed_with : Bridge → Reserves → WithdrawalRecord → ℕ → Bridge
completed_with b reserves w id = record b {
  reserves = reserves;
  withdrawals = insert w.withdrawal_id (complete w) b.withdrawals;
  completions = λ d. if d == id then true else b.completions d;
}

unfoldable pub complete_indexed_withdrawal :
    (WithdrawalRecord → ℕ)
    → (WithdrawalCompletionRecord → Bool)
    → Bridge
    → WithdrawalCompletionRecord
    → Result BridgeError (WithdrawalRecord × Bridge)
unfolding verify_completion finalize_mapped
complete_indexed_withdrawal hash verify b c = do
  w ← verify_completion hash verify b c
  reserves ← finalize_mapped b w (get_mapping b w.asset)
  ok (complete w, completed_with b reserves w c.withdrawal_id)
