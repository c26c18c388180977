-- ===== src/Defi/Canonical.antt =====
-- ace-defi/src/canonical.rs: canonical assets and the external assets that are mapped to them. The state
-- of the bridge is what the storage of its authority holds; the hashes that name mints and assets and the
-- check of a signature are parameters. An account that a call makes sure of has no state of its own here.
use ace_chain.Common.{
  ℕ, Bool, true, false, not, ◌&&◌, ◌||◌, Option, none, some, List, ◌==◌, leb, if◌then◌else◌, length,
  any,
}
use ace_chain.Common.Assoc.{Map, lookup, insert}
use ace_chain.Common.Results.{Result, ok, ◌>>=◌, ◌>>◌, guard, ok_or}
use ace_chain.Vm.Token.{Tokens, mint_exists, create_mint}
use ace_chain.Defi.Ledger.{tokens_or}
use ace_chain.Defi.Types.{
  BridgeError, canonical_asset_already_exists, canonical_asset_not_found, canonical_asset_inactive,
  external_asset_already_mapped, asset_not_mapped, invalid_canonical_symbol, mint_error,
}
use ace_chain.Defi.Assets.{ExternalAsset, key_of}
use ace_chain.Defi.Amounts.{validate_decimals}
use ace_chain.Defi.Risk.{RiskConfig, Counters}
use ace_chain.Defi.Reserve.{Reserves, init_supply, init_position}

pub data RiskTier : Type 0 where
  tier1 tier2 tier3 experimental : RiskTier

-- A symbol is its bytes.
pub record CanonicalAsset : Type 0 where
  pub id : ℕ
  pub symbol : List ℕ
  pub decimals : ℕ
  pub mint : ℕ
  pub active : Bool
  pub risk_tier : RiskTier

pub record ExternalAssetMapping : Type 0 where
  pub external_asset : ExternalAsset
  pub reserve_mint : ℕ
  pub canonical_asset : ℕ
  pub external_decimals : ℕ
  pub canonical_decimals : ℕ
  pub mint_enabled : Bool
  pub withdraw_enabled : Bool
  pub risk : RiskConfig

pub record WithdrawalRecord : Type 0 where
  pub withdrawal_id : ℕ
  pub intent_id : ℕ
  pub asset : ExternalAsset
  pub amount : ℕ
  pub sender : ℕ
  pub external_dest : List ℕ
  pub requested_at : ℕ
  pub completed : Bool

pub record Bridge : Type 0 where
  pub tokens : Tokens
  pub reserves : Reserves
  pub assets : Map CanonicalAsset
  pub mappings : Map ExternalAssetMapping
  pub daily : Counters
  pub relayers : ℕ → Bool
  pub processed : ℕ → Bool
  pub withdrawals : Map WithdrawalRecord
  pub completions : ℕ → Bool

-- The hashes of identifiers, and what they make of the one storage that the bridge's authority has: its
-- records, counters and approvals stand in slots named by hashes, and `held` tells whether a slot is one of
-- those. The mark of a deposit goes to the slot that its identifier names, unhashed. In a slot that is
-- held, `starts_with_one` reads the first byte of the word there, and `overwritten` is the bridge, as far
-- as its records can still be read, after the mark replaced that word.
pub record Hashes : Type 0 where
  pub canonical_asset_id : List ℕ → ℕ → ℕ
  pub oasset_mint_id : ℕ → ℕ
  pub wrapped_mint_id : ExternalAsset → ℕ
  pub bridge_authority_id : ℕ
  pub held : ℕ → Bool
  pub starts_with_one : Bridge → ℕ → Bool
  pub overwritten : Bridge → ℕ → Bridge

abbrev pub get_canonical_asset : Bridge → ℕ → Option CanonicalAsset
get_canonical_asset b id = lookup id b.assets

abbrev pub get_mapping : Bridge → ExternalAsset → Option ExternalAssetMapping
get_mapping b asset = lookup (key_of asset) b.mappings

abbrev pub absent {ℓ} : {A : Type ℓ} → Option A → Bool
absent none = true
absent (some _) = false

abbrev is_ascii_alphanumeric : ℕ → Bool
is_ascii_alphanumeric byte =
    leb 48 byte && leb byte 57 || (leb 65 byte && leb byte 90 || (leb 97 byte && leb byte 122))

abbrev pub validate_symbol : List ℕ → Result BridgeError (Unit {0})
validate_symbol symbol = do
  guard (not (length symbol == 0) && leb (length symbol) 16) invalid_canonical_symbol
  guard (not (any (λ byte. not (is_ascii_alphanumeric byte)) symbol)) invalid_canonical_symbol

abbrev pub with_asset : Bridge → Tokens → CanonicalAsset → Bridge
with_asset b tokens asset = record b {
  tokens = tokens;
  assets = insert asset.id asset b.assets;
  reserves = init_supply b.reserves asset.id;
}

abbrev pub set_active : CanonicalAsset → Bool → CanonicalAsset
set_active asset active = record asset { active = active }

abbrev pub set_mint_enabled : ExternalAssetMapping → Bool → ExternalAssetMapping
set_mint_enabled m enabled = record m { mint_enabled = enabled }

abbrev pub set_withdraw_enabled : ExternalAssetMapping → Bool → ExternalAssetMapping
set_withdraw_enabled m enabled = record m { withdraw_enabled = enabled }

abbrev pub put_asset : Bridge → ℕ → CanonicalAsset → Bridge
put_asset b id asset = record b { assets = insert id asset b.assets }

abbrev pub put_mapping : Bridge → ExternalAsset → ExternalAssetMapping → Bridge
put_mapping b external m = record b { mappings = insert (key_of external) m b.mappings }

abbrev pub with_mapping : Bridge → Tokens → ExternalAssetMapping → Bridge
with_mapping b tokens m = record b {
  tokens = tokens;
  mappings = insert (key_of m.external_asset) m b.mappings;
  reserves = init_position b.reserves (key_of m.external_asset) m.canonical_asset;
}

unfoldable pub register_canonical_asset :
    Hashes → Bridge → List ℕ → ℕ → RiskTier → Result BridgeError (CanonicalAsset × Bridge)
unfolding create_mint init_supply
register_canonical_asset h b symbol decimals risk_tier =
    let id = h.canonical_asset_id symbol decimals in
    let asset : CanonicalAsset = record {
      id = id;
      symbol = symbol;
      decimals = decimals;
      mint = h.oasset_mint_id id;
      active = true;
      risk_tier = risk_tier;
    } in
    do
      validate_symbol symbol
      validate_decimals decimals
      guard (absent (get_canonical_asset b id)) (canonical_asset_already_exists id)
      tokens ←
          tokens_or mint_error
            (create_mint b.tokens (h.oasset_mint_id id) decimals h.bridge_authority_id)
      ok (asset, with_asset b tokens asset)

unfoldable pub set_canonical_asset_active : Bridge → ℕ → Bool → Result BridgeError Bridge
set_canonical_asset_active b id active = do
  asset ← ok_or (get_canonical_asset b id) (canonical_asset_not_found id)
  ok (put_asset b id (set_active asset active))

-- The mint of a wrapped external asset is made where it does not exist.
abbrev pub wrapped_tokens : Hashes → Bridge → ExternalAsset → ℕ → Result BridgeError Tokens
wrapped_tokens h b external decimals =
    if mint_exists b.tokens (h.wrapped_mint_id external)
    then ok b.tokens
    else tokens_or mint_error
        (create_mint b.tokens (h.wrapped_mint_id external) decimals h.bridge_authority_id)

abbrev pub new_mapping :
    Hashes → ExternalAsset → CanonicalAsset → ℕ → ℕ → RiskConfig → ExternalAssetMapping
new_mapping h external asset canonical decimals risk = record {
  external_asset = external;
  reserve_mint = h.wrapped_mint_id external;
  canonical_asset = canonical;
  external_decimals = decimals;
  canonical_decimals = asset.decimals;
  mint_enabled = true;
  withdraw_enabled = true;
  risk = risk;
}

unfoldable pub map_external_asset :
    Hashes
    → Bridge
    → ExternalAsset
    → ℕ
    → ℕ
    → RiskConfig
    → Result BridgeError (ExternalAssetMapping × Bridge)
unfolding create_mint init_position
map_external_asset h b external canonical decimals risk = do
  validate_decimals decimals
  asset ← ok_or (get_canonical_asset b canonical) (canonical_asset_not_found canonical)
  guard asset.active (canonical_asset_inactive canonical)
  guard (absent (get_mapping b external)) (external_asset_already_mapped (key_of external))
  tokens ← wrapped_tokens h b external decimals
  let mapping = new_mapping h external asset canonical decimals risk in
      ok (mapping, with_mapping b tokens mapping)

unfoldable pub set_mapping_mint_enabled : Bridge → ExternalAsset → Bool → Result BridgeError Bridge
set_mapping_mint_enabled b external enabled = do
  mapping ← ok_or (get_mapping b external) (asset_not_mapped (key_of external))
  ok (put_mapping b external (set_mint_enabled mapping enabled))

unfoldable pub set_mapping_withdraw_enabled :
    Bridge → ExternalAsset → Bool → Result BridgeError Bridge
set_mapping_withdraw_enabled b external enabled = do
  mapping ← ok_or (get_mapping b external) (asset_not_mapped (key_of external))
  ok (put_mapping b external (set_withdraw_enabled mapping enabled))
