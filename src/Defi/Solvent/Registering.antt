-- ===== src/Defi/Solvent/Registering.antt =====
-- ace-defi/src/canonical.rs: registering canonical assets and mapping external ones keeps the bridge
-- solvent.
use ace_chain.Common.{
  ℕ, ◌+◌, ◌≡◌, ◌≤◌, refl, ap, ◌∙◌, Bool, true, false, some, List, if◌then◌else◌, arith,
}
use ace_chain.Common.Assoc.{lookup, insert, lookup-insert}
use ace_chain.Common.Results.{ok, guard, ok_or, >>=-eq-ok, ok_or-eq-ok}
use ace_chain.Vm.Token.{Tokens, mint_value, mint_exists, balance_of, create_mint, done}
use ace_chain.Vm.Token.Effects.{create_mint-supply}
use ace_chain.Defi.Ledger.{tokens_or, tokens_or-done}
use ace_chain.Defi.Types.{
  mint_error, canonical_asset_already_exists, canonical_asset_not_found, canonical_asset_inactive,
  external_asset_already_mapped, asset_not_mapped,
}
use ace_chain.Defi.Assets.{ExternalAsset, key_of}
use ace_chain.Defi.Amounts.{validate_decimals}
use ace_chain.Defi.Risk.{RiskConfig}
use ace_chain.Defi.Reserve.{Reserves, active_supply, init_supply, init_position}
use ace_chain.Defi.Reserve.Effects.{init_position-keeps}
use ace_chain.Defi.Canonical.{
  Bridge, Hashes, CanonicalAsset, ExternalAssetMapping, RiskTier, get_canonical_asset, get_mapping,
  register_canonical_asset, map_external_asset, set_canonical_asset_active,
  set_mapping_mint_enabled, set_mapping_withdraw_enabled, validate_symbol, absent, wrapped_tokens,
  with_asset, with_mapping, put_asset, put_mapping, set_active, set_mint_enabled,
  set_withdraw_enabled, new_mapping,
}
use ace_chain.Defi.Solvent.{IsSolvent}
use ace_chain.Defi.Solvent.Records.{
  init_supply-fresh, init_supply-IsMatched, init_position-IsMatched,
}

-- Tokens of the same supplies and balances.
created_circulating :
    (h : Hashes) (b : Bridge) (s : Reserves) (t : Tokens) (at : ℕ)
    → IsSolvent h b
    → ((mint_value t (h.oasset_mint_id at)).0 ≡ (mint_value b.tokens (h.oasset_mint_id at)).0)
      × (t.balances ≡ b.tokens.balances)
    → active_supply s at ≡ active_supply b.reserves at
    → (mint_value t (h.oasset_mint_id at)).0
      ≤ active_supply s at + balance_of t (h.oasset_mint_id at) h.bridge_authority_id
created_circulating h b s t at v (supply, balances) active =
    let same : balance_of t (h.oasset_mint_id at) h.bridge_authority_id
        ≡ balance_of b.tokens (h.oasset_mint_id at) h.bridge_authority_id =
      rw balances refl in
    omega (arith, v.circulating at, supply, same, active)

-- Assets with one more, of the mint that is made for it.
named_insert :
    (h : Hashes) (b : Bridge) (asset : CanonicalAsset) (id at : ℕ) (x : CanonicalAsset)
    → IsSolvent h b
    → (id ≡ at → asset.mint ≡ h.oasset_mint_id at)
    → lookup at (insert id asset b.assets) ≡ some x
    → x.mint ≡ h.oasset_mint_id at
named_insert h b asset id at x v named e =
    ground (arith, v.named at x, named, e, lookup-insert id at asset b.assets)

registered-IsSolvent :
    (h : Hashes) (b : Bridge) (t : Tokens) (new : CanonicalAsset)
    → IsSolvent h b
    → new.mint ≡ h.oasset_mint_id new.id
    → create_mint b.tokens (h.oasset_mint_id new.id) new.decimals h.bridge_authority_id ≡ done t
    → IsSolvent h (with_asset b t new)
registered-IsSolvent h b t new v mint made = record {
  reserves_match = init_supply-IsMatched b.reserves new.id v.reserves_match;
  circulating = λ at.
      let (active, _, _, _, _, _, _) = init_supply-fresh b.reserves new.id at v.reserves_match in
      let supply =
        create_mint-supply b.tokens t (h.oasset_mint_id new.id) new.decimals h.bridge_authority_id
          (h.oasset_mint_id at) made in
      created_circulating h b (init_supply b.reserves new.id) t at v supply active;
  named = λ at x e. named_insert h b new new.id at x v (λ p. mint ∙ ap h.oasset_mint_id p) e;
}

pub register_canonical_asset-IsSolvent :
    (h : Hashes) (b c : Bridge) (symbol : List ℕ) (decimals : ℕ) (tier : RiskTier)
    (asset : CanonicalAsset)
    → IsSolvent h b
    → register_canonical_asset h b symbol decimals tier ≡ ok (asset, c)
    → IsSolvent h c
unfolding register_canonical_asset
register_canonical_asset-IsSolvent h b c symbol decimals tier asset v e =
    let id = h.canonical_asset_id symbol decimals in
    let (_, _, e1) = >>=-eq-ok (validate_symbol symbol) _ e in
    let (_, _, e2) = >>=-eq-ok (validate_decimals decimals) _ e1 in
    let (_, _, e3) =
      >>=-eq-ok (guard (absent (get_canonical_asset b id)) (canonical_asset_already_exists id)) _
        e2 in
    let (t, e4, e5) =
      >>=-eq-ok
        (tokens_or mint_error
          (create_mint b.tokens (h.oasset_mint_id id) decimals h.bridge_authority_id))
        _ e3 in
    let new : CanonicalAsset = record {
      id = id;
      symbol = symbol;
      decimals = decimals;
      mint = h.oasset_mint_id id;
      active = true;
      risk_tier = tier;
    } in
    let left : with_asset b t new ≡ c = ground (arith, e5) in
    rw⁻¹ left (registered-IsSolvent h b t new v refl (tokens_or-done mint_error _ t e4))

-- The mint of a wrapped asset is made, if it is, without a supply.
wrapped_supply :
    (h : Hashes) (b : Bridge) (external : ExternalAsset) (decimals : ℕ) (t : Tokens) (at : ℕ)
    → wrapped_tokens h b external decimals ≡ ok t
    → ((mint_value t at).0 ≡ (mint_value b.tokens at).0) × (t.balances ≡ b.tokens.balances)
wrapped_supply h b external decimals t at e =
    go (mint_exists b.tokens (h.wrapped_mint_id external)) e
  where
    go :
        (exists : Bool)
        → (if exists
            then ok b.tokens
            else tokens_or mint_error
                (create_mint b.tokens (h.wrapped_mint_id external) decimals h.bridge_authority_id))
          ≡ ok t
        → ((mint_value t at).0 ≡ (mint_value b.tokens at).0) × (t.balances ≡ b.tokens.balances)
    go true p = let same : b.tokens ≡ t = cc p in rw⁻¹ same (refl, refl)
    go false p =
        create_mint-supply b.tokens t (h.wrapped_mint_id external) decimals h.bridge_authority_id at
          (tokens_or-done mint_error _ t p)

mapped-IsSolvent :
    (h : Hashes) (b : Bridge) (t : Tokens) (m : ExternalAssetMapping) (decimals : ℕ)
    → IsSolvent h b
    → wrapped_tokens h b m.external_asset decimals ≡ ok t
    → IsSolvent h (with_mapping b t m)
mapped-IsSolvent h b t m decimals v e = record {
  reserves_match =
      init_position-IsMatched b.reserves (key_of m.external_asset) m.canonical_asset
        v.reserves_match;
  circulating = λ at.
      let (_, _, supplies, _) =
        init_position-keeps b.reserves (key_of m.external_asset) m.canonical_asset at in
      created_circulating h b (init_position b.reserves (key_of m.external_asset) m.canonical_asset)
        t at v (wrapped_supply h b m.external_asset decimals t (h.oasset_mint_id at) e)
        (rw supplies refl);
  named = v.named;
}

pub map_external_asset-IsSolvent :
    (h : Hashes) (b c : Bridge) (external : ExternalAsset) (canonical decimals : ℕ)
    (risk : RiskConfig) (mapping : ExternalAssetMapping)
    → IsSolvent h b
    → map_external_asset h b external canonical decimals risk ≡ ok (mapping, c)
    → IsSolvent h c
unfolding map_external_asset
map_external_asset-IsSolvent h b c external canonical decimals risk mapping v e =
    let (_, _, e1) = >>=-eq-ok (validate_decimals decimals) _ e in
    let (asset, _, e2) =
      >>=-eq-ok (ok_or (get_canonical_asset b canonical) (canonical_asset_not_found canonical)) _
        e1 in
    let (_, _, e3) = >>=-eq-ok (guard asset.active (canonical_asset_inactive canonical)) _ e2 in
    let (_, _, e4) =
      >>=-eq-ok
        (guard (absent (get_mapping b external)) (external_asset_already_mapped (key_of external)))
        _ e3 in
    let (t, e5, e6) = >>=-eq-ok (wrapped_tokens h b external decimals) _ e4 in
    let m = new_mapping h external asset canonical decimals risk in
    let left : with_mapping b t m ≡ c = ground (arith, e6) in
    rw⁻¹ left (mapped-IsSolvent h b t m decimals v e5)

pub set_canonical_asset_active-IsSolvent :
    (h : Hashes) (b c : Bridge) (id : ℕ) (active : Bool)
    → IsSolvent h b
    → set_canonical_asset_active b id active ≡ ok c
    → IsSolvent h c
unfolding set_canonical_asset_active
set_canonical_asset_active-IsSolvent h b c id active v e =
    let (asset, q, e1) =
      >>=-eq-ok (ok_or (get_canonical_asset b id) (canonical_asset_not_found id)) _ e in
    let found = ok_or-eq-ok (get_canonical_asset b id) (canonical_asset_not_found id) asset q in
    let left : put_asset b id (set_active asset active) ≡ c = ground (arith, e1) in
    rw⁻¹ left (record {
      reserves_match = v.reserves_match;
      circulating = v.circulating;
      named = λ at x m.
          named_insert h b (set_active asset active) id at x v
            (λ p. v.named id asset found ∙ ap h.oasset_mint_id p) m;
    })

-- The switches of a mapping leave tokens and reserves alone.
put_mapping-IsSolvent :
    (h : Hashes) (b : Bridge) (external : ExternalAsset) (m : ExternalAssetMapping)
    → IsSolvent h b
    → IsSolvent h (put_mapping b external m)
put_mapping-IsSolvent h b external m v = record {
  reserves_match = v.reserves_match;
  circulating = v.circulating;
  named = v.named;
}

pub set_mapping_mint_enabled-IsSolvent :
    (h : Hashes) (b c : Bridge) (external : ExternalAsset) (enabled : Bool)
    → IsSolvent h b
    → set_mapping_mint_enabled b external enabled ≡ ok c
    → IsSolvent h c
unfolding set_mapping_mint_enabled
set_mapping_mint_enabled-IsSolvent h b c external enabled v e =
    let (m, _, e1) =
      >>=-eq-ok (ok_or (get_mapping b external) (asset_not_mapped (key_of external))) _ e in
    let left : put_mapping b external (set_mint_enabled m enabled) ≡ c = ground (arith, e1) in
    rw⁻¹ left (put_mapping-IsSolvent h b external (set_mint_enabled m enabled) v)

pub set_mapping_withdraw_enabled-IsSolvent :
    (h : Hashes) (b c : Bridge) (external : ExternalAsset) (enabled : Bool)
    → IsSolvent h b
    → set_mapping_withdraw_enabled b external enabled ≡ ok c
    → IsSolvent h c
unfolding set_mapping_withdraw_enabled
set_mapping_withdraw_enabled-IsSolvent h b c external enabled v e =
    let (m, _, e1) =
      >>=-eq-ok (ok_or (get_mapping b external) (asset_not_mapped (key_of external))) _ e in
    let left : put_mapping b external (set_withdraw_enabled m enabled) ≡ c = ground (arith, e1) in
    rw⁻¹ left (put_mapping-IsSolvent h b external (set_withdraw_enabled m enabled) v)
