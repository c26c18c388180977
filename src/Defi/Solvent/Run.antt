-- ===== src/Defi/Solvent/Run.antt =====
-- ace-defi/src: the bridge over any sequence of calls, with transfers of the token ledger in between.
use ace_chain.Common.{ℕ, ◌+◌, ◌≡◌, ◌≢◌, ◌≤◌, refl, Bool, false, List, [], arith}
use ace_chain.Common.Assoc.{lookup}
use ace_chain.Common.Results.{ok, err}
use ace_chain.Vm.Token.{Tokens, done, mint_value, balance_of, transfer_between_owners}
use ace_chain.Vm.Token.Supply.{transfer-mints}
use ace_chain.Vm.Token.Effects.{sent_keeps}
use ace_chain.Defi.Types.{reserve_invariant_violation}
use ace_chain.Defi.Assets.{ExternalAsset}
use ace_chain.Defi.Risk.{RiskConfig}
use ace_chain.Defi.Reserve.{reserve_total, check_invariant}
use ace_chain.Defi.Canonical.{
  Bridge, Hashes, CanonicalAsset, ExternalAssetMapping, RiskTier, WithdrawalRecord,
  register_canonical_asset, map_external_asset, set_canonical_asset_active,
  set_mapping_mint_enabled, set_mapping_withdraw_enabled,
}
use ace_chain.Defi.Deposit.{SignedDepositRecord, process_deposit_to_oasset}
use ace_chain.Defi.Withdraw.{
  WithdrawRequest, WithdrawalCompletionRecord, request_oasset_withdrawal,
  complete_indexed_withdrawal,
}
use ace_chain.Defi.Solvent.{IsSolvent, IsDistinct, active-le-reserves, check_invariant-holds}
use ace_chain.Defi.Solvent.Registering.{
  register_canonical_asset-IsSolvent, map_external_asset-IsSolvent,
  set_canonical_asset_active-IsSolvent, set_mapping_mint_enabled-IsSolvent,
  set_mapping_withdraw_enabled-IsSolvent,
}
use ace_chain.Defi.Solvent.Depositing.{process_deposit_to_oasset-IsCredited}
use ace_chain.Defi.Solvent.Withdrawing.{request_oasset_withdrawal-IsDebited}
use ace_chain.Defi.Solvent.Completing.{complete_indexed_withdrawal-IsSolvent}

-- A bridge without tokens, with its approved relayers.
abbrev pub new_bridge : (ℕ → Bool) → Bridge
new_bridge relayers = record {
  tokens = record { mints = []; authorities = []; balances = []; allowances = λ m o s. 0 };
  reserves = record { positions = []; supplies = []; totals = [] };
  assets = [];
  mappings = [];
  daily = λ f a d. 0;
  relayers = relayers;
  processed = λ d. false;
  withdrawals = [];
  completions = λ d. false;
}

abbrev pub with_tokens : Bridge → Tokens → Bridge
with_tokens b t = record b { tokens = t }

module _ (devnet : Bool) (h : Hashes) (hash : WithdrawalRecord → ℕ)
    (verify_deposit : SignedDepositRecord → Bool)
    (verify_completion : WithdrawalCompletionRecord → Bool) where
  -- The states that the calls that succeed lead to; one that fails leaves the state. No call is made,
  -- and nothing is sent, by the bridge's own account, and no identifier of a deposit is the slot of a
  -- record, counter or approval of the bridge.
  pub data Reaches (start : Bridge) : Bridge → Type 0 where
    begin : Reaches start start
    register :
        (b c : Bridge) (symbol : List ℕ) (decimals : ℕ) (tier : RiskTier) (asset : CanonicalAsset)
        → Reaches start b
        → register_canonical_asset h b symbol decimals tier ≡ ok (asset, c)
        → Reaches start c
    map_asset :
        (b c : Bridge) (external : ExternalAsset) (canonical decimals : ℕ) (risk : RiskConfig)
        (mapping : ExternalAssetMapping)
        → Reaches start b
        → map_external_asset h b external canonical decimals risk ≡ ok (mapping, c)
        → Reaches start c
    activate :
        (b c : Bridge) (id : ℕ) (active : Bool)
        → Reaches start b
        → set_canonical_asset_active b id active ≡ ok c
        → Reaches start c
    enable_mint :
        (b c : Bridge) (external : ExternalAsset) (enabled : Bool)
        → Reaches start b
        → set_mapping_mint_enabled b external enabled ≡ ok c
        → Reaches start c
    enable_withdraw :
        (b c : Bridge) (external : ExternalAsset) (enabled : Bool)
        → Reaches start b
        → set_mapping_withdraw_enabled b external enabled ≡ ok c
        → Reaches start c
    pay_in :
        (b c : Bridge) (signed : SignedDepositRecord) (slot mint : ℕ)
        → Reaches start b
        → h.held signed.deposit.deposit_id ≡ false
        → process_deposit_to_oasset devnet h verify_deposit b signed slot ≡ ok (mint, c)
        → Reaches start c
    pay_out :
        (b c : Bridge) (r : WithdrawRequest) (slot id : ℕ) (w : WithdrawalRecord)
        → Reaches start b
        → r.sender ≢ h.bridge_authority_id
        → request_oasset_withdrawal devnet h b r slot id ≡ ok (w, c)
        → Reaches start c
    settle :
        (b c : Bridge) (completion : WithdrawalCompletionRecord) (w : WithdrawalRecord)
        → Reaches start b
        → complete_indexed_withdrawal hash verify_completion b completion ≡ ok (w, c)
        → Reaches start c
    send :
        (b : Bridge) (t : Tokens) (mint from to amount : ℕ)
        → Reaches start b
        → from ≢ h.bridge_authority_id
        → transfer_between_owners b.tokens mint from to amount ≡ done t
        → Reaches start (with_tokens b t)

  sent-IsSolvent :
      (b : Bridge) (t : Tokens) (mint from to amount : ℕ)
      → IsSolvent h b
      → from ≢ h.bridge_authority_id
      → transfer_between_owners b.tokens mint from to amount ≡ done t
      → IsSolvent h (with_tokens b t)
  sent-IsSolvent b t mint from to amount v n e = record {
    reserves_match = v.reserves_match;
    circulating = λ at.
        let same : mint_value t (h.oasset_mint_id at) ≡ mint_value b.tokens (h.oasset_mint_id at) =
          rw (transfer-mints b.tokens t mint from to amount e) refl in
        ground (
          arith,
          v.circulating at,
          same,
          sent_keeps b.tokens t mint from to amount (h.oasset_mint_id at) h.bridge_authority_id n e,
        );
    named = v.named;
  }

  pub reaches-IsSolvent :
      (start b : Bridge) → IsDistinct h → IsSolvent h start → Reaches start b → IsSolvent h b
  reaches-IsSolvent start b d v begin = v
  reaches-IsSolvent start b d v (register a c symbol decimals tier asset r e) =
      register_canonical_asset-IsSolvent h a c symbol decimals tier asset
        (reaches-IsSolvent start a d v r) e
  reaches-IsSolvent start b d v (map_asset a c external canonical decimals risk mapping r e) =
      map_external_asset-IsSolvent h a c external canonical decimals risk mapping
        (reaches-IsSolvent start a d v r) e
  reaches-IsSolvent start b d v (activate a c id active r e) =
      set_canonical_asset_active-IsSolvent h a c id active (reaches-IsSolvent start a d v r) e
  reaches-IsSolvent start b d v (enable_mint a c external enabled r e) =
      set_mapping_mint_enabled-IsSolvent h a c external enabled (reaches-IsSolvent start a d v r) e
  reaches-IsSolvent start b d v (enable_withdraw a c external enabled r e) =
      set_mapping_withdraw_enabled-IsSolvent h a c external enabled
        (reaches-IsSolvent start a d v r) e
  reaches-IsSolvent start b d v (pay_in a c signed slot mint r u e) =
      let p =
        process_deposit_to_oasset-IsCredited devnet h verify_deposit a c signed slot mint u d
          (reaches-IsSolvent start a d v r) e in
      p.solvent
  reaches-IsSolvent start b d v (pay_out a c request slot id w r n e) =
      let p =
        request_oasset_withdrawal-IsDebited devnet h a c request slot id w d
          (reaches-IsSolvent start a d v r) n e in
      p.solvent
  reaches-IsSolvent start b d v (settle a c completion w r e) =
      let p =
        complete_indexed_withdrawal-IsSolvent h hash verify_completion a c completion w
          (reaches-IsSolvent start a d v r) e in
      p.0
  reaches-IsSolvent start b d v (send a t mint from to amount r n e) =
      sent-IsSolvent a t mint from to amount (reaches-IsSolvent start a d v r) n e

  pub new_bridge-IsSolvent : (relayers : ℕ → Bool) → IsSolvent h (new_bridge relayers)
  unfolding lookup
  new_bridge-IsSolvent relayers = record {
    reserves_match = record {
      reconciled = record { split = λ x c. refl; backed = λ c. refl; minted = λ c. refl };
      matched = λ c. refl;
      unbuffered = λ c. refl;
      fresh = λ c m. refl;
    };
    circulating = λ c. omega arith;
    named = λ c x e. cc e;
  }

  -- With distinct mints for distinct canonical assets: from a new bridge, whatever calls succeed in
  -- whatever order, with the ledger's transfers in between and none of them by the bridge's own account,
  -- and no deposit's identifier being the slot of a record, counter or approval of the bridge,
  -- the tokens of a canonical asset that the bridge's account does not hold are at most the reserves
  -- recorded behind it, and the check of that invariant never finds it broken.
  pub reaches-IsBacked :
      (relayers : ℕ → Bool) (b : Bridge) (canonical : ℕ)
      → IsDistinct h
      → Reaches (new_bridge relayers) b
      → ((mint_value b.tokens (h.oasset_mint_id canonical)).0
          ≤ reserve_total b.reserves canonical
            + balance_of b.tokens (h.oasset_mint_id canonical) h.bridge_authority_id)
        × (check_invariant b.reserves canonical ≢ err reserve_invariant_violation)
  reaches-IsBacked relayers b canonical d r =
      let v = reaches-IsSolvent (new_bridge relayers) b d (new_bridge-IsSolvent relayers) r in
      (
        omega (
          arith,
          v.circulating canonical,
          active-le-reserves b.reserves canonical v.reserves_match,
        ),
        check_invariant-holds b.reserves canonical v.reserves_match,
      )
