-- ===== src/Defi/Tests.antt =====
-- ace-defi/src: runs of the bridge with one canonical asset of six decimals.
use ace_chain.Common.{
  ◌+◌, ◌-◌, ◌^◌, ◌%◌, ◌≡◌, ◌≢◌, ◌≤◌, ◌==◌, refl, true, false, [], ◌∷◌, codes, arith,
}
use ace_chain.Common.Results.{Result, ok, err}
use ace_chain.Common.Assoc.{lookup, insert}
use ace_chain.Vm.Token.{mint_value, balance_of, set_balance}
use ace_chain.Defi.Types.{BridgeError, reserve_invariant_violation}
use ace_chain.Defi.Assets.{ExternalAsset, erc20, key_of}
use ace_chain.Defi.Amounts.{
  normalize_amount, IsRounded, normalize_amount-IsRounded, normalize_back-loses,
}
use ace_chain.Defi.Risk.{RiskConfig, tier1_stablecoin}
use ace_chain.Defi.Reserve.{reserve_total, check_invariant}
use ace_chain.Defi.Canonical.{
  Bridge, Hashes, CanonicalAsset, ExternalAssetMapping, WithdrawalRecord, tier1,
  register_canonical_asset, map_external_asset,
}
use ace_chain.Defi.Deposit.{SignedDepositRecord, mark_processed, process_deposit_to_oasset}
use ace_chain.Defi.Withdraw.{WithdrawRequest, request_oasset_withdrawal}
use ace_chain.Defi.Solvent.{IsSolvent, IsDistinct}
use ace_chain.Defi.Solvent.Depositing.{IsCredited, process_deposit_to_oasset-IsCredited}
use ace_chain.Defi.Solvent.Withdrawing.{IsDebited, request_oasset_withdrawal-IsDebited}
use ace_chain.Defi.Solvent.Run.{
  new_bridge, Reaches, begin, register, map_asset, pay_in, pay_out, reaches-IsBacked,
  reaches-IsSolvent, new_bridge-IsSolvent,
}

-- Six decimals to two.
normalize_amount-IsRounded_example : IsRounded 1234567 6 2 123
unfolding normalize_amount
normalize_amount-IsRounded_example = normalize_amount-IsRounded 1234567 6 2 123 refl

normalize_back-loses_example : 1230000 + 1234567 % 10 ^ (6 - 2) ≡ 1234567
unfolding normalize_amount
normalize_back-loses_example = normalize_back-loses 1234567 6 2 123 1230000 (omega arith) refl refl

abbrev daily_limited : RiskConfig
daily_limited = record tier1_stablecoin { daily_deposit_limit = 100 }

abbrev hashes : Hashes
hashes = record {
  canonical_asset_id = λ symbol decimals. 3;
  oasset_mint_id = λ id. id + 100;
  wrapped_mint_id = λ asset. 50;
  bridge_authority_id = 5;
  held = λ slot. slot == 900;
  starts_with_one = λ b slot. false;
  overwritten = λ b slot. record b { reserves = record b.reserves { totals = [] } };
}

hashes-IsDistinct : IsDistinct hashes
hashes-IsDistinct a b e = omega (arith, e)

abbrev usdt : ExternalAsset
usdt = erc20 (7 ∷ [])

abbrev asset : CanonicalAsset
asset = record {
  id = 3;
  symbol = codes "oUSDT";
  decimals = 6;
  mint = 103;
  active = true;
  risk_tier = tier1;
}

abbrev mapping : ExternalAssetMapping
mapping = record {
  external_asset = usdt;
  reserve_mint = 50;
  canonical_asset = 3;
  external_decimals = 2;
  canonical_decimals = 6;
  mint_enabled = true;
  withdraw_enabled = true;
  risk = tier1_stablecoin;
}

-- `result`'s state, or the old one.
abbrev state_of : {A : Type 0} → Result BridgeError (A × Bridge) → Bridge → Bridge
state_of (ok x) b = x.1
state_of (err _) b = b

abbrev registered : Bridge
registered =
    state_of (register_canonical_asset hashes (new_bridge (λ r. true)) (codes "oUSDT") 6 tier1)
      (new_bridge (λ r. true))

registered_now :
    register_canonical_asset hashes (new_bridge (λ r. true)) (codes "oUSDT") 6 tier1
    ≡ ok (asset, registered)
unfolding register_canonical_asset lookup insert
registered_now = refl

abbrev mapped : Bridge
mapped = state_of (map_external_asset hashes registered usdt 3 2 tier1_stablecoin) registered

mapped_now : map_external_asset hashes registered usdt 3 2 tier1_stablecoin ≡ ok (mapping, mapped)
unfolding register_canonical_asset map_external_asset lookup insert
mapped_now = refl

-- 500 hundredths, to account 8.
abbrev signed : SignedDepositRecord
signed = record {
  deposit = record {
    deposit_id = 1;
    intent_id = 2;
    asset = usdt;
    amount = 500;
    recipient = 8;
    processed_at = 0;
  };
  relayer_pubkey = 6;
  relayer_signature = 0;
}

abbrev paid_in : Bridge
paid_in = state_of (process_deposit_to_oasset false hashes (λ s. true) mapped signed 10) mapped

paid_in_now :
    process_deposit_to_oasset false hashes (λ s. true) mapped signed 10 ≡ ok (103, paid_in)
unfolding register_canonical_asset map_external_asset lookup insert process_deposit_to_oasset
    set_balance key_of
paid_in_now = refl

-- 1234567 millionths, of which 123 hundredths are paid out.
abbrev request : WithdrawRequest
request = record {
  sender = 8;
  intent_id = 4;
  canonical_asset = 3;
  amount = 1234567;
  target_asset = usdt;
  external_dest =
      1 ∷ 1 ∷ 1 ∷ 1 ∷ 1 ∷ 1 ∷ 1 ∷ 1 ∷ 1 ∷ 1 ∷ 1 ∷ 1 ∷ 1 ∷ 1 ∷ 1 ∷ 1 ∷ 1 ∷ 1 ∷ 1 ∷ 1 ∷ [];
}

abbrev owed : WithdrawalRecord
owed = record {
  withdrawal_id = 1;
  intent_id = 4;
  asset = usdt;
  amount = 123;
  sender = 8;
  external_dest = request.external_dest;
  requested_at = 20;
  completed = false;
}

abbrev paid_out : Bridge
paid_out = state_of (request_oasset_withdrawal false hashes paid_in request 20 1) paid_in

paid_out_now : request_oasset_withdrawal false hashes paid_in request 20 1 ≡ ok (owed, paid_out)
unfolding register_canonical_asset map_external_asset lookup insert process_deposit_to_oasset
    set_balance key_of request_oasset_withdrawal
paid_out_now = refl

abbrev Reached : Bridge → Type 0
Reached = Reaches false hashes (λ w. 0) (λ s. true) (λ c. true) (new_bridge (λ r. true))

Reached-mapped : Reached mapped
Reached-mapped =
    map_asset registered mapped usdt 3 2 tier1_stablecoin mapping
      (register (new_bridge (λ r. true)) registered (codes "oUSDT") 6 tier1 asset begin
        registered_now)
      mapped_now

Reached-paid_in : Reached paid_in
Reached-paid_in = pay_in mapped paid_in signed 10 103 Reached-mapped refl paid_in_now

Reached-paid_out : Reached paid_out
Reached-paid_out =
    pay_out paid_in paid_out request 20 1 owed Reached-paid_in (omega arith) paid_out_now

-- A reached bridge is solvent.
Reached-IsSolvent : (b : Bridge) → Reached b → IsSolvent hashes b
Reached-IsSolvent b r =
    reaches-IsSolvent false hashes (λ w. 0) (λ s. true) (λ c. true) (new_bridge (λ r. true)) b
      hashes-IsDistinct
      (new_bridge-IsSolvent false hashes (λ w. 0) (λ s. true) (λ c. true) (λ r. true)) r

-- A mark in the slot of the reserve total breaks what the records say.
overwritten_reserves :
    check_invariant (mark_processed hashes paid_in 900).reserves 3 ≡ err reserve_invariant_violation
unfolding mark_processed check_invariant lookup process_deposit_to_oasset map_external_asset
    register_canonical_asset insert key_of
overwritten_reserves = refl

reaches-IsBacked_example :
    ((mint_value paid_out.tokens (hashes.oasset_mint_id 3)).0
      ≤ reserve_total paid_out.reserves 3 + balance_of paid_out.tokens (hashes.oasset_mint_id 3) 5)
    × (check_invariant paid_out.reserves 3 ≢ err reserve_invariant_violation)
reaches-IsBacked_example =
    reaches-IsBacked false hashes (λ w. 0) (λ s. true) (λ c. true) (λ r. true) paid_out 3
      hashes-IsDistinct Reached-paid_out

process_deposit_to_oasset-IsCredited_example : IsCredited hashes (λ s. true) mapped signed paid_in
process_deposit_to_oasset-IsCredited_example =
    process_deposit_to_oasset-IsCredited false hashes (λ s. true) mapped paid_in signed 10 103 refl
      hashes-IsDistinct (Reached-IsSolvent mapped Reached-mapped) paid_in_now

request_oasset_withdrawal-IsDebited_example : IsDebited hashes paid_in request 1 owed paid_out
request_oasset_withdrawal-IsDebited_example =
    request_oasset_withdrawal-IsDebited false hashes paid_in paid_out request 20 1 owed
      hashes-IsDistinct (Reached-IsSolvent paid_in Reached-paid_in) (omega arith) paid_out_now
