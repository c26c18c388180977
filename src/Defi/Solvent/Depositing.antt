-- ===== src/Defi/Solvent/Depositing.antt =====
-- ace-defi/src/deposit.rs: a deposit keeps the bridge solvent.
use ace_chain.Common.{
  ℕ, ◌+◌, ◌≡◌, ◌≤◌, refl, Bool, true, false, not, ◌&&◌, ◌==◌, if◌then◌else◌, arith,
}
use ace_chain.Common.Results.{ok, guard, ok_or, >>=-eq-ok, guard-eq-ok, ok_or-eq-ok}
use ace_chain.Vm.Token.{Tokens, done, mint_value, balance_of, mint_to_owner}
use ace_chain.Vm.Token.Effects.{mint_to_owner-supply}
use ace_chain.Defi.Ledger.{tokens_or, tokens_or-done}
use ace_chain.Defi.Types.{
  mint_error, invalid_deposit_proof, invalid_amount, deposit_already_processed, asset_not_mapped,
  mint_disabled, canonical_asset_not_found, canonical_asset_inactive,
}
use ace_chain.Defi.Assets.{key_of}
use ace_chain.Defi.Risk.{Counters, check_and_record_deposit}
use ace_chain.Defi.Amounts.{normalize_amount}
use ace_chain.Defi.Reserve.{
  Reserves, active_supply, record_deposit, increase_supply, check_invariant,
}
use ace_chain.Defi.Reserve.Reconciled.{record_deposit-IsReconciled, increase_supply-IsReconciled}
use ace_chain.Defi.Reserve.Effects.{of_asset, record_deposit-frees, increase_supply-adds}
use ace_chain.Defi.Canonical.{
  Bridge, Hashes, CanonicalAsset, ExternalAssetMapping, get_canonical_asset, get_mapping,
}
use ace_chain.Defi.Deposit.{
  DepositRecord, SignedDepositRecord, deposited, is_processed, mark_processed, credit_deposit,
  process_deposit_to_oasset,
}
use ace_chain.Defi.Solvent.{IsMatched, IsSolvent, IsDistinct, of_mint, IsSolvent-with}

pub credited-IsMatched :
    (r mid s : Reserves) (external canonical amount slot : ℕ)
    → IsMatched r
    → record_deposit r external canonical amount slot ≡ ok mid
    → increase_supply mid canonical amount ≡ ok s
    → IsMatched s
credited-IsMatched r mid s external canonical amount slot v e f = record {
  reconciled =
      increase_supply-IsReconciled mid s canonical amount
        (record_deposit-IsReconciled r mid external canonical amount slot v.reconciled e) f;
  matched = λ at.
      let (freed, kept, _) = record_deposit-frees r mid external canonical amount slot at e in
      let (added, _, same, _, _) = increase_supply-adds mid s canonical amount at f in
      grind (arith, v.matched at, freed, kept, added, same);
  unbuffered = λ at.
      let (_, kept, _) = record_deposit-frees r mid external canonical amount slot at e in
      let (_, buffer, _, _, _) = increase_supply-adds mid s canonical amount at f in
      grind (arith, v.unbuffered at, kept, buffer);
  fresh = λ at m.
      let (_, kept, total) = record_deposit-frees r mid external canonical amount slot at e in
      let (_, _, _, totals, none_before) = increase_supply-adds mid s canonical amount at f in
      let (before, nothing) = none_before m in
      grind (arith, v.fresh at, kept, totals, total, before, nothing);
}

credited_circulating :
    (h : Hashes) (b : Bridge) (mid s : Reserves) (t : Tokens) (asset mint recipient amount at : ℕ)
    → IsDistinct h
    → IsSolvent h b
    → mint ≡ h.oasset_mint_id asset
    → mint_to_owner b.tokens mint recipient amount h.bridge_authority_id ≡ done t
    → mid.supplies ≡ b.reserves.supplies
    → active_supply s at ≡ active_supply mid at + of_asset asset amount at
    → (mint_value t (h.oasset_mint_id at)).0
      ≤ active_supply s at + balance_of t (h.oasset_mint_id at) h.bridge_authority_id
credited_circulating h b mid s t asset mint recipient amount at d v named minted kept active =
    let (supply, balance) =
      mint_to_owner-supply b.tokens t mint recipient amount h.bridge_authority_id
        (h.oasset_mint_id at) h.bridge_authority_id minted in
    let share : (if mint == h.oasset_mint_id at then amount else 0) ≡ of_asset asset amount at =
      rw named (of_mint h asset amount at d) in
    let before : active_supply mid at ≡ active_supply b.reserves at = rw kept refl in
    omega (arith, v.circulating at, supply, balance, share, active, before)

pub credit_deposit-IsSolvent :
    (h : Hashes) (b : Bridge) (deposit : DepositRecord) (daily : Counters)
    (mapping : ExternalAssetMapping) (canonical : CanonicalAsset) (amount slot : ℕ)
    (result : ℕ × Bridge)
    → h.held deposit.deposit_id ≡ false
    → IsDistinct h
    → IsSolvent h b
    → canonical.mint ≡ h.oasset_mint_id mapping.canonical_asset
    → credit_deposit h b deposit daily mapping canonical amount slot ≡ ok result
    → IsSolvent h (result.1)
unfolding credit_deposit mark_processed
credit_deposit-IsSolvent h b deposit daily mapping canonical amount slot result u d v named e =
    let asset = mapping.canonical_asset in
    let (mid, e1, f1) =
      >>=-eq-ok (record_deposit b.reserves (key_of deposit.asset) asset amount slot) _ e in
    let (t, e2, f2) =
      >>=-eq-ok
        (tokens_or mint_error
          (mint_to_owner b.tokens canonical.mint deposit.recipient amount h.bridge_authority_id))
        _ f1 in
    let (s, e3, f3) = >>=-eq-ok (increase_supply mid asset amount) _ f2 in
    let (_, _, f4) =
      >>=-eq-ok
        (check_invariant (mark_processed h (deposited b daily s t) deposit.deposit_id).reserves
          asset)
        _ f3 in
    let minted : mint_to_owner b.tokens canonical.mint deposit.recipient amount
          h.bridge_authority_id
        ≡ done t =
      tokens_or-done mint_error _ t e2 in
    IsSolvent-with h b (result.1) s t v (ground (arith, u, f4)) (ground (arith, u, f4))
      (ground (arith, u, f4))
      (credited-IsMatched b.reserves mid s (key_of deposit.asset) asset amount slot v.reserves_match
        e1 e3)
      (λ at.
        let (_, kept, _) =
          record_deposit-frees b.reserves mid (key_of deposit.asset) asset amount slot at e1 in
        let (active, _, _, _, _) = increase_supply-adds mid s asset amount at e3 in
        credited_circulating h b mid s t asset canonical.mint deposit.recipient amount at d v named
          minted kept active)

pub credit_deposit-marks :
    (h : Hashes) (b : Bridge) (deposit : DepositRecord) (daily : Counters)
    (mapping : ExternalAssetMapping) (canonical : CanonicalAsset) (amount slot : ℕ)
    (result : ℕ × Bridge)
    → h.held deposit.deposit_id ≡ false
    → credit_deposit h b deposit daily mapping canonical amount slot ≡ ok result
    → is_processed h (result.1) deposit.deposit_id ≡ true
unfolding credit_deposit mark_processed
credit_deposit-marks h b deposit daily mapping canonical amount slot result u e =
    let asset = mapping.canonical_asset in
    let (mid, _, f1) =
      >>=-eq-ok (record_deposit b.reserves (key_of deposit.asset) asset amount slot) _ e in
    let (t, _, f2) =
      >>=-eq-ok
        (tokens_or mint_error
          (mint_to_owner b.tokens canonical.mint deposit.recipient amount h.bridge_authority_id))
        _ f1 in
    let (s, _, f3) = >>=-eq-ok (increase_supply mid asset amount) _ f2 in
    let (_, _, f4) =
      >>=-eq-ok
        (check_invariant (mark_processed h (deposited b daily s t) deposit.deposit_id).reserves
          asset)
        _ f3 in
    ground (arith, u, f4)

-- A deposit that is accepted: signed by an approved relayer, not seen before and marked as seen.
pub record IsCredited (h : Hashes) (verify : SignedDepositRecord → Bool) (b : Bridge)
    (signed : SignedDepositRecord) (c : Bridge) : Type 0 where
  pub solvent : IsSolvent h c
  pub attested : (b.relayers signed.relayer_pubkey && verify signed) ≡ true
  pub unseen : is_processed h b signed.deposit.deposit_id ≡ false
  pub marked : is_processed h c signed.deposit.deposit_id ≡ true

-- With distinct mints for distinct canonical assets, and a solvent bridge: a deposit whose identifier is
-- not the slot of a record, counter or approval of the bridge, and that is accepted, is
-- signed by an approved relayer and was not processed before, is marked as processed afterwards, and
-- leaves the bridge solvent.
pub process_deposit_to_oasset-IsCredited :
    (devnet : Bool) (h : Hashes) (verify : SignedDepositRecord → Bool) (b c : Bridge)
    (signed : SignedDepositRecord) (slot mint : ℕ)
    → h.held signed.deposit.deposit_id ≡ false
    → IsDistinct h
    → IsSolvent h b
    → process_deposit_to_oasset devnet h verify b signed slot ≡ ok (mint, c)
    → IsCredited h verify b signed c
unfolding process_deposit_to_oasset
process_deposit_to_oasset-IsCredited devnet h verify b c signed slot mint u d v e =
    let deposit = signed.deposit in
    let (_, g1, e1) =
      >>=-eq-ok (guard (b.relayers signed.relayer_pubkey && verify signed) invalid_deposit_proof) _
        e in
    let (_, _, e2) = >>=-eq-ok (guard (not (deposit.amount == 0)) invalid_amount) _ e1 in
    let (_, g3, e3) =
      >>=-eq-ok
        (guard (not (is_processed h b deposit.deposit_id))
          (deposit_already_processed deposit.deposit_id))
        _ e2 in
    let (mapping, _, e4) =
      >>=-eq-ok (ok_or (get_mapping b deposit.asset) (asset_not_mapped (key_of deposit.asset))) _
        e3 in
    let (_, _, e5) = >>=-eq-ok (guard mapping.mint_enabled mint_disabled) _ e4 in
    let (daily, _, e6) =
      >>=-eq-ok
        (check_and_record_deposit devnet mapping.risk b.daily (key_of deposit.asset) deposit.amount
          slot)
        _ e5 in
    let (canonical, q, e7) =
      >>=-eq-ok
        (ok_or (get_canonical_asset b mapping.canonical_asset)
          (canonical_asset_not_found mapping.canonical_asset))
        _ e6 in
    let (_, _, e8) =
      >>=-eq-ok (guard canonical.active (canonical_asset_inactive mapping.canonical_asset)) _ e7 in
    let (amount, _, e9) =
      >>=-eq-ok
        (normalize_amount deposit.amount mapping.external_decimals mapping.canonical_decimals) _
        e8 in
    let found =
      ok_or-eq-ok (get_canonical_asset b mapping.canonical_asset)
        (canonical_asset_not_found mapping.canonical_asset) canonical q in
    record {
      solvent =
          credit_deposit-IsSolvent h b deposit daily mapping canonical amount slot (mint, c) u d v
            (v.named mapping.canonical_asset canonical found) e9;
      attested = guard-eq-ok _ invalid_deposit_proof g1;
      unseen = ground (
        arith,
        guard-eq-ok (not (is_processed h b deposit.deposit_id))
            (deposit_already_processed deposit.deposit_id) g3,
      );
      marked = credit_deposit-marks h b deposit daily mapping canonical amount slot (mint, c) u e9;
    }
