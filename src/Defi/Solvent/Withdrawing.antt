-- ===== src/Defi/Solvent/Withdrawing.antt =====
-- ace-defi/src/withdraw.rs: a withdrawal keeps the bridge solvent.
use ace_chain.Common.{
  ℕ, ◌+◌, ◌≡◌, ◌≢◌, ◌≤◌, refl, Bool, false, not, some, ◌==◌, leb, if◌then◌else◌, arith,
}
use ace_chain.Common.Assoc.{lookup, lookup-insert}
use ace_chain.Common.Results.{ok, guard, ok_or, >>=-eq-ok, ok_or-eq-ok}
use ace_chain.Vm.Token.{Tokens, done, mint_value, balance_of, transfer_between_owners}
use ace_chain.Vm.Token.Supply.{transfer-moves, transfer-mints}
use ace_chain.Defi.Ledger.{tokens_or, tokens_or-done}
use ace_chain.Defi.Types.{
  burn_error, insufficient_balance, invalid_amount, asset_not_mapped, canonical_asset_not_found,
  canonical_asset_inactive, mapping_mismatch, withdraw_disabled, invalid_destination,
}
use ace_chain.Defi.Assets.{key_of, valid_destination}
use ace_chain.Defi.Amounts.{normalize_amount, IsRounded, normalize_amount-IsRounded}
use ace_chain.Defi.Risk.{Counters, check_and_record_withdrawal}
use ace_chain.Defi.Reserve.{
  Reserves, active_supply, reserve_withdrawal, decrease_supply, check_invariant,
}
use ace_chain.Defi.Reserve.Reconciled.{
  reserve_withdrawal-IsReconciled, decrease_supply-IsReconciled,
}
use ace_chain.Defi.Reserve.Effects.{of_asset, reserve_withdrawal-takes, decrease_supply-takes}
use ace_chain.Defi.Canonical.{
  Bridge, Hashes, ExternalAssetMapping, WithdrawalRecord, get_canonical_asset, get_mapping,
}
use ace_chain.Defi.Withdraw.{WithdrawRequest, debit_withdrawal, request_oasset_withdrawal}
use ace_chain.Defi.Solvent.{IsMatched, IsSolvent, IsDistinct, of_mint, IsSolvent-with}

pub debited-IsMatched :
    (r mid s : Reserves) (external canonical amount slot : ℕ)
    → IsMatched r
    → reserve_withdrawal r external canonical amount slot ≡ ok mid
    → decrease_supply mid canonical amount ≡ ok s
    → IsMatched s
debited-IsMatched r mid s external canonical amount slot v e f = record {
  reconciled =
      decrease_supply-IsReconciled mid s canonical amount
        (reserve_withdrawal-IsReconciled r mid external canonical amount slot v.reconciled e) f;
  matched = λ at.
      let (taken, kept, _) = reserve_withdrawal-takes r mid external canonical amount slot at e in
      let (less, _, same, _, _) = decrease_supply-takes mid s canonical amount at f in
      grind (arith, v.matched at, taken, kept, less, same);
  unbuffered = λ at.
      let (_, kept, _) = reserve_withdrawal-takes r mid external canonical amount slot at e in
      let (_, buffer, _, _, _) = decrease_supply-takes mid s canonical amount at f in
      grind (arith, v.unbuffered at, kept, buffer);
  fresh = λ at m.
      let (_, kept, total) = reserve_withdrawal-takes r mid external canonical amount slot at e in
      let (_, _, _, totals, none_before) = decrease_supply-takes mid s canonical amount at f in
      grind (arith, v.fresh at, kept, totals, total, none_before m);
}

debited_circulating :
    (h : Hashes) (b : Bridge) (mid s : Reserves) (t : Tokens) (asset mint sender amount at : ℕ)
    → IsDistinct h
    → IsSolvent h b
    → sender ≢ h.bridge_authority_id
    → mint ≡ h.oasset_mint_id asset
    → transfer_between_owners b.tokens mint sender h.bridge_authority_id amount ≡ done t
    → mid.supplies ≡ b.reserves.supplies
    → active_supply s at + of_asset asset amount at ≡ active_supply mid at
    → (mint_value t (h.oasset_mint_id at)).0
      ≤ active_supply s at + balance_of t (h.oasset_mint_id at) h.bridge_authority_id
debited_circulating h b mid s t asset mint sender amount at d v n named burned kept active =
    let user = h.bridge_authority_id in
    let moved =
      transfer-moves b.tokens t mint sender user amount (h.oasset_mint_id at) user n burned in
    let same : mint_value t (h.oasset_mint_id at) ≡ mint_value b.tokens (h.oasset_mint_id at) =
      rw (transfer-mints b.tokens t mint sender user amount burned) refl in
    let share : (if mint == h.oasset_mint_id at then amount else 0) ≡ of_asset asset amount at =
      rw named (of_mint h asset amount at d) in
    let before : active_supply mid at ≡ active_supply b.reserves at = rw kept refl in
    ground (arith, v.circulating at, moved, same, share, n, active, before)

pub debit_withdrawal-IsSolvent :
    (h : Hashes) (b : Bridge) (r : WithdrawRequest) (daily : Counters) (mint external slot id : ℕ)
    (result : WithdrawalRecord × Bridge)
    → IsDistinct h
    → IsSolvent h b
    → r.sender ≢ h.bridge_authority_id
    → mint ≡ h.oasset_mint_id r.canonical_asset
    → debit_withdrawal h b r daily mint external slot id ≡ ok result
    → IsSolvent h (result.1)
      × (lookup id (result.1.withdrawals) ≡ some (result.0))
      × (result.0.amount ≡ external)
      × (result.0.completed ≡ false)
unfolding debit_withdrawal
debit_withdrawal-IsSolvent h b r daily mint external slot id result d v n named e =
    let asset = r.canonical_asset in
    let balance = balance_of b.tokens mint r.sender in
    let target = key_of r.target_asset in
    let (_, _, f0) =
      >>=-eq-ok (guard (leb r.amount balance) (insufficient_balance balance r.amount)) _ e in
    let (mid, e1, f1) = >>=-eq-ok (reserve_withdrawal b.reserves target asset r.amount slot) _ f0 in
    let (t, e2, f2) =
      >>=-eq-ok
        (tokens_or burn_error
          (transfer_between_owners b.tokens mint r.sender h.bridge_authority_id r.amount))
        _ f1 in
    let (s, e3, f3) = >>=-eq-ok (decrease_supply mid asset r.amount) _ f2 in
    let (_, _, f4) = >>=-eq-ok (check_invariant s asset) _ f3 in
    let burned = tokens_or-done burn_error _ t e2 in
    let solvent =
      IsSolvent-with h b (result.1) s t v (ground (arith, f4)) (ground (arith, f4))
        (ground (arith, f4))
        (debited-IsMatched b.reserves mid s target asset r.amount slot v.reserves_match e1 e3)
        (λ at.
          let (_, kept, _) =
            reserve_withdrawal-takes b.reserves mid target asset r.amount slot at e1 in
          let (active, _, _, _, _) = decrease_supply-takes mid s asset r.amount at e3 in
          debited_circulating h b mid s t asset mint r.sender r.amount at d v n named burned kept
            active) in
    (
      solvent,
      ground (arith, f4, lookup-insert id id (result.0) b.withdrawals),
      ground (arith, f4),
      ground (arith, f4),
    )

same_worth :
    (amount from to b c : ℕ) → c ≡ b → IsRounded amount from to b → IsRounded amount from to c
same_worth amount from to b c e r = rw e r

-- A withdrawal that is accepted: recorded as open, for an amount of the external asset that is worth at
-- most what is burned.
pub record IsDebited (h : Hashes) (b : Bridge) (r : WithdrawRequest) (id : ℕ) (w : WithdrawalRecord)
    (c : Bridge) : Type 0 where
  pub solvent : IsSolvent h c
  pub recorded : lookup id c.withdrawals ≡ some w
  pub open_still : w.completed ≡ false
  pub mapping : ExternalAssetMapping
  pub mapped : get_mapping b r.target_asset ≡ some mapping
  pub worth : IsRounded r.amount mapping.canonical_decimals mapping.external_decimals w.amount

-- With distinct mints for distinct canonical assets, a solvent bridge and a sender other than the
-- bridge's own account: a withdrawal that is accepted is recorded as open under its identifier, for an
-- amount of the mapped external asset that is worth at most what is burned and less than one unit below
-- it, and leaves the bridge solvent.
pub request_oasset_withdrawal-IsDebited :
    (devnet : Bool) (h : Hashes) (b c : Bridge) (r : WithdrawRequest) (slot id : ℕ)
    (w : WithdrawalRecord)
    → IsDistinct h
    → IsSolvent h b
    → r.sender ≢ h.bridge_authority_id
    → request_oasset_withdrawal devnet h b r slot id ≡ ok (w, c)
    → IsDebited h b r id w c
unfolding request_oasset_withdrawal
request_oasset_withdrawal-IsDebited devnet h b c r slot id w d v n e =
    let asset = r.canonical_asset in
    let (_, _, e1) = >>=-eq-ok (guard (not (r.amount == 0)) invalid_amount) _ e in
    let (canonical, q, e2) =
      >>=-eq-ok (ok_or (get_canonical_asset b asset) (canonical_asset_not_found asset)) _ e1 in
    let (_, _, e3) = >>=-eq-ok (guard canonical.active (canonical_asset_inactive asset)) _ e2 in
    let (mapping, m, e4) =
      >>=-eq-ok (ok_or (get_mapping b r.target_asset) (asset_not_mapped (key_of r.target_asset))) _
        e3 in
    let (_, _, e5) = >>=-eq-ok (guard (mapping.canonical_asset == asset) mapping_mismatch) _ e4 in
    let (_, _, e6) = >>=-eq-ok (guard mapping.withdraw_enabled withdraw_disabled) _ e5 in
    let (daily, _, e7) =
      >>=-eq-ok
        (check_and_record_withdrawal devnet mapping.risk b.daily (key_of r.target_asset) r.amount
          slot)
        _ e6 in
    let (_, _, e8) =
      >>=-eq-ok (guard (valid_destination r.target_asset r.external_dest) invalid_destination) _
        e7 in
    let (external, x, e9) =
      >>=-eq-ok (normalize_amount r.amount mapping.canonical_decimals mapping.external_decimals) _
        e8 in
    let found =
      ok_or-eq-ok (get_canonical_asset b asset) (canonical_asset_not_found asset) canonical q in
    let (solvent, recorded, amount, open_still) =
      debit_withdrawal-IsSolvent h b r daily canonical.mint external slot id (w, c) d v n
        (v.named asset canonical found) e9 in
    record {
      solvent = solvent;
      recorded = recorded;
      open_still = open_still;
      mapping = mapping;
      mapped =
          ok_or-eq-ok (get_mapping b r.target_asset) (asset_not_mapped (key_of r.target_asset))
            mapping m;
      worth =
          same_worth r.amount mapping.canonical_decimals mapping.external_decimals external w.amount
            amount
            (normalize_amount-IsRounded r.amount mapping.canonical_decimals
              mapping.external_decimals external x);
    }
