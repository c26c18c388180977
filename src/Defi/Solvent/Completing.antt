-- ===== src/Defi/Solvent/Completing.antt =====
-- ace-defi/src/wire.rs: the completion of a withdrawal keeps the bridge solvent.
use ace_chain.Common.{ℕ, ◌+◌, ◌≡◌, ◌≤◌, ap, sym, Bool, true, Option, none, some, arith}
use ace_chain.Common.Results.{ok, >>=-eq-ok}
use ace_chain.Vm.Token.{mint_value, balance_of}
use ace_chain.Defi.Assets.{key_of}
use ace_chain.Defi.Amounts.{normalize_amount}
use ace_chain.Defi.Reserve.{Reserves, active_supply, finalize_withdrawal}
use ace_chain.Defi.Reserve.Reconciled.{finalize_withdrawal-IsReconciled}
use ace_chain.Defi.Reserve.Effects.{finalize_withdrawal-keeps}
use ace_chain.Defi.Canonical.{Bridge, Hashes, ExternalAssetMapping, WithdrawalRecord, get_mapping}
use ace_chain.Defi.Withdraw.{
  WithdrawalCompletionRecord, verify_completion, finalize_mapped, complete_indexed_withdrawal,
}
use ace_chain.Defi.Solvent.{IsMatched, IsSolvent, IsSolvent-with}

finalized-IsMatched :
    (r s : Reserves) (external amount slot : ℕ)
    → IsMatched r
    → finalize_withdrawal r external amount slot ≡ ok s
    → IsMatched s
finalized-IsMatched r s external amount slot v e = record {
  reconciled = finalize_withdrawal-IsReconciled r s external amount slot v.reconciled e;
  matched = λ at.
      let (free, kept, _) = finalize_withdrawal-keeps r s external amount slot at e in
      grind (arith, v.matched at, free, kept);
  unbuffered = λ at.
      let (free, kept, _) = finalize_withdrawal-keeps r s external amount slot at e in
      grind (arith, v.unbuffered at, kept);
  fresh = λ at m.
      let (free, kept, less) = finalize_withdrawal-keeps r s external amount slot at e in
      grind (arith, v.fresh at, m, kept, less);
}

finalize_mapped-IsMatched :
    (b : Bridge) (w : WithdrawalRecord) (o : Option ExternalAssetMapping) (s : Reserves)
    → IsMatched b.reserves
    → finalize_mapped b w o ≡ ok s
    → IsMatched s × (s.supplies ≡ b.reserves.supplies)
unfolding finalize_mapped
finalize_mapped-IsMatched b w none s v e =
    let same : b.reserves ≡ s = cc e in (rw⁻¹ same v, ap (λ k. k.supplies) (sym same))
finalize_mapped-IsMatched b w (some mapping) s v e =
    let (amount, _, e1) =
      >>=-eq-ok (normalize_amount w.amount mapping.external_decimals mapping.canonical_decimals) _
        e in
    let (_, kept, _) =
      finalize_withdrawal-keeps b.reserves s (key_of w.asset) amount w.requested_at 0 e1 in
    (finalized-IsMatched b.reserves s (key_of w.asset) amount w.requested_at v e1, kept)

still_circulating :
    (h : Hashes) (b : Bridge) (s : Reserves) (at : ℕ)
    → IsSolvent h b
    → s.supplies ≡ b.reserves.supplies
    → (mint_value b.tokens (h.oasset_mint_id at)).0
      ≤ active_supply s at + balance_of b.tokens (h.oasset_mint_id at) h.bridge_authority_id
still_circulating h b s at v kept = rw kept (v.circulating at)

-- A completion that is accepted: the reserves still match, and the record, which was open, is closed.
pub complete_indexed_withdrawal-IsSolvent :
    (h : Hashes) (hash : WithdrawalRecord → ℕ) (verify : WithdrawalCompletionRecord → Bool)
    (b c : Bridge) (completion : WithdrawalCompletionRecord) (w : WithdrawalRecord)
    → IsSolvent h b
    → complete_indexed_withdrawal hash verify b completion ≡ ok (w, c)
    → IsSolvent h c × (c.completions completion.withdrawal_id ≡ true)
unfolding complete_indexed_withdrawal
complete_indexed_withdrawal-IsSolvent h hash verify b c completion w v e =
    let (old, _, e1) = >>=-eq-ok (verify_completion hash verify b completion) _ e in
    let (s, e2, e3) = >>=-eq-ok (finalize_mapped b old (get_mapping b old.asset)) _ e1 in
    let (m, kept) =
      finalize_mapped-IsMatched b old (get_mapping b old.asset) s v.reserves_match e2 in
    (
      IsSolvent-with h b c s b.tokens v (ground (arith, e3)) (ground (arith, e3))
          (ground (arith, e3)) m (λ at. still_circulating h b s at v kept),
      ground (arith, e3),
    )
