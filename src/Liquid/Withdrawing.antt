-- ===== src/Liquid/Withdrawing.antt =====
-- ace-liquid/src/clob.rs: funds that leave a market.
use ace_chain.Common.{ℕ, ◌+◌, ◌≤◌, ◌≡◌, ◌≢◌, ap, sym, ◌∙◌, Option, none, some, not, ◌==◌, arith}
use ace_chain.Liquid.Types.{
  Market, LiquidResult, ok, err, >>=-eq-ok, ok_elim, ◌>>=◌, guard, zero_amount, market_not_found,
}
use ace_chain.Liquid.Book.{PriceLadder, Book, Asset, base, quote, debit_balance}
use ace_chain.Liquid.Funds.{total, of_asset, debit_frame, debit_total}
use ace_chain.Liquid.Invariant.{IsValid, same-IsValid}
use ace_chain.Liquid.Collateral.{asset_of, mint_of, named_asset, move_tokens, withdraw}
use ace_chain.Vm.Token.{Tokens, balance_of}
use ace_chain.Liquid.Custody.{Covered, move_tokens-moves, named_asset-ok, same_locked}

module _ {L : PriceLadder} where
  pub record IsWithdrawn (account : ℕ) (m : Market) (t : Tokens) (b : Book L) (byte amount : ℕ)
      (result : Tokens × Book L) : Type 0 where
    pub asset : Asset
    pub named : asset_of byte ≡ some asset
    pub valid : IsValid (result.1)
    pub same_market : result.1.market ≡ b.market
    pub shrunk : (at : Asset) → total (result.1) at + of_asset asset amount at ≡ total b at
    pub covered : Covered account m (result.0) (result.1)

  withdrawn-Covered :
      (account : ℕ) (m : Market) (t u : Tokens) (b c : Book L) (user amount : ℕ) (asset at : Asset)
      → m.base_mint ≢ m.quote_mint
      → user ≢ account
      → Covered account m t b
      → move_tokens t (mint_of m asset) account user amount ≡ ok u
      → total c at + of_asset asset amount at ≡ total b at
      → total c at ≤ balance_of u (mint_of m at) account
  withdrawn-Covered account m t u b c user amount base base n w v e s = ground (
    arith,
    v base,
    w,
    s,
    move_tokens-moves t u m.base_mint account user amount m.base_mint account (λ p. w (sym p)) e,
  )
  withdrawn-Covered account m t u b c user amount base quote n w v e s = ground (
    arith,
    v quote,
    w,
    n,
    s,
    move_tokens-moves t u m.base_mint account user amount m.quote_mint account (λ p. w (sym p)) e,
  )
  withdrawn-Covered account m t u b c user amount quote base n w v e s = ground (
    arith,
    v base,
    w,
    n,
    s,
    move_tokens-moves t u m.quote_mint account user amount m.base_mint account (λ p. w (sym p)) e,
  )
  withdrawn-Covered account m t u b c user amount quote quote n w v e s = ground (
    arith,
    v quote,
    w,
    s,
    move_tokens-moves t u m.quote_mint account user amount m.quote_mint account (λ p. w (sym p)) e,
  )

  -- A withdrawal that succeeds, from a market of two different mints and by a user other than the
  -- market's own account, lowers the market's total of the named asset by the amount and no other,
  -- and leaves a covered market covered and a valid book valid.
  pub withdraw-IsWithdrawn :
      (account : ℕ) (m : Market) (t : Tokens) (b : Book L) (user byte amount : ℕ)
      (result : Tokens × Book L)
      → IsValid b
      → b.market ≡ some m
      → m.base_mint ≢ m.quote_mint
      → user ≢ account
      → Covered account m t b
      → withdraw account t b user byte amount ≡ ok result
      → IsWithdrawn account m t b byte amount result
  unfolding withdraw
  withdraw-IsWithdrawn account m t b user byte amount result v is n w held e =
      let (_, _, e2) = >>=-eq-ok (guard (not (amount == 0)) zero_amount) _ e in go (b.market) is e2
    where
      go :
          (o : Option Market)
          → o ≡ some m
          → elim o as (λ _. LiquidResult (Tokens × Book L)) [
            | none ↦ err market_not_found
            | some m ↦ do
              asset ← named_asset byte
              c ← debit_balance b user asset amount
              u ← move_tokens t (mint_of m asset) account user amount
              ok (u, c)
          ]
            ≡ ok result
          → IsWithdrawn account m t b byte amount result
      go none is e = cc
      go (some k) is e =
          let same : k ≡ m = cc is in
          let (asset, known, e3) = >>=-eq-ok (named_asset byte) _ e in
          let (c, debit, e4) = >>=-eq-ok (debit_balance b user asset amount) _ e3 in
          let (u, moved, e5) =
            >>=-eq-ok (move_tokens t (mint_of k asset) account user amount) _ e4 in
          let s = debit_frame b c user asset amount debit in
          let shrunk : (at : Asset) → total c at + of_asset asset amount at ≡ total b at =
            λ at. omega (arith, debit_total b c user asset amount at debit, same_locked b c at s) in
          ok_elim (λ r. IsWithdrawn account m t b byte amount r) _ result e5
            (record {
              asset = asset;
              named = named_asset-ok byte asset known;
              valid = same-IsValid b c s v;
              same_market = s.4;
              shrunk = shrunk;
              covered = λ at.
                  withdrawn-Covered account m t u b c user amount asset at n w held
                    (ap (λ k. move_tokens t (mint_of k asset) account user amount) (sym same)
                      ∙ moved)
                    (shrunk at);
            })
