-- ===== src/Liquid/Custody.antt =====
-- ace-liquid/src/clob.rs: a market's funds against what its account holds in the token ledger.
use ace_chain.Common.{
  ℕ, ◌+◌, ◌≤◌, ◌≡◌, ◌≢◌, refl, ap, sym, ◌∙◌, Bool, true, false, Option, none, some, not, ◌&&◌, List,
  ◌==◌, if◌then◌else◌, arith,
}
use ace_chain.Liquid.Types.{
  Market, Order, PlaceOrder, Trade, LiquidResult, ok, err, >>=-eq-ok, ok_elim, ◌>>=◌, ◌>>◌, guard,
  zero_amount, market_not_found, market_inactive,
}
use ace_chain.Liquid.Book.{PriceLadder, Book, Asset, base, quote, credit_balance}
use ace_chain.Liquid.Funds.{SameQueues, locked_total, total, of_asset, credit_frame, credit_total}
use ace_chain.Liquid.Invariant.{IsValid, same-IsValid}
use ace_chain.Liquid.Clob.{place_order, cancel_order}
use ace_chain.Liquid.Placed.{place_order-IsPlaced}
use ace_chain.Liquid.Cancelling.{cancel_order-IsCancelled}
use ace_chain.Liquid.Collateral.{asset_of, mint_of, named_asset, settled, move_tokens, deposit}
use ace_chain.Vm.Token.{Tokens, TokenResult, done, refused, balance_of, transfer_between_owners}
use ace_chain.Vm.Token.Supply.{transfer-moves}

pub move_tokens-moves :
    (t u : Tokens) (mint from to amount at user : ℕ)
    → from ≢ to
    → move_tokens t mint from to amount ≡ ok u
    → balance_of u at user + (if mint == at && from == user then amount else 0)
      ≡ balance_of t at user + (if mint == at && to == user then amount else 0)
unfolding move_tokens
move_tokens-moves t u mint from to amount at user n e =
    go (amount == 0) refl (transfer_between_owners t mint from to amount) refl e
  where
    go :
        (z : Bool)
        → (amount == 0) ≡ z
        → (r : TokenResult) → transfer_between_owners t mint from to amount ≡ r
        → (if z then ok t else settled r) ≡ ok u
        → balance_of u at user + (if mint == at && from == user then amount else 0)
          ≡ balance_of t at user + (if mint == at && to == user then amount else 0)
    go true z r h e = ground (arith, z, e)
    go false z (done w) h e =
        let same : w ≡ u = cc e in
        transfer-moves t u mint from to amount at user n (h ∙ ap done same)
    go false z (refused x w) h e = cc e

pub named_asset-ok : (b : ℕ) (a : Asset) → named_asset b ≡ ok a → asset_of b ≡ some a
named_asset-ok b a e = ground (arith, e)

module _ {L : PriceLadder} where
  -- The account of a market holds at least what the market owes its users of each asset.
  abbrev pub Covered : ℕ → Market → Tokens → Book L → Type 0
  Covered account m t b = (at : Asset) → total b at ≤ balance_of t (mint_of m at) account

  pub same_locked :
      (b c : Book L) (at : Asset) → SameQueues b c → locked_total c at ≡ locked_total b at
  same_locked b c base s = rw (s.0) refl
  same_locked b c quote s = rw (s.0) refl

  pub record IsDeposited (account : ℕ) (m : Market) (t : Tokens) (b : Book L) (byte amount : ℕ)
      (result : Tokens × Book L) : Type 0 where
    pub asset : Asset
    pub named : asset_of byte ≡ some asset
    pub valid : IsValid (result.1)
    pub same_market : result.1.market ≡ b.market
    pub grown : (at : Asset) → total (result.1) at ≡ total b at + of_asset asset amount at
    pub covered : Covered account m (result.0) (result.1)

  deposited-Covered :
      (account : ℕ) (m : Market) (t u : Tokens) (b c : Book L) (user amount : ℕ) (asset at : Asset)
      → m.base_mint ≢ m.quote_mint
      → user ≢ account
      → Covered account m t b
      → move_tokens t (mint_of m asset) user account amount ≡ ok u
      → total c at ≡ total b at + of_asset asset amount at
      → total c at ≤ balance_of u (mint_of m at) account
  deposited-Covered account m t u b c user amount base base n w v e s = ground (
    arith,
    v base,
    w,
    s,
    move_tokens-moves t u m.base_mint user account amount m.base_mint account w e,
  )
  deposited-Covered account m t u b c user amount base quote n w v e s = ground (
    arith,
    v quote,
    w,
    n,
    s,
    move_tokens-moves t u m.base_mint user account amount m.quote_mint account w e,
  )
  deposited-Covered account m t u b c user amount quote base n w v e s = ground (
    arith,
    v base,
    w,
    n,
    s,
    move_tokens-moves t u m.quote_mint user account amount m.base_mint account w e,
  )
  deposited-Covered account m t u b c user amount quote quote n w v e s = ground (
    arith,
    v quote,
    w,
    s,
    move_tokens-moves t u m.quote_mint user account amount m.quote_mint account w e,
  )

  -- A deposit that succeeds, into a market of two different mints and by a user other than the
  -- market's own account, raises the market's total of the named asset by the amount and no other,
  -- and leaves a covered market covered and a valid book valid.
  pub deposit-IsDeposited :
      (account : ℕ) (m : Market) (t : Tokens) (b : Book L) (user byte amount : ℕ)
      (result : Tokens × Book L)
      → IsValid b
      → b.market ≡ some m
      → m.base_mint ≢ m.quote_mint
      → user ≢ account
      → Covered account m t b
      → deposit account t b user byte amount ≡ ok result
      → IsDeposited account m t b byte amount result
  unfolding deposit
  deposit-IsDeposited account m t b user byte amount result v is n w held e =
      let (_, _, e2) = >>=-eq-ok (guard (not (amount == 0)) zero_amount) _ e in go (b.market) is e2
    where
      go :
          (o : Option Market)
          → o ≡ some m
          → elim o as (λ _. LiquidResult (Tokens × Book L)) [
            | none ↦ err market_not_found
            | some m ↦ do
              guard m.active market_inactive
              asset ← named_asset byte
              u ← move_tokens t (mint_of m asset) user account amount
              c ← credit_balance b user asset amount
              ok (u, c)
          ]
            ≡ ok result
          → IsDeposited account m t b byte amount result
      go none is e = cc
      go (some k) is e =
          let same : k ≡ m = cc is in
          let (_, _, e2) = >>=-eq-ok (guard k.active market_inactive) _ e in
          let (asset, known, e3) = >>=-eq-ok (named_asset byte) _ e2 in
          let (u, moved, e4) =
            >>=-eq-ok (move_tokens t (mint_of k asset) user account amount) _ e3 in
          let (c, credit, e5) = >>=-eq-ok (credit_balance b user asset amount) _ e4 in
          let s = credit_frame b c user asset amount credit in
          let grown : (at : Asset) → total c at ≡ total b at + of_asset asset amount at = λ at.
            omega (arith, credit_total b c user asset amount at credit, same_locked b c at s) in
          ok_elim (λ r. IsDeposited account m t b byte amount r) _ result e5
            (record {
              asset = asset;
              named = named_asset-ok byte asset known;
              valid = same-IsValid b c s v;
              same_market = s.4;
              grown = grown;
              covered = λ at.
                  deposited-Covered account m t u b c user amount asset at n w held
                    (ap (λ k. move_tokens t (mint_of k asset) user account amount) (sym same)
                      ∙ moved)
                    (grown at);
            })

  -- An order that is placed or cancelled on a valid book leaves a covered market covered.
  pub trading-Covered :
      (account : ℕ) (m : Market) (t : Tokens) (b : Book L)
      → IsValid b
      → Covered account m t b
      → ((r : PlaceOrder) (result : Book L × ℕ × List Trade)
          → place_order b r ≡ ok result
          → Covered account m t (result.0))
        × ((owner id : ℕ) (c : Book L) (o : Order)
            → cancel_order b owner id ≡ ok (c, o)
            → Covered account m t c)
  trading-Covered account m t b v held = (
    λ r result e at. omega (arith, held at, (place_order-IsPlaced b r result v e).conserved at),
    λ owner id c o e at.
        omega (arith, held at, (cancel_order-IsCancelled b c owner id o v e).conserved at),
  )
