-- ===== src/Liquid/Collateral.antt =====
-- ace-liquid/src/clob.rs: funds enter and leave a market through the token ledger.
use ace_chain.Common.{ℕ, Option, none, some, not, ◌==◌, if◌then◌else◌}
use ace_chain.Liquid.Types.{
  Market, LiquidResult, ok, err, ◌>>=◌, ◌>>◌, guard, zero_amount, market_not_found, market_inactive,
  settlement, invalid_payload,
}
use ace_chain.Liquid.Book.{PriceLadder, Book, Asset, base, quote, credit_balance, debit_balance}
use ace_chain.Vm.Token.{Tokens, TokenResult, done, refused, transfer_between_owners}

-- The bytes `ASSET_BASE` and `ASSET_QUOTE`.
abbrev pub asset_of : ℕ → Option Asset
asset_of b = if b == 0 then some base else if b == 1 then some quote else none

abbrev pub mint_of : Market → Asset → ℕ
mint_of m base = m.base_mint
mint_of m quote = m.quote_mint

-- The asset that a byte names; `mint_for_asset` is `mint_of` of it.
abbrev pub named_asset : ℕ → LiquidResult Asset
named_asset b = elim (asset_of b) [ none ↦ err invalid_payload | some a ↦ ok a ]

abbrev pub settled : TokenResult → LiquidResult Tokens
settled (done t) = ok t
settled (refused e t) = err settlement

-- The account that a move of no tokens creates holds nothing that the model has.
unfoldable pub move_tokens : Tokens → ℕ → ℕ → ℕ → ℕ → LiquidResult Tokens
unfolding transfer_between_owners
move_tokens t mint from to amount =
    if amount == 0 then ok t else settled (transfer_between_owners t mint from to amount)

module _ {L : PriceLadder} where
  -- The ledger and a market, whose account in the ledger is the first argument. An error rolls both
  -- back: the result has them only when there is none.
  unfoldable pub deposit : ℕ → Tokens → Book L → ℕ → ℕ → ℕ → LiquidResult (Tokens × Book L)
  unfolding move_tokens credit_balance
  deposit account t b user asset_byte amount = do
    guard (not (amount == 0)) zero_amount
    elim b.market [
      | none ↦ err market_not_found
      | some m ↦ do
        guard m.active market_inactive
        asset ← named_asset asset_byte
        u ← move_tokens t (mint_of m asset) user account amount
        c ← credit_balance b user asset amount
        ok (u, c)
    ]

  -- A market that is not active can be left.
  unfoldable pub withdraw : ℕ → Tokens → Book L → ℕ → ℕ → ℕ → LiquidResult (Tokens × Book L)
  unfolding move_tokens debit_balance
  withdraw account t b user asset_byte amount = do
    guard (not (amount == 0)) zero_amount
    elim b.market [
      | none ↦ err market_not_found
      | some m ↦ do
        asset ← named_asset asset_byte
        c ← debit_balance b user asset amount
        u ← move_tokens t (mint_of m asset) account user amount
        ok (u, c)
    ]
