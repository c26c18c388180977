-- ===== src/Liquid/Execute.antt =====
-- ace-liquid/src/wire.rs: the execution of a market transaction. The books of the markets stand in one map
-- and the nonces of the accounts in another; a call that fails is rolled back, so its result has no state.
pub mod Once
mod Tests
use ace_chain.Common.{
  ℕ, suc, ◌+◌, ◌%◌, ◌≡◌, refl, ap, Option, none, some, List, [], ◌∷◌, ◌==◌, if◌then◌else◌, length,
  u64_max, u32_mod, arith,
}
use ace_chain.Common.Assoc.{Map, lookup, insert, lookup-insert}
use ace_chain.Vm.Token.{Tokens}
use ace_chain.Liquid.Types.{
  Order, PlaceOrder, Trade, Market, LiquidResult, ok, err, out_of_fuel, ◌>>=◌, ◌>>◌, guard,
  >>=-eq-ok, invalid_payload, nonce_mismatch, arithmetic_overflow,
}
use ace_chain.Liquid.Book.{PriceLadder, Book}
use ace_chain.Liquid.Clob.{create_market, place_order, cancel_order}
use ace_chain.Liquid.Collateral.{deposit, withdraw}
use ace_chain.Liquid.Wire.{
  Request, create_request, place_request, cancel_request, deposit_request, withdraw_request,
  decode_payload,
}

pub data LiquidOutcome : Type 0 where
  market_created order_cancelled : ℕ → LiquidOutcome
  order_placed deposited withdrawn : ℕ → ℕ → LiquidOutcome

pub record Venue (L : PriceLadder) : Type 0 where
  pub tokens : Tokens
  pub books : Map (Book L)
  pub nonces : Map ℕ

module _ {L : PriceLadder} where
  -- The book of a market that is not created.
  abbrev pub empty_book : Book L
  empty_book = record {
    market = none;
    orders = [];
    base_free = [];
    quote_free = [];
    levels = [];
    nodes = [];
    order_counter = 0;
    sequence_counter = 0;
    ladder = L.empty;
  }

  abbrev book_or_empty : Option (Book L) → Book L
  book_or_empty none = empty_book
  book_or_empty (some b) = b

  abbrev pub book_of : Venue L → ℕ → Book L
  book_of v id = book_or_empty (lookup id v.books)

  abbrev pub put_book : Venue L → ℕ → Tokens → Book L → Venue L
  put_book v id t b = record v { tokens = t; books = insert id b v.books }

  -- An account that is not there is made, with nonce 0.
  abbrev pub open_at : Venue L → ℕ → Option ℕ → Venue L
  open_at v id none = record v { nonces = insert id 0 v.nonces }
  open_at v id (some _) = v

  abbrev pub open_account : Venue L → ℕ → Venue L
  open_account v id = open_at v id (lookup id v.nonces)

  abbrev pub count_nonce : Venue L → ℕ → ℕ → LiquidResult (Venue L)
  count_nonce v sender nonce =
      if nonce == u64_max
      then err arithmetic_overflow
      else ok (record v { nonces = insert sender (nonce + 1) v.nonces })

  -- Strictly the next nonce of an account that exists.
  unfoldable pub consume_at : Venue L → ℕ → ℕ → Option ℕ → LiquidResult (Venue L)
  consume_at v sender nonce none = err invalid_payload
  consume_at v sender nonce (some n) =
      guard (n == nonce) (nonce_mismatch n nonce) >> count_nonce v sender n

  unfoldable pub consume_nonce : Venue L → ℕ → ℕ → LiquidResult (Venue L)
  unfolding consume_at
  consume_nonce v sender nonce = consume_at v sender nonce (lookup sender v.nonces)

  unfoldable pub execute_request :
      (ℕ → ℕ) → (ℕ → ℕ → ℕ) → Venue L → ℕ → Request → LiquidResult (LiquidOutcome × Venue L)
  unfolding create_market place_order cancel_order deposit withdraw
  execute_request account derive v sender (create_request m) = do
    (b, id) ← create_market derive (book_of v m.market_id) m
    ok (market_created id, put_book (open_account v (account m.market_id)) m.market_id v.tokens b)
  execute_request account derive v sender (place_request id o) = do
    (b, order, trades) ← place_order (book_of v id) o
    ok (order_placed order (length trades % u32_mod), put_book v id v.tokens b)
  execute_request account derive v sender (cancel_request id order) = do
    (b, _) ← cancel_order (book_of v id) sender order
    ok (order_cancelled order, put_book v id v.tokens b)
  execute_request account derive v sender (deposit_request id asset amount) = do
    (t, b) ← deposit (account id) v.tokens (book_of v id) sender asset amount
    ok (deposited asset amount, put_book v id t b)
  execute_request account derive v sender (withdraw_request id asset amount) = do
    (t, b) ← withdraw (account id) v.tokens (book_of v id) sender asset amount
    ok (withdrawn asset amount, put_book v id t b)

  unfoldable pub execute_liquid_tx :
      (ℕ → ℕ) → (ℕ → ℕ → ℕ) → Venue L → ℕ → List ℕ → LiquidResult (LiquidOutcome × Venue L)
  unfolding decode_payload consume_nonce execute_request
  execute_liquid_tx account derive v sender payload = do
    (nonce, request) ← decode_payload derive sender payload
    w ← consume_nonce v sender nonce
    execute_request account derive w sender request
