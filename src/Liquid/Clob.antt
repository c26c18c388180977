-- ===== src/Liquid/Clob.antt =====
-- ace-liquid/src/clob.rs: markets are created, orders placed and cancelled.
use ace_chain.Common.{
  ℕ, suc, ◌*◌, ◌%◌, Bool, true, false, not, ◌&&◌, ◌||◌, none, some, List, [], ◌∷◌, ◌==◌, ltb,
  if◌then◌else◌, u64_max,
}
use ace_chain.Liquid.Types.{
  Market, buy, sell, TimeInForce, good_til_cancelled, immediate_or_cancel, OrderStatus, open_order,
  partially_filled, filled, cancelled, PlaceOrder, Order, Trade, is_limit, LiquidResult, ok, err,
  ◌>>=◌, ◌>>◌, guard, market_not_found, market_already_exists, market_inactive,
  invalid_market_config, order_not_found, order_not_open, zero_amount, zero_price, no_liquidity,
  self_trade, arithmetic_overflow, not_order_owner,
}
use ace_chain.Liquid.Book.{
  PriceLadder, Book, base, quote, put_order, get_order, credit_balance, debit_balance,
  next_order_id, next_sequence, enqueue_order, remove_order_from_queue,
}
use ace_chain.Liquid.Match.{Matched, match_taker}

abbrev pub time_in_force_allows_resting : TimeInForce → Bool
time_in_force_allows_resting good_til_cancelled = true
time_in_force_allows_resting immediate_or_cancel = false

-- `derive_market_id` of the two mints is the first argument.
unfoldable pub validate_market_config : (ℕ → ℕ → ℕ) → Market → LiquidResult (Unit {0})
validate_market_config derive_market_id m = do
  guard (not (m.base_mint == m.quote_mint)) invalid_market_config
  guard (m.market_id == derive_market_id m.base_mint m.quote_mint) invalid_market_config
  guard (not (m.tick_size == 0 || m.lot_size == 0)) invalid_market_config
  guard (m.maker_fee_bps == 0 && m.taker_fee_bps == 0) invalid_market_config

unfoldable pub validate_order : Market → PlaceOrder → LiquidResult (Unit {0})
validate_order m order = do
  guard (not (m.tick_size == 0 || m.lot_size == 0)) invalid_market_config
  guard (not (order.quantity == 0)) zero_amount
  guard (not (is_limit order.order_type && order.price == 0)) zero_price
  guard (order.quantity % m.lot_size == 0) zero_amount
  guard (not (is_limit order.order_type && not (order.price % m.tick_size == 0))) zero_price

unfoldable pub locked_quote : Order → LiquidResult ℕ
locked_quote order =
    if ltb u64_max (order.remaining_quantity * order.price)
    then err arithmetic_overflow
    else ok (order.remaining_quantity * order.price)

abbrev pub is_null : List Trade → Bool
is_null [] = true
is_null (_ ∷ _) = false

abbrev pub is_open : OrderStatus → Bool
is_open open_order = true
is_open partially_filled = true
is_open _ = false

-- The order of a request before it is matched.
abbrev pub new_order : PlaceOrder → ℕ → ℕ → Order
new_order r id seq = record {
  order_id = id;
  owner = r.owner;
  side = r.side;
  order_type = r.order_type;
  price = r.price;
  quantity = r.quantity;
  remaining_quantity = r.quantity;
  status = open_order;
  sequence = seq;
}

-- The status of an order that rests with what is left of it.
abbrev pub rested : Order → Order
rested o = record o {
  status = if ltb o.remaining_quantity o.quantity then partially_filled else open_order;
}

-- The record kept of an order that does not rest.
abbrev pub closed : Order → List Trade → Order
closed o trades = if o.remaining_quantity == 0 then record o { status = filled } else record o {
  remaining_quantity = 0;
  status = if is_null trades then cancelled else partially_filled;
}

module _ {L : PriceLadder} where
  -- The market's account, which the code creates where there is none, is the book.
  unfoldable pub create_market : (ℕ → ℕ → ℕ) → Book L → Market → LiquidResult (Book L × ℕ)
  unfolding validate_market_config
  create_market derive_market_id b m = do
    validate_market_config derive_market_id m
    elim b.market [
      | some _ ↦ err market_already_exists
      | none ↦ ok (record b { market = some m }, m.market_id)
    ]

  unfoldable pub lock_resting_funds : Book L → Order → LiquidResult (Book L)
  unfolding locked_quote debit_balance
  lock_resting_funds b o = elim o.side [
    | buy ↦ do lock ← locked_quote o; debit_balance b o.owner quote lock
    | sell ↦ debit_balance b o.owner base o.remaining_quantity
  ]

  unfoldable pub refund_resting_funds : Book L → Order → LiquidResult (Book L)
  unfolding locked_quote credit_balance
  refund_resting_funds b o = elim o.side [
    | buy ↦ do refund ← locked_quote o; credit_balance b o.owner quote refund
    | sell ↦ credit_balance b o.owner base o.remaining_quantity
  ]

  abbrev pub should_rest : TimeInForce → Matched L → Bool
  should_rest tif m =
      not (m.taker.remaining_quantity == 0)
      && is_limit m.taker.order_type
      && not m.blocked
      && time_in_force_allows_resting tif

  unfoldable pub rest_order : Matched L → LiquidResult (Book L × ℕ × List Trade)
  unfolding lock_resting_funds enqueue_order put_order
  rest_order m = do
    let o = m.taker
    b ← lock_resting_funds m.book o
    ok (put_order (enqueue_order b o.side o.price o.order_id) (rested o), o.order_id, m.trades)

  unfoldable pub close_order : Matched L → LiquidResult (Book L × ℕ × List Trade)
  unfolding put_order
  close_order m = do
    let o = m.taker
    let unfilled = not (o.remaining_quantity == 0)
    guard (not (unfilled && not (is_limit o.order_type) && is_null m.trades)) no_liquidity
    ok (put_order m.book (closed o m.trades), o.order_id, m.trades)

  -- `place_order_inner` after the matching.
  unfoldable pub finish_order : TimeInForce → Matched L → LiquidResult (Book L × ℕ × List Trade)
  unfolding rest_order close_order
  finish_order tif m = do
    guard (not (m.blocked && is_null m.trades)) self_trade
    (if should_rest tif m then rest_order m else close_order m)

  -- The book is the result's only when there is no error: `place_order` rolls back to its snapshot.
  unfoldable pub place_order : Book L → PlaceOrder → LiquidResult (Book L × ℕ × List Trade)
  unfolding validate_order next_order_id next_sequence match_taker finish_order
  place_order b r = elim b.market [
    | none ↦ err market_not_found
    | some m ↦ do
      guard m.active market_inactive
      validate_order m r
      (c, id) ← next_order_id b
      (d, seq) ← next_sequence c
      matched ← match_taker (suc r.quantity) d (new_order r id seq)
      finish_order r.time_in_force matched
  ]

  unfoldable pub cancel_stored : Book L → Order → LiquidResult (Book L × Order)
  unfolding refund_resting_funds remove_order_from_queue put_order
  cancel_stored b o = do
    c ← refund_resting_funds b o
    let gone = record o { status = cancelled; remaining_quantity = 0 }
    ok (put_order (remove_order_from_queue c o.side o.price o.order_id) gone, gone)

  unfoldable pub cancel_order : Book L → ℕ → ℕ → LiquidResult (Book L × Order)
  unfolding get_order cancel_stored
  cancel_order b owner id = elim b.market [
    | none ↦ err market_not_found
    | some _ ↦ elim (get_order b id) [
      | none ↦ err (order_not_found id)
      | some o ↦ do
        guard (o.owner == owner) not_order_owner
        guard (is_open o.status && not (o.remaining_quantity == 0)) (order_not_open id)
        cancel_stored b o
    ]
  ]
