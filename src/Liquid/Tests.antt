-- ===== src/Liquid/Tests.antt =====
-- ace-liquid/src/clob.rs: runs of a market with two users.
use ace_chain.Common.{ℕ, ◌≡◌, ◌≢◌, refl, inl, some, List, [], ◌∷◌, arith, true, false}
use ace_chain.Common.Assoc.{lookup, insert}
use ace_chain.Vm.Token.{Tokens, transfer_between_owners, set_balance}
use ace_chain.Liquid.Types.{
  Market, buy, sell, limit, good_til_cancelled, PlaceOrder, Order, Trade, LiquidResult, ok,
  out_of_fuel,
}
use ace_chain.Liquid.Book.{
  Book, base, quote, put_order, get_order, free_balance, credit_balance, debit_balance,
  next_order_id, next_sequence, read_level, read_node, write_level, write_node, enqueue_order,
  front_order_at, unlink, remove_order_from_queue,
}
use ace_chain.Liquid.Critbit.{
  critbit, extreme, extreme_from, insert_below, insert_key, alloc, remove_key, trace, cut, free,
}
use ace_chain.Liquid.Match.{
  Matched, maker_at, next_maker, settle_fill, store_maker, fill_maker, match_taker,
}
use ace_chain.Liquid.Clob.{
  validate_order, locked_quote, new_order, lock_resting_funds, refund_resting_funds, rest_order,
  finish_order, place_order, cancel_stored, cancel_order,
}
use ace_chain.Liquid.Collateral.{move_tokens, deposit, withdraw}
use ace_chain.Liquid.Invariant.{IsValid}
use ace_chain.Liquid.Matching.{IsMatched, match_taker-IsMatched}
use ace_chain.Liquid.Placed.{IsPlaced, place_order-IsPlaced}
use ace_chain.Liquid.Cancelling.{IsCancelled, cancel_order-IsCancelled}
use ace_chain.Liquid.Custody.{Covered}
use ace_chain.Liquid.Run.{Reaches, next, pay_in, pay_out, send, call, IsSound, reaches-IsSound}
use ace_chain.Liquid.Withdrawing.{IsWithdrawn, withdraw-IsWithdrawn}

abbrev pair_market : Market
pair_market = record {
  market_id = 77;
  base_mint = 1;
  quote_mint = 2;
  tick_size = 1;
  lot_size = 1;
  maker_fee_bps = 0;
  taker_fee_bps = 0;
  active = true;
}

-- User 7 has 10 of the base asset and user 8 has 100 of the quote asset.
abbrev start : Book critbit
start = record {
  market = some pair_market;
  orders = [];
  base_free = (7, 10) ∷ [];
  quote_free = (8, 100) ∷ [];
  levels = [];
  nodes = [];
  order_counter = 0;
  sequence_counter = 0;
  ladder = critbit.empty;
}

start-IsValid : IsValid start
unfolding lookup
start-IsValid = record {
  linked = record {
    zero_free = refl;
    heads = λ k. inl refl;
    tails = λ k. inl refl;
    nexts = λ x. inl refl;
    prevs = λ x. inl refl;
  };
  named = λ x o e. ground (arith, e);
}

abbrev sale : PlaceOrder
sale = record {
  owner = 7;
  side = sell;
  order_type = limit;
  price = 5;
  quantity = 6;
  time_in_force = good_til_cancelled;
}

abbrev purchase : PlaceOrder
purchase = record {
  owner = 8;
  side = buy;
  order_type = limit;
  price = 5;
  quantity = 8;
  time_in_force = good_til_cancelled;
}

abbrev result_of : {A : Type 0} → LiquidResult A → A → A
result_of (ok a) d = a
result_of _ d = d

abbrev offered : Book critbit × ℕ × List Trade
offered = result_of (place_order start sale) (start, 0, [])

sale_rests : (offered.1 ≡ 1) × (free_balance (offered.0) 7 base ≡ 4)
unfolding extreme extreme_from insert_below insert_key alloc place_order validate_order
    next_order_id next_sequence match_taker next_maker maker_at front_order_at read_level lookup
    finish_order rest_order lock_resting_funds debit_balance free_balance enqueue_order write_node
    write_level put_order insert read_node
sale_rests = (refl, refl)

offered-IsPlaced : IsPlaced start sale offered
unfolding extreme extreme_from insert_below insert_key alloc place_order validate_order
    next_order_id next_sequence match_taker next_maker maker_at front_order_at read_level lookup
    finish_order rest_order lock_resting_funds debit_balance free_balance enqueue_order write_node
    write_level put_order insert read_node
offered-IsPlaced = place_order-IsPlaced start sale offered start-IsValid refl

-- The purchase takes the six that are offered and rests with two.
abbrev bought : Book critbit × ℕ × List Trade
bought = result_of (place_order (offered.0) purchase) (start, 0, [])

place_order-IsPlaced_example : IsPlaced (offered.0) purchase bought
unfolding extreme extreme_from insert_below insert_key alloc place_order validate_order
    next_order_id next_sequence match_taker next_maker maker_at front_order_at read_level lookup
    finish_order rest_order lock_resting_funds debit_balance free_balance enqueue_order write_node
    write_level put_order insert read_node fill_maker settle_fill credit_balance store_maker
    remove_order_from_queue remove_key trace cut free unlink get_order locked_quote
place_order-IsPlaced_example =
    place_order-IsPlaced (offered.0) purchase bought (offered-IsPlaced.valid) refl

bought_balances :
    (free_balance (bought.0) 8 base ≡ 6)
    × (free_balance (bought.0) 8 quote ≡ 60)
    × (free_balance (bought.0) 7 quote ≡ 30)
unfolding extreme extreme_from insert_below insert_key alloc place_order validate_order
    next_order_id next_sequence match_taker next_maker maker_at front_order_at read_level lookup
    finish_order rest_order lock_resting_funds debit_balance free_balance enqueue_order write_node
    write_level put_order insert read_node fill_maker settle_fill credit_balance store_maker
    remove_order_from_queue remove_key trace cut free unlink get_order locked_quote
bought_balances = (refl, refl, refl)

abbrev matched_of : LiquidResult (Matched critbit) → Matched critbit
matched_of (ok m) = m
matched_of _ = record { book = start; taker = new_order sale 0 0; trades = []; blocked = false }

abbrev run : Matched critbit
run = matched_of (match_taker 9 (offered.0) (new_order purchase 2 2))

match_taker-IsMatched_example : IsMatched (offered.0) (new_order purchase 2 2) run
unfolding extreme extreme_from insert_below insert_key alloc place_order validate_order
    next_order_id next_sequence match_taker next_maker maker_at front_order_at read_level lookup
    finish_order rest_order lock_resting_funds debit_balance free_balance enqueue_order write_node
    write_level put_order insert read_node fill_maker settle_fill credit_balance store_maker
    remove_order_from_queue remove_key trace cut free unlink get_order locked_quote
match_taker-IsMatched_example =
    match_taker-IsMatched 9 (offered.0) (new_order purchase 2 2) run (offered-IsPlaced.valid) refl

abbrev cancelled_result : Book critbit × Order
cancelled_result = result_of (cancel_order (offered.0) 7 1) (start, new_order sale 0 0)

cancel_order-IsCancelled_example :
    IsCancelled (offered.0) 7 1 (cancelled_result.0) (cancelled_result.1)
unfolding extreme extreme_from insert_below insert_key alloc place_order validate_order
    next_order_id next_sequence match_taker next_maker maker_at front_order_at read_level lookup
    finish_order rest_order lock_resting_funds debit_balance free_balance enqueue_order write_node
    write_level put_order insert read_node credit_balance remove_order_from_queue remove_key trace
    cut free unlink get_order cancel_order cancel_stored refund_resting_funds
cancel_order-IsCancelled_example =
    cancel_order-IsCancelled (offered.0) (cancelled_result.0) 7 1 (cancelled_result.1)
      (offered-IsPlaced.valid) refl

-- The market's account, 99, holds the funds of the book, and user 8 has 5 of the base token.
abbrev ledger : Tokens
ledger = record {
  mints = (1, (15, 6)) ∷ (2, (100, 6)) ∷ [];
  authorities = [];
  balances = (1, (99, 10) ∷ (8, 5) ∷ []) ∷ (2, (99, 100) ∷ []) ∷ [];
  allowances = λ m o s. 0;
}

start-Covered : Covered 99 pair_market ledger start
unfolding lookup
start-Covered base = omega arith
start-Covered quote = omega arith

abbrev moved_in : Tokens × Book critbit
moved_in = result_of (deposit 99 ledger start 8 0 3) (ledger, start)

abbrev moved_out : Tokens × Book critbit
moved_out = result_of (withdraw 99 ledger start 8 1 40) (ledger, start)

withdraw-IsWithdrawn_example : IsWithdrawn 99 pair_market ledger start 1 40 moved_out
unfolding withdraw move_tokens transfer_between_owners set_balance debit_balance free_balance lookup
    insert
withdraw-IsWithdrawn_example =
    withdraw-IsWithdrawn 99 pair_market ledger start 8 1 40 moved_out start-IsValid refl
      (omega arith) (omega arith) start-Covered refl

-- A deposit, a transfer between users and a withdrawal.
reaches-IsSound_example :
    IsSound 99 pair_market
      (call 99 (call 99 (call 99 (ledger, start) (pay_in 8 0 3)) (send 1 8 7 2)) (pay_out 8 1 40))
    × ((r : PlaceOrder)
        → place_order
            (call 99
              (call 99 (call 99 (ledger, start) (pay_in 8 0 3)) (send 1 8 7 2))
              (pay_out 8 1 40)).1
            r
          ≢ out_of_fuel)
reaches-IsSound_example =
    reaches-IsSound 99 pair_market (ledger, start)
      (call 99 (call 99 (call 99 (ledger, start) (pay_in 8 0 3)) (send 1 8 7 2)) (pay_out 8 1 40))
      (omega arith) (record { valid = start-IsValid; market = refl; covered = start-Covered })
      (next _ (pay_out 8 1 40)
        (next _ (send 1 8 7 2) (next _ (pay_in 8 0 3) Reaches.start (omega arith)) (omega arith))
        (omega arith))
