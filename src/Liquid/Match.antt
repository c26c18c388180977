-- ===== src/Liquid/Match.antt =====
-- ace-liquid/src/clob.rs: a taker matched against the resting orders, and the settlement of a fill.
use ace_chain.Common.{
  ℕ, zero, suc, ◌-◌, ◌*◌, Bool, true, false, not, ◌&&◌, none, some, List, [], ◌∷◌, ◌==◌, leb,
  if◌then◌else◌, u64_max, min,
}
use ace_chain.Liquid.Types.{
  Order, OrderSide, buy, sell, Trade, partially_filled, filled, opposite_side, is_limit,
  LiquidResult, ok, err, out_of_fuel, ◌>>=◌, ◌>>◌, guard, arithmetic_overflow, order_not_found,
}
use ace_chain.Liquid.Book.{
  PriceLadder, Book, base, quote, put_order, get_order, credit_balance, debit_balance,
  front_order_at, remove_order_from_queue,
}

abbrev pub price_crosses : Order → ℕ → Bool
price_crosses taker maker_price = elim taker.side [
  | buy ↦ leb maker_price taker.price
  | sell ↦ leb taker.price maker_price
]

-- What a round of the loop finds: an end, with the taker blocked by an order of its own or not, or
-- the resting order to fill against.
pub data Taking : Type 0 where
  finished : Bool → Taking
  against : Order → Taking

-- The settled book, the taker and the trade of a fill.
pub record Fill (L : PriceLadder) : Type 0 where
  pub book : Book L
  pub taker : Order
  pub trade : Trade

pub record Matched (L : PriceLadder) : Type 0 where
  pub book : Book L
  pub taker : Order
  pub trades : List Trade
  pub blocked : Bool

-- An order less the quantity of a fill, with its new status.
abbrev pub reduce_maker : Order → ℕ → Order
reduce_maker maker quantity = record maker {
  remaining_quantity = maker.remaining_quantity - quantity;
  status = if maker.remaining_quantity - quantity == 0 then filled else partially_filled;
}

abbrev pub reduce_taker : Order → ℕ → Order
reduce_taker taker quantity = record taker {
  remaining_quantity = taker.remaining_quantity - quantity;
}

abbrev pub own_or_against : Order → Order → Taking
own_or_against taker maker = if maker.owner == taker.owner then finished true else against maker

module _ {L : PriceLadder} where
  unfoldable pub maker_at : Book L → Order → ℕ → LiquidResult Taking
  unfolding front_order_at get_order
  maker_at b taker price = elim (front_order_at b (opposite_side taker.side) price) [
    | none ↦ ok (finished false)
    | some id ↦ elim (get_order b id) [
      | none ↦ err (order_not_found id)
      | some maker ↦ ok (own_or_against taker maker)
    ]
  ]

  unfoldable pub next_maker : Book L → Order → LiquidResult Taking
  unfolding maker_at
  next_maker b taker =
      if taker.remaining_quantity == 0
      then ok (finished false)
      else elim (L.best_price b.ladder (opposite_side taker.side)) [
        | none ↦ ok (finished false)
        | some price ↦
            if is_limit taker.order_type && not (price_crosses taker price)
            then ok (finished false)
            else maker_at b taker price
      ]

  unfoldable pub settle_fill : Book L → Order → Order → ℕ → ℕ → LiquidResult (Book L)
  unfolding debit_balance credit_balance
  settle_fill b taker maker quantity amount = elim taker.side [
    | buy ↦ do
      c ← debit_balance b taker.owner quote amount
      d ← credit_balance c taker.owner base quantity
      credit_balance d maker.owner quote amount
    | sell ↦ do
      c ← debit_balance b taker.owner base quantity
      d ← credit_balance c taker.owner quote amount
      credit_balance d maker.owner base quantity
  ]

  -- The filled part of the maker is stored; a maker without a remainder leaves its queue first.
  unfoldable pub store_maker : Book L → OrderSide → Order → Book L
  unfolding put_order remove_order_from_queue
  store_maker b maker_side maker =
      put_order
        (if maker.remaining_quantity == 0
          then remove_order_from_queue b maker_side maker.price maker.order_id
          else b)
        maker

  unfoldable pub fill_maker : Book L → Order → Order → LiquidResult (Fill L)
  unfolding settle_fill store_maker
  fill_maker b taker maker =
      let quantity = min taker.remaining_quantity maker.remaining_quantity in
      let amount = quantity * maker.price in
      do
        guard (leb amount u64_max) arithmetic_overflow
        c ← settle_fill b taker maker quantity amount
        ok (record {
          book = store_maker c (opposite_side taker.side) (reduce_maker maker quantity);
          taker = reduce_taker taker quantity;
          trade = record {
            maker_order_id = maker.order_id;
            taker_order_id = taker.order_id;
            maker = maker.owner;
            taker = taker.owner;
            side = taker.side;
            price = maker.price;
            quantity = quantity;
            quote_quantity = amount;
          };
        })

  -- The loop, on fuel. The trades are in the order in which they are made.
  unfoldable pub match_taker : ℕ → Book L → Order → LiquidResult (Matched L)
  unfolding next_maker fill_maker
  match_taker zero b taker = out_of_fuel
  match_taker (suc n) b taker = next_maker b taker >>= λ found. elim found [
    | finished blocked ↦ ok (record { book = b; taker = taker; trades = []; blocked = blocked })
    | against maker ↦ do
      f ← fill_maker b taker maker
      m ← match_taker n f.book f.taker
      ok (record m { trades = f.trade ∷ m.trades })
  ]
