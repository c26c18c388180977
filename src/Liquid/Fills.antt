-- ===== src/Liquid/Fills.antt =====
-- ace-liquid/src/clob.rs: what a round of the matching loop finds and what a fill changes.
use ace_chain.Common.{
  ℕ, suc, mul_add, ◌+◌, ◌*◌, ◌-◌, ◌<◌, ◌≤◌, ◌≡◌, ◌≢◌, refl, ap, ◌∙◌, Bool, true, false, not, ◌&&◌,
  Option, none, some, ◌==◌, if◌then◌else◌, arith,
}
use ace_chain.Common.Assoc.{lookup, insert}
use ace_chain.Liquid.Types.{
  Order, OrderSide, buy, sell, opposite_side, is_limit, LiquidResult, ok, out_of_fuel, >>=-eq-ok,
  ◌>>=◌,
}
use ace_chain.Liquid.Book.{
  PriceLadder, Book, Asset, base, quote, level_key, put_order, get_order, read_level,
  front_order_at, remove_order_from_queue, credit_balance, debit_balance,
}
use ace_chain.Liquid.Queues.{links_of, removed_frame}
use ace_chain.Liquid.Funds.{
  SameQueues, same_trans, free_total, locked, of_asset, credit_frame, debit_frame, credit_total,
  debit_total,
}
use ace_chain.Liquid.Invariant.{IsValid, removed-IsValid, stored-IsValid, level_key-injective}
use ace_chain.Liquid.Match.{
  price_crosses, against, maker_at, next_maker, settle_fill, reduce_maker, store_maker,
}

handed_base :
    (maker : Order) (quantity : ℕ) (at : Asset)
    → maker.side ≡ sell
    → of_asset base quantity at ≡ locked at (record maker { remaining_quantity = quantity })
handed_base maker quantity base e = ground (arith, e)
handed_base maker quantity quote e = ground (arith, e)

handed_quote :
    (maker : Order) (quantity : ℕ) (at : Asset)
    → maker.side ≡ buy
    → of_asset quote (quantity * maker.price) at
      ≡ locked at (record maker { remaining_quantity = quantity })
handed_quote maker quantity base e = ground (arith, e)
handed_quote maker quantity quote e = ground (arith, e)

-- What is locked for an order is locked for its parts.
pub locked_parts :
    (o : Order) (quantity : ℕ) (at : Asset)
    → quantity ≤ o.remaining_quantity
    → locked at (reduce_maker o quantity) + locked at (record o { remaining_quantity = quantity })
      ≡ locked at o
locked_parts o quantity base q = ground (arith, q)
locked_parts o quantity quote q =
    ground (arith, mul_add (o.remaining_quantity - quantity) quantity o.price, q)

module _ {L : PriceLadder} where
  -- What is known of the order that a round is to fill against.
  pub record IsMaker (b : Book L) (taker maker : Order) : Type 0 where
    pub stored : lookup maker.order_id b.orders ≡ some maker
    pub below : maker.order_id < b.order_counter
    pub opposite : maker.side ≡ opposite_side taker.side
    pub remains : maker.remaining_quantity ≢ 0
    pub wanted : taker.remaining_quantity ≢ 0
    pub crosses : (is_limit taker.order_type && not (price_crosses taker maker.price)) ≡ false
    pub others : maker.owner ≢ taker.owner

  maker_at-IsMaker :
      (b : Book L) (taker maker : Order) (price : ℕ)
      → IsValid b
      → taker.remaining_quantity ≢ 0
      → (is_limit taker.order_type && not (price_crosses taker price)) ≡ false
      → maker_at b taker price ≡ ok (against maker)
      → IsMaker b taker maker
  unfolding maker_at front_order_at read_level get_order
  maker_at-IsMaker b taker maker price v wanted crosses e =
      let k = level_key (opposite_side taker.side) price in
      let id = (links_of b).head k in
      let nonzero : id ≢ 0 = ground (arith, e) in
      let stored : lookup id b.orders ≡ some maker = ground (arith, e) in
      let others : maker.owner ≢ taker.owner = ground (arith, e) in
      let named = v.named id maker stored in
      let waits : (links_of b).level id ≡ suc k = ground (arith, v.linked.heads k, nonzero) in
      let remains : maker.remaining_quantity ≢ 0 = ground (arith, waits, stored) in
      let (sides, prices) =
        level_key-injective maker.side (opposite_side taker.side) maker.price price
          (ground (arith, waits, stored)) in
      record {
        stored = ap (λ i. lookup i b.orders) (named.0) ∙ stored;
        below = omega (arith, named.0, named.1);
        opposite = sides;
        remains = remains;
        wanted = wanted;
        crosses = rw prices crosses;
        others = others;
      }

  pub next_maker-IsMaker :
      (b : Book L) (taker maker : Order)
      → IsValid b
      → next_maker b taker ≡ ok (against maker)
      → IsMaker b taker maker
  unfolding next_maker
  next_maker-IsMaker b taker maker v e = go (L.best_price b.ladder (opposite_side taker.side)) refl
    where
      go :
          (o : Option ℕ)
          → L.best_price b.ladder (opposite_side taker.side) ≡ o
          → IsMaker b taker maker
      go none f = absurd (ground (arith, e, f))
      go (some price) f =
          maker_at-IsMaker b taker maker price v (ground (arith, e)) (ground (arith, e, f))
            (ground (arith, e, f))

  pub next_maker-total : (b : Book L) (taker : Order) → next_maker b taker ≢ out_of_fuel
  unfolding next_maker maker_at
  next_maker-total b taker = ground arith

  three_moves :
      (b c : Book L) (payer payee : ℕ) (paid got : Asset) (x y : ℕ)
      → (debit_balance b payer paid x >>= λ d.
          credit_balance d payer got y >>= λ f. credit_balance f payee paid x)
        ≡ ok c
      → SameQueues b c × ((at : Asset) → free_total c at ≡ free_total b at + of_asset got y at)
  three_moves b c payer payee paid got x y e =
      let (d, first, e2) = >>=-eq-ok (debit_balance b payer paid x) _ e in
      let (f, second, third) = >>=-eq-ok (credit_balance d payer got y) _ e2 in
      (
        same_trans b d c (debit_frame b d payer paid x first) (
            same_trans d f c (credit_frame d f payer got y second)
              (credit_frame f c payee paid x third)),
        λ at. omega (
          arith,
          debit_total b d payer paid x at first,
          credit_total d f payer got y at second,
          credit_total f c payee paid x at third,
        ),
      )

  -- A settlement hands out what the maker had locked for the quantity.
  pub settle_fill-ok :
      (b c : Book L) (taker maker : Order) (quantity : ℕ)
      → maker.side ≡ opposite_side taker.side
      → settle_fill b taker maker quantity (quantity * maker.price) ≡ ok c
      → SameQueues b c
        × ((at : Asset)
            → free_total c at
              ≡ free_total b at + locked at (record maker { remaining_quantity = quantity }))
  unfolding settle_fill
  settle_fill-ok b c taker maker quantity same e = go (taker.side) same e
    where
      go :
          (s : OrderSide)
          → maker.side ≡ opposite_side s
          → elim s as (λ _. LiquidResult (Book L)) [
            | buy ↦ do
              c ← debit_balance b taker.owner quote (quantity * maker.price)
              d ← credit_balance c taker.owner base quantity
              credit_balance d maker.owner quote (quantity * maker.price)
            | sell ↦ do
              c ← debit_balance b taker.owner base quantity
              d ← credit_balance c taker.owner quote (quantity * maker.price)
              credit_balance d maker.owner base quantity
          ]
            ≡ ok c
          → SameQueues b c
            × ((at : Asset)
                → free_total c at
                  ≡ free_total b at + locked at (record maker { remaining_quantity = quantity }))
      go buy s e =
          let (frame, sums) = three_moves b c taker.owner maker.owner quote base _ _ e in
          (frame, λ at. sums at ∙ ap (λ n. free_total b at + n) (handed_base maker quantity at s))
      go sell s e =
          let (frame, sums) = three_moves b c taker.owner maker.owner base quote _ _ e in
          (frame, λ at. sums at ∙ ap (λ n. free_total b at + n) (handed_quote maker quantity at s))

  pub store_maker-IsValid :
      (b : Book L) (taker maker : Order) (quantity : ℕ)
      → IsValid b
      → IsMaker b taker maker
      → IsValid (store_maker b (opposite_side taker.side) (reduce_maker maker quantity))
  unfolding store_maker
  store_maker-IsValid b taker maker quantity v m =
      let waits : (links_of b).level maker.order_id
          ≡ suc (level_key (opposite_side taker.side) maker.price) =
        ground (arith, m.stored, m.remains, m.opposite) in
      go (maker.remaining_quantity - quantity == 0) refl waits
    where
      go :
          (t : Bool)
          → (maker.remaining_quantity - quantity == 0) ≡ t
          → (links_of b).level maker.order_id
            ≡ suc (level_key (opposite_side taker.side) maker.price)
          → IsValid (
              put_order
                (if t
                  then remove_order_from_queue b
                      (opposite_side taker.side)
                      maker.price
                      maker.order_id
                  else b)
                (reduce_maker maker quantity))
      go true t w =
          removed-IsValid b (opposite_side taker.side) maker.price (reduce_maker maker quantity) v w
            (ground (arith, t)) (m.below)
      go false t w =
          stored-IsValid b (reduce_maker maker quantity) v (w ∙ ground (arith, t, m.opposite))
            (m.below)

  pub store_maker_frame :
      (b : Book L) (side : OrderSide) (maker : Order)
      → let c = store_maker b side maker in
        (c.orders ≡ insert maker.order_id maker b.orders)
        × (c.order_counter ≡ b.order_counter)
        × (c.base_free ≡ b.base_free)
        × (c.quote_free ≡ b.quote_free)
        × (c.market ≡ b.market)
  unfolding store_maker put_order
  store_maker_frame b side maker =
      let frame = removed_frame b side maker.price maker.order_id in
      (
        ground (arith, frame.1),
        ground (arith, frame.2),
        ground (arith, frame.3),
        ground (arith, frame.4),
        ground (arith, frame.5),
      )
