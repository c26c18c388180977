-- ===== src/Liquid/Filling.antt =====
-- ace-liquid/src/clob.rs: a fill of the matching loop.
use ace_chain.Common.{
  ℕ, ◌+◌, ◌*◌, ◌≤◌, ◌≡◌, ◌≢◌, refl, ap, ◌∙◌, false, not, ◌&&◌, none, some, leb, arith, min, u64_max,
}
use ace_chain.Common.Assoc.{lookup, lookup-insert, total_of, measured, total_of-insert}
use ace_chain.Liquid.Types.{
  Order, Trade, opposite_side, is_limit, ok, out_of_fuel, >>=-eq-ok, ok_elim, guard,
  arithmetic_overflow,
}
use ace_chain.Liquid.Book.{PriceLadder, Book, Asset, credit_balance, debit_balance}
use ace_chain.Liquid.Funds.{SameQueues, free_total, total, locked, same_free}
use ace_chain.Liquid.Invariant.{IsValid, same-IsValid}
use ace_chain.Liquid.Match.{
  price_crosses, Fill, settle_fill, reduce_maker, reduce_taker, store_maker, fill_maker,
}
use ace_chain.Liquid.Fills.{
  IsMaker, settle_fill-ok, store_maker-IsValid, store_maker_frame, locked_parts,
}

-- A trade of a taker: it moves something, at a price the taker's limit admits, and is with another
-- user.
pub record IsTrade (taker : Order) (t : Trade) : Type 0 where
  pub moves : 1 ≤ t.quantity
  pub priced : t.quote_quantity ≡ t.quantity * t.price
  pub crosses : (is_limit taker.order_type && not (price_crosses taker t.price)) ≡ false
  pub others : t.maker ≢ t.taker
  pub taken : (t.taker_order_id ≡ taker.order_id) × (t.taker ≡ taker.owner)

module _ {L : PriceLadder} where
  -- What a part of the matching keeps of a book.
  pub record Keeps (b c : Book L) : Type 0 where
    pub valid : IsValid c
    pub conserved : (at : Asset) → total c at ≡ total b at
    pub counter : c.order_counter ≡ b.order_counter
    pub same_market : c.market ≡ b.market
    pub fresh : (x : ℕ) → lookup x b.orders ≡ none → lookup x c.orders ≡ none

  stored-Keeps :
      (b c : Book L) (taker maker : Order) (quantity : ℕ)
      → IsValid b
      → IsMaker b taker maker
      → quantity ≤ maker.remaining_quantity
      → SameQueues b c
      → ((at : Asset)
          → free_total c at
            ≡ free_total b at + locked at (record maker { remaining_quantity = quantity }))
      → Keeps b (store_maker c (opposite_side taker.side) (reduce_maker maker quantity))
  stored-Keeps b c taker maker quantity v m q s sums =
      let side = opposite_side taker.side in
      let left = reduce_maker maker quantity in
      let frame = store_maker_frame c side left in
      let stored : lookup maker.order_id c.orders ≡ some maker =
        ap (λ o. lookup maker.order_id o) (s.0) ∙ m.stored in
      let m2 : IsMaker c taker maker = record {
        stored = stored;
        below = omega (arith, m.below, s.3);
        opposite = m.opposite;
        remains = m.remains;
        wanted = m.wanted;
        crosses = m.crosses;
        others = m.others;
      } in
      record {
        valid = store_maker-IsValid c taker maker quantity (same-IsValid b c s v) m2;
        conserved = λ at. omega (
          arith,
          same_free c (store_maker c side left) at (frame.2) (frame.3),
          sums at,
          locked_parts maker quantity at q,
          total_of-insert (locked at) maker.order_id left c.orders,
          ap (measured (locked at)) stored,
          ap (total_of (locked at)) (s.0),
          ap (total_of (locked at)) (frame.0),
        );
        counter = frame.1 ∙ s.3;
        same_market = frame.4 ∙ s.4;
        fresh = λ x e.
            ground (arith, frame.0, s.0, m.stored, e, lookup-insert maker.order_id x left c.orders);
      }

  -- What a fill changes.
  pub record IsFill (b : Book L) (taker : Order) (f : Fill L) : Type 0 where
    pub keeps : Keeps b f.book
    pub reduced : f.taker ≡ reduce_taker taker f.trade.quantity
    pub bounded : f.trade.quantity ≤ taker.remaining_quantity
    pub trade_ok : IsTrade taker f.trade

  pub fill_maker-IsFill :
      (b : Book L) (taker maker : Order) (f : Fill L)
      → IsValid b
      → IsMaker b taker maker
      → fill_maker b taker maker ≡ ok f
      → IsFill b taker f
  unfolding fill_maker
  fill_maker-IsFill b taker maker f v m e =
      let quantity = min taker.remaining_quantity maker.remaining_quantity in
      let (_, fits, e2) =
        >>=-eq-ok (guard (leb (quantity * maker.price) u64_max) arithmetic_overflow) _ e in
      let (c, settled, e3) =
        >>=-eq-ok (settle_fill b taker maker quantity (quantity * maker.price)) _ e2 in
      let (s, sums) = settle_fill-ok b c taker maker quantity (m.opposite) settled in
      let kept = stored-Keeps b c taker maker quantity v m (omega arith) s sums in
      ok_elim (λ f. IsFill b taker f) _ f e3
        (record {
          keeps = kept;
          reduced = refl;
          bounded = omega arith;
          trade_ok = record {
            moves = omega (arith, m.remains, m.wanted);
            priced = refl;
            crosses = m.crosses;
            others = m.others;
            taken = (refl, refl);
          };
        })

  pub fill_maker-total : (b : Book L) (taker maker : Order) → fill_maker b taker maker ≢ out_of_fuel
  unfolding fill_maker settle_fill credit_balance debit_balance
  fill_maker-total b taker maker = ground arith
