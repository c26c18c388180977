-- ===== src/Liquid/Placing.antt =====
-- ace-liquid/src/clob.rs: orders that are placed.
use ace_chain.Common.{
  ℕ, ◌+◌, ◌*◌, ◌<◌, ◌≡◌, ◌≢◌, refl, ap, sym, ◌∙◌, not, ◌&&◌, none, some, List, ◌==◌, ltb,
  if◌then◌else◌, arith, u64_max,
}
use ace_chain.Common.Assoc.{lookup, lookup-insert, total_of, measured, total_of-insert}
use ace_chain.Liquid.Types.{
  Order, Trade, OrderSide, buy, sell, is_limit, LiquidResult, ok, err, >>=-eq-ok, ok_elim, ◌>>=◌,
  guard, arithmetic_overflow, no_liquidity,
}
use ace_chain.Liquid.Book.{
  PriceLadder, Book, Asset, base, quote, put_order, enqueue_order, debit_balance,
}
use ace_chain.Liquid.Funds.{
  SameQueues, free_total, total, locked, of_asset, same_free, debit_frame, debit_total,
}
use ace_chain.Liquid.Queues.{enqueued_frame, waiting}
use ace_chain.Liquid.Invariant.{IsValid, same-IsValid, stored-IsValid, added-IsValid}
use ace_chain.Liquid.Match.{Matched}
use ace_chain.Liquid.Clob.{
  locked_quote, is_null, rested, closed, lock_resting_funds, rest_order, close_order,
}

-- What a debit of an asset by an order's own need takes.
pub locked_base :
    (o : Order) (at : Asset) → o.side ≡ sell → of_asset base o.remaining_quantity at ≡ locked at o
locked_base o base e = ground (arith, e)
locked_base o quote e = ground (arith, e)

pub locked_price :
    (o : Order) (at : Asset)
    → o.side ≡ buy
    → of_asset quote (o.remaining_quantity * o.price) at ≡ locked at o
locked_price o base e = ground (arith, e)
locked_price o quote e = ground (arith, e)

locked-closed : (o : Order) (ts : List Trade) (at : Asset) → locked at (closed o ts) ≡ 0
locked-closed o ts base = ground arith
locked-closed o ts quote = ground arith

locked-rested : (o : Order) (at : Asset) → locked at (rested o) ≡ locked at o
locked-rested o base = refl
locked-rested o quote = refl

-- The order that is kept of one that does not rest.
pub closed_id : (o : Order) (ts : List Trade) → (closed o ts).order_id ≡ o.order_id
closed_id o ts = ground arith

pub closed_left : (o : Order) (ts : List Trade) → (closed o ts).remaining_quantity ≡ 0
closed_left o ts = ground arith

waiting-closed : (o : Order) (ts : List Trade) → waiting (some (closed o ts)) ≡ 0
waiting-closed o ts = ground arith

module _ {L : PriceLadder} where
  Locks : Book L → Order → Book L → Type 0
  Locks b o c = SameQueues b c × ((at : Asset) → free_total c at + locked at o ≡ free_total b at)

  lock_resting_funds-ok : (b c : Book L) (o : Order) → lock_resting_funds b o ≡ ok c → Locks b o c
  unfolding Locks lock_resting_funds locked_quote
  lock_resting_funds-ok b c o e = go (o.side) refl e
    where
      go :
          (s : OrderSide)
          → o.side ≡ s
          → elim s as (λ _. LiquidResult (Book L)) [
            | buy ↦ do
              lock ←
                  if ltb u64_max (o.remaining_quantity * o.price)
                  then err arithmetic_overflow
                  else ok (o.remaining_quantity * o.price)
              debit_balance b o.owner quote lock
            | sell ↦ debit_balance b o.owner base o.remaining_quantity
          ]
            ≡ ok c
          → Locks b o c
      go buy s e =
          let paid : debit_balance b o.owner quote (o.remaining_quantity * o.price) ≡ ok c =
            ground (arith, e) in
          (
            debit_frame b c o.owner quote _ paid,
            λ at.
                ap (λ n. free_total c at + n) (sym (locked_price o at s))
                ∙ debit_total b c o.owner quote _ at paid,
          )
      go sell s e = (
        debit_frame b c o.owner base _ e,
        λ at.
            ap (λ n. free_total c at + n) (sym (locked_base o at s))
            ∙ debit_total b c o.owner base _ at e,
      )

  -- An identifier that no order has, and that the counter has passed.
  pub record IsNewId (b : Book L) (id : ℕ) : Type 0 where
    pub unused : lookup id b.orders ≡ none
    pub nonzero : id ≢ 0
    pub passed : id < b.order_counter

  -- The end of a placement: the funds are kept and the order is stored.
  pub record Ends (b : Book L) (o : Order) (result : Book L × ℕ × List Trade) (ts : List Trade)
      : Type 0 where
    pub valid : IsValid (result.0)
    pub conserved : (at : Asset) → total (result.0) at ≡ total b at
    pub named : (result.1 ≡ o.order_id) × (result.2 ≡ ts)
    pub same_market : result.0.market ≡ b.market
    pub stored : lookup o.order_id result.0.orders ≡ some o

  pub rest_order-Ends :
      (m : Matched L) (result : Book L × ℕ × List Trade)
      → IsValid m.book
      → IsNewId m.book m.taker.order_id
      → m.taker.remaining_quantity ≢ 0
      → rest_order m ≡ ok result
      → Ends m.book (rested m.taker) result m.trades
  unfolding rest_order put_order Locks
  rest_order-Ends m result v n left e =
      let o = m.taker in
      let (b, locks, e2) = >>=-eq-ok (lock_resting_funds m.book o) _ e in
      let (s, sums) = lock_resting_funds-ok m.book b o locks in
      let frame = enqueued_frame b o.side o.price o.order_id in
      let free : lookup o.order_id b.orders ≡ none =
        ap (λ m. lookup o.order_id m) (s.0) ∙ n.unused in
      ok_elim (λ result. Ends m.book (rested o) result m.trades) _ result e2
        (record {
          valid =
              added-IsValid b (rested o) (same-IsValid m.book b s v) free (n.nonzero)
                (omega (arith, n.passed, s.3)) left;
          conserved = λ at.
              let after = enqueue_order b o.side o.price o.order_id in
              omega (
                arith,
                same_free b (put_order after (rested o)) at (frame.2) (frame.3),
                sums at,
                total_of-insert (locked at) o.order_id (rested o) after.orders,
                ap (measured (locked at)) (ap (λ m. lookup o.order_id m) (frame.0) ∙ free),
                ap (total_of (locked at)) (frame.0),
                ap (total_of (locked at)) (s.0),
                locked-rested o at,
              );
          named = (refl, refl);
          same_market = frame.4 ∙ s.4;
          stored = ground (
            arith,
            lookup-insert o.order_id o.order_id (rested o)
                (enqueue_order b o.side o.price o.order_id).orders,
          );
        })

  pub close_order-Ends :
      (m : Matched L) (result : Book L × ℕ × List Trade)
      → IsValid m.book
      → IsNewId m.book m.taker.order_id
      → close_order m ≡ ok result
      → Ends m.book (closed m.taker m.trades) result m.trades
  unfolding close_order put_order
  close_order-Ends m result v n e =
      let o = m.taker in
      let (_, _, e2) =
        >>=-eq-ok
          (guard
            (not
              (not (o.remaining_quantity == 0) && not (is_limit o.order_type) && is_null m.trades))
            no_liquidity)
          _ e in
      ok_elim (λ result. Ends m.book (closed o m.trades) result m.trades) _ result e2
        (record {
          valid =
              stored-IsValid m.book (closed o m.trades) v
                (ap (λ i. waiting (lookup i m.book.orders)) (closed_id o m.trades)
                  ∙ ap waiting (n.unused)
                  ∙ sym (waiting-closed o m.trades))
                (omega (arith, closed_id o m.trades, n.passed));
          conserved = λ at. omega (
            arith,
            same_free m.book (put_order m.book (closed o m.trades)) at refl refl,
            total_of-insert (locked at) (closed o m.trades).order_id (closed o m.trades)
                m.book.orders,
            ap (measured (locked at))
                (ap (λ i. lookup i m.book.orders) (closed_id o m.trades) ∙ n.unused),
            locked-closed o m.trades at,
          );
          named = (sym (closed_id o m.trades), refl);
          same_market = refl;
          stored = ground (
            arith,
            lookup-insert (closed o m.trades).order_id (closed o m.trades).order_id
                (closed o m.trades) m.book.orders,
          );
        })
