-- ===== src/Liquid/Cancelling.antt =====
-- ace-liquid/src/clob.rs: orders that are cancelled.
use ace_chain.Common.{
  ℕ, ◌+◌, ◌*◌, ◌≡◌, ◌≢◌, refl, ap, ◌∙◌, true, not, ◌&&◌, Option, none, some, ◌==◌, ltb,
  if◌then◌else◌, arith, u64_max,
}
use ace_chain.Common.Assoc.{or_zero, lookup, lookup-insert, total_of, measured, total_of-insert}
use ace_chain.Liquid.Types.{
  Order, OrderSide, buy, sell, Market, cancelled, LiquidResult, ok, err, >>=-eq-ok, ok_elim,
  guard-eq-ok, ◌>>=◌, ◌>>◌, guard, arithmetic_overflow, market_not_found, order_not_found,
  not_order_owner, order_not_open,
}
use ace_chain.Liquid.Book.{
  PriceLadder, Book, Asset, base, quote, free_balance, put_order, get_order,
  remove_order_from_queue, credit_balance,
}
use ace_chain.Liquid.Funds.{
  SameQueues, of_asset, free_total, total, locked, same_free, credit_frame, credit_total,
}
use ace_chain.Liquid.Queues.{removed_frame, waiting}
use ace_chain.Liquid.Invariant.{IsValid, same-IsValid, removed-IsValid}
use ace_chain.Liquid.Clob.{is_open, locked_quote, refund_resting_funds, cancel_stored, cancel_order}
use ace_chain.Liquid.Placing.{locked_base, locked_price}

abbrev gone : Order → Order
gone o = record o { status = cancelled; remaining_quantity = 0 }

locked-gone : (o : Order) (at : Asset) → locked at (gone o) ≡ 0
locked-gone o base = ground arith
locked-gone o quote = ground arith

module _ {L : PriceLadder} where
  -- Who has what, free, once the owner of `o` got what `o` had locked.
  abbrev pub PaidBack : Book L → Order → Book L → Type 0
  PaidBack b o c =
      (user : ℕ) (at : Asset)
      → free_balance c user at
        ≡ free_balance b user at + (if user == o.owner then locked at o else 0)

  Refunds : Book L → Order → Book L → Type 0
  Refunds b o c =
      SameQueues b c
      × ((at : Asset) → free_total c at ≡ free_total b at + locked at o)
      × PaidBack b o c

  credit_user :
      (b c : Book L) (owner : ℕ) (asset : Asset) (amount user : ℕ) (at : Asset)
      → credit_balance b owner asset amount ≡ ok c
      → free_balance c user at
        ≡ free_balance b user at + (if user == owner then of_asset asset amount at else 0)
  unfolding credit_balance free_balance
  credit_user b c owner base amount user base e =
      ground (
        arith,
        e,
        lookup-insert owner user (or_zero (lookup owner b.base_free) + amount) b.base_free,
      )
  credit_user b c owner base amount user quote e = ground (arith, e)
  credit_user b c owner quote amount user base e = ground (arith, e)
  credit_user b c owner quote amount user quote e = ground (
    arith,
    e,
    lookup-insert owner user (or_zero (lookup owner b.quote_free) + amount) b.quote_free,
  )

  same_user :
      (b c : Book L) (user : ℕ) (at : Asset)
      → c.base_free ≡ b.base_free
      → c.quote_free ≡ b.quote_free
      → free_balance c user at ≡ free_balance b user at
  unfolding free_balance
  same_user b c user base p q = rw p refl
  same_user b c user quote p q = rw q refl

  refund_resting_funds-ok :
      (b c : Book L) (o : Order) → refund_resting_funds b o ≡ ok c → Refunds b o c
  unfolding Refunds refund_resting_funds locked_quote
  refund_resting_funds-ok b c o e = go (o.side) refl e
    where
      go :
          (s : OrderSide)
          → o.side ≡ s
          → elim s as (λ _. LiquidResult (Book L)) [
            | buy ↦ do
              refund ←
                  if ltb u64_max (o.remaining_quantity * o.price)
                  then err arithmetic_overflow
                  else ok (o.remaining_quantity * o.price)
              credit_balance b o.owner quote refund
            | sell ↦ credit_balance b o.owner base o.remaining_quantity
          ]
            ≡ ok c
          → Refunds b o c
      go buy s e =
          let paid : credit_balance b o.owner quote (o.remaining_quantity * o.price) ≡ ok c =
            ground (arith, e) in
          (
            credit_frame b c o.owner quote _ paid,
            λ at.
                credit_total b c o.owner quote _ at paid
                ∙ ap (λ n. free_total b at + n) (locked_price o at s),
            λ user at.
                credit_user b c o.owner quote _ user at paid
                ∙ ap (λ n. free_balance b user at + (if user == o.owner then n else 0))
                    (locked_price o at s),
          )
      go sell s e = (
        credit_frame b c o.owner base _ e,
        λ at.
            credit_total b c o.owner base _ at e
            ∙ ap (λ n. free_total b at + n) (locked_base o at s),
        λ user at.
            credit_user b c o.owner base _ user at e
            ∙ ap (λ n. free_balance b user at + (if user == o.owner then n else 0))
                (locked_base o at s),
      )

  -- What a cancellation does to the order that was stored.
  pub record IsCancelled (b : Book L) (owner id : ℕ) (c : Book L) (o : Order) : Type 0 where
    pub valid : IsValid c
    pub conserved : (at : Asset) → total c at ≡ total b at
    pub same_market : c.market ≡ b.market
    pub before : Order
    pub stored : (lookup id b.orders ≡ some before) × (before.owner ≡ owner)
    pub was_open : (is_open before.status ≡ true) × (before.remaining_quantity ≢ 0)
    pub refunded : (at : Asset) → free_total c at ≡ free_total b at + locked at before
    pub paid_back : PaidBack b before c
    pub same_counter : c.order_counter ≡ b.order_counter
    pub now : (o ≡ gone before) × (lookup id c.orders ≡ some o)
    pub others : (x : ℕ) → x ≢ id → lookup x c.orders ≡ lookup x b.orders

  cancel_stored-IsCancelled :
      (b c : Book L) (owner id : ℕ) (before o : Order)
      → IsValid b
      → lookup id b.orders ≡ some before
      → before.owner ≡ owner
      → is_open before.status ≡ true
      → before.remaining_quantity ≢ 0
      → cancel_stored b before ≡ ok (c, o)
      → IsCancelled b owner id c o
  unfolding cancel_stored put_order Refunds
  cancel_stored-IsCancelled b c owner id p o v stored owned opened left e =
      let (d, refund, e2) = >>=-eq-ok (refund_resting_funds b p) _ e in
      let (s, sums, owners) = refund_resting_funds-ok b d p refund in
      let named = v.named id p stored in
      let frame = removed_frame d p.side p.price p.order_id in
      let held : lookup p.order_id d.orders ≡ some p =
        ap (λ m. lookup p.order_id m) (s.0) ∙ ap (λ i. lookup i b.orders) (named.0) ∙ stored in
      let queue = remove_order_from_queue d p.side p.price p.order_id in
      ok_elim (λ r. IsCancelled b owner id (r.0) (r.1)) _ (c, o) e2
        (record {
          valid =
              removed-IsValid d p.side p.price (gone p) (same-IsValid b d s v)
                (ap waiting held ∙ ground (arith, left)) refl
                (omega (arith, named.0, named.1, s.3));
          conserved = λ at. omega (
            arith,
            same_free d (put_order queue (gone p)) at (frame.3) (frame.4),
            sums at,
            total_of-insert (locked at) p.order_id (gone p) queue.orders,
            ap (measured (locked at)) (ap (λ m. lookup p.order_id m) (frame.1) ∙ held),
            ap (total_of (locked at)) (frame.1),
            ap (total_of (locked at)) (s.0),
            locked-gone p at,
          );
          same_market = frame.5 ∙ s.4;
          before = p;
          stored = (stored, owned);
          was_open = (opened, left);
          refunded = λ at. same_free d (put_order queue (gone p)) at (frame.3) (frame.4) ∙ sums at;
          paid_back = λ user at.
              same_user d (put_order queue (gone p)) user at (frame.3) (frame.4) ∙ owners user at;
          same_counter = frame.2 ∙ s.3;
          now = (refl, ground (arith, named.0, lookup-insert p.order_id id (gone p) queue.orders));
          others = λ x n. ground (
            arith,
            named.0,
            n,
            lookup-insert p.order_id x (gone p) queue.orders,
            ap (λ m. lookup x m) (frame.1),
            ap (λ m. lookup x m) (s.0),
          );
        })

  -- A cancellation on a valid book that succeeds was asked by the order's owner, and of an order with
  -- something left; it leaves a valid book with the same funds of each asset, free and locked
  -- together: what the order had locked is free for its owner, no other user's free balance changes,
  -- the order has nothing left, no other order changes, nor does the order counter or the market.
  pub cancel_order-IsCancelled :
      (b c : Book L) (owner id : ℕ) (o : Order)
      → IsValid b
      → cancel_order b owner id ≡ ok (c, o)
      → IsCancelled b owner id c o
  unfolding cancel_order get_order
  cancel_order-IsCancelled b c owner id o v e = go (b.market) (lookup id b.orders) refl e
    where
      go :
          (m : Option Market) (p : Option Order)
          → lookup id b.orders ≡ p
          → elim m as (λ _. LiquidResult (Book L × Order)) [
            | none ↦ err market_not_found
            | some _ ↦ elim p as (λ _. LiquidResult (Book L × Order)) [
              | none ↦ err (order_not_found id)
              | some o ↦ do
                guard (o.owner == owner) not_order_owner
                guard (is_open o.status && not (o.remaining_quantity == 0)) (order_not_open id)
                cancel_stored b o
            ]
          ]
            ≡ ok (c, o)
          → IsCancelled b owner id c o
      go none p h e = cc
      go (some m) none h e = cc
      go (some m) (some p) h e =
          let (_, t1, e2) = >>=-eq-ok (guard (p.owner == owner) not_order_owner) _ e in
          let (_, t2, e3) =
            >>=-eq-ok
              (guard (is_open p.status && not (p.remaining_quantity == 0)) (order_not_open id)) _
              e2 in
          let mine = guard-eq-ok (p.owner == owner) not_order_owner t1 in
          let able =
            guard-eq-ok (is_open p.status && not (p.remaining_quantity == 0)) (order_not_open id)
              t2 in
          cancel_stored-IsCancelled b c owner id p o v h (ground (arith, mine))
            (ground (arith, able)) (ground (arith, able)) e3
