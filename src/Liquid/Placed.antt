-- ===== src/Liquid/Placed.antt =====
-- ace-liquid/src/clob.rs: placed orders, from the request to the book.
use ace_chain.Common.{
  ℕ, suc, ◌+◌, ◌≤◌, ◌≡◌, ◌≢◌, ◌⊎◌, inl, inr, refl, ap, sym, ◌∙◌, Bool, true, false, not, ◌&&◌,
  Option, none, some, List, if◌then◌else◌, arith, sum_of, All,
}
use ace_chain.Common.Assoc.{lookup}
use ace_chain.Liquid.Types.{
  Order, PlaceOrder, Trade, Market, TimeInForce, is_limit, LiquidResult, LiquidError, >>=-total, ok,
  err, out_of_fuel, >>=-eq-ok, ◌>>=◌, ◌>>◌, guard, self_trade, market_inactive, market_not_found,
}
use ace_chain.Liquid.Book.{PriceLadder, Book, Asset, next_order_id, next_sequence, debit_balance}
use ace_chain.Liquid.Funds.{total}
use ace_chain.Liquid.Invariant.{IsValid}
use ace_chain.Liquid.Match.{Matched, match_taker}
use ace_chain.Liquid.Filling.{IsTrade}
use ace_chain.Liquid.Matching.{IsMatched, match_taker-IsMatched, match_taker-total}
use ace_chain.Liquid.Clob.{
  time_in_force_allows_resting, validate_order, locked_quote, is_null, new_order, rested, closed,
  lock_resting_funds, should_rest, rest_order, close_order, finish_order, place_order,
}
use ace_chain.Liquid.Placing.{
  IsNewId, Ends, rest_order-Ends, close_order-Ends, closed_id, closed_left,
}
use ace_chain.Liquid.Counters.{
  Counted, Counted-total, Counted-IsValid, next_order_id-ok, next_sequence-ok, Counted-trans,
  IsNewId-trans, next_order_id-total, next_sequence-total,
}

abbrev traded : List Trade → ℕ
traded ts = sum_of (λ t. t.quantity) ts

guard-total : (test : Bool) (x : LiquidError) → guard test x ≢ out_of_fuel
guard-total true x e = cc
guard-total false x e = cc

validate_order-total : (m : Market) (r : PlaceOrder) → validate_order m r ≢ out_of_fuel
unfolding validate_order
validate_order-total m r = ground arith

module _ {L : PriceLadder} where
  finish_order-Ends :
      (tif : TimeInForce) (m : Matched L) (result : Book L × ℕ × List Trade)
      → IsValid m.book
      → IsNewId m.book m.taker.order_id
      → finish_order tif m ≡ ok result
      → ((should_rest tif m ≡ true) × Ends m.book (rested m.taker) result m.trades)
        ⊎ ((should_rest tif m ≡ false) × Ends m.book (closed m.taker m.trades) result m.trades)
  unfolding finish_order
  finish_order-Ends tif m result v n e =
      let (_, _, e2) = >>=-eq-ok (guard (not (m.blocked && is_null m.trades)) self_trade) _ e in
      go (should_rest tif m) refl e2
    where
      go :
          (t : Bool)
          → should_rest tif m ≡ t
          → (if t then rest_order m else close_order m) ≡ ok result
          → ((t ≡ true) × Ends m.book (rested m.taker) result m.trades)
            ⊎ ((t ≡ false) × Ends m.book (closed m.taker m.trades) result m.trades)
      go true t e = inl (refl, rest_order-Ends m result v n (ground (arith, t)) e)
      go false t e = inr (refl, close_order-Ends m result v n e)

  -- What a placement does: a new order is stored, with nothing left of it or waiting with what its
  -- trades left.
  pub record IsPlaced (b : Book L) (r : PlaceOrder) (result : Book L × ℕ × List Trade)
      : Type 0 where
    pub valid : IsValid (result.0)
    pub conserved : (at : Asset) → total (result.0) at ≡ total b at
    pub same_market : result.0.market ≡ b.market
    pub fresh : lookup (result.1) b.orders ≡ none
    pub sequence : ℕ
    pub trades_ok : All (λ t. IsTrade (new_order r (result.1) sequence) t) (result.2)
    pub within : traded (result.2) ≤ r.quantity
    pub kept :
        (o : Order) × (lookup (result.1) result.0.orders ≡ some o)
        × ((o.remaining_quantity ≡ 0)
            ⊎ ((o.remaining_quantity + traded (result.2) ≡ r.quantity)
                × (is_limit r.order_type ≡ true)
                × (time_in_force_allows_resting r.time_in_force ≡ true)))

  matched-IsPlaced :
      (b d : Book L) (r : PlaceOrder) (id seq : ℕ) (m : Matched L)
      (result : Book L × ℕ × List Trade)
      → Counted b d
      → IsNewId d id
      → IsMatched d (new_order r id seq) m
      → finish_order r.time_in_force m ≡ ok result
      → IsPlaced b r result
  matched-IsPlaced b d r id seq m result s n w e =
      let same : m.taker.order_id ≡ id = ap (λ o. o.order_id) (w.same) in
      let n2 : IsNewId m.book m.taker.order_id = record {
        unused = ap (λ i. lookup i m.book.orders) same ∙ w.keeps.fresh id (n.unused);
        nonzero = λ z. n.nonzero (sym same ∙ z);
        passed = omega (arith, same, w.keeps.counter, n.passed);
      } in
      elim (finish_order-Ends r.time_in_force m result (w.keeps.valid) n2 e) [
        | inl (rests, f) ↦ placed s n w f same (
            inr (
              w.filled_sum,
              ground (arith, rests, ap (λ o. o.order_type) (w.same)),
              ground (arith, rests),
            ))
        | inr (_, f) ↦
            placed s n w f (closed_id m.taker m.trades ∙ same) (inl (closed_left m.taker m.trades))
      ]
    where
      placed :
          {o : Order}
          → Counted b d
          → IsNewId d id
          → IsMatched d (new_order r id seq) m
          → Ends m.book o result m.trades
          → o.order_id ≡ id
          → (o.remaining_quantity ≡ 0)
            ⊎ ((o.remaining_quantity + traded m.trades ≡ r.quantity)
                × (is_limit r.order_type ≡ true)
                × (time_in_force_allows_resting r.time_in_force ≡ true))
          → IsPlaced b r result
      placed {o} s n w f same kept =
          let number : result.1 ≡ id = f.named.0 ∙ same in
          record {
            valid = f.valid;
            conserved = λ at. f.conserved at ∙ w.keeps.conserved at ∙ Counted-total b d at s;
            same_market = f.same_market ∙ w.keeps.same_market ∙ s.same_market;
            fresh = rw number (ap (λ m. lookup id m) (sym (s.orders)) ∙ n.unused);
            sequence = seq;
            trades_ok = rw (number, f.named.1) (w.trades_ok);
            within = rw (f.named.1) (omega (arith, w.filled_sum));
            kept = (
              o,
              ap (λ i. lookup i result.0.orders) (number ∙ sym same) ∙ f.stored,
              rw (f.named.1) kept,
            );
          }

  -- A placement on a valid book that succeeds leaves a valid book with the same funds of each asset,
  -- free and locked together; its order is new and is stored, with nothing left or, for a limit order
  -- that is good till cancelled, with what its trades left of its quantity; and each trade moves
  -- something, at a price the limit admits, with another user.
  pub place_order-IsPlaced :
      (b : Book L) (r : PlaceOrder) (result : Book L × ℕ × List Trade)
      → IsValid b
      → place_order b r ≡ ok result
      → IsPlaced b r result
  unfolding place_order
  place_order-IsPlaced b r result v e = go (b.market) e
    where
      go :
          (o : Option Market)
          → elim o as (λ _. LiquidResult (Book L × ℕ × List Trade)) [
            | none ↦ err market_not_found
            | some m ↦ do
              guard m.active market_inactive
              validate_order m r
              (c, id) ← next_order_id b
              (d, seq) ← next_sequence c
              matched ← match_taker (suc r.quantity) d (new_order r id seq)
              finish_order r.time_in_force matched
          ]
            ≡ ok result
          → IsPlaced b r result
      go none e = cc
      go (some m) e =
          let (_, _, e2) = >>=-eq-ok (guard m.active market_inactive) _ e in
          let (_, _, e3) = >>=-eq-ok (validate_order m r) _ e2 in
          let ((c, id), first, e4) = >>=-eq-ok (next_order_id b) _ e3 in
          let ((d, seq), second, e5) = >>=-eq-ok (next_sequence c) _ e4 in
          let (matched, run, e6) =
            >>=-eq-ok (match_taker (suc r.quantity) d (new_order r id seq)) _ e5 in
          let (s, n) = next_order_id-ok b c id v first in
          let (s2, same) = next_sequence-ok c d seq second in
          let whole = Counted-trans b c d s s2 in
          matched-IsPlaced b d r id seq matched result whole (IsNewId-trans c d id s2 n)
            (match_taker-IsMatched (suc r.quantity) d (new_order r id seq) matched
              (Counted-IsValid b d whole v) run)
            e6

  finish_order-total : (tif : TimeInForce) (m : Matched L) → finish_order tif m ≢ out_of_fuel
  unfolding finish_order rest_order close_order lock_resting_funds locked_quote debit_balance
  finish_order-total tif m = ground arith

  pub place_order-total : (b : Book L) (r : PlaceOrder) → IsValid b → place_order b r ≢ out_of_fuel
  unfolding place_order
  place_order-total b r v e = go (b.market) e
    where
      go :
          (o : Option Market)
          → elim o as (λ _. LiquidResult (Book L × ℕ × List Trade)) [
            | none ↦ err market_not_found
            | some m ↦ do
              guard m.active market_inactive
              validate_order m r
              (c, id) ← next_order_id b
              (d, seq) ← next_sequence c
              matched ← match_taker (suc r.quantity) d (new_order r id seq)
              finish_order r.time_in_force matched
          ]
            ≡ out_of_fuel
          → ⊥
      go none e = cc
      go (some m) e =
          >>=-total (guard m.active market_inactive) _ (guard-total m.active market_inactive)
            (λ _ _. >>=-total (validate_order m r) _ (validate_order-total m r) (λ _ _.
              >>=-total (next_order_id b) _ (next_order_id-total b) (λ (c, id) first.
                >>=-total (next_sequence c) _ (next_sequence-total c) (λ (d, seq) second.
                  >>=-total (match_taker (suc r.quantity) d (new_order r id seq)) _
                    (match_taker-total (suc r.quantity) d (new_order r id seq)
                      (Counted-IsValid c d (next_sequence-ok c d seq second).0
                        (Counted-IsValid b c (next_order_id-ok b c id v first).0 v))
                      (omega arith))
                    (λ matched _. finish_order-total r.time_in_force matched)))))
            e
