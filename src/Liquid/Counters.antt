-- ===== src/Liquid/Counters.antt =====
-- ace-liquid/src/state.rs: the counters of a book.
use ace_chain.Common.{ℕ, ◌≤◌, ◌≡◌, ◌≢◌, inl, inr, refl, ap, ◌∙◌, arith, Option-cases}
use ace_chain.Common.Assoc.{lookup}
use ace_chain.Liquid.Types.{ok, out_of_fuel}
use ace_chain.Liquid.Book.{PriceLadder, Book, Asset, base, quote, next_order_id, next_sequence}
use ace_chain.Liquid.Funds.{total}
use ace_chain.Liquid.Queues.{links_of}
use ace_chain.Liquid.Links.{same-IsLinked}
use ace_chain.Liquid.Invariant.{IsValid}
use ace_chain.Liquid.Placing.{IsNewId}

module _ {L : PriceLadder} where
  -- The funds, the queues and the orders stand, and the counter has only gone up.
  pub record Counted (b c : Book L) : Type 0 where
    pub orders : c.orders ≡ b.orders
    pub levels : c.levels ≡ b.levels
    pub nodes : c.nodes ≡ b.nodes
    pub counter : b.order_counter ≤ c.order_counter
    pub base_free : c.base_free ≡ b.base_free
    pub quote_free : c.quote_free ≡ b.quote_free
    pub same_market : c.market ≡ b.market

  pub Counted-total : (b c : Book L) (at : Asset) → Counted b c → total c at ≡ total b at
  Counted-total b c base s = rw (s.orders, s.base_free) refl
  Counted-total b c quote s = rw (s.orders, s.quote_free) refl

  pub Counted-IsValid : (b c : Book L) → Counted b c → IsValid b → IsValid c
  Counted-IsValid b c s v = record {
    linked =
        same-IsLinked (links_of b) (links_of c)
          (record {
            level = λ x. rw (s.orders) refl;
            head = λ k. rw (s.levels) refl;
            tail = λ k. rw (s.levels) refl;
            prev = λ x. rw (s.nodes) refl;
            next = λ x. rw (s.nodes) refl;
          })
          (v.linked);
    named = λ x o e. ground (arith, s.orders, s.counter, e, v.named x o);
  }

  pub next_order_id-ok :
      (b c : Book L) (id : ℕ)
      → IsValid b
      → next_order_id b ≡ ok (c, id)
      → Counted b c × IsNewId c id
  unfolding next_order_id
  next_order_id-ok b c id v e =
      let orders : c.orders ≡ b.orders = ground (arith, e) in
      (
        record {
          orders = orders;
          levels = ground (arith, e);
          nodes = ground (arith, e);
          counter = ground (arith, e);
          base_free = ground (arith, e);
          quote_free = ground (arith, e);
          same_market = ground (arith, e);
        },
        record {
          unused = elim (Option-cases (lookup id c.orders)) [
            | inl free ↦ free
            | inr (o, held) ↦ absurd (ground (arith, e, held, orders, v.named id o))
          ];
          nonzero = ground (arith, e);
          passed = ground (arith, e);
        },
      )

  pub next_sequence-ok :
      (b c : Book L) (seq : ℕ)
      → next_sequence b ≡ ok (c, seq)
      → Counted b c × (c.order_counter ≡ b.order_counter)
  unfolding next_sequence
  next_sequence-ok b c seq e = (
    record {
      orders = ground (arith, e);
      levels = ground (arith, e);
      nodes = ground (arith, e);
      counter = ground (arith, e);
      base_free = ground (arith, e);
      quote_free = ground (arith, e);
      same_market = ground (arith, e);
    },
    ground (arith, e),
  )

  pub Counted-trans : (b c d : Book L) → Counted b c → Counted c d → Counted b d
  Counted-trans b c d s t = record {
    orders = t.orders ∙ s.orders;
    levels = t.levels ∙ s.levels;
    nodes = t.nodes ∙ s.nodes;
    counter = omega (arith, s.counter, t.counter);
    base_free = t.base_free ∙ s.base_free;
    quote_free = t.quote_free ∙ s.quote_free;
    same_market = t.same_market ∙ s.same_market;
  }

  pub IsNewId-trans : (c d : Book L) (id : ℕ) → Counted c d → IsNewId c id → IsNewId d id
  IsNewId-trans c d id s n = record {
    unused = ap (λ m. lookup id m) (s.orders) ∙ n.unused;
    nonzero = n.nonzero;
    passed = omega (arith, s.counter, n.passed);
  }

  pub next_order_id-total : (b : Book L) → next_order_id b ≢ out_of_fuel
  unfolding next_order_id
  next_order_id-total b = ground arith

  pub next_sequence-total : (b : Book L) → next_sequence b ≢ out_of_fuel
  unfolding next_sequence
  next_sequence-total b = ground arith
