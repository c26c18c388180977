-- ===== src/Liquid/Invariant.antt =====
-- ace-liquid/src/state.rs: books whose queues and order identifiers fit together.
use ace_chain.Common.{ℕ, suc, ◌<◌, ◌≡◌, ◌≢◌, refl, none, some, arith}
use ace_chain.Common.Assoc.{lookup, lookup-insert}
use ace_chain.Liquid.Types.{Order, OrderSide, buy, sell}
use ace_chain.Liquid.Book.{
  PriceLadder, Book, level_key, put_order, enqueue_order, remove_order_from_queue,
}
use ace_chain.Liquid.Links.{
  IsLinked, same-IsLinked, removed, removed-IsLinked, added, added-IsLinked,
}
use ace_chain.Liquid.Queues.{
  waiting, links_of, removed-SameLinks, removed_frame, added-SameLinks, enqueued_frame,
}
use ace_chain.Liquid.Funds.{SameQueues}

pub level_key-injective :
    (s t : OrderSide) (p q : ℕ) → level_key s p ≡ level_key t q → (s ≡ t) × (p ≡ q)
level_key-injective buy buy p q e = (refl, omega (arith, e))
level_key-injective buy sell p q e = absurd (omega (arith, e))
level_key-injective sell buy p q e = absurd (omega (arith, e))
level_key-injective sell sell p q e = (refl, omega (arith, e))

module _ {L : PriceLadder} where
  -- An order is stored under its own identifier, which the counter has passed.
  pub record IsValid (b : Book L) : Type 0 where
    pub linked : IsLinked (links_of b)
    pub named :
        (x : ℕ) (o : Order) → lookup x b.orders ≡ some o → (o.order_id ≡ x) × (x < b.order_counter)

  pub same-IsValid : (b c : Book L) → SameQueues b c → IsValid b → IsValid c
  same-IsValid b c (orders, levels, nodes, counter, _) v = record {
    linked =
        same-IsLinked (links_of b) (links_of c)
          (record {
            level = λ x. rw orders refl;
            head = λ k. rw levels refl;
            tail = λ k. rw levels refl;
            prev = λ x. rw nodes refl;
            next = λ x. rw nodes refl;
          })
          (v.linked);
    named = λ x o e. ground (arith, orders, counter, e, v.named x o);
  }

  -- An order that waits in a level and has nothing left leaves its queue.
  pub removed-IsValid :
      (b : Book L) (side : OrderSide) (price : ℕ) (o : Order)
      → IsValid b
      → (links_of b).level o.order_id ≡ suc (level_key side price)
      → o.remaining_quantity ≡ 0
      → o.order_id < b.order_counter
      → IsValid (put_order (remove_order_from_queue b side price o.order_id) o)
  unfolding put_order
  removed-IsValid b side price o v e z below =
      let frame = removed_frame b side price o.order_id in
      record {
        linked =
            same-IsLinked (removed (links_of b) (level_key side price) o.order_id)
              (links_of (put_order (remove_order_from_queue b side price o.order_id) o))
              (removed-SameLinks b side price o z)
              (removed-IsLinked (links_of b) (level_key side price) o.order_id (v.linked) e);
        named = λ x p h.
            ground (
              arith,
              frame.1,
              frame.2,
              lookup-insert o.order_id x o b.orders,
              h,
              v.named x p,
              below,
            );
      }

  -- An order is stored again with another remainder, above 0 before and after.
  pub stored-IsValid :
      (b : Book L) (o : Order)
      → IsValid b
      → (links_of b).level o.order_id ≡ waiting (some o)
      → o.order_id < b.order_counter
      → IsValid (put_order b o)
  unfolding put_order
  stored-IsValid b o v e below = record {
    linked =
        same-IsLinked (links_of b) (links_of (put_order b o))
          (record {
            level = λ x. ground (arith, lookup-insert o.order_id x o b.orders, e);
            head = λ k. refl;
            tail = λ k. refl;
            prev = λ x. refl;
            next = λ x. refl;
          })
          (v.linked);
    named = λ x p h. ground (arith, lookup-insert o.order_id x o b.orders, h, v.named x p, below);
  }

  -- A new order goes to the end of its level's queue.
  pub added-IsValid :
      (b : Book L) (o : Order)
      → IsValid b
      → lookup o.order_id b.orders ≡ none
      → o.order_id ≢ 0
      → o.order_id < b.order_counter
      → o.remaining_quantity ≢ 0
      → IsValid (put_order (enqueue_order b o.side o.price o.order_id) o)
  unfolding put_order
  added-IsValid b o v e z below left =
      let frame = enqueued_frame b o.side o.price o.order_id in
      record {
        linked =
            same-IsLinked (added (links_of b) (level_key o.side o.price) o.order_id)
              (links_of (put_order (enqueue_order b o.side o.price o.order_id) o))
              (added-SameLinks b o.side o.price o (ground (arith, left)))
              (added-IsLinked (links_of b) (level_key o.side o.price) o.order_id (v.linked)
                (ground (arith, e)) z);
        named = λ x p h.
            ground (
              arith,
              frame.0,
              frame.1,
              lookup-insert o.order_id x o b.orders,
              h,
              v.named x p,
              below,
            );
      }
