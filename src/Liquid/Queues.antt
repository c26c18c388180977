-- ===== src/Liquid/Queues.antt =====
-- ace-liquid/src/state.rs: the queues of a book read as links.
use ace_chain.Common.{ℕ, suc, ◌≡◌, Option, none, some, ◌==◌, if◌then◌else◌, arith}
use ace_chain.Common.Assoc.{or_zeros, lookup, lookup-insert}
use ace_chain.Liquid.Types.{Order, OrderSide}
use ace_chain.Liquid.Book.{
  PriceLadder, Book, level_key, put_order, read_level, read_node, write_level, write_node,
  enqueue_order, unlink, remove_order_from_queue,
}
use ace_chain.Liquid.Links.{Links, SameLinks, removed, added}

-- The level an order waits in, plus one; 0 for an order that is not there or has nothing left.
abbrev pub waiting : Option Order → ℕ
waiting none = 0
waiting (some o) = if o.remaining_quantity == 0 then 0 else suc (level_key o.side o.price)

module _ {L : PriceLadder} where
  abbrev pub links_of : Book L → Links
  links_of b = record {
    level = λ x. waiting (lookup x b.orders);
    head = λ k. (or_zeros (lookup k b.levels)).0;
    tail = λ k. (or_zeros (lookup k b.levels)).1;
    prev = λ x. (or_zeros (lookup x b.nodes)).0;
    next = λ x. (or_zeros (lookup x b.nodes)).1;
  }

  unlink_frame :
      (b : Book L) (id : ℕ)
      → let c = unlink b id in
        (c.levels ≡ b.levels)
        × (c.orders ≡ b.orders)
        × (c.order_counter ≡ b.order_counter)
        × (c.base_free ≡ b.base_free)
        × (c.quote_free ≡ b.quote_free)
        × (c.market ≡ b.market)
  unfolding unlink read_node write_node
  unlink_frame b id =
      (ground arith, ground arith, ground arith, ground arith, ground arith, ground arith)

  unlink_prev :
      (b : Book L) (k id x : ℕ)
      → (or_zeros (lookup x (unlink b id).nodes)).0 ≡ (removed (links_of b) k id).prev x
  unfolding unlink read_node write_node
  unlink_prev b k id x = grind (arith, lookup-insert)

  unlink_next :
      (b : Book L) (k id x : ℕ)
      → (or_zeros (lookup x (unlink b id).nodes)).1 ≡ (removed (links_of b) k id).next x
  unfolding unlink read_node write_node
  unlink_next b k id x = grind (arith, lookup-insert)

  removed_head :
      (b : Book L) (side : OrderSide) (price id k : ℕ)
      → (or_zeros (lookup k (remove_order_from_queue b side price id).levels)).0
        ≡ (removed (links_of b) (level_key side price) id).head k
  unfolding remove_order_from_queue read_level read_node write_level
  removed_head b side price id k = grind (arith, lookup-insert, unlink_frame b id)

  removed_tail :
      (b : Book L) (side : OrderSide) (price id k : ℕ)
      → (or_zeros (lookup k (remove_order_from_queue b side price id).levels)).1
        ≡ (removed (links_of b) (level_key side price) id).tail k
  unfolding remove_order_from_queue read_level read_node write_level
  removed_tail b side price id k = grind (arith, lookup-insert, unlink_frame b id)

  pub removed_frame :
      (b : Book L) (side : OrderSide) (price id : ℕ)
      → let c = remove_order_from_queue b side price id in
        (c.nodes ≡ (unlink b id).nodes)
        × (c.orders ≡ b.orders)
        × (c.order_counter ≡ b.order_counter)
        × (c.base_free ≡ b.base_free)
        × (c.quote_free ≡ b.quote_free)
        × (c.market ≡ b.market)
  unfolding remove_order_from_queue read_level read_node write_level
  removed_frame b side price id =
      let f = unlink_frame b id in
      (
        ground (arith, f),
        ground (arith, f),
        ground (arith, f),
        ground (arith, f),
        ground (arith, f),
        ground (arith, f),
      )

  pub removed-SameLinks :
      (b : Book L) (side : OrderSide) (price : ℕ) (o : Order)
      → o.remaining_quantity ≡ 0
      → SameLinks
          (removed (links_of b) (level_key side price) o.order_id)
          (links_of (put_order (remove_order_from_queue b side price o.order_id) o))
  unfolding put_order
  removed-SameLinks b side price o e =
      let frame = removed_frame b side price o.order_id in
      record {
        level = λ x. rw (frame.1) (ground (arith, lookup-insert o.order_id x o b.orders));
        head = removed_head b side price o.order_id;
        tail = removed_tail b side price o.order_id;
        prev = λ x. rw (frame.0) (unlink_prev b (level_key side price) o.order_id x);
        next = λ x. rw (frame.0) (unlink_next b (level_key side price) o.order_id x);
      }

  pub enqueued_frame :
      (b : Book L) (side : OrderSide) (price id : ℕ)
      → let c = enqueue_order b side price id in
        (c.orders ≡ b.orders)
        × (c.order_counter ≡ b.order_counter)
        × (c.base_free ≡ b.base_free)
        × (c.quote_free ≡ b.quote_free)
        × (c.market ≡ b.market)
  unfolding enqueue_order read_level read_node write_level write_node
  enqueued_frame b side price id =
      (ground arith, ground arith, ground arith, ground arith, ground arith)

  pub added-SameLinks :
      (b : Book L) (side : OrderSide) (price : ℕ) (o : Order)
      → waiting (some o) ≡ suc (level_key side price)
      → SameLinks
          (added (links_of b) (level_key side price) o.order_id)
          (links_of (put_order (enqueue_order b side price o.order_id) o))
  unfolding put_order enqueue_order read_level read_node write_level write_node
  added-SameLinks b side price o e =
      let frame = enqueued_frame b side price o.order_id in
      record {
        level = λ x. rw (frame.0) (ground (arith, lookup-insert o.order_id x o b.orders));
        head = λ k. grind (arith, lookup-insert);
        tail = λ k. grind (arith, lookup-insert);
        prev = λ x. grind (arith, lookup-insert);
        next = λ x. grind (arith, lookup-insert);
      }
