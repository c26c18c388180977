-- ===== src/Liquid/Book.antt =====
-- ace-liquid/src/state.rs: the account of one market. All of its slots lie under `market_book_id`, so
-- one record stands for the account; a record of orders or of the market that `put_record` writes in
-- chunks is held as a value. A slot never written reads 0. The price ladder is an argument (its code
-- is critbit.rs), with the two functions that change it and the one that reads it.
use ace_chain.Common.{ℕ, ◌+◌, ◌-◌, ◌*◌, Option, none, some, ◌==◌, ltb, if◌then◌else◌, u64_max, max}
use ace_chain.Common.Assoc.{or_zero, or_zeros, Map, lookup, insert}
use ace_chain.Liquid.Types.{
  Market, Order, OrderSide, side_byte, LiquidResult, ok, err, arithmetic_overflow,
  insufficient_balance,
}

pub record PriceLadder : Type 1 where
  pub Ladder : Type 0
  pub empty : Ladder
  pub add_level : Ladder → OrderSide → ℕ → Ladder
  pub remove_level : Ladder → OrderSide → ℕ → Ladder
  pub best_price : Ladder → OrderSide → Option ℕ

pub data Asset : Type 0 where
  base quote : Asset

pub record Book (L : PriceLadder) : Type 0 where
  pub market : Option Market
  pub orders : Map Order
  pub base_free : Map ℕ
  pub quote_free : Map ℕ
  pub levels : Map (ℕ × ℕ)
  pub nodes : Map (ℕ × ℕ)
  pub order_counter : ℕ
  pub sequence_counter : ℕ
  pub ladder : L.Ladder

-- `level_key`: the side and the price, told apart by one number.
abbrev pub level_key : OrderSide → ℕ → ℕ
level_key side price = 2 * price + side_byte side

abbrev pub free_map : {L : PriceLadder} → Book L → Asset → Map ℕ
free_map b base = b.base_free
free_map b quote = b.quote_free

abbrev pub with_free : {L : PriceLadder} → Book L → Asset → Map ℕ → Book L
with_free b base m = record b { base_free = m }
with_free b quote m = record b { quote_free = m }

module _ {L : PriceLadder} where
  unfoldable pub put_order : Book L → Order → Book L
  put_order b o = record b { orders = insert o.order_id o b.orders }

  unfoldable pub get_order : Book L → ℕ → Option Order
  get_order b id = lookup id b.orders

  unfoldable pub free_balance : Book L → ℕ → Asset → ℕ
  free_balance b user asset = or_zero (lookup user (free_map b asset))

  unfoldable pub credit_balance : Book L → ℕ → Asset → ℕ → LiquidResult (Book L)
  unfolding free_balance
  credit_balance b user asset amount =
      if amount == 0
      then ok b
      else if ltb u64_max (free_balance b user asset + amount)
      then err arithmetic_overflow
      else ok
          (with_free b asset (insert user (free_balance b user asset + amount) (free_map b asset)))

  unfoldable pub debit_balance : Book L → ℕ → Asset → ℕ → LiquidResult (Book L)
  unfolding free_balance
  debit_balance b user asset amount =
      if amount == 0
      then ok b
      else if ltb (free_balance b user asset) amount
      then err (insufficient_balance (free_balance b user asset) amount)
      else ok
          (with_free b asset (insert user (free_balance b user asset - amount) (free_map b asset)))

  -- The counters read 0 at first, and count from 1.
  unfoldable pub next_order_id : Book L → LiquidResult (Book L × ℕ)
  next_order_id b =
      let current = max b.order_counter 1 in
      if ltb u64_max (current + 1)
      then err arithmetic_overflow
      else ok (record b { order_counter = current + 1 }, current)

  unfoldable pub next_sequence : Book L → LiquidResult (Book L × ℕ)
  next_sequence b =
      let current = max b.sequence_counter 1 in
      if ltb u64_max (current + 1)
      then err arithmetic_overflow
      else ok (record b { sequence_counter = current + 1 }, current)

  unfoldable pub read_level : Book L → ℕ → ℕ × ℕ
  read_level b key = or_zeros (lookup key b.levels)

  unfoldable pub read_node : Book L → ℕ → ℕ × ℕ
  read_node b id = or_zeros (lookup id b.nodes)

  unfoldable pub write_level : Book L → ℕ → ℕ → ℕ → Book L
  write_level b key head tail = record b { levels = insert key (head, tail) b.levels }

  unfoldable pub write_node : Book L → ℕ → ℕ → ℕ → Book L
  write_node b id prev next = record b { nodes = insert id (prev, next) b.nodes }

  unfoldable pub enqueue_order : Book L → OrderSide → ℕ → ℕ → Book L
  unfolding read_level read_node write_level write_node
  enqueue_order b side price id =
      let key = level_key side price in
      let (head, tail) = read_level b key in
      if tail == 0
      then (let c = write_level (write_node b id 0 0) key id id in
          record c { ladder = L.add_level c.ladder side price })
      else write_level (write_node (write_node b tail (read_node b tail).0 id) id tail 0) key head
          id

  unfoldable pub front_order_at : Book L → OrderSide → ℕ → Option ℕ
  unfolding read_level
  front_order_at b side price =
      let head = (read_level b (level_key side price)).0 in if head == 0 then none else some head

  -- The neighbours of an order that leaves are linked to each other, and its own links reset.
  unfoldable pub unlink : Book L → ℕ → Book L
  unfolding read_node write_node
  unlink b id =
      let (prev, next) = read_node b id in
      let c = if prev == 0 then b else write_node b prev (read_node b prev).0 next in
      let d = if next == 0 then c else write_node c next prev (read_node c next).1 in
      write_node d id 0 0

  unfoldable pub remove_order_from_queue : Book L → OrderSide → ℕ → ℕ → Book L
  unfolding read_level read_node write_level unlink
  remove_order_from_queue b side price id =
      let key = level_key side price in
      let (head, tail) = read_level b key in
      let (prev, next) = read_node b id in
      let new_head = if head == id then next else head in
      let new_tail = if tail == id then prev else tail in
      let c = unlink b id in
      if new_head == 0
      then (let d = write_level c key 0 0 in
          record d { ladder = L.remove_level d.ladder side price })
      else write_level c key new_head new_tail
