-- ===== src/Liquid/Funds.antt =====
-- ace-liquid/src/state.rs and clob.rs: the funds of a book, free and locked by resting orders.
use ace_chain.Common.{
  ℕ, Bool, true, false, ◌+◌, ◌-◌, ◌*◌, ◌≡◌, refl, Option, none, some, if◌then◌else◌, arith, ◌∙◌,
}
use ace_chain.Common.Assoc.{or_zero, lookup, total_of, measured, total_of-insert}
use ace_chain.Liquid.Types.{Order, buy, sell, ok}
use ace_chain.Liquid.Book.{
  PriceLadder, Book, Asset, base, quote, free_map, free_balance, credit_balance, debit_balance,
}

-- What an order has locked of an asset: a sale its remainder, a purchase the price of it.
abbrev pub locked : Asset → Order → ℕ
locked base o = elim o.side [ buy ↦ 0 | sell ↦ o.remaining_quantity ]
locked quote o = elim o.side [ buy ↦ o.remaining_quantity * o.price | sell ↦ 0 ]

abbrev same_asset : Asset → Asset → Bool
same_asset base base = true
same_asset quote quote = true
same_asset _ _ = false

-- An amount of one asset as an amount of any.
abbrev pub of_asset : Asset → ℕ → Asset → ℕ
of_asset asset amount at = if same_asset asset at then amount else 0

measured-id : (o : Option ℕ) → measured (λ n. n) o ≡ or_zero o
measured-id none = refl
measured-id (some n) = refl

module _ {L : PriceLadder} where
  abbrev pub free_total : Book L → Asset → ℕ
  free_total b asset = total_of (λ n. n) (free_map b asset)

  abbrev pub locked_total : Book L → Asset → ℕ
  locked_total b asset = total_of (locked asset) b.orders

  -- All that a book holds of an asset for its users.
  abbrev pub total : Book L → Asset → ℕ
  total b asset = free_total b asset + locked_total b asset

  -- Two books that differ in free balances only.
  abbrev pub SameQueues : Book L → Book L → Type 0
  SameQueues b c =
      (c.orders ≡ b.orders)
      × (c.levels ≡ b.levels)
      × (c.nodes ≡ b.nodes)
      × (c.order_counter ≡ b.order_counter)
      × (c.market ≡ b.market)

  pub credit_frame :
      (b c : Book L) (user : ℕ) (asset : Asset) (amount : ℕ)
      → credit_balance b user asset amount ≡ ok c
      → SameQueues b c
  unfolding credit_balance free_balance
  credit_frame b c user base amount e = (
    ground (arith, e),
    ground (arith, e),
    ground (arith, e),
    ground (arith, e),
    ground (arith, e),
  )
  credit_frame b c user quote amount e = (
    ground (arith, e),
    ground (arith, e),
    ground (arith, e),
    ground (arith, e),
    ground (arith, e),
  )

  pub credit_total :
      (b c : Book L) (user : ℕ) (asset : Asset) (amount : ℕ) (at : Asset)
      → credit_balance b user asset amount ≡ ok c
      → free_total c at ≡ free_total b at + of_asset asset amount at
  unfolding credit_balance free_balance
  credit_total b c user base amount base e = ground (
    arith,
    e,
    total_of-insert (λ n. n) user (or_zero (lookup user b.base_free) + amount) b.base_free,
    measured-id (lookup user b.base_free),
  )
  credit_total b c user base amount quote e = ground (arith, e)
  credit_total b c user quote amount base e = ground (arith, e)
  credit_total b c user quote amount quote e = ground (
    arith,
    e,
    total_of-insert (λ n. n) user (or_zero (lookup user b.quote_free) + amount) b.quote_free,
    measured-id (lookup user b.quote_free),
  )

  pub debit_frame :
      (b c : Book L) (user : ℕ) (asset : Asset) (amount : ℕ)
      → debit_balance b user asset amount ≡ ok c
      → SameQueues b c
  unfolding debit_balance free_balance
  debit_frame b c user base amount e = (
    ground (arith, e),
    ground (arith, e),
    ground (arith, e),
    ground (arith, e),
    ground (arith, e),
  )
  debit_frame b c user quote amount e = (
    ground (arith, e),
    ground (arith, e),
    ground (arith, e),
    ground (arith, e),
    ground (arith, e),
  )

  pub debit_total :
      (b c : Book L) (user : ℕ) (asset : Asset) (amount : ℕ) (at : Asset)
      → debit_balance b user asset amount ≡ ok c
      → free_total c at + of_asset asset amount at ≡ free_total b at
  unfolding debit_balance free_balance
  debit_total b c user base amount base e = ground (
    arith,
    e,
    total_of-insert (λ n. n) user (or_zero (lookup user b.base_free) - amount) b.base_free,
    measured-id (lookup user b.base_free),
  )
  debit_total b c user base amount quote e = ground (arith, e)
  debit_total b c user quote amount base e = ground (arith, e)
  debit_total b c user quote amount quote e = ground (
    arith,
    e,
    total_of-insert (λ n. n) user (or_zero (lookup user b.quote_free) - amount) b.quote_free,
    measured-id (lookup user b.quote_free),
  )

  pub same_trans : (b c d : Book L) → SameQueues b c → SameQueues c d → SameQueues b d
  same_trans b c d p q = (q.0 ∙ p.0, q.1 ∙ p.1, q.2 ∙ p.2, q.3 ∙ p.3, q.4 ∙ p.4)

  pub same_free :
      (b c : Book L) (at : Asset)
      → c.base_free ≡ b.base_free
      → c.quote_free ≡ b.quote_free
      → free_total c at ≡ free_total b at
  same_free b c base p q = rw p refl
  same_free b c quote p q = rw q refl
