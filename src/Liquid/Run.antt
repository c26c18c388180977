-- ===== src/Liquid/Run.antt =====
-- ace-liquid/src/clob.rs: a market and the token ledger over any sequence of calls.
use ace_chain.Common.{ℕ, ◌≡◌, ◌≢◌, refl, ◌∙◌, some, List, arith}
use ace_chain.Liquid.Types.{Market, Order, PlaceOrder, Trade, LiquidResult, ok, err, out_of_fuel}
use ace_chain.Liquid.Book.{PriceLadder, Book}
use ace_chain.Liquid.Invariant.{IsValid}
use ace_chain.Liquid.Clob.{place_order, cancel_order}
use ace_chain.Liquid.Placed.{place_order-IsPlaced, place_order-total}
use ace_chain.Liquid.Cancelling.{cancel_order-IsCancelled}
use ace_chain.Liquid.Collateral.{mint_of, settled, deposit, withdraw}
use ace_chain.Liquid.Custody.{Covered, deposit-IsDeposited, trading-Covered}
use ace_chain.Liquid.Withdrawing.{withdraw-IsWithdrawn}
use ace_chain.Vm.Token.{Tokens, TokenResult, done, refused, transfer_between_owners}
use ace_chain.Vm.Token.Effects.{sent_keeps}

-- The calls, each by its user, and the transfers of the ledger: a mint, two owners and an amount.
pub data Call : Type 0 where
  place : PlaceOrder → Call
  cancel : ℕ → ℕ → Call
  pay_in pay_out : ℕ → ℕ → ℕ → Call
  send : ℕ → ℕ → ℕ → ℕ → Call

-- The user is not the market's own account.
abbrev pub ByUser : ℕ → Call → Type 0
ByUser account (place r) = Unit
ByUser account (cancel owner id) = Unit
ByUser account (pay_in user asset amount) = user ≢ account
ByUser account (pay_out user asset amount) = user ≢ account
ByUser account (send mint from to amount) = from ≢ account

module _ {L : PriceLadder} where
  -- A call that fails leaves the state.
  abbrev pub or_old :
      {A : Type 0} → (A → Tokens × Book L) → LiquidResult A → Tokens × Book L → Tokens × Book L
  or_old f (ok a) s = f a
  or_old f (err e) s = s
  or_old f out_of_fuel s = s

  unfoldable pub call : ℕ → Tokens × Book L → Call → Tokens × Book L
  unfolding place_order cancel_order deposit withdraw transfer_between_owners
  call account (t, b) (place r) = or_old (λ x. (t, x.0)) (place_order b r) (t, b)
  call account (t, b) (cancel owner id) = or_old (λ x. (t, x.0)) (cancel_order b owner id) (t, b)
  call account (t, b) (pay_in user asset amount) =
      or_old (λ x. x) (deposit account t b user asset amount) (t, b)
  call account (t, b) (pay_out user asset amount) =
      or_old (λ x. x) (withdraw account t b user asset amount) (t, b)
  call account (t, b) (send mint from to amount) =
      or_old (λ u. (u, b)) (settled (transfer_between_owners t mint from to amount)) (t, b)

  -- The states that a market with its account can reach.
  pub data Reaches (account : ℕ) (s : Tokens × Book L) : Tokens × Book L → Type 0 where
    start : Reaches account s s
    next :
        (u : Tokens × Book L) (c : Call)
        → Reaches account s u
        → ByUser account c
        → Reaches account s (call account u c)

  -- A sound state of a market: the book is valid, of this market, and covered.
  pub record IsSound (account : ℕ) (m : Market) (s : Tokens × Book L) : Type 0 where
    pub valid : IsValid (s.1)
    pub market : s.1.market ≡ some m
    pub covered : Covered account m (s.0) (s.1)

  call-IsSound :
      (account : ℕ) (m : Market) (s : Tokens × Book L) (c : Call)
      → m.base_mint ≢ m.quote_mint
      → IsSound account m s
      → ByUser account c
      → IsSound account m (call account s c)
  unfolding call
  call-IsSound account m (t, b) (place r) n w u = go (place_order b r) refl
    where
      go :
          (x : LiquidResult (Book L × ℕ × List Trade))
          → place_order b r ≡ x
          → IsSound account m (or_old (λ x. (t, x.0)) x (t, b))
      go (ok x) e =
          let p = place_order-IsPlaced b r x (w.valid) e in
          record {
            valid = p.valid;
            market = p.same_market ∙ w.market;
            covered = (trading-Covered account m t b (w.valid) (w.covered)).0 r x e;
          }
      go (err e) _ = w
      go out_of_fuel _ = w
  call-IsSound account m (t, b) (cancel owner id) n w u = go (cancel_order b owner id) refl
    where
      go :
          (x : LiquidResult (Book L × Order))
          → cancel_order b owner id ≡ x
          → IsSound account m (or_old (λ x. (t, x.0)) x (t, b))
      go (ok (c, o)) e =
          let p = cancel_order-IsCancelled b c owner id o (w.valid) e in
          record {
            valid = p.valid;
            market = p.same_market ∙ w.market;
            covered = (trading-Covered account m t b (w.valid) (w.covered)).1 owner id c o e;
          }
      go (err e) _ = w
      go out_of_fuel _ = w
  call-IsSound account m (t, b) (pay_in user asset amount) n w u =
      go (deposit account t b user asset amount) refl
    where
      go :
          (x : LiquidResult (Tokens × Book L))
          → deposit account t b user asset amount ≡ x
          → IsSound account m (or_old (λ x. x) x (t, b))
      go (ok x) e =
          let p =
            deposit-IsDeposited account m t b user asset amount x (w.valid) (w.market) n u
              (w.covered) e in
          record { valid = p.valid; market = p.same_market ∙ w.market; covered = p.covered }
      go (err e) _ = w
      go out_of_fuel _ = w
  call-IsSound account m (t, b) (pay_out user asset amount) n w u =
      go (withdraw account t b user asset amount) refl
    where
      go :
          (x : LiquidResult (Tokens × Book L))
          → withdraw account t b user asset amount ≡ x
          → IsSound account m (or_old (λ x. x) x (t, b))
      go (ok x) e =
          let p =
            withdraw-IsWithdrawn account m t b user asset amount x (w.valid) (w.market) n u
              (w.covered) e in
          record { valid = p.valid; market = p.same_market ∙ w.market; covered = p.covered }
      go (err e) _ = w
      go out_of_fuel _ = w
  call-IsSound account m (t, b) (send mint from to amount) n w u =
      go (transfer_between_owners t mint from to amount) refl
    where
      go :
          (x : TokenResult)
          → transfer_between_owners t mint from to amount ≡ x
          → IsSound account m (or_old (λ u. (u, b)) (settled x) (t, b))
      go (done x) e = record {
        valid = w.valid;
        market = w.market;
        covered = λ at.
            omega
              (arith, w.covered at, sent_keeps t x mint from to amount (mint_of m at) account u e);
      }
      go (refused y x) _ = w

  reached :
      (account : ℕ) (m : Market) (s u : Tokens × Book L)
      → m.base_mint ≢ m.quote_mint
      → IsSound account m s
      → Reaches account s u
      → IsSound account m u
  reached account m s u n w start = w
  reached account m s u n w (next v c path by) =
      call-IsSound account m v c n (reached account m s v n w path) by

  -- From a sound state of a market of two different mints, every state that calls and transfers of
  -- the ledger reach, none of them by the market's own account, is sound: the book is valid, of the same market, and the market's
  -- account in the token ledger holds at least all the funds of each asset, free and locked; and no
  -- order that is placed then runs out of the rounds of its matching.
  pub reaches-IsSound :
      (account : ℕ) (m : Market) (s u : Tokens × Book L)
      → m.base_mint ≢ m.quote_mint
      → IsSound account m s
      → Reaches account s u
      → IsSound account m u × ((r : PlaceOrder) → place_order (u.1) r ≢ out_of_fuel)
  reaches-IsSound account m s u n w path =
      let sound = reached account m s u n w path in
      (sound, λ r. place_order-total (u.1) r (sound.valid))
