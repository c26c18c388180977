-- ===== src/Defi/Swap/Adding.antt =====
-- ace-defi/src/swap.rs: liquidity that is put in gets no more than its share.
use ace_chain.Common.{
  ℕ, ◌+◌, ◌*◌, ◌/◌, ◌≤◌, ◌≡◌, ◌≢◌, refl, ap, sym, ◌∙◌, min, not, ◌||◌, some, ◌==◌, leb,
  if◌then◌else◌, arith,
}
use native.Mathlib.Nat.{div-mul-le_self, mul-le-mul_right}
use ace_chain.Common.Assoc.{lookup, lookup-insert}
use ace_chain.Common.Results.{Result, ok, err, guard, ok_or, >>=-eq-ok, ok_or-eq-ok}
use ace_chain.Vm.Token.{Tokens}
use ace_chain.Defi.Swap.{
  Pool, PoolHashes, Exchange, SwapError, success, zero_amount, pool_not_found, get_pool,
}
use ace_chain.Defi.Swap.Root.{isqrt, isqrt-IsRoot}
use ace_chain.Defi.Swap.Liquidity.{
  lp_amount, add_terms, deposited, add_minted, add_shared, add_paid, add_on, add_liquidity,
  with_pool, fits_u64, has_balance,
}
use ace_chain.Defi.Swap.Shares.{Fair}

-- The liquidity tokens for two amounts are at most the share of each, and for the first liquidity at most
-- the root of their product.
abbrev pub Shared : Pool → ℕ → ℕ → ℕ → Type 0
Shared p a b lp =
    (p.lp_supply ≢ 0 → (lp * p.reserve_a ≤ a * p.lp_supply) × (lp * p.reserve_b ≤ b * p.lp_supply))
    × (p.lp_supply ≡ 0 → lp * lp ≤ a * b)

least_share :
    (m n lp ra rb a b s : ℕ)
    → m * ra ≤ a * s
    → n * rb ≤ b * s
    → lp ≡ min m n
    → (lp * ra ≤ a * s) × (lp * rb ≤ b * s)
least_share m n lp ra rb a b s h k e =
    let first : lp ≤ m = omega (arith, e) in
    let second : lp ≤ n = omega (arith, e) in
    (omega (arith, mul-le-mul_right ra first, h), omega (arith, mul-le-mul_right rb second, k))

lp_amount-Shared : (p : Pool) (a b lp : ℕ) → lp_amount p a b ≡ ok lp → Shared p a b lp
unfolding lp_amount
lp_amount-Shared p a b lp e =
    let share = min (a * p.lp_supply / p.reserve_a) (b * p.lp_supply / p.reserve_b) in
    let (shares, q, e1) =
      >>=-eq-ok
        (if p.lp_supply == 0
          then ok (isqrt (a * b))
          else if p.reserve_a == 0 || p.reserve_b == 0
          then err zero_amount
          else ok share)
        _ e in
    let (amount, f, e2) = >>=-eq-ok (fits_u64 shares) _ e1 in
    let (_, _, e3) = >>=-eq-ok (guard (not (amount == 0)) zero_amount) _ e2 in
    let same : lp ≡ shares = ground (arith, f, e3) in
    (
      λ n.
          least_share (a * p.lp_supply / p.reserve_a) (b * p.lp_supply / p.reserve_b) lp p.reserve_a
            p.reserve_b a b p.lp_supply (div-mul-le_self (a * p.lp_supply) p.reserve_a)
            (div-mul-le_self (b * p.lp_supply) p.reserve_b) (ground (arith, n, q, same)),
      λ z.
          let root : lp ≡ isqrt (a * b) = ground (arith, z, q, same) in
          let (below, _) = isqrt-IsRoot (a * b) in rw root below,
    )

-- A pool after liquidity is put in.
pub record IsAdded (y : Exchange) (p : Pool) (a b lp : ℕ) : Type 0 where
  pub after : Pool
  pub stored : lookup p.pool_id y.pools ≡ some after
  pub joined :
      (after.reserve_a ≡ p.reserve_a + a)
      × (after.reserve_b ≡ p.reserve_b + b)
      × (after.lp_supply ≡ p.lp_supply + lp)
  pub shared : Shared p a b lp

deposited-IsAdded :
    (x y : Exchange) (t : Tokens) (p : Pool) (a b lp given : ℕ)
    → Shared p a b lp
    → deposited x t p a b lp ≡ success given y
    → IsAdded y p a b given
unfolding deposited
deposited-IsAdded x y t p a b lp given v e =
    let q = with_pool p (p.reserve_a + a) (p.reserve_b + b) (p.lp_supply + lp) in
    let same : lp ≡ given = ground (arith, e) in
    rw⁻¹ same (record {
      after = q;
      stored = ground (arith, e, lookup-insert p.pool_id p.pool_id q x.pools);
      joined = (refl, refl, refl);
      shared = v;
    })

add_minted-IsAdded :
    (x y : Exchange) (p : Pool) (a b lp given : ℕ) (r : Result SwapError Tokens)
    → Shared p a b lp
    → add_minted x p a b lp r ≡ success given y
    → IsAdded y p a b given
unfolding add_minted
add_minted-IsAdded x y p a b lp given (err e) v s = cc s
add_minted-IsAdded x y p a b lp given (ok t) v s = deposited-IsAdded x y t p a b lp given v s

add_shared-IsAdded :
    (x y : Exchange) (t : Tokens) (p : Pool) (provider a b given : ℕ) (r : Result SwapError ℕ)
    → lp_amount p a b ≡ r
    → add_shared x t p provider a b r ≡ success given y
    → IsAdded y p a b given
unfolding add_shared
add_shared-IsAdded x y t p provider a b given (err e) q s = cc s
add_shared-IsAdded x y t p provider a b given (ok lp) q s =
    add_minted-IsAdded x y p a b lp given _ (lp_amount-Shared p a b lp q) s

add_paid-IsAdded :
    (x y : Exchange) (p : Pool) (provider a b given : ℕ) (r : Result SwapError Tokens)
    → add_paid x p provider a b r ≡ success given y
    → IsAdded y p a b given
unfolding add_paid
add_paid-IsAdded x y p provider a b given (err e) s = cc s
add_paid-IsAdded x y p provider a b given (ok t) s =
    add_shared-IsAdded x y t p provider a b given (lp_amount p a b) refl s

found_as :
    (h : PoolHashes) (x : Exchange) (token_a token_b : ℕ) (p q : Pool) (a c b d : ℕ)
    → ◌≡◌ {A = Result SwapError (Pool × ℕ × ℕ)} (ok (p, a, b)) (ok (q, c, d))
    → get_pool h x token_a token_b ≡ some p
    → (get_pool h x token_a token_b ≡ some q) × (c ≡ a) × (d ≡ b)
found_as h x token_a token_b p q a c b d e f =
    let pools : p ≡ q = cc e in (f ∙ ap some pools, cc e, cc e)

-- The amounts in the order of the pool.
add_terms-found :
    (h : PoolHashes) (x : Exchange) (token_a token_b provider amount_a amount_b : ℕ) (p : Pool)
    (a b : ℕ)
    → add_terms h x token_a token_b provider amount_a amount_b ≡ ok (p, a, b)
    → (get_pool h x token_a token_b ≡ some p)
      × (a ≡ (if leb token_a token_b then amount_a else amount_b))
      × (b ≡ (if leb token_a token_b then amount_b else amount_a))
unfolding add_terms
add_terms-found h x token_a token_b provider amount_a amount_b p a b e =
    let amt_a = if leb token_a token_b then amount_a else amount_b in
    let amt_b = if leb token_a token_b then amount_b else amount_a in
    let (_, _, e1) = >>=-eq-ok (guard (not (amount_a == 0 || amount_b == 0)) zero_amount) _ e in
    let (q, f, e2) = >>=-eq-ok (ok_or (get_pool h x token_a token_b) pool_not_found) _ e1 in
    let (_, _, e3) = >>=-eq-ok (has_balance x.tokens q.token_a provider amt_a) _ e2 in
    let (_, _, e4) = >>=-eq-ok (has_balance x.tokens q.token_b provider amt_b) _ e3 in
    let found = ok_or-eq-ok (get_pool h x token_a token_b) pool_not_found q f in
    found_as h x token_a token_b q p amt_a a amt_b b e4 found

-- Liquidity that is put in: the reserves and the supply grow by what is paid and given, and what is given
-- is fair to the liquidity that is there already.
pub record IsGiven (y : Exchange) (p : Pool) (a b lp : ℕ) : Type 0 where
  pub added : IsAdded y p a b lp
  pub fair : p.lp_supply ≢ 0 → Fair p (added.after)

fair_shares :
    (lp reserve supply amount more total : ℕ)
    → lp * reserve ≤ amount * supply
    → more ≡ reserve + amount
    → total ≡ supply + lp
    → reserve * total ≤ more * supply
fair_shares lp reserve supply amount more total h e f = rw (e, f) (omega (arith, h))

added-IsGiven : (y : Exchange) (p : Pool) (a b lp : ℕ) → IsAdded y p a b lp → IsGiven y p a b lp
added-IsGiven y p a b lp v = record {
  added = v;
  fair = λ n.
      let (first, second) = v.shared.0 n in
      (
        fair_shares lp p.reserve_a p.lp_supply a (v.after.reserve_a) (v.after.lp_supply) first
            (v.joined.0) (v.joined.2),
        fair_shares lp p.reserve_b p.lp_supply b (v.after.reserve_b) (v.after.lp_supply) second
            (v.joined.1) (v.joined.2),
      );
}

IsGiven-as :
    (y : Exchange) (p q : Pool) (given a b c d : ℕ)
    → p ≡ q
    → a ≡ c
    → b ≡ d
    → IsGiven y q a b given
    → IsGiven y p c d given
IsGiven-as y p q given a b c d same e f v = rw (same, sym e, sym f) v

-- A deposit of liquidity that succeeds adds the two amounts, in the order of the pool, to its reserves
-- and the tokens it gives to its supply; what a token stands for, in both tokens of the pool, is not less
-- afterwards for those who held liquidity, and the first liquidity gets at most the root of the product.
pub add_liquidity-IsGiven :
    (h : PoolHashes) (x y : Exchange) (token_a token_b provider amount_a amount_b given : ℕ)
    (p : Pool)
    → get_pool h x token_a token_b ≡ some p
    → add_liquidity h x token_a token_b provider amount_a amount_b ≡ success given y
    → IsGiven y p
        (if leb token_a token_b then amount_a else amount_b)
        (if leb token_a token_b then amount_b else amount_a)
        given
unfolding add_liquidity add_on
add_liquidity-IsGiven h x y token_a token_b provider amount_a amount_b given p f e =
    go (add_terms h x token_a token_b provider amount_a amount_b) refl e
  where
    go :
        (r : Result SwapError (Pool × ℕ × ℕ))
        → add_terms h x token_a token_b provider amount_a amount_b ≡ r
        → add_on x provider r ≡ success given y
        → IsGiven y p
            (if leb token_a token_b then amount_a else amount_b)
            (if leb token_a token_b then amount_b else amount_a)
            given
    go (err e) _ s = cc s
    go (ok (q, a, b)) t s =
        let (found, first, second) =
          add_terms-found h x token_a token_b provider amount_a amount_b q a b t in
        let same : p ≡ q = cc (sym f ∙ found) in
        IsGiven-as y p q given a b _ _ same first second
          (added-IsGiven y q a b given (add_paid-IsAdded x y q provider a b given _ s))
