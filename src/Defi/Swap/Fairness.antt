-- ===== src/Defi/Swap/Fairness.antt =====
-- ace-defi/src/swap.rs: liquidity that comes and goes is fair to the liquidity that stays.
use ace_chain.Common.{
  ℕ, ◌*◌, ◌/◌, ◌≤◌, ◌≡◌, ◌≢◌, refl, sym, ◌∙◌, not, ◌||◌, some, ◌==◌, leb, sub64, arith,
}
use ace_chain.Common.Assoc.{lookup, lookup-insert}
use ace_chain.Common.Results.{Result, ok, err, guard, ok_or, >>=-eq-ok, guard-eq-ok, ok_or-eq-ok}
use ace_chain.Vm.Token.{Tokens}
use ace_chain.Defi.Swap.{
  Pool, PoolHashes, Exchange, SwapError, success, zero_amount, pool_not_found, insufficient_balance,
  get_pool,
}
use ace_chain.Defi.Swap.Liquidity.{
  with_pool, fits_u64, remove_terms, remove_paid, remove_on, remove_liquidity,
}
use ace_chain.Defi.Swap.Shares.{Fits, IsTaken, with_pool-IsTaken}

same_shares :
    (h : PoolHashes) (x : Exchange) (token_a token_b lp : ℕ) (p q : Pool) (a c b d : ℕ)
    → ◌≡◌ {A = Result SwapError (Pool × ℕ × ℕ)} (ok (p, a, b)) (ok (q, c, d))
    → (get_pool h x token_a token_b ≡ some p)
      × (lp ≢ 0)
      × (lp ≤ p.lp_supply)
      × (a ≡ lp * p.reserve_a / p.lp_supply)
      × (b ≡ lp * p.reserve_b / p.lp_supply)
    → (get_pool h x token_a token_b ≡ some q)
      × (lp ≢ 0)
      × (lp ≤ q.lp_supply)
      × (c ≡ lp * q.reserve_a / q.lp_supply)
      × (d ≡ lp * q.reserve_b / q.lp_supply)
same_shares h x token_a token_b lp p q a c b d e v =
    let pools : p ≡ q = cc e in
    let firsts : a ≡ c = cc e in let seconds : b ≡ d = cc e in rw⁻¹ (pools, firsts, seconds) v

-- The tests of a removal.
remove_terms-shares :
    (h : PoolHashes) (x : Exchange) (token_a token_b lp : ℕ) (p : Pool) (out_a out_b : ℕ)
    → remove_terms h x token_a token_b lp ≡ ok (p, out_a, out_b)
    → (get_pool h x token_a token_b ≡ some p)
      × (lp ≢ 0)
      × (lp ≤ p.lp_supply)
      × (out_a ≡ lp * p.reserve_a / p.lp_supply)
      × (out_b ≡ lp * p.reserve_b / p.lp_supply)
unfolding remove_terms
remove_terms-shares h x token_a token_b lp p out_a out_b e =
    let (_, g1, e1) = >>=-eq-ok (guard (not (lp == 0)) zero_amount) _ e in
    let (q, f, e2) = >>=-eq-ok (ok_or (get_pool h x token_a token_b) pool_not_found) _ e1 in
    let (_, g3, e3) =
      >>=-eq-ok (guard (leb lp q.lp_supply) (insufficient_balance q.lp_supply lp)) _ e2 in
    let (a, g4, e4) = >>=-eq-ok (fits_u64 (lp * q.reserve_a / q.lp_supply)) _ e3 in
    let (b, g5, e5) = >>=-eq-ok (fits_u64 (lp * q.reserve_b / q.lp_supply)) _ e4 in
    let (_, _, e6) = >>=-eq-ok (guard (not (a == 0 || b == 0)) zero_amount) _ e5 in
    let found = ok_or-eq-ok (get_pool h x token_a token_b) pool_not_found q f in
    let n = guard-eq-ok (not (lp == 0)) zero_amount g1 in
    let l = guard-eq-ok (leb lp q.lp_supply) (insufficient_balance q.lp_supply lp) g3 in
    let part_a : a ≡ lp * q.reserve_a / q.lp_supply = ground (arith, g4) in
    let part_b : b ≡ lp * q.reserve_b / q.lp_supply = ground (arith, g5) in
    same_shares h x token_a token_b lp q p a out_a b out_b e6
      (found, ground (arith, n), ground (arith, l), part_a, part_b)

-- What a removal does to the pool.
pub record IsRemoved (x : Exchange) (y : Exchange) (p : Pool) (lp out_a out_b : ℕ) : Type 0 where
  pub after : Pool
  pub stored : lookup p.pool_id y.pools ≡ some after
  pub taken : IsTaken p after lp out_a out_b

remove_paid-stores :
    (x y : Exchange) (p : Pool) (lp out_a out_b given_a given_b : ℕ) (r : Result SwapError Tokens)
    → remove_paid x p lp out_a out_b r ≡ success (given_a, given_b) y
    → (lookup p.pool_id y.pools
        ≡ some (
            with_pool p (sub64 p.reserve_a out_a) (sub64 p.reserve_b out_b) (sub64 p.lp_supply lp)))
      × (given_a ≡ out_a)
      × (given_b ≡ out_b)
unfolding remove_paid
remove_paid-stores x y p lp out_a out_b given_a given_b (err e) s = cc s
remove_paid-stores x y p lp out_a out_b given_a given_b (ok t) s =
    let q =
      with_pool p (sub64 p.reserve_a out_a) (sub64 p.reserve_b out_b) (sub64 p.lp_supply lp) in
    ground (arith, s, lookup-insert p.pool_id p.pool_id q x.pools)

IsTaken-as : (p q : Pool) (lp a b c d : ℕ) → c ≡ a → d ≡ b → IsTaken p q lp a b → IsTaken p q lp c d
IsTaken-as p q lp a b c d e f v = rw (e, f) v

Fits-as : (p q : Pool) → p ≡ q → Fits p → Fits q
Fits-as p q e v = rw⁻¹ e v

IsRemoved-as :
    (x y : Exchange) (p q : Pool) (lp a b : ℕ)
    → p ≡ q
    → IsRemoved x y q lp a b
    → IsRemoved x y p lp a b
IsRemoved-as x y p q lp a b e v = rw e v

IsRemoved-at :
    (x y : Exchange) (p q : Pool) (lp out_a out_b given_a given_b : ℕ) (r : Result SwapError Tokens)
    → p ≡ q
    → Fits p
    → lp ≢ 0
    → lp ≤ q.lp_supply
    → out_a ≡ lp * q.reserve_a / q.lp_supply
    → out_b ≡ lp * q.reserve_b / q.lp_supply
    → remove_paid x q lp out_a out_b r ≡ success (given_a, given_b) y
    → IsRemoved x y p lp given_a given_b
IsRemoved-at x y p q lp out_a out_b given_a given_b r same fits n l part_a part_b s =
    let whole : IsRemoved x y q lp given_a given_b =
      let (stored, a, b) = remove_paid-stores x y q lp out_a out_b given_a given_b r s in
      record {
        after =
            with_pool q (sub64 q.reserve_a out_a) (sub64 q.reserve_b out_b) (sub64 q.lp_supply lp);
        stored = stored;
        taken =
            IsTaken-as q _ lp out_a out_b given_a given_b a b
              (rw (part_a, part_b) (with_pool-IsTaken q lp (Fits-as p q same fits) n l));
      } in
    IsRemoved-as x y p q lp given_a given_b same whole

-- For a pool of words: a removal that succeeds pays out of the reserves what it gives, takes the shares
-- off the supply, and leaves what each other share stands for, in both tokens, no less.
pub remove_liquidity-IsRemoved :
    (h : PoolHashes) (x y : Exchange) (token_a token_b provider lp given_a given_b : ℕ) (p : Pool)
    → get_pool h x token_a token_b ≡ some p
    → Fits p
    → remove_liquidity h x token_a token_b provider lp ≡ success (given_a, given_b) y
    → IsRemoved x y p lp given_a given_b
unfolding remove_liquidity remove_on
remove_liquidity-IsRemoved h x y token_a token_b provider lp given_a given_b p f fits e =
    go (remove_terms h x token_a token_b lp) refl e
  where
    go :
        (r : Result SwapError (Pool × ℕ × ℕ))
        → remove_terms h x token_a token_b lp ≡ r
        → remove_on x provider lp r ≡ success (given_a, given_b) y
        → IsRemoved x y p lp given_a given_b
    go (err e) _ s = cc s
    go (ok (q, out_a, out_b)) t s =
        let (found, n, l, part_a, part_b) =
          remove_terms-shares h x token_a token_b lp q out_a out_b t in
        let same : p ≡ q = cc (sym f ∙ found) in
        IsRemoved-at x y p q lp out_a out_b given_a given_b _ same fits n l part_a part_b s
