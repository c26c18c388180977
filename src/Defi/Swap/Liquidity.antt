-- ===== src/Defi/Swap/Liquidity.antt =====
-- ace-defi/src/swap.rs: liquidity that is put into a pool and taken out of it.
use ace_chain.Common.{
  ℕ, ◌+◌, ◌*◌, ◌/◌, min, not, ◌||◌, ◌==◌, ltb, leb, if◌then◌else◌, u64_max, sub64,
}
use ace_chain.Common.Results.{Result, ok, err, ◌>>=◌, ◌>>◌, guard, ok_or}
use ace_chain.Vm.Token.{Tokens, balance_of, mint_to_owner}
use ace_chain.Defi.Ledger.{tokens_or}
use ace_chain.Defi.Swap.{
  Pool, PoolHashes, Exchange, Outcome, SwapError, success, failure, zero_amount, pool_not_found,
  amount_overflow, insufficient_balance, token_runtime, get_pool, put_pool, pay,
}
use ace_chain.Defi.Swap.Root.{isqrt}

abbrev pub fits_u64 : ℕ → Result SwapError ℕ
fits_u64 n = if ltb u64_max n then err amount_overflow else ok n

abbrev pub has_balance : Tokens → ℕ → ℕ → ℕ → Result SwapError (Unit {0})
has_balance t mint owner amount =
    guard (leb amount (balance_of t mint owner))
      (insufficient_balance (balance_of t mint owner) amount)

-- The tests before anything moves: the pool and the amounts in its order.
unfoldable pub add_terms :
    PoolHashes → Exchange → ℕ → ℕ → ℕ → ℕ → ℕ → Result SwapError (Pool × ℕ × ℕ)
add_terms h x token_a token_b provider amount_a amount_b =
    let amt_a = if leb token_a token_b then amount_a else amount_b in
    let amt_b = if leb token_a token_b then amount_b else amount_a in
    do
      guard (not (amount_a == 0 || amount_b == 0)) zero_amount
      pool ← ok_or (get_pool h x token_a token_b) pool_not_found
      has_balance x.tokens pool.token_a provider amt_a
      has_balance x.tokens pool.token_b provider amt_b
      ok (pool, amt_a, amt_b)

-- The liquidity tokens for two amounts.
unfoldable pub lp_amount : Pool → ℕ → ℕ → Result SwapError ℕ
unfolding isqrt
lp_amount p amt_a amt_b =
    let share = min (amt_a * p.lp_supply / p.reserve_a) (amt_b * p.lp_supply / p.reserve_b) in
    do
      shares ←
          if p.lp_supply == 0
          then ok (isqrt (amt_a * amt_b))
          else if p.reserve_a == 0 || p.reserve_b == 0
          then err zero_amount
          else ok share
      amount ← fits_u64 shares
      guard (not (amount == 0)) zero_amount
      ok amount

abbrev pub with_pool : Pool → ℕ → ℕ → ℕ → Pool
with_pool p a b supply = record p { reserve_a = a; reserve_b = b; lp_supply = supply }

-- The reserves after a deposit. A test that fails returns with what is already written.
unfoldable pub deposited : Exchange → Tokens → Pool → ℕ → ℕ → ℕ → Outcome ℕ
deposited x t p amt_a amt_b lp =
    if ltb u64_max (p.reserve_a + amt_a)
    then failure amount_overflow (put_pool x t p)
    else if ltb u64_max (p.reserve_b + amt_b)
    then failure amount_overflow
        (put_pool x t (with_pool p (p.reserve_a + amt_a) p.reserve_b p.lp_supply))
    else if ltb u64_max (p.lp_supply + lp)
    then failure amount_overflow
        (put_pool x t (with_pool p (p.reserve_a + amt_a) (p.reserve_b + amt_b) p.lp_supply))
    else success lp
        (put_pool x t (with_pool p (p.reserve_a + amt_a) (p.reserve_b + amt_b) (p.lp_supply + lp)))

-- A refusal to mint rolls the transfers back.
unfoldable pub add_minted : Exchange → Pool → ℕ → ℕ → ℕ → Result SwapError Tokens → Outcome ℕ
unfolding deposited
add_minted x p amt_a amt_b lp (ok t) = deposited x t p amt_a amt_b lp
add_minted x p amt_a amt_b lp (err e) = failure e x

-- Liquidity tokens that cannot be given leave the transfers as they are.
unfoldable pub add_shared : Exchange → Tokens → Pool → ℕ → ℕ → ℕ → Result SwapError ℕ → Outcome ℕ
unfolding add_minted mint_to_owner
add_shared x t p provider amt_a amt_b (ok lp) =
    add_minted x p amt_a amt_b lp
      (tokens_or token_runtime (mint_to_owner t p.lp_mint provider lp p.pool_id))
add_shared x t p provider amt_a amt_b (err e) = failure e (put_pool x t p)

unfoldable pub add_paid : Exchange → Pool → ℕ → ℕ → ℕ → Result SwapError Tokens → Outcome ℕ
unfolding add_shared lp_amount
add_paid x p provider amt_a amt_b (ok t) =
    add_shared x t p provider amt_a amt_b (lp_amount p amt_a amt_b)
add_paid x p provider amt_a amt_b (err e) = failure e x

unfoldable pub add_on : Exchange → ℕ → Result SwapError (Pool × ℕ × ℕ) → Outcome ℕ
unfolding add_paid pay
add_on x provider (ok (p, amt_a, amt_b)) = add_paid x p provider amt_a amt_b (
    pay x.tokens p.token_a provider p.pool_id amt_a >>= λ t.
    pay t p.token_b provider p.pool_id amt_b)
add_on x provider (err e) = failure e x

unfoldable pub add_liquidity : PoolHashes → Exchange → ℕ → ℕ → ℕ → ℕ → ℕ → Outcome ℕ
unfolding add_terms add_on
add_liquidity h x token_a token_b provider amount_a amount_b =
    add_on x provider (add_terms h x token_a token_b provider amount_a amount_b)

-- The shares of the reserves that liquidity tokens stand for.
unfoldable pub remove_terms : PoolHashes → Exchange → ℕ → ℕ → ℕ → Result SwapError (Pool × ℕ × ℕ)
remove_terms h x token_a token_b lp = do
  guard (not (lp == 0)) zero_amount
  pool ← ok_or (get_pool h x token_a token_b) pool_not_found
  guard (leb lp pool.lp_supply) (insufficient_balance pool.lp_supply lp)
  out_a ← fits_u64 (lp * pool.reserve_a / pool.lp_supply)
  out_b ← fits_u64 (lp * pool.reserve_b / pool.lp_supply)
  guard (not (out_a == 0 || out_b == 0)) zero_amount
  ok (pool, out_a, out_b)

unfoldable pub remove_paid : Exchange → Pool → ℕ → ℕ → ℕ → Result SwapError Tokens → Outcome (ℕ × ℕ)
remove_paid x p lp out_a out_b (ok t) =
    success (out_a, out_b)
      (put_pool x t
        (with_pool p (sub64 p.reserve_a out_a) (sub64 p.reserve_b out_b) (sub64 p.lp_supply lp)))
remove_paid x p lp out_a out_b (err e) = failure e x

unfoldable pub remove_on : Exchange → ℕ → ℕ → Result SwapError (Pool × ℕ × ℕ) → Outcome (ℕ × ℕ)
unfolding remove_paid pay
remove_on x provider lp (ok (p, out_a, out_b)) = remove_paid x p lp out_a out_b (
    pay x.tokens p.lp_mint provider p.pool_id lp >>= λ t.
    pay t p.token_a p.pool_id provider out_a >>= λ u. pay u p.token_b p.pool_id provider out_b)
remove_on x provider lp (err e) = failure e x

unfoldable pub remove_liquidity : PoolHashes → Exchange → ℕ → ℕ → ℕ → ℕ → Outcome (ℕ × ℕ)
unfolding remove_terms remove_on
remove_liquidity h x token_a token_b provider lp =
    remove_on x provider lp (remove_terms h x token_a token_b lp)
