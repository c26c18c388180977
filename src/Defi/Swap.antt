-- ===== src/Defi/Swap.antt =====
-- ace-defi/src/swap.rs: pools of two tokens that keep the product of their reserves. A call leaves a state
-- also where it fails: it undoes the ledger's changes only where the code rolls them back. The hashes that
-- name a pool and its liquidity token are parameters; the pool's account has no state of its own here.
pub mod Root
pub mod Liquidity
pub mod Shares
pub mod Fairness
pub mod Adding
mod Tests
pub mod Terms
pub mod Swapped
pub mod Kept
pub mod Product
use ace_chain.Common.{
  ℕ, ◌+◌, ◌-◌, ◌*◌, ◌/◌, ◌%◌, min, Bool, true, false, not, ◌&&◌, ◌||◌, Option, none, some, ◌==◌,
  ltb, leb, if◌then◌else◌, u64_max, u64_mod, u128_mod, sub64,
}
use ace_chain.Common.Assoc.{Map, lookup, insert}
use ace_chain.Common.Results.{Result, ok, err, ◌>>=◌, ◌>>◌, guard, ok_or, checked_add}
use ace_chain.Vm.Token.{Tokens, balance_of, create_mint, mint_to_owner, transfer_between_owners}
use ace_chain.Defi.Ledger.{tokens_or}

pub data SwapError : Type 0 where
  zero_amount identical_tokens pool_not_found insufficient_liquidity amount_overflow : SwapError
  pool_already_exists : ℕ → SwapError
  insufficient_balance slippage_exceeded : ℕ → ℕ → SwapError
  token_runtime : SwapError

pub record Pool : Type 0 where
  pub pool_id : ℕ
  pub token_a : ℕ
  pub token_b : ℕ
  pub reserve_a : ℕ
  pub reserve_b : ℕ
  pub lp_mint : ℕ
  pub lp_supply : ℕ

pub record PoolHashes : Type 0 where
  pub pair_id : ℕ → ℕ → ℕ
  pub lp_mint_id : ℕ → ℕ

-- The ledger and the pools of the engine.
pub record Exchange : Type 0 where
  pub tokens : Tokens
  pub pools : Map Pool

pub data Outcome (A : Type 0) : Type 0 where
  success : A → Exchange → Outcome A
  failure : SwapError → Exchange → Outcome A

abbrev pub fee_numerator : ℕ
fee_numerator = 3

abbrev pub fee_denominator : ℕ
fee_denominator = 1000

-- The pair is hashed in order.
abbrev pub pool_id : PoolHashes → ℕ → ℕ → ℕ
pool_id h a b = if leb a b then h.pair_id a b else h.pair_id b a

abbrev pub get_pool : PoolHashes → Exchange → ℕ → ℕ → Option Pool
get_pool h x a b = lookup (pool_id h a b) x.pools

abbrev pub put_pool : Exchange → Tokens → Pool → Exchange
put_pool x t p = record { tokens = t; pools = insert p.pool_id p x.pools }

abbrev new_pool : ℕ → ℕ → ℕ → ℕ → Pool
new_pool id a b lp = record {
  pool_id = id;
  token_a = a;
  token_b = b;
  reserve_a = 0;
  reserve_b = 0;
  lp_mint = lp;
  lp_supply = 0;
}

abbrev is_missing : Option Pool → Bool
is_missing none = true
is_missing (some _) = false

unfoldable pub created : Exchange → Pool → Result SwapError Tokens → Outcome ℕ
created x p (ok t) = success p.pool_id (put_pool x t p)
created x p (err e) = failure e x

unfoldable pub create_pool : PoolHashes → Exchange → ℕ → ℕ → Outcome ℕ
unfolding create_mint created
create_pool h x a b =
    let lo = if leb a b then a else b in
    let hi = if leb a b then b else a in
    let id = pool_id h lo hi in
    let lp = h.lp_mint_id id in
    if a == b
    then failure identical_tokens x
    else if not (is_missing (lookup id x.pools))
    then failure (pool_already_exists id) x
    else created x (new_pool id lo hi lp) (tokens_or token_runtime (create_mint x.tokens lp 9 id))

-- The direction of a swap, where the tokens are those of the pool.
abbrev pub in_is_a : Pool → ℕ → ℕ → Result SwapError Bool
in_is_a p token_in token_out =
    if token_in == p.token_a && token_out == p.token_b
    then ok true
    else if token_in == p.token_b && token_out == p.token_a
    then ok false
    else err pool_not_found

abbrev pub reserve_in : Pool → Bool → ℕ
reserve_in p a = if a then p.reserve_a else p.reserve_b

abbrev pub reserve_out : Pool → Bool → ℕ
reserve_out p a = if a then p.reserve_b else p.reserve_a

-- The output of the formula; a product of `u128` numbers wraps, as in a release build.
unfoldable pub amount_out : ℕ → ℕ → ℕ → ℕ
amount_out reserve_in reserve_out amount_in =
    let with_fee = amount_in * (fee_denominator - fee_numerator) in
    with_fee * reserve_out % u128_mod / (reserve_in * fee_denominator + with_fee) % u64_mod

unfoldable pub quote : PoolHashes → Exchange → ℕ → ℕ → ℕ → Result SwapError ℕ
unfolding amount_out
quote h x token_in token_out amount_in = do
  pool ← ok_or (get_pool h x token_in token_out) pool_not_found
  a ← in_is_a pool token_in token_out
  guard (not (reserve_in pool a == 0 || reserve_out pool a == 0)) insufficient_liquidity
  ok (amount_out (reserve_in pool a) (reserve_out pool a) amount_in)

-- The tests of a swap: the pool, the direction and the output.
unfoldable pub swap_terms :
    PoolHashes → Exchange → ℕ → ℕ → ℕ → ℕ → ℕ → Result SwapError (Pool × Bool × ℕ)
unfolding amount_out
swap_terms h x token_in token_out sender amount_in min_amount_out =
    let balance = balance_of x.tokens token_in sender in
    do
      guard (not (amount_in == 0)) zero_amount
      guard (not (token_in == token_out)) identical_tokens
      pool ← ok_or (get_pool h x token_in token_out) pool_not_found
      guard (not (pool.reserve_a == 0 || pool.reserve_b == 0)) insufficient_liquidity
      a ← in_is_a pool token_in token_out
      let out = amount_out (reserve_in pool a) (reserve_out pool a) amount_in in
          do
            guard (not (out == 0)) insufficient_liquidity
            guard (leb min_amount_out out) (slippage_exceeded min_amount_out out)
            guard (leb amount_in balance) (insufficient_balance balance amount_in)
            ok (pool, a, out)

-- A transfer, whose refusal rolls the call back.
unfoldable pub pay : Tokens → ℕ → ℕ → ℕ → ℕ → Result SwapError Tokens
unfolding transfer_between_owners
pay t mint from to amount = tokens_or token_runtime (transfer_between_owners t mint from to amount)

abbrev pub with_reserves : Pool → ℕ → ℕ → Pool
with_reserves p a b = record p { reserve_a = a; reserve_b = b }

-- The reserves after a swap. A test that fails returns with what is already written.
unfoldable pub swapped : Exchange → Tokens → Pool → Bool → ℕ → ℕ → Outcome ℕ
swapped x t p true amount out =
    if ltb u64_max (p.reserve_a + amount)
    then failure amount_overflow (put_pool x t p)
    else if ltb p.reserve_b out
    then failure insufficient_liquidity
        (put_pool x t (with_reserves p (p.reserve_a + amount) p.reserve_b))
    else success out (put_pool x t (with_reserves p (p.reserve_a + amount) (p.reserve_b - out)))
swapped x t p false amount out =
    if ltb u64_max (p.reserve_b + amount)
    then failure amount_overflow (put_pool x t p)
    else if ltb p.reserve_a out
    then failure insufficient_liquidity
        (put_pool x t (with_reserves p p.reserve_a (p.reserve_b + amount)))
    else success out (put_pool x t (with_reserves p (p.reserve_a - out) (p.reserve_b + amount)))

unfoldable pub swap_paid : Exchange → Pool → Bool → ℕ → ℕ → Result SwapError Tokens → Outcome ℕ
unfolding swapped
swap_paid x p a amount out (ok t) = swapped x t p a amount out
swap_paid x p a amount out (err e) = failure e x

unfoldable pub swap_on : Exchange → ℕ → ℕ → ℕ → ℕ → Result SwapError (Pool × Bool × ℕ) → Outcome ℕ
unfolding swap_paid pay
swap_on x token_in token_out sender amount (ok (p, a, out)) =
    swap_paid x p a amount out
      (pay x.tokens token_in sender p.pool_id amount >>= λ t. pay t token_out p.pool_id sender out)
swap_on x token_in token_out sender amount (err e) = failure e x

unfoldable pub swap : PoolHashes → Exchange → ℕ → ℕ → ℕ → ℕ → ℕ → Outcome ℕ
unfolding swap_terms swap_on
swap h x token_in token_out sender amount_in min_amount_out =
    swap_on x token_in token_out sender amount_in
      (swap_terms h x token_in token_out sender amount_in min_amount_out)
