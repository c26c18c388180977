-- ===== src/Defi/Swap/Tests.antt =====
-- ace-defi/src/swap.rs: runs of a pool of two tokens.
use ace_chain.Common.{◌≡◌, refl, [], ◌∷◌, if◌then◌else◌, leb, arith}
use ace_chain.Common.Assoc.{lookup, insert}
use ace_chain.Vm.Token.{balance_of, set_balance}
use ace_chain.Defi.Swap.{
  Pool, PoolHashes, Exchange, Outcome, success, failure, zero_amount, swap, amount_out,
}
use ace_chain.Defi.Swap.Root.{isqrt, IsRoot, isqrt-IsRoot}
use ace_chain.Defi.Swap.Liquidity.{add_liquidity, remove_liquidity}
use ace_chain.Defi.Swap.Kept.{IsKept, swap-IsKept}
use ace_chain.Defi.Swap.Fairness.{IsRemoved, remove_liquidity-IsRemoved}
use ace_chain.Defi.Swap.Adding.{IsGiven, add_liquidity-IsGiven}

abbrev pool_hashes : PoolHashes
pool_hashes = record { pair_id = λ a b. 40; lp_mint_id = λ id. 41 }

abbrev pool : Pool
pool = record {
  pool_id = 40;
  token_a = 1;
  token_b = 2;
  reserve_a = 1000;
  reserve_b = 4000;
  lp_mint = 41;
  lp_supply = 2000;
}

-- Account 7 has tokens of both kinds and the liquidity of the pool.
abbrev exchange : Exchange
exchange = record {
  tokens = record {
    mints = (1, (3000, 6)) ∷ (2, (9000, 6)) ∷ (41, (2000, 9)) ∷ [];
    authorities = (41, 40) ∷ [];
    balances =
        (1, (40, 1000) ∷ (7, 2000) ∷ [])
        ∷ (2, (40, 4000) ∷ (7, 5000) ∷ [])
        ∷ (41, (7, 2000) ∷ [])
        ∷ [];
    allowances = λ m o s. 0;
  };
  pools = (40, pool) ∷ [];
}

abbrev left_by : {A : Type 0} → Outcome A → Exchange
left_by (success _ y) = y
left_by (failure _ y) = y

abbrev swapped_state : Exchange
swapped_state = left_by (swap pool_hashes exchange 1 2 7 100 300)

swap-IsKept_example : IsKept exchange swapped_state 300 362 pool
unfolding swap lookup insert set_balance
swap-IsKept_example =
    swap-IsKept pool_hashes exchange swapped_state 1 2 7 100 300 362 pool refl (omega arith)
      (omega arith, omega arith) refl

abbrev removed_state : Exchange
removed_state = left_by (remove_liquidity pool_hashes exchange 2 1 7 3)

remove_liquidity-IsRemoved_example : IsRemoved exchange removed_state pool 3 1 6
unfolding remove_liquidity lookup insert set_balance
remove_liquidity-IsRemoved_example =
    remove_liquidity-IsRemoved pool_hashes exchange removed_state 2 1 7 3 1 6 pool refl
      (omega arith, omega arith, omega arith) refl

abbrev added_state : Exchange
added_state = left_by (add_liquidity pool_hashes exchange 2 1 7 50 20)

add_liquidity-IsGiven_example :
    IsGiven added_state pool (if leb 2 1 then 50 else 20) (if leb 2 1 then 20 else 50) 25
unfolding add_liquidity lookup insert set_balance
add_liquidity-IsGiven_example =
    add_liquidity-IsGiven pool_hashes exchange added_state 2 1 7 50 20 25 pool refl refl

isqrt-IsRoot_example : IsRoot 4000000000000000001 (isqrt 4000000000000000001)
isqrt-IsRoot_example = isqrt-IsRoot 4000000000000000001

isqrt_large : isqrt 4000000000000000001 ≡ 2000000000
unfolding isqrt
isqrt_large = refl

-- Amounts too small for a share are refused, and stay in the pool's account outside its reserves.
abbrev dust_state : Exchange
dust_state = left_by (add_liquidity pool_hashes exchange 1 2 7 100 1)

dust_stays :
    (add_liquidity pool_hashes exchange 1 2 7 100 1 ≡ failure zero_amount dust_state)
    × (balance_of dust_state.tokens 1 7 ≡ 1900)
    × (lookup 40 dust_state.pools ≡ lookup 40 exchange.pools)
unfolding add_liquidity lookup insert set_balance
dust_stays = (refl, refl, refl)

-- A product above 2 ^ 128 wraps, and the output falls.
amount_out_wraps :
    amount_out 9000000000000000000 9000000000000000000 9000000000000000000 ≡ 6124689241505823
unfolding amount_out
amount_out_wraps = refl
