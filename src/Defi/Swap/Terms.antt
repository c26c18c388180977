-- ===== src/Defi/Swap/Terms.antt =====
-- ace-defi/src/swap.rs: what a swap that succeeds has tested, and what it leaves.
use ace_chain.Common.{
  ℕ, ◌≤◌, ◌<◌, ◌≡◌, ◌≢◌, refl, Bool, true, false, not, ◌||◌, some, ◌==◌, leb, arith,
}
use ace_chain.Common.Results.{Result, ok, guard, ok_or, >>=-eq-ok, guard-eq-ok, ok_or-eq-ok}
use ace_chain.Vm.Token.{balance_of}
use ace_chain.Defi.Swap.{
  Pool, PoolHashes, Exchange, SwapError, zero_amount, identical_tokens, pool_not_found,
  insufficient_liquidity, slippage_exceeded, insufficient_balance, get_pool, in_is_a, reserve_in,
  reserve_out, amount_out, swap_terms,
}
use ace_chain.Defi.Swap.Product.{amount_out-le, out_below}

-- The tests of a swap that passes them.
pub record IsAgreed (h : PoolHashes) (x : Exchange) (token_in token_out sender amount min : ℕ)
    (pool : Pool) (a : Bool) (out : ℕ) : Type 0 where
  pub found : get_pool h x token_in token_out ≡ some pool
  pub sides : in_is_a pool token_in token_out ≡ ok a
  pub distinct : token_in ≢ token_out
  pub formula : out ≡ amount_out (reserve_in pool a) (reserve_out pool a) amount
  pub least : min ≤ out
  pub less : out < reserve_out pool a
  pub owned : amount ≤ balance_of x.tokens token_in sender

sold_below :
    (p : Pool) (a : Bool) (amount : ℕ)
    → not (p.reserve_a == 0 || p.reserve_b == 0) ≡ true
    → amount_out (reserve_in p a) (reserve_out p a) amount < reserve_out p a
sold_below p true amount n =
    out_below p.reserve_a p.reserve_b amount (amount_out p.reserve_a p.reserve_b amount)
      (amount_out-le p.reserve_a p.reserve_b amount) (ground (arith, n)) (ground (arith, n))
sold_below p false amount n =
    out_below p.reserve_b p.reserve_a amount (amount_out p.reserve_b p.reserve_a amount)
      (amount_out-le p.reserve_b p.reserve_a amount) (ground (arith, n)) (ground (arith, n))

same_terms :
    (h : PoolHashes) (x : Exchange) (token_in token_out sender amount min : ℕ) (p q : Pool)
    (a b : Bool) (m n : ℕ)
    → ◌≡◌ {A = Result SwapError (Pool × Bool × ℕ)} (ok (p, a, m)) (ok (q, b, n))
    → IsAgreed h x token_in token_out sender amount min p a m
    → IsAgreed h x token_in token_out sender amount min q b n
same_terms h x token_in token_out sender amount min p q a b m n e v =
    let pools : p ≡ q = cc e in
    let sides : a ≡ b = cc e in let amounts : m ≡ n = cc e in rw⁻¹ (pools, sides, amounts) v

pub swap_terms-IsAgreed :
    (h : PoolHashes) (x : Exchange) (token_in token_out sender amount min : ℕ) (pool : Pool)
    (a : Bool) (out : ℕ)
    → swap_terms h x token_in token_out sender amount min ≡ ok (pool, a, out)
    → IsAgreed h x token_in token_out sender amount min pool a out
unfolding swap_terms
swap_terms-IsAgreed h x token_in token_out sender amount min pool a out e =
    let balance = balance_of x.tokens token_in sender in
    let (_, _, e1) = >>=-eq-ok (guard (not (amount == 0)) zero_amount) _ e in
    let (_, g2, e2) = >>=-eq-ok (guard (not (token_in == token_out)) identical_tokens) _ e1 in
    let (p, q, e3) = >>=-eq-ok (ok_or (get_pool h x token_in token_out) pool_not_found) _ e2 in
    let (_, g4, e4) =
      >>=-eq-ok (guard (not (p.reserve_a == 0 || p.reserve_b == 0)) insufficient_liquidity) _ e3 in
    let (b, s, e5) = >>=-eq-ok (in_is_a p token_in token_out) _ e4 in
    let amount_of = amount_out (reserve_in p b) (reserve_out p b) amount in
    let (_, g6, e6) = >>=-eq-ok (guard (not (amount_of == 0)) insufficient_liquidity) _ e5 in
    let (_, g7, e7) =
      >>=-eq-ok (guard (leb min amount_of) (slippage_exceeded min amount_of)) _ e6 in
    let (_, g8, e8) =
      >>=-eq-ok (guard (leb amount balance) (insufficient_balance balance amount)) _ e7 in
    let agreed : IsAgreed h x token_in token_out sender amount min p b amount_of = record {
      found = ok_or-eq-ok (get_pool h x token_in token_out) pool_not_found p q;
      sides = s;
      distinct = ground (arith, guard-eq-ok (not (token_in == token_out)) identical_tokens g2);
      formula = refl;
      least = ground (arith, guard-eq-ok (leb min amount_of) (slippage_exceeded min amount_of) g7);
      less =
          sold_below p b amount
            (guard-eq-ok (not (p.reserve_a == 0 || p.reserve_b == 0)) insufficient_liquidity g4);
      owned =
          ground (arith, guard-eq-ok (leb amount balance) (insufficient_balance balance amount) g8);
    } in
    same_terms h x token_in token_out sender amount min p pool b a amount_of out e8 agreed
