-- ===== src/Defi/Swap/Swapped.antt =====
-- ace-defi/src/swap.rs: a swap that succeeds.
use ace_chain.Common.{ℕ, ◌+◌, ◌-◌, ◌≡◌, refl, ap, sym, ◌∙◌, Bool, true, false, arith}
use ace_chain.Common.Results.{Result, ok, err, ◌>>=◌, >>=-eq-ok}
use ace_chain.Vm.Token.{Tokens, done, transfer_between_owners}
use ace_chain.Defi.Ledger.{tokens_or-done}
use ace_chain.Defi.Swap.{
  Pool, PoolHashes, Exchange, SwapError, success, token_runtime, put_pool, reserve_in, reserve_out,
  swap_terms, pay, with_reserves, swapped, swap_paid, swap_on, swap,
}
use ace_chain.Defi.Swap.Terms.{IsAgreed, swap_terms-IsAgreed}

-- A pool after a swap: the input joins the one reserve and the output leaves the other.
pub record IsTraded (p q : Pool) (a : Bool) (amount out : ℕ) : Type 0 where
  pub joined : reserve_in q a ≡ reserve_in p a + amount
  pub left : reserve_out q a + out ≡ reserve_out p a
  pub same_pool :
      (q.pool_id ≡ p.pool_id)
      × (q.token_a ≡ p.token_a)
      × (q.token_b ≡ p.token_b)
      × (q.lp_supply ≡ p.lp_supply)

swapped-IsTraded :
    (x y : Exchange) (t : Tokens) (p : Pool) (a : Bool) (amount out given : ℕ)
    → swapped x t p a amount out ≡ success given y
    → (q : Pool) × IsTraded p q a amount out × (y ≡ put_pool x t q) × (given ≡ out)
unfolding swapped
swapped-IsTraded x y t p true amount out given e =
    let q = with_reserves p (p.reserve_a + amount) (p.reserve_b - out) in
    (
      q,
      record { joined = refl; left = ground (arith, e); same_pool = (refl, refl, refl, refl) },
      ground (arith, e),
      ground (arith, e),
    )
swapped-IsTraded x y t p false amount out given e =
    let q = with_reserves p (p.reserve_a - out) (p.reserve_b + amount) in
    (
      q,
      record { joined = refl; left = ground (arith, e); same_pool = (refl, refl, refl, refl) },
      ground (arith, e),
      ground (arith, e),
    )

-- What a swap that succeeds does: it agrees with its tests, pays the input into the pool's account and
-- the output out of it, and puts the pool with its new reserves.
pub record IsSwapped (h : PoolHashes) (x : Exchange)
    (token_in token_out sender amount min given : ℕ) (y : Exchange) : Type 0 where
  pub pool : Pool
  pub after : Pool
  pub a : Bool
  pub agreed : IsAgreed h x token_in token_out sender amount min pool a given
  pub traded : IsTraded pool after a amount given
  pub paid : Tokens
  pub first : transfer_between_owners x.tokens token_in sender pool.pool_id amount ≡ done paid
  pub second : transfer_between_owners paid token_out pool.pool_id sender given ≡ done y.tokens
  pub stored : y ≡ put_pool x y.tokens after

paid_in_full :
    (x : Exchange) (t : Tokens) (token_in token_out sender id amount out : ℕ)
    → (pay x.tokens token_in sender id amount >>= λ t. pay t token_out id sender out) ≡ ok t
    → (mid : Tokens) × (transfer_between_owners x.tokens token_in sender id amount ≡ done mid)
      × (transfer_between_owners mid token_out id sender out ≡ done t)
unfolding pay
paid_in_full x t token_in token_out sender id amount out e =
    let (mid, e1, e2) = >>=-eq-ok (pay x.tokens token_in sender id amount) _ e in
    (mid, tokens_or-done token_runtime _ mid e1, tokens_or-done token_runtime _ t e2)

swap_paid-IsSwapped :
    (h : PoolHashes) (x y : Exchange) (token_in token_out sender amount min given : ℕ) (p : Pool)
    (a : Bool) (out : ℕ)
    → IsAgreed h x token_in token_out sender amount min p a out
    → (r : Result SwapError Tokens)
    → (pay x.tokens token_in sender p.pool_id amount >>= λ t. pay t token_out p.pool_id sender out)
      ≡ r
    → swap_paid x p a amount out r ≡ success given y
    → IsSwapped h x token_in token_out sender amount min given y
unfolding swap_paid
swap_paid-IsSwapped h x y token_in token_out sender amount min given p a out v (err e) q s = cc s
swap_paid-IsSwapped h x y token_in token_out sender amount min given p a out v (ok t) q s =
    let (after, traded, stored, same) = swapped-IsTraded x y t p a amount out given s in
    let (mid, first, second) = paid_in_full x t token_in token_out sender p.pool_id amount out q in
    let tokens : t ≡ y.tokens = ap (λ k. k.tokens) (sym stored) in
    rw same (record {
      pool = p;
      after = after;
      a = a;
      agreed = v;
      traded = traded;
      paid = mid;
      first = first;
      second = rw⁻¹ tokens second;
      stored = stored ∙ ap (λ u. put_pool x u after) tokens;
    })

pub swap-IsSwapped :
    (h : PoolHashes) (x y : Exchange) (token_in token_out sender amount min given : ℕ)
    → swap h x token_in token_out sender amount min ≡ success given y
    → IsSwapped h x token_in token_out sender amount min given y
unfolding swap
swap-IsSwapped h x y token_in token_out sender amount min given e =
    go (swap_terms h x token_in token_out sender amount min) refl e
  where
    go :
        (r : Result SwapError (Pool × Bool × ℕ))
        → swap_terms h x token_in token_out sender amount min ≡ r
        → swap_on x token_in token_out sender amount r ≡ success given y
        → IsSwapped h x token_in token_out sender amount min given y
    go (err x) _ s = cc s
    go (ok (p, a, out)) q s =
        swap_paid-IsSwapped h x y token_in token_out sender amount min given p a out
          (swap_terms-IsAgreed h x token_in token_out sender amount min p a out q) _ refl s
