-- ===== src/Defi/Swap/Kept.antt =====
-- ace-defi/src/swap.rs: what a swap keeps of a pool: its product, and its account above its reserves.
use ace_chain.Common.{
  ℕ, ◌+◌, ◌-◌, ◌*◌, ◌≤◌, ◌<◌, ◌≡◌, ◌≢◌, ap, sym, ◌∙◌, Bool, true, false, some, max, arith,
}
use ace_chain.Common.Assoc.{lookup, insert, lookup-insert}
use ace_chain.Common.Results.{ok}
use ace_chain.Vm.Token.{Tokens, done, balance_of, transfer_between_owners}
use ace_chain.Vm.Token.Supply.{transfer-moves}
use ace_chain.Defi.Swap.{
  Pool, PoolHashes, Exchange, success, get_pool, put_pool, in_is_a, reserve_in, reserve_out,
  amount_out, swap,
}
use ace_chain.Defi.Swap.Product.{amount_out-le, product_kept}
use ace_chain.Defi.Swap.Swapped.{IsTraded, swap-IsSwapped}

-- The reserves of a pool are in the account of the pool.
abbrev pub Funded : Tokens → Pool → Type 0
Funded t p =
    (p.reserve_a ≤ balance_of t p.token_a p.pool_id)
    × (p.reserve_b ≤ balance_of t p.token_b p.pool_id)

-- What the two payments do to the pool's account.
account_traded :
    (t mid u : Tokens) (token_in token_out sender id amount out : ℕ)
    → token_in ≢ token_out
    → sender ≢ id
    → transfer_between_owners t token_in sender id amount ≡ done mid
    → transfer_between_owners mid token_out id sender out ≡ done u
    → (balance_of u token_in id ≡ balance_of t token_in id + amount)
      × (balance_of u token_out id + out ≡ balance_of t token_out id)
account_traded t mid u token_in token_out sender id amount out d n first second =
    let back : id ≢ sender = λ e. n (sym e) in
    (
      ground (
        arith,
        d,
        n,
        transfer-moves t mid token_in sender id amount token_in id n first,
        transfer-moves mid u token_out id sender out token_in id back second,
      ),
      ground (
        arith,
        d,
        n,
        transfer-moves t mid token_in sender id amount token_out id n first,
        transfer-moves mid u token_out id sender out token_out id back second,
      ),
    )

-- A swap moves its two amounts between the sender and the pool's account, so that what is in the
-- account goes on covering the reserves.
swapped-Funded :
    (p q : Pool) (t mid u : Tokens) (a : Bool) (token_in token_out sender amount out : ℕ)
    → in_is_a p token_in token_out ≡ ok a
    → token_in ≢ token_out
    → sender ≢ p.pool_id
    → transfer_between_owners t token_in sender p.pool_id amount ≡ done mid
    → transfer_between_owners mid token_out p.pool_id sender out ≡ done u
    → IsTraded p q a amount out
    → Funded t p
    → Funded u q
swapped-Funded p q t mid u true token_in token_out sender amount out s d n first second v (fa, fb) =
    let into : token_in ≡ p.token_a = ground (arith, s) in
    let outof : token_out ≡ p.token_b = ground (arith, s) in
    let (more, less) =
      account_traded t mid u token_in token_out sender p.pool_id amount out d n first second in
    (
      grind (arith, more, into, v.joined, v.same_pool, fa),
      grind (arith, less, outof, v.left, v.same_pool, fb),
    )
swapped-Funded p q t mid u false token_in token_out sender amount out s d n first second v
      (fa, fb) =
    let into : token_in ≡ p.token_b = ground (arith, s) in
    let outof : token_out ≡ p.token_a = ground (arith, s) in
    let (more, less) =
      account_traded t mid u token_in token_out sender p.pool_id amount out d n first second in
    (
      grind (arith, less, outof, v.left, v.same_pool, fa),
      grind (arith, more, into, v.joined, v.same_pool, fb),
    )

Funded-same : (t : Tokens) (p q : Pool) → q ≡ p → Funded t p → Funded t q
Funded-same t p q e f = rw e f

some-injective : (p q : Pool) → some p ≡ some q → p ≡ q
some-injective p q e = cc e

traded_product :
    (p q : Pool) (a : Bool) (amount out : ℕ)
    → IsTraded p q a amount out
    → out ≡ amount_out (reserve_in p a) (reserve_out p a) amount
    → out < reserve_out p a
    → reserve_in p a * reserve_out p a ≤ reserve_in q a * reserve_out q a
traded_product p q a amount out v f l =
    let worth = amount_out-le (reserve_in p a) (reserve_out p a) amount in
    let kept =
      product_kept (reserve_in p a) (reserve_out p a) amount out (rw f worth) (omega (arith, l)) in
    let rest : reserve_out q a ≡ reserve_out p a - out = omega (arith, v.left) in
    rw (v.joined, rest) kept

-- What a swap keeps of a pool.
pub record IsKept (x y : Exchange) (min given : ℕ) (p : Pool) : Type 0 where
  pub after : Pool
  pub stored : lookup p.pool_id y.pools ≡ some after
  pub least : min ≤ given
  pub less : given < max p.reserve_a p.reserve_b
  pub product : p.reserve_a * p.reserve_b ≤ after.reserve_a * after.reserve_b
  pub funded : Funded y.tokens after

IsKept-same :
    (x y : Exchange) (min given : ℕ) (p q : Pool)
    → q ≡ p
    → IsKept x y min given q
    → IsKept x y min given p
IsKept-same x y min given p q e k = rw⁻¹ e k

either_product :
    (p q : Pool) (a : Bool)
    → reserve_in p a * reserve_out p a ≤ reserve_in q a * reserve_out q a
    → p.reserve_a * p.reserve_b ≤ q.reserve_a * q.reserve_b
either_product p q true k = k
either_product p q false k = omega (arith, k)

either_below :
    (p : Pool) (a : Bool) (out : ℕ) → out < reserve_out p a → out < max p.reserve_a p.reserve_b
either_below p true out l = omega (arith, l)
either_below p false out l = omega (arith, l)

traded_stored :
    (x y : Exchange) (p q : Pool)
    → q.pool_id ≡ p.pool_id
    → y ≡ put_pool x y.tokens q
    → lookup p.pool_id y.pools ≡ some q
traded_stored x y p q same e =
    let pools : y.pools ≡ insert q.pool_id q x.pools = ap (λ k. k.pools) e in
    ground (
      arith,
      same,
      pools,
      ap (λ k. lookup p.pool_id k) pools,
      lookup-insert q.pool_id p.pool_id q x.pools,
    )

-- For a sender other than the pool's own account: a swap that succeeds gives at least what was asked for
-- and less than a reserve of the pool, never lowers the product of the reserves, and leaves the pool with
-- reserves that its account still covers if it did before.
pub swap-IsKept :
    (h : PoolHashes) (x y : Exchange) (token_in token_out sender amount min given : ℕ) (p : Pool)
    → get_pool h x token_in token_out ≡ some p
    → sender ≢ p.pool_id
    → Funded x.tokens p
    → swap h x token_in token_out sender amount min ≡ success given y
    → IsKept x y min given p
swap-IsKept h x y token_in token_out sender amount min given p f n funded e =
    let s = swap-IsSwapped h x y token_in token_out sender amount min given e in
    let same : s.pool ≡ p = some-injective (s.pool) p (sym s.agreed.found ∙ f) in
    let less = s.agreed.less in
    IsKept-same x y min given p (s.pool) same (record {
      after = s.after;
      stored = traded_stored x y (s.pool) (s.after) (s.traded.same_pool.0) s.stored;
      least = s.agreed.least;
      less = either_below (s.pool) (s.a) given less;
      product =
          either_product (s.pool) (s.after) (s.a)
            (traded_product (s.pool) (s.after) (s.a) amount given s.traded s.agreed.formula less);
      funded =
          swapped-Funded (s.pool) (s.after) x.tokens (s.paid) y.tokens (s.a) token_in token_out
            sender amount given s.agreed.sides s.agreed.distinct
            (λ q. n (q ∙ ap (λ k. k.pool_id) same)) s.first s.second s.traded
            (Funded-same x.tokens p (s.pool) same funded);
    })
