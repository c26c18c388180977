-- ===== src/Defi/Swap/Shares.antt =====
-- ace-defi/src/swap.rs: what a liquidity token stands for.
use ace_chain.Common.{ℕ, ◌+◌, ◌-◌, ◌*◌, ◌/◌, ◌≤◌, ◌<◌, ◌≡◌, ◌≢◌, u64_max, sub64, arith}
use native.Mathlib.Nat.{div-mul-le_self, mul-le-mul_right, le_of_mul-le-mul_right}
use ace_chain.Defi.Swap.{Pool}
use ace_chain.Defi.Swap.Liquidity.{with_pool}

-- A pool of words.
abbrev pub Fits : Pool → Type 0
Fits p = (p.reserve_a ≤ u64_max) × (p.reserve_b ≤ u64_max) × (p.lp_supply ≤ u64_max)

-- What a share of the pool stands for, in both tokens, is not less afterwards.
abbrev pub Fair : Pool → Pool → Type 0
Fair p q =
    (p.reserve_a * q.lp_supply ≤ q.reserve_a * p.lp_supply)
    × (p.reserve_b * q.lp_supply ≤ q.reserve_b * p.lp_supply)

sub64-eq : (a b : ℕ) → b ≤ a → a ≤ u64_max → sub64 a b ≡ a - b
sub64-eq a b h f = omega (arith, h, f)

-- A share of a reserve, rounded down.
pub share_floor : (lp reserve supply : ℕ) → lp * reserve / supply * supply ≤ lp * reserve
share_floor lp reserve supply = div-mul-le_self (lp * reserve) supply

share-le :
    (lp reserve supply out : ℕ)
    → lp ≤ supply
    → 0 < supply
    → out * supply ≤ lp * reserve
    → out ≤ reserve
share-le lp reserve supply out h p f =
    let scaled = mul-le-mul_right reserve h in
    let both : out * supply ≤ reserve * supply = omega (arith, f, scaled) in
    le_of_mul-le-mul_right both p

-- The rest of a reserve over the rest of the supply.
fair_rest :
    (lp reserve supply out rest left : ℕ)
    → reserve ≡ out + rest
    → supply ≡ lp + left
    → out * supply ≤ lp * reserve
    → reserve * left ≤ rest * supply
fair_rest lp reserve supply out rest left e f h =
    let named : out * (lp + left) ≤ lp * (out + rest) = rw⁻¹ (e, f) h in
    let result : (out + rest) * left ≤ rest * (lp + left) = omega (arith, named) in rw (e, f) result

-- A pool after shares of it are taken out.
pub record IsTaken (p q : Pool) (lp out_a out_b : ℕ) : Type 0 where
  pub fair : Fair p q
  pub left_a : q.reserve_a + out_a ≡ p.reserve_a
  pub left_b : q.reserve_b + out_b ≡ p.reserve_b
  pub burned : q.lp_supply + lp ≡ p.lp_supply

pub with_pool-IsTaken :
    (p : Pool) (lp : ℕ)
    → Fits p
    → lp ≢ 0
    → lp ≤ p.lp_supply
    → (let out_a = lp * p.reserve_a / p.lp_supply in
        let out_b = lp * p.reserve_b / p.lp_supply in
        IsTaken p
          (with_pool p (sub64 p.reserve_a out_a) (sub64 p.reserve_b out_b) (sub64 p.lp_supply lp))
          lp
          out_a
          out_b)
with_pool-IsTaken p lp (fa, fb, fs) n l =
    let out_a = lp * p.reserve_a / p.lp_supply in
    let out_b = lp * p.reserve_b / p.lp_supply in
    let positive : 0 < p.lp_supply = omega (arith, n, l) in
    let floor_a = share_floor lp p.reserve_a p.lp_supply in
    let floor_b = share_floor lp p.reserve_b p.lp_supply in
    let le_a = share-le lp p.reserve_a p.lp_supply out_a l positive floor_a in
    let le_b = share-le lp p.reserve_b p.lp_supply out_b l positive floor_b in
    let a = sub64-eq p.reserve_a out_a le_a fa in
    let b = sub64-eq p.reserve_b out_b le_b fb in
    let s = sub64-eq p.lp_supply lp l fs in
    let rest_a =
      fair_rest lp p.reserve_a p.lp_supply out_a (p.reserve_a - out_a) (p.lp_supply - lp)
        (omega (arith, le_a)) (omega (arith, l)) floor_a in
    let rest_b =
      fair_rest lp p.reserve_b p.lp_supply out_b (p.reserve_b - out_b) (p.lp_supply - lp)
        (omega (arith, le_b)) (omega (arith, l)) floor_b in
    record {
      fair = (rw (a, s) rest_a, rw (b, s) rest_b);
      left_a = omega (arith, a, le_a);
      left_b = omega (arith, b, le_b);
      burned = omega (arith, s, l);
    }
