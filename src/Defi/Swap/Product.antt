-- ===== src/Defi/Swap/Product.antt =====
-- ace-defi/src/swap.rs: what the formula of a swap does to the product of the reserves.
use ace_chain.Common.{
  ℕ, ◌+◌, ◌-◌, ◌*◌, ◌/◌, ◌%◌, ◌≤◌, ◌<◌, ◌≡◌, ◌⊎◌, inl, inr, ap, sym, arith, u64_mod, u128_mod,
}
use native.Mathlib.Nat.{div-mul-le_self, mul-le-mul_right, mod-le, mul-pos}
use ace_chain.Defi.Swap.{amount_out}

-- The output is worth at most the input: also where the product wraps, since it then only falls.
pub amount_out-le :
    (into outof amount : ℕ)
    → amount_out into outof amount * (into * 1000 + amount * 997) ≤ amount * 997 * outof
unfolding amount_out
amount_out-le into outof amount =
    let whole = amount * 997 * outof in
    let below = into * 1000 + amount * 997 in
    let wrapped : whole % u128_mod ≤ whole = mod-le whole u128_mod in
    let floor = div-mul-le_self (whole % u128_mod) below in
    let cast : amount_out into outof amount ≤ whole % u128_mod / below =
      mod-le (whole % u128_mod / below) u64_mod in
    let scaled = mul-le-mul_right below cast in omega (arith, scaled, floor, wrapped)

-- With the rest of the reserve named, the products compare term by term.
rest_kept :
    (into left amount out : ℕ)
    → out * (into * 1000 + amount * 997) ≤ amount * 997 * (out + left)
    → into * (out + left) ≤ (into + amount) * left
rest_kept into left amount out h = omega (arith, h)

-- An output below its reserve keeps the product of the reserves from falling.
pub product_kept :
    (into outof amount out : ℕ)
    → out * (into * 1000 + amount * 997) ≤ amount * 997 * outof
    → out ≤ outof
    → into * outof ≤ (into + amount) * (outof - out)
product_kept into outof amount out h l =
    let whole : outof ≡ out + (outof - out) = omega (arith, l) in
    let named : out * (into * 1000 + amount * 997) ≤ amount * 997 * (out + (outof - out)) =
      rw⁻¹ whole h in
    let kept = rest_kept into (outof - out) amount out named in
    let same : into * (out + (outof - out)) ≡ into * outof = ap (λ k. into * k) (sym whole) in
    omega (arith, kept, same)

le_or_lt : (a b : ℕ) → (a ≤ b) ⊎ (b < a)
le_or_lt a b = ground arith

-- The reserve is never paid out whole.
pub out_below :
    (into outof amount out : ℕ)
    → out * (into * 1000 + amount * 997) ≤ amount * 997 * outof
    → 0 < into
    → 0 < outof
    → out < outof
out_below into outof amount out h p q = elim (le_or_lt outof out) [
  | inl more ↦
      let scaled = mul-le-mul_right (into * 1000 + amount * 997) more in
      let some_left = mul-pos q p in absurd (omega (arith, h, scaled, some_left))
  | inr less ↦ less
]
