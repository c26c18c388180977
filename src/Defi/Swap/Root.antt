-- ===== src/Defi/Swap/Root.antt =====
-- ace-defi/src/swap.rs: isqrt, by which the first liquidity of a pool is measured. The loop has the number
-- itself as fuel; its estimate falls in each round.
use ace_chain.Common.{
  ℕ, zero, suc, ◌+◌, ◌-◌, ◌*◌, ◌/◌, ◌≤◌, ◌<◌, ◌≡◌, refl, sym, ap, ◌⊎◌, inl, inr, Bool, true, false,
  ◌==◌, ltb, arith,
}
use native.Mathlib.Nat.{div-mul-le_self, lt-div-mul-add, mul-le-mul, mul-le-mul_right, div_self}

unfoldable pub isqrt_loop : ℕ → ℕ → ℕ → ℕ → ℕ
isqrt_loop zero n x y = x
isqrt_loop (suc k) n x y = elim (ltb y x) [ true ↦ isqrt_loop k n y ((y + n / y) / 2) | false ↦ x ]

unfoldable pub isqrt : ℕ → ℕ
unfolding isqrt_loop
isqrt n = elim (n == 0) [ true ↦ 0 | false ↦ isqrt_loop n n n ((n + 1) / 2) ]

le_or_lt : (a b : ℕ) → (a ≤ b) ⊎ (b < a)
le_or_lt a b = ground arith

-- Four times a product is at most the square of the sum.
square_later : (x d : ℕ) → 4 * (x * (x + d)) ≤ (x + (x + d)) * (x + (x + d))
square_later x d = omega arith

square_of_sum : (x s : ℕ) → 4 * (x * s) ≤ (x + s) * (x + s)
square_of_sum x s = elim (le_or_lt x s) [
  | inl h ↦ let whole : s ≡ x + (s - x) = omega (arith, h) in rw whole (square_later x (s - x))
  | inr h ↦
      let whole : x ≡ s + (x - s) = omega (arith, h) in
      rw whole omega (arith, square_later s (x - s))
]

-- The next estimate is not below the root.
above_root : (n x q y : ℕ) → n < q * x + x → y ≡ (x + q) / 2 → n < (y + 1) * (y + 1)
above_root n x q y h e =
    let half : x + (q + 1) ≤ 2 * (y + 1) = omega (arith, e) in
    let product = square_of_sum x (q + 1) in
    let squares = mul-le-mul half half in omega (arith, h, product, squares)

-- The integer square root.
abbrev pub IsRoot : ℕ → ℕ → Type 0
IsRoot n r = (r * r ≤ n) × (n < (r + 1) * (r + 1))

two_below : (n x q : ℕ) → 0 < n → 0 < x → n < q * x + x → 2 ≤ x + q
two_below n x zero p l h = omega (arith, p, h)
two_below n x (suc q) p l h = omega (arith, l)

below_root : (n x y : ℕ) → y ≡ (x + n / x) / 2 → x ≤ y → x * x ≤ n
below_root n x y e l =
    let quotient : x ≤ n / x = omega (arith, e, l) in
    let product = mul-le-mul_right x quotient in omega (arith, product, div-mul-le_self n x)

-- With fuel for the first estimate, which is not below the root, the loop ends at the root.
isqrt_loop-IsRoot :
    (k n x y : ℕ)
    → x ≤ k
    → 0 < n
    → 0 < x
    → n < (x + 1) * (x + 1)
    → y ≡ (x + n / x) / 2
    → IsRoot n (isqrt_loop k n x y)
unfolding isqrt_loop
isqrt_loop-IsRoot zero n x y f p q above e = absurd (omega (arith, f, q))
isqrt_loop-IsRoot (suc k) n x y f p q above e =
    go (λ a b c. isqrt_loop-IsRoot k n y ((y + n / y) / 2) a p b c refl) (ltb y x) refl
  where
    go :
        (y ≤ k → 0 < y → n < (y + 1) * (y + 1) → IsRoot n (isqrt_loop k n y ((y + n / y) / 2)))
        → (less : Bool) → ltb y x ≡ less
        → IsRoot n (elim less as (λ b. ℕ) [ true ↦ isqrt_loop k n y ((y + n / y) / 2) | false ↦ x ])
    go rest true l =
        let near = lt-div-mul-add {a = n} q in
        let two = two_below n x (n / x) p q near in
        rest (ground (arith, l, f)) (omega (arith, e, two)) (above_root n x (n / x) y near e)
    go rest false l = (below_root n x y e (ground (arith, l)), above)

-- The loop ends, and its result is the integer square root: the greatest number whose square is not
-- above the given one.
pub isqrt-IsRoot : (n : ℕ) → IsRoot n (isqrt n)
unfolding isqrt
isqrt-IsRoot n = go (n == 0) refl
  where
    go :
        (nothing : Bool)
        → (n == 0) ≡ nothing
        → IsRoot n (elim nothing as (λ b. ℕ) [ true ↦ 0 | false ↦ isqrt_loop n n n ((n + 1) / 2) ])
    go true z = ground (arith, z)
    go false z =
        let p : 0 < n = ground (arith, z) in
        let first : (n + 1) / 2 ≡ (n + n / n) / 2 = ap (λ k. (n + k) / 2) (sym (div_self p)) in
        isqrt_loop-IsRoot n n n ((n + 1) / 2) (omega arith) p p (omega arith) first
