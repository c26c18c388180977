-- ===== src/Defi/Amounts.antt =====
-- ace-defi/src/canonical.rs: amounts of an asset in the units of another number of decimals.
use ace_chain.Common.{
  ℕ, zero, suc, ◌+◌, ◌-◌, ◌*◌, ◌/◌, ◌%◌, ◌^◌, ◌≤◌, ◌<◌, ◌≡◌, ◌≢◌, ap, ◌∙◌, refl, Bool, true, false,
  not, ◌==◌, ltb, leb, if◌then◌else◌, u64_max, arith,
}
use native.Mathlib.Nat.{
  div-mul-le_self, lt-div-mul-add, mul-le-mul_right, mul-lt-mul_of_pos_right, mul-pos, div-add-mod',
}
use native.Mathlib.Numerals.{unary_clauses}
use ace_chain.Common.Results.{
  Result, ok, err, ◌>>=◌, ◌>>◌, guard, checked_mul, >>=-eq-ok, guard-eq-ok,
}
use ace_chain.Defi.Types.{
  BridgeError, invalid_amount, amount_too_small, arithmetic_overflow, invalid_decimals,
}

abbrev pub validate_decimals : ℕ → Result BridgeError (Unit {0})
validate_decimals decimals = guard (leb decimals 18) (invalid_decimals decimals)

-- `10u64.checked_pow`.
abbrev pub checked_scale : ℕ → Result BridgeError ℕ
checked_scale k = if ltb u64_max (10 ^ k) then err arithmetic_overflow else ok (10 ^ k)

abbrev scaled_up : ℕ → ℕ → Result BridgeError ℕ
scaled_up amount scale = checked_mul arithmetic_overflow amount scale

abbrev scaled_down : ℕ → ℕ → Result BridgeError ℕ
scaled_down amount scale = if amount / scale == 0 then err amount_too_small else ok (amount / scale)

unfoldable pub normalize_amount : ℕ → ℕ → ℕ → Result BridgeError ℕ
normalize_amount amount from to = do
  validate_decimals from
  validate_decimals to
  guard (not (amount == 0)) invalid_amount
  if from == to
      then ok amount
      else if ltb from to
      then (checked_scale (to - from) >>= scaled_up amount)
      else (checked_scale (from - to) >>= scaled_down amount)

scaled_up-exact : (amount scale b : ℕ) → scaled_up amount scale ≡ ok b → b ≡ amount * scale
scaled_up-exact amount scale b e = ground (arith, e)

scaled_down-rounds :
    (amount scale b : ℕ)
    → 0 < scale
    → scaled_down amount scale ≡ ok b
    → (b * scale ≤ amount) × (amount < b * scale + scale) × (0 < b)
scaled_down-rounds amount scale b p e =
    let whole : b ≡ amount / scale = ground (arith, e) in
    let some_left : 0 < b = ground (arith, e) in
    (rw whole (div-mul-le_self amount scale), rw whole (lt-div-mul-add p), some_left)

product_suc : (b x y p : ℕ) → p ≡ x * y → p * b ≡ x * b * y
product_suc b x y p e = rw e (omega arith)

product_scaled :
    (amount b scale small large : ℕ)
    → b ≡ amount * scale
    → large ≡ scale * small
    → b * small ≡ amount * large
product_scaled amount b scale small large e f = rw (e, f) (omega arith)

product_below :
    (amount b scale small large : ℕ)
    → large ≡ scale * small
    → amount * small < (b * scale + scale) * small
    → amount * small < b * large + large
product_below amount b scale small large f h = rw f (omega (arith, h))

-- Powers of ten split at a sum.
pow_add : (b m n : ℕ) → b ^ (m + n) ≡ b ^ m * b ^ n
pow_add b zero n =
    let same : 0 + n ≡ n = omega arith in ap (λ k. b ^ k) same ∙ (simp unary_clauses omega arith)
pow_add b (suc m) n =
    let same : suc m + n ≡ suc (m + n) = omega arith in
    ap (λ k. b ^ k) same
    ∙ (simp unary_clauses (product_suc b (b ^ m) (b ^ n) (b ^ (m + n)) (pow_add b m n)))

ten_pos : (n : ℕ) → 0 < 10 ^ n
ten_pos zero = omega arith
ten_pos (suc n) = simp unary_clauses omega (arith, ten_pos n)

-- A number of decimals is what is left of a larger one and the difference.
ten_split : (small large : ℕ) → small ≤ large → 10 ^ large ≡ 10 ^ (large - small) * 10 ^ small
ten_split small large h =
    let sum : large ≡ (large - small) + small = omega arith in
    ap (λ k. 10 ^ k) sum ∙ pow_add 10 (large - small) small

-- The value of what comes out, in common units, is at most that of what goes in, and less than one unit
-- below it.
abbrev pub IsRounded : ℕ → ℕ → ℕ → ℕ → Type 0
IsRounded amount from to b =
    (b * 10 ^ from ≤ amount * 10 ^ to) × (amount * 10 ^ to < b * 10 ^ from + 10 ^ from) × (0 < b)

scaled_up-IsRounded :
    (amount from to b : ℕ)
    → amount ≢ 0
    → ltb from to ≡ true
    → scaled_up amount (10 ^ (to - from)) ≡ ok b
    → IsRounded amount from to b
scaled_up-IsRounded amount from to b n l e =
    let exact : b ≡ amount * 10 ^ (to - from) = scaled_up-exact amount (10 ^ (to - from)) b e in
    let split = ten_split from to (ground (arith, l)) in
    let same : b * 10 ^ from ≡ amount * 10 ^ to =
      product_scaled amount b (10 ^ (to - from)) (10 ^ from) (10 ^ to) exact split in
    let many : 0 < b = rw exact (mul-pos (omega (arith, n)) (ten_pos (to - from))) in
    (omega (arith, same), omega (arith, same, ten_pos from), many)

scaled_down-IsRounded :
    (amount from to b : ℕ)
    → to < from
    → scaled_down amount (10 ^ (from - to)) ≡ ok b
    → IsRounded amount from to b
scaled_down-IsRounded amount from to b l e =
    let p = scaled_down-rounds amount (10 ^ (from - to)) b (ten_pos (from - to)) e in
    let split = ten_split to from (omega (arith, l)) in
    let below = mul-le-mul_right (10 ^ to) (p.0) in
    let above = mul-lt-mul_of_pos_right (p.1) (ten_pos to) in
    (
      grind (arith, split, below),
      product_below amount b (10 ^ (from - to)) (10 ^ to) (10 ^ from) split above,
      p.2,
    )

-- For an amount of an asset of `from` decimals that is converted to `to` decimals: the value of what
-- comes out, in common units, is at most that of what goes in and less than one unit below it, and
-- something does come out.
pub normalize_amount-IsRounded :
    (amount from to b : ℕ) → normalize_amount amount from to ≡ ok b → IsRounded amount from to b
unfolding normalize_amount
normalize_amount-IsRounded amount from to b e =
    let (_, _, e1) = >>=-eq-ok (validate_decimals from) _ e in
    let (_, _, e2) = >>=-eq-ok (validate_decimals to) _ e1 in
    let (_, g, e3) = >>=-eq-ok (guard (not (amount == 0)) invalid_amount) _ e2 in
    let n : amount ≢ 0 = ground (arith, guard-eq-ok (not (amount == 0)) invalid_amount g) in
    go n (from == to) refl (ltb from to) refl e3
  where
    go :
        amount ≢ 0
        → (same : Bool) → (from == to) ≡ same
        → (less : Bool) → ltb from to ≡ less
        → (if same
            then ok amount
            else if less
            then (checked_scale (to - from) >>= scaled_up amount)
            else (checked_scale (from - to) >>= scaled_down amount))
          ≡ ok b
        → IsRounded amount from to b
    go n true s less l h =
        let alike : b ≡ amount = cc h in
        let level : from ≡ to = ground (arith, s) in
        rw (alike, level) ((omega arith, omega (arith, ten_pos to), omega (arith, n)))
    go n false s true l h =
        let (k, q, f) = >>=-eq-ok (checked_scale (to - from)) (scaled_up amount) h in
        let scale : k ≡ 10 ^ (to - from) = ground (arith, q) in
        scaled_up-IsRounded amount from to b n l (rw⁻¹ scale f)
    go n false s false l h =
        let (k, q, f) = >>=-eq-ok (checked_scale (from - to)) (scaled_down amount) h in
        let scale : k ≡ 10 ^ (from - to) = ground (arith, q) in
        scaled_down-IsRounded amount from to b (ground (arith, s, l)) (rw⁻¹ scale f)

-- The steps of a conversion, whichever way it goes.
scaled_by :
    (amount from to b : ℕ)
    → normalize_amount amount from to ≡ ok b
    → (from < to → scaled_up amount (10 ^ (to - from)) ≡ ok b)
      × (to < from → scaled_down amount (10 ^ (from - to)) ≡ ok b)
unfolding normalize_amount
scaled_by amount from to b e =
    let (_, _, e1) = >>=-eq-ok (validate_decimals from) _ e in
    let (_, _, e2) = >>=-eq-ok (validate_decimals to) _ e1 in
    let (_, _, e3) = >>=-eq-ok (guard (not (amount == 0)) invalid_amount) _ e2 in ground (arith, e3)

-- An amount that is converted to fewer decimals and back loses the rest of its division: this is what a
-- withdrawal burns and its completion does not settle.
pub normalize_back-loses :
    (amount from to b c : ℕ)
    → to < from
    → normalize_amount amount from to ≡ ok b
    → normalize_amount b to from ≡ ok c
    → c + amount % 10 ^ (from - to) ≡ amount
normalize_back-loses amount from to b c l e f =
    let s = 10 ^ (from - to) in
    let (_, down) = scaled_by amount from to b e in
    let (up, _) = scaled_by b to from c f in
    let part : b ≡ amount / s = ground (arith, down l) in
    let back : c ≡ b * s = scaled_up-exact b s c (up l) in rw (back, part) (div-add-mod' amount s)
