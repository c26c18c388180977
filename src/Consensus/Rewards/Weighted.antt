-- ===== src/Consensus/Rewards/Weighted.antt =====
-- ace-consensus/src/rewards.rs: the sum of the outputs of distribute_weighted.
use ace_chain.Common.{
  ℕ, zero, suc, ◌+◌, ◌-◌, ◌*◌, ◌/◌, ◌%◌, ◌≤◌, ◌<◌, ◌≡◌, refl, min, false, List, [], ◌∷◌, arith,
  ◌==◌, length, sum, u64_mod, u64_max, Bool-cases, inl, inr, saturating_add,
}
use native.Mathlib.Nat.{div-add-mod, mod-lt}
use ace_chain.Consensus.Rewards.{total_weight, add_shares, bump, add_remainder, distribute_weighted}
use ace_chain.Consensus.Rewards.Equal.{sum-distribute_equal, length-distribute_equal}

-- The shares of the weights, rounded down.
abbrev shares : ℕ → ℕ → List ℕ → ℕ
shares amount total [] = 0
shares amount total (w ∷ ws) = amount * w / total + shares amount total ws

total_weight-sum :
    (acc : ℕ) (ws : List ℕ) → acc + sum ws ≤ u64_max → total_weight acc ws ≡ acc + sum ws
unfolding total_weight
total_weight-sum acc [] h = omega arith
total_weight-sum acc (w ∷ ws) h =
    let small : saturating_add acc w ≡ acc + w = omega arith in
    rw small (omega (arith, total_weight-sum (acc + w) ws (omega arith)))

shares-le :
    (amount total : ℕ) (ws : List ℕ)
    → 1 ≤ total
    → (total * shares amount total ws ≤ amount * sum ws)
      × (amount * sum ws ≤ total * (shares amount total ws + length ws))
shares-le amount total [] p = (omega arith, omega arith)
shares-le amount total (w ∷ ws) p =
    let whole = div-add-mod (amount * w) total in
    let low : amount * w % total < total = mod-lt (amount * w) p in
    let rest = shares-le amount total ws p in
    (omega (arith, whole, rest.0), omega (arith, whole, low, rest.1))

le_cancel : (t a b : ℕ) → 1 ≤ t → t * a ≤ t * b → a ≤ b
le_cancel t a b p h = grind arith

shares_close :
    (amount : ℕ) (ws : List ℕ)
    → 1 ≤ sum ws
    → (shares amount (sum ws) ws ≤ amount) × (amount ≤ shares amount (sum ws) ws + length ws)
shares_close amount ws p =
    let b = shares-le amount (sum ws) ws p in
    (
      le_cancel (sum ws) (shares amount (sum ws) ws) amount p (omega (arith, b.0)),
      le_cancel (sum ws) amount (shares amount (sum ws) ws + length ws) p (omega (arith, b.1)),
    )

add_shares_lem :
    (amount total : ℕ) (ws outputs : List ℕ) (distributed : ℕ)
    → length ws ≡ length outputs
    → sum outputs + shares amount total ws ≤ u64_max
    → distributed + shares amount total ws ≤ u64_max
    → let (rest, given) = add_shares amount total ws outputs distributed in
      (sum rest ≡ sum outputs + shares amount total ws)
      × (given ≡ distributed + shares amount total ws)
      × (length rest ≡ length outputs)
unfolding add_shares
add_shares_lem amount total [] [] d e h q = (omega arith, omega arith, refl)
add_shares_lem amount total [] (x ∷ xs) d e h q = absurd (omega arith)
add_shares_lem amount total (w ∷ ws) [] d e h q = absurd (omega arith)
add_shares_lem amount total (w ∷ ws) (x ∷ xs) d e h q =
    let share = amount * w / total in
    let more : saturating_add d share ≡ d + share = omega arith in
    let ih =
      add_shares_lem amount total ws xs (d + share) (omega arith) (omega arith) (omega arith) in
    rw more (omega (arith, ih.0), omega (arith, ih.1), omega (arith, ih.2))

bump_lem :
    (i : ℕ) (xs : List ℕ)
    → i < length xs
    → sum xs + 1 ≤ u64_max
    → (sum (bump i xs) ≡ sum xs + 1) × (length (bump i xs) ≡ length xs)
unfolding bump
bump_lem i [] h p = absurd (omega arith)
bump_lem zero (x ∷ xs) h p = (omega arith, refl)
bump_lem (suc i) (x ∷ xs) h p =
    let ih = bump_lem i xs (omega arith) (omega arith) in (omega (arith, ih.0), omega (arith, ih.1))

add_remainder_lem :
    (n count rotation j : ℕ) (xs : List ℕ)
    → count ≡ length xs
    → 1 ≤ count
    → sum xs + n ≤ u64_max
    → (sum (add_remainder n count rotation j xs) ≡ sum xs + n)
      × (length (add_remainder n count rotation j xs) ≡ length xs)
unfolding add_remainder
add_remainder_lem zero count rotation j xs e one h = (omega arith, refl)
add_remainder_lem (suc n) count rotation j xs e one h =
    let i = (rotation + j) % u64_mod % count in
    let inside : i < count = mod-lt ((rotation + j) % u64_mod) one in
    let b = bump_lem i xs (omega arith) (omega arith) in
    let ih =
      add_remainder_lem n count rotation (suc j) (bump i xs) (omega (arith, b.1)) one
        (omega (arith, b.0)) in
    (omega (arith, b.0, ih.0), omega (arith, b.1, ih.1))

-- Shares first, then the remainder.
spread_lem :
    (amount : ℕ) (ws xs : List ℕ) (rotation : ℕ)
    → length ws ≡ length xs
    → 1 ≤ length xs
    → 1 ≤ sum ws
    → sum xs + amount ≤ u64_max
    → let (shared, distributed) = add_shares amount (sum ws) ws xs 0 in
      let out =
        add_remainder (min (amount - distributed) (length xs)) (length xs) rotation 0 shared in
      (sum out ≡ sum xs + amount) × (length out ≡ length xs)
spread_lem amount ws xs rotation same one heavy small =
    let close = shares_close amount ws heavy in
    let (shared, distributed) = add_shares amount (sum ws) ws xs 0 in
    let first =
      add_shares_lem amount (sum ws) ws xs 0 same (omega (arith, close.0))
        (omega (arith, close.0)) in
    let n = min (amount - distributed) (length xs) in
    let last =
      add_remainder_lem n (length xs) rotation 0 shared (omega (arith, first.2)) one
        (omega (arith, first.0, first.1, close.0)) in
    (
      omega (arith, first.0, first.1, close.0, close.1, last.0, same),
      omega (arith, first.2, last.1),
    )

-- With as many weights as outputs, at least one output, and no sum above a 64-bit word, the outputs
-- grow by exactly the amount, whether a weight is positive or all are zero.
pub distribute_weighted_lem :
    (amount : ℕ) (weights outputs : List ℕ) (rotation : ℕ)
    → length weights ≡ length outputs
    → 1 ≤ length outputs
    → sum weights ≤ u64_max
    → sum outputs + amount ≤ u64_max
    → (sum (distribute_weighted amount weights outputs rotation) ≡ sum outputs + amount)
      × (length (distribute_weighted amount weights outputs rotation) ≡ length outputs)
unfolding distribute_weighted
distribute_weighted_lem amount ws xs rotation same one light small =
    let heavy : total_weight 0 ws ≡ sum ws = omega (arith, total_weight-sum 0 ws (omega arith)) in
    let some_one : (length xs == 0) ≡ false = ground arith in
    elim (Bool-cases (amount == 0)) [
      | inl none_left ↦ rw (heavy, some_one, none_left) (ground arith, refl)
      | inr more ↦ elim (Bool-cases (sum ws == 0)) [
        | inl flat ↦
            rw (heavy, some_one, more, flat)
              (
                sum-distribute_equal amount xs rotation one small,
                length-distribute_equal amount xs rotation,
              )
        | inr weighted ↦
            rw (heavy, some_one, more, weighted)
              (spread_lem amount ws xs rotation same one (ground arith) small)
      ]
    ]
