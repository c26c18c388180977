-- ===== src/Liquid/Critbit/Extremes.antt =====
-- ace-liquid/src/critbit.rs: the ends of a ladder, of the tree that an arena holds.
use ace_chain.Common.{
  ℕ, suc, zero, ◌≤◌, ◌<◌, ◌≡◌, refl, Bool, true, false, some, ◌≢◌, ◌⊎◌, inl, inr, arith, max,
}
use ace_chain.Liquid.Critbit.{inner, leaf, Arena, read_node, read_root, extreme_from, extreme}
use ace_chain.Liquid.Types.{OrderSide}

-- A tree apart from where its nodes lie.
pub data Tree : Type 0 where
  tip : ℕ → Tree
  fork : ℕ → Tree → Tree → Tree

unfoldable pub Has : Tree → ℕ → Type 0
Has (tip key) k = key ≡ k
Has (fork c l r) k = Has l k ⊎ Has r k

abbrev pub height : Tree → ℕ
height (tip k) = 0
height (fork c l r) = suc (max (height l) (height r))

-- The key at one end.
abbrev pub end_of : Bool → Tree → ℕ
end_of d (tip k) = k
end_of false (fork c l r) = end_of false l
end_of true (fork c l r) = end_of true r

-- The nodes from `p` on hold the tree.
unfoldable pub Holds : Arena → ℕ → Tree → Type 0
Holds a p (tip k) = read_node a p ≡ leaf k
Holds a p (fork c l r) =
    (x : ℕ) × (y : ℕ) × (read_node a p ≡ inner c x y) × Holds a x l × Holds a y r

-- Keys on the left of a node are below those on its right.
unfoldable pub IsSorted : Tree → Type 0
IsSorted (tip k) = Unit
IsSorted (fork c l r) = IsSorted l × IsSorted r × (end_of true l < end_of false r)

-- The walk to one end of a tree that the arena holds ends at that end's key, if the fuel exceeds the
-- tree's height.
pub extreme_from-end_of :
    (n : ℕ) (a : Arena) (p : ℕ) (t : Tree) (d : Bool)
    → Holds a p t
    → height t < n
    → extreme_from n a p d ≡ some (end_of d t)
unfolding extreme_from Holds
extreme_from-end_of zero a p t d h q = absurd (omega (arith, q))
extreme_from-end_of (suc n) a p (tip k) d h q = ground (arith, h)
extreme_from-end_of (suc n) a p (fork c l r) false (x, y, e, hl, hr) q =
    ground (arith, e, extreme_from-end_of n a x l false hl (omega (arith, q)))
extreme_from-end_of (suc n) a p (fork c l r) true (x, y, e, hl, hr) q =
    ground (arith, e, extreme_from-end_of n a y r true hr (omega (arith, q)))

ends_order : (t : Tree) → IsSorted t → end_of false t ≤ end_of true t
unfolding IsSorted
ends_order (tip k) s = omega arith
ends_order (fork c l r) (sl, sr, apart) = omega (arith, apart, ends_order l sl, ends_order r sr)

ends_bound : (t : Tree) (k : ℕ) → IsSorted t → Has t k → (end_of false t ≤ k) × (k ≤ end_of true t)
unfolding IsSorted Has
ends_bound (tip key) k s h = (omega (arith, h), omega (arith, h))
ends_bound (fork c l r) k (sl, sr, apart) (inl h) =
    let (low, high) = ends_bound l k sl h in (low, omega (arith, high, apart, ends_order r sr))
ends_bound (fork c l r) k (sl, sr, apart) (inr h) =
    let (low, high) = ends_bound r k sr h in (omega (arith, low, apart, ends_order l sl), high)

Has-end_of : (t : Tree) (d : Bool) → Has t (end_of d t)
unfolding Has
Has-end_of (tip key) d = refl
Has-end_of (fork c l r) false = inl (Has-end_of l false)
Has-end_of (fork c l r) true = inr (Has-end_of r true)

-- Where a side's root holds a sorted tree of at most 64 levels, the least and the greatest key that
-- the code reads are keys of the tree, and bound all its keys.
pub extreme-bounds :
    (a : Arena) (side : OrderSide) (t : Tree)
    → read_root a side ≢ 0
    → Holds a (read_root a side) t
    → IsSorted t
    → height t ≤ 64
    → (low : ℕ) × (high : ℕ) × (extreme a side false ≡ some low)
      × (extreme a side true ≡ some high)
      × Has t low
      × Has t high
      × ((k : ℕ) → Has t k → (low ≤ k) × (k ≤ high))
unfolding extreme
extreme-bounds a side t nonzero h s small = (
  end_of false t,
  end_of true t,
  ground (
    arith,
    nonzero,
    extreme_from-end_of 65 a (read_root a side) t false h (omega (arith, small)),
  ),
  ground
      (arith, nonzero, extreme_from-end_of 65 a (read_root a side) t true h (omega (arith, small))),
  Has-end_of t false,
  Has-end_of t true,
  λ k has. ends_bound t k s has,
)
