-- ===== src/Consensus/Rewards/Equal.antt =====
-- ace-consensus/src/rewards.rs: the sum of the outputs of distribute_equal.
use ace_chain.Common.{
  ℕ, suc, ◌+◌, ◌-◌, ◌*◌, ◌/◌, ◌%◌, ◌≤◌, ◌<◌, ◌≡◌, refl, min, List, [], ◌∷◌, arith, leb,
  if◌then◌else◌, length, sum, u64_max, ap, Bool-cases, inl, inr, leb→le,
}
use native.Mathlib.Nat.{div-add-mod, mod-lt, mod-eq_of_lt, mod-eq-sub-mod}
use ace_chain.Consensus.Rewards.{gets_extra, add_equal, distribute_equal}

-- How many of the indices before `i` get a unit: of those below the rotation `k` the units start in
-- the middle of the queue.
abbrev extras_before : ℕ → ℕ → ℕ → ℕ → ℕ
extras_before count k m i =
    if leb i k
    then min m (i + count - k) - min m (count - k)
    else m - min m (count - k) + min m (i - k)

rotated :
    (count k i : ℕ)
    → i < count
    → k < count
    → (i + count - k) % count ≡ (if leb k i then i - k else i + count - k)
rotated count k i h hk = elim (Bool-cases (leb k i)) [
  | inl e ↦
      let at : (i + count - k) % count ≡ (i + count - k - count) % count =
        mod-eq-sub-mod (ground arith) in
      let small : (i + count - k - count) % count ≡ i + count - k - count =
        mod-eq_of_lt (ground arith) in
      rw e (omega (arith, at, small, leb→le k i e))
  | inr e ↦ rw e (mod-eq_of_lt (ground arith))
]

extras_step :
    (count rotation m i : ℕ)
    → i < count
    → m ≤ count
    → extras_before count (rotation % count) m i + gets_extra count rotation m i
      ≡ extras_before count (rotation % count) m (suc i)
unfolding gets_extra
extras_step count rotation m i h hm =
    let k : rotation % count < count = mod-lt rotation (omega arith) in
    ground (arith, rotated count (rotation % count) i h k, k)

extras_before-le :
    (count k m i : ℕ) → i ≤ count → k < count → m ≤ count → extras_before count k m i ≤ m
extras_before-le count k m i p q h = ground arith

extras_before-all : (count k m : ℕ) → k < count → m ≤ count → extras_before count k m count ≡ m
extras_before-all count k m q h = ground arith

extras_before-none : (count k m : ℕ) → k < count → extras_before count k m 0 ≡ 0
extras_before-none count k m q = ground arith

add_equal-sum :
    (count rotation m per i : ℕ) (xs : List ℕ)
    → 1 ≤ count
    → i + length xs ≡ count
    → m ≤ count
    → sum xs + per * length xs + m ≤ u64_max + extras_before count (rotation % count) m i
    → sum (add_equal count rotation m per i xs) + extras_before count (rotation % count) m i
      ≡ sum xs + per * length xs + m
unfolding add_equal
add_equal-sum count rotation m per i [] one e hm small =
    let k : rotation % count < count = mod-lt rotation one in
    let same : i ≡ count = omega arith in
    rw same (omega (arith, extras_before-all count (rotation % count) m k hm))
add_equal-sum count rotation m per i (x ∷ xs) one e hm small =
    let k : rotation % count < count = mod-lt rotation one in
    let step = extras_step count rotation m i (omega arith) hm in
    let room = extras_before-le count (rotation % count) m (suc i) (omega arith) k hm in
    let rest =
      add_equal-sum count rotation m per (suc i) xs one (omega arith) hm
        (omega (arith, step, small)) in
    omega (arith, step, room, rest, small)

pub length-add_equal :
    (count rotation m per i : ℕ) (xs : List ℕ)
    → length (add_equal count rotation m per i xs) ≡ length xs
unfolding add_equal
length-add_equal count rotation m per i [] = refl
length-add_equal count rotation m per i (x ∷ xs) =
    ap suc (length-add_equal count rotation m per (suc i) xs)

pub length-distribute_equal :
    (amount : ℕ) (outputs : List ℕ) (rotation : ℕ)
    → length (distribute_equal amount outputs rotation) ≡ length outputs
unfolding distribute_equal
length-distribute_equal amount outputs rotation = ground (
  arith,
  length-add_equal (length outputs) rotation (amount % length outputs) (amount / length outputs) 0
      outputs,
)

-- With at least one output and no sum above a 64-bit word, the outputs grow by exactly the amount.
pub sum-distribute_equal :
    (amount : ℕ) (outputs : List ℕ) (rotation : ℕ)
    → 1 ≤ length outputs
    → sum outputs + amount ≤ u64_max
    → sum (distribute_equal amount outputs rotation) ≡ sum outputs + amount
unfolding distribute_equal
sum-distribute_equal amount outputs rotation one small =
    let n = length outputs in
    let k : rotation % n < n = mod-lt rotation one in
    let m : amount % n < n = mod-lt amount one in
    let whole = div-add-mod amount n in
    let whole' : amount / n * n + amount % n ≡ amount = grind (arith, whole) in
    let start = extras_before-none n (rotation % n) (amount % n) k in
    let all =
      add_equal-sum n rotation (amount % n) (amount / n) 0 outputs one (omega arith) (omega arith)
        (omega (arith, whole', start)) in
    ground (arith, all, whole', start)
