-- ===== src/Consensus/Leader/Draw.antt =====
-- ace-consensus/src/leader_schedule.rs: the rejection sampling, and the elections as a whole.
use ace_chain.Common.{
  ℕ, zero, suc, ◌+◌, ◌*◌, ◌/◌, ◌%◌, ◌≤◌, ◌<◌, ◌≡◌, ◌↔◌, refl, true, false, some, List, [], ◌∷◌,
  arith, ◌==◌, leb, u64_max, length, All, sum_of, sym, ◌∙◌, ap, eq_of_some, add32, Bool-cases, inl,
  inr,
}
use native.Mathlib.Nat.{div-add-mod, le-div_iff_mul-le, mod-lt}
use ace_chain.Consensus.Validators.{Validator, ValidatorSet, get_by_id, is_empty}
use ace_chain.Consensus.Validators.Order.{has_id, IsOrdered-IsDistinct}
use ace_chain.Consensus.Validators.Laws.{IsValid}
use ace_chain.Consensus.Validators.Stake.{IsStaked, stake_of}
use ace_chain.Consensus.Leader.{threshold, draw, pick, elect, zero_account}
use ace_chain.Consensus.Leader.Intervals.{before, pick_interval, pick-has_id}

-- For a positive total stake of 64 bits the threshold is a whole multiple of the total, and not
-- below it.
pub threshold_multiple :
    (total : ℕ)
    → 1 ≤ total
    → total ≤ u64_max
    → (threshold total ≡ total * (u64_max / total)) × (total ≤ threshold total)
unfolding threshold
threshold_multiple total p q =
    let whole = div-add-mod u64_max total in
    let once : 1 ≤ u64_max / total = (le-div_iff_mul-le p).1 (omega arith) in
    (omega (arith, whole), grind (arith, whole, once))

-- The values that the loop looks at, the first one given.
unfoldable pub value_at : (ℕ → ℕ) → ℕ → ℕ → ℕ → ℕ
value_at rehash value counter zero = value
value_at rehash value counter (suc k) =
    value_at rehash (rehash (add32 counter 1)) (add32 counter 1) k

-- With a value below the bound within the fuel, the loop ends with such a value.
draw_total :
    (fuel bound : ℕ) (rehash : ℕ → ℕ) (value counter k : ℕ)
    → k < fuel
    → value_at rehash value counter k < bound
    → (x : ℕ) × (draw fuel bound rehash value counter ≡ some x) × (x < bound)
unfolding draw value_at
draw_total zero bound rehash value counter k p h = absurd (omega arith)
draw_total (suc fuel) bound rehash value counter zero p h = (value, ground arith, h)
draw_total (suc fuel) bound rehash value counter (suc k) p h = elim (Bool-cases (leb bound value)) [
  | inr e ↦ rw e (value, refl, ground arith)
  | inl e ↦
      rw e (
        draw_total fuel bound rehash (rehash (add32 counter 1)) (add32 counter 1) k (omega arith) h)
]

sum-pos :
    (vs : List Validator) → (length vs == 0) ≡ false → All IsStaked vs → 1 ≤ sum_of stake_of vs
sum-pos [] e h = cc
sum-pos (v ∷ vs) e h = omega (arith, h.0)

module _ (s : ValidatorSet) (valid : IsValid s) (some_one : is_empty s ≡ false) where
  total-pos : 1 ≤ s.total_stake
  unfolding is_empty
  total-pos = omega (arith, sum-pos s.validators some_one valid.positive, valid.counted)

  elect-eq :
      (fuel first : ℕ) (rehash : ℕ → ℕ) (x : ℕ)
      → draw fuel (threshold s.total_stake) rehash first 0 ≡ some x
      → elect fuel s first rehash ≡ some (pick zero_account s.validators 0 (x % s.total_stake))
  unfolding elect
  elect-eq fuel first rehash x e = rw (some_one, positive, e) refl
    where
      positive : (s.total_stake == 0) ≡ false
      positive = ground (arith, total-pos)

  -- In a valid set with a member, if one of the values within the fuel lies below the threshold, the
  -- election ends, and with a validator of the set.
  pub elect_total :
      (fuel first k : ℕ) (rehash : ℕ → ℕ)
      → k < fuel
      → value_at rehash first 0 k < threshold s.total_stake
      → (id : ℕ) × (elect fuel s first rehash ≡ some id) × (has_id id s.validators ≡ true)
  elect_total fuel first k rehash p h =
      let (x, drawn, low) = draw_total fuel (threshold s.total_stake) rehash first 0 k p h in
      (
        pick zero_account s.validators 0 (x % s.total_stake),
        elect-eq fuel first rehash x drawn,
        pick-has_id zero_account s.validators 0 (x % s.total_stake)
            (omega (arith, valid.counted, valid.bounded)) (omega arith)
            (omega (arith, valid.counted, mod-lt x total-pos)),
      )

  -- In a valid set with a member, once a value is drawn: a validator of the set is elected
  -- exactly when the value falls, modulo the total stake, in the validator's own interval,
  -- which starts after the stakes before it and is as long as its stake.
  pub elect_interval :
      (fuel first x : ℕ) (rehash : ℕ → ℕ) (v : Validator)
      → draw fuel (threshold s.total_stake) rehash first 0 ≡ some x
      → get_by_id s v.id_com ≡ some v
      → (elect fuel s first rehash ≡ some v.id_com) ↔ (
          (before v.id_com s.validators ≤ x % s.total_stake)
          × (x % s.total_stake < before v.id_com s.validators + v.stake))
  unfolding get_by_id
  elect_interval fuel first x rehash v drawn member =
      let at = elect-eq fuel first rehash x drawn in
      let there =
        pick_interval zero_account s.validators 0 (x % s.total_stake) v
          (IsOrdered-IsDistinct s.validators valid.ordered)
          (omega (arith, valid.counted, valid.bounded)) (omega arith)
          (omega (arith, valid.counted, mod-lt x total-pos)) member in
      (
        λ e. omega (arith, there.0 (eq_of_some _ _ (sym at ∙ e))),
        λ h. at ∙ ap some (there.1 (omega (arith, h.0), omega (arith, h.1))),
      )
