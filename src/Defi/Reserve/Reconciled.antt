-- ===== src/Defi/Reserve/Reconciled.antt =====
-- ace-defi/src/reserve.rs: the books of the reserves agree with each other.
use ace_chain.Common.{ℕ, ◌+◌, ◌-◌, ◌≡◌, ◌≤◌, refl, ◌==◌, if◌then◌else◌, arith}
use ace_chain.Common.Results.{ok}
use ace_chain.Defi.Types.{ReservePosition}
use ace_chain.Defi.Reserve.{
  Reserves, position_or_empty, supply_or_empty, reserve_total, record_deposit, reserve_withdrawal,
  finalize_withdrawal, cancel_withdrawal, increase_supply, decrease_supply, increase_reserve_total,
  decrease_reserve_total, total_or_empty, set_backing, deposited, moved, withdrawn, issued,
  redeemed, put_supply, put_position,
}
use ace_chain.Defi.Reserve.Sums.{backing_of, backing_of-put, position-put, supply-put, total-put}

-- What was deposited in a position is available, asked for, or withdrawn; the total of a canonical asset
-- is what its positions hold together; and what was minted of it is active or burned.
pub record IsReconciled (r : Reserves) : Type 0 where
  pub split :
      (external canonical : ℕ)
      → (position_or_empty r external canonical).total_deposited
        ≡ (position_or_empty r external canonical).available
          + (position_or_empty r external canonical).pending_withdrawal
          + (position_or_empty r external canonical).total_withdrawn
  pub backed : (canonical : ℕ) → backing_of r canonical ≡ reserve_total r canonical
  pub minted :
      (canonical : ℕ)
      → (supply_or_empty r canonical).total_minted
        ≡ (supply_or_empty r canonical).active_supply + (supply_or_empty r canonical).total_burned

pub increase_reserve_total-adds :
    (r s : Reserves) (canonical amount at : ℕ)
    → increase_reserve_total r canonical amount ≡ ok s
    → (s.positions ≡ r.positions)
      × (s.supplies ≡ r.supplies)
      × (reserve_total s at ≡ reserve_total r at + (if canonical == at then amount else 0))
unfolding increase_reserve_total
increase_reserve_total-adds r s canonical amount at e =
    let t = set_backing (total_or_empty r canonical) (reserve_total r canonical + amount) in
    ground (arith, e, total-put r canonical at t)

pub decrease_reserve_total-takes :
    (r s : Reserves) (canonical amount at : ℕ)
    → decrease_reserve_total r canonical amount ≡ ok s
    → (s.positions ≡ r.positions)
      × (s.supplies ≡ r.supplies)
      × (reserve_total s at + (if canonical == at then amount else 0) ≡ reserve_total r at)
unfolding decrease_reserve_total
decrease_reserve_total-takes r s canonical amount at e =
    let t = set_backing (total_or_empty r canonical) (reserve_total r canonical - amount) in
    ground (arith, e, total-put r canonical at t)

pub record_deposit-IsReconciled :
    (r s : Reserves) (external canonical amount slot : ℕ)
    → IsReconciled r
    → record_deposit r external canonical amount slot ≡ ok s
    → IsReconciled s
unfolding record_deposit
record_deposit-IsReconciled r s external canonical amount slot v e =
    let old = position_or_empty r external canonical in
    let p = deposited old (old.total_deposited + amount) (old.available + amount) slot in
    let mid = put_position r external p in
    let added : increase_reserve_total mid canonical amount ≡ ok s = ground (arith, e) in
    let same : old.canonical_asset ≡ canonical = ground (arith, e) in
    record {
      split = λ x c. ground (
        arith,
        v.split x c,
        v.split external canonical,
        increase_reserve_total-adds mid s canonical amount c added,
        position-put r external c x p,
      );
      backed = λ c. ground (
        arith,
        same,
        v.backed c,
        increase_reserve_total-adds mid s canonical amount c added,
        backing_of-put r external canonical c p,
      );
      minted = λ c.
          ground (arith, v.minted c, increase_reserve_total-adds mid s canonical amount c added);
    }

-- A position whose parts add up as before takes the place of the old one.
pub shifted-IsReconciled :
    (r : Reserves) (external canonical : ℕ) (p : ReservePosition)
    → IsReconciled r
    → p.canonical_asset ≡ (position_or_empty r external canonical).canonical_asset
    → p.total_deposited ≡ p.available + p.pending_withdrawal + p.total_withdrawn
    → p.available + p.pending_withdrawal
      ≡ (position_or_empty r external canonical).available
        + (position_or_empty r external canonical).pending_withdrawal
    → IsReconciled (put_position r external p)
shifted-IsReconciled r external canonical p v same parts sum = record {
  split = λ x c. ground (arith, v.split x c, parts, position-put r external c x p);
  backed = λ c. ground (arith, same, sum, v.backed c, backing_of-put r external canonical c p);
  minted = v.minted;
}

pub reserve_withdrawal-IsReconciled :
    (r s : Reserves) (external canonical amount slot : ℕ)
    → IsReconciled r
    → reserve_withdrawal r external canonical amount slot ≡ ok s
    → IsReconciled s
unfolding reserve_withdrawal
reserve_withdrawal-IsReconciled r s external canonical amount slot v e =
    let old = position_or_empty r external canonical in
    let p = moved old (old.available - amount) (old.pending_withdrawal + amount) slot in
    let left : put_position r external p ≡ s = ground (arith, e) in
    rw⁻¹ left (
      shifted-IsReconciled r external canonical p v refl
        (ground (arith, e, v.split external canonical)) (ground (arith, e)))

pub cancel_withdrawal-IsReconciled :
    (r s : Reserves) (external amount slot : ℕ)
    → IsReconciled r
    → cancel_withdrawal r external amount slot ≡ ok s
    → IsReconciled s
unfolding cancel_withdrawal
cancel_withdrawal-IsReconciled r s external amount slot v e =
    let old = position_or_empty r external 0 in
    let p = moved old (old.available + amount) (old.pending_withdrawal - amount) slot in
    let left : put_position r external p ≡ s = ground (arith, e) in
    rw⁻¹ left (
      shifted-IsReconciled r external 0 p v refl (ground (arith, e, v.split external 0))
        (ground (arith, e)))

pub finalize_withdrawal-IsReconciled :
    (r s : Reserves) (external amount slot : ℕ)
    → IsReconciled r
    → finalize_withdrawal r external amount slot ≡ ok s
    → IsReconciled s
unfolding finalize_withdrawal
finalize_withdrawal-IsReconciled r s external amount slot v e =
    let old = position_or_empty r external 0 in
    let p = withdrawn old (old.pending_withdrawal - amount) (old.total_withdrawn + amount) slot in
    let mid = put_position r external p in
    let taken : decrease_reserve_total mid old.canonical_asset amount ≡ ok s = ground (arith, e) in
    let enough : amount ≤ old.pending_withdrawal = ground (arith, e) in
    record {
      split = λ x c. ground (
        arith,
        enough,
        v.split x c,
        v.split external 0,
        decrease_reserve_total-takes mid s old.canonical_asset amount c taken,
        position-put r external c x p,
      );
      backed = λ c. ground (
        arith,
        enough,
        v.backed c,
        decrease_reserve_total-takes mid s old.canonical_asset amount c taken,
        backing_of-put r external 0 c p,
      );
      minted = λ c. ground (
        arith,
        v.minted c,
        decrease_reserve_total-takes mid s old.canonical_asset amount c taken,
      );
    }

pub increase_supply-IsReconciled :
    (r s : Reserves) (canonical amount : ℕ)
    → IsReconciled r
    → increase_supply r canonical amount ≡ ok s
    → IsReconciled s
unfolding increase_supply
increase_supply-IsReconciled r s canonical amount v e =
    let old = supply_or_empty r canonical in
    let new = issued old (old.total_minted + amount) (old.active_supply + amount) in
    let left : put_supply r canonical new ≡ s = ground (arith, e) in
    rw⁻¹ left (record {
      split = v.split;
      backed = v.backed;
      minted = λ c. ground (arith, v.minted c, v.minted canonical, supply-put r canonical c new);
    })

pub decrease_supply-IsReconciled :
    (r s : Reserves) (canonical amount : ℕ)
    → IsReconciled r
    → decrease_supply r canonical amount ≡ ok s
    → IsReconciled s
unfolding decrease_supply
decrease_supply-IsReconciled r s canonical amount v e =
    let old = supply_or_empty r canonical in
    let new = redeemed old (old.total_burned + amount) (old.active_supply - amount) in
    let left : put_supply r canonical new ≡ s = ground (arith, e) in
    let enough : amount ≤ old.active_supply = ground (arith, e) in
    rw⁻¹ left (record {
      split = v.split;
      backed = v.backed;
      minted =
          λ c. ground (arith, enough, v.minted c, v.minted canonical, supply-put r canonical c new);
    })
