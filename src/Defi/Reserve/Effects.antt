-- ===== src/Defi/Reserve/Effects.antt =====
-- ace-defi/src/reserve.rs: what each operation changes of the totals of a canonical asset.
use ace_chain.Common.{
  ℕ, ◌+◌, ◌-◌, ◌≡◌, ◌≤◌, refl, Option-cases, inl, inr, none, ◌==◌, if◌then◌else◌, arith,
}
use ace_chain.Common.Assoc.{lookup-insert}
use ace_chain.Common.Results.{ok}
use ace_chain.Defi.Reserve.{
  Reserves, position_or_empty, supply_or_empty, get_position, get_supply, reserve_total,
  record_deposit, reserve_withdrawal, finalize_withdrawal, increase_supply, decrease_supply,
  increase_reserve_total, decrease_reserve_total, init_position, deposited, moved, withdrawn,
  issued, redeemed, put_position, put_supply, empty_position,
}
use ace_chain.Defi.Reserve.Sums.{free_of, free_of-put, backing_of, backing_of-put, supply-put}
use ace_chain.Defi.Reserve.Reconciled.{increase_reserve_total-adds, decrease_reserve_total-takes}

-- An amount that belongs to one asset, seen from another.
abbrev pub of_asset : ℕ → ℕ → ℕ → ℕ
of_asset canonical amount at = if canonical == at then amount else 0

pub record_deposit-frees :
    (r s : Reserves) (external canonical amount slot at : ℕ)
    → record_deposit r external canonical amount slot ≡ ok s
    → (free_of s at ≡ free_of r at + of_asset canonical amount at)
      × (s.supplies ≡ r.supplies)
      × (reserve_total s at ≡ reserve_total r at + of_asset canonical amount at)
unfolding record_deposit
record_deposit-frees r s external canonical amount slot at e =
    let old = position_or_empty r external canonical in
    let p = deposited old (old.total_deposited + amount) (old.available + amount) slot in
    let mid = put_position r external p in
    let added : increase_reserve_total mid canonical amount ≡ ok s = ground (arith, e) in
    let same : old.canonical_asset ≡ canonical = ground (arith, e) in
    let (kept, supplies, total) = increase_reserve_total-adds mid s canonical amount at added in
    (ground (arith, same, kept, free_of-put r external canonical at p), supplies, total)

pub reserve_withdrawal-takes :
    (r s : Reserves) (external canonical amount slot at : ℕ)
    → reserve_withdrawal r external canonical amount slot ≡ ok s
    → (free_of s at + of_asset canonical amount at ≡ free_of r at)
      × (s.supplies ≡ r.supplies)
      × (s.totals ≡ r.totals)
unfolding reserve_withdrawal
reserve_withdrawal-takes r s external canonical amount slot at e =
    let old = position_or_empty r external canonical in
    let p = moved old (old.available - amount) (old.pending_withdrawal + amount) slot in
    let left : put_position r external p ≡ s = ground (arith, e) in
    let same : old.canonical_asset ≡ canonical = ground (arith, e) in
    let enough : amount ≤ old.available = ground (arith, e) in
    (
      ground (arith, same, enough, left, free_of-put r external canonical at p),
      ground (arith, e),
      ground (arith, e),
    )

pub finalize_withdrawal-keeps :
    (r s : Reserves) (external amount slot at : ℕ)
    → finalize_withdrawal r external amount slot ≡ ok s
    → (free_of s at ≡ free_of r at)
      × (s.supplies ≡ r.supplies)
      × (reserve_total s at ≤ reserve_total r at)
unfolding finalize_withdrawal
finalize_withdrawal-keeps r s external amount slot at e =
    let old = position_or_empty r external 0 in
    let p = withdrawn old (old.pending_withdrawal - amount) (old.total_withdrawn + amount) slot in
    let mid = put_position r external p in
    let taken : decrease_reserve_total mid old.canonical_asset amount ≡ ok s = ground (arith, e) in
    let (kept, supplies, total) =
      decrease_reserve_total-takes mid s old.canonical_asset amount at taken in
    (ground (arith, kept, free_of-put r external 0 at p), supplies, omega (arith, total))

pub increase_supply-adds :
    (r s : Reserves) (canonical amount at : ℕ)
    → increase_supply r canonical amount ≡ ok s
    → ((supply_or_empty s at).active_supply
        ≡ (supply_or_empty r at).active_supply + of_asset canonical amount at)
      × ((supply_or_empty s at).safety_buffer ≡ (supply_or_empty r at).safety_buffer)
      × (s.positions ≡ r.positions)
      × (s.totals ≡ r.totals)
      × (get_supply s at ≡ none → (get_supply r at ≡ none) × (of_asset canonical amount at ≡ 0))
unfolding increase_supply
increase_supply-adds r s canonical amount at e =
    let old = supply_or_empty r canonical in
    let new = issued old (old.total_minted + amount) (old.active_supply + amount) in
    let left : put_supply r canonical new ≡ s = ground (arith, e) in
    (
      ground (arith, left, supply-put r canonical at new),
      ground (arith, left, supply-put r canonical at new),
      ground (arith, e),
      ground (arith, e),
      λ m. ground (arith, left, m, lookup-insert canonical at new r.supplies),
    )

pub decrease_supply-takes :
    (r s : Reserves) (canonical amount at : ℕ)
    → decrease_supply r canonical amount ≡ ok s
    → ((supply_or_empty s at).active_supply + of_asset canonical amount at
        ≡ (supply_or_empty r at).active_supply)
      × ((supply_or_empty s at).safety_buffer ≡ (supply_or_empty r at).safety_buffer)
      × (s.positions ≡ r.positions)
      × (s.totals ≡ r.totals)
      × (get_supply s at ≡ none → get_supply r at ≡ none)
unfolding decrease_supply
decrease_supply-takes r s canonical amount at e =
    let old = supply_or_empty r canonical in
    let new = redeemed old (old.total_burned + amount) (old.active_supply - amount) in
    let left : put_supply r canonical new ≡ s = ground (arith, e) in
    let enough : amount ≤ old.active_supply = ground (arith, e) in
    (
      ground (arith, left, enough, supply-put r canonical at new),
      ground (arith, left, supply-put r canonical at new),
      ground (arith, e),
      ground (arith, e),
      λ m. ground (arith, left, m, lookup-insert canonical at new r.supplies),
    )

-- The records that are made where there are none hold nothing.
pub init_position-keeps :
    (r : Reserves) (external canonical at : ℕ)
    → (free_of (init_position r external canonical) at ≡ free_of r at)
      × (backing_of (init_position r external canonical) at ≡ backing_of r at)
      × ((init_position r external canonical).supplies ≡ r.supplies)
      × ((init_position r external canonical).totals ≡ r.totals)
unfolding init_position
init_position-keeps r external canonical at =
    let p = empty_position external canonical in
    elim (Option-cases (get_position r external)) [
      | inl m ↦ ground (
        arith,
        m,
        free_of-put r external canonical at p,
        backing_of-put r external canonical at p,
      )
      | inr (q, m) ↦ rw m (refl, refl, refl, refl)
    ]
