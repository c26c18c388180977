-- ===== src/Defi/Reserve/Sums.antt =====
-- ace-defi/src/reserve.rs: what the positions of a canonical asset hold together.
use ace_chain.Common.{ℕ, ◌+◌, ◌≡◌, refl, Option, none, some, ◌==◌, if◌then◌else◌, arith}
use ace_chain.Common.Assoc.{total_of, measured, total_of-insert, lookup-insert}
use ace_chain.Defi.Types.{ReservePosition, CanonicalSupply, CanonicalReserveTotal}
use ace_chain.Defi.Reserve.{
  Reserves, get_position, position_or_empty, supply_or_empty, reserve_total, put_position,
  put_supply, put_total, unwrap_or, empty_position,
}

-- What a position adds to the backing of a canonical asset, and the part that is not yet asked for.
abbrev pub backing : ℕ → ReservePosition → ℕ
backing canonical p =
    if p.canonical_asset == canonical then p.available + p.pending_withdrawal else 0

abbrev pub free : ℕ → ReservePosition → ℕ
free canonical p = if p.canonical_asset == canonical then p.available else 0

abbrev pub backing_of : Reserves → ℕ → ℕ
backing_of r canonical = total_of (backing canonical) r.positions

abbrev pub free_of : Reserves → ℕ → ℕ
free_of r canonical = total_of (free canonical) r.positions

measured-backing :
    (o : Option ReservePosition) (external canonical at : ℕ)
    → measured (backing at) o ≡ backing at (unwrap_or o (empty_position external canonical))
measured-backing none external canonical at = ground arith
measured-backing (some p) external canonical at = refl

measured-free :
    (o : Option ReservePosition) (external canonical at : ℕ)
    → measured (free at) o ≡ free at (unwrap_or o (empty_position external canonical))
measured-free none external canonical at = ground arith
measured-free (some p) external canonical at = refl

-- A position in place of the old one, or of an empty one.
pub backing_of-put :
    (r : Reserves) (external canonical at : ℕ) (p : ReservePosition)
    → backing_of (put_position r external p) at
        + backing at (position_or_empty r external canonical)
      ≡ backing_of r at + backing at p
backing_of-put r external canonical at p = omega (
  arith,
  total_of-insert (backing at) external p r.positions,
  measured-backing (get_position r external) external canonical at,
)

pub free_of-put :
    (r : Reserves) (external canonical at : ℕ) (p : ReservePosition)
    → free_of (put_position r external p) at + free at (position_or_empty r external canonical)
      ≡ free_of r at + free at p
free_of-put r external canonical at p = omega (
  arith,
  total_of-insert (free at) external p r.positions,
  measured-free (get_position r external) external canonical at,
)

-- What a new record of a map changes.
pub position-put :
    (r : Reserves) (external canonical at : ℕ) (p : ReservePosition)
    → position_or_empty (put_position r external p) at canonical
      ≡ (if external == at then p else position_or_empty r at canonical)
position-put r external canonical at p = ground (arith, lookup-insert external at p r.positions)

pub supply-put :
    (r : Reserves) (canonical at : ℕ) (s : CanonicalSupply)
    → supply_or_empty (put_supply r canonical s) at
      ≡ (if canonical == at then s else supply_or_empty r at)
supply-put r canonical at s = ground (arith, lookup-insert canonical at s r.supplies)

pub total-put :
    (r : Reserves) (canonical at : ℕ) (t : CanonicalReserveTotal)
    → reserve_total (put_total r canonical t) at
      ≡ (if canonical == at then t.backing_total else reserve_total r at)
total-put r canonical at t = ground (arith, lookup-insert canonical at t r.totals)
