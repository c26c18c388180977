-- ===== src/Defi/Reserve.antt =====
-- ace-defi/src/reserve.rs: the accounting of reserves behind canonical assets. The storage slots of the
-- records are maps; a hash of a domain and a key is taken to tell keys apart, and reading a record back
-- to give what was written; what the mark of a deposit does to such a slot is in Deposit. What an
-- operation writes before it fails is left out: its callers roll back.
pub mod Sums
pub mod Reconciled
pub mod Effects
use ace_chain.Common.{ℕ, ◌+◌, ◌-◌, not, Option, none, some, ◌==◌, ltb, leb, if◌then◌else◌}
use ace_chain.Common.Assoc.{Map, lookup, insert}
use ace_chain.Common.Results.{Result, ok, err, ◌>>=◌, ◌>>◌, guard, ok_or, checked_add}
use ace_chain.Defi.Types.{
  BridgeError, invalid_amount, arithmetic_overflow, mapping_mismatch, asset_not_mapped,
  canonical_asset_not_found, insufficient_reserve, insufficient_balance,
  reserve_invariant_violation, ReservePosition, CanonicalSupply, CanonicalReserveTotal,
}

pub record Reserves : Type 0 where
  pub positions : Map ReservePosition
  pub supplies : Map CanonicalSupply
  pub totals : Map CanonicalReserveTotal

abbrev pub empty_position : ℕ → ℕ → ReservePosition
empty_position external_asset canonical_asset = record {
  external_asset = external_asset;
  canonical_asset = canonical_asset;
  total_deposited = 0;
  total_withdrawn = 0;
  pending_withdrawal = 0;
  available = 0;
  last_updated_slot = 0;
}

abbrev pub empty_supply : ℕ → CanonicalSupply
empty_supply canonical_asset = record {
  canonical_asset = canonical_asset;
  total_minted = 0;
  total_burned = 0;
  active_supply = 0;
  safety_buffer = 0;
}

abbrev pub empty_total : ℕ → CanonicalReserveTotal
empty_total canonical_asset = record { canonical_asset = canonical_asset; backing_total = 0 }

abbrev pub unwrap_or {ℓ} : {A : Type ℓ} → Option A → A → A
unwrap_or none a = a
unwrap_or (some b) a = b

abbrev pub get_position : Reserves → ℕ → Option ReservePosition
get_position r external = lookup external r.positions

abbrev pub get_supply : Reserves → ℕ → Option CanonicalSupply
get_supply r canonical = lookup canonical r.supplies

abbrev pub get_reserve_total : Reserves → ℕ → Option CanonicalReserveTotal
get_reserve_total r canonical = lookup canonical r.totals

abbrev pub position_or_empty : Reserves → ℕ → ℕ → ReservePosition
position_or_empty r external canonical =
    unwrap_or (get_position r external) (empty_position external canonical)

abbrev pub supply_or_empty : Reserves → ℕ → CanonicalSupply
supply_or_empty r canonical = unwrap_or (get_supply r canonical) (empty_supply canonical)

abbrev pub total_or_empty : Reserves → ℕ → CanonicalReserveTotal
total_or_empty r canonical = unwrap_or (get_reserve_total r canonical) (empty_total canonical)

abbrev pub active_supply : Reserves → ℕ → ℕ
active_supply r canonical = (supply_or_empty r canonical).active_supply

abbrev pub reserve_total : Reserves → ℕ → ℕ
reserve_total r canonical = (total_or_empty r canonical).backing_total

abbrev pub put_position : Reserves → ℕ → ReservePosition → Reserves
put_position r external p = record r { positions = insert external p r.positions }

abbrev pub put_supply : Reserves → ℕ → CanonicalSupply → Reserves
put_supply r canonical s = record r { supplies = insert canonical s r.supplies }

abbrev pub put_total : Reserves → ℕ → CanonicalReserveTotal → Reserves
put_total r canonical t = record r { totals = insert canonical t r.totals }

abbrev present_or {ℓ} : {A : Type ℓ} → Option A → Reserves → Reserves → Reserves
present_or none r made = made
present_or (some _) r made = r

unfoldable pub init_position : Reserves → ℕ → ℕ → Reserves
init_position r external canonical =
    present_or (get_position r external) r
      (put_position r external (empty_position external canonical))

unfoldable pub init_supply : Reserves → ℕ → Reserves
init_supply r canonical =
    present_or (get_supply r canonical) r (
      put_total (put_supply r canonical (empty_supply canonical)) canonical (empty_total canonical))

abbrev pub set_backing : CanonicalReserveTotal → ℕ → CanonicalReserveTotal
set_backing t backing = record t { backing_total = backing }

unfoldable pub increase_reserve_total : Reserves → ℕ → ℕ → Result BridgeError Reserves
increase_reserve_total r canonical amount = do
  backing ← checked_add arithmetic_overflow (reserve_total r canonical) amount
  ok (put_total r canonical (set_backing (total_or_empty r canonical) backing))

unfoldable pub decrease_reserve_total : Reserves → ℕ → ℕ → Result BridgeError Reserves
decrease_reserve_total r canonical amount = do
  total ← ok_or (get_reserve_total r canonical) (canonical_asset_not_found canonical)
  guard (leb amount total.backing_total) (insufficient_reserve total.backing_total amount)
  ok (put_total r canonical (set_backing total (total.backing_total - amount)))

-- A position after amounts are added to what was deposited and to what is available.
abbrev pub deposited : ReservePosition → ℕ → ℕ → ℕ → ReservePosition
deposited p total available slot = record p {
  total_deposited = total;
  available = available;
  last_updated_slot = slot;
}

unfoldable pub record_deposit : Reserves → ℕ → ℕ → ℕ → ℕ → Result BridgeError Reserves
unfolding increase_reserve_total
record_deposit r external canonical amount slot =
    let position = position_or_empty r external canonical in
    do
      guard (not (amount == 0)) invalid_amount
      guard (position.canonical_asset == canonical) mapping_mismatch
      total ← checked_add arithmetic_overflow position.total_deposited amount
      free ← checked_add arithmetic_overflow position.available amount
      increase_reserve_total (put_position r external (deposited position total free slot))
          canonical amount

abbrev pub moved : ReservePosition → ℕ → ℕ → ℕ → ReservePosition
moved p available pending slot = record p {
  available = available;
  pending_withdrawal = pending;
  last_updated_slot = slot;
}

unfoldable pub reserve_withdrawal : Reserves → ℕ → ℕ → ℕ → ℕ → Result BridgeError Reserves
reserve_withdrawal r external canonical amount slot = do
  guard (not (amount == 0)) invalid_amount
  position ← ok_or (get_position r external) (asset_not_mapped external)
  guard (position.canonical_asset == canonical) mapping_mismatch
  guard (leb amount position.available) (insufficient_reserve position.available amount)
  pending ← checked_add arithmetic_overflow position.pending_withdrawal amount
  ok (put_position r external (moved position (position.available - amount) pending slot))

abbrev pub withdrawn : ReservePosition → ℕ → ℕ → ℕ → ReservePosition
withdrawn p pending total slot = record p {
  pending_withdrawal = pending;
  total_withdrawn = total;
  last_updated_slot = slot;
}

unfoldable pub finalize_withdrawal : Reserves → ℕ → ℕ → ℕ → Result BridgeError Reserves
unfolding decrease_reserve_total
finalize_withdrawal r external amount slot = do
  position ← ok_or (get_position r external) (asset_not_mapped external)
  guard (leb amount position.pending_withdrawal)
      (insufficient_reserve position.pending_withdrawal amount)
  total ← checked_add arithmetic_overflow position.total_withdrawn amount
  decrease_reserve_total
      (put_position r external
        (withdrawn position (position.pending_withdrawal - amount) total slot))
      position.canonical_asset amount

unfoldable pub cancel_withdrawal : Reserves → ℕ → ℕ → ℕ → Result BridgeError Reserves
cancel_withdrawal r external amount slot = do
  position ← ok_or (get_position r external) (asset_not_mapped external)
  guard (leb amount position.pending_withdrawal)
      (insufficient_reserve position.pending_withdrawal amount)
  free ← checked_add arithmetic_overflow position.available amount
  ok (put_position r external (moved position free (position.pending_withdrawal - amount) slot))

abbrev pub issued : CanonicalSupply → ℕ → ℕ → CanonicalSupply
issued s minted active = record s { total_minted = minted; active_supply = active }

unfoldable pub increase_supply : Reserves → ℕ → ℕ → Result BridgeError Reserves
increase_supply r canonical amount =
    let supply = supply_or_empty r canonical in
    do
      minted ← checked_add arithmetic_overflow supply.total_minted amount
      active ← checked_add arithmetic_overflow supply.active_supply amount
      ok (put_supply r canonical (issued supply minted active))

abbrev pub redeemed : CanonicalSupply → ℕ → ℕ → CanonicalSupply
redeemed s burned active = record s { total_burned = burned; active_supply = active }

unfoldable pub decrease_supply : Reserves → ℕ → ℕ → Result BridgeError Reserves
decrease_supply r canonical amount = do
  supply ← ok_or (get_supply r canonical) (canonical_asset_not_found canonical)
  guard (leb amount supply.active_supply) (insufficient_balance supply.active_supply amount)
  burned ← checked_add arithmetic_overflow supply.total_burned amount
  ok (put_supply r canonical (redeemed supply burned (supply.active_supply - amount)))

unfoldable pub check_invariant : Reserves → ℕ → Result BridgeError (Unit {0})
check_invariant r canonical =
    let supply = supply_or_empty r canonical in
    do
      required ← checked_add arithmetic_overflow supply.active_supply supply.safety_buffer
      guard (leb required (reserve_total r canonical)) reserve_invariant_violation
