-- ===== src/Defi/Solvent.antt =====
-- ace-defi/src: the canonical assets that circulate are backed by the reserves.
pub mod Depositing
pub mod Withdrawing
pub mod Completing
pub mod Records
pub mod Registering
pub mod Run
use ace_chain.Common.{
  ap, sym, ◌∙◌, ◌==◌, if◌then◌else◌, ℕ, ◌+◌, ◌≡◌, ◌≢◌, ◌≤◌, refl, Option, none, some, [], ◌∷◌,
  u64_max, leb, arith,
}
use ace_chain.Common.Assoc.{Map, lookup, total_of}
use ace_chain.Common.Results.{Result, ok, err}
use ace_chain.Vm.Token.{Tokens, mint_value, balance_of}
use ace_chain.Defi.Types.{
  BridgeError, ReservePosition, CanonicalSupply, reserve_invariant_violation,
}
use ace_chain.Defi.Reserve.{
  Reserves, supply_or_empty, active_supply, get_supply, reserve_total, check_invariant,
}
use ace_chain.Defi.Reserve.Sums.{backing, free, backing_of, free_of}
use ace_chain.Defi.Reserve.Effects.{of_asset}
use ace_chain.Defi.Reserve.Reconciled.{IsReconciled}
use ace_chain.Defi.Canonical.{Bridge, Hashes, CanonicalAsset, get_canonical_asset}

-- For every canonical asset, what is active is what its positions have available; an asset without a
-- supply has no reserves.
pub record IsMatched (r : Reserves) : Type 0 where
  pub reconciled : IsReconciled r
  pub matched : (canonical : ℕ) → free_of r canonical ≡ active_supply r canonical
  pub unbuffered : (canonical : ℕ) → (supply_or_empty r canonical).safety_buffer ≡ 0
  pub fresh : (canonical : ℕ) → get_supply r canonical ≡ none → reserve_total r canonical ≡ 0

-- The tokens of a canonical asset outside the bridge's own account, which are those not yet burned, are
-- active.
pub record IsSolvent (h : Hashes) (b : Bridge) : Type 0 where
  pub reserves_match : IsMatched b.reserves
  pub circulating :
      (canonical : ℕ)
      → (mint_value b.tokens (h.oasset_mint_id canonical)).0
        ≤ active_supply b.reserves canonical
          + balance_of b.tokens (h.oasset_mint_id canonical) h.bridge_authority_id
  pub named :
      (canonical : ℕ) (asset : CanonicalAsset)
      → get_canonical_asset b canonical ≡ some asset
      → asset.mint ≡ h.oasset_mint_id canonical

-- Distinct canonical assets have distinct mints.
abbrev pub IsDistinct : Hashes → Type 0
IsDistinct h = (a b : ℕ) → h.oasset_mint_id a ≡ h.oasset_mint_id b → a ≡ b

-- What a canonical asset's positions have available is part of what they hold.
pub free-le-backing : (r : Reserves) (canonical : ℕ) → free_of r canonical ≤ backing_of r canonical
free-le-backing r canonical = sums r.positions
  where
    sums :
        (ps : Map ReservePosition) → total_of (free canonical) ps ≤ total_of (backing canonical) ps
    sums [] = omega arith
    sums ((_, p) ∷ ps) = ground (arith, sums ps)

pub active-le-reserves :
    (r : Reserves) (canonical : ℕ)
    → IsMatched r
    → active_supply r canonical ≤ reserve_total r canonical
active-le-reserves r canonical v =
    omega (arith, v.matched canonical, v.reconciled.backed canonical, free-le-backing r canonical)

-- So the check of the invariant after every call does not find it broken.
pub check_invariant-holds :
    (r : Reserves) (canonical : ℕ)
    → IsMatched r
    → check_invariant r canonical ≢ err reserve_invariant_violation
unfolding check_invariant
check_invariant-holds r canonical v =
    ground (arith, active-le-reserves r canonical v, v.unbuffered canonical)

-- An amount of a mint belongs to the asset that the mint is made for.
pub of_mint :
    (h : Hashes) (canonical amount at : ℕ)
    → IsDistinct h
    → (if h.oasset_mint_id canonical == h.oasset_mint_id at then amount else 0)
      ≡ of_asset canonical amount at
of_mint h canonical amount at d =
    let alike : canonical ≡ at → h.oasset_mint_id canonical ≡ h.oasset_mint_id at =
      λ p. ap h.oasset_mint_id p in
    ground (arith, d canonical at, alike)

-- A bridge of the same assets whose reserves match and whose tokens are active.
pub IsSolvent-with :
    (h : Hashes) (b c : Bridge) (s : Reserves) (t : Tokens)
    → IsSolvent h b
    → c.reserves ≡ s
    → c.tokens ≡ t
    → c.assets ≡ b.assets
    → IsMatched s
    → ((at : ℕ)
        → (mint_value t (h.oasset_mint_id at)).0
          ≤ active_supply s at + balance_of t (h.oasset_mint_id at) h.bridge_authority_id)
    → IsSolvent h c
IsSolvent-with h b c s t v reserves tokens assets m circulating = record {
  reserves_match = rw reserves m;
  circulating = λ at. rw (reserves, tokens) (circulating at);
  named = λ at x e. v.named at x (ap (λ k. lookup at k) (sym assets) ∙ e);
}
