-- ===== src/Defi/Solvent/Records.antt =====
-- ace-defi/src/reserve.rs: records that are made where there are none keep the reserves matched.
use ace_chain.Common.{ℕ, ◌≡◌, refl, none, Option-cases, inl, inr, arith}
use ace_chain.Common.Assoc.{lookup-insert}
use ace_chain.Defi.Reserve.{
  Reserves, get_supply, get_position, reserve_total, supply_or_empty, init_supply, init_position,
  put_supply, empty_supply, empty_total, empty_position,
}
use ace_chain.Defi.Reserve.Sums.{total-put, position-put}
use ace_chain.Defi.Reserve.Effects.{init_position-keeps}
use ace_chain.Defi.Solvent.{IsMatched}

-- A supply that is made where there is none.
pub init_supply-fresh :
    (r : Reserves) (canonical at : ℕ)
    → IsMatched r
    → ((supply_or_empty (init_supply r canonical) at).active_supply
        ≡ (supply_or_empty r at).active_supply)
      × ((supply_or_empty (init_supply r canonical) at).safety_buffer
          ≡ (supply_or_empty r at).safety_buffer)
      × (reserve_total (init_supply r canonical) at ≡ reserve_total r at)
      × ((supply_or_empty (init_supply r canonical) at).total_minted
          ≡ (supply_or_empty r at).total_minted)
      × ((supply_or_empty (init_supply r canonical) at).total_burned
          ≡ (supply_or_empty r at).total_burned)
      × ((init_supply r canonical).positions ≡ r.positions)
      × (get_supply (init_supply r canonical) at ≡ none → get_supply r at ≡ none)
unfolding init_supply
init_supply-fresh r canonical at v =
    let s = put_supply r canonical (empty_supply canonical) in
    elim (Option-cases (get_supply r canonical)) [
      | inl m ↦ ground (
        arith,
        m,
        v.fresh canonical m,
        lookup-insert canonical at (empty_supply canonical) r.supplies,
        total-put s canonical at (empty_total canonical),
      )
      | inr (q, m) ↦ rw m (refl, refl, refl, refl, refl, refl, λ e. e)
    ]

pub init_supply-IsMatched :
    (r : Reserves) (canonical : ℕ) → IsMatched r → IsMatched (init_supply r canonical)
init_supply-IsMatched r canonical v = record {
  reconciled = record {
    split = λ x c.
        let (_, _, _, _, _, same, _) = init_supply-fresh r canonical c v in
        grind (arith, v.reconciled.split x c, same);
    backed = λ c.
        let (_, _, total, _, _, same, _) = init_supply-fresh r canonical c v in
        grind (arith, v.reconciled.backed c, total, same);
    minted = λ c.
        let (active, _, _, minted, burned, _, _) = init_supply-fresh r canonical c v in
        grind (arith, v.reconciled.minted c, active, minted, burned);
  };
  matched = λ c.
      let (active, _, _, _, _, same, _) = init_supply-fresh r canonical c v in
      grind (arith, v.matched c, active, same);
  unbuffered = λ c.
      let (_, buffer, _, _, _, _, _) = init_supply-fresh r canonical c v in
      grind (arith, v.unbuffered c, buffer);
  fresh = λ c m.
      let (_, _, total, _, _, _, before) = init_supply-fresh r canonical c v in
      grind (arith, v.fresh c (before m), total);
}

pub init_position-IsMatched :
    (r : Reserves) (external canonical : ℕ)
    → IsMatched r
    → IsMatched (init_position r external canonical)
unfolding init_position
init_position-IsMatched r external canonical v =
    let p = empty_position external canonical in
    record {
      reconciled = record {
        split = λ x c. elim (Option-cases (get_position r external)) [
          | inl m ↦ ground (arith, m, v.reconciled.split x c, position-put r external c x p)
          | inr (q, m) ↦ rw m (v.reconciled.split x c)
        ];
        backed = λ c.
            let (_, backing, _, totals) = init_position-keeps r external canonical c in
            grind (arith, v.reconciled.backed c, backing, totals);
        minted = λ c.
            let (_, _, supplies, _) = init_position-keeps r external canonical c in
            grind (arith, v.reconciled.minted c, supplies);
      };
      matched = λ c.
          let (free, _, supplies, _) = init_position-keeps r external canonical c in
          grind (arith, v.matched c, free, supplies);
      unbuffered = λ c.
          let (_, _, supplies, _) = init_position-keeps r external canonical c in
          grind (arith, v.unbuffered c, supplies);
      fresh = λ c m.
          let (_, _, supplies, totals) = init_position-keeps r external canonical c in
          grind (arith, v.fresh c, m, supplies, totals);
    }
