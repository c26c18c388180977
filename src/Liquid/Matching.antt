-- ===== src/Liquid/Matching.antt =====
-- ace-liquid/src/clob.rs: a run of the matching loop.
use ace_chain.Common.{
  ℕ, zero, suc, ◌+◌, ◌<◌, ◌≡◌, ◌≢◌, inl, inr, refl, ap, sym, ◌∙◌, not, ◌&&◌, List, [], ◌∷◌, arith,
  sum_of, All,
}
use ace_chain.Liquid.Types.{
  Order, Trade, is_limit, LiquidResult, ok, out_of_fuel, >>=-eq-ok, ok_elim, >>=-eq-out_of_fuel,
  ◌>>=◌,
}
use ace_chain.Liquid.Book.{PriceLadder, Book}
use ace_chain.Liquid.Invariant.{IsValid}
use ace_chain.Liquid.Match.{
  price_crosses, Taking, finished, against, Fill, Matched, next_maker, reduce_taker, fill_maker,
  match_taker,
}
use ace_chain.Liquid.Fills.{next_maker-IsMaker, next_maker-total}
use ace_chain.Liquid.Filling.{IsTrade, Keeps, IsFill, fill_maker-IsFill, fill_maker-total}

same_trades :
    (taker : Order) (left : Order) (ts : List Trade) (quantity : ℕ)
    → left ≡ reduce_taker taker quantity
    → All (λ t. IsTrade left t) ts
    → All (λ t. IsTrade taker t) ts
same_trades taker left [] quantity e all = tt
same_trades taker left (t ∷ ts) quantity e (first, rest) = (
  record {
    moves = first.moves;
    priced = first.priced;
    crosses =
        ap (λ o. is_limit o.order_type && not (price_crosses o t.price)) (sym e) ∙ first.crosses;
    others = first.others;
    taken = (first.taken.0 ∙ ap (λ o. o.order_id) e, first.taken.1 ∙ ap (λ o. o.owner) e);
  },
  same_trades taker left ts quantity e rest,
)

abbrev with_remainder : Order → ℕ → Order
with_remainder o n = record o { remaining_quantity = n }

ok-out_of_fuel : {A : Type 0} (x : A) → ok x ≢ out_of_fuel
ok-out_of_fuel x e = cc e

module _ {L : PriceLadder} where
  -- What a run of the loop returns: the funds are kept, the trades are what the taker lost, and the
  -- last round found nothing more to fill.
  pub record IsMatched (b : Book L) (taker : Order) (m : Matched L) : Type 0 where
    pub keeps : Keeps b m.book
    pub same : m.taker ≡ record taker { remaining_quantity = m.taker.remaining_quantity }
    pub filled_sum :
        m.taker.remaining_quantity + sum_of (λ t. t.quantity) m.trades ≡ taker.remaining_quantity
    pub trades_ok : All (λ t. IsTrade taker t) m.trades
    pub ended : next_maker m.book m.taker ≡ ok (finished m.blocked)

  refl_Keeps : (b : Book L) → IsValid b → Keeps b b
  refl_Keeps b v = record {
    valid = v;
    conserved = λ at. refl;
    counter = refl;
    same_market = refl;
    fresh = λ x e. e;
  }

  trans_Keeps : (b c d : Book L) → Keeps b c → Keeps c d → Keeps b d
  trans_Keeps b c d p q = record {
    valid = q.valid;
    conserved = λ at. q.conserved at ∙ p.conserved at;
    counter = q.counter ∙ p.counter;
    same_market = q.same_market ∙ p.same_market;
    fresh = λ x e. q.fresh x (p.fresh x e);
  }

  joined :
      (b : Book L) (taker : Order) (f : Fill L) (r : Matched L)
      → IsFill b taker f
      → IsMatched f.book f.taker r
      → IsMatched b taker (record r { trades = f.trade ∷ r.trades })
  joined b taker f r w u = record {
    keeps = trans_Keeps b f.book r.book (w.keeps) (u.keeps);
    same = u.same ∙ ap (λ o. with_remainder o r.taker.remaining_quantity) (w.reduced);
    filled_sum = omega (arith, u.filled_sum, w.bounded, ap (λ o. o.remaining_quantity) (w.reduced));
    trades_ok =
        (w.trade_ok, same_trades taker f.taker r.trades f.trade.quantity (w.reduced) (u.trades_ok));
    ended = u.ended;
  }

  step_matched :
      (n : ℕ) (b : Book L) (taker : Order) (m : Matched L) (found : Taking)
      → IsValid b
      → ((f : Fill L) (r : Matched L)
          → IsValid f.book
          → match_taker n f.book f.taker ≡ ok r
          → IsMatched f.book f.taker r)
      → next_maker b taker ≡ ok found
      → elim found as (λ _. LiquidResult (Matched L)) [
        | finished blocked ↦ ok (record { book = b; taker = taker; trades = []; blocked = blocked })
        | against maker ↦ do
          f ← fill_maker b taker maker
          m ← match_taker n f.book f.taker
          ok (record m { trades = f.trade ∷ m.trades })
      ]
        ≡ ok m
      → IsMatched b taker m
  step_matched n b taker m (finished blocked) v ih p e =
      ok_elim (λ m. IsMatched b taker m) _ m e
        (record {
          keeps = refl_Keeps b v;
          same = refl;
          filled_sum = omega arith;
          trades_ok = tt;
          ended = p;
        })
  step_matched n b taker m (against maker) v ih p e =
      let (f, filled, e2) = >>=-eq-ok (fill_maker b taker maker) _ e in
      let (r, rest, e3) = >>=-eq-ok (match_taker n f.book f.taker) _ e2 in
      let w = fill_maker-IsFill b taker maker f v (next_maker-IsMaker b taker maker v p) filled in
      ok_elim (λ m. IsMatched b taker m) _ m e3 (joined b taker f r w (ih f r (w.keeps.valid) rest))

  -- A run of the loop on a valid book that returns keeps the funds of each asset, and makes trades of
  -- what the taker's remainder lost, until a round finds nothing more to fill.
  pub match_taker-IsMatched :
      (n : ℕ) (b : Book L) (taker : Order) (m : Matched L)
      → IsValid b
      → match_taker n b taker ≡ ok m
      → IsMatched b taker m
  unfolding match_taker
  match_taker-IsMatched zero b taker m v e = cc
  match_taker-IsMatched (suc n) b taker m v e =
      let (found, first, e2) = >>=-eq-ok (next_maker b taker) _ e in
      step_matched n b taker m found v (λ f r. match_taker-IsMatched n f.book f.taker r) first e2

  step_total :
      (n : ℕ) (b : Book L) (taker : Order)
      → IsValid b
      → ((f : Fill L)
          → IsValid f.book
          → f.taker.remaining_quantity < taker.remaining_quantity
          → match_taker n f.book f.taker ≢ out_of_fuel)
      → match_taker (suc n) b taker ≢ out_of_fuel
  unfolding match_taker
  step_total n b taker v ih e = elim (>>=-eq-out_of_fuel (next_maker b taker) _ e) [
    | inl stuck ↦ next_maker-total b taker stuck
    | inr (found, first, e2) ↦ go found first e2
  ]
    where
      go :
          (found : Taking)
          → next_maker b taker ≡ ok found
          → elim found as (λ _. LiquidResult (Matched L)) [
            | finished blocked ↦
                ok (record { book = b; taker = taker; trades = []; blocked = blocked })
            | against maker ↦ do
              f ← fill_maker b taker maker
              m ← match_taker n f.book f.taker
              ok (record m { trades = f.trade ∷ m.trades })
          ]
            ≡ out_of_fuel
          → ⊥
      go (finished blocked) p e = cc
      go (against maker) p e = elim (>>=-eq-out_of_fuel (fill_maker b taker maker) _ e) [
        | inl stuck ↦ fill_maker-total b taker maker stuck
        | inr (f, filled, e2) ↦ elim (>>=-eq-out_of_fuel (match_taker n f.book f.taker) _ e2) [
          | inl stuck ↦
              (let w =
                  fill_maker-IsFill b taker maker f v (next_maker-IsMaker b taker maker v p)
                    filled in
                ih f (w.keeps.valid)
                  (omega (
                    arith,
                    w.trade_ok.moves,
                    w.bounded,
                    ap (λ o. o.remaining_quantity) (w.reduced),
                  ))
                  stuck)
          | inr (r, rest, e3) ↦ ok-out_of_fuel _ e3
        ]
      ]

  -- With more rounds than the taker's remainder the loop ends, on a valid book.
  pub match_taker-total :
      (n : ℕ) (b : Book L) (taker : Order)
      → IsValid b
      → taker.remaining_quantity < n
      → match_taker n b taker ≢ out_of_fuel
  unfolding match_taker
  match_taker-total zero b taker v q e = absurd (omega (arith, q))
  match_taker-total (suc n) b taker v q e =
      step_total n b taker v
        (λ f w below. match_taker-total n f.book f.taker w (omega (arith, below, q))) e
