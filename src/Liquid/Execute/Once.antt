-- ===== src/Liquid/Execute/Once.antt =====
-- ace-liquid/src/wire.rs: a transaction is executed once.
use ace_chain.Common.{
  ℕ, false, ==_refl, refl, sym, ◌≢◌, ◌⊎◌, inl, inr, Bool-cases, ◌+◌, ◌≡◌, ap, ◌∙◌, Option, none,
  some, List, ◌==◌, if◌then◌else◌, arith,
}
use ace_chain.Common.Assoc.{lookup, insert, lookup-insert}
use ace_chain.Liquid.Types.{ok, err, ◌>>=◌, ◌>>◌, guard, >>=-eq-ok, guard-eq-ok, nonce_mismatch}
use ace_chain.Liquid.Book.{PriceLadder}
use ace_chain.Liquid.Clob.{create_market, place_order, cancel_order}
use ace_chain.Liquid.Collateral.{deposit, withdraw}
use ace_chain.Liquid.Wire.{
  Request, create_request, place_request, cancel_request, deposit_request, withdraw_request,
  decode_payload,
}
use ace_chain.Liquid.Execute.{
  LiquidOutcome, Venue, book_of, open_at, open_account, count_nonce, consume_at, consume_nonce,
  execute_request, execute_liquid_tx,
}

itself : (n : ℕ) (a b : Option ℕ) → (if n == n then a else b) ≡ a
itself n a b = ap (λ k. if k then a else b) (==_refl n)

elsewhere : (sender at : ℕ) (a b : Option ℕ) → at ≢ sender → (if sender == at then a else b) ≡ b
elsewhere sender at a b n = ground arith

module _ {L : PriceLadder} where
  -- The nonce of the account `at` stays, or it is the account of a market and starts at 0.
  abbrev pub Kept : (ℕ → ℕ) → Venue L → Venue L → ℕ → Type 0
  Kept account v y at =
      (lookup at y.nonces ≡ lookup at v.nonces)
      ⊎ (lookup at v.nonces ≡ none) × (lookup at y.nonces ≡ some 0) × ((id : ℕ) × (account id ≡ at))

  open_account-Kept :
      (account : ℕ → ℕ) (v : Venue L) (id at : ℕ) → Kept account v (open_account v (account id)) at
  open_account-Kept account v id at = go (lookup (account id) v.nonces) refl
    where
      go :
          (o : Option ℕ)
          → lookup (account id) v.nonces ≡ o
          → Kept account v (open_at v (account id) o) at
      go (some n) e = inl refl
      go none e =
          let step = lookup-insert (account id) at 0 v.nonces in
          elim (Bool-cases (account id == at)) [
            | inl q ↦
                let same : account id ≡ at = ground (arith, q) in
                inr
                  (ap (λ k. lookup k v.nonces) (sym same) ∙ e, ground (arith, step, q), (id, same))
            | inr q ↦ inl (ground (arith, step, q))
          ]

  opened-Kept :
      (account : ℕ → ℕ) (v y : Venue L) (id at : ℕ)
      → y.nonces ≡ (open_account v (account id)).nonces
      → Kept account v y at
  opened-Kept account v y id at e =
      let same = ap (λ m. lookup at m) e in
      elim (open_account-Kept account v id at) [
        | inl k ↦ inl (same ∙ k)
        | inr (n, k, m) ↦ inr (n, same ∙ k, m)
      ]

  stays-Kept :
      (account : ℕ → ℕ) (v y : Venue L) (at : ℕ) → y.nonces ≡ v.nonces → Kept account v y at
  stays-Kept account v y at e = inl (ap (λ m. lookup at m) e)

  -- Only the books and the ledger are changed by a request, and the account of a new market is made.
  execute_request-Kept :
      (account : ℕ → ℕ) (derive : ℕ → ℕ → ℕ) (v y : Venue L) (sender : ℕ) (r : Request)
      (out : LiquidOutcome) (at : ℕ)
      → execute_request account derive v sender r ≡ ok (out, y)
      → Kept account v y at
  unfolding execute_request
  execute_request-Kept account derive v y sender (create_request m) out at e =
      let (_, _, e1) = >>=-eq-ok (create_market derive (book_of v m.market_id) m) _ e in
      opened-Kept account v y m.market_id at (ground (arith, e1))
  execute_request-Kept account derive v y sender (place_request id o) out at e =
      let (_, _, e1) = >>=-eq-ok (place_order (book_of v id) o) _ e in
      stays-Kept account v y at (ground (arith, e1))
  execute_request-Kept account derive v y sender (cancel_request id order) out at e =
      let (_, _, e1) = >>=-eq-ok (cancel_order (book_of v id) sender order) _ e in
      stays-Kept account v y at (ground (arith, e1))
  execute_request-Kept account derive v y sender (deposit_request id asset amount) out at e =
      let (_, _, e1) =
        >>=-eq-ok (deposit (account id) v.tokens (book_of v id) sender asset amount) _ e in
      stays-Kept account v y at (ground (arith, e1))
  execute_request-Kept account derive v y sender (withdraw_request id asset amount) out at e =
      let (_, _, e1) =
        >>=-eq-ok (withdraw (account id) v.tokens (book_of v id) sender asset amount) _ e in
      stays-Kept account v y at (ground (arith, e1))

  consume_at-counts :
      (v w : Venue L) (sender nonce n : ℕ)
      → consume_at v sender nonce (some n) ≡ ok w
      → (n ≡ nonce) × (w.nonces ≡ insert sender (nonce + 1) v.nonces)
  unfolding consume_at
  consume_at-counts v w sender nonce n e =
      let (_, g, e1) = >>=-eq-ok (guard (n == nonce) (nonce_mismatch n nonce)) _ e in
      let same : n ≡ nonce = ground (arith, guard-eq-ok (n == nonce) (nonce_mismatch n nonce) g) in
      let left : w.nonces ≡ insert sender (n + 1) v.nonces = ground (arith, e1) in
      (same, left ∙ ap (λ k. insert sender (k + 1) v.nonces) same)

  consume_nonce-counts :
      (v w : Venue L) (sender nonce : ℕ)
      → consume_nonce v sender nonce ≡ ok w
      → (lookup sender v.nonces ≡ some nonce) × (w.nonces ≡ insert sender (nonce + 1) v.nonces)
  unfolding consume_nonce consume_at
  consume_nonce-counts v w sender nonce e = go (lookup sender v.nonces) e
    where
      go :
          (o : Option ℕ)
          → consume_at v sender nonce o ≡ ok w
          → (o ≡ some nonce) × (w.nonces ≡ insert sender (nonce + 1) v.nonces)
      go none e = cc e
      go (some n) e =
          let (same, counted) = consume_at-counts v w sender nonce n e in (ap some same, counted)

  -- A nonce that is used is not used again.
  consume_at-refuses :
      (v : Venue L) (sender nonce : ℕ)
      → consume_at v sender nonce (some (nonce + 1)) ≡ err (nonce_mismatch (nonce + 1) nonce)
  unfolding consume_at
  consume_at-refuses v sender nonce =
      let other : (nonce + 1 == nonce) ≡ false = ground arith in
      ap (λ k. guard k (nonce_mismatch (nonce + 1) nonce) >> count_nonce v sender (nonce + 1)) other

  consume_nonce-refuses :
      (v : Venue L) (sender nonce : ℕ)
      → lookup sender v.nonces ≡ some (nonce + 1)
      → consume_nonce v sender nonce ≡ err (nonce_mismatch (nonce + 1) nonce)
  unfolding consume_nonce
  consume_nonce-refuses v sender nonce e =
      ap (λ o. consume_at v sender nonce o) e ∙ consume_at-refuses v sender nonce

  -- What an execution that succeeds leaves of the nonces.
  pub record IsExecuted (account : ℕ → ℕ) (derive : ℕ → ℕ → ℕ) (v : Venue L) (sender : ℕ)
      (payload : List ℕ) (y : Venue L) : Type 0 where
    pub nonce : ℕ
    pub current : lookup sender v.nonces ≡ some nonce
    pub counted : lookup sender y.nonces ≡ some (nonce + 1)
    pub others : (at : ℕ) → at ≢ sender → Kept account v y at
    pub replay_refused :
        execute_liquid_tx account derive y sender payload ≡ err (nonce_mismatch (nonce + 1) nonce)

  -- A transaction that is executed carried its sender's nonce, which is counted on while the nonces of the
  -- others stay, except that the account of a market that did not exist starts at 0, and the same payload of the same sender is then refused for its nonce.
  pub execute_liquid_tx-IsExecuted :
      (account : ℕ → ℕ) (derive : ℕ → ℕ → ℕ) (v y : Venue L) (sender : ℕ) (payload : List ℕ)
      (out : LiquidOutcome)
      → execute_liquid_tx account derive v sender payload ≡ ok (out, y)
      → IsExecuted account derive v sender payload y
  unfolding execute_liquid_tx
  execute_liquid_tx-IsExecuted account derive v y sender payload out e =
      let ((nonce, request), q, e1) = >>=-eq-ok (decode_payload derive sender payload) _ e in
      let (w, f, e2) = >>=-eq-ok (consume_nonce v sender nonce) _ e1 in
      let (current, counted) = consume_nonce-counts v w sender nonce f in
      let next =
        ap (λ k. lookup sender k) counted ∙ lookup-insert sender sender (nonce + 1) v.nonces in
      let known : lookup sender y.nonces ≡ some (nonce + 1) =
        elim (execute_request-Kept account derive w y sender request out sender e2) [
          | inl same ↦ same ∙ next ∙ itself sender (some (nonce + 1)) (lookup sender v.nonces)
          | inr (gone, _, _) ↦
              let there = next ∙ itself sender (some (nonce + 1)) (lookup sender v.nonces) in cc
        ] in
      record {
        nonce = nonce;
        current = current;
        counted = known;
        others = λ at n.
            let step =
              ap (λ k. lookup at k) counted ∙ lookup-insert sender at (nonce + 1) v.nonces in
            let before : lookup at w.nonces ≡ lookup at v.nonces =
              step ∙ elsewhere sender at _ _ n in
            elim (execute_request-Kept account derive w y sender request out at e2) [
              | inl same ↦ inl (same ∙ before)
              | inr (none_at, zero_at, m) ↦ inr (sym before ∙ none_at, zero_at, m)
            ];
        replay_refused =
            ap
              (λ k. k >>= λ d.
                consume_nonce y sender (d.0) >>= λ x. execute_request account derive x sender (d.1))
              q
            ∙ ap (λ k. k >>= λ x. execute_request account derive x sender request)
                (consume_nonce-refuses y sender nonce known);
      }
