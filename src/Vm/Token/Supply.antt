-- ===== src/Vm/Token/Supply.antt =====
-- ace-n-vm/src/token_runtime.rs: balances against the supply of their mint.
use ace_chain.Common.{
  ℕ, ◌+◌, ◌-◌, ◌≡◌, ◌≢◌, refl, ap, sym, ◌∙◌, Bool, true, false, some, not, ◌&&◌, ◌==◌, ltb,
  if◌then◌else◌, u64_max, arith,
}
use ace_chain.Common.Assoc.{or_zero, or_zeros, lookup, insert, lookup-insert}
use ace_chain.Vm.Token.{
  Tokens, TokenResult, done, refused, mint_value, mint_exists, balance_of, set_balance, create_mint,
  mint_to_owner, transfer_between_owners, set_allowance, allow_after, transfer_from, allowance_of,
  insufficient_tokens, no_mint, mint_exists_already, no_authority, supply_overflow,
  balance_overflow, recipient_overflow, allowance_low,
}
use ace_chain.Vm.Token.Balances.{
  IsBacked, balance-set, balance-le-supply, minted-IsBacked, moved-IsBacked,
}

-- What is left of a call: valid, and the old state where it is refused.
abbrev pub Safe : Tokens → TokenResult → Type 0
Safe t (done u) = IsBacked u
Safe t (refused e u) = u ≡ t

create_mint-Safe :
    (t : Tokens) (mint decimals authority : ℕ)
    → IsBacked t
    → Safe t (create_mint t mint decimals authority)
unfolding create_mint
create_mint-Safe t mint decimals authority v = go (mint_exists t mint) refl
  where
    go :
        (exists_already : Bool)
        → mint_exists t mint ≡ exists_already
        → Safe t (
            if exists_already
            then refused mint_exists_already t
            else done (record t {
              mints = insert mint (0, decimals) t.mints;
              authorities = insert mint authority t.authorities;
            }))
    go true e = refl
    go false e = record {
      backed = λ at. ground (arith, v.backed at, e, lookup-insert mint at (0, decimals) t.mints);
      bounded = λ at. ground (arith, v.bounded at, lookup-insert mint at (0, decimals) t.mints);
    }

pub mint_to_owner-Safe :
    (t : Tokens) (mint owner amount caller : ℕ)
    → IsBacked t
    → Safe t (mint_to_owner t mint owner amount caller)
unfolding mint_to_owner
mint_to_owner-Safe t mint owner amount caller v =
    go (amount == 0) (mint_exists t mint) (caller == or_zero (lookup mint t.authorities))
      (ltb u64_max ((mint_value t mint).0 + amount)) refl
      (ltb u64_max (balance_of t mint owner + amount)) refl
  where
    go :
        (nothing exists allowed many : Bool)
        → ltb u64_max ((mint_value t mint).0 + amount) ≡ many
        → (much : Bool) → ltb u64_max (balance_of t mint owner + amount) ≡ much
        → Safe t (
            let minted = record t {
              mints = insert mint ((mint_value t mint).0 + amount, (mint_value t mint).1) t.mints;
            } in
            if nothing
            then done t
            else if not exists
            then refused no_mint t
            else if not allowed
            then refused no_authority t
            else if many
            then refused supply_overflow t
            else if much
            then refused balance_overflow minted
            else done (set_balance minted mint owner (balance_of t mint owner + amount)))
    go true _ _ _ _ _ _ = v
    go false false _ _ _ _ _ = refl
    go false true false _ _ _ _ = refl
    go false true true true _ _ _ = refl
    go false true true false s true m =
        absurd (ground (arith, s, m, balance-le-supply t mint owner v))
    go false true true false s false m =
        minted-IsBacked t mint owner amount (mint_value t mint).1 v (ground (arith, s))

pub transfer-Safe :
    (t : Tokens) (mint from to amount : ℕ)
    → IsBacked t
    → Safe t (transfer_between_owners t mint from to amount)
unfolding transfer_between_owners
transfer-Safe t mint from to amount v =
    go (amount == 0) (mint_exists t mint) (ltb (balance_of t mint from) amount) refl (from == to)
      refl (ltb u64_max (balance_of t mint to + amount))
  where
    go :
        (nothing exists little : Bool)
        → ltb (balance_of t mint from) amount ≡ little
        → (self : Bool) → (from == to) ≡ self
        → (much : Bool)
        → Safe t (
            if nothing
            then done t
            else if not exists
            then refused no_mint t
            else if little
            then refused insufficient_tokens t
            else if self
            then done t
            else if much
            then refused recipient_overflow t
            else done (
                set_balance
                  (set_balance t mint from (balance_of t mint from - amount))
                  mint
                  to
                  (balance_of t mint to + amount)))
    go true _ _ _ _ _ _ = v
    go false false _ _ _ _ _ = refl
    go false true true _ _ _ _ = refl
    go false true false _ true _ _ = v
    go false true false _ false _ true = refl
    go false true false l false s false =
        moved-IsBacked t mint from to amount v (ground (arith, s)) (ground (arith, l))

allowance-IsBacked :
    (t : Tokens) (allowances : ℕ → ℕ → ℕ → ℕ)
    → IsBacked t
    → IsBacked (record t { allowances = allowances })
allowance-IsBacked t allowances v = record { backed = v.backed; bounded = v.bounded }

-- A transfer on another's behalf with too small an allowance, or of a mint that does not exist, is
-- refused with nothing moved, as are all the others that are refused; the rest keep the balances backed.
allow_after-Safe :
    (t : Tokens) (mint owner spender amount : ℕ) (r : TokenResult)
    → Safe t r
    → ((u : Tokens) → r ≡ done u → mint_exists u mint ≡ mint_exists t mint)
    → (mint_exists t mint ≡ false → (u : Tokens) → r ≡ done u → u ≡ t)
    → Safe t (allow_after mint owner spender amount r)
unfolding allow_after set_allowance
allow_after-Safe t mint owner spender amount (refused e u) s f g = s
allow_after-Safe t mint owner spender amount (done u) s f g = go (mint_exists u mint) refl
  where
    go :
        (exists : Bool)
        → mint_exists u mint ≡ exists
        → Safe t (
            if not exists
            then refused no_mint u
            else done (record u {
              allowances = λ m o s.
                  if m == mint && (o == owner && s == spender) then amount else u.allowances m o s;
            }))
    go true e = allowance-IsBacked u _ s
    go false e = g (sym (f u refl) ∙ e) u refl

pub transfer-mints :
    (t u : Tokens) (mint from to amount : ℕ)
    → transfer_between_owners t mint from to amount ≡ done u
    → u.mints ≡ t.mints
unfolding transfer_between_owners set_balance
transfer-mints t u mint from to amount e = ground (arith, e)

-- A transfer to oneself changes nothing.
pub transfer_self :
    (t u : Tokens) (mint from to amount : ℕ)
    → from ≡ to
    → transfer_between_owners t mint from to amount ≡ done u
    → u ≡ t
unfolding transfer_between_owners
transfer_self t u mint from to amount s e = ground (arith, s, e)

transfer-absent :
    (t u : Tokens) (mint from to amount : ℕ)
    → mint_exists t mint ≡ false
    → transfer_between_owners t mint from to amount ≡ done u
    → u ≡ t
unfolding transfer_between_owners
transfer-absent t u mint from to amount x e = ground (arith, x, e)

pub transfer_from-Safe :
    (t : Tokens) (mint spender owner recipient amount : ℕ)
    → IsBacked t
    → Safe t (transfer_from t mint spender owner recipient amount)
unfolding transfer_from
transfer_from-Safe t mint spender owner recipient amount v =
    go (ltb (allowance_of t mint owner spender) amount)
  where
    go :
        (low : Bool)
        → Safe t (
            if low
            then refused allowance_low t
            else allow_after mint owner spender
                (allowance_of t mint owner spender - amount)
                (transfer_between_owners t mint owner recipient amount))
    go true = refl
    go false =
        allow_after-Safe t mint owner spender _
          (transfer_between_owners t mint owner recipient amount)
          (transfer-Safe t mint owner recipient amount v)
          (λ u e.
            ap (λ m. not ((or_zeros (lookup mint m)).0 == 0 && (or_zeros (lookup mint m)).1 == 0))
              (transfer-mints t u mint owner recipient amount e))
          (λ x u e. transfer-absent t u mint owner recipient amount x e)

-- From tokens whose balances add up to their mints' supplies, each operation that succeeds keeps them
-- so, and each that is refused leaves the state as it was.
pub tokens-Safe :
    (t : Tokens) (mint from to amount caller : ℕ)
    → IsBacked t
    → Safe t (create_mint t mint amount caller)
      × Safe t (mint_to_owner t mint to amount caller)
      × Safe t (transfer_between_owners t mint from to amount)
      × Safe t (transfer_from t mint caller from to amount)
tokens-Safe t mint from to amount caller v = (
  create_mint-Safe t mint amount caller v,
  mint_to_owner-Safe t mint to amount caller v,
  transfer-Safe t mint from to amount v,
  transfer_from-Safe t mint caller from to amount v,
)

-- A transfer between two owners that succeeds moves its amount from the one to the other, and changes
-- no other balance of any mint.
pub transfer-moves :
    (t u : Tokens) (mint from to amount at user : ℕ)
    → from ≢ to
    → transfer_between_owners t mint from to amount ≡ done u
    → balance_of u at user + (if mint == at && from == user then amount else 0)
      ≡ balance_of t at user + (if mint == at && to == user then amount else 0)
unfolding transfer_between_owners
transfer-moves t u mint from to amount at user n e =
    let mid = set_balance t mint from (balance_of t mint from - amount) in
    ground (
      arith,
      n,
      e,
      balance-set t mint from (balance_of t mint from - amount) at user,
      balance-set t mint from (balance_of t mint from - amount) mint to,
      balance-set mid mint to (balance_of t mint to + amount) at user,
    )

-- A mint that is created exists afterwards exactly when it has decimals: without them any amount but
-- zero is refused when it is minted and when it is transferred, and creating it again succeeds, with
-- any decimals, and makes the new authority its own.
pub create_mint-exists :
    (t u : Tokens) (mint decimals authority : ℕ)
    → create_mint t mint decimals authority ≡ done u
    → (mint_exists u mint ≡ not (decimals == 0))
      × ((owner amount caller : ℕ)
          → decimals ≡ 0
          → amount ≢ 0
          → mint_to_owner u mint owner amount caller ≡ refused no_mint u)
      × ((from to amount : ℕ)
          → decimals ≡ 0
          → amount ≢ 0
          → transfer_between_owners u mint from to amount ≡ refused no_mint u)
      × ((again other : ℕ)
          → decimals ≡ 0
          → (v : Tokens) × (create_mint u mint again other ≡ done v)
            × (lookup mint v.authorities ≡ some other))
unfolding create_mint mint_to_owner transfer_between_owners
create_mint-exists t u mint decimals authority e =
    let exists : mint_exists u mint ≡ not (decimals == 0) =
      ground (arith, e, lookup-insert mint mint (0, decimals) t.mints) in
    (
      exists,
      λ owner amount caller z n. ground (arith, exists, z, n),
      λ from to amount z n. ground (arith, exists, z, n),
      λ again other z. (
        record u {
          mints = insert mint (0, again) u.mints;
          authorities = insert mint other u.authorities;
        },
        ground (arith, exists, z),
        lookup-insert mint mint other u.authorities ∙ ground arith,
      ),
    )
