-- ===== src/Vm/Token/Balances.antt =====
-- ace-n-vm/src/token_runtime.rs: the balances of a mint's owners.
use ace_chain.Common.{
  ℕ, ◌+◌, ◌-◌, ◌≤◌, ◌≡◌, ◌≢◌, refl, ap, ◌&&◌, Option, none, some, [], ◌∷◌, ◌==◌, if◌then◌else◌,
  u64_max, arith,
}
use ace_chain.Common.Assoc.{
  Map, or_zero, lookup, insert, lookup-insert, total_of, measured, total_of-insert,
}
use ace_chain.Vm.Token.{Tokens, mint_value, accounts, balance_of, set_balance}

-- The tokens of a mint that its owners hold together.
abbrev pub held : Tokens → ℕ → ℕ
held t mint = total_of (λ n. n) (accounts t mint)

-- The owners of each mint hold together its supply, and a supply fits its word.
pub record IsBacked (t : Tokens) : Type 0 where
  pub backed : (mint : ℕ) → held t mint ≡ (mint_value t mint).0
  pub bounded : (mint : ℕ) → (mint_value t mint).0 ≤ u64_max

pub accounts-set :
    (t : Tokens) (mint owner amount at : ℕ)
    → accounts (set_balance t mint owner amount) at
      ≡ (if mint == at then insert owner amount (accounts t mint) else accounts t at)
unfolding set_balance
accounts-set t mint owner amount at =
    ground (arith, lookup-insert mint at (insert owner amount (accounts t mint)) t.balances)

measured_number : (o : Option ℕ) → measured (λ n. n) o ≡ or_zero o
measured_number none = refl
measured_number (some n) = refl

-- A new balance in place of the old one.
pub held-set :
    (t : Tokens) (mint owner amount at : ℕ)
    → held (set_balance t mint owner amount) at
        + (if mint == at then balance_of t mint owner else 0)
      ≡ held t at + (if mint == at then amount else 0)
held-set t mint owner amount at =
    let new = accounts-set t mint owner amount at in
    ground (
      arith,
      ap (total_of (λ n. n)) new,
      total_of-insert (λ n. n) owner amount (accounts t mint),
      measured_number (lookup owner (accounts t mint)),
    )

pub balance-set :
    (t : Tokens) (mint owner amount at user : ℕ)
    → balance_of (set_balance t mint owner amount) at user
      ≡ (if mint == at && owner == user then amount else balance_of t at user)
balance-set t mint owner amount at user = ground (
  arith,
  ap (λ m. or_zero (lookup user m)) (accounts-set t mint owner amount at),
  lookup-insert owner user amount (accounts t mint),
)

-- No owner holds more than the supply.
at_most : (user : ℕ) (m : Map ℕ) → or_zero (lookup user m) ≤ total_of (λ n. n) m
unfolding lookup
at_most user [] = omega arith
at_most user ((i, n) ∷ m) = ground (arith, at_most user m)

pub balance-le-supply :
    (t : Tokens) (mint user : ℕ) → IsBacked t → balance_of t mint user ≤ (mint_value t mint).0
balance-le-supply t mint user v = omega (arith, at_most user (accounts t mint), v.backed mint)

-- A supply and one of its balances grow by the same amount.
pub minted-IsBacked :
    (t : Tokens) (mint owner amount decimals : ℕ)
    → IsBacked t
    → (mint_value t mint).0 + amount ≤ u64_max
    → IsBacked (
        set_balance
          (record t { mints = insert mint ((mint_value t mint).0 + amount, decimals) t.mints })
          mint
          owner
          (balance_of t mint owner + amount))
unfolding set_balance
minted-IsBacked t mint owner amount decimals v fits =
    let t2 = record t { mints = insert mint ((mint_value t mint).0 + amount, decimals) t.mints } in
    record {
      backed = λ at. ground (
        arith,
        v.backed at,
        lookup-insert mint at ((mint_value t mint).0 + amount, decimals) t.mints,
        held-set t2 mint owner (balance_of t mint owner + amount) at,
      );
      bounded = λ at. ground (
        arith,
        fits,
        v.bounded at,
        lookup-insert mint at ((mint_value t mint).0 + amount, decimals) t.mints,
      );
    }

pub moved-IsBacked :
    (t : Tokens) (mint from to amount : ℕ)
    → IsBacked t
    → from ≢ to
    → amount ≤ balance_of t mint from
    → IsBacked (
        set_balance
          (set_balance t mint from (balance_of t mint from - amount))
          mint
          to
          (balance_of t mint to + amount))
unfolding set_balance
moved-IsBacked t mint from to amount v n q =
    let u = set_balance t mint from (balance_of t mint from - amount) in
    record {
      backed = λ at. ground (
        arith,
        n,
        q,
        v.backed at,
        held-set t mint from (balance_of t mint from - amount) at,
        held-set u mint to (balance_of t mint to + amount) at,
        balance-set t mint from (balance_of t mint from - amount) mint to,
      );
      bounded = v.bounded;
    }
