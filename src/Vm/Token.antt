-- ===== src/Vm/Token.antt =====
-- ace-n-vm/src/token_runtime.rs: mints, balances and allowances, as the storage slots of the token
-- program. A slot never written reads 0; the hash of a slot's key is taken to tell keys apart, and the
-- map of EVM addresses to mints is left out.
pub mod Balances
pub mod Supply
pub mod Effects
mod Tests
use ace_chain.Common.{
  ℕ, ◌+◌, ◌-◌, Bool, not, ◌&&◌, Option, none, some, [], ◌==◌, ltb, if◌then◌else◌, u64_max,
}
use ace_chain.Common.Assoc.{Map, or_zero, or_zeros, lookup, insert}

pub record Tokens : Type 0 where
  pub mints : Map (ℕ × ℕ)
  pub authorities : Map ℕ
  pub balances : Map (Map ℕ)
  pub allowances : ℕ → ℕ → ℕ → ℕ

pub data TokenError : Type 0 where
  mint_exists_already no_mint no_authority supply_overflow balance_overflow : TokenError
  insufficient_tokens recipient_overflow allowance_low : TokenError

-- `Result` with the state that is left: an error does not undo what was written before it.
pub data TokenResult : Type 0 where
  done : Tokens → TokenResult
  refused : TokenError → Tokens → TokenResult

-- The mint's slot holds the supply and the decimals.
abbrev pub mint_value : Tokens → ℕ → ℕ × ℕ
mint_value t mint = or_zeros (lookup mint t.mints)

-- A slot of zeros is a mint that does not exist.
abbrev pub mint_exists : Tokens → ℕ → Bool
mint_exists t mint = not ((mint_value t mint).0 == 0 && (mint_value t mint).1 == 0)

abbrev pub or_empty : Option (Map ℕ) → Map ℕ
or_empty none = []
or_empty (some m) = m

-- The balances of a mint, by owner.
abbrev pub accounts : Tokens → ℕ → Map ℕ
accounts t mint = or_empty (lookup mint t.balances)

abbrev pub balance_of : Tokens → ℕ → ℕ → ℕ
balance_of t mint owner = or_zero (lookup owner (accounts t mint))

unfoldable pub set_balance : Tokens → ℕ → ℕ → ℕ → Tokens
set_balance t mint owner amount = record t {
  balances = insert mint (insert owner amount (accounts t mint)) t.balances;
}

unfoldable pub create_mint : Tokens → ℕ → ℕ → ℕ → TokenResult
create_mint t mint decimals authority =
    if mint_exists t mint
    then refused mint_exists_already t
    else done (record t {
      mints = insert mint (0, decimals) t.mints;
      authorities = insert mint authority t.authorities;
    })

unfoldable pub mint_to_owner : Tokens → ℕ → ℕ → ℕ → ℕ → TokenResult
unfolding set_balance
mint_to_owner t mint owner amount caller =
    let (supply, decimals) = mint_value t mint in
    let minted = record t { mints = insert mint (supply + amount, decimals) t.mints } in
    if amount == 0
    then done t
    else if not (mint_exists t mint)
    then refused no_mint t
    else if not (caller == or_zero (lookup mint t.authorities))
    then refused no_authority t
    else if ltb u64_max (supply + amount)
    then refused supply_overflow t
    else if ltb u64_max (balance_of t mint owner + amount)
    then refused balance_overflow minted
    else done (set_balance minted mint owner (balance_of t mint owner + amount))

-- A transfer to oneself only checks the balance.
unfoldable pub transfer_between_owners : Tokens → ℕ → ℕ → ℕ → ℕ → TokenResult
unfolding set_balance
transfer_between_owners t mint from to amount =
    if amount == 0
    then done t
    else if not (mint_exists t mint)
    then refused no_mint t
    else if ltb (balance_of t mint from) amount
    then refused insufficient_tokens t
    else if from == to
    then done t
    else if ltb u64_max (balance_of t mint to + amount)
    then refused recipient_overflow t
    else done (
        set_balance (set_balance t mint from (balance_of t mint from - amount)) mint to
          (balance_of t mint to + amount))

abbrev pub allowance_of : Tokens → ℕ → ℕ → ℕ → ℕ
allowance_of t mint owner spender = t.allowances mint owner spender

unfoldable pub set_allowance : Tokens → ℕ → ℕ → ℕ → ℕ → TokenResult
set_allowance t mint owner spender amount =
    if not (mint_exists t mint)
    then refused no_mint t
    else done (record t {
      allowances =
          λ m o s. if m == mint && (o == owner && s == spender) then amount else t.allowances m o s;
    })

unfoldable pub allow_after : ℕ → ℕ → ℕ → ℕ → TokenResult → TokenResult
unfolding set_allowance
allow_after mint owner spender amount (done t) = set_allowance t mint owner spender amount
allow_after mint owner spender amount (refused e t) = refused e t

unfoldable pub transfer_from : Tokens → ℕ → ℕ → ℕ → ℕ → ℕ → TokenResult
unfolding transfer_between_owners allow_after
transfer_from t mint spender owner recipient amount =
    if ltb (allowance_of t mint owner spender) amount
    then refused allowance_low t
    else allow_after mint owner spender (allowance_of t mint owner spender - amount)
        (transfer_between_owners t mint owner recipient amount)
