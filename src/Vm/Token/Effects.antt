-- ===== src/Vm/Token/Effects.antt =====
-- ace-n-vm/src/token_runtime.rs: what a call that succeeds leaves of supplies and balances.
use ace_chain.Common.{
  ℕ, ◌+◌, ◌≡◌, ◌≢◌, ap, true, false, ◌≤◌, refl, Bool, ◌==◌, if◌then◌else◌, arith,
}
use ace_chain.Common.Assoc.{insert, lookup-insert}
use ace_chain.Vm.Token.{
  Tokens, done, mint_value, balance_of, create_mint, mint_to_owner, transfer_between_owners,
}
use ace_chain.Vm.Token.Balances.{balance-set}
use ace_chain.Vm.Token.Supply.{transfer-moves, transfer_self}

pub create_mint-supply :
    (t u : Tokens) (mint decimals authority at : ℕ)
    → create_mint t mint decimals authority ≡ done u
    → ((mint_value u at).0 ≡ (mint_value t at).0) × (u.balances ≡ t.balances)
unfolding create_mint
create_mint-supply t u mint decimals authority at e =
    ground (arith, e, lookup-insert mint at (0, decimals) t.mints)

pub mint_to_owner-supply :
    (t u : Tokens) (mint owner amount caller at user : ℕ)
    → mint_to_owner t mint owner amount caller ≡ done u
    → ((mint_value u at).0 ≡ (mint_value t at).0 + (if mint == at then amount else 0))
      × (balance_of t at user ≤ balance_of u at user)
unfolding mint_to_owner
mint_to_owner-supply t u mint owner amount caller at user e =
    let minted = record t {
      mints = insert mint ((mint_value t mint).0 + amount, (mint_value t mint).1) t.mints;
    } in
    ground (
      arith,
      e,
      lookup-insert mint at ((mint_value t mint).0 + amount, (mint_value t mint).1) t.mints,
      balance-set minted mint owner (balance_of t mint owner + amount) at user,
    )

-- A transfer takes nothing from any but its sender.
pub sent_keeps :
    (t u : Tokens) (mint from to amount at account : ℕ)
    → from ≢ account
    → transfer_between_owners t mint from to amount ≡ done u
    → balance_of t at account ≤ balance_of u at account
sent_keeps t u mint from to amount at account n e = go (from == to) refl
  where
    go : (self : Bool) → (from == to) ≡ self → balance_of t at account ≤ balance_of u at account
    go true s =
        let same : u ≡ t = transfer_self t u mint from to amount (ground (arith, s)) e in
        omega (arith, ap (λ t. balance_of t at account) same)
    go false s =
        ground (arith, n, transfer-moves t u mint from to amount at account (ground (arith, s)) e)
