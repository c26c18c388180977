-- ===== src/Vm/Token/Tests.antt =====
-- ace-n-vm/src/token_runtime.rs: runs of the token ledger.
use ace_chain.Common.{some, ℕ, ◌≡◌, ◌≢◌, refl, not, ◌==◌, if◌then◌else◌, [], ◌∷◌, arith}
use ace_chain.Common.Assoc.{lookup, insert}
use ace_chain.Vm.Token.{
  Tokens, refused, done, no_mint, mint_exists, create_mint, mint_to_owner, transfer_between_owners,
  transfer_from,
}
use ace_chain.Vm.Token.Balances.{IsBacked}
use ace_chain.Vm.Token.Supply.{Safe, tokens-Safe, create_mint-exists}

-- One mint, of six decimals and authority 9, whose supply of 30 two owners hold.
abbrev ledger : Tokens
ledger = record {
  mints = (5, (30, 6)) ∷ [];
  authorities = (5, 9) ∷ [];
  balances = (5, (1, 10) ∷ (2, 20) ∷ []) ∷ [];
  allowances = λ m o s. if o == 1 then 4 else 0;
}

-- A state without mints.
abbrev blank : Tokens
blank = record { mints = []; authorities = []; balances = []; allowances = λ m o s. 0 }

ledger-IsBacked : IsBacked ledger
unfolding lookup
ledger-IsBacked = record { backed = λ mint. ground arith; bounded = λ mint. ground arith }

tokens-Safe_example :
    Safe ledger (create_mint ledger 5 3 9)
    × Safe ledger (mint_to_owner ledger 5 2 3 9)
    × Safe ledger (transfer_between_owners ledger 5 1 2 3)
    × Safe ledger (transfer_from ledger 5 9 1 2 3)
tokens-Safe_example = tokens-Safe ledger 5 1 2 3 9 ledger-IsBacked

abbrev paid : Tokens
paid = record ledger { balances = (5, (1, 7) ∷ (2, 23) ∷ []) ∷ [] }

abbrev no_decimals : ℕ
no_decimals = 0

abbrev created : Tokens
created = record blank { mints = (5, (0, 0)) ∷ []; authorities = (5, 9) ∷ [] }

create_mint-exists_example :
    (mint_exists created 5 ≡ not (0 == 0))
    × ((owner amount caller : ℕ)
        → no_decimals ≡ 0
        → amount ≢ 0
        → mint_to_owner created 5 owner amount caller ≡ refused no_mint created)
    × ((from to amount : ℕ)
        → no_decimals ≡ 0
        → amount ≢ 0
        → transfer_between_owners created 5 from to amount ≡ refused no_mint created)
    × ((again other : ℕ)
        → no_decimals ≡ 0
        → (v : Tokens) × (create_mint created 5 again other ≡ done v)
          × (lookup 5 v.authorities ≡ some other))
unfolding create_mint lookup insert
create_mint-exists_example = create_mint-exists blank created 5 0 9 refl
