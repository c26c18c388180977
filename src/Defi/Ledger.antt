-- ===== src/Defi/Ledger.antt =====
-- ace-defi/src: calls of the token ledger, whose errors a caller takes as its own (`map_err`).
use ace_chain.Common.{◌≡◌, ap}
use ace_chain.Common.Results.{Result, ok, err}
use ace_chain.Vm.Token.{Tokens, TokenResult, done, refused}

module _ {E : Type 0} where
  abbrev pub tokens_or : E → TokenResult → Result E Tokens
  tokens_or e (done t) = ok t
  tokens_or e (refused _ _) = err e

  pub tokens_or-done : (e : E) (r : TokenResult) (t : Tokens) → tokens_or e r ≡ ok t → r ≡ done t
  tokens_or-done e (done u) t p = let same : u ≡ t = cc p in ap done same
  tokens_or-done e (refused x u) t p = cc p
