-- ===== src/Consensus/Wal.antt =====
-- ace-consensus/src/wal.rs: the entries of the write-ahead log and what `recover` reads from them.
-- The file and its lines are I/O: the log is the list of the entries that `read_all` returns.
pub mod Replay
mod Tests
use ace_chain.Common.{ℕ, Bool, Option, none, some, List, [], ◌∷◌, leb, if◌then◌else◌}

pub data WalEntry : Type 0 where
  proposal prevote precommit lock : ℕ → ℕ → ℕ → WalEntry
  height_advance : ℕ → WalEntry

pub record WalRecovery : Type 0 where
  pub height : ℕ
  pub locked_round : Option ℕ
  pub locked_hash : Option ℕ
  pub prevoted_round : Option ℕ
  pub prevoted_hash : Option ℕ
  pub precommitted_round : Option ℕ
  pub precommitted_hash : Option ℕ

-- `WalRecovery { height, ..Default::default() }`.
unfoldable pub at_height : ℕ → WalRecovery
at_height h = record {
  height = h;
  locked_round = none;
  locked_hash = none;
  prevoted_round = none;
  prevoted_hash = none;
  precommitted_round = none;
  precommitted_hash = none;
}

-- The body of the loop of `recover`.
unfoldable pub recover_entry : WalRecovery → WalEntry → WalRecovery
recover_entry r (height_advance new_height) = at_height new_height
recover_entry r (lock h round hash) =
    if leb r.height h
    then record r { height = h; locked_round = some round; locked_hash = some hash }
    else r
recover_entry r (prevote h round hash) =
    if leb r.height h
    then record r { height = h; prevoted_round = some round; prevoted_hash = some hash }
    else r
recover_entry r (precommit h round hash) =
    if leb r.height h
    then record r { height = h; precommitted_round = some round; precommitted_hash = some hash }
    else r
recover_entry r (proposal h round hash) = if leb r.height h then record r { height = h } else r

unfoldable pub recover_from : WalRecovery → List WalEntry → WalRecovery
recover_from r [] = r
recover_from r (e ∷ rest) = recover_from (recover_entry r e) rest

unfoldable pub recover : List WalEntry → WalRecovery
recover entries = recover_from (at_height 0) entries
