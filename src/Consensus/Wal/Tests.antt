-- ===== src/Consensus/Wal/Tests.antt =====
-- A log of two heights.
use ace_chain.Common.{◌≡◌, refl, none, some, List, [], ◌∷◌, ◌++◌}
use ace_chain.Consensus.Wal.{
  WalEntry, proposal, prevote, precommit, lock, height_advance, recover, recover_from,
  recover_entry, at_height,
}
use ace_chain.Consensus.Wal.Replay.{
  Reads, last_of, lock_of, prevote_of, precommit_of, recover-truncated,
}

abbrev older : List WalEntry
older = lock 1 0 5 ∷ precommit 1 0 5 ∷ []

abbrev newer : List WalEntry
newer = proposal 2 0 7 ∷ prevote 2 0 7 ∷ lock 2 0 7 ∷ lock 2 3 8 ∷ []

recover-truncated_example :
    let l = last_of lock_of none newer in
    let v = last_of prevote_of none newer in
    let c = last_of precommit_of none newer in
    Reads 2 l v c (recover (older ++ height_advance 2 ∷ newer)) × Reads 2 l v c (recover newer)
recover-truncated_example =
    recover-truncated older 2 (proposal 2 0 7) (prevote 2 0 7 ∷ lock 2 0 7 ∷ lock 2 3 8 ∷ [])
      (refl, (refl, (refl, (refl, tt))))

last_lock : last_of lock_of none newer ≡ some (3, 8)
unfolding last_of
last_lock = refl

-- Without an advance an entry of a later height keeps the lock of the earlier one.
stale_lock : (recover (lock 1 0 5 ∷ prevote 2 0 7 ∷ [])).locked_hash ≡ some 5
unfolding recover recover_from recover_entry at_height
stale_lock = refl
