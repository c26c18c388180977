-- ===== src/Consensus/Wal/Replay.antt =====
-- ace-consensus/src/wal.rs: what `recover` keeps of a log.
use ace_chain.Common.{
  ℕ, ◌≤◌, ◌≡◌, refl, true, Option, none, some, List, [], ◌∷◌, ◌++◌, leb, if◌then◌else◌, All, arith,
}
use ace_chain.Consensus.Wal.{
  WalEntry, proposal, prevote, precommit, lock, height_advance, WalRecovery, at_height,
  recover_entry, recover_from, recover,
}

-- The entry is one of height `h`, and no advance.
abbrev pub IsOf : ℕ → WalEntry → Type 0
IsOf h (proposal k round hash) = k ≡ h
IsOf h (prevote k round hash) = k ≡ h
IsOf h (precommit k round hash) = k ≡ h
IsOf h (lock k round hash) = k ≡ h
IsOf h (height_advance k) = ⊥

-- The round and the hash that an entry of one kind carries.
abbrev pub lock_of : WalEntry → Option (ℕ × ℕ)
lock_of (lock h round hash) = some (round, hash)
lock_of e = none

abbrev pub prevote_of : WalEntry → Option (ℕ × ℕ)
prevote_of (prevote h round hash) = some (round, hash)
prevote_of e = none

abbrev pub precommit_of : WalEntry → Option (ℕ × ℕ)
precommit_of (precommit h round hash) = some (round, hash)
precommit_of e = none

abbrev pub or_else : Option (ℕ × ℕ) → Option (ℕ × ℕ) → Option (ℕ × ℕ)
or_else none d = d
or_else (some p) d = some p

-- The last entry of a kind, `d` where there is none.
unfoldable pub last_of :
    (WalEntry → Option (ℕ × ℕ)) → Option (ℕ × ℕ) → List WalEntry → Option (ℕ × ℕ)
last_of f d [] = d
last_of f d (e ∷ rest) = last_of f (or_else (f e) d) rest

-- A round and a hash that are both there.
abbrev pub pair : Option ℕ → Option ℕ → Option (ℕ × ℕ)
pair (some a) (some b) = some (a, b)
pair x y = none

-- The recovery stands at height `h` with the last lock, prevote and precommit as given.
pub record Reads (h : ℕ) (l v c : Option (ℕ × ℕ)) (r : WalRecovery) : Type 0 where
  height_eq : r.height ≡ h
  lock_eq : pair r.locked_round r.locked_hash ≡ l
  prevote_eq : pair r.prevoted_round r.prevoted_hash ≡ v
  precommit_eq : pair r.precommitted_round r.precommitted_hash ≡ c

leb-eq-true : (a b : ℕ) → a ≤ b → leb a b ≡ true
leb-eq-true a b le = ground arith

-- An entry of the recovery's own height is taken.
taken :
    {h : ℕ} {l v c : Option (ℕ × ℕ)} {r : WalRecovery} (s : WalRecovery) (a b : ℕ)
    → a ≤ b
    → Reads h l v c r
    → Reads h l v c (if leb a b then r else s)
taken s a b le ok = rw (leb-eq-true a b le) ok

recover_from_lem :
    (entries : List WalEntry) (h : ℕ) (r : WalRecovery) (l v c : Option (ℕ × ℕ))
    → Reads h l v c r
    → All (IsOf h) entries
    → Reads h
        (last_of lock_of l entries)
        (last_of prevote_of v entries)
        (last_of precommit_of c entries)
        (recover_from r entries)
unfolding recover_from last_of recover_entry
recover_from_lem [] h r l v c ok all = ok
recover_from_lem (proposal k round hash ∷ rest) h r l v c ok (e, all) =
    let now = taken r r.height k (omega (arith, e, ok.height_eq)) (record {
      height_eq = e;
      lock_eq = ok.lock_eq;
      prevote_eq = ok.prevote_eq;
      precommit_eq = ok.precommit_eq;
    }) in
    recover_from_lem rest h (recover_entry r (proposal k round hash)) l v c now all
recover_from_lem (prevote k round hash ∷ rest) h r l v c ok (e, all) =
    let now = taken r r.height k (omega (arith, e, ok.height_eq)) (record {
      height_eq = e;
      lock_eq = ok.lock_eq;
      prevote_eq = refl;
      precommit_eq = ok.precommit_eq;
    }) in
    recover_from_lem rest h (recover_entry r (prevote k round hash)) l (some (round, hash)) c now
      all
recover_from_lem (precommit k round hash ∷ rest) h r l v c ok (e, all) =
    let now = taken r r.height k (omega (arith, e, ok.height_eq)) (record {
      height_eq = e;
      lock_eq = ok.lock_eq;
      prevote_eq = ok.prevote_eq;
      precommit_eq = refl;
    }) in
    recover_from_lem rest h (recover_entry r (precommit k round hash)) l v (some (round, hash)) now
      all
recover_from_lem (lock k round hash ∷ rest) h r l v c ok (e, all) =
    let now = taken r r.height k (omega (arith, e, ok.height_eq)) (record {
      height_eq = e;
      lock_eq = refl;
      prevote_eq = ok.prevote_eq;
      precommit_eq = ok.precommit_eq;
    }) in
    recover_from_lem rest h (recover_entry r (lock k round hash)) (some (round, hash)) v c now all
recover_from_lem (height_advance k ∷ rest) h r l v c ok (e, all) = absurd e

recover_from-append :
    (r : WalRecovery) (older newer : List WalEntry)
    → recover_from r (older ++ newer) ≡ recover_from (recover_from r older) newer
unfolding recover_from
recover_from-append r [] newer = refl
recover_from-append r (e ∷ older) newer = recover_from-append (recover_entry r e) older newer

-- Whatever was logged before, once the log advances to height `h` and then holds entries of that
-- height only, recovery stands at `h` with exactly the last lock, the last prevote and the last
-- precommit logged since, and with none of a kind that was not logged since.
pub recover-last :
    (older : List WalEntry) (h : ℕ) (newer : List WalEntry)
    → All (IsOf h) newer
    → Reads h
        (last_of lock_of none newer)
        (last_of prevote_of none newer)
        (last_of precommit_of none newer)
        (recover (older ++ height_advance h ∷ newer))
unfolding recover recover_from recover_entry at_height
recover-last older h newer all =
    let fresh =
      recover_from_lem newer h (at_height h) none none none
        (record { height_eq = refl; lock_eq = refl; prevote_eq = refl; precommit_eq = refl }) all in
    rw (recover_from-append (at_height 0) older (height_advance h ∷ newer)) fresh

first_entry :
    (h : ℕ) (e : WalEntry)
    → IsOf h e
    → recover_entry (at_height 0) e ≡ recover_entry (at_height h) e
unfolding recover_entry at_height
first_entry h (proposal k round hash) p = ground (arith, p)
first_entry h (prevote k round hash) p = ground (arith, p)
first_entry h (precommit k round hash) p = ground (arith, p)
first_entry h (lock k round hash) p = ground (arith, p)
first_entry h (height_advance k) p = absurd p

-- Where a log advances to height `h` and then holds at least one entry, all of them of that height:
-- recovery stands at `h` with exactly the last lock, the last prevote and the last precommit logged
-- since, and with none of a kind that was not logged since, whether the log keeps what came before or
-- was truncated at the advance.
pub recover-truncated :
    (older : List WalEntry) (h : ℕ) (e : WalEntry) (rest : List WalEntry)
    → All (IsOf h) (e ∷ rest)
    → let l = last_of lock_of none (e ∷ rest) in
      let v = last_of prevote_of none (e ∷ rest) in
      let c = last_of precommit_of none (e ∷ rest) in
      Reads h l v c (recover (older ++ height_advance h ∷ e ∷ rest))
      × Reads h l v c (recover (e ∷ rest))
unfolding recover recover_from at_height recover_entry
recover-truncated older h e rest all = (
  recover-last older h (e ∷ rest) all,
  rw (first_entry h e all.0) (recover-last [] h (e ∷ rest) all),
)
