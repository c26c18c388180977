-- ===== src/Consensus/Vote/Tally.antt =====
-- ace-consensus/src/vote.rs: what a map from voters to hashes amounts to in stake: the support
-- of a hash among the validators, and the stake that two such maps share.
use ace_chain.Common.{
  ℕ, ◌+◌, ◌*◌, ◌≤◌, ◌≡◌, ◌≢◌, refl, true, false, ◌&&◌, none, List, [], ◌∷◌, arith, ◌==◌,
  if◌then◌else◌, opt_eq, sum_of,
}
use ace_chain.Common.Assoc.{Map, lookup, insert, lookup-insert}
use ace_chain.Runtime.Quorum.{has_quorum}
use ace_chain.Consensus.Validators.{Validator}
use ace_chain.Consensus.Validators.Order.{IsDistinct, by_id, has_id, by_id-eq-none}
use ace_chain.Consensus.Validators.Stake.{stake_of}
use ace_chain.Consensus.Validators.Laws.{found_stake}

-- The stake of the validators whose vote in `m` is `h`.
pub support : List Validator → Map ℕ → ℕ → ℕ
support [] m h = 0
support (v ∷ vs) m h = (if opt_eq (lookup v.id_com m) h then v.stake else 0) + support vs m h

-- The stake of the validators that voted for `h` in `m` and for `k` in `n`.
pub overlap : List Validator → Map ℕ → ℕ → Map ℕ → ℕ → ℕ
overlap [] m h n k = 0
overlap (v ∷ vs) m h n k =
    (if opt_eq (lookup v.id_com m) h && opt_eq (lookup v.id_com n) k then v.stake else 0)
    + overlap vs m h n k

pub support-le-sum : (vs : List Validator) (m : Map ℕ) (h : ℕ) → support vs m h ≤ sum_of stake_of vs
unfolding support
support-le-sum [] m h = omega arith
support-le-sum (v ∷ vs) m h = ground (arith, support-le-sum vs m h)

-- Nobody supports two hashes in one map.
pub support_disjoint :
    (vs : List Validator) (m : Map ℕ) (h k : ℕ)
    → h ≢ k
    → support vs m h + support vs m k ≤ sum_of stake_of vs
unfolding support
support_disjoint [] m h k ne = omega arith
support_disjoint (v ∷ vs) m h k ne = ground (arith, support_disjoint vs m h k ne)

-- Inclusion and exclusion.
pub support-overlap :
    (vs : List Validator) (m n : Map ℕ) (h k : ℕ)
    → support vs m h + support vs n k ≤ sum_of stake_of vs + overlap vs m h n k
unfolding support overlap
support-overlap [] m n h k = omega arith
support-overlap (v ∷ vs) m n h k = ground (arith, support-overlap vs m n h k)

support-insert_other :
    (vs : List Validator) (m : Map ℕ) (x h k : ℕ)
    → has_id x vs ≡ false
    → support vs (insert x h m) k ≡ support vs m k
unfolding support
support-insert_other [] m x h k e = refl
support-insert_other (v ∷ vs) m x h k e =
    ground (arith, lookup-insert x v.id_com h m, support-insert_other vs m x h k)

-- The first vote of `x` adds its stake to the hash that it names.
pub support-insert :
    (vs : List Validator) (m : Map ℕ) (x h k : ℕ)
    → IsDistinct vs
    → lookup x m ≡ none
    → support vs (insert x h m) k
      ≡ support vs m k + (if h == k then found_stake (by_id x vs) else 0)
unfolding support
support-insert [] m x h k d e = ground arith
support-insert (v ∷ vs) m x h k d e = ground (
  arith,
  lookup-insert x v.id_com h m,
  support-insert vs m x h k d.1 e,
  support-insert_other vs m x h k,
  by_id-eq-none v.id_com vs d.0,
)

pub quorum-two_thirds :
    (votes total : ℕ) → has_quorum votes total ≡ true → (1 ≤ total) × (2 * total ≤ 3 * votes)
unfolding has_quorum
quorum-two_thirds votes total q = ground arith

pub support-nil : (vs : List Validator) (h : ℕ) → support vs [] h ≡ 0
unfolding support lookup
support-nil [] h = refl
support-nil (v ∷ vs) h = ground (arith, support-nil vs h)

pub has_quorum_mono :
    (votes more total : ℕ)
    → votes ≤ more
    → has_quorum votes total ≡ true
    → has_quorum more total ≡ true
unfolding has_quorum
has_quorum_mono votes more total le q = ground arith
