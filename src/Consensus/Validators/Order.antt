-- ===== src/Consensus/Validators/Order.antt =====
-- ace-consensus/src/validator_set.rs: lists of validators under sorting, removal and a change
-- of stake: order and lookups.
use ace_chain.Common.{
  ℕ, ◌<◌, ◌≡◌, refl, ◌∙◌, Bool, true, false, Option, none, some, List, [], ◌∷◌, ◌++◌, arith, ◌==◌,
  if◌then◌else◌, find?, any, All, Bool-cases, inl, inr,
}
use ace_chain.Consensus.Validators.{Validator, insert_by_id, sort_by_id, remove_id, set_stake}

abbrev pub stake_of : Validator → ℕ
stake_of v = v.stake

abbrev pub by_id : ℕ → List Validator → Option Validator
by_id id vs = find? (λ v. v.id_com == id) vs

abbrev pub has_id : ℕ → List Validator → Bool
has_id id vs = any (λ v. v.id_com == id) vs

-- Strictly increasing identifiers: sorted, and none twice.
abbrev pub IsOrdered : List Validator → Type 0
IsOrdered [] = Unit
IsOrdered (v ∷ vs) = All (λ w. v.id_com < w.id_com) vs × IsOrdered vs

-- No identifier twice, in any order.
abbrev pub IsDistinct : List Validator → Type 0
IsDistinct [] = Unit
IsDistinct (v ∷ vs) = (has_id v.id_com vs ≡ false) × IsDistinct vs

pub has_id-insert :
    (id : ℕ) (v : Validator) (vs : List Validator)
    → has_id id (insert_by_id v vs) ≡ (if v.id_com == id then true else has_id id vs)
unfolding insert_by_id
has_id-insert id v [] = refl
has_id-insert id v (w ∷ ws) = ground (arith, has_id-insert id v ws)

pub has_id-sort : (id : ℕ) (vs : List Validator) → has_id id (sort_by_id vs) ≡ has_id id vs
unfolding sort_by_id
has_id-sort id [] = refl
has_id-sort id (v ∷ vs) = ground (arith, has_id-insert id v (sort_by_id vs), has_id-sort id vs)

pub All-insert :
    (n : ℕ) (v : Validator) (vs : List Validator)
    → n < v.id_com
    → All (λ w. n < w.id_com) vs
    → All (λ w. n < w.id_com) (insert_by_id v vs)
unfolding insert_by_id
All-insert n v [] p h = (p, tt)
All-insert n v (w ∷ ws) p h = ground (arith, All-insert n v ws p h.1)

All-trans :
    (n m : ℕ) (vs : List Validator)
    → n < m
    → All (λ w. m < w.id_com) vs
    → All (λ w. n < w.id_com) vs
All-trans n m [] p h = tt
All-trans n m (w ∷ ws) p h = (omega arith, All-trans n m ws p h.1)

pub insert-IsOrdered :
    (v : Validator) (vs : List Validator)
    → has_id v.id_com vs ≡ false
    → IsOrdered vs
    → IsOrdered (insert_by_id v vs)
unfolding insert_by_id
insert-IsOrdered v [] e h = (tt, tt)
insert-IsOrdered v (w ∷ ws) e h =
    ground (arith, insert-IsOrdered v ws, All-insert w.id_com v ws, All-trans v.id_com w.id_com ws)

pub sort-IsOrdered : (vs : List Validator) → IsDistinct vs → IsOrdered (sort_by_id vs)
unfolding sort_by_id
sort-IsOrdered [] h = tt
sort-IsOrdered (v ∷ vs) h =
    insert-IsOrdered v (sort_by_id vs) (has_id-sort v.id_com vs ∙ h.0) (sort-IsOrdered vs h.1)

has_id-append :
    (id : ℕ) (vs : List Validator) (v : Validator)
    → has_id id (vs ++ v ∷ []) ≡ (if v.id_com == id then true else has_id id vs)
has_id-append id [] v = refl
has_id-append id (w ∷ ws) v = ground (arith, has_id-append id ws v)

pub append-IsDistinct :
    (vs : List Validator) (v : Validator)
    → IsDistinct vs
    → has_id v.id_com vs ≡ false
    → IsDistinct (vs ++ v ∷ [])
append-IsDistinct [] v d e = (refl, tt)
append-IsDistinct (w ∷ ws) v d e =
    ground (arith, append-IsDistinct ws v d.1, has_id-append w.id_com ws v)

has_id-eq-false : (n : ℕ) (vs : List Validator) → All (λ w. n < w.id_com) vs → has_id n vs ≡ false
has_id-eq-false n [] h = refl
has_id-eq-false n (w ∷ ws) h = ground (arith, has_id-eq-false n ws h.1)

pub IsOrdered-IsDistinct : (vs : List Validator) → IsOrdered vs → IsDistinct vs
IsOrdered-IsDistinct [] h = tt
IsOrdered-IsDistinct (v ∷ vs) h = (has_id-eq-false v.id_com vs h.0, IsOrdered-IsDistinct vs h.1)

pub by_id-eq-none : (id : ℕ) (vs : List Validator) → has_id id vs ≡ false → by_id id vs ≡ none
by_id-eq-none id [] h = refl
by_id-eq-none id (v ∷ vs) h = ground (arith, by_id-eq-none id vs)

-- Sorting changes no lookup.
by_id-insert :
    (id : ℕ) (v : Validator) (vs : List Validator)
    → has_id v.id_com vs ≡ false
    → by_id id (insert_by_id v vs) ≡ (if v.id_com == id then some v else by_id id vs)
unfolding insert_by_id
by_id-insert id v [] e = refl
by_id-insert id v (w ∷ ws) e = ground (arith, by_id-insert id v ws)

pub by_id-sort :
    (id : ℕ) (vs : List Validator) → IsDistinct vs → by_id id (sort_by_id vs) ≡ by_id id vs
unfolding sort_by_id
by_id-sort id [] d = refl
by_id-sort id (v ∷ vs) d =
    ground (arith, by_id-insert id v (sort_by_id vs), has_id-sort v.id_com vs, by_id-sort id vs d.1)

pub by_id-append :
    (id : ℕ) (vs : List Validator) (v : Validator)
    → has_id v.id_com vs ≡ false
    → by_id id (vs ++ v ∷ []) ≡ (if v.id_com == id then some v else by_id id vs)
by_id-append id [] v e = refl
by_id-append id (w ∷ ws) v e = ground (arith, by_id-append id ws v)

-- Removal and a change of stake, seen through lookups.
pub by_id-remove :
    (id j : ℕ) (vs : List Validator)
    → IsDistinct vs
    → by_id j (remove_id id vs) ≡ (if id == j then none else by_id j vs)
unfolding remove_id
by_id-remove id j [] d = ground arith
by_id-remove id j (v ∷ vs) d =
    ground (arith, by_id-remove id j vs d.1, by_id-eq-none v.id_com vs d.0)

pub All-remove {κ} :
    (P : Validator → Type κ) (id : ℕ) (vs : List Validator) → All P vs → All P (remove_id id vs)
unfolding remove_id
All-remove P id [] h = tt
All-remove P id (v ∷ vs) h = elim (Bool-cases (v.id_com == id)) [
  | inl e ↦ rw e h.1
  | inr e ↦ rw e (h.0, All-remove P id vs h.1)
]

pub remove-IsOrdered : (id : ℕ) (vs : List Validator) → IsOrdered vs → IsOrdered (remove_id id vs)
unfolding remove_id
remove-IsOrdered id [] h = tt
remove-IsOrdered id (v ∷ vs) h = elim (Bool-cases (v.id_com == id)) [
  | inl e ↦ rw e h.1
  | inr e ↦ rw e (All-remove (λ w. v.id_com < w.id_com) id vs h.0, remove-IsOrdered id vs h.1)
]

-- What `set_stake` leaves in the place of a validator.
abbrev pub restake : ℕ → Option Validator → Option Validator
restake stake none = none
restake stake (some v) = some (record v { stake = stake })

pub by_id-set_stake :
    (id j stake : ℕ) (vs : List Validator)
    → by_id j (set_stake id stake vs) ≡ (if id == j then restake stake (by_id j vs) else by_id j vs)
unfolding set_stake
by_id-set_stake id j stake [] = ground arith
by_id-set_stake id j stake (v ∷ vs) = ground (arith, by_id-set_stake id j stake vs)

All-set_stake :
    (n id stake : ℕ) (vs : List Validator)
    → All (λ w. n < w.id_com) vs
    → All (λ w. n < w.id_com) (set_stake id stake vs)
unfolding set_stake
All-set_stake n id stake [] h = tt
All-set_stake n id stake (v ∷ vs) h = ground (arith, All-set_stake n id stake vs h.1)

pub set_stake-IsOrdered :
    (id stake : ℕ) (vs : List Validator) → IsOrdered vs → IsOrdered (set_stake id stake vs)
unfolding set_stake
set_stake-IsOrdered id stake [] h = tt
set_stake-IsOrdered id stake (v ∷ vs) h =
    ground (arith, set_stake-IsOrdered id stake vs h.1, All-set_stake v.id_com id stake vs h.0)
