-- ===== src/Liquid/Critbit/Tests.antt =====
-- ace-liquid/src/critbit.rs: runs of a ladder.
use ace_chain.Common.{ℕ, arith, ◌≢◌, ◌≡◌, refl, true, false, none, some, List, [], ◌∷◌}
use ace_chain.Common.Assoc.{lookup, insert}
use ace_chain.Liquid.Types.{buy}
use ace_chain.Liquid.Critbit.Extremes.{Tree, tip, fork, Holds, IsSorted}
use ace_chain.Liquid.Critbit.{
  read_root, Arena, alloc, free, walk, place_for, add_leaf, insert_below, insert_key, trace, cut,
  remove_key, extreme, extreme_from, critbit, or_arena, highest_bit, set_link,
}

abbrev insert_all : Arena → List ℕ → Arena
insert_all a [] = a
insert_all a (p ∷ ps) = insert_all (or_arena (insert_key a buy p) a) ps

abbrev remove_all : Arena → List ℕ → Arena
remove_all a [] = a
remove_all a (p ∷ ps) = remove_all (or_arena (remove_key a buy p) a) ps

abbrev seven : Arena
seven = insert_all critbit.empty (50 ∷ 10 ∷ 90 ∷ 30 ∷ 70 ∷ 10 ∷ 90 ∷ [])

least_and_greatest : (extreme seven buy false ≡ some 10) × (extreme seven buy true ≡ some 90)
unfolding extreme extreme_from insert_below insert_key alloc walk place_for add_leaf highest_bit
    set_link lookup insert
least_and_greatest = (refl, refl)

after_removal :
    (extreme (remove_all seven (10 ∷ 90 ∷ 50 ∷ [])) buy false ≡ some 30)
    × (extreme (remove_all seven (10 ∷ 90 ∷ 50 ∷ [])) buy true ≡ some 70)
    × (extreme (remove_all seven (10 ∷ 90 ∷ 50 ∷ 30 ∷ 70 ∷ [])) buy true ≡ none)
unfolding extreme extreme_from insert_below insert_key alloc walk place_for add_leaf highest_bit
    set_link lookup insert remove_key trace cut free
after_removal = (refl, refl, refl)

-- The nodes of removed keys are used again.
recycled :
    (insert_all
      (remove_all seven (10 ∷ 30 ∷ 50 ∷ 70 ∷ 90 ∷ []))
      (1 ∷ 2 ∷ 3 ∷ 4 ∷ 5 ∷ [])).next_handle
    ≡ seven.next_handle
unfolding extreme extreme_from insert_below insert_key alloc walk place_for add_leaf highest_bit
    set_link lookup insert remove_key trace cut free
recycled = refl

-- A node of bit 5 above the leaves of two keys.
abbrev pair : Arena
pair = insert_all critbit.empty (50 ∷ 10 ∷ [])

abbrev pair_tree : Tree
pair_tree = fork 5 (tip 10) (tip 50)

pair-Holds : Holds pair (read_root pair buy) pair_tree
unfolding Holds insert_below insert_key alloc walk place_for add_leaf highest_bit set_link lookup
    insert
pair-Holds = (2, 1, refl, refl, refl)

pair-IsSorted : IsSorted pair_tree
unfolding IsSorted
pair-IsSorted = (tt, tt, omega arith)

pair-root : read_root pair buy ≢ 0
unfolding insert_below insert_key alloc walk place_for add_leaf highest_bit set_link lookup insert
pair-root = omega arith
