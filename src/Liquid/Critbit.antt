-- ===== src/Liquid/Critbit.antt =====
-- ace-liquid/src/critbit.rs: the price ladders of a market as crit-bit trees in an arena of nodes with
-- a list of free ones. A node never written reads as a leaf of key 0. The walks are on fuel: a tree of
-- words has at most 64 inner nodes above a leaf, and the result of a walk that exceeds it is none.
pub mod Extremes
mod Tests
use ace_chain.Common.{
  ℕ, zero, suc, ◌+◌, ◌-◌, ◌*◌, ◌/◌, ◌%◌, ◌^◌, Bool, true, false, not, ◌&&◌, Option, none, some,
  ◌==◌, ltb, if◌then◌else◌, max, List, [],
}
use ace_chain.Common.Assoc.{Map, lookup, insert, or_zero}
use ace_chain.Liquid.Types.{OrderSide, buy, sell, side_byte}
use ace_chain.Liquid.Book.{PriceLadder}

pub data Node : Type 0 where
  inner : ℕ → ℕ → ℕ → Node
  leaf : ℕ → Node

pub data Link : Type 0 where
  root : Link
  child : ℕ → Bool → Link

pub record Arena : Type 0 where
  pub roots : Map ℕ
  pub nodes : Map Node
  pub free_head : ℕ
  pub next_handle : ℕ

abbrev pub read_root : Arena → OrderSide → ℕ
read_root a side = or_zero (lookup (side_byte side) a.roots)

abbrev pub write_root : Arena → OrderSide → ℕ → Arena
write_root a side p = record a { roots = insert (side_byte side) p a.roots }

abbrev pub or_leaf : Option Node → Node
or_leaf none = leaf 0
or_leaf (some n) = n

abbrev pub read_node : Arena → ℕ → Node
read_node a p = or_leaf (lookup p a.nodes)

abbrev pub write_node : Arena → ℕ → Node → Arena
write_node a p n = record a { nodes = insert p n a.nodes }

-- The bit of a key, as the side of a node: false is the left.
abbrev pub dir : ℕ → ℕ → Bool
dir key crit = not (key / 2 ^ crit % 2 == 0)

-- The highest bit below `n` at which two keys differ.
unfoldable pub highest_bit : ℕ → ℕ → ℕ → ℕ
highest_bit zero x y = 0
highest_bit (suc n) x y =
    let rest = highest_bit n x y in if x / 2 ^ n % 2 == y / 2 ^ n % 2 then rest else n

-- A free node holds the next free one in the place of its key.
abbrev pub next_free : Node → ℕ
next_free (leaf key) = key
next_free (inner crit left right) = 0

unfoldable pub alloc : Arena → Arena × ℕ
alloc a =
    let handle = max a.next_handle 1 in
    if a.free_head == 0
    then (record a { next_handle = handle + 1 }, handle)
    else (record a { free_head = next_free (read_node a a.free_head) }, a.free_head)

unfoldable pub free : Arena → ℕ → Arena
free a p = record a { nodes = insert p (leaf a.free_head) a.nodes; free_head = p }

abbrev pub with_child : Node → Bool → ℕ → Node
with_child (inner crit left right) d p = if d then inner crit left p else inner crit p right
with_child (leaf key) d p = leaf key

unfoldable pub set_link : Arena → OrderSide → Link → ℕ → Arena
set_link a side root p = write_root a side p
set_link a side (child parent d) p = write_node a parent (with_child (read_node a parent) d p)

-- The leaf that a key's bits lead to.
unfoldable pub walk : ℕ → Arena → ℕ → ℕ → Option ℕ
walk zero a key p = none
walk (suc n) a key p = elim (read_node a p) [
  | inner crit left right ↦ walk n a key (if dir key crit then right else left)
  | leaf found ↦ some found
]

-- The link whose target a node of the given bit goes above, and that target.
unfoldable pub place_for : ℕ → Arena → ℕ → ℕ → Link → ℕ → Option (Link × ℕ)
place_for zero a key bit link cur = none
place_for (suc n) a key bit link cur = elim (read_node a cur) [
  | inner crit left right ↦ elim (ltb bit crit) [
    | true ↦ place_for n a key bit (child cur (dir key crit)) (if dir key crit then right else left)
    | false ↦ some (link, cur)
  ]
  | leaf found ↦ some (link, cur)
]

abbrev pub max_height : ℕ
max_height = 65

unfoldable pub add_leaf : Arena → OrderSide → ℕ → ℕ → Link × ℕ → Arena
unfolding alloc set_link
add_leaf a side key bit (link, cur) =
    let (b, new_leaf) = alloc a in
    let (c, new_inner) = alloc (write_node b new_leaf (leaf key)) in
    let node = if dir key bit then inner bit cur new_leaf else inner bit new_leaf cur in
    set_link (write_node c new_inner node) side link new_inner

-- `insert` under a root that is not 0.
unfoldable pub insert_below : Arena → OrderSide → ℕ → ℕ → Option Arena
unfolding walk place_for add_leaf highest_bit
insert_below a side key p = elim (walk max_height a key p) [
  | none ↦ none
  | some found ↦
      if found == key
      then some a
      else elim (place_for max_height a key (highest_bit 64 key found) root p) [
        | none ↦ none
        | some at ↦ some (add_leaf a side key (highest_bit 64 key found) at)
      ]
]

-- `insert`.
unfoldable pub insert_key : Arena → OrderSide → ℕ → Option Arena
unfolding alloc insert_below
insert_key a side key =
    let p = read_root a side in
    let (b, first) = alloc a in
    if p == 0
    then some (write_root (write_node b first (leaf key)) side first)
    else insert_below a side key p

-- The walk of `remove`: the leaf, its key, and the parent with the link to it and the side taken.
pub record Step : Type 0 where
  pub node : ℕ
  pub key : ℕ
  pub link : Link
  pub parent : Option (Link × ℕ × Bool)

unfoldable pub trace : ℕ → Arena → ℕ → Step → Option Step
trace zero a key s = none
trace (suc n) a key s = elim (read_node a s.node) [
  | inner crit left right ↦ trace n a key (record {
    node = if dir key crit then right else left;
    key = 0;
    link = child s.node (dir key crit);
    parent = some (s.link, s.node, dir key crit);
  })
  | leaf found ↦ some (record s { key = found })
]

-- The other child of a parent.
abbrev pub sibling : Node → Bool → ℕ
sibling (inner crit left right) d = if d then left else right
sibling (leaf key) d = 0

unfoldable pub cut : Arena → OrderSide → Step → Arena
unfolding free set_link
cut a side s = elim s.parent [
  | none ↦ write_root (free a s.node) side 0
  | some (link, q, d) ↦
      free (set_link (free a s.node) side link (sibling (read_node (free a s.node) q) d)) q
]

-- `remove`.
unfoldable pub remove_key : Arena → OrderSide → ℕ → Option Arena
unfolding trace cut
remove_key a side key =
    let p = read_root a side in
    if p == 0
    then some a
    else elim (trace max_height a key (record { node = p; key = 0; link = root; parent = none })) [
      | none ↦ none
      | some s ↦ if s.key == key then some (cut a side s) else some a
    ]

-- The key at the end of the walk that always takes the same side.
unfoldable pub extreme_from : ℕ → Arena → ℕ → Bool → Option ℕ
extreme_from zero a p d = none
extreme_from (suc n) a p d = elim (read_node a p) [
  | inner crit left right ↦ extreme_from n a (if d then right else left) d
  | leaf key ↦ some key
]

unfoldable pub extreme : Arena → OrderSide → Bool → Option ℕ
unfolding extreme_from
extreme a side d =
    if read_root a side == 0 then none else extreme_from max_height a (read_root a side) d

abbrev pub or_arena : Option Arena → Arena → Arena
or_arena none a = a
or_arena (some b) a = b

-- The ladder of state.rs: the highest bid and the lowest ask.
abbrev pub critbit : PriceLadder
critbit = record {
  Ladder = Arena;
  empty = record { roots = []; nodes = []; free_head = 0; next_handle = 0 };
  add_level = λ a side price. or_arena (insert_key a side price) a;
  remove_level = λ a side price. or_arena (remove_key a side price) a;
  best_price = λ a side. extreme a side (elim side [ buy ↦ true | sell ↦ false ]);
}
