-- ===== src/Liquid/Links.antt =====
-- ace-liquid/src/state.rs: the queues of a book as doubly linked lists, each a level's.
use ace_chain.Common.{ℕ, suc, ◌≡◌, ◌∙◌, ◌≢◌, ◌⊎◌, ◌==◌, if◌then◌else◌, arith, not, ◌&&◌}

-- The level that an order waits in is one more than the level's key, and 0 for no level; the ends of
-- the levels' queues and the orders' neighbours are 0 where there is none.
pub record Links : Type 0 where
  pub level : ℕ → ℕ
  pub head : ℕ → ℕ
  pub tail : ℕ → ℕ
  pub prev : ℕ → ℕ
  pub next : ℕ → ℕ

-- An end of a queue is an order of the level that has no neighbour on that side.
abbrev pub HeadOk : Links → ℕ → Type 0
HeadOk l k = (l.head k ≡ 0) ⊎ ((l.level (l.head k) ≡ suc k) × (l.prev (l.head k) ≡ 0))

abbrev pub TailOk : Links → ℕ → Type 0
TailOk l k = (l.tail k ≡ 0) ⊎ ((l.level (l.tail k) ≡ suc k) × (l.next (l.tail k) ≡ 0))

-- A neighbour is an order of the same level that has this order as its neighbour.
abbrev pub NextOk : Links → ℕ → Type 0
NextOk l x =
    (l.next x ≡ 0) ⊎ ((l.level x ≢ 0) × (l.level (l.next x) ≡ l.level x) × (l.prev (l.next x) ≡ x))

abbrev pub PrevOk : Links → ℕ → Type 0
PrevOk l x =
    (l.prev x ≡ 0) ⊎ ((l.level x ≢ 0) × (l.level (l.prev x) ≡ l.level x) × (l.next (l.prev x) ≡ x))

pub record IsLinked (l : Links) : Type 0 where
  pub zero_free : l.level 0 ≡ 0
  pub heads : (k : ℕ) → HeadOk l k
  pub tails : (k : ℕ) → TailOk l k
  pub nexts : (x : ℕ) → NextOk l x
  pub prevs : (x : ℕ) → PrevOk l x

abbrev new_head : Links → ℕ → ℕ → ℕ
new_head l k id = if l.head k == id then l.next id else l.head k

abbrev new_tail : Links → ℕ → ℕ → ℕ
new_tail l k id = if l.tail k == id then l.prev id else l.tail k

-- The links once an order has left the queue of its level.
abbrev pub removed : Links → ℕ → ℕ → Links
removed l k id = record {
  level = λ x. if id == x then 0 else l.level x;
  head = λ j. if k == j then new_head l k id else l.head j;
  tail = λ j. if k == j then (if new_head l k id == 0 then 0 else new_tail l k id) else l.tail j;
  prev = λ x.
      if id == x then 0 else if not (l.next id == 0) && l.next id == x then l.prev id else l.prev x;
  next = λ x.
      if id == x then 0 else if not (l.prev id == 0) && l.prev id == x then l.next id else l.next x;
}

removed_head :
    (l : Links) (k id : ℕ) → IsLinked l → l.level id ≡ suc k → (j : ℕ) → HeadOk (removed l k id) j
removed_head l k id v e j =
    ground (arith, v.zero_free, v.heads k, v.heads j, v.nexts id, v.prevs id)

removed_next :
    (l : Links) (k id : ℕ) → IsLinked l → l.level id ≡ suc k → (x : ℕ) → NextOk (removed l k id) x
removed_next l k id v e x = ground (arith, v.zero_free, v.nexts x, v.nexts id, v.prevs id, e)

removed_tail :
    (l : Links) (k id : ℕ) → IsLinked l → l.level id ≡ suc k → (j : ℕ) → TailOk (removed l k id) j
removed_tail l k id v e j =
    ground (arith, v.zero_free, v.tails k, v.tails j, v.nexts id, v.prevs id, e)

removed_prev :
    (l : Links) (k id : ℕ) → IsLinked l → l.level id ≡ suc k → (x : ℕ) → PrevOk (removed l k id) x
removed_prev l k id v e x = ground (arith, v.zero_free, v.prevs x, v.nexts id, v.prevs id, e)

pub removed-IsLinked :
    (l : Links) (k id : ℕ) → IsLinked l → l.level id ≡ suc k → IsLinked (removed l k id)
removed-IsLinked l k id v e = record {
  zero_free = ground (arith, v.zero_free);
  heads = removed_head l k id v e;
  tails = removed_tail l k id v e;
  nexts = removed_next l k id v e;
  prevs = removed_prev l k id v e;
}

-- The links once an order stands at the end of the queue of a level.
abbrev pub added : Links → ℕ → ℕ → Links
added l k id = record {
  level = λ x. if id == x then suc k else l.level x;
  head = λ j. if k == j then (if l.tail k == 0 then id else l.head k) else l.head j;
  tail = λ j. if k == j then id else l.tail j;
  prev = λ x. if id == x then l.tail k else l.prev x;
  next = λ x. if id == x then 0 else if not (l.tail k == 0) && l.tail k == x then id else l.next x;
}

added_head :
    (l : Links) (k id : ℕ)
    → IsLinked l
    → l.level id ≡ 0
    → id ≢ 0
    → (j : ℕ) → HeadOk (added l k id) j
added_head l k id v e z j = ground (arith, v.zero_free, v.heads k, v.heads j, v.tails k, e, z)

added_tail :
    (l : Links) (k id : ℕ)
    → IsLinked l
    → l.level id ≡ 0
    → id ≢ 0
    → (j : ℕ) → TailOk (added l k id) j
added_tail l k id v e z j = ground (arith, v.zero_free, v.tails k, v.tails j, e, z)

added_next :
    (l : Links) (k id : ℕ)
    → IsLinked l
    → l.level id ≡ 0
    → id ≢ 0
    → (x : ℕ) → NextOk (added l k id) x
added_next l k id v e z x = ground (arith, v.zero_free, v.tails k, v.nexts x, e, z)

added_prev :
    (l : Links) (k id : ℕ)
    → IsLinked l
    → l.level id ≡ 0
    → id ≢ 0
    → (x : ℕ) → PrevOk (added l k id) x
added_prev l k id v e z x = ground (arith, v.zero_free, v.tails k, v.prevs x, v.prevs id, e, z)

pub added-IsLinked :
    (l : Links) (k id : ℕ) → IsLinked l → l.level id ≡ 0 → id ≢ 0 → IsLinked (added l k id)
added-IsLinked l k id v e z = record {
  zero_free = ground (arith, v.zero_free, z);
  heads = added_head l k id v e z;
  tails = added_tail l k id v e z;
  nexts = added_next l k id v e z;
  prevs = added_prev l k id v e z;
}

pub record SameLinks (l m : Links) : Type 0 where
  pub level : (x : ℕ) → m.level x ≡ l.level x
  pub head : (k : ℕ) → m.head k ≡ l.head k
  pub tail : (k : ℕ) → m.tail k ≡ l.tail k
  pub prev : (x : ℕ) → m.prev x ≡ l.prev x
  pub next : (x : ℕ) → m.next x ≡ l.next x

pub same-IsLinked : (l m : Links) → SameLinks l m → IsLinked l → IsLinked m
same-IsLinked l m s v = record {
  zero_free = s.level 0 ∙ v.zero_free;
  heads = λ k. rw (s.head k, s.level (l.head k), s.prev (l.head k)) (v.heads k);
  tails = λ k. rw (s.tail k, s.level (l.tail k), s.next (l.tail k)) (v.tails k);
  nexts = λ x. rw (s.next x, s.level x, s.level (l.next x), s.prev (l.next x)) (v.nexts x);
  prevs = λ x. rw (s.prev x, s.level x, s.level (l.prev x), s.next (l.prev x)) (v.prevs x);
}
