-- ===== src/Scheduler/Priority.antt =====
-- core-runtime/src/scheduler/priority.rs: the priority queue of requests. The binary heap of the
-- standard library is the list of its items: pop takes out a greatest one.
pub mod Order
pub mod Refine
use gg_core.Prelude.{
  ℕ, zero, ◌+◌, ◌%◌, ◌^◌, Bool, true, false, Option, none, some, List, [], ◌∷◌, map, length, ltb,
  ◌==◌, if◌then◌else◌,
}

-- next_sequence is a u64.
abbrev pub u64 : ℕ
u64 = 2 ^ 64

pub data Priority : Type 0 where
  low normal high critical : Priority

-- priority as u8
abbrev pub rank : Priority → ℕ
rank low = 0
rank normal = 1
rank high = 2
rank critical = 3

-- From<u8>
unfoldable pub priority_from : ℕ → Priority
priority_from value =
    if value == 0 then low else if value == 1 then normal else if value == 2 then high else critical

pub record PrioritizedItem (T : Type 0) : Type 0 where
  pub priority : Priority
  pub sequence : ℕ
  pub item : T

pub record PriorityQueue (T : Type 0) : Type 0 where
  pub heap : List (PrioritizedItem T)
  pub next_sequence : ℕ

module _ {T : Type 0} where
  -- Ord::cmp is Greater: a higher priority, or the same one and an earlier sequence number.
  unfoldable pub outranks : PrioritizedItem T → PrioritizedItem T → Bool
  outranks a b =
      if rank a.priority == rank b.priority
      then ltb a.sequence b.sequence
      else ltb (rank b.priority) (rank a.priority)

  -- The greater of two items, and the other one.
  abbrev pub keep : PrioritizedItem T → PrioritizedItem T → PrioritizedItem T × PrioritizedItem T
  keep best x = if outranks x best then (x, best) else (best, x)

  -- A greatest item of a heap, and the items that are left.
  unfoldable pub select :
      PrioritizedItem T → List (PrioritizedItem T) → PrioritizedItem T × List (PrioritizedItem T)
  select best [] = (best, [])
  select best (x ∷ xs) =
      let (winner, other) = keep best x in let (top, rest) = select winner xs in (top, other ∷ rest)

  unfoldable pub new : PriorityQueue T
  new = record { heap = []; next_sequence = 0 }

  unfoldable pub push : T → Priority → PriorityQueue T → PriorityQueue T
  push item priority q = record {
    heap = record { priority = priority; sequence = q.next_sequence; item = item } ∷ q.heap;
    next_sequence = (q.next_sequence + 1) % u64;
  }

  abbrev pub heap_pop :
      List (PrioritizedItem T) → Option (PrioritizedItem T × List (PrioritizedItem T))
  heap_pop [] = none
  heap_pop (x ∷ xs) = some (select x xs)

  unfoldable pub pop : PriorityQueue T → Option T × PriorityQueue T
  unfolding select
  pop q = elim (heap_pop q.heap) [
    | none ↦ (none, q)
    | some (top, rest) ↦ (some top.item, record q { heap = rest })
  ]

  unfoldable pub peek : PriorityQueue T → Option T
  unfolding select
  peek q = elim (heap_pop q.heap) [ none ↦ none | some (top, rest) ↦ some top.item ]

  unfoldable pub len : PriorityQueue T → ℕ
  len q = length q.heap

  unfoldable pub is_empty : PriorityQueue T → Bool
  is_empty q = length q.heap == 0

  unfoldable pub iter : PriorityQueue T → List T
  iter q = map (λ p. p.item) q.heap
