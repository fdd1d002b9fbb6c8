-- ===== src/Scheduler/Priority/Refine.antt =====
-- The priority queue (core-runtime/src/scheduler/priority.rs) serves like a waiting line in which an
-- arrival stands behind everyone whose priority is at least its own.
use gg_core.Prelude.{
  ℕ, ◌+◌, ◌<◌, ◌≡◌, refl, ap, ◌∙◌, Option, none, some, List, [], ◌∷◌, map, arith, if◌then◌else◌,
  leb, length,
}
use gg_core.Scheduler.Priority.{
  PrioritizedItem, Priority, PriorityQueue, u64, rank, outranks, new, push, pop, len,
}
use gg_core.Scheduler.Priority.Order.{
  insert_by, sort, uses, AreDistinct, sort-select, AreDistinct-select, uses-sort,
}

-- The waiting line of the specification.
abbrev pub Line : Type 0 → Type 0
Line T = List (Priority × T)

-- The calls on a queue.
pub data Call (T : Type 0) : Type 0 where
  arrive : T → Priority → Call T
  take_next : Call T

module _ {T : Type 0} where
  -- An arrival goes behind the items of at least its priority.
  abbrev pub join : Priority → T → Line T → Line T
  join p t [] = (p, t) ∷ []
  join p t ((p', t') ∷ line) =
      let rest = join p t line in
      if leb (rank p) (rank p') then (p', t') ∷ rest else (p, t) ∷ (p', t') ∷ line

  abbrev pub serve : Line T → Option T × Line T
  serve [] = (none, [])
  serve ((p, t) ∷ line) = (some t, line)

  -- What the calls return, on the queue and on the line.
  abbrev pub run : List (Call T) → PriorityQueue T → List (Option T)
  run [] q = []
  run (arrive t p ∷ cs) q = run cs (push t p q)
  run (take_next ∷ cs) q = let (r, q') = pop q in r ∷ run cs q'

  abbrev pub run_line : List (Call T) → Line T → List (Option T)
  run_line [] line = []
  run_line (arrive t p ∷ cs) line = run_line cs (join p t line)
  run_line (take_next ∷ cs) line = let (r, line') = serve line in r ∷ run_line cs line'

  abbrev pub forget : PrioritizedItem T → Priority × T
  forget x = (x.priority, x.item)

  -- The line that a queue stands for.
  unfoldable pub view : PriorityQueue T → Line T
  view q = map forget (sort q.heap)

  -- Sequence numbers are distinct and below the next one.
  pub record IsFresh (q : PriorityQueue T) : Type 0 where
    pub distinct : AreDistinct q.heap
    pub below : (n : ℕ) → 0 < uses n q.heap → n < q.next_sequence

  pub new-IsFresh : IsFresh new
  unfolding new
  new-IsFresh = record { distinct = λ n. omega arith; below = λ n h. absurd (omega arith) }

  pub push-IsFresh :
      (t : T) (p : Priority) {q : PriorityQueue T}
      → q.next_sequence + 1 < u64
      → IsFresh q
      → IsFresh (push t p q)
  unfolding push
  push-IsFresh t p {q} room v = record {
    distinct = λ n. let a = v.distinct n in let b = v.below n in ground arith;
    below = λ n h. let b = v.below n in ground arith;
  }

  insert_by-join :
      (x : PrioritizedItem T) (ys : List (PrioritizedItem T))
      → ((n : ℕ) → 0 < uses n ys → n < x.sequence)
      → map forget (insert_by x ys) ≡ join x.priority x.item (map forget ys)
  unfolding outranks
  insert_by-join x [] late = refl
  insert_by-join x (y ∷ ys) late =
      let now = late y.sequence (ground arith) in
      ground (arith, insert_by-join x ys λ n h. late n (omega arith))

  -- An arrival joins the line.
  pub view-push :
      (t : T) (p : Priority) (q : PriorityQueue T)
      → IsFresh q
      → view (push t p q) ≡ join p t (view q)
  unfolding view push
  view-push t p q v =
      insert_by-join _ (sort q.heap) λ n h. v.below n (omega (arith, uses-sort n q.heap))

  abbrev Serves : PriorityQueue T → Option T × PriorityQueue T → Type 0
  Serves q (r, q') =
      (r ≡ (serve (view q)).0)
      × (view q' ≡ (serve (view q)).1)
      × IsFresh q'
      × (q'.next_sequence ≡ q.next_sequence)

  pop_heap :
      (heap : List (PrioritizedItem T)) (next : ℕ)
      → IsFresh (record { heap = heap; next_sequence = next })
      → Serves
          (record { heap = heap; next_sequence = next })
          (pop (record { heap = heap; next_sequence = next }))
  unfolding view pop
  pop_heap [] next v = (refl, refl, v, refl)
  pop_heap (x ∷ xs) next v = rw (sort-select x xs v.distinct) (
    refl,
    refl,
    record {
      distinct = λ n. omega (arith, v.distinct n, AreDistinct-select x xs n);
      below = λ n h. v.below n (omega (arith, AreDistinct-select x xs n));
    },
    refl,
  )

  -- Taking the next item serves the line: an empty queue is left as it is, else the first of the
  -- line is returned and the line moves up.
  pub view-pop :
      (q : PriorityQueue T)
      → IsFresh q
      → let (r, q') = pop q in
        (r ≡ (serve (view q)).0)
        × (view q' ≡ (serve (view q)).1)
        × IsFresh q'
        × (q'.next_sequence ≡ q.next_sequence)
  view-pop q v = pop_heap q.heap q.next_sequence v

  run-run_line :
      (cs : List (Call T)) (q : PriorityQueue T)
      → q.next_sequence + length cs < u64
      → IsFresh q
      → run cs q ≡ run_line cs (view q)
  run-run_line [] q room v = refl
  run-run_line (arrive t p ∷ cs) q room v =
      run-run_line cs (push t p q) (unfold push in ground arith)
        (push-IsFresh t p (omega (arith, room)) v)
      ∙ ap (run_line cs) (view-push t p q v)
  run-run_line (take_next ∷ cs) q room v =
      let (served, moved, fresh, same) = view-pop q v in
      let rest = run-run_line cs (pop q).1 (omega (arith, same)) fresh in
      cc (served, rest ∙ ap (run_line cs) moved)

  -- A new queue answers every sequence of fewer than 2^64 calls like the waiting line: by priority,
  -- and in the order of arrival within a priority.
  pub run-new : (cs : List (Call T)) → length cs < u64 → run cs new ≡ run_line cs []
  unfolding new view
  run-new cs room = run-run_line cs new (omega arith) new-IsFresh

  length-map : (xs : List (PrioritizedItem T)) → length (map forget xs) ≡ length xs
  length-map [] = refl
  length-map (x ∷ xs) = omega (arith, length-map xs)

  length-insert_by :
      (x : PrioritizedItem T) (ys : List (PrioritizedItem T))
      → length (insert_by x ys) ≡ length ys + 1
  length-insert_by x [] = refl
  length-insert_by x (y ∷ ys) = ground (arith, length-insert_by x ys)

  length-view_of : (xs : List (PrioritizedItem T)) → length (map forget (sort xs)) ≡ length xs
  length-view_of [] = refl
  length-view_of (x ∷ xs) = omega (
    arith,
    length-map (insert_by x (sort xs)),
    length-map (sort xs),
    length-insert_by x (sort xs),
    length-view_of xs,
  )

  -- The queue is as long as its line.
  pub length-view : (q : PriorityQueue T) → length (view q) ≡ len q
  unfolding view len
  length-view q = length-view_of q.heap
