-- ===== src/Scheduler/Queue/Served.antt =====
-- What `RequestQueue::dequeue` (core-runtime/src/scheduler/queue.rs) serves and rejects.
use gg_core.Prelude.{
  ℕ, zero, suc, ◌≤◌, ◌≡◌, refl, sym, ap, subst, ◌∙◌, Bool, true, false, Option, none, some, List,
  [], ◌∷◌, ◌++◌, length, arith, append-nil, append_assoc, if◌then◌else◌, Bool-cases, inl, inr,
}
use gg_core.Scheduler.Priority.{Priority, PriorityQueue, pop, len}
use gg_core.Scheduler.Priority.Refine.{Line, serve, view, IsFresh, view-pop, length-view}
use gg_core.Scheduler.Queue.{RequestQueue, QueuedRequest, StopError, stop_error, reject_unexecuted}
use gg_core.Scheduler.Queue.Ops.{is_stopped, dequeue_loop, dequeue}

-- The stopped requests at the head of a line, the first that is not, and those behind it.
abbrev pub skip :
    (QueuedRequest → Bool)
    → Line QueuedRequest
    → List QueuedRequest × (Option QueuedRequest × Line QueuedRequest)
skip stopped [] = ([], (none, []))
skip stopped ((p, r) ∷ line) =
    let (dead, (next, rest)) = skip stopped line in
    if stopped r then (r ∷ dead, (next, rest)) else ([], (some r, line))

-- The errors that go to those of the rejected requests whose caller waits.
abbrev pub rejections : (QueuedRequest → StopError) → List QueuedRequest → List (ℕ × StopError)
rejections error [] = []
rejections error (r ∷ rs) =
    let rest = rejections error rs in if r.response_tx then (r.id, error r) ∷ rest else rest

abbrev pub Split : Type 0
Split = List QueuedRequest × (Option QueuedRequest × Line QueuedRequest)

-- A run of `dequeue` from `s` that rejects, returns and leaves what the split names.
pub record Dequeued (now : ℕ) (s : RequestQueue) (split : Split)
    (r : Option QueuedRequest × RequestQueue) : Type 0 where
  pub served : r.0 ≡ split.1.0
  pub waiting : view r.1.queue ≡ split.1.1
  pub told : r.1.replies ≡ s.replies ++ rejections (stop_error now s.flags) split.0
  pub fresh : IsFresh r.1.queue
  pub same_flags : r.1.flags ≡ s.flags
  pub same_streaming : r.1.streaming ≡ s.streaming

empty_line : (q : PriorityQueue QueuedRequest) → len q ≤ 0 → view q ≡ []
empty_line q h = of_length (view q) (omega (arith, length-view q))
  where
    of_length : (line : Line QueuedRequest) → length line ≤ 0 → line ≡ []
    of_length [] h = refl
    of_length (x ∷ xs) h = absurd (omega arith)

-- Rejecting one request sends what the caller waits for.
replies-reject :
    (now : ℕ) (r : QueuedRequest) (s : RequestQueue) (dead : List QueuedRequest)
    → (reject_unexecuted now r s).replies ++ rejections (stop_error now s.flags) dead
      ≡ s.replies ++ rejections (stop_error now s.flags) (r ∷ dead)
unfolding reject_unexecuted
replies-reject now r s dead = elim (Bool-cases r.response_tx) [
  | inl e ↦ rw e (append_assoc s.replies _ _)
  | inr e ↦ rw e
]

module _ (now : ℕ) (s : RequestQueue) where
  -- The state after the first request of the line is taken out and rejected.
  abbrev rejected : QueuedRequest → RequestQueue
  rejected r = reject_unexecuted now r (record s { queue = (pop s.queue).1 })

  abbrev Rounds : ℕ → QueuedRequest → Line QueuedRequest → Type 0
  Rounds n r line =
      Dequeued now (rejected r) (skip (is_stopped now s.flags) line)
        (dequeue_loop n now (rejected r))

  skipped :
      (n : ℕ) (p : Priority) (r : QueuedRequest) (line : Line QueuedRequest)
      → (pop s.queue).0 ≡ some r
      → is_stopped now s.flags r ≡ true
      → Rounds n r line
      → Dequeued now s (skip (is_stopped now s.flags) ((p, r) ∷ line)) (dequeue_loop (suc n) now s)
  unfolding dequeue_loop reject_unexecuted
  skipped n p r line popped stopped rest =
      rw (popped, stopped, dequeue_loop)
        (record {
          served = rest.served;
          waiting = rest.waiting;
          told = rest.told ∙ replies-reject now r s (skip (is_stopped now s.flags) line).0;
          fresh = rest.fresh;
          same_flags = rest.same_flags;
          same_streaming = rest.same_streaming;
        })

  found :
      (n : ℕ) (p : Priority) (r : QueuedRequest) (line : Line QueuedRequest)
      → (pop s.queue).0 ≡ some r
      → is_stopped now s.flags r ≡ false
      → view (pop s.queue).1 ≡ line
      → IsFresh (pop s.queue).1
      → Dequeued now s (skip (is_stopped now s.flags) ((p, r) ∷ line)) (dequeue_loop (suc n) now s)
  unfolding dequeue_loop
  found n p r line popped live moved fresh =
      rw (popped, live, dequeue_loop)
        (record {
          served = refl;
          waiting = moved;
          told = sym (append-nil s.replies);
          fresh = fresh;
          same_flags = refl;
          same_streaming = refl;
        })

-- The rounds on fuel `n`, as the induction hypothesis gives them.
abbrev Again : ℕ → ℕ → Type 0
Again n now =
    (s' : RequestQueue)
    → len s'.queue ≤ n
    → IsFresh s'.queue
    → Dequeued now s' (skip (is_stopped now s'.flags) (view s'.queue)) (dequeue_loop n now s')

loop-Dequeued :
    (fuel now : ℕ) (s : RequestQueue)
    → len s.queue ≤ fuel
    → IsFresh s.queue
    → Dequeued now s (skip (is_stopped now s.flags) (view s.queue)) (dequeue_loop fuel now s)
unfolding dequeue_loop
loop-Dequeued zero now s h v = rw (empty_line s.queue h) (record {
  served = refl;
  waiting = empty_line s.queue h;
  told = sym (append-nil s.replies);
  fresh = v;
  same_flags = refl;
  same_streaming = refl;
})
loop-Dequeued (suc n) now s h v = at (loop-Dequeued n now) (view s.queue) refl
  where
    gone :
        Again n now
        → (r : QueuedRequest) (line : Line QueuedRequest) (p : Priority)
        → view s.queue ≡ (p, r) ∷ line
        → Rounds now s n r line
    gone again r line p e =
        let (served, moved, fresh, same) = view-pop s.queue v in
        let moved' : view (pop s.queue).1 ≡ line = moved ∙ ap (λ l. (serve l).1) e in
        unfold reject_unexecuted in
        subst
          (λ l.
            Dequeued now (rejected now s r) (skip (is_stopped now s.flags) l)
              (dequeue_loop n now (rejected now s r)))
          moved'
          (again (rejected now s r)
            (omega (
              arith,
              h,
              length-view s.queue,
              length-view (pop s.queue).1,
              ap length e,
              ap length moved',
            ))
            fresh)

    at :
        Again n now
        → (line : Line QueuedRequest) → view s.queue ≡ line
        → Dequeued now s (skip (is_stopped now s.flags) line) (dequeue_loop (suc n) now s)
    at again [] e =
        let (served, moved, fresh, same) = view-pop s.queue v in
        let popped : (pop s.queue).0 ≡ none = served ∙ ap (λ l. (serve l).0) e in
        rw (popped, dequeue_loop)
          (record {
            served = refl;
            waiting = moved ∙ ap (λ l. (serve l).1) e;
            told = sym (append-nil s.replies);
            fresh = fresh;
            same_flags = refl;
            same_streaming = refl;
          })
    at again ((p, r) ∷ line) e =
        let (served, moved, fresh, same) = view-pop s.queue v in
        elim (Bool-cases (is_stopped now s.flags r)) [
          | inl stopped ↦
              skipped now s n p r line (served ∙ ap (λ l. (serve l).0) e) stopped
                (gone again r line p e)
          | inr live ↦
              found now s n p r line (served ∙ ap (λ l. (serve l).0) e) live
                (moved ∙ ap (λ l. (serve l).1) e) fresh
        ]

-- Dequeueing rejects the cancelled and expired requests at the head of the line, each with its error
-- where its caller waits, and returns the first request behind them; the others keep their places.
pub dequeue-Dequeued :
    (now : ℕ) (s : RequestQueue)
    → IsFresh s.queue
    → Dequeued now s (skip (is_stopped now s.flags) (view s.queue)) (dequeue now s)
unfolding dequeue
dequeue-Dequeued now s v = loop-Dequeued (len s.queue) now s (omega arith) v
