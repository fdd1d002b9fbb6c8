-- ===== src/Scheduler/Queue/Tests.antt =====
-- Runs of the priority queue and the request queue.
use gg_core.Prelude.{ℕ, ◌≤◌, ◌≡◌, refl, Bool, true, false, none, some, List, [], ◌∷◌, arith}
use gg_core.Scheduler.Priority.{
  PriorityQueue, low, normal, high, new, push, pop, select, len, outranks,
}
use gg_core.Scheduler.Priority.Refine.{
  IsFresh, view, run, run-new, arrive, take_next, Call as QueueCall, push-IsFresh, new-IsFresh,
}
use gg_core.Scheduler.Queue.{
  RequestQueue, QueuedRequest, RequestQueueConfig, InferenceParams, is_cancelled, is_expired,
  stop_error, check_context,
}
use gg_core.Scheduler.Queue.Ops.{dequeue, dequeue_loop, is_stopped}
use gg_core.Scheduler.Queue.Served.{Dequeued, dequeue-Dequeued, skip}
use gg_core.Scheduler.Queue.Bounds.{pending}
use gg_core.Scheduler.Queue.Calls as Calls
use gg_core.Scheduler.Queue as Queue

abbrev arrivals : List (QueueCall ℕ)
arrivals =
    arrive 5 low
    ∷ arrive 6 high
    ∷ arrive 7 high
    ∷ take_next
    ∷ take_next
    ∷ take_next
    ∷ take_next
    ∷ []

run-new_example : run arrivals new ≡ some 6 ∷ some 7 ∷ some 5 ∷ none ∷ []
run-new_example = run-new arrivals (omega arith)

abbrev asked : ℕ → ℕ → Bool → QueuedRequest
asked id deadline tx = record {
  id = id;
  model_id = "m";
  prompt = 1 ∷ 2 ∷ [];
  params = record { timeout_ms = some 9 };
  enqueued_at = 0;
  deadline = some deadline;
  cancelled = id;
  response_tx = tx;
}

-- Three requests, of which the first has missed its deadline and the second is cancelled.
abbrev three : PriorityQueue QueuedRequest
three =
    push (asked 2 90 true) normal (push (asked 1 90 true) normal (push (asked 0 9 true) high new))

three-IsFresh : IsFresh three
unfolding push new
three-IsFresh = push-IsFresh (asked 2 90 true) normal (omega arith) (
    push-IsFresh (asked 1 90 true) normal (omega arith)
      (push-IsFresh (asked 0 9 true) high (omega arith) new-IsFresh))

abbrev waiting : RequestQueue
waiting = record {
  queue = three;
  streaming = [];
  next_id = 3;
  config = record { max_pending = 4; max_context_tokens = 8 };
  permit = true;
  flags = false ∷ true ∷ false ∷ [];
  replies = [];
}

dequeue-Dequeued_example :
    Dequeued 10 waiting (skip (is_stopped 10 waiting.flags) (view three)) (dequeue 10 waiting)
dequeue-Dequeued_example = dequeue-Dequeued 10 waiting three-IsFresh

-- The one that is served is the third.
served_third : (dequeue 10 waiting).0 ≡ some (asked 2 90 true)
unfolding dequeue dequeue_loop is_stopped is_cancelled is_expired pop push new select len outranks
served_third = refl

run-new-IsBounded_example :
    pending (
      Calls.run 99 (Queue.new (record { max_pending = 1; max_context_tokens = 8 })) (
        Calls.enqueue 0 "m" (1 ∷ []) (record { timeout_ms = none }) low true none
        ∷ Calls.enqueue 1 "m" (1 ∷ []) (record { timeout_ms = none }) low true none
        ∷ []))
    ≤ 1
run-new-IsBounded_example =
    Calls.run-new-IsBounded 99 (record { max_pending = 1; max_context_tokens = 8 })
      (Calls.enqueue 0 "m" (1 ∷ []) (record { timeout_ms = none }) low true none
        ∷ Calls.enqueue 1 "m" (1 ∷ []) (record { timeout_ms = none }) low true none
        ∷ [])
