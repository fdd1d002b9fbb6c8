-- ===== src/Scheduler/Queue/Ops.antt =====
-- The operations of the request queue (core-runtime/src/scheduler/queue.rs).
use gg_core.Prelude.{
  ℕ, zero, suc, ◌+◌, ◌%◌, Bool, true, false, ◌||◌, Option, none, some, List, [], ◌∷◌, ◌++◌, length,
  set, leb, ◌==◌, if◌then◌else◌, String,
}
use gg_core.Scheduler.Priority.{Priority, u64, push, pop, len, iter}
use gg_core.Scheduler.Queue.{
  RequestQueue, QueuedRequest, StreamingQueuedRequest, InferenceParams, Outcome, ok, err, panicked,
  queue_full, invalid_timeout, check_context, add_time, deadline_from, is_cancelled, is_expired,
  reject_unexecuted,
}

-- total >= max_pending
unfoldable pub is_at_limit : RequestQueue → Bool
unfolding len
is_at_limit s = leb s.config.max_pending (len s.queue + length s.streaming)

abbrev pub or_new : Option ℕ → ℕ → ℕ
or_new none fresh = fresh
or_new (some flag) fresh = flag

-- `QueuedRequest::with_tx` allocates a flag; the caller's flag takes its place.
unfoldable pub admit :
    ℕ
    → String
    → List ℕ
    → InferenceParams
    → Priority
    → Bool
    → Option ℕ
    → Option ℕ
    → RequestQueue
    → Outcome (ℕ × ℕ) × RequestQueue
unfolding len push
admit now model_id prompt params priority tx cancelled deadline s = (
  ok (s.next_id, len s.queue),
  record s {
    next_id = (s.next_id + 1) % u64;
    flags = s.flags ++ false ∷ [];
    queue = push request priority s.queue;
    permit = true;
  },
)
  where
    request : QueuedRequest
    request = record {
      id = s.next_id;
      model_id = model_id;
      prompt = prompt;
      params = params;
      enqueued_at = now;
      deadline = deadline;
      cancelled = or_new cancelled (length s.flags);
      response_tx = tx;
    }

abbrev pub admit_if :
    ℕ
    → String
    → List ℕ
    → InferenceParams
    → Priority
    → Bool
    → Option ℕ
    → Outcome (Option ℕ)
    → RequestQueue
    → Outcome (ℕ × ℕ) × RequestQueue
admit_if now model_id prompt params priority tx cancelled (ok deadline) s =
    admit now model_id prompt params priority tx cancelled deadline s
admit_if now model_id prompt params priority tx cancelled (err e) s = (err e, s)
admit_if now model_id prompt params priority tx cancelled panicked s =
    (panicked, record s { next_id = (s.next_id + 1) % u64 })

-- enqueue, enqueue_with_response and enqueue_controlled are this with or without a channel and a
-- flag of the caller. The result is the id and the position.
unfoldable pub enqueue_inner :
    ℕ
    → ℕ
    → String
    → List ℕ
    → InferenceParams
    → Priority
    → Bool
    → Option ℕ
    → RequestQueue
    → Outcome (ℕ × ℕ) × RequestQueue
unfolding check_context is_at_limit admit deadline_from
enqueue_inner latest now model_id prompt params priority tx cancelled s =
    elim (check_context prompt s.config.max_context_tokens) [
      | some e ↦ (err e, s)
      | none ↦
          if is_at_limit s
          then (err queue_full, s)
          else admit_if now model_id prompt params priority tx cancelled
              (deadline_from latest now params.timeout_ms) s
    ]

-- The flag of the first request with the id, in the order of iteration.
unfoldable pub find_flag : ℕ → List QueuedRequest → Option ℕ
find_flag id [] = none
find_flag id (r ∷ rs) = let rest = find_flag id rs in if r.id == id then some r.cancelled else rest

unfoldable pub cancel : ℕ → RequestQueue → Bool × RequestQueue
unfolding find_flag iter
cancel request_id s = elim (find_flag request_id (iter s.queue)) [
  | none ↦ (false, s)
  | some flag ↦ (true, record s { flags = set s.flags flag true })
]

unfoldable pub is_stopped : ℕ → List Bool → QueuedRequest → Bool
unfolding is_cancelled is_expired
is_stopped now flags r = is_cancelled flags r || is_expired now r

-- The loop of `dequeue`, on fuel.
unfoldable pub dequeue_loop : ℕ → ℕ → RequestQueue → Option QueuedRequest × RequestQueue
unfolding is_stopped reject_unexecuted
dequeue_loop zero now s = (none, s)
dequeue_loop (suc fuel) now s =
    let (request, queue) = pop s.queue in
    elim request [
      | none ↦ (none, record s { queue = queue })
      | some r ↦
          let rest = dequeue_loop fuel now (reject_unexecuted now r (record s { queue = queue })) in
          if is_stopped now s.flags r then rest else (some r, record s { queue = queue })
    ]

-- A round takes an item out, so the length of the queue is fuel enough.
unfoldable pub dequeue : ℕ → RequestQueue → Option QueuedRequest × RequestQueue
unfolding dequeue_loop len
dequeue now s = dequeue_loop (len s.queue) now s

unfoldable pub admit_streaming :
    ℕ → String → List ℕ → ℕ → ℕ → ℕ → RequestQueue → Outcome ℕ × RequestQueue
admit_streaming now model_id prompt timeout_ms deadline cancelled s = (
  ok s.next_id,
  record s {
    next_id = (s.next_id + 1) % u64;
    streaming = s.streaming ++ request ∷ [];
    permit = true;
  },
)
  where
    request : StreamingQueuedRequest
    request = record {
      id = s.next_id;
      model_id = model_id;
      prompt = prompt;
      timeout_ms = timeout_ms;
      enqueued_at = now;
      deadline = some deadline;
      cancelled = cancelled;
    }

unfoldable pub enqueue_streaming_controlled :
    ℕ → ℕ → String → List ℕ → ℕ → ℕ → RequestQueue → Outcome ℕ × RequestQueue
unfolding check_context is_at_limit admit_streaming
enqueue_streaming_controlled latest now model_id prompt timeout_ms cancelled s =
    elim (check_context prompt s.config.max_context_tokens) [
      | some e ↦ (err e, s)
      | none ↦
          if timeout_ms == 0
          then (err invalid_timeout, s)
          else elim (add_time latest now timeout_ms) [
            | none ↦ (err invalid_timeout, s)
            | some deadline ↦
                if is_at_limit s
                then (err queue_full, s)
                else admit_streaming now model_id prompt timeout_ms deadline cancelled s
          ]
    ]

abbrev pub pop_front :
    List StreamingQueuedRequest → Option StreamingQueuedRequest × List StreamingQueuedRequest
pop_front [] = (none, [])
pop_front (r ∷ rs) = (some r, rs)

unfoldable pub dequeue_streaming : RequestQueue → Option StreamingQueuedRequest × RequestQueue
dequeue_streaming s = let (r, rest) = pop_front s.streaming in (r, record s { streaming = rest })

-- One poll of `wait_and_dequeue`: ready with its result, or suspended on the `Notify`.
pub data Wait : Type 0 where
  ready : Option QueuedRequest → Wait
  suspended : Wait

unfoldable pub wait_round : ℕ → RequestQueue → Wait × RequestQueue
unfolding dequeue
wait_round now s =
    let (request, s') = dequeue now s in
    elim request [
      | some r ↦ (ready (some r), s')
      | none ↦ if length s'.streaming == 0 then (suspended, s') else (ready none, s')
    ]

-- A stored permit lets the loop go round once more.
abbrev pub resume : ℕ → Wait → RequestQueue → Wait × RequestQueue
resume now (ready r) s = (ready r, s)
resume now suspended s =
    if s.permit then wait_round now (record s { permit = false }) else (suspended, s)

unfoldable pub wait_and_dequeue : ℕ → RequestQueue → Wait × RequestQueue
unfolding wait_round
wait_and_dequeue now s = let (w, s') = wait_round now s in resume now w s'
