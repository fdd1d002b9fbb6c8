-- ===== src/Scheduler/Queue/Bounds.antt =====
-- Admission to the request queue (core-runtime/src/scheduler/queue.rs) and the bound on what waits.
use gg_core.Prelude.{
  ℕ, zero, suc, ◌+◌, ◌≤◌, ◌<◌, ◌≡◌, refl, ap, ◌∙◌, inl, inr, Bool, true, false, Option, List, [],
  ◌∷◌, length, arith, if◌then◌else◌, Bool-cases, Option-cases, String, ◌==◌, length-append, set,
}
use gg_core.Scheduler.Priority.{
  Priority, PrioritizedItem, PriorityQueue, select, push, pop, len, iter,
}
use gg_core.Scheduler.Queue.{
  RequestQueue, QueuedRequest, InferenceParams, Outcome, ok, err, panicked, check_context, add_time,
  deadline_from, reject_unexecuted, StreamingQueuedRequest,
}
use gg_core.Scheduler.Queue.Ops.{
  is_at_limit, admit, admit_if, enqueue_inner, cancel, find_flag, dequeue_loop, is_stopped,
  pop_front, dequeue, enqueue_streaming_controlled, admit_streaming, dequeue_streaming, wait_round,
  wait_and_dequeue, resume, Wait, ready, suspended,
}

-- What waits in the two queues.
abbrev pub pending : RequestQueue → ℕ
pending s = len s.queue + length s.streaming

-- At most `limit` requests wait, and that is still the configured limit.
abbrev pub IsBounded : ℕ → RequestQueue → Type 0
IsBounded limit s = (s.config.max_pending ≡ limit) × (pending s ≤ limit)

length-select :
    {T : Type 0} (x : PrioritizedItem T) (xs : List (PrioritizedItem T))
    → length (select x xs).1 ≡ length xs
unfolding select
length-select x [] = refl
length-select x (y ∷ ys) = ground (arith, length-select x ys, length-select y ys)

len-pop_heap :
    {T : Type 0} (heap : List (PrioritizedItem T)) (n : ℕ)
    → len (pop (record { heap = heap; next_sequence = n })).1 ≤ length heap
unfolding len pop
len-pop_heap [] n = omega arith
len-pop_heap (x ∷ xs) n = omega (arith, length-select x xs)

len-pop : {T : Type 0} (q : PriorityQueue T) → len (pop q).1 ≤ len q
unfolding len
len-pop q = len-pop_heap q.heap q.next_sequence

len-push : {T : Type 0} (t : T) (p : Priority) (q : PriorityQueue T) → len (push t p q) ≡ len q + 1
unfolding len push
len-push t p q = omega arith

-- One state is at most as full as another, under the same configuration.
pub record Shrinks (s s' : RequestQueue) : Type 0 where
  same_config : s'.config ≡ s.config
  fewer : len s'.queue ≤ len s.queue
  fewer_streaming : length s'.streaming ≤ length s.streaming

Shrinks-trans : {a b c : RequestQueue} → Shrinks a b → Shrinks b c → Shrinks a c
Shrinks-trans h k = record {
  same_config = k.same_config ∙ h.same_config;
  fewer = omega (arith, h.fewer, k.fewer);
  fewer_streaming = omega (arith, h.fewer_streaming, k.fewer_streaming);
}

same_queues :
    (s s' : RequestQueue)
    → s'.config ≡ s.config
    → s'.queue ≡ s.queue
    → s'.streaming ≡ s.streaming
    → Shrinks s s'
same_queues s s' c q t = record {
  same_config = c;
  fewer = rw q (omega arith);
  fewer_streaming = rw t (omega arith);
}

stays : (s : RequestQueue) → Shrinks s s
stays s = record { same_config = refl; fewer = omega arith; fewer_streaming = omega arith }

pub Shrinks-IsBounded :
    {limit : ℕ} {s s' : RequestQueue} → Shrinks s s' → IsBounded limit s → IsBounded limit s'
Shrinks-IsBounded h (c, b) =
    (ap (λ k. k.max_pending) h.same_config ∙ c, omega (arith, h.fewer, h.fewer_streaming))

popped : (s : RequestQueue) → Shrinks s (record s { queue = (pop s.queue).1 })
popped s = record { same_config = refl; fewer = len-pop s.queue; fewer_streaming = omega arith }

rejects : (now : ℕ) (r : QueuedRequest) (s : RequestQueue) → Shrinks s (reject_unexecuted now r s)
unfolding reject_unexecuted
rejects now r s = same_queues s (reject_unexecuted now r s) refl refl refl

loop-Shrinks : (fuel now : ℕ) (s : RequestQueue) → Shrinks s (dequeue_loop fuel now s).1
unfolding dequeue_loop
loop-Shrinks zero now s = stays s
loop-Shrinks (suc n) now s = elim (Option-cases (pop s.queue).0) [
  | inl e ↦ rw (e, dequeue_loop) (popped s)
  | inr (r, e) ↦ elim (Bool-cases (is_stopped now s.flags r)) [
    | inl stopped ↦
        rw (e, stopped, dequeue_loop)
          (Shrinks-trans (popped s) (
            Shrinks-trans (rejects now r (record s { queue = (pop s.queue).1 })) (
              loop-Shrinks n now (reject_unexecuted now r (record s { queue = (pop s.queue).1 })))))
    | inr live ↦ rw (e, live, dequeue_loop) (popped s)
  ]
]

pub dequeue-Shrinks : (now : ℕ) (s : RequestQueue) → Shrinks s (dequeue now s).1
unfolding dequeue
dequeue-Shrinks now s = loop-Shrinks (len s.queue) now s

pub cancel-Shrinks : (id : ℕ) (s : RequestQueue) → Shrinks s (cancel id s).1
unfolding cancel
cancel-Shrinks id s = elim (Option-cases (find_flag id (iter s.queue))) [
  | inl e ↦ rw (e, cancel) (stays s)
  | inr (flag, e) ↦
      rw (e, cancel) (same_queues s (record s { flags = set s.flags flag true }) refl refl refl)
]

front-Shrinks : (rs : List StreamingQueuedRequest) → length (pop_front rs).1 ≤ length rs
front-Shrinks [] = omega arith
front-Shrinks (r ∷ rs) = omega arith

pub dequeue_streaming-Shrinks : (s : RequestQueue) → Shrinks s (dequeue_streaming s).1
unfolding dequeue_streaming
dequeue_streaming-Shrinks s = record {
  same_config = refl;
  fewer = omega arith;
  fewer_streaming = front-Shrinks s.streaming;
}

wait_round-Shrinks : (now : ℕ) (s : RequestQueue) → Shrinks s (wait_round now s).1
unfolding wait_round
wait_round-Shrinks now s = elim (Option-cases (dequeue now s).0) [
  | inl e ↦ elim (Bool-cases (length (dequeue now s).1.streaming == 0)) [
    | inl none_left ↦ rw (e, none_left, wait_round) (dequeue-Shrinks now s)
    | inr some_left ↦ rw (e, some_left, wait_round) (dequeue-Shrinks now s)
  ]
  | inr (r, e) ↦ rw (e, wait_round) (dequeue-Shrinks now s)
]

resume-Shrinks : (now : ℕ) (w : Wait) (s : RequestQueue) → Shrinks s (resume now w s).1
resume-Shrinks now (ready r) s = stays s
resume-Shrinks now suspended s = again s.permit
  where
    taken : Shrinks s (record s { permit = false })
    taken = same_queues s (record s { permit = false }) refl refl refl

    again :
        (permit : Bool)
        → Shrinks s
            (if permit then wait_round now (record s { permit = false }) else (suspended, s)).1
    again true = Shrinks-trans taken (wait_round-Shrinks now (record s { permit = false }))
    again false = stays s

pub wait-Shrinks : (now : ℕ) (s : RequestQueue) → Shrinks s (wait_and_dequeue now s).1
unfolding wait_and_dequeue
wait-Shrinks now s =
    Shrinks-trans (wait_round-Shrinks now s)
      (resume-Shrinks now (wait_round now s).0 (wait_round now s).1)

at_limit : (s : RequestQueue) → is_at_limit s ≡ false → pending s < s.config.max_pending
unfolding is_at_limit
at_limit s h = ground arith

admit_if-IsBounded :
    {limit : ℕ} (now : ℕ) (model_id : String) (prompt : List ℕ) (params : InferenceParams)
    (priority : Priority) (tx : Bool) (flag : Option ℕ) (deadline : Outcome (Option ℕ))
    (s : RequestQueue)
    → is_at_limit s ≡ false
    → IsBounded limit s
    → IsBounded limit (admit_if now model_id prompt params priority tx flag deadline s).1
unfolding admit is_at_limit
admit_if-IsBounded now m p ps pr tx flag (ok d) s free (c, b) =
    (c, omega (arith, c, len-push _ pr s.queue, at_limit s free))
admit_if-IsBounded now m p ps pr tx flag (err e) s free b = b
admit_if-IsBounded now m p ps pr tx flag panicked s free b = b

pub enqueue_inner-IsBounded :
    {limit : ℕ} (latest now : ℕ) (model_id : String) (prompt : List ℕ) (params : InferenceParams)
    (priority : Priority) (tx : Bool) (flag : Option ℕ) (s : RequestQueue)
    → IsBounded limit s
    → IsBounded limit (enqueue_inner latest now model_id prompt params priority tx flag s).1
unfolding enqueue_inner
enqueue_inner-IsBounded latest now m p ps pr tx flag s b =
    elim (Option-cases (check_context p s.config.max_context_tokens)) [
      | inr (e, large) ↦ rw (large, enqueue_inner) b
      | inl fits ↦ elim (Bool-cases (is_at_limit s)) [
        | inl full ↦ rw (fits, full, enqueue_inner) b
        | inr free ↦
            rw (fits, free, enqueue_inner)
              (admit_if-IsBounded now m p ps pr tx flag (deadline_from latest now ps.timeout_ms) s
                free b)
      ]
    ]

pub enqueue_streaming-IsBounded :
    {limit : ℕ} (latest now : ℕ) (model_id : String) (prompt : List ℕ) (timeout_ms flag : ℕ)
    (s : RequestQueue)
    → IsBounded limit s
    → IsBounded limit (enqueue_streaming_controlled latest now model_id prompt timeout_ms flag s).1
unfolding enqueue_streaming_controlled admit_streaming
enqueue_streaming-IsBounded latest now m p ms flag s b =
    elim (Option-cases (check_context p s.config.max_context_tokens)) [
      | inr (e, large) ↦ rw (large, enqueue_streaming_controlled) b
      | inl fits ↦ elim (Bool-cases (ms == 0)) [
        | inl zero_ms ↦ rw (fits, zero_ms, enqueue_streaming_controlled) b
        | inr positive ↦ elim (Option-cases (add_time latest now ms)) [
          | inl late ↦ rw (fits, positive, late, enqueue_streaming_controlled) b
          | inr (d, due) ↦ elim (Bool-cases (is_at_limit s)) [
            | inl full ↦ rw (fits, positive, due, full, enqueue_streaming_controlled) b
            | inr free ↦
                rw (fits, positive, due, free, enqueue_streaming_controlled)
                  (b.0, omega (arith, b.0, length-append s.streaming (_ ∷ []), at_limit s free))
          ]
        ]
      ]
    ]
