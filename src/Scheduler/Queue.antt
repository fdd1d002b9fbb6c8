-- ===== src/Scheduler/Queue.antt =====
-- core-runtime/src/scheduler/queue.rs, queued_request.rs and streaming_queue.rs, and the stop error of
-- engine/request_control.rs. Every method is one step under the locks. Times are milliseconds of a
-- monotonic clock that ends at `latest`; a call reads it once, as `now`. A cancel flag is an index
-- into `flags`, which the callers share; `replies` is what went out on the response channels.
pub mod Ops
pub mod Served
pub mod Bounds
pub mod Calls
pub mod Tests
use gg_core.Prelude.{
  ℕ, zero, suc, ◌+◌, ◌/◌, ◌%◌, Bool, true, false, ◌||◌, Option, none, some, List, [], ◌∷◌, ◌++◌,
  length, get_elem?, set, ltb, leb, ◌==◌, if◌then◌else◌, String,
}
use gg_core.Scheduler.Priority.{Priority, PriorityQueue, u64, push, pop, len, iter}

pub record RequestQueueConfig : Type 0 where
  pub max_pending : ℕ
  pub max_context_tokens : ℕ

-- The field of the parameters that the queue reads.
pub record InferenceParams : Type 0 where
  pub timeout_ms : Option ℕ

-- `prompt` is the bytes of the text; `response_tx` says whether somebody waits for the result.
pub record QueuedRequest : Type 0 where
  pub id : ℕ
  pub model_id : String
  pub prompt : List ℕ
  pub params : InferenceParams
  pub enqueued_at : ℕ
  pub deadline : Option ℕ
  pub cancelled : ℕ
  pub response_tx : Bool

pub record StreamingQueuedRequest : Type 0 where
  pub id : ℕ
  pub model_id : String
  pub prompt : List ℕ
  pub timeout_ms : ℕ
  pub enqueued_at : ℕ
  pub deadline : Option ℕ
  pub cancelled : ℕ

pub data QueueError : Type 0 where
  queue_full invalid_timeout : QueueError
  context_too_large : ℕ → ℕ → QueueError

-- The errors of `StopControl::stop_error`.
pub data StopError : Type 0 where
  was_cancelled : StopError
  deadline_exceeded : ℕ → StopError

-- `panicked`: the deadline does not fit the clock.
pub data Outcome (A : Type 0) : Type 0 where
  ok : A → Outcome A
  err : QueueError → Outcome A
  panicked : Outcome A

-- `permit` is the one stored wake-up of the `Notify`.
pub record RequestQueue : Type 0 where
  pub queue : PriorityQueue QueuedRequest
  pub streaming : List StreamingQueuedRequest
  pub next_id : ℕ
  pub config : RequestQueueConfig
  pub permit : Bool
  pub flags : List Bool
  pub replies : List (ℕ × StopError)

abbrev pub bytes_per_token_estimate : ℕ
bytes_per_token_estimate = 4

unfoldable pub new : RequestQueueConfig → RequestQueue
new config = record {
  queue = record { heap = []; next_sequence = 0 };
  streaming = [];
  next_id = 1;
  config = config;
  permit = false;
  flags = [];
  replies = [];
}

-- The error, if the prompt is too large.
unfoldable pub check_context : List ℕ → ℕ → Option QueueError
check_context prompt max_tokens =
    let estimated = length prompt / bytes_per_token_estimate in
    if ltb max_tokens estimated then some (context_too_large estimated max_tokens) else none

-- Instant + Duration
abbrev pub add_time : ℕ → ℕ → ℕ → Option ℕ
add_time latest now ms = if ltb latest (now + ms) then none else some (now + ms)

-- The deadline of a request: a sum that does not fit panics.
unfoldable pub deadline_from : ℕ → ℕ → Option ℕ → Outcome (Option ℕ)
deadline_from latest now none = ok none
deadline_from latest now (some ms) = elim (add_time latest now ms) [
  | none ↦ panicked
  | some d ↦ ok (some d)
]

-- AtomicBool::load
abbrev pub flag_set : List Bool → ℕ → Bool
flag_set flags a = elim (get_elem? flags a) [ none ↦ false | some b ↦ b ]

-- deadline.is_some_and(|d| now > d)
abbrev pub past : ℕ → Option ℕ → Bool
past now none = false
past now (some d) = ltb d now

unfoldable pub is_cancelled : List Bool → QueuedRequest → Bool
is_cancelled flags r = flag_set flags r.cancelled

unfoldable pub is_expired : ℕ → QueuedRequest → Bool
is_expired now r = past now r.deadline

abbrev pub timeout_or_zero : Option ℕ → ℕ
timeout_or_zero none = 0
timeout_or_zero (some ms) = ms

-- stop_control().stop_error().unwrap_or(Cancelled)
unfoldable pub stop_error : ℕ → List Bool → QueuedRequest → StopError
unfolding is_cancelled is_expired
stop_error now flags r =
    if is_cancelled flags r
    then was_cancelled
    else if is_expired now r
    then deadline_exceeded (timeout_or_zero r.params.timeout_ms)
    else was_cancelled

unfoldable pub reject_unexecuted : ℕ → QueuedRequest → RequestQueue → RequestQueue
unfolding stop_error
reject_unexecuted now r s = record s {
  replies = if r.response_tx then s.replies ++ (r.id, stop_error now s.flags r) ∷ [] else s.replies;
}
