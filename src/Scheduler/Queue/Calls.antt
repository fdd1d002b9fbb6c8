-- ===== src/Scheduler/Queue/Calls.antt =====
-- Sequences of calls on the request queue (core-runtime/src/scheduler/queue.rs).
use gg_core.Prelude.{ℕ, ◌≤◌, refl, Bool, Option, List, [], ◌∷◌, arith, String}
use gg_core.Scheduler.Priority.{Priority, len}
use gg_core.Scheduler.Queue.{RequestQueue, RequestQueueConfig, InferenceParams, new}
use gg_core.Scheduler.Queue.Ops.{
  enqueue_inner, cancel, dequeue, enqueue_streaming_controlled, dequeue_streaming, wait_and_dequeue,
}
use gg_core.Scheduler.Queue.Bounds.{
  pending, IsBounded, Shrinks-IsBounded, dequeue-Shrinks, cancel-Shrinks, dequeue_streaming-Shrinks,
  wait-Shrinks, enqueue_inner-IsBounded, enqueue_streaming-IsBounded,
}

-- The methods that change the state, each with the reading of the clock.
pub data Call : Type 0 where
  enqueue : ℕ → String → List ℕ → InferenceParams → Priority → Bool → Option ℕ → Call
  enqueue_stream : ℕ → String → List ℕ → ℕ → ℕ → Call
  cancel_id : ℕ → Call
  take : ℕ → Call
  take_stream : Call
  wait_take : ℕ → Call

module _ (latest : ℕ) where
  abbrev pub step : RequestQueue → Call → RequestQueue
  step s (enqueue now m p ps pr tx flag) = (enqueue_inner latest now m p ps pr tx flag s).1
  step s (enqueue_stream now m p ms flag) =
      (enqueue_streaming_controlled latest now m p ms flag s).1
  step s (cancel_id id) = (cancel id s).1
  step s (take now) = (dequeue now s).1
  step s take_stream = (dequeue_streaming s).1
  step s (wait_take now) = (wait_and_dequeue now s).1

  abbrev pub run : RequestQueue → List Call → RequestQueue
  run s [] = s
  run s (c ∷ cs) = run (step s c) cs

  step-IsBounded :
      {limit : ℕ} (c : Call) (s : RequestQueue) → IsBounded limit s → IsBounded limit (step s c)
  step-IsBounded (enqueue now m p ps pr tx flag) s =
      enqueue_inner-IsBounded latest now m p ps pr tx flag s
  step-IsBounded (enqueue_stream now m p ms flag) s =
      enqueue_streaming-IsBounded latest now m p ms flag s
  step-IsBounded (cancel_id id) s = Shrinks-IsBounded (cancel-Shrinks id s)
  step-IsBounded (take now) s = Shrinks-IsBounded (dequeue-Shrinks now s)
  step-IsBounded take_stream s = Shrinks-IsBounded (dequeue_streaming-Shrinks s)
  step-IsBounded (wait_take now) s = Shrinks-IsBounded (wait-Shrinks now s)

  run-IsBounded :
      {limit : ℕ} (cs : List Call) (s : RequestQueue)
      → IsBounded limit s
      → IsBounded limit (run s cs)
  run-IsBounded [] s b = b
  run-IsBounded (c ∷ cs) s b = run-IsBounded cs (step s c) (step-IsBounded c s b)

  -- After any calls on a new queue, whatever they return, the requests and streams that wait are
  -- together at most the configured limit.
  pub run-new-IsBounded :
      (config : RequestQueueConfig) (cs : List Call)
      → let s = run (new config) cs in pending s ≤ config.max_pending
  unfolding new len
  run-new-IsBounded config cs = (run-IsBounded cs (new config) (refl, omega arith)).1
