-- ===== src/Scheduler/Batch/Tests.antt =====
-- Batches of a few requests.
use gg_core.Prelude.{ℕ, ◌≡◌, List, [], ◌∷◌, All, none, false, replicate}
use gg_core.Scheduler.Queue.{QueuedRequest}
use gg_core.Scheduler.Batch.{BatchConfig, create_batches}
use gg_core.Scheduler.Batch.Limits.{contents, IsFit, create_batches_lem}

abbrev sized : ℕ → QueuedRequest
sized n = record {
  id = n;
  model_id = "m";
  prompt = replicate n 0;
  params = record { timeout_ms = none };
  enqueued_at = 0;
  deadline = none;
  cancelled = 0;
  response_tx = false;
}

abbrev few : BatchConfig
few = record { max_batch_size = 2; max_total_tokens = 4 }

abbrev four_requests : List QueuedRequest
four_requests = sized 4 ∷ sized 9 ∷ sized 40 ∷ sized 1 ∷ []

create_batches_lem_example :
    (contents (create_batches few four_requests) ≡ four_requests)
    × All (IsFit few) (create_batches few four_requests)
create_batches_lem_example = create_batches_lem few four_requests
