-- ===== src/Scheduler/Batch.antt =====
-- core-runtime/src/scheduler/batch.rs: requests are put together in batches of bounded size.
pub mod Limits
pub mod Tests
use gg_core.Prelude.{
  ℕ, zero, suc, ◌+◌, ◌/◌, ◌≤◌, ◌<◌, ◌≡◌, refl, sym, ap, ◌∙◌, ◌⊎◌, inl, inr, Bool, true, false, ◌&&◌,
  not, List, [], ◌∷◌, ◌++◌, length, leb, ◌==◌, if◌then◌else◌, arith, Bool-cases, All, length-append,
}
use gg_core.Scheduler.Queue.{QueuedRequest}

pub record BatchConfig : Type 0 where
  pub max_batch_size : ℕ
  pub max_total_tokens : ℕ

pub record RequestBatch : Type 0 where
  pub requests : List QueuedRequest
  pub total_tokens : ℕ

abbrev pub empty_batch : RequestBatch
empty_batch = record { requests = []; total_tokens = 0 }

-- prompt.len().div_ceil(4)
abbrev pub estimated_tokens : QueuedRequest → ℕ
estimated_tokens r = (length r.prompt + 3) / 4

unfoldable pub can_add : BatchConfig → RequestBatch → QueuedRequest → Bool
can_add config batch request =
    if leb config.max_batch_size (length batch.requests)
    then false
    else leb (batch.total_tokens + estimated_tokens request) config.max_total_tokens

unfoldable pub add : RequestBatch → QueuedRequest → RequestBatch
add batch request = record {
  requests = batch.requests ++ request ∷ [];
  total_tokens = batch.total_tokens + estimated_tokens request;
}

-- The batches and the current batch, after one more request.
unfoldable pub add_next :
    BatchConfig
    → List RequestBatch × RequestBatch
    → QueuedRequest
    → List RequestBatch × RequestBatch
add_next config (batches, current) request =
    if not (can_add config current request) && not (length current.requests == 0)
    then (batches ++ current ∷ [], add empty_batch request)
    else (batches, add current request)

unfoldable pub batch_loop :
    BatchConfig
    → List QueuedRequest
    → List RequestBatch × RequestBatch
    → List RequestBatch × RequestBatch
unfolding add_next
batch_loop config [] state = state
batch_loop config (r ∷ rs) state = batch_loop config rs (add_next config state r)

abbrev pub close : List RequestBatch × RequestBatch → List RequestBatch
close (batches, current) = if length current.requests == 0 then batches else batches ++ current ∷ []

unfoldable pub create_batches : BatchConfig → List QueuedRequest → List RequestBatch
unfolding batch_loop
create_batches config requests = close (batch_loop config requests ([], empty_batch))
