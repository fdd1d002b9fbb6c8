-- ===== src/Models/Pool/Calls.antt =====
-- The public calls of the pool (core-runtime/src/models/pool.rs).
use gg_core.Prelude.{
  ℕ, ◌+◌, ◌-◌, ◌*◌, ◌/◌, ◌%◌, Bool, true, false, Option, none, some, length, leb, if◌then◌else◌,
}
use gg_core.Prelude.HashMap as HashMap
use gg_core.Models.Pool.{
  word, model_not_found, already_loaded, Result, ok, err, ModelTier, PoolMetrics, PooledModel,
  ModelPool, SwitchResult, Gap, before_place, after_place, before_memory, after_memory, is_over,
  is_active, evict_one, evict_for_memory,
}

abbrev pub entry : {ModelId : Type 0} → ℕ → ModelId → ℕ → ModelTier → ℕ → PooledModel ModelId
entry now model_id handle tier memory_bytes = record {
  handle = handle;
  model_id = model_id;
  tier = tier;
  memory_bytes = memory_bytes;
  loaded_at = now;
  last_used = now;
  use_count = 0;
  warmup_complete = false;
}

-- The average over all hits so far; a u64 throughout.
abbrev pub record_switch : ℕ → PoolMetrics → PoolMetrics
record_switch latency m =
    let total = (m.pool_hits + 1) % word in
    record m {
      pool_hits = total;
      avg_switch_latency_ns =
          ((m.avg_switch_latency_ns * ((total + (word - 1)) % word) + latency) % word) / total;
    }

module _ {ModelId F : Type 0} (dec : Discrete ModelId) where
  -- A model is put in once there is room.
  abbrev pub put_in :
      PooledModel ModelId
      → Option (Result ModelId (Unit {0}) × ModelPool ModelId F)
      → Option (Result ModelId (Unit {0}) × ModelPool ModelId F)
  put_in m none = none
  put_in m (some (err e, p)) = some (err e, p)
  put_in m (some (ok _, p)) =
      some (ok tt, record p { models = HashMap.insert dec m.model_id m p.models })

  -- The lock is taken again after the loop.
  abbrev pub take_again :
      (ModelPool ModelId F → ModelPool ModelId F)
      → Option (Result ModelId (Unit {0}) × ModelPool ModelId F)
      → Option (Result ModelId (Unit {0}) × ModelPool ModelId F)
  take_again gap none = none
  take_again gap (some (err e, p)) = some (err e, p)
  take_again gap (some (ok _, p)) = some (ok tt, gap p)

  abbrev pub make_memory :
      (Gap → ModelPool ModelId F → ModelPool ModelId F)
      → (ℕ → ℕ)
      → ℕ
      → ℕ
      → Result ModelId ModelId × ModelPool ModelId F
      → Option (Result ModelId (Unit {0}) × ModelPool ModelId F)
  make_memory others clock rounds memory_bytes (err e, p) = some (err e, p)
  make_memory others clock rounds memory_bytes (ok _, p) =
      if is_over memory_bytes p
      then take_again (others after_memory)
          (evict_for_memory dec others clock rounds memory_bytes (others before_memory p))
      else some (ok tt, p)

  -- The result of an eviction, and the lock taken again.
  abbrev pub evicted :
      (ModelPool ModelId F → ModelPool ModelId F)
      → Result ModelId ModelId × ModelPool ModelId F
      → Result ModelId ModelId × ModelPool ModelId F
  evicted gap (err e, p) = (err e, p)
  evicted gap (ok id, p) = (ok id, gap p)

  -- A model's place is made by an eviction, where the pool is full.
  abbrev pub make_place :
      (Gap → ModelPool ModelId F → ModelPool ModelId F)
      → ℕ
      → ModelId
      → ModelPool ModelId F
      → Result ModelId ModelId × ModelPool ModelId F
  make_place others now id p =
      if leb p.config.max_models (length p.models)
      then evicted (others after_place) (evict_one dec now (others before_place p))
      else (ok id, p)

  -- `now` is the time of the insertion.
  unfoldable pub preload :
      (Gap → ModelPool ModelId F → ModelPool ModelId F)
      → (ℕ → ℕ)
      → ℕ
      → ℕ
      → ModelId
      → ℕ
      → ModelTier
      → ℕ
      → ModelPool ModelId F
      → Option (Result ModelId (Unit {0}) × ModelPool ModelId F)
  unfolding evict_for_memory evict_one
  preload others clock rounds now model_id handle tier memory_bytes p =
      if HashMap.contains_key dec model_id p.models
      then some (err (already_loaded model_id), p)
      else put_in (entry now model_id handle tier memory_bytes) (
          make_memory others clock rounds memory_bytes
            (make_place others (clock rounds) model_id p))

  unfoldable pub switch_to :
      ℕ → ℕ → ModelId → ModelPool ModelId F → Result ModelId SwitchResult × ModelPool ModelId F
  switch_to now switch_latency model_id p = elim (HashMap.get dec model_id p.models) [
    | none ↦ (err (model_not_found model_id), p)
    | some m ↦ (
      ok (record {
        handle = m.handle;
        switch_latency = switch_latency;
        was_preloaded = true;
        was_warmed = m.warmup_complete;
      }),
      record p {
        models =
            HashMap.modify dec model_id
              (λ x. record x { last_used = now; use_count = (x.use_count + 1) % word }) p.models;
        active_model = some model_id;
        metrics = record_switch switch_latency p.metrics;
      },
    )
  ]

  unfoldable pub mark_warmed : ModelId → ModelPool ModelId F → ModelPool ModelId F
  mark_warmed model_id p = elim (HashMap.get dec model_id p.models) [
    | none ↦ p
    | some m ↦ record p {
      models = HashMap.modify dec model_id (λ x. record x { warmup_complete = true }) p.models;
      metrics = record p.metrics { warmups_completed = (p.metrics.warmups_completed + 1) % word };
    }
  ]

  unfoldable pub contains : ModelId → ModelPool ModelId F → Bool
  contains model_id p = HashMap.contains_key dec model_id p.models

  unfoldable pub remove : ModelId → ModelPool ModelId F → Option ℕ × ModelPool ModelId F
  remove model_id p = elim (HashMap.get dec model_id p.models) [
    | none ↦ (none, p)
    | some m ↦ (
      some m.handle,
      record p {
        models = HashMap.remove dec model_id p.models;
        active_model = if is_active dec p.active_model model_id then none else p.active_model;
      },
    )
  ]
