-- ===== src/Models/Pool/Preload.antt =====
-- Preloading keeps the limits of the pool (core-runtime/src/models/pool.rs).
use gg_core.Prelude.{◌≤◌, ◌≡◌, ◌≢◌, ◌⊎◌, none, some, length}
use gg_core.Prelude.HashMap as HashMap
use gg_core.Models.Pool.{
  eviction_failed, already_loaded, Result, ok, err, PooledModel, ModelPool, memory_of,
}

pub record IsWithin {ModelId F : Type 0} (p : ModelPool ModelId F) : Type 0 where
  pub few : length p.models ≤ p.config.max_models
  pub small : memory_of p.models ≤ p.config.max_memory_bytes

module _ {ModelId F : Type 0} (dec : Discrete ModelId) where
  -- The pool after a preload, by its result.
  abbrev pub Preloads :
      PooledModel ModelId
      → ModelPool ModelId F
      → Result ModelId (Unit {0}) × ModelPool ModelId F
      → Type 0
  Preloads m p (ok _, p') =
      IsWithin p'
      × (HashMap.get dec m.model_id p.models ≡ none)
      × (HashMap.get dec m.model_id p'.models ≡ some m)
      × ((a : ModelId)
          → p.active_model ≡ some a
          → m.model_id ≢ a
          → HashMap.get dec a p'.models ≡ HashMap.get dec a p.models)
  Preloads m p (err e, p') =
      IsWithin p'
      × (HashMap.get dec m.model_id p'.models ≡ HashMap.get dec m.model_id p.models)
      × (((e ≡ already_loaded m.model_id) × (p' ≡ p)) ⊎ (e ≡ eviction_failed))
