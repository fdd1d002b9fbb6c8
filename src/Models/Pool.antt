-- ===== src/Models/Pool.antt =====
-- core-runtime/src/models/pool.rs and pool_types.rs: models that stay loaded to be switched to at once.
-- An id, a string in the source, is of any type with decidable equality. Times are in nanoseconds;
-- `clock n` is what an eviction of a call reads, where n rounds are left. `others g` is what other tasks do
-- to the pool in a gap of a call, where it holds no lock; any other call is one step.
pub mod Calls
pub mod Evict
pub mod Preload
pub mod Score
pub mod Tests
use gg_core.Prelude.{
  ℕ, zero, suc, ◌+◌, ◌-◌, ◌*◌, ◌/◌, ◌%◌, ◌^◌, min, Bool, true, false, Option, none, some, List, [],
  ◌∷◌, map, length, ltb, leb, if◌then◌else◌, String,
}
use gg_core.Prelude.HashMap as HashMap
use gg_core.Prelude.MinBy.{min_by_key}
use gg_core.Models.Registry.{ModelRegistry, unregister}

abbrev pub word : ℕ
word = 2 ^ 64

pub data PoolError (ModelId : Type 0) : Type 0 where
  capacity_exceeded : ℕ → ℕ → PoolError ModelId
  model_not_found : ModelId → PoolError ModelId
  already_loaded : ModelId → PoolError ModelId
  eviction_failed : PoolError ModelId

pub data Result (ModelId A : Type 0) : Type 0 where
  ok : A → Result ModelId A
  err : PoolError ModelId → Result ModelId A

pub data ModelTier : Type 0 where
  testing default quality : ModelTier

-- self.tier as u64
abbrev pub tier_number : ModelTier → ℕ
tier_number testing = 0
tier_number default = 1
tier_number quality = 2

pub record PoolConfig : Type 0 where
  pub max_models : ℕ
  pub max_memory_bytes : ℕ
  pub warmup_prompt : String
  pub enable_preload : Bool

pub record PoolMetrics : Type 0 where
  pub pool_hits : ℕ
  pub pool_misses : ℕ
  pub evictions : ℕ
  pub warmups_completed : ℕ
  pub avg_switch_latency_ns : ℕ

pub record PooledModel (ModelId : Type 0) : Type 0 where
  pub handle : ℕ
  pub model_id : ModelId
  pub tier : ModelTier
  pub memory_bytes : ℕ
  pub loaded_at : ℕ
  pub last_used : ℕ
  pub use_count : ℕ
  pub warmup_complete : Bool

pub record ModelPool (ModelId F : Type 0) : Type 0 where
  pub config : PoolConfig
  pub registry : ModelRegistry F
  pub models : List (ModelId × PooledModel ModelId)
  pub active_model : Option ModelId
  pub metrics : PoolMetrics

pub record SwitchResult : Type 0 where
  pub handle : ℕ
  pub switch_latency : ℕ
  pub was_preloaded : Bool
  pub was_warmed : Bool

-- Where a call has given up its lock and takes it again: around the evictions of preload, and around
-- those of the loop, by the rounds that are left.
pub data Gap : Type 0 where
  before_place after_place before_memory after_memory : Gap
  before_eviction after_eviction : ℕ → Gap

-- last_used.elapsed().as_secs()
abbrev pub idle_seconds : {ModelId : Type 0} → ℕ → PooledModel ModelId → ℕ
idle_seconds now m = (now - m.last_used) / 1000000000

-- The sum and the difference of the source wrap around.
unfoldable pub eviction_score : {ModelId : Type 0} → ℕ → PooledModel ModelId → ℕ
eviction_score now m =
    (tier_number m.tier * 1000000 + min m.use_count 1000 + (word - min (idle_seconds now m) 999))
    % word

abbrev pub memory_of : {ModelId : Type 0} → List (ModelId × PooledModel ModelId) → ℕ
memory_of [] = 0
memory_of ((k, m) ∷ ms) = m.memory_bytes + memory_of ms

-- current + needed > max_memory_bytes, with the sum of machine words
abbrev pub is_over : {ModelId F : Type 0} → ℕ → ModelPool ModelId F → Bool
is_over needed p = ltb p.config.max_memory_bytes ((memory_of p.models + needed) % word)

module _ {ModelId F : Type 0} where
  unfoldable pub new : PoolConfig → ModelRegistry F → ModelPool ModelId F
  new config registry = record {
    config = config;
    registry = registry;
    models = [];
    active_model = none;
    metrics = record {
      pool_hits = 0;
      pool_misses = 0;
      evictions = 0;
      warmups_completed = 0;
      avg_switch_latency_ns = 0;
    };
  }

module _ {ModelId : Type 0} (dec : Discrete ModelId) where
  -- active.as_ref() == Some(id)
  abbrev pub is_active : Option ModelId → ModelId → Bool
  is_active none id = false
  is_active (some a) id = elim (dec a id) [ yes _ ↦ true | no _ ↦ false ]

  -- The entries that may go: all but that of the active model.
  unfoldable pub evictable :
      Option ModelId → List (ModelId × PooledModel ModelId) → List (ModelId × PooledModel ModelId)
  evictable active [] = []
  evictable active ((k, m) ∷ ms) =
      let rest = evictable active ms in if is_active active k then rest else (k, m) ∷ rest

module _ {ModelId F : Type 0} (dec : Discrete ModelId) where
  -- What is left when the model of an id, which has one, is taken out and given back to the registry.
  abbrev pub take_out : ModelId → ModelPool ModelId F → ModelPool ModelId F
  take_out id p = record p {
    registry = elim (HashMap.get dec id p.models) [
      | none ↦ p.registry
      | some m ↦ (unregister m.handle p.registry).1
    ];
    models = HashMap.remove dec id p.models;
    metrics = record p.metrics { evictions = (p.metrics.evictions + 1) % word };
  }

  unfoldable pub evict_one : ℕ → ModelPool ModelId F → Result ModelId ModelId × ModelPool ModelId F
  unfolding evictable
  evict_one now p = elim (min_by_key (eviction_score now) (evictable dec p.active_model p.models)) [
    | none ↦ (err eviction_failed, p)
    | some (id, m) ↦ (ok id, take_out id p)
  ]

  -- What follows an eviction: the next round, or the error.
  abbrev pub go_on :
      (ModelPool ModelId F → Option (Result ModelId (Unit {0}) × ModelPool ModelId F))
      → Result ModelId ModelId × ModelPool ModelId F
      → Option (Result ModelId (Unit {0}) × ModelPool ModelId F)
  go_on again (err e, p) = some (err e, p)
  go_on again (ok _, p) = again p

  -- The loop for a number of rounds; none where more are needed. Between the test of a round and its
  -- eviction, and after it, no lock is held.
  unfoldable pub evict_loop :
      (Gap → ModelPool ModelId F → ModelPool ModelId F)
      → (ℕ → ℕ)
      → ℕ
      → ℕ
      → ModelPool ModelId F
      → Option (Result ModelId (Unit {0}) × ModelPool ModelId F)
  unfolding evict_one
  evict_loop others clock zero needed_bytes p = none
  evict_loop others clock (suc n) needed_bytes p =
      let again =
        go_on (λ q. evict_loop others clock n needed_bytes (others (after_eviction n) q))
          (evict_one (clock n) (others (before_eviction n) p)) in
      if is_over needed_bytes p then again else some (ok tt, p)

  unfoldable pub evict_for_memory :
      (Gap → ModelPool ModelId F → ModelPool ModelId F)
      → (ℕ → ℕ)
      → ℕ
      → ℕ
      → ModelPool ModelId F
      → Option (Result ModelId (Unit {0}) × ModelPool ModelId F)
  unfolding evict_loop
  evict_for_memory others clock rounds needed_bytes p =
      evict_loop others clock rounds needed_bytes p
