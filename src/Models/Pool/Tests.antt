-- ===== src/Models/Pool/Tests.antt =====
-- A pool of two models, of which the first is active, at ten seconds.
use gg_core.Prelude.{
  ℕ, ◌≡◌, refl, true, false, Option, none, some, length, [], ◌∷◌, All, ℕ_discrete, arith,
}
use gg_core.Prelude.HashMap as HashMap
use gg_core.Prelude.MinBy.{min_by_key}
use gg_core.Models.Pool.{
  Gap, before_place, after_place, before_memory, after_memory, before_eviction, after_eviction,
  Result, ok, testing, default, quality, PooledModel, ModelPool, ModelTier, eviction_score,
  evictable, evict_one, evict_for_memory,
}
use gg_core.Models.Pool.Calls.{preload}
use gg_core.Models.Pool.Evict.{evict_one-Shrinks, Settles, evict_for_memory-Settles}
use gg_core.Models.Pool.Score.{IsIdleTesting, evict_one-testing_last}

abbrev pooled : ℕ → ModelTier → ℕ → PooledModel ℕ
pooled id tier used = record {
  handle = id;
  model_id = id;
  tier = tier;
  memory_bytes = 40;
  loaded_at = 0;
  last_used = used;
  use_count = 0;
  warmup_complete = false;
}

abbrev pool_of : PooledModel ℕ → PooledModel ℕ → ModelPool ℕ ℕ
pool_of a b = record {
  config = record {
    max_models = 2;
    max_memory_bytes = 100;
    warmup_prompt = "Hello";
    enable_preload = true;
  };
  registry = record { models = []; next_id = 4 };
  models = (1, a) ∷ (2, b) ∷ [];
  active_model = some 1;
  metrics = record {
    pool_hits = 0;
    pool_misses = 0;
    evictions = 0;
    warmups_completed = 0;
    avg_switch_latency_ns = 0;
  };
}

abbrev full_pool : ModelPool ℕ ℕ
full_pool = pool_of (pooled 1 quality 0) (pooled 2 default 0)

-- An idle model of the testing tier beside one of the quality tier, neither of them active.
abbrev idle_pool : ModelPool ℕ ℕ
idle_pool = record (pool_of (pooled 1 quality 0) (pooled 2 testing 0)) { active_model = none }

-- The second model is idle and of the testing tier, the first one is active.
abbrev testing_pool : ModelPool ℕ ℕ
testing_pool = pool_of (pooled 1 quality 0) (pooled 2 testing 0)

evicts_quality : (evict_one ℕ_discrete 10000000000 idle_pool).0 ≡ ok 1
unfolding evict_one eviction_score min_by_key
evicts_quality = refl

-- Another task evicts a model in every gap.
abbrev evicting : Gap → ModelPool ℕ ℕ → ModelPool ℕ ℕ
evicting g p = (evict_one ℕ_discrete 7 p).1

evict_for_memory-Settles_example :
    (o : Result ℕ (Unit {0}) × ModelPool ℕ ℕ) × (evict_for_memory ℕ_discrete evicting
        (λ n. n)
        3
        200
        full_pool
      ≡ some o)
    × Settles ℕ_discrete evicting 200 full_pool o
evict_for_memory-Settles_example =
    evict_for_memory-Settles ℕ_discrete evicting (λ n. n) 3 200 full_pool
      (λ g q. evict_one-Shrinks ℕ_discrete 7 q) (omega arith) (omega arith)

-- Another task puts a model in where this one has made its place.
abbrev inserting : Gap → ModelPool ℕ ℕ → ModelPool ℕ ℕ
inserting after_place p = record p {
  models = HashMap.insert ℕ_discrete 5 (pooled 5 default 0) p.models;
}
inserting before_place p = p
inserting before_memory p = p
inserting after_memory p = p
inserting (before_eviction n) p = p
inserting (after_eviction n) p = p

abbrev size_after : Option (Result ℕ (Unit {0}) × ModelPool ℕ ℕ) → ℕ
size_after none = 0
size_after (some (r, p)) = length p.models

-- Then the pool holds three models where two are allowed.
two_preloads : size_after (preload ℕ_discrete inserting (λ n. n) 3 5 3 9 testing 20 full_pool) ≡ 3
unfolding preload evict_one evictable eviction_score min_by_key HashMap.contains_key HashMap.get
    HashMap.insert HashMap.remove ℕ_discrete
two_preloads = refl

evicts_testing : (evict_one ℕ_discrete 10000000000 testing_pool).0 ≡ ok 2
unfolding evict_one eviction_score min_by_key ℕ_discrete
evicts_testing = refl

evict_one-testing_last_example :
    (m : PooledModel ℕ) × (min_by_key
        (eviction_score 10000000000)
        (evictable ℕ_discrete (some 1) testing_pool.models)
      ≡ some (2, m))
    × (IsIdleTesting 10000000000 m
        → All (λ x. x.1.tier ≡ testing) (evictable ℕ_discrete (some 1) testing_pool.models))
evict_one-testing_last_example =
    evict_one-testing_last ℕ_discrete 10000000000 testing_pool 2 evicts_testing
