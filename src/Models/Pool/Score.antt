-- ===== src/Models/Pool/Score.antt =====
-- What the wrap-around of the eviction score does to models of the testing tier
-- (core-runtime/src/models/pool.rs).
use gg_core.Prelude.{
  ℕ, ◌^◌, ◌≤◌, ◌<◌, ◌≡◌, refl, inl, inr, ◌∙◌, ap, some, List, [], ◌∷◌, Option-cases, All, arith,
}
use gg_core.Prelude.MinBy.{min_by_key, min_by_key-least}
use gg_core.Models.Pool.{
  ModelTier, testing, default, quality, PooledModel, ModelPool, ok, idle_seconds, eviction_score,
  evictable, evict_one,
}

module _ {ModelId : Type 0} (now : ℕ) where
  -- A model of the testing tier that was used less often than it is idle for seconds.
  abbrev pub IsIdleTesting : PooledModel ModelId → Type 0
  IsIdleTesting m = (m.tier ≡ testing) × (m.use_count < idle_seconds now m) × (m.use_count < 999)

  score_high : (m : PooledModel ModelId) → IsIdleTesting m → 2 ^ 32 ≤ eviction_score now m
  unfolding eviction_score
  score_high m (lowest, idle, few) = rw lowest (omega (arith, idle, few))

  score_low :
      (m : PooledModel ModelId) (t : ModelTier)
      → m.tier ≡ t
      → (m.tier ≡ testing → ⊥)
      → eviction_score now m < 2 ^ 32
  unfolding eviction_score
  score_low m testing e h = absurd (h e)
  score_low m default e h = rw e (omega arith)
  score_low m quality e h = rw e (omega arith)

  only_testing :
      (m : PooledModel ModelId)
      → IsIdleTesting m
      → (n : PooledModel ModelId) (t : ModelTier) → n.tier ≡ t
      → eviction_score now m ≤ eviction_score now n
      → n.tier ≡ testing
  only_testing m idle n testing e h = e
  only_testing m idle n default e h =
      absurd (omega (arith, score_high m idle, score_low n default e (λ t. cc), h))
  only_testing m idle n quality e h =
      absurd (omega (arith, score_high m idle, score_low n quality e (λ t. cc), h))

  all_testing :
      (m : PooledModel ModelId)
      → IsIdleTesting m
      → (ms : List (ModelId × PooledModel ModelId))
      → All (λ x. eviction_score now m ≤ eviction_score now x.1) ms
      → All (λ x. x.1.tier ≡ testing) ms
  all_testing m idle [] h = tt
  all_testing m idle ((k, n) ∷ ms) (h, hs) =
      (only_testing m idle n n.tier refl h, all_testing m idle ms hs)

module _ {ModelId F : Type 0} (dec : Discrete ModelId) where
  -- An eviction takes an entry of a model that may go and, where this is a model of the testing tier
  -- that was used fewer than 999 times and less often than it is idle for seconds, every model that may
  -- go is of the testing tier: a model of a higher tier would have gone first.
  pub evict_one-testing_last :
      (now : ℕ) (p : ModelPool ModelId F) (id : ModelId)
      → (evict_one dec now p).0 ≡ ok id
      → (m : PooledModel ModelId) × (min_by_key
            (eviction_score now)
            (evictable dec p.active_model p.models)
          ≡ some (id, m))
        × (IsIdleTesting now m
            → All (λ x. x.1.tier ≡ testing) (evictable dec p.active_model p.models))
  unfolding evict_one
  evict_one-testing_last now p id h =
      let rest = evictable dec p.active_model p.models in
      elim (Option-cases (min_by_key (eviction_score now) rest)) [
        | inl e ↦ absurd (ground (arith, e, h))
        | inr ((k, m), e) ↦
            let same : k ≡ id = ground (arith, e, h) in
            (
              m,
              e ∙ ap (λ j. some (j, m)) same,
              λ idle.
                  all_testing now m idle rest (min_by_key-least (eviction_score now) rest (k, m) e),
            )
      ]
