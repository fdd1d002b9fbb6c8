-- ===== src/Models/Pool/Evict.antt =====
-- Eviction from the pool (core-runtime/src/models/pool.rs): what one round takes out, and that the loop
-- for memory ends.
use gg_core.Prelude.{
  ℕ, zero, suc, ◌+◌, ◌^◌, ◌≤◌, ◌<◌, ◌≡◌, ◌≢◌, refl, sym, ap, ◌∙◌, ◌⊎◌, inl, inr, false, Option,
  none, some, List, [], ◌∷◌, length, if◌then◌else◌, Bool-cases, Option-cases, arith,
}
use gg_core.Prelude.HashMap as HashMap
use gg_core.Prelude.MinBy.{min_by_key, min_by_key-found, min_by_key-none}
use gg_core.Models.Pool.{
  eviction_failed, Result, ok, err, PooledModel, ModelPool, eviction_score, memory_of, is_over,
  is_active, evictable, word, Gap, before_eviction, after_eviction, take_out, evict_one, evict_loop,
  evict_for_memory,
}

-- A pool that lost some models, but not the active one.
pub record Shrinks {ModelId F : Type 0} (dec : Discrete ModelId) (p p' : ModelPool ModelId F)
    : Type 0 where
  pub fewer : length p'.models ≤ length p.models
  pub smaller : memory_of p'.models ≤ memory_of p.models
  pub same_active : p'.active_model ≡ p.active_model
  pub same_config : p'.config ≡ p.config
  pub kept :
      (a : ModelId)
      → p.active_model ≡ some a
      → HashMap.get dec a p'.models ≡ HashMap.get dec a p.models
  pub absent :
      (q : ModelId) → HashMap.get dec q p.models ≡ none → HashMap.get dec q p'.models ≡ none

module _ {ModelId : Type 0} (dec : Discrete ModelId) where
  get-evictable :
      (active : Option ModelId) (q : ModelId) (ms : List (ModelId × PooledModel ModelId))
      → HashMap.get dec q (evictable dec active ms)
        ≡ (if is_active dec active q then none else HashMap.get dec q ms)
  unfolding evictable HashMap.get
  get-evictable active q [] = ground arith
  get-evictable none q ((k, m) ∷ ms) = ground (arith, get-evictable none q ms)
  get-evictable (some a) q ((k, m) ∷ ms) = ground (arith, get-evictable (some a) q ms)

  pub memory_of-remove :
      (k : ModelId) (ms : List (ModelId × PooledModel ModelId))
      → memory_of (HashMap.remove dec k ms) ≤ memory_of ms
  unfolding HashMap.remove
  memory_of-remove k [] = omega arith
  memory_of-remove k ((j, m) ∷ ms) = ground (arith, memory_of-remove k ms)

  -- An id with an entry that may go has an entry, and is not the active one.
  evictable-found :
      (active : Option ModelId) (q : ModelId) (ms : List (ModelId × PooledModel ModelId))
      (m : PooledModel ModelId)
      → HashMap.get dec q (evictable dec active ms) ≡ some m
      → (is_active dec active q ≡ false) × (HashMap.get dec q ms ≡ some m)
  evictable-found active q ms m h =
      let e = sym (get-evictable active q ms) ∙ h in
      elim (Bool-cases (is_active dec active q)) [
        | inl yes_active ↦ absurd (ground (arith, e, yes_active))
        | inr free ↦ (free, ground (arith, e, free))
      ]

  not_active :
      (active : Option ModelId) (a q : ModelId)
      → active ≡ some a
      → is_active dec active q ≡ false
      → q ≢ a
  not_active none a q h free e = cc
  not_active (some b) a q h free e = ground (arith, h, free, e)

module _ {ModelId F : Type 0} (dec : Discrete ModelId) where
  pub Shrinks-refl : (p : ModelPool ModelId F) → Shrinks dec p p
  Shrinks-refl p = record {
    fewer = omega arith;
    smaller = omega arith;
    same_active = refl;
    same_config = refl;
    kept = λ a h. refl;
    absent = λ q h. h;
  }

  pub Shrinks-trans :
      {p q r : ModelPool ModelId F} → Shrinks dec p q → Shrinks dec q r → Shrinks dec p r
  Shrinks-trans s t = record {
    fewer = omega (arith, s.fewer, t.fewer);
    smaller = omega (arith, s.smaller, t.smaller);
    same_active = t.same_active ∙ s.same_active;
    same_config = t.same_config ∙ s.same_config;
    kept = λ a h. t.kept a (s.same_active ∙ h) ∙ s.kept a h;
    absent = λ q h. t.absent q (s.absent q h);
  }

  -- Only the active model has an entry.
  abbrev pub OnlyActive : ModelPool ModelId F → Type 0
  OnlyActive p =
      (q : ModelId) → is_active dec p.active_model q ≡ false → HashMap.get dec q p.models ≡ none

  -- One eviction: none is possible, or a model that is not active is taken out.
  abbrev pub Evicts : ℕ → ModelPool ModelId F → Type 0
  Evicts now p =
      ((evict_one dec now p ≡ (err eviction_failed, p)) × OnlyActive p)
      ⊎ ((id : ModelId) × (m : PooledModel ModelId) × (evict_one dec now p
            ≡ (ok id, take_out dec id p))
          × (is_active dec p.active_model id ≡ false)
          × (HashMap.get dec id p.models ≡ some m))

  pub evict_one-Evicts : (now : ℕ) (p : ModelPool ModelId F) → Evicts now p
  unfolding evict_one HashMap.get
  evict_one-Evicts now p =
      let some_go = evictable dec p.active_model p.models in
      elim (Option-cases (min_by_key (eviction_score now) some_go)) [
        | inl e ↦ inl (
          rw (e, evict_one) refl,
          λ q free.
              let empty = min_by_key-none dec (eviction_score now) some_go e in
              ground (
                arith,
                free,
                sym (get-evictable dec p.active_model q p.models) ∙ ap (HashMap.get dec q) empty,
              ),
        )
        | inr (x, e) ↦
            let (m, found) = min_by_key-found dec (eviction_score now) some_go x e in
            let (free, there) = evictable-found dec p.active_model x.0 p.models m found in
            inr (x.0, m, rw (e, evict_one) refl, free, there)
      ]

  pub take_out-Shrinks :
      (id : ModelId) (m : PooledModel ModelId) (p : ModelPool ModelId F)
      → is_active dec p.active_model id ≡ false
      → HashMap.get dec id p.models ≡ some m
      → Shrinks dec p (take_out dec id p)
        × (length (take_out dec id p).models + 1 ≤ length p.models)
  take_out-Shrinks id m p free found =
      let less = HashMap.length-remove-lt dec id p.models m found in
      (
        record {
          fewer = omega (arith, less);
          smaller = memory_of-remove dec id p.models;
          same_active = refl;
          same_config = refl;
          kept = λ a h.
              HashMap.get-remove_ne dec id a p.models (not_active dec p.active_model a id h free);
          absent = λ q h. HashMap.get-remove dec id q p.models ∙ ground (arith, h);
        },
        less,
      )

  -- An eviction by another task is one of the things that may happen in a gap.
  pub evict_one-Shrinks :
      (now : ℕ) (p : ModelPool ModelId F) → Shrinks dec p (evict_one dec now p).1
  evict_one-Shrinks now p = elim (evict_one-Evicts now p) [
    | inl (e, only) ↦ rw e (Shrinks-refl p)
    | inr (id, m, e, free, found) ↦ rw e (take_out-Shrinks id m p free found).0
  ]

  -- What other tasks do in every gap only takes models out, and not the active one.
  abbrev pub OnlyEvict : (Gap → ModelPool ModelId F → ModelPool ModelId F) → Type 0
  OnlyEvict others = (g : Gap) (q : ModelPool ModelId F) → Shrinks dec q (others g q)

  -- The bytes fit beside what the pool holds.
  abbrev pub HasRoom : ℕ → ModelPool ModelId F → Type 0
  HasRoom needed p = memory_of p.models + needed ≤ p.config.max_memory_bytes

  module _ (others : Gap → ModelPool ModelId F → ModelPool ModelId F) where
    -- How the loop for memory ends: there is room; or there was none at the last test, and after the
    -- gap behind it only the active model is left.
    abbrev pub Settles :
        ℕ → ModelPool ModelId F → Result ModelId (Unit {0}) × ModelPool ModelId F → Type 0
    Settles needed p (ok _, p') = Shrinks dec p p' × HasRoom needed p'
    Settles needed p (err e, p') =
        (e ≡ eviction_failed)
        × ((tested : ModelPool ModelId F) × (left : ℕ) × Shrinks dec p tested
            × (¬ HasRoom needed tested)
            × (p' ≡ others (before_eviction left) tested)
            × OnlyActive p')

    Settles-trans :
        (needed : ℕ) (p q : ModelPool ModelId F)
        (o : Result ModelId (Unit {0}) × ModelPool ModelId F)
        → Shrinks dec p q
        → Settles needed q o
        → Settles needed p o
    Settles-trans needed p q (ok _, p') s (t, room) = (Shrinks-trans s t, room)
    Settles-trans needed p q (err e, p') s (same, (tested, left, t, over, last, only)) =
        (same, (tested, left, Shrinks-trans s t, over, last, only))

    -- One round that finds no room.
    round-Shrinks :
        (n : ℕ) (p : ModelPool ModelId F) (id : ModelId) (m : PooledModel ModelId)
        → OnlyEvict others
        → is_active dec (others (before_eviction n) p).active_model id ≡ false
        → HashMap.get dec id (others (before_eviction n) p).models ≡ some m
        → let p' = others (after_eviction n) (take_out dec id (others (before_eviction n) p)) in
          Shrinks dec p p' × (length p'.models + 1 ≤ length p.models)
    round-Shrinks n p id m gaps free found =
        let q = others (before_eviction n) p in
        let before = gaps (before_eviction n) p in
        let (taken, less) = take_out-Shrinks id m q free found in
        let after = gaps (after_eviction n) (take_out dec id q) in
        (
          Shrinks-trans (Shrinks-trans before taken) after,
          omega (arith, before.fewer, less, after.fewer),
        )

    evict_loop-Settles :
        (clock : ℕ → ℕ) (n needed : ℕ) (p : ModelPool ModelId F)
        → OnlyEvict others
        → memory_of p.models + needed < word
        → length p.models < n
        → (o : Result ModelId (Unit {0}) × ModelPool ModelId F) × (evict_loop dec others clock n
              needed p
            ≡ some o)
          × Settles needed p o
    unfolding evict_loop
    evict_loop-Settles clock zero needed p gaps fits h = elim h [ ]
    evict_loop-Settles clock (suc n) needed p gaps fits h = elim (Bool-cases (is_over needed p)) [
      | inr room ↦ ((ok tt, p), rw room refl, (Shrinks-refl p, ground arith))
      | inl over ↦
          let q = others (before_eviction n) p in
          elim (evict_one-Evicts (clock n) q) [
            | inl (e, only) ↦ (
              (err eviction_failed, q),
              rw (over, e) refl,
              (refl, (p, n, Shrinks-refl p, λ room. ground arith, refl, only)),
            )
            | inr (id, m, e, free, found) ↦
                let p' = others (after_eviction n) (take_out dec id q) in
                let (shrunk, less) = round-Shrinks n p id m gaps free found in
                let (o, done, settled) =
                  evict_loop-Settles clock n needed p' gaps (omega (arith, shrunk.smaller, fits))
                    (omega (arith, less, h)) in
                (o, rw (over, e) done, Settles-trans needed p p' o shrunk settled)
          ]
    ]

    -- Eviction for memory ends, whatever the clock reads, where other tasks in its gaps only take out
    -- models that are not active, the bytes and those of the pool together fit a machine word and
    -- there are more rounds than models: with room for the bytes beside those that the pool holds, or
    -- with the error that nothing can be evicted, and then there was no room at the last test and
    -- after the gap behind it only the active model is left. The active model keeps its entry, and no
    -- model comes in.
    pub evict_for_memory-Settles :
        (clock : ℕ → ℕ) (rounds needed : ℕ) (p : ModelPool ModelId F)
        → OnlyEvict others
        → memory_of p.models + needed < 2 ^ 64
        → length p.models < rounds
        → (o : Result ModelId (Unit {0}) × ModelPool ModelId F) × (evict_for_memory dec others clock
              rounds needed p
            ≡ some o)
          × Settles needed p o
    unfolding evict_for_memory
    evict_for_memory-Settles clock rounds needed p gaps fits enough =
        evict_loop-Settles clock rounds needed p gaps fits enough
