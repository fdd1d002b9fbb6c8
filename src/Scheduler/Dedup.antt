-- ===== src/Scheduler/Dedup.antt =====
-- core-runtime/src/scheduler/dedup.rs: the cache of outputs. A key, the 32 bytes of a SHA-256 digest in
-- the source, is of any type with decidable equality; each call reads the clock once.
pub mod Bounded
pub mod Tests
use gg_core.Prelude.{
  ℕ, ◌+◌, ◌-◌, Bool, true, false, Option, none, some, List, [], ◌∷◌, length, ltb, leb, ◌==◌,
  if◌then◌else◌,
}
use gg_core.Prelude.HashMap as HashMap
use gg_core.Prelude.MinBy.{min_by_key}

pub record CachedOutput : Type 0 where
  pub output_tokens : List ℕ
  pub cached_at : ℕ

pub record OutputCacheConfig : Type 0 where
  pub ttl : ℕ
  pub max_entries : ℕ

pub record OutputCache (K : Type 0) : Type 0 where
  pub entries : List (K × CachedOutput)
  pub ttl : ℕ
  pub max_entries : ℕ

-- cached_at.elapsed() <= ttl
abbrev pub is_fresh : ℕ → ℕ → CachedOutput → Bool
is_fresh now ttl entry = leb (now - entry.cached_at) ttl

module _ {K : Type 0} where
  unfoldable pub new : OutputCacheConfig → OutputCache K
  new config = record { entries = []; ttl = config.ttl; max_entries = config.max_entries }

  unfoldable pub find_oldest_key : List (K × CachedOutput) → Option K
  unfolding min_by_key
  find_oldest_key entries = elim (min_by_key (λ v. v.cached_at) entries) [
    | none ↦ none
    | some (k, v) ↦ some k
  ]

  unfoldable pub retain_fresh : ℕ → ℕ → List (K × CachedOutput) → List (K × CachedOutput)
  retain_fresh now ttl [] = []
  retain_fresh now ttl ((k, v) ∷ xs) =
      let rest = retain_fresh now ttl xs in if is_fresh now ttl v then (k, v) ∷ rest else rest

  unfoldable pub cleanup : ℕ → OutputCache K → OutputCache K
  unfolding retain_fresh
  cleanup now c = record c { entries = retain_fresh now c.ttl c.entries }

module _ {K : Type 0} (dec : Discrete K) where
  -- A found entry, if it is fresh.
  abbrev pub if_fresh : ℕ → ℕ → Option CachedOutput → Option CachedOutput
  if_fresh now ttl none = none
  if_fresh now ttl (some entry) = if is_fresh now ttl entry then some entry else none

  unfoldable pub get : ℕ → K → OutputCache K → Option CachedOutput
  get now key c = if_fresh now c.ttl (HashMap.get dec key c.entries)

  unfoldable pub evict_oldest : OutputCache K → OutputCache K
  evict_oldest c = elim (find_oldest_key c.entries) [
    | none ↦ c
    | some oldest ↦ record c { entries = HashMap.remove dec oldest c.entries }
  ]

  unfoldable pub insert : ℕ → K → List ℕ → OutputCache K → OutputCache K
  unfolding evict_oldest
  insert now key output_tokens c =
      let room = if leb c.max_entries (length c.entries) then evict_oldest c else c in
      record room {
        entries =
            HashMap.insert dec key (record { output_tokens = output_tokens; cached_at = now })
              room.entries;
      }
