-- ===== src/Memory/PromptCache.antt =====
-- core-runtime/src/memory/prompt_cache.rs: cached keys and values by the digest of their tokens. SHA-256
-- is a parameter: a state that takes bytes and is finalized to a digest.
pub mod Prefix
pub mod Insert
pub mod Tests
use gg_core.Prelude.{
  ℕ, ◌+◌, ◌/◌, ◌%◌, ◌^◌, Option, none, some, List, [], ◌∷◌, length, Bool, leb, ◌==◌, if◌then◌else◌,
}
use gg_core.Prelude.HashMap as HashMap
use gg_core.Prelude.MinBy.{min_by_key}
use gg_core.Prelude.Bytes.{to_le_bytes}

abbrev pub word : ℕ
word = 2 ^ 64

-- The digest that the sha2 crate computes.
pub record Sha256 : Type 1 where
  pub State : Type 0
  pub Digest : Type 0
  pub same : Discrete Digest
  pub init : State
  pub update : State → List ℕ → State
  pub finalize : State → Digest

pub record CachedKv (H : Type 0) : Type 0 where
  pub token_hash : H
  pub kv_data : List ℕ
  pub seq_len : ℕ
  pub last_used : ℕ

pub record PromptCache (H : Type 0) : Type 0 where
  pub entries : List (H × CachedKv H)
  pub max_entries : ℕ
  pub access_counter : ℕ

unfoldable pub new : {H : Type 0} → ℕ → PromptCache H
new max_entries = record { entries = []; max_entries = max_entries; access_counter = 0 }

module _ {H : Type 0} where
  unfoldable pub len : PromptCache H → ℕ
  len c = length c.entries

  unfoldable pub is_empty : PromptCache H → Bool
  is_empty c = length c.entries == 0

  unfoldable pub clear : PromptCache H → PromptCache H
  clear c = record c { entries = [] }

  abbrev pub bytes_of : List (H × CachedKv H) → ℕ
  bytes_of [] = 0
  bytes_of ((k, e) ∷ es) = length e.kv_data + bytes_of es

  unfoldable pub memory_bytes : PromptCache H → ℕ
  memory_bytes c = bytes_of c.entries

module _ (sha : Sha256) where
  open sha use {State, Digest, same, init, update, finalize}

  unfoldable pub hash_from : State → List ℕ → State
  hash_from hasher [] = hasher
  hash_from hasher (t ∷ tokens) = hash_from (update hasher (to_le_bytes t)) tokens

  unfoldable pub hash_tokens : List ℕ → Digest
  unfolding hash_from
  hash_tokens tokens = finalize (hash_from init tokens)

  abbrev pub touched : ℕ → CachedKv Digest → CachedKv Digest
  touched counter e = record e { last_used = counter }

  abbrev pub touch : ℕ → Digest → PromptCache Digest → Option (CachedKv Digest) × PromptCache Digest
  touch counter hash c = (
    elim (HashMap.get same hash c.entries) [ none ↦ none | some e ↦ some (touched counter e) ],
    record c {
      entries = HashMap.modify same hash (touched counter) c.entries;
      access_counter = counter;
    },
  )

  unfoldable pub get : List ℕ → PromptCache Digest → Option (CachedKv Digest) × PromptCache Digest
  unfolding hash_tokens
  get tokens c = touch ((c.access_counter + 1) % word) (hash_tokens tokens) c

  unfoldable pub evict_lru : PromptCache Digest → PromptCache Digest
  evict_lru c = elim (min_by_key (λ e. e.last_used) c.entries) [
    | none ↦ c
    | some (hash, e) ↦ record c { entries = HashMap.remove same hash c.entries }
  ]

  unfoldable pub insert : List ℕ → List ℕ → ℕ → PromptCache Digest → PromptCache Digest
  unfolding hash_tokens evict_lru
  insert tokens kv_data seq_len c =
      let room = if leb c.max_entries (length c.entries) then evict_lru c else c in
      let hash = hash_tokens tokens in
      let counter = (room.access_counter + 1) % word in
      record room {
        entries =
            HashMap.insert same hash
              (record {
                token_hash = hash;
                kv_data = kv_data;
                seq_len = seq_len;
                last_used = counter;
              })
              room.entries;
        access_counter = counter;
      }

  -- The loop over the tokens from the i-th on, with the hasher of those before and the best match.
  unfoldable pub prefix_loop :
      List (Digest × CachedKv Digest)
      → State
      → ℕ
      → Option (ℕ × Digest)
      → List ℕ
      → Option (ℕ × Digest)
  prefix_loop entries hasher i best [] = best
  prefix_loop entries hasher i best (t ∷ tokens) =
      let hasher' = update hasher (to_le_bytes t) in
      let hash = finalize hasher' in
      prefix_loop entries hasher' (i + 1)
        (if HashMap.contains_key same hash entries then some (i + 1, hash) else best) tokens

  abbrev pub with_length : ℕ → Option (CachedKv Digest) → Option (ℕ × CachedKv Digest)
  with_length len none = none
  with_length len (some e) = some (len, e)

  unfoldable pub find_prefix :
      List ℕ → PromptCache Digest → Option (ℕ × CachedKv Digest) × PromptCache Digest
  unfolding prefix_loop
  find_prefix tokens c = elim (prefix_loop c.entries init 0 none tokens) [
    | none ↦ (none, c)
    | some (len, hash) ↦
        let (entry, c') = touch ((c.access_counter + 1) % word) hash c in
        (with_length len entry, c')
  ]
