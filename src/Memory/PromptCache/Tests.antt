-- ===== src/Memory/PromptCache/Tests.antt =====
-- A cache of two entries, for the tokens 1 and 1, 2, with a checksum for the digest.
use gg_core.Prelude.{ℕ, ◌+◌, ◌*◌, ◌≡◌, refl, Option, some, List, [], ◌∷◌, ℕ_discrete, arith}
use gg_core.Prelude.HashMap as HashMap
use gg_core.Memory.PromptCache.{Sha256, CachedKv, PromptCache, hash_tokens, find_prefix, insert}
use gg_core.Memory.PromptCache.Prefix.{FindsLongest, find_prefix_lem}
use gg_core.Memory.PromptCache.Insert.{Inserted, insert-Inserted}

abbrev mix : ℕ → List ℕ → ℕ
mix s [] = s
mix s (b ∷ bs) = mix (s * 257 + b + 1) bs

abbrev checksum : Sha256
checksum = record {
  State = ℕ;
  Digest = ℕ;
  same = ℕ_discrete;
  init = 0;
  update = mix;
  finalize = λ s. s;
}

abbrev cached : List ℕ → ℕ → ℕ → ℕ × CachedKv ℕ
cached tokens n used = (
  hash_tokens checksum tokens,
  record {
    token_hash = hash_tokens checksum tokens;
    kv_data = n ∷ [];
    seq_len = n;
    last_used = used;
  },
)

abbrev two_entries : PromptCache ℕ
two_entries = record {
  entries = cached (1 ∷ 2 ∷ []) 2 7 ∷ cached (1 ∷ []) 1 3 ∷ [];
  max_entries = 2;
  access_counter = 7;
}

longest :
    (find_prefix checksum (1 ∷ 2 ∷ 3 ∷ []) two_entries).0
    ≡ some (2, record (cached (1 ∷ 2 ∷ []) 2 7).1 { last_used = 8 })
unfolding find_prefix hash_tokens ℕ_discrete HashMap.contains_key HashMap.get
longest = refl

find_prefix_lem_example :
    FindsLongest checksum
      (1 ∷ 2 ∷ 3 ∷ [])
      two_entries
      (find_prefix checksum (1 ∷ 2 ∷ 3 ∷ []) two_entries)
find_prefix_lem_example = find_prefix_lem checksum (1 ∷ 2 ∷ 3 ∷ []) two_entries

insert-Inserted_example :
    (victim : Option ℕ) × Inserted checksum
      (5 ∷ [])
      (9 ∷ [])
      1
      two_entries
      victim
      (insert checksum (5 ∷ []) (9 ∷ []) 1 two_entries)
insert-Inserted_example = insert-Inserted checksum (5 ∷ []) (9 ∷ []) 1 two_entries (omega arith)
