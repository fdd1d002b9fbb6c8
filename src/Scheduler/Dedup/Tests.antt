-- ===== src/Scheduler/Dedup/Tests.antt =====
-- A cache of one entry that is full.
use gg_core.Prelude.{ℕ, ◌+◌, ◌≤◌, ◌<◌, ◌≡◌, none, some, [], ◌∷◌, length, max, arith, ℕ_discrete}
use gg_core.Scheduler.Dedup.{OutputCache, get, insert}
use gg_core.Scheduler.Dedup.Bounded.{insert_lem}

abbrev full_cache : OutputCache ℕ
full_cache = record {
  entries = (7, record { output_tokens = 1 ∷ []; cached_at = 2 }) ∷ [];
  ttl = 30;
  max_entries = 1;
}

insert_lem_example :
    let c' = insert ℕ_discrete 10 8 (4 ∷ 5 ∷ []) full_cache in
    (length c'.entries ≤ max c'.max_entries 1)
    × (20 ≤ 10 + 30
        → get ℕ_discrete 20 8 c' ≡ some (record { output_tokens = 4 ∷ 5 ∷ []; cached_at = 10 }))
    × (10 + 30 < 20 → get ℕ_discrete 20 8 c' ≡ none)
insert_lem_example =
    insert_lem ℕ_discrete 10 20 8 (4 ∷ 5 ∷ []) full_cache (omega arith) (omega arith)
