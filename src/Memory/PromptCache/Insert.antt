-- ===== src/Memory/PromptCache/Insert.antt =====
-- What an insertion keeps, evicts and stores (core-runtime/src/memory/prompt_cache.rs).
use gg_core.Prelude.{
  ℕ, ◌+◌, ◌%◌, false, ◌≤◌, ◌<◌, ◌≡◌, ◌≢◌, refl, ap, ◌∙◌, inl, inr, max, Option, none, some, List,
  length, leb, All, Bool-cases, Option-cases, arith,
}
use gg_core.Prelude.HashMap as HashMap
use gg_core.Prelude.MinBy.{min_by_key, min_by_key-least, length-remove-min, min_by_key-none}
use gg_core.Memory.PromptCache.{
  word, Sha256, CachedKv, PromptCache, hash_tokens, touch, get, evict_lru, insert,
}

module _ (sha : Sha256) where
  open sha use {Digest, same}

  -- The digest that goes: none below the limit or in an empty cache, else that of an entry used no later
  -- than any other.
  abbrev pub Victim : PromptCache Digest → Option Digest → Type 0
  Victim c none = length c.entries < max c.max_entries 1
  Victim c (some hash) =
      (c.max_entries ≤ length c.entries)
      × (e : CachedKv Digest) × (min_by_key (λ x. x.last_used) c.entries ≡ some (hash, e))
      × All (λ x. e.last_used ≤ x.1.last_used) c.entries

  -- The cache with room for an entry.
  IsReady : PromptCache Digest → Option Digest → PromptCache Digest → Type 0
  IsReady c victim d =
      Victim c victim
      × (d.max_entries ≡ c.max_entries)
      × (d.access_counter ≡ c.access_counter)
      × (length d.entries + 1 ≤ max c.max_entries 1)
      × ((q : Digest)
          → victim ≢ some q
          → HashMap.get same q d.entries ≡ HashMap.get same q c.entries)
      × ((q : Digest) → victim ≡ some q → HashMap.get same q d.entries ≡ none)

  evict_lru-IsReady :
      (c : PromptCache Digest)
      → length c.entries ≤ max c.max_entries 1
      → c.max_entries ≤ length c.entries
      → (victim : Option Digest) × IsReady c victim (evict_lru sha c)
  unfolding evict_lru IsReady
  evict_lru-IsReady c within full = elim (Option-cases (min_by_key (λ x. x.last_used) c.entries)) [
    | inl e ↦
        let empty = min_by_key-none same (λ (x : CachedKv Digest). x.last_used) c.entries e in
        (
          none,
          rw (e, evict_lru)
              (
                omega (arith, ap length empty),
                refl,
                refl,
                omega (arith, ap length empty),
                λ q ne. refl,
                λ q h. cc,
              ),
        )
    | inr ((hash, x), e) ↦
        let less =
          length-remove-min same (λ (y : CachedKv Digest). y.last_used) c.entries (hash, x) e in
        (
          some hash,
          rw (e, evict_lru)
              (
                (full, x, refl, min_by_key-least (λ y. y.last_used) c.entries (hash, x) e),
                refl,
                refl,
                omega (arith, less, within),
                λ q ne. HashMap.get-remove_ne same hash q c.entries (λ p. ne (ap some p)),
                λ q h. some_path h,
              ),
        )
  ]
    where
      some_path :
          {hash q : Digest}
          → some hash ≡ some q
          → HashMap.get same q (HashMap.remove same hash c.entries) ≡ none
      some_path {hash} {q} h = HashMap.get-remove same hash q c.entries ∙ ground (arith, h)

  -- The entry that an insertion makes, with the number of the insertion as its time of use.
  abbrev pub stored : List ℕ → List ℕ → ℕ → ℕ → CachedKv Digest
  stored tokens kv_data seq_len used = record {
    token_hash = hash_tokens sha tokens;
    kv_data = kv_data;
    seq_len = seq_len;
    last_used = used;
  }

  abbrev pub next : ℕ → ℕ
  next counter = (counter + 1) % word

  -- The cache after an insertion, by the digest that went.
  abbrev pub Inserted :
      List ℕ → List ℕ → ℕ → PromptCache Digest → Option Digest → PromptCache Digest → Type 0
  Inserted tokens kv_data seq_len c victim c' =
      Victim c victim
      × (length c'.entries ≤ max c.max_entries 1)
      × (c'.max_entries ≡ c.max_entries)
      × ((get sha tokens c').0
          ≡ some (stored tokens kv_data seq_len (next (next c.access_counter))))
      × ((q : Digest)
          → hash_tokens sha tokens ≢ q
          → victim ≢ some q
          → HashMap.get same q c'.entries ≡ HashMap.get same q c.entries)
      × ((q : Digest)
          → hash_tokens sha tokens ≢ q
          → victim ≡ some q
          → HashMap.get same q c'.entries ≡ none)

  put :
      (tokens kv_data : List ℕ) (seq_len : ℕ) (c d : PromptCache Digest) (victim : Option Digest)
      → IsReady c victim d
      → Inserted tokens kv_data seq_len c victim (record d {
        entries =
            HashMap.insert same
              (hash_tokens sha tokens)
              (stored tokens kv_data seq_len (next d.access_counter))
              d.entries;
        access_counter = next d.access_counter;
      })
  unfolding IsReady get HashMap.insert
  put tokens kv_data seq_len c d victim (chosen, most, counter, room, others, gone) =
      let hash = hash_tokens sha tokens in
      let new = stored tokens kv_data seq_len (next d.access_counter) in
      let there = HashMap.get-insert_self same hash new d.entries in
      (
        chosen,
        omega (arith, room, HashMap.length-remove-le same hash d.entries),
        most,
        rw (touch, there, counter) refl,
        λ q ne keeps. HashMap.get-insert_ne same hash q new d.entries ne ∙ others q keeps,
        λ q ne goes. HashMap.get-insert_ne same hash q new d.entries ne ∙ gone q goes,
      )

  -- Where the cache holds at most its limit, or one entry if the limit is zero, it does so after an
  -- insertion, and the tokens inserted are found with what was stored. In a full cache the least recently
  -- used entry goes, also where the tokens had an entry already; every other entry is as before.
  pub insert-Inserted :
      (tokens kv_data : List ℕ) (seq_len : ℕ) (c : PromptCache Digest)
      → length c.entries ≤ max c.max_entries 1
      → (victim : Option Digest) × Inserted tokens kv_data seq_len c victim
          (insert sha tokens kv_data seq_len c)
  unfolding insert IsReady
  insert-Inserted tokens kv_data seq_len c within =
      elim (Bool-cases (leb c.max_entries (length c.entries))) [
        | inl full ↦
            let (victim, ready) = evict_lru-IsReady c within (ground (arith, full)) in
            (
              victim,
              rw (full, insert) (put tokens kv_data seq_len c (evict_lru sha c) victim ready),
            )
        | inr free ↦
            (none, rw (free, insert) (put tokens kv_data seq_len c c none (not_full c within free)))
      ]
    where
      not_full :
          (c : PromptCache Digest)
          → length c.entries ≤ max c.max_entries 1
          → leb c.max_entries (length c.entries) ≡ false
          → IsReady c none c
      not_full c within free =
          (ground (arith, free), refl, refl, ground (arith, free), λ q ne. refl, λ q h. cc)
