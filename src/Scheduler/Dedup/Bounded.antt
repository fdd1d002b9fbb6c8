-- ===== src/Scheduler/Dedup/Bounded.antt =====
-- The bound and the lookups of the output cache (core-runtime/src/scheduler/dedup.rs).
use gg_core.Prelude.{
  ℕ, ◌+◌, ◌≤◌, ◌<◌, ◌≡◌, refl, ap, ◌∙◌, inl, inr, max, none, some, List, [], ◌∷◌, length, leb,
  Bool-cases, Option-cases, arith,
}
use gg_core.Prelude.HashMap as HashMap
use gg_core.Prelude.MinBy.{min_by_key, length-remove-min, min_by_key-none}
use gg_core.Scheduler.Dedup.{
  CachedOutput, OutputCache, find_oldest_key, evict_oldest, if_fresh, get, insert,
}

module _ {K : Type 0} (dec : Discrete K) where
  -- Eviction leaves an entry fewer, where there was one.
  evicted_fewer :
      (entries : List (K × CachedOutput)) (ttl most : ℕ)
      → 0 < length entries
      → length
            (evict_oldest dec (record { entries = entries; ttl = ttl; max_entries = most })).entries
          + 1
        ≤ length entries
  unfolding evict_oldest find_oldest_key
  evicted_fewer entries ttl most h = elim (Option-cases (min_by_key (λ v. v.cached_at) entries)) [
    | inl e ↦ absurd (omega (arith, ap length (min_by_key-none dec (λ v. v.cached_at) entries e)))
    | inr (x, e) ↦
        rw (e, evict_oldest, find_oldest_key) (length-remove-min dec (λ v. v.cached_at) entries x e)
  ]

  evicted_limits :
      (c : OutputCache K)
      → ((evict_oldest dec c).ttl ≡ c.ttl) × ((evict_oldest dec c).max_entries ≡ c.max_entries)
  unfolding evict_oldest
  evicted_limits c = elim (Option-cases (find_oldest_key c.entries)) [
    | inl e ↦ rw (e, evict_oldest) (refl, refl)
    | inr (k, e) ↦ rw (e, evict_oldest) (refl, refl)
  ]

  length-insert :
      (k : K) (v : CachedOutput) (m : List (K × CachedOutput))
      → length (HashMap.insert dec k v m) ≤ length m + 1
  unfolding HashMap.insert
  length-insert k v m = omega (arith, HashMap.length-remove-le dec k m)

  evicted_room :
      (entries : List (K × CachedOutput)) (ttl most : ℕ)
      → length entries ≤ max most 1
      → length
            (evict_oldest dec (record { entries = entries; ttl = ttl; max_entries = most })).entries
          + 1
        ≤ max most 1
  unfolding evict_oldest find_oldest_key
  evicted_room [] ttl most h = omega arith
  evicted_room (x ∷ xs) ttl most h = omega (arith, h, evicted_fewer (x ∷ xs) ttl most (omega arith))

  abbrev Stored : ℕ → ℕ → K → List ℕ → ℕ → OutputCache K → Type 0
  Stored now later key toks ttl c' =
      (length c'.entries ≤ max c'.max_entries 1)
      × (later ≤ now + ttl
          → get dec later key c' ≡ some (record { output_tokens = toks; cached_at = now }))
      × (now + ttl < later → get dec later key c' ≡ none)

  stored :
      (now later : ℕ) (key : K) (toks : List ℕ) (ttl : ℕ) (d : OutputCache K)
      → now ≤ later
      → d.ttl ≡ ttl
      → length d.entries + 1 ≤ max d.max_entries 1
      → Stored now later key toks ttl (record d {
        entries =
            HashMap.insert dec key (record { output_tokens = toks; cached_at = now }) d.entries;
      })
  unfolding get
  stored now later key toks ttl d order same room =
      let out : CachedOutput = record { output_tokens = toks; cached_at = now } in
      let found = HashMap.get-insert_self dec key out d.entries in
      (
        omega (arith, room, length-insert key out d.entries),
        λ soon. ap (if_fresh dec later d.ttl) found ∙ kept (omega (arith, soon, same)),
        λ late. ap (if_fresh dec later d.ttl) found ∙ lost (omega (arith, late, same)),
      )
    where
      kept :
          later ≤ now + d.ttl
          → if_fresh dec later d.ttl (some (record { output_tokens = toks; cached_at = now }))
            ≡ some (record { output_tokens = toks; cached_at = now })
      kept h = ground (arith, h, order)

      lost :
          now + d.ttl < later
          → if_fresh dec later d.ttl (some (record { output_tokens = toks; cached_at = now }))
            ≡ none
      lost h = ground (arith, h, order)

  -- The output that is stored is found for its key up to the time to live and not after it; the
  -- cache then has at most its limit of entries, or one more than none, if it was within before.
  pub insert_lem :
      (now later : ℕ) (key : K) (output_tokens : List ℕ) (c : OutputCache K)
      → length c.entries ≤ max c.max_entries 1
      → now ≤ later
      → let c' = insert dec now key output_tokens c in
        (length c'.entries ≤ max c'.max_entries 1)
        × (later ≤ now + c.ttl
            → get dec later key c'
              ≡ some (record { output_tokens = output_tokens; cached_at = now }))
        × (now + c.ttl < later → get dec later key c' ≡ none)
  unfolding insert
  insert_lem now later key toks c within order =
      elim (Bool-cases (leb c.max_entries (length c.entries))) [
        | inl full ↦
            rw (full, insert)
              (stored now later key toks c.ttl (evict_oldest dec c) order (evicted_limits c).0
                (rw (evicted_limits c).1 (evicted_room c.entries c.ttl c.max_entries within)))
        | inr free ↦ rw (free, insert) (stored now later key toks c.ttl c order refl (ground arith))
      ]
