-- ===== src/Memory/KvCache/Window.antt =====
-- The sliding window: `evict_beyond_window` and what reads find after it
-- (core-runtime/src/memory/kv_cache_ops.rs).
use gg_core.Prelude.{
  ℕ, zero, suc, ◌+◌, ◌-◌, ◌/◌, ◌≤◌, ◌<◌, ◌≡◌, refl, sym, ap, subst, ◌∙◌, inl, inr, ◌⊎◌, min, none,
  some, List, [], ◌∷◌, length, get_elem?, drop, arith, ℕ_discrete, Bool-cases, false, leb, ◌==◌,
}
use gg_core.Prelude.HashMap.{get, modify, get-modify_self}
use gg_core.Memory.Paged.{page_tokens, word}
use gg_core.Memory.KvCache.{
  KvCacheManager, SequenceEntry, SlidingWindowConfig, Result, err, page_not_found, touch,
}
use gg_core.Memory.KvCache.Ops.{
  evict_pages_before, evict_window, evict_beyond_window, read_kv, locate,
}
use gg_core.Memory.KvCache.Runs.{bind_ok, bind_err, find_some}

get_elem?-drop : (n i : ℕ) (xs : List ℕ) → get_elem? (drop n xs) i ≡ get_elem? xs (n + i)
get_elem?-drop zero i xs = let e : i ≡ 0 + i = omega arith in ap (get_elem? xs) e
get_elem?-drop (suc n) i [] = refl
get_elem?-drop (suc n) i (x ∷ xs) =
    let e : suc (n + i) ≡ suc n + i = omega arith in
    get_elem?-drop n i xs ∙ ap (get_elem? (x ∷ xs)) e

get_elem?_beyond : (xs : List ℕ) (i : ℕ) → length xs ≤ i → get_elem? xs i ≡ none
get_elem?_beyond [] i h = refl
get_elem?_beyond (x ∷ xs) zero h = absurd (omega arith)
get_elem?_beyond (x ∷ xs) (suc i) h = get_elem?_beyond xs i (omega arith)

module _ {F : Type 0} (z : F) where
  abbrev dropped : ℕ → ℕ → KvCacheManager F → List (ℕ × SequenceEntry)
  dropped id n s = modify ℕ_discrete id (λ x. record x { page_ids = drop n x.page_ids }) s.entries

  -- What the window does to the sequences: nothing, or `n` pages go from the front of one.
  abbrev Evicts : ℕ → ℕ → SequenceEntry → KvCacheManager F → ℕ × KvCacheManager F → Type 0
  Evicts id cutoff e s r =
      (r ≡ (0, s))
      ⊎ ((r.0 ≡ min (cutoff / page_tokens) (length e.page_ids)) × (r.1.entries ≡ dropped id r.0 s))

  pages_before-Evicts :
      (id cutoff : ℕ) (e : SequenceEntry) (s : KvCacheManager F)
      → get ℕ_discrete id s.entries ≡ some e
      → Evicts id cutoff e s (evict_pages_before z id cutoff s)
  unfolding evict_pages_before
  pages_before-Evicts id cutoff e s here = elim (Bool-cases (cutoff / page_tokens == 0)) [
    | inl small ↦ inl (rw (here, small, evict_pages_before))
    | inr big ↦ rw (here, big, evict_pages_before) (inr (refl, refl))
  ]

  abbrev cutoff_of : SlidingWindowConfig → ℕ → ℕ
  cutoff_of sw pos = pos - min (sw.window_size + sw.overlap_tokens) (word - 1)

  some_window-Evicts :
      (id pos : ℕ) (e : SequenceEntry) (s : KvCacheManager F) (sw : SlidingWindowConfig)
      → get ℕ_discrete id s.entries ≡ some e
      → Evicts id (cutoff_of sw pos) e s (evict_window z (some sw) id pos s)
  unfolding evict_window
  some_window-Evicts id pos e s sw here = elim (Bool-cases (cutoff_of sw pos == 0)) [
    | inl small ↦ inl (rw (small, evict_window))
    | inr big ↦ rw (big, evict_window) (pages_before-Evicts id (cutoff_of sw pos) e s here)
  ]

  window-Evicts :
      (id pos : ℕ) (e : SequenceEntry) (s : KvCacheManager F) (sw : SlidingWindowConfig)
      → get ℕ_discrete id s.entries ≡ some e
      → s.config.sliding_window ≡ some sw
      → Evicts id (cutoff_of sw pos) e s (evict_beyond_window z id pos s)
  unfolding evict_beyond_window
  window-Evicts id pos e s sw here on =
      subst (λ o. Evicts id (cutoff_of sw pos) e s (evict_window z o id pos s)) (sym on)
        (some_window-Evicts id pos e s sw here)

  -- One eviction from a sequence: how many pages go, and the entry that is left.
  record Evicted (id cutoff : ℕ) (e : SequenceEntry) (r : ℕ × KvCacheManager F) : Type 0 where
    within : r.0 ≤ cutoff / page_tokens
    some_left : r.0 ≤ length e.page_ids
    left : SequenceEntry
    found : get ℕ_discrete id r.1.entries ≡ some left
    same_len : left.seq_len ≡ e.seq_len
    pages : left.page_ids ≡ drop r.0 e.page_ids

  window-Evicted :
      (id pos : ℕ) (e : SequenceEntry) (s : KvCacheManager F) (sw : SlidingWindowConfig)
      → get ℕ_discrete id s.entries ≡ some e
      → s.config.sliding_window ≡ some sw
      → Evicted id (cutoff_of sw pos) e (evict_beyond_window z id pos s)
  window-Evicted id pos e s sw here on = elim (window-Evicts id pos e s sw here on) [
    | inl nothing ↦ rw nothing (record {
      within = omega arith;
      some_left = omega arith;
      left = e;
      found = here;
      same_len = refl;
      pages = refl;
    })
    | inr (count, gone) ↦ record {
      within = omega arith;
      some_left = omega arith;
      left = record e { page_ids = drop (evict_beyond_window z id pos s).0 e.page_ids };
      found = rw gone (get-modify_self ℕ_discrete id _ s.entries e here);
      same_len = refl;
      pages = refl;
    }
  ]

  -- The number of pages that window eviction takes is at most the page index of any position at or
  -- past the cutoff (the current position less window and overlap). Where such a position has its
  -- page at that index, which is so as long as no page was taken from the front before, the sequence
  -- still has that page, at the index less the number of pages taken; the length of the sequence is
  -- unchanged.
  pub evict_keeps_window :
      (id pos p : ℕ) (e : SequenceEntry) (s : KvCacheManager F) (sw : SlidingWindowConfig)
      → get ℕ_discrete id s.entries ≡ some e
      → s.config.sliding_window ≡ some sw
      → pos - min (sw.window_size + sw.overlap_tokens) (word - 1) ≤ p
      → let (n, s') = evict_beyond_window z id pos s in
        (n ≤ p / page_tokens)
        × ((e' : SequenceEntry) × (get ℕ_discrete id s'.entries ≡ some e')
            × (e'.seq_len ≡ e.seq_len)
            × (get_elem? e'.page_ids (p / page_tokens - n)
                ≡ get_elem? e.page_ids (p / page_tokens)))
  evict_keeps_window id pos p e s sw here on past = (
    below,
    (
      ev.left,
      ev.found,
      ev.same_len,
      ap (λ xs. get_elem? xs (p / page_tokens - n)) ev.pages
          ∙ get_elem?-drop n (p / page_tokens - n) e.page_ids
          ∙ ap (get_elem? e.page_ids) again,
    ),
  )
    where
      ev : Evicted id (cutoff_of sw pos) e (evict_beyond_window z id pos s)
      ev = window-Evicted id pos e s sw here on

      n : ℕ
      n = (evict_beyond_window z id pos s).0

      below : n ≤ p / page_tokens
      below = omega (arith, ev.within)

      again : n + (p / page_tokens - n) ≡ p / page_tokens
      again = omega (arith, below)

  -- After the window took `n` pages, reading a position whose index is among the last `n` pages of
  -- the sequence fails with `PageNotFound`: the index of the read does not count the pages taken.
  pub read_kv_after_evict :
      (now id pos p kl vl : ℕ) (e : SequenceEntry) (s : KvCacheManager F) (sw : SlidingWindowConfig)
      → get ℕ_discrete id s.entries ≡ some e
      → s.config.sliding_window ≡ some sw
      → p < e.seq_len
      → length e.page_ids ≤ p / page_tokens + (evict_beyond_window z id pos s).0
      → (read_kv now id p kl vl (evict_beyond_window z id pos s).1).0 ≡ err page_not_found
  unfolding read_kv touch locate
  read_kv_after_evict now id pos p kl vl e s sw here on short late =
      ap (λ (r : Result (List F × List F) × KvCacheManager F). r.0)
        (bind_ok _ (find_some id ev.left (touch id (evict_beyond_window z id pos s).1).1 ev.found))
      ∙ bind_err _ (locate now id p ev.left (touch id (evict_beyond_window z id pos s).1).1)
          page_not_found (rw (within, missing, locate))
    where
      ev : Evicted id (cutoff_of sw pos) e (evict_beyond_window z id pos s)
      ev = window-Evicted id pos e s sw here on

      within : leb ev.left.seq_len p ≡ false
      within = let l = ev.same_len in ground (arith, l)

      missing : get_elem? ev.left.page_ids (p / page_tokens) ≡ none
      missing =
          ap (λ xs. get_elem? xs (p / page_tokens)) ev.pages
          ∙ get_elem?-drop (evict_beyond_window z id pos s).0 (p / page_tokens) e.page_ids
          ∙ get_elem?_beyond e.page_ids _ (omega arith)
