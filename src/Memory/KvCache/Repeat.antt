-- ===== src/Memory/KvCache/Repeat.antt =====
-- The sliding window asked twice at one position (core-runtime/src/memory/kv_cache_ops.rs).
use gg_core.Prelude.{
  ℕ, ◌+◌, ◌-◌, ◌*◌, ◌/◌, ◌≤◌, ◌≡◌, sym, ap, subst, ◌∙◌, min, some, [], length, drop, arith,
  ℕ_discrete, false, ◌==◌, empty_of_length, length-drop,
}
use gg_core.Prelude.HashMap.{get, get-modify_self}
use gg_core.Memory.Paged.{page_tokens, word}
use gg_core.Memory.KvCache.{KvCacheManager, SequenceEntry, SlidingWindowConfig}
use gg_core.Memory.KvCache.Ops.{evict_from, evict_pages_before, evict_window, evict_beyond_window}

module _ {F : Type 0} (z : F) (id pos : ℕ) (sw : SlidingWindowConfig) where
  abbrev cutoff : ℕ
  cutoff = pos - min (sw.window_size + sw.overlap_tokens) (word - 1)

  evicts :
      (e : SequenceEntry) (s : KvCacheManager F)
      → get ℕ_discrete id s.entries ≡ some e
      → s.config.sliding_window ≡ some sw
      → 16 ≤ cutoff
      → evict_beyond_window z id pos s ≡ evict_from z e id (cutoff / page_tokens) s
  unfolding evict_beyond_window
  evicts e s here on far = ap (λ o. evict_window z o id pos s) on ∙ by_window
    where
      some_token : (cutoff == 0) ≡ false
      some_token = ground arith

      some_page : (cutoff / page_tokens == 0) ≡ false
      some_page = ground arith

      by_pages : evict_pages_before z id cutoff s ≡ evict_from z e id (cutoff / page_tokens) s
      by_pages = rw (here, some_page, evict_pages_before)

      by_window : evict_window z (some sw) id pos s ≡ evict_from z e id (cutoff / page_tokens) s
      by_window = rw (some_token, evict_window) by_pages

  -- What one eviction leaves of the sequence.
  record Left (e : SequenceEntry) (s s' : KvCacheManager F) : Type 0 where
    same_window : s'.config.sliding_window ≡ some sw
    entry : SequenceEntry
    found : get ℕ_discrete id s'.entries ≡ some entry
    fewer :
        length entry.page_ids ≡ length e.page_ids - min (cutoff / page_tokens) (length e.page_ids)

  evict-Left :
      (e : SequenceEntry) (s : KvCacheManager F)
      → get ℕ_discrete id s.entries ≡ some e
      → s.config.sliding_window ≡ some sw
      → 16 ≤ cutoff
      → Left e s (evict_beyond_window z id pos s).1
  unfolding evict_from
  evict-Left e s here on far =
      subst (λ r. Left e s r.1) (sym (evicts e s here on far))
        (record {
          same_window = on;
          entry = record e {
            page_ids = drop (min (cutoff / page_tokens) (length e.page_ids)) e.page_ids;
          };
          found = get-modify_self ℕ_discrete id _ s.entries e here;
          fewer = length-drop _ e.page_ids;
        })

  -- The window counts pages from the start of the sequence also where its front is gone already:
  -- asked twice at a position at least a page behind the window, it empties every sequence of at
  -- most twice as many pages as it takes, however few of them lie before the window.
  pub evict_twice_empties :
      (e : SequenceEntry) (s : KvCacheManager F)
      → get ℕ_discrete id s.entries ≡ some e
      → s.config.sliding_window ≡ some sw
      → 16 ≤ pos - min (sw.window_size + sw.overlap_tokens) (word - 1)
      → length e.page_ids
        ≤ 2 * ((pos - min (sw.window_size + sw.overlap_tokens) (word - 1)) / page_tokens)
      → let s' = (evict_beyond_window z id pos s).1 in
        let s'' = (evict_beyond_window z id pos s').1 in
        (e'' : SequenceEntry) × (get ℕ_discrete id s''.entries ≡ some e'') × (e''.page_ids ≡ [])
  evict_twice_empties e s here on far short =
      let one = evict-Left e s here on far in
      let two =
        evict-Left one.entry (evict_beyond_window z id pos s).1 one.found one.same_window far in
      (
        two.entry,
        two.found,
        empty_of_length two.entry.page_ids (omega (arith, two.fewer, one.fewer, short)),
      )
