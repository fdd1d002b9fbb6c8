-- ===== src/Memory/KvCache/Ownership/Evict.antt =====
-- Window eviction keeps the exclusive ownership of pages (core-runtime/src/memory/kv_cache_ops.rs).
use gg_core.Prelude.{
  ℕ, ◌+◌, ◌/◌, ◌≡◌, inl, inr, Option, none, some, List, length, take, min, arith, ℕ_discrete,
  Option-cases, Bool-cases, ◌-◌, ◌==◌,
}
use gg_core.Prelude.Counts.{count, count-take-drop}
use gg_core.Prelude.HashMap.{get}
use gg_core.Memory.Paged.{Page, PageTable, page_tokens, word, write, new_page}
use gg_core.Memory.Paged.Table.{free-IsTable, count-free, length-free}
use gg_core.Memory.KvCache.{KvCacheManager, SequenceEntry, SlidingWindowConfig}
use gg_core.Memory.KvCache.Ops.{evict_from, evict_pages_before, evict_window, evict_beyond_window}
use gg_core.Memory.KvCache.Held.{count-le-held, held-modify-drop}
use gg_core.Memory.KvCache.Ownership.{IsExclusive}

module _ {F : Type 0} (z : F) where
  evict_from-IsExclusive :
      (e : SequenceEntry) (id cut : ℕ) {s : KvCacheManager F}
      → get ℕ_discrete id s.entries ≡ some e
      → IsExclusive z s
      → IsExclusive z (evict_from z e id cut s).1
  unfolding evict_from
  evict_from-IsExclusive e id cut {s} at v = record {
    table = free-IsTable z gone v.table;
    once = λ p. omega (arith, freed p, held-modify-drop p id n s.entries e at, v.once p);
    in_range = λ p h.
        rw (length-free z gone s.page_table)
          (v.in_range p (omega (arith, held-modify-drop p id n s.entries e at)));
  }
    where
      n : ℕ
      n = min cut (length e.page_ids)

      gone : List ℕ
      gone = take n e.page_ids

      freed :
          (p : ℕ)
          → count p (gg_core.Memory.Paged.free z s.page_table gone).free_pages
            ≡ count p s.page_table.free_pages + count p gone
      freed p = count-free z p gone s.page_table λ i c.
          v.in_range i
            (omega (arith, count-le-held i id s.entries e at, count-take-drop i n e.page_ids))

  evict_pages_before-IsExclusive :
      (id cutoff : ℕ) {s : KvCacheManager F}
      → IsExclusive z s
      → IsExclusive z (evict_pages_before z id cutoff s).1
  unfolding evict_pages_before
  evict_pages_before-IsExclusive id cutoff {s} v =
      elim (Option-cases (get ℕ_discrete id s.entries)) [
        | inl e ↦ rw (e, evict_pages_before) v
        | inr (x, e) ↦ elim (Bool-cases (cutoff / page_tokens == 0)) [
          | inl q ↦ rw (e, q, evict_pages_before) v
          | inr q ↦
              rw (e, q, evict_pages_before) (evict_from-IsExclusive x id (cutoff / page_tokens) e v)
        ]
      ]

  evict_window-IsExclusive :
      (o : Option SlidingWindowConfig) (id pos : ℕ) {s : KvCacheManager F}
      → IsExclusive z s
      → IsExclusive z (evict_window z o id pos s).1
  unfolding evict_window
  evict_window-IsExclusive none id pos v = v
  evict_window-IsExclusive (some w) id pos {s} v =
      elim (Bool-cases (pos - min (w.window_size + w.overlap_tokens) (word - 1) == 0)) [
        | inl q ↦ rw (q, evict_window) v
        | inr q ↦ rw (q, evict_window) (evict_pages_before-IsExclusive id _ v)
      ]

  pub evict_beyond_window-IsExclusive :
      (id pos : ℕ) {s : KvCacheManager F}
      → IsExclusive z s
      → IsExclusive z (evict_beyond_window z id pos s).1
  unfolding evict_beyond_window
  evict_beyond_window-IsExclusive id pos {s} v =
      evict_window-IsExclusive s.config.sliding_window id pos v
