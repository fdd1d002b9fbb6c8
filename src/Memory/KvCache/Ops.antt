-- ===== src/Memory/KvCache/Ops.antt =====
-- core-runtime/src/memory/kv_cache_ops.rs: reading back, the sliding window and the queries.
use gg_core.Prelude.{
  ℕ, ◌+◌, ◌-◌, ◌*◌, ◌/◌, ◌%◌, min, Bool, Option, none, some, List, [], length, get_elem?, take,
  drop, leb, ◌==◌, if◌then◌else◌, ℕ_discrete,
}
use gg_core.Prelude.HashMap.{get, modify, contains_key}
use gg_core.Memory.Paged.{page_tokens, word, read_keys, read_values, free}
use gg_core.Memory.KvCache.Core.{or_no_page}
use gg_core.Memory.KvCache.{
  KvCacheManager, SequenceEntry, SlidingWindowConfig, Run, Result, ok, err, panicked,
  position_out_of_bounds, page_not_found, ◌>>=◌, ◌>>◌, touch, find, update, accessed,
}

module _ {F : Type 0} (z : F) where
  unfoldable pub evict_from : SequenceEntry → ℕ → ℕ → KvCacheManager F → ℕ × KvCacheManager F
  evict_from entry seq_id cutoff_page s =
      let count = min cutoff_page (length entry.page_ids) in
      (
        count,
        record s {
          entries =
              modify ℕ_discrete seq_id (λ e. record e { page_ids = drop count e.page_ids })
                s.entries;
          page_table = free z s.page_table (take count entry.page_ids);
        },
      )

  unfoldable pub evict_pages_before : ℕ → ℕ → KvCacheManager F → ℕ × KvCacheManager F
  unfolding evict_from
  evict_pages_before seq_id cutoff_token s = elim (get ℕ_discrete seq_id s.entries) [
    | none ↦ (0, s)
    | some entry ↦
        if cutoff_token / page_tokens == 0
        then (0, s)
        else evict_from entry seq_id (cutoff_token / page_tokens) s
  ]

  unfoldable pub evict_window :
      Option SlidingWindowConfig → ℕ → ℕ → KvCacheManager F → ℕ × KvCacheManager F
  unfolding evict_pages_before
  evict_window none seq_id current_pos s = (0, s)
  evict_window (some sw) seq_id current_pos s =
      let keep = min (sw.window_size + sw.overlap_tokens) (word - 1) in
      let cutoff = current_pos - keep in
      if cutoff == 0 then (0, s) else evict_pages_before seq_id cutoff s

  unfoldable pub evict_beyond_window : ℕ → ℕ → KvCacheManager F → ℕ × KvCacheManager F
  unfolding evict_window
  evict_beyond_window seq_id current_pos s =
      evict_window s.config.sliding_window seq_id current_pos s

module _ {F : Type 0} where
  -- Copying a slot into output buffers of the two lengths.
  unfoldable pub copy_out : Option (List F) → Option (List F) → ℕ → ℕ → Result (List F × List F)
  copy_out (some ks) (some vs) keys_len values_len =
      if (keys_len == length ks)
      then (if (values_len == length vs) then ok (ks, vs) else panicked)
      else panicked
  copy_out _ _ _ _ = panicked

  unfoldable pub read_from_page_table : ℕ → ℕ → ℕ → ℕ → Run F (List F × List F)
  unfolding copy_out
  read_from_page_table page_id slot keys_len values_len s =
      elim (get_elem? s.page_table.pages page_id) [
        | none ↦ (err page_not_found, s)
        | some page ↦
            (copy_out (read_keys page slot) (read_values page slot) keys_len values_len, s)
      ]

  -- The bounds test, the access mark and the look-up of the page, under the sequences' lock.
  unfoldable pub locate : ℕ → ℕ → ℕ → SequenceEntry → Run F ℕ
  unfolding update
  locate now seq_id pos entry s =
      if leb entry.seq_len pos
      then (err (position_out_of_bounds pos entry.seq_len), s)
      else (do
        update seq_id (accessed now)
        or_no_page (get_elem? entry.page_ids (pos / page_tokens)))
          s

  unfoldable pub read_kv : ℕ → ℕ → ℕ → ℕ → ℕ → Run F (List F × List F)
  unfolding touch find locate read_from_page_table
  read_kv now seq_id pos keys_len values_len = do
    touch seq_id
    entry ← find seq_id
    page_id ← locate now seq_id pos entry
    read_from_page_table page_id (pos % page_tokens) keys_len values_len

  unfoldable pub reset : KvCacheManager F → KvCacheManager F
  reset s = record s { entries = []; access_order = [] }

  unfoldable pub has_sequence : ℕ → KvCacheManager F → Bool
  has_sequence seq_id s = contains_key ℕ_discrete seq_id s.entries

  unfoldable pub active_sequences : KvCacheManager F → ℕ
  active_sequences s = length s.entries

  -- size_of::<f32>() is 4
  unfoldable pub memory_usage : KvCacheManager F → ℕ
  memory_usage s = length s.page_table.pages * page_tokens * s.config.hidden_dim * 2 * 4
