-- ===== src/Memory/KvCache/Core.antt =====
-- core-runtime/src/memory/kv_cache_core.rs: appending to a sequence in three phases, freeing a
-- sequence and evicting the least recently used one.
use gg_core.Prelude.{
  ℕ, ◌+◌, ◌%◌, Bool, true, false, ◌||◌, Option, none, some, List, [], ◌∷◌, ◌++◌, get_elem?,
  get_last?, set, ◌==◌, ℕ_discrete,
}
use gg_core.Prelude.Counts.{without}
use gg_core.Prelude.HashMap.{get, remove}
use gg_core.Memory.Paged.{Page, page_tokens, word, write, free, allocate_page}
use gg_core.Memory.KvCache.{
  Run, ok, err, panicked, sequence_not_found, page_not_found, memory_exhausted, pure, ◌>>=◌, ◌>>◌,
  touch, find, update, accessed, is_empty,
}

module _ {F : Type 0} where
  -- Phase 1 of `append_kv`: the position, and whether a page is needed for it.
  unfoldable pub begin_append : ℕ → ℕ → Run F (ℕ × Bool)
  unfolding touch find update
  begin_append now seq_id = do
    touch seq_id
    entry ← find seq_id
    update seq_id (accessed now)
    pure (entry.seq_len, (entry.seq_len % page_tokens == 0) || is_empty entry.page_ids)

  -- entry.page_ids.last().ok_or(PageNotFound)
  abbrev pub or_no_page : Option ℕ → Run F ℕ
  or_no_page none s = (err page_not_found, s)
  or_no_page (some page_id) s = (ok page_id, s)

  unfoldable pub last_page : ℕ → Run F ℕ
  unfolding find
  last_page seq_id = do entry ← find seq_id; or_no_page (get_last? entry.page_ids)

  unfoldable pub put_page : Bool × Page F → ℕ → Run F (Unit {0})
  put_page (true, page) page_id s = (
    ok tt,
    record s { page_table = record s.page_table { pages = set s.page_table.pages page_id page } },
  )
  put_page (false, page) page_id s = (
    panicked,
    record s { page_table = record s.page_table { pages = set s.page_table.pages page_id page } },
  )

  unfoldable pub write_to_page : ℕ → ℕ → List F → List F → Run F (Unit {0})
  unfolding put_page
  write_to_page page_id slot keys values s = elim (get_elem? s.page_table.pages page_id) [
    | none ↦ (ok tt, s)
    | some page ↦ put_page (write page slot keys values) page_id s
  ]

  unfoldable pub finish_append : ℕ → Run F (Unit {0})
  unfolding find update
  finish_append seq_id = do
    find seq_id
    update seq_id (λ e. record e { seq_len = (e.seq_len + 1) % word })

  -- Phase 3 of `append_kv`.
  unfoldable pub store_kv : ℕ → ℕ → List F → List F → Run F (Unit {0})
  unfolding last_page write_to_page finish_append
  store_kv seq_id seq_pos keys values = do
    page_id ← last_page seq_id
    write_to_page page_id (seq_pos % page_tokens) keys values
    finish_append seq_id

  abbrev pub or_exhausted : Option ℕ → Run F ℕ
  or_exhausted none s = (err memory_exhausted, s)
  or_exhausted (some id) s = (ok id, s)

module _ {F : Type 0} (z : F) where
  unfoldable pub free_sequence : ℕ → Run F (Unit {0})
  free_sequence seq_id s = elim (get ℕ_discrete seq_id s.entries) [
    | none ↦ (err (sequence_not_found seq_id), s)
    | some entry ↦ (
      ok tt,
      record s {
        entries = remove ℕ_discrete seq_id s.entries;
        access_order = without seq_id s.access_order;
        page_table = free z s.page_table entry.page_ids;
      },
    )
  ]

  unfoldable pub evict_first : List ℕ → Run F (Unit {0})
  unfolding free_sequence
  evict_first [] s = (ok tt, s)
  evict_first (id ∷ rest) s = free_sequence id (record s { access_order = rest })

  unfoldable pub evict_lru : Run F (Unit {0})
  unfolding evict_first
  evict_lru s = evict_first s.access_order s

  -- `allocate_page` under the lock of the page table.
  unfoldable pub try_allocate : Run F (Option ℕ)
  try_allocate s =
      let (table, page) = allocate_page z s.page_table in (ok page, record s { page_table = table })

  abbrev pub or_evict : Option ℕ → Run F ℕ
  or_evict (some id) s = (ok id, s)
  or_evict none s = (evict_lru >>= λ _. try_allocate >>= or_exhausted) s

  unfoldable pub take_page : Run F ℕ
  unfolding try_allocate evict_lru
  take_page = do page ← try_allocate; or_evict page

  unfoldable pub allocate_page_for_seq : ℕ → Run F (Unit {0})
  unfolding take_page update
  allocate_page_for_seq seq_id = do
    page_id ← take_page
    update seq_id (λ e. record e { page_ids = e.page_ids ++ page_id ∷ [] })

  -- Phase 2 of `append_kv`.
  unfoldable pub reserve : Bool → ℕ → Run F (Unit {0})
  unfolding allocate_page_for_seq
  reserve true seq_id = allocate_page_for_seq seq_id
  reserve false seq_id = pure tt

  unfoldable pub append_kv : ℕ → ℕ → List F → List F → Run F (Unit {0})
  unfolding begin_append reserve store_kv
  append_kv now seq_id keys values = do
    start ← begin_append now seq_id
    reserve start.1 seq_id
    store_kv seq_id start.0 keys values
