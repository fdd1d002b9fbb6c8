-- ===== src/Memory/KvCache.antt =====
-- core-runtime/src/memory/kv_cache_config.rs, kv_cache_core.rs and kv_cache_ops.rs: the KV cache
-- manager over the page table, without the `advanced` feature (no quantised store). Each public
-- method is one step of the state, run without another thread in between; `now` is the reading
-- of the clock. The statistics, which no method writes, are left out.
pub mod Core
pub mod Ops
pub mod Held
pub mod Tracking
pub mod Runs
pub mod RoundTrip
pub mod Window
pub mod Repeat
pub mod Tests
pub mod Ownership
use gg_core.Prelude.{
  ℕ, ◌+◌, ◌%◌, Bool, true, false, Option, none, some, List, [], ◌∷◌, ◌++◌, ℕ_discrete,
}
use gg_core.Prelude.Counts.{without}
use gg_core.Prelude.HashMap.{get, insert, modify}
use gg_core.Memory.Paged.{PageTable, word, new_table}

pub record SlidingWindowConfig : Type 0 where
  pub window_size : ℕ
  pub overlap_tokens : ℕ

-- The fields that the manager reads.
pub record KvCacheConfig : Type 0 where
  pub hidden_dim : ℕ
  pub max_pages : ℕ
  pub sliding_window : Option SlidingWindowConfig

pub data KvCacheError : Type 0 where
  sequence_not_found : ℕ → KvCacheError
  position_out_of_bounds : ℕ → ℕ → KvCacheError
  page_not_found memory_exhausted : KvCacheError

-- `panicked` is a slice operation that Rust refuses; the locks recover from it.
pub data Result {ℓ} (A : Type ℓ) : Type ℓ where
  ok : A → Result A
  err : KvCacheError → Result A
  panicked : Result A

pub record SequenceEntry : Type 0 where
  pub id : ℕ
  pub page_ids : List ℕ
  pub seq_len : ℕ
  pub last_access : ℕ
  pub access_count : ℕ

-- `access_order` is the LRU order, oldest first.
pub record KvCacheManager (F : Type 0) : Type 0 where
  pub config : KvCacheConfig
  pub page_table : PageTable F
  pub entries : List (ℕ × SequenceEntry)
  pub access_order : List ℕ
  pub next_seq_id : ℕ

abbrev pub accessed : ℕ → SequenceEntry → SequenceEntry
accessed now e = record e { last_access = now; access_count = (e.access_count + 1) % word }

abbrev pub is_empty : List ℕ → Bool
is_empty [] = true
is_empty (x ∷ xs) = false

-- A method with its result and the state that it leaves, on errors too.
abbrev pub Run : Type 0 → Type 0 → Type 0
Run F A = KvCacheManager F → Result A × KvCacheManager F

module _ {F : Type 0} where
  abbrev pub pure : {A : Type 0} → A → Run F A
  pure a s = (ok a, s)

  abbrev pub proceed : {A B : Type 0} → Result A → (A → Run F B) → Run F B
  proceed (ok a) f s = f a s
  proceed (err e) f s = (err e, s)
  proceed panicked f s = (panicked, s)

  infixl 5 ◌>>=◌ ◌>>◌
  abbrev pub ◌>>=◌ : {A B : Type 0} → Run F A → (A → Run F B) → Run F B
  ◌>>=◌ m f s = let (r, s') = m s in proceed r f s'

  abbrev pub ◌>>◌ : {A B : Type 0} → Run F A → Run F B → Run F B
  m >> n = m >>= λ _. n

  unfoldable pub new : KvCacheConfig → KvCacheManager F
  new config = record {
    config = config;
    page_table = new_table config.hidden_dim config.max_pages;
    entries = [];
    access_order = [];
    next_seq_id = 1;
  }

  unfoldable pub allocate_sequence : ℕ → KvCacheManager F → ℕ × KvCacheManager F
  allocate_sequence now s = (
    s.next_seq_id,
    record s {
      next_seq_id = (s.next_seq_id + 1) % word;
      entries = insert ℕ_discrete s.next_seq_id entry s.entries;
      access_order = s.access_order ++ s.next_seq_id ∷ [];
    },
  )
    where
      entry : SequenceEntry
      entry = record {
        id = s.next_seq_id;
        page_ids = [];
        seq_len = 0;
        last_access = now;
        access_count = 0;
      }

  -- SequenceStore::touch
  unfoldable pub touch : ℕ → Run F (Unit {0})
  touch seq_id s = (ok tt, record s { access_order = without seq_id s.access_order ++ seq_id ∷ [] })

  -- store.entries.get(&seq_id).ok_or(SequenceNotFound)
  unfoldable pub find : ℕ → Run F SequenceEntry
  find seq_id s = elim (get ℕ_discrete seq_id s.entries) [
    | none ↦ (err (sequence_not_found seq_id), s)
    | some entry ↦ (ok entry, s)
  ]

  unfoldable pub update : ℕ → (SequenceEntry → SequenceEntry) → Run F (Unit {0})
  update seq_id f s = (ok tt, record s { entries = modify ℕ_discrete seq_id f s.entries })
