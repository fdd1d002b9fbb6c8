-- ===== src/Memory/KvCache/Tests.antt =====
-- Runs of the KV cache on small configurations.
use gg_core.Prelude.{
  ℕ, ◌+◌, ◌-◌, ◌/◌, ◌≤◌, ◌≡◌, refl, none, some, List, [], ◌∷◌, arith, ℕ_discrete, get_elem?,
}
use gg_core.Prelude.Counts.{count}
use gg_core.Prelude.HashMap.{get, insert, remove, modify}
use gg_core.Memory.Paged.{
  copy_from_slice, write, read_keys, free, allocate_page, new_page, new_table, page_tokens,
}
use gg_core.Memory.Paged.Allocate.{Allocates, allocate_page-Allocates}
use gg_core.Memory.KvCache.{
  KvCacheManager, KvCacheConfig, SlidingWindowConfig, SequenceEntry, ok, err, page_not_found, new,
  allocate_sequence,
}
use gg_core.Memory.KvCache.Core.{append_kv, free_sequence}
use gg_core.Memory.KvCache.Ops.{evict_beyond_window, read_kv, reset}
use gg_core.Memory.KvCache.Ownership.{IsExclusive}
use gg_core.Memory.KvCache.Ownership.Calls.{
  Call, allocate, append, run, run-new-IsExclusive, sequences_disjoint,
}
use gg_core.Memory.KvCache.RoundTrip.{read_kv-append_kv}
use gg_core.Memory.KvCache.Repeat.{evict_twice_empties}
use gg_core.Memory.KvCache.Window.{evict_keeps_window, read_kv_after_evict}

program : Unit {0}
unfolding get insert remove modify copy_from_slice write read_keys free allocate_page new new_table
    allocate_sequence append_kv free_sequence evict_beyond_window read_kv reset ℕ_discrete
program = tt

abbrev small : KvCacheConfig
small = record { hidden_dim = 2; max_pages = 3; sliding_window = none }

abbrev two_sequences : List (Call ℕ)
two_sequences =
    allocate 0
    ∷ allocate 0
    ∷ append 1 1 (3 ∷ 4 ∷ []) (5 ∷ 6 ∷ [])
    ∷ append 2 2 (7 ∷ 8 ∷ []) (9 ∷ 9 ∷ [])
    ∷ []

abbrev busy : KvCacheManager ℕ
busy = run 0 (new small) two_sequences

abbrev first : SequenceEntry
first = record { id = 1; page_ids = 0 ∷ []; seq_len = 1; last_access = 1; access_count = 1 }

abbrev second : SequenceEntry
second = record { id = 2; page_ids = 1 ∷ []; seq_len = 1; last_access = 2; access_count = 1 }

sequences_disjoint_example :
    count 0 first.page_ids + count 0 second.page_ids + count 0 busy.page_table.free_pages ≤ 1
unfolding program
sequences_disjoint_example =
    sequences_disjoint 0 small two_sequences 1 2 0 first second (omega arith) (ground arith) refl
      refl

busy_valid : IsExclusive 0 busy
busy_valid = run-new-IsExclusive 0 small two_sequences (omega arith)

read_kv-append_kv_example :
    (read_kv 4 1 1 2 2 (append_kv 0 3 1 (8 ∷ 2 ∷ []) (6 ∷ 4 ∷ []) busy).1).0
    ≡ ok (8 ∷ 2 ∷ [], 6 ∷ 4 ∷ [])
unfolding program
read_kv-append_kv_example =
    read_kv-append_kv 0 3 4 1 (8 ∷ 2 ∷ []) (6 ∷ 4 ∷ []) busy first busy_valid refl refl
      (omega arith) refl refl refl

abbrev window : SlidingWindowConfig
window = record { window_size = 16; overlap_tokens = 2 }

abbrev long : SequenceEntry
long = record { id = 1; page_ids = 0 ∷ 1 ∷ 2 ∷ []; seq_len = 40; last_access = 0; access_count = 0 }

abbrev three_pages : KvCacheManager ℕ
three_pages = record {
  config = record { hidden_dim = 1; max_pages = 3; sliding_window = some window };
  page_table = record {
    free_pages = [];
    pages = new_page 0 0 1 ∷ new_page 0 1 1 ∷ new_page 0 2 1 ∷ [];
    next_id = 3;
    hidden_dim = 1;
    max_pages = 3;
  };
  entries = (1, long) ∷ [];
  access_order = 1 ∷ [];
  next_seq_id = 2;
}

evict_keeps_window_example :
    let (n, s') = evict_beyond_window 0 1 40 three_pages in
    (n ≤ 24 / page_tokens)
    × ((e' : SequenceEntry) × (get ℕ_discrete 1 s'.entries ≡ some e')
        × (e'.seq_len ≡ 40)
        × (get_elem? e'.page_ids (24 / page_tokens - n)
            ≡ get_elem? long.page_ids (24 / page_tokens)))
unfolding get ℕ_discrete
evict_keeps_window_example =
    evict_keeps_window 0 1 40 24 long three_pages window refl refl (omega arith)

read_kv_after_evict_example :
    (read_kv 5 1 39 1 1 (evict_beyond_window 0 1 40 three_pages).1).0 ≡ err page_not_found
unfolding program
read_kv_after_evict_example =
    read_kv_after_evict 0 5 1 40 39 1 1 long three_pages window refl refl (omega arith)
      (omega arith)

allocate_page-Allocates_example : Allocates 0 busy.page_table (allocate_page 0 busy.page_table)
allocate_page-Allocates_example = allocate_page-Allocates 0 busy.page_table busy_valid.table

evict_twice_empties_example :
    let s' = (evict_beyond_window 0 1 50 three_pages).1 in
    let s'' = (evict_beyond_window 0 1 50 s').1 in
    (e'' : SequenceEntry) × (get ℕ_discrete 1 s''.entries ≡ some e'') × (e''.page_ids ≡ [])
unfolding get ℕ_discrete
evict_twice_empties_example =
    evict_twice_empties 0 1 50 window long three_pages refl refl (omega arith) (omega arith)
