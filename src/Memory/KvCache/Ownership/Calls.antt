-- ===== src/Memory/KvCache/Ownership/Calls.antt =====
-- Sequences of calls on the KV cache: no page is ever shared.
use gg_core.Prelude.{ℕ, ◌+◌, ◌≤◌, ◌<◌, ◌≡◌, ◌≢◌, some, List, [], ◌∷◌, arith, ℕ_discrete}
use gg_core.Prelude.Counts.{count}
use gg_core.Prelude.HashMap.{get}
use gg_core.Memory.Paged.{word}
use gg_core.Memory.KvCache.{KvCacheManager, KvCacheConfig, SequenceEntry, new, allocate_sequence}
use gg_core.Memory.KvCache.Core.{append_kv, free_sequence}
use gg_core.Memory.KvCache.Ops.{evict_beyond_window, read_kv, reset}
use gg_core.Memory.KvCache.Held.{Entries, held, count-le-held}
use gg_core.Memory.KvCache.Ownership.{
  IsExclusive, new-IsExclusive, allocate_sequence-IsExclusive, free_sequence-IsExclusive,
}
use gg_core.Memory.KvCache.Ownership.Methods.{append_kv-IsExclusive}
use gg_core.Memory.KvCache.Ownership.Evict.{evict_beyond_window-IsExclusive}
use gg_core.Memory.KvCache.Ownership.Read.{read_kv-IsExclusive, reset-IsExclusive}

-- The public methods that change the state.
pub data Call (F : Type 0) : Type 0 where
  allocate : ℕ → Call F
  append : ℕ → ℕ → List F → List F → Call F
  free_seq : ℕ → Call F
  read : ℕ → ℕ → ℕ → ℕ → ℕ → Call F
  evict : ℕ → ℕ → Call F
  reset_all : Call F

module _ {F : Type 0} (z : F) where
  abbrev pub step : KvCacheManager F → Call F → KvCacheManager F
  step s (allocate now) = (allocate_sequence now s).1
  step s (append now id ks vs) = (append_kv z now id ks vs s).1
  step s (free_seq id) = (free_sequence z id s).1
  step s (read now id pos kl vl) = (read_kv now id pos kl vl s).1
  step s (evict id pos) = (evict_beyond_window z id pos s).1
  step s reset_all = reset s

  abbrev pub run : KvCacheManager F → List (Call F) → KvCacheManager F
  run s [] = s
  run s (c ∷ cs) = run (step s c) cs

  step-IsExclusive :
      (c : Call F) {s : KvCacheManager F} → IsExclusive z s → IsExclusive z (step s c)
  step-IsExclusive (allocate now) v = allocate_sequence-IsExclusive z now v
  step-IsExclusive (append now id ks vs) v = append_kv-IsExclusive z now id ks vs v
  step-IsExclusive (free_seq id) v = free_sequence-IsExclusive z id v
  step-IsExclusive (read now id pos kl vl) v = read_kv-IsExclusive z now id pos kl vl v
  step-IsExclusive (evict id pos) v = evict_beyond_window-IsExclusive z id pos v
  step-IsExclusive reset_all v = reset-IsExclusive z v

  run-IsExclusive :
      (cs : List (Call F)) {s : KvCacheManager F} → IsExclusive z s → IsExclusive z (run s cs)
  run-IsExclusive [] v = v
  run-IsExclusive (c ∷ cs) v = run-IsExclusive cs (step-IsExclusive c v)

  -- After any calls on a new cache whose page limit is a machine word, whatever they return, the
  -- page table is well formed with every free page blank, each page is on the free list or in one
  -- sequence's list at most once, and the pages of the sequences are in the table.
  pub run-new-IsExclusive :
      (c : KvCacheConfig) (cs : List (Call F)) → c.max_pages < word → IsExclusive z (run (new c) cs)
  run-new-IsExclusive c cs h = run-IsExclusive cs (new-IsExclusive z c h)

  counts-le-held :
      (p a b : ℕ) (m : Entries) (e f : SequenceEntry)
      → a ≢ b
      → get ℕ_discrete a m ≡ some e
      → get ℕ_discrete b m ≡ some f
      → count p e.page_ids + count p f.page_ids ≤ held p m
  unfolding get
  counts-le-held p a b [] e f ne ha hb = cc
  counts-le-held p a b ((j, x) ∷ m) e f ne ha hb =
      ground (arith, counts-le-held p a b m e f ne, count-le-held p a m e, count-le-held p b m f)

  -- After any calls on a new cache whose page limit is a machine word, two sequences have no page
  -- in common, and neither of them has a page that is on the free list.
  pub sequences_disjoint :
      (c : KvCacheConfig) (cs : List (Call F)) (a b p : ℕ) (e f : SequenceEntry)
      → c.max_pages < word
      → a ≢ b
      → get ℕ_discrete a (run (new c) cs).entries ≡ some e
      → get ℕ_discrete b (run (new c) cs).entries ≡ some f
      → count p e.page_ids + count p f.page_ids + count p (run (new c) cs).page_table.free_pages ≤ 1
  sequences_disjoint c cs a b p e f h ne ha hb = omega (
    arith,
    (run-new-IsExclusive c cs h).once p,
    counts-le-held p a b (run (new c) cs).entries e f ne ha hb,
  )
