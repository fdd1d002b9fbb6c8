-- ===== src/Memory/KvCache/Ownership/Read.antt =====
-- Reads and the reset keep the exclusive ownership of pages (core-runtime/src/memory/kv_cache_ops.rs).
use gg_core.Prelude.{
  ℕ, ◌/◌, ◌%◌, refl, inl, inr, Option, none, some, [], get_elem?, arith, leb, Option-cases,
  Bool-cases,
}
use gg_core.Memory.Paged.{page_tokens}
use gg_core.Memory.KvCache.{KvCacheManager, SequenceEntry, touch, find, accessed}
use gg_core.Memory.KvCache.Core.{or_no_page}
use gg_core.Memory.KvCache.Ops.{read_kv, locate, read_from_page_table, reset}
use gg_core.Memory.KvCache.Ownership.{
  IsExclusive, Ensures, bind_Ensures, keeps_Ensures, of_Ensures, held_le-IsExclusive,
}
use gg_core.Memory.KvCache.Ownership.Methods.{
  Found, find-Ensures, touch-IsExclusive, update-IsExclusive,
}

module _ {F : Type 0} (z : F) where
  or_no_page-Ensures :
      (o : Option ℕ) {s : KvCacheManager F}
      → IsExclusive z s
      → Ensures z (λ _. IsExclusive z) (or_no_page o s)
  or_no_page-Ensures none v = v
  or_no_page-Ensures (some p) v = v

  locate-Ensures :
      (now id pos : ℕ) (e : SequenceEntry) {s : KvCacheManager F}
      → IsExclusive z s
      → Ensures z (λ _. IsExclusive z) (locate now id pos e s)
  unfolding locate
  locate-Ensures now id pos e {s} v = elim (Bool-cases (leb e.seq_len pos)) [
    | inl out ↦ rw (out, locate) v
    | inr within ↦
        rw (within, locate)
          (or_no_page-Ensures (get_elem? e.page_ids (pos / page_tokens))
            (update-IsExclusive z id (accessed now) (λ _. refl) v))
  ]

  read_from_page_table-IsExclusive :
      (id slot kl vl : ℕ) {s : KvCacheManager F}
      → IsExclusive z s
      → IsExclusive z (read_from_page_table id slot kl vl s).1
  unfolding read_from_page_table
  read_from_page_table-IsExclusive id slot kl vl {s} v =
      elim (Option-cases (get_elem? s.page_table.pages id)) [
        | inl e ↦ rw (e, read_from_page_table) v
        | inr (p, e) ↦ rw (e, read_from_page_table) v
      ]

  pub read_kv-IsExclusive :
      (now id pos kl vl : ℕ) {s : KvCacheManager F}
      → IsExclusive z s
      → IsExclusive z (read_kv now id pos kl vl s).1
  unfolding read_kv
  read_kv-IsExclusive now id pos kl vl {s} v = of_Ensures z _ (
      bind_Ensures z (Found z id) (λ _. IsExclusive z) _ (find id (touch id s).1)
        (find-Ensures z id (touch-IsExclusive z id v))
        λ e s' h.
          bind_Ensures z (λ _. IsExclusive z) (λ _. IsExclusive z) _ (locate now id pos e s')
            (locate-Ensures now id pos e h.0)
            (λ p s'' w.
              keeps_Ensures z _ (read_from_page_table-IsExclusive p (pos % page_tokens) kl vl w)))

  pub reset-IsExclusive : {s : KvCacheManager F} → IsExclusive z s → IsExclusive z (reset s)
  unfolding reset
  reset-IsExclusive {s} v = held_le-IsExclusive z [] [] s.next_seq_id (λ p. omega arith) v
