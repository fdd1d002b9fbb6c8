-- ===== src/Memory/KvCache/Ownership.antt =====
-- Exclusive ownership of pages in the KV cache (core-runtime/src/memory/paged.rs, line 5, and the
-- comment on `PageTable`).
pub mod Methods
pub mod Evict
pub mod Read
pub mod Calls
use gg_core.Prelude.{
  ℕ, ◌+◌, ◌%◌, ◌≤◌, ◌<◌, ◌≡◌, ◌≢◌, refl, sym, ap, ◌∙◌, inl, inr, Bool, true, false, Option, none,
  some, List, [], ◌∷◌, ◌++◌, length, get_elem?, get_last?, set, take, drop, min, arith, ℕ_discrete,
  Option-cases, Bool-cases, length-set, get_elem?-set_self, get_elem?-set_ne, get_elem?-lt, leb,
}
use gg_core.Prelude.Counts.{count, hit, count-take-drop}
use gg_core.Prelude.HashMap.{get, remove, modify, insert}
use gg_core.Memory.Paged.{Page, PageTable, page_tokens, word, write, allocate_page, free}
use gg_core.Memory.Paged.Slots.{IsPage, write-IsPage}
use gg_core.Memory.Paged.Table.{IsTable, free-IsTable, count-free, length-free}
use gg_core.Memory.Paged.Allocate.{Allocated, allocate_page-Allocates}
use gg_core.Memory.KvCache.{
  KvCacheManager, KvCacheConfig, SequenceEntry, Run, Result, ok, err, panicked, proceed, touch,
  find, update, accessed, new, allocate_sequence,
}
use gg_core.Memory.KvCache.Core.{
  begin_append, last_page, put_page, write_to_page, finish_append, store_kv, free_sequence,
  evict_first, evict_lru, try_allocate, or_exhausted, or_evict, take_page, allocate_page_for_seq,
  reserve, append_kv,
}
use gg_core.Memory.KvCache.Ops.{
  evict_from, evict_pages_before, evict_beyond_window, read_kv, locate, read_from_page_table, reset,
}
use gg_core.Memory.KvCache.Held.{
  Entries, held, held-remove-le, held-remove, count-le-held, held-modify_same, held-modify_push,
  held-modify-drop, count-get_last?,
}

-- The table is well formed, each page is on the free list once or held by one sequence once or
-- neither, and every held page is in the table.
pub record IsExclusive {F : Type 0} (z : F) (s : KvCacheManager F) : Type 0 where
  pub table : IsTable z s.page_table
  pub once : (p : ℕ) → count p s.page_table.free_pages + held p s.entries ≤ 1
  pub in_range : (p : ℕ) → 0 < held p s.entries → p < length s.page_table.pages

module _ {F : Type 0} (z : F) where
  -- A run that ends well gives `Q` of its result and state; any other run gives the invariant.
  abbrev Ensures :
      {A : Type 0} → (A → KvCacheManager F → Type 0) → Result A × KvCacheManager F → Type 0
  Ensures Q (ok a, s) = Q a s
  Ensures Q (err e, s) = IsExclusive z s
  Ensures Q (panicked, s) = IsExclusive z s

  bind_Ensures :
      {A B : Type 0} (Q : A → KvCacheManager F → Type 0) (R : B → KvCacheManager F → Type 0)
      (f : A → Run F B) (r : Result A × KvCacheManager F)
      → Ensures Q r
      → ((a : A) (s : KvCacheManager F) → Q a s → Ensures R (f a s))
      → Ensures R (proceed r.0 f r.1)
  bind_Ensures Q R f (ok a, s) h k = k a s h
  bind_Ensures Q R f (err e, s) h k = h
  bind_Ensures Q R f (panicked, s) h k = h

  -- The invariant alone.
  abbrev Kept : {A : Type 0} → A → KvCacheManager F → Type 0
  Kept a s = IsExclusive z s

  keeps_Ensures :
      {A : Type 0} (r : Result A × KvCacheManager F) → IsExclusive z r.1 → Ensures Kept r
  keeps_Ensures (ok a, s) h = h
  keeps_Ensures (err e, s) h = h
  keeps_Ensures (panicked, s) h = h

  of_Ensures : {A : Type 0} (r : Result A × KvCacheManager F) → Ensures Kept r → IsExclusive z r.1
  of_Ensures (ok a, s) h = h
  of_Ensures (err e, s) h = h
  of_Ensures (panicked, s) h = h

  -- The invariant sees the entries through `held` alone, and not the other fields.
  held_le-IsExclusive :
      {s : KvCacheManager F} (m : Entries) (order : List ℕ) (next : ℕ)
      → ((p : ℕ) → held p m ≤ held p s.entries)
      → IsExclusive z s
      → IsExclusive z (record s { entries = m; access_order = order; next_seq_id = next })
  held_le-IsExclusive m order next h v = record {
    table = v.table;
    once = λ p. omega (arith, v.once p, h p);
    in_range = λ p q. v.in_range p (omega (arith, h p));
  }

  pub new-IsExclusive : (c : KvCacheConfig) → c.max_pages < word → IsExclusive z (new {F = F} c)
  unfolding new gg_core.Memory.Paged.new_table
  new-IsExclusive c h = record {
    table = record {
      numbered = refl;
      capped = omega arith;
      word_sized = h;
      shaped = λ i p e. cc;
      free_in_range = λ i e. absurd (omega arith);
      free_blank = λ i e. absurd (omega arith);
    };
    once = λ p. omega arith;
    in_range = λ p q. absurd (omega arith);
  }

  pub allocate_sequence-IsExclusive :
      (now : ℕ) {s : KvCacheManager F} → IsExclusive z s → IsExclusive z (allocate_sequence now s).1
  unfolding allocate_sequence insert
  allocate_sequence-IsExclusive now {s} v =
      held_le-IsExclusive _ _ _ (λ p. omega (arith, held-remove-le p s.next_seq_id s.entries)) v

  pub free_sequence-IsExclusive :
      (id : ℕ) {s : KvCacheManager F} → IsExclusive z s → IsExclusive z (free_sequence z id s).1
  unfolding free_sequence
  free_sequence-IsExclusive id {s} v = elim (Option-cases (get ℕ_discrete id s.entries)) [
    | inl e ↦ rw (e, free_sequence) v
    | inr (x, e) ↦
        rw (e, free_sequence)
          (record {
            table = free-IsTable z x.page_ids v.table;
            once = λ p. omega (
              arith,
              count-free z p x.page_ids s.page_table
                  (λ i c. v.in_range i (omega (arith, count-le-held i id s.entries x e))),
              held-remove p id s.entries x e,
              v.once p,
            );
            in_range = λ p q.
                rw (length-free z x.page_ids s.page_table)
                  (v.in_range p (omega (arith, held-remove p id s.entries x e)));
          })
  ]

  evict_lru-IsExclusive : {s : KvCacheManager F} → IsExclusive z s → IsExclusive z (evict_lru z s).1
  unfolding evict_lru
  evict_lru-IsExclusive {s} v = go s.access_order
    where
      go : (ids : List ℕ) → IsExclusive z (evict_first z ids s).1
      go [] = unfold evict_first in v
      go (id ∷ rest) =
          unfold evict_first in
          free_sequence-IsExclusive id
            (held_le-IsExclusive s.entries rest s.next_seq_id (λ p. omega arith) v)

  -- A page that an allocation handed out and no sequence has yet.
  abbrev IsSpare : KvCacheManager F → ℕ → Type 0
  IsSpare s p =
      (count p s.page_table.free_pages + held p s.entries ≡ 0) × (p < length s.page_table.pages)

  Allocated-IsExclusive :
      {s : KvCacheManager F} {t : PageTable F} (id : ℕ)
      → IsExclusive z s
      → Allocated z s.page_table id t
      → IsExclusive z (record s { page_table = t })
  Allocated-IsExclusive {s} {t} id v a = record {
    table = a.valid;
    once = λ p. elim a.taken [
      | inl (_, same) ↦ omega (arith, v.once p, same p)
      | inr (_, fewer) ↦ omega (arith, v.once p, fewer p)
    ];
    in_range = λ p q. omega (arith, v.in_range p q, a.grew);
  }

  Allocated-IsSpare :
      {s : KvCacheManager F} {t : PageTable F} (id : ℕ)
      → IsExclusive z s
      → Allocated z s.page_table id t
      → IsSpare (record s { page_table = t }) id
  Allocated-IsSpare {s} {t} id v a = elim a.taken [
    | inl (new, same) ↦ (
      ground (arith, same id, v.in_range id, v.table.free_in_range id),
      get_elem?-lt t.pages id _ a.blank,
    )
    | inr (old, fewer) ↦ (ground (arith, fewer id, v.once id), omega (arith, a.grew))
  ]

  -- The invariant, with what is known of the page in hand.
  abbrev WithPage : Option ℕ → KvCacheManager F → Type 0
  WithPage none s = IsExclusive z s
  WithPage (some p) s = IsExclusive z s × IsSpare s p

  try_allocate-Ensures :
      {s : KvCacheManager F} → IsExclusive z s → Ensures WithPage (try_allocate z s)
  unfolding try_allocate
  try_allocate-Ensures {s} v = elim (allocate_page-Allocates z s.page_table v.table) [
    | inl (_, _, e) ↦ rw (e, try_allocate) v
    | inr (id, t, e, a) ↦
        rw (e, try_allocate) (Allocated-IsExclusive id v a, Allocated-IsSpare id v a)
  ]

  abbrev HasSpare : ℕ → KvCacheManager F → Type 0
  HasSpare p s = IsExclusive z s × IsSpare s p

  or_exhausted-Ensures :
      (o : Option ℕ) (s : KvCacheManager F) → WithPage o s → Ensures HasSpare (or_exhausted o s)
  or_exhausted-Ensures none s h = h
  or_exhausted-Ensures (some p) s h = h

  or_evict-Ensures :
      (o : Option ℕ) (s : KvCacheManager F) → WithPage o s → Ensures HasSpare (or_evict z o s)
  or_evict-Ensures (some p) s h = h
  or_evict-Ensures none s h =
      bind_Ensures Kept HasSpare _ (evict_lru z s)
        (keeps_Ensures (evict_lru z s) (evict_lru-IsExclusive h))
        λ _ s' k.
          bind_Ensures WithPage HasSpare or_exhausted (try_allocate z s') (try_allocate-Ensures k)
            or_exhausted-Ensures

  take_page-Ensures : {s : KvCacheManager F} → IsExclusive z s → Ensures HasSpare (take_page z s)
  unfolding take_page
  take_page-Ensures {s} v =
      bind_Ensures WithPage HasSpare (or_evict z) (try_allocate z s) (try_allocate-Ensures v)
        or_evict-Ensures

  push-IsExclusive :
      (id p : ℕ) (s : KvCacheManager F)
      → HasSpare p s
      → IsExclusive z (record s {
        entries =
            modify ℕ_discrete id (λ e. record e { page_ids = e.page_ids ++ p ∷ [] }) s.entries;
      })
  push-IsExclusive id p s (v, (none_yet, there)) = record {
    table = v.table;
    once = λ q. ground (arith, v.once q, held-modify_push q id p s.entries);
    in_range = λ q h. ground (arith, v.in_range q, held-modify_push q id p s.entries);
  }

  pub reserve-IsExclusive :
      (b : Bool) (id : ℕ) {s : KvCacheManager F}
      → IsExclusive z s
      → IsExclusive z (reserve z b id s).1
  unfolding reserve
  reserve-IsExclusive false id v = v
  reserve-IsExclusive true id {s} v = of_Ensures _ (
      bind_Ensures HasSpare Kept _ (take_page z s) (take_page-Ensures v)
        (λ p s' h. push-IsExclusive id p s' h))
