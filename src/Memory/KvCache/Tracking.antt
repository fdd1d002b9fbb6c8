-- ===== src/Memory/KvCache/Tracking.antt =====
-- What becomes of one sequence's entry while pages are taken and victims are evicted.
use gg_core.Prelude.{
  ℕ, ◌≡◌, ◌∙◌, ◌⊎◌, inl, inr, Option, none, some, List, [], ◌∷◌, arith, ℕ_discrete, Option-cases,
}
use gg_core.Prelude.HashMap.{get, remove, get-remove}
use gg_core.Prelude.Counts.{without}
use gg_core.Memory.Paged.{free}
use gg_core.Memory.Paged.Table.{hidden_dim-free}
use gg_core.Memory.Paged.Allocate.{hidden_dim-allocate_page}
use gg_core.Memory.KvCache.{KvCacheManager, SequenceEntry, Run, Result, ok, err, panicked, proceed}
use gg_core.Memory.KvCache.Core.{
  free_sequence, evict_first, evict_lru, try_allocate, or_exhausted, or_evict, take_page,
}

-- A run that ends well gives `Q` of its result and state.
abbrev pub Ends :
    {F A : Type 0} → (A → KvCacheManager F → Type 0) → Result A × KvCacheManager F → Type 0
Ends Q (ok a, s) = Q a s
Ends Q (err e, s) = Unit {0}
Ends Q (panicked, s) = Unit {0}

module _ {F : Type 0} where
  pub bind_Ends :
      {A B : Type 0} (Q : A → KvCacheManager F → Type 0) (R : B → KvCacheManager F → Type 0)
      (f : A → Run F B) (r : Result A × KvCacheManager F)
      → Ends Q r
      → ((a : A) (s : KvCacheManager F) → Q a s → Ends R (f a s))
      → Ends R (proceed r.0 f r.1)
  bind_Ends Q R f (ok a, s) h k = k a s h
  bind_Ends Q R f (err e, s) h k = tt
  bind_Ends Q R f (panicked, s) h k = tt

  pub Ends_ok :
      {A : Type 0} (Q : A → KvCacheManager F → Type 0) (r : Result A × KvCacheManager F) (a : A)
      → Ends Q r
      → r.0 ≡ ok a
      → Q a r.1
  Ends_ok Q (ok b, s) a h e = let same : b ≡ a = ground arith in rw (← same) h
  Ends_ok Q (err x, s) a h e = cc
  Ends_ok Q (panicked, s) a h e = cc

  -- Pages are still `h` wide, and the entry of `id` is still `e` or was evicted.
  abbrev pub Tracks : ℕ → ℕ → SequenceEntry → KvCacheManager F → Type 0
  Tracks h id e s =
      (s.page_table.hidden_dim ≡ h)
      × ((get ℕ_discrete id s.entries ≡ none) ⊎ (get ℕ_discrete id s.entries ≡ some e))

module _ {F : Type 0} (z : F) (h id : ℕ) (e : SequenceEntry) where
  abbrev without_victim : ℕ → List ℕ → SequenceEntry → KvCacheManager F → KvCacheManager F
  without_victim v rest x s = record s {
    entries = remove ℕ_discrete v s.entries;
    access_order = without v rest;
    page_table = free z s.page_table x.page_ids;
  }

  evict_lru-Ends :
      (s : KvCacheManager F) → Tracks h id e s → Ends (λ _. Tracks h id e) (evict_lru z s)
  unfolding evict_lru
  evict_lru-Ends s k = go s.access_order
    where
      go : (ids : List ℕ) → Ends (λ _. Tracks h id e) (evict_first z ids s)
      go [] = unfold evict_first in k
      go (v ∷ rest) = elim (Option-cases (get ℕ_discrete v s.entries)) [
        | inl q ↦ rw (q, Ends, evict_first) tt
        | inr (x, q) ↦
            let freed : evict_first z (v ∷ rest) s ≡ (ok tt, without_victim v rest x s) =
              rw (q, evict_first, free_sequence) in
            rw freed (
              hidden_dim-free z x.page_ids s.page_table ∙ k.0,
              ground (arith, k.1, get-remove {V = SequenceEntry} ℕ_discrete v id s.entries),
            )
      ]

  try_allocate-Ends :
      (s : KvCacheManager F) → Tracks h id e s → Ends (λ _. Tracks h id e) (try_allocate z s)
  unfolding try_allocate
  try_allocate-Ends s k = (hidden_dim-allocate_page z s.page_table ∙ k.0, k.1)

  or_exhausted-Ends :
      (o : Option ℕ) (s : KvCacheManager F)
      → Tracks h id e s
      → Ends (λ _. Tracks h id e) (or_exhausted o s)
  or_exhausted-Ends none s k = tt
  or_exhausted-Ends (some p) s k = k

  or_evict-Ends :
      (o : Option ℕ) (s : KvCacheManager F)
      → Tracks h id e s
      → Ends (λ _. Tracks h id e) (or_evict z o s)
  or_evict-Ends (some p) s k = k
  or_evict-Ends none s k =
      bind_Ends (λ _. Tracks h id e) (λ _. Tracks h id e) _ (evict_lru z s) (evict_lru-Ends s k)
        λ _ s' k'.
          bind_Ends (λ _. Tracks h id e) (λ _. Tracks h id e) or_exhausted (try_allocate z s')
            (try_allocate-Ends s' k') or_exhausted-Ends

  pub take_page-Ends :
      (s : KvCacheManager F) → Tracks h id e s → Ends (λ _. Tracks h id e) (take_page z s)
  unfolding take_page
  take_page-Ends s k =
      bind_Ends (λ _. Tracks h id e) (λ _. Tracks h id e) (or_evict z) (try_allocate z s)
        (try_allocate-Ends s k) or_evict-Ends
