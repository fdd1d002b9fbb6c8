-- ===== src/Memory/KvCache/Ownership/Methods.antt =====
-- Appending keeps the exclusive ownership of pages (core-runtime/src/memory/kv_cache_core.rs).
use gg_core.Prelude.{
  ℕ, ◌%◌, ◌<◌, ◌≡◌, refl, sym, ◌∙◌, inl, inr, Bool, true, false, some, List, length, get_elem?,
  get_last?, set, arith, ℕ_discrete, Option-cases, length-set, get_elem?-set_self, get_elem?-set_ne,
  get_elem?-lt,
}
use gg_core.Prelude.Counts.{count}
use gg_core.Prelude.HashMap.{get}
use gg_core.Memory.Paged.{Page, PageTable, page_tokens, write}
use gg_core.Memory.Paged.Slots.{IsPage, write-IsPage}
use gg_core.Memory.Paged.Table.{IsTable}
use gg_core.Memory.KvCache.{KvCacheManager, SequenceEntry, touch, find, update, accessed}
use gg_core.Memory.KvCache.Core.{
  begin_append, or_no_page, last_page, put_page, write_to_page, finish_append, store_kv, reserve,
  append_kv,
}
use gg_core.Memory.KvCache.Held.{count-le-held, held-modify_same, count-get_last?}
use gg_core.Memory.KvCache.Ownership.{
  IsExclusive, Ensures, bind_Ensures, keeps_Ensures, of_Ensures, held_le-IsExclusive,
  reserve-IsExclusive,
}

module _ {F : Type 0} (z : F) where
  -- Overwriting a page that is not free by one of the same shape.
  set-IsTable :
      {t : PageTable F} (id : ℕ) (q : Page F)
      → IsTable z t
      → count id t.free_pages ≡ 0
      → IsPage id t.hidden_dim q
      → IsTable z (record t { pages = set t.pages id q })
  set-IsTable {t} id q v busy shape = record {
    numbered = v.numbered ∙ sym (length-set t.pages id q);
    capped = rw (length-set t.pages id q) v.capped;
    word_sized = v.word_sized;
    shaped = λ i p e. elim (ℕ_discrete id i) [
      | yes same ↦
          let here : i < length t.pages =
            rw (← length-set t.pages id q) (get_elem?-lt (set t.pages id q) i p e) in
          let new : p ≡ q = shaped_self i p same here e in rw (new, ← same) shape
      | no other ↦ v.shaped i p (sym (get_elem?-set_ne t.pages id i q other) ∙ e)
    ];
    free_in_range = λ i c. rw (length-set t.pages id q) (v.free_in_range i c);
    free_blank = λ i c. elim (ℕ_discrete id i) [
      | yes same ↦ absurd (ground arith)
      | no other ↦ get_elem?-set_ne t.pages id i q other ∙ v.free_blank i c
    ];
  }
    where
      shaped_self :
          (i : ℕ) (p : Page F)
          → id ≡ i
          → i < length t.pages
          → get_elem? (set t.pages id q) i ≡ some p
          → p ≡ q
      shaped_self i p same here e = ground (arith, get_elem?-set_self t.pages i q here, same, e)

  put_page-IsExclusive :
      (r : Bool × Page F) (id : ℕ) (s : KvCacheManager F)
      → IsExclusive z s
      → count id s.page_table.free_pages ≡ 0
      → IsPage id s.page_table.hidden_dim r.1
      → IsExclusive z (put_page r id s).1
  unfolding put_page
  put_page-IsExclusive (true, q) id s v busy shape = record {
    table = set-IsTable id q v.table busy shape;
    once = v.once;
    in_range = λ p h. rw (length-set s.page_table.pages id q) (v.in_range p h);
  }
  put_page-IsExclusive (false, q) id s v busy shape = record {
    table = set-IsTable id q v.table busy shape;
    once = v.once;
    in_range = λ p h. rw (length-set s.page_table.pages id q) (v.in_range p h);
  }

  write_to_page-IsExclusive :
      (id slot : ℕ) (ks vs : List F) {s : KvCacheManager F}
      → IsExclusive z s
      → count id s.page_table.free_pages ≡ 0
      → IsExclusive z (write_to_page id slot ks vs s).1
  unfolding write_to_page
  write_to_page-IsExclusive id slot ks vs {s} v busy =
      elim (Option-cases (get_elem? s.page_table.pages id)) [
        | inl e ↦ rw (e, write_to_page) v
        | inr (p, e) ↦
            rw (e, write_to_page)
              (put_page-IsExclusive (write p slot ks vs) id s v busy
                (write-IsPage slot ks vs (v.table.shaped id p e)))
      ]

  pub update-IsExclusive :
      (id : ℕ) (f : SequenceEntry → SequenceEntry) {s : KvCacheManager F}
      → ((e : SequenceEntry) → (f e).page_ids ≡ e.page_ids)
      → IsExclusive z s
      → IsExclusive z (update id f s).1
  unfolding update
  update-IsExclusive id f {s} same v =
      held_le-IsExclusive z _ _ _ (λ p. omega (arith, held-modify_same p id f s.entries same)) v

  abbrev pub Found : ℕ → SequenceEntry → KvCacheManager F → Type 0
  Found id e s = IsExclusive z s × (get ℕ_discrete id s.entries ≡ some e)

  pub find-Ensures :
      (id : ℕ) {s : KvCacheManager F} → IsExclusive z s → Ensures z (Found id) (find id s)
  unfolding find
  find-Ensures id {s} v = elim (Option-cases (get ℕ_discrete id s.entries)) [
    | inl e ↦ rw (e, find) v
    | inr (x, e) ↦ rw (e, find) (v, e)
  ]

  finish_append-IsExclusive :
      (id : ℕ) {s : KvCacheManager F} → IsExclusive z s → IsExclusive z (finish_append id s).1
  unfolding finish_append
  finish_append-IsExclusive id {s} v = of_Ensures z _ (
      bind_Ensures z (Found id) (λ _. IsExclusive z) _ (find id s) (find-Ensures id v)
        λ e s' h. update-IsExclusive id _ (λ _. refl) h.0)

  -- The last page of a sequence is not free.
  abbrev Busy : ℕ → KvCacheManager F → Type 0
  Busy p s = IsExclusive z s × (count p s.page_table.free_pages ≡ 0)

  last_page-Ensures :
      (id : ℕ) {s : KvCacheManager F} → IsExclusive z s → Ensures z Busy (last_page id s)
  unfolding last_page
  last_page-Ensures id {s} v = bind_Ensures z (Found id) Busy _ (find id s) (find-Ensures id v) last
    where
      last :
          (e : SequenceEntry) (s' : KvCacheManager F)
          → Found id e s'
          → Ensures z Busy (or_no_page (get_last? e.page_ids) s')
      last e s' (w, at) = elim (Option-cases (get_last? e.page_ids)) [
        | inl none_there ↦ rw none_there w
        | inr (p, l) ↦ rw l (
          w,
          omega
              (arith, w.once p, count-le-held p id s'.entries e at, count-get_last? p e.page_ids l),
        )
      ]

  store_kv-IsExclusive :
      (id pos : ℕ) (ks vs : List F) {s : KvCacheManager F}
      → IsExclusive z s
      → IsExclusive z (store_kv id pos ks vs s).1
  unfolding store_kv
  store_kv-IsExclusive id pos ks vs {s} v = of_Ensures z _ (
      bind_Ensures z Busy (λ _. IsExclusive z) _ (last_page id s) (last_page-Ensures id v)
        λ p s' h.
          bind_Ensures z (λ _. IsExclusive z) (λ _. IsExclusive z) _
            (write_to_page p (pos % page_tokens) ks vs s')
            (keeps_Ensures z _ (write_to_page-IsExclusive p (pos % page_tokens) ks vs h.0 h.1))
            (λ _ s'' w. keeps_Ensures z _ (finish_append-IsExclusive id w)))

  pub touch-IsExclusive :
      (id : ℕ) {s : KvCacheManager F} → IsExclusive z s → IsExclusive z (touch id s).1
  unfolding touch
  touch-IsExclusive id v = held_le-IsExclusive z _ _ _ (λ p. omega arith) v

  pub begin_append-IsExclusive :
      (now id : ℕ) {s : KvCacheManager F}
      → IsExclusive z s
      → IsExclusive z (begin_append now id s).1
  unfolding begin_append
  begin_append-IsExclusive now id {s} v = of_Ensures z _ (
      bind_Ensures z (Found id) (λ _. IsExclusive z) _ (find id (touch id s).1)
        (find-Ensures id (touch-IsExclusive id v))
        λ e s' h. update-IsExclusive id (accessed now) (λ _. refl) h.0)

  pub append_kv-IsExclusive :
      (now id : ℕ) (ks vs : List F) {s : KvCacheManager F}
      → IsExclusive z s
      → IsExclusive z (append_kv z now id ks vs s).1
  unfolding append_kv
  append_kv-IsExclusive now id ks vs {s} v = of_Ensures z _ (
      bind_Ensures z (λ _. IsExclusive z) (λ _. IsExclusive z) _ (begin_append now id s)
        (keeps_Ensures z _ (begin_append-IsExclusive now id v))
        λ start s' w.
          bind_Ensures z (λ _. IsExclusive z) (λ _. IsExclusive z) _ (reserve z start.1 id s')
            (keeps_Ensures z _ (reserve-IsExclusive z start.1 id w))
            (λ _ s'' x. keeps_Ensures z _ (store_kv-IsExclusive id start.0 ks vs x)))
