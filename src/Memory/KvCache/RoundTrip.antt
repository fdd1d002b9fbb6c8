-- ===== src/Memory/KvCache/RoundTrip.antt =====
-- What `append_kv` stores is what `read_kv` returns (core-runtime/src/memory/kv_cache_core.rs and
-- kv_cache_ops.rs).
use gg_core.Prelude.{
  ℕ, zero, suc, ◌+◌, ◌/◌, ◌%◌, ◌<◌, ◌≡◌, refl, sym, ap, subst, ◌∙◌, ◌⊎◌, inl, inr, Bool, true,
  false, ◌||◌, none, some, List, [], ◌∷◌, ◌++◌, length, get_elem?, get_last?, set, arith,
  ℕ_discrete, Bool-cases, length-append, get_elem?-set_self, get_elem?-some, ◌==◌,
}
use gg_core.Prelude.HashMap.{get, modify, get-modify_self, get-modify-none}
use gg_core.Memory.Paged.{Page, page_tokens, word, write, read_keys, read_values}
use gg_core.Memory.Paged.Slots.{write_lem}
use gg_core.Memory.KvCache.{
  KvCacheManager, SequenceEntry, Result, ok, err, panicked, touch, find, update, accessed, is_empty,
}
use gg_core.Memory.KvCache.Core.{begin_append, last_page, store_kv, take_page, reserve, append_kv}
use gg_core.Memory.KvCache.Ops.{read_kv}
use gg_core.Memory.KvCache.Held.{count-le-held, count-get_last?}
use gg_core.Memory.KvCache.Ownership.{IsExclusive, reserve-IsExclusive}
use gg_core.Memory.KvCache.Ownership.Methods.{begin_append-IsExclusive}
use gg_core.Memory.KvCache.Runs.{
  bind_ok, find_some, last_page-some, finish_append_some, write_to_page-some, locate-some,
  read_from_page_table-some,
}
use gg_core.Memory.KvCache.Tracking.{Ends, bind_Ends, Ends_ok, Tracks, take_page-Ends}

get_last?-get_elem? :
    (xs : List ℕ) (k : ℕ)
    → length xs ≡ suc k
    → (q : ℕ) × (get_last? xs ≡ some q) × (get_elem? xs k ≡ some q)
get_last?-get_elem? [] k h = absurd (omega arith)
get_last?-get_elem? (x ∷ []) zero h = (x, refl, refl)
get_last?-get_elem? (x ∷ []) (suc k) h = absurd (omega arith)
get_last?-get_elem? (x ∷ y ∷ xs) zero h = absurd (omega arith)
get_last?-get_elem? (x ∷ y ∷ xs) (suc k) h = get_last?-get_elem? (y ∷ xs) k (omega arith)

-- The pages of a sequence are as many as its length needs: none was taken by the sliding window.
abbrev pub IsAligned : SequenceEntry → Type 0
IsAligned e = length e.page_ids ≡ (e.seq_len + 15) / page_tokens

module _ {F : Type 0} (z : F) where
  -- The entry of `id`, if it is there, has length `n` and the page of position `n` as its last.
  abbrev Ready : ℕ → ℕ → ℕ → KvCacheManager F → Type 0
  Ready h id n s =
      (s.page_table.hidden_dim ≡ h)
      × ((get ℕ_discrete id s.entries ≡ none)
          ⊎ ((e : SequenceEntry) × (get ℕ_discrete id s.entries ≡ some e)
              × (e.seq_len ≡ n)
              × (length e.page_ids ≡ suc (n / page_tokens))))

  push_Ready :
      (h id p : ℕ) (e : SequenceEntry) (s : KvCacheManager F)
      → length e.page_ids ≡ e.seq_len / page_tokens
      → Tracks h id e s
      → Ready h id e.seq_len (update id (λ x. record x { page_ids = x.page_ids ++ p ∷ [] }) s).1
  unfolding update
  push_Ready h id p e s l (d, inl gone) =
      (d, inl (get-modify-none ℕ_discrete id id _ s.entries gone))
  push_Ready h id p e s l (d, inr here) = (
    d,
    inr (
      record e { page_ids = e.page_ids ++ p ∷ [] },
      get-modify_self ℕ_discrete id _ s.entries e here,
      refl,
      omega (arith, length-append e.page_ids (p ∷ [])),
    ),
  )

  is_empty_of_length : (xs : List ℕ) → 0 < length xs → is_empty xs ≡ false
  is_empty_of_length [] h = absurd (omega arith)
  is_empty_of_length (x ∷ xs) h = refl

  abbrev needs_page : SequenceEntry → Bool
  needs_page e = (e.seq_len % page_tokens == 0) || is_empty e.page_ids

  needs_page_cases :
      (e : SequenceEntry)
      → IsAligned e
      → ((needs_page e ≡ true) × (length e.page_ids ≡ e.seq_len / page_tokens))
        ⊎ ((needs_page e ≡ false) × (length e.page_ids ≡ suc (e.seq_len / page_tokens)))
  needs_page_cases e al = elim (Bool-cases (e.seq_len % page_tokens == 0)) [
    | inl full ↦ inl (rw full refl, ground arith)
    | inr part ↦
        let more : length e.page_ids ≡ suc (e.seq_len / page_tokens) = ground arith in
        inr (rw (part, is_empty_of_length e.page_ids (omega (arith, more))) refl, more)
  ]

  reserve-Ready :
      (id : ℕ) (e : SequenceEntry) (s : KvCacheManager F)
      → get ℕ_discrete id s.entries ≡ some e
      → IsAligned e
      → Ends (λ _. Ready s.page_table.hidden_dim id e.seq_len) (reserve z (needs_page e) id s)
  unfolding reserve
  reserve-Ready id e s here al = elim (needs_page_cases e al) [
    | inl (need, l) ↦
        rw (need, reserve)
          (bind_Ends (λ _. Tracks h id e) (λ _. Ready h id e.seq_len) _ (take_page z s)
            (take_page-Ends z h id e s (refl, inr here)) (λ p s' t. push_Ready h id p e s' l t))
    | inr (enough, l) ↦ rw (enough, reserve) (refl, inr (e, here, refl, l))
  ]
    where
      h : ℕ
      h = s.page_table.hidden_dim

  -- After the write the entry is one longer, and its last slot holds the vectors.
  record Stored (id n : ℕ) (ks vs : List F) (s : KvCacheManager F) : Type 0 where
    entry : SequenceEntry
    page : Page F
    page_id : ℕ
    found : get ℕ_discrete id s.entries ≡ some entry
    longer : entry.seq_len ≡ n + 1
    page_at : get_elem? entry.page_ids (n / page_tokens) ≡ some page_id
    in_table : get_elem? s.page_table.pages page_id ≡ some page
    keys_there : read_keys page (n % page_tokens) ≡ some ks
    values_there : read_values page (n % page_tokens) ≡ some vs

  -- A sequence that is not there has no last page.
  lost :
      (id : ℕ) (s : KvCacheManager F)
      → get ℕ_discrete id s.entries ≡ none
      → Ends (λ (_ : ℕ) _. ⊥) (last_page id s)
  unfolding last_page find
  lost id s gone = rw (gone, Ends, last_page, find) tt

  abbrev after_store : ℕ → ℕ → List F → List F → KvCacheManager F → ℕ → Page F → KvCacheManager F
  after_store id n ks vs s q page = record s {
    page_table = record s.page_table {
      pages = set s.page_table.pages q (write page (n % page_tokens) ks vs).1;
    };
    entries = modify ℕ_discrete id (λ x. record x { seq_len = (x.seq_len + 1) % word }) s.entries;
  }

  store_kv-Stored :
      (id n : ℕ) (ks vs : List F) (s : KvCacheManager F)
      → IsExclusive z s
      → Ready (length ks) id n s
      → n + 1 < word
      → length vs ≡ length ks
      → Ends (λ _. Stored id n ks vs) (store_kv id n ks vs s)
  unfolding store_kv
  store_kv-Stored id n ks vs s v (d, inl gone) w vl =
      bind_Ends (λ _ _. ⊥) (λ _. Stored id n ks vs) _ (last_page id s) (lost id s gone)
        λ q s' h. absurd h
  store_kv-Stored id n ks vs s v (d, inr (e, here, en, l)) w vl =
      let (q, is_last, is_at) = get_last?-get_elem? e.page_ids (n / page_tokens) l in
      let there : q < length s.page_table.pages = v.in_range q (
        omega (arith, count-le-held q id s.entries e here, count-get_last? q e.page_ids is_last)) in
      let (page, at) = get_elem?-some s.page_table.pages q there in
      let (done, shape, rk, rv, _, _) =
        write_lem (n % page_tokens) ks vs (v.table.shaped q page at) (omega arith) (sym d)
          (omega (arith, d, vl)) in
      let stored : store_kv id n ks vs s ≡ (ok tt, after_store id n ks vs s q page) =
        bind_ok _ (last_page-some id e s here q is_last)
        ∙ bind_ok _ (write_to_page-some q (n % page_tokens) ks vs page s at done)
        ∙ finish_append_some id e _ here in
      rw stored (record {
        entry = record e { seq_len = (e.seq_len + 1) % word };
        page = (write page (n % page_tokens) ks vs).1;
        page_id = q;
        found = get-modify_self ℕ_discrete id _ s.entries e here;
        longer = omega arith;
        page_at = is_at;
        in_table = get_elem?-set_self s.page_table.pages q _ there;
        keys_there = rk;
        values_there = rv;
      })

  -- Reading the position that was just stored.
  read_kv-Stored :
      (now id n : ℕ) (ks vs : List F) (s : KvCacheManager F)
      → Stored id n ks vs s
      → (read_kv now id n (length ks) (length vs) s).0 ≡ ok (ks, vs)
  unfolding read_kv touch
  read_kv-Stored now id n ks vs s st =
      ap (λ (r : Result (List F × List F) × KvCacheManager F). r.0)
        (bind_ok _ (find_some id st.entry (touch id s).1 st.found)
          ∙ bind_ok _ (
              locate-some now id n st.page_id st.entry (touch id s).1 (omega (arith, st.longer))
                st.page_at)
          ∙ read_from_page_table-some st.page_id (n % page_tokens) st.page ks vs _ st.in_table
              st.keys_there st.values_there)

  Ends-and :
      {A : Type 0} (Q : KvCacheManager F → Type 0) (P : KvCacheManager F → Type 0)
      (r : Result A × KvCacheManager F)
      → Ends (λ _. Q) r
      → P r.1
      → Ends (λ _ s. Q s × P s) r
  Ends-and Q P (ok a, s) h k = (h, k)
  Ends-and Q P (err e, s) h k = tt
  Ends-and Q P (panicked, s) h k = tt

  begin_append-some :
      (now id : ℕ) (e : SequenceEntry) (s : KvCacheManager F)
      → get ℕ_discrete id s.entries ≡ some e
      → begin_append now id s ≡ (
        ok (e.seq_len, needs_page e),
        record (touch id s).1 { entries = modify ℕ_discrete id (accessed now) s.entries },
      )
  unfolding begin_append
  begin_append-some now id e s here = bind_ok _ (find_some id e (touch id s).1 here)

  append_kv-Stored :
      (now id : ℕ) (ks vs : List F) (s : KvCacheManager F) (e : SequenceEntry)
      → IsExclusive z s
      → get ℕ_discrete id s.entries ≡ some e
      → IsAligned e
      → e.seq_len + 1 < word
      → length ks ≡ s.page_table.hidden_dim
      → length vs ≡ s.page_table.hidden_dim
      → Ends (λ _. Stored id e.seq_len ks vs) (append_kv z now id ks vs s)
  unfolding append_kv
  append_kv-Stored now id ks vs s e v here al w kl vl =
      rw (bind_ok _ (begin_append-some now id e s here)) (
        bind_Ends (λ _ t. Ready h id n t × IsExclusive z t) (λ _. Stored id n ks vs) _
          (reserve z (needs_page e) id started)
          (Ends-and (Ready h id n) (IsExclusive z) _
            (reserve-Ready id (accessed now e) started
              (get-modify_self ℕ_discrete id (accessed now) s.entries e here) al)
            (reserve-IsExclusive z (needs_page e) id (
              subst (λ (r : Result (ℕ × Bool) × KvCacheManager F). IsExclusive z r.1)
                (begin_append-some now id e s here) (begin_append-IsExclusive z now id v))))
          λ _ t p.
            store_kv-Stored id n ks vs t p.1 (subst (λ k. Ready k id n t) (sym kl) p.0) w
              (vl ∙ sym kl))
    where
      h : ℕ
      h = s.page_table.hidden_dim

      n : ℕ
      n = e.seq_len

      started : KvCacheManager F
      started = record (touch id s).1 { entries = modify ℕ_discrete id (accessed now) s.entries }

  -- In a cache where pages are owned exclusively, a successful `append_kv` of vectors of the
  -- cache's width to a sequence of which the window took no page, and whose length does not
  -- overflow, stores the vectors at the position that was the length: `read_kv` of it returns them.
  pub read_kv-append_kv :
      (now later id : ℕ) (ks vs : List F) (s : KvCacheManager F) (e : SequenceEntry)
      → IsExclusive z s
      → get ℕ_discrete id s.entries ≡ some e
      → IsAligned e
      → e.seq_len + 1 < word
      → length ks ≡ s.page_table.hidden_dim
      → length vs ≡ s.page_table.hidden_dim
      → (append_kv z now id ks vs s).0 ≡ ok tt
      → (read_kv later id e.seq_len (length ks) (length vs) (append_kv z now id ks vs s).1).0
        ≡ ok (ks, vs)
  read_kv-append_kv now later id ks vs s e v here al w kl vl done =
      read_kv-Stored later id e.seq_len ks vs _
        (Ends_ok _ _ tt (append_kv-Stored now id ks vs s e v here al w kl vl) done)
