-- ===== src/Memory/KvCache/Runs.antt =====
-- What the steps of the KV cache return where they succeed, one equation for each.
use gg_core.Prelude.{
  ℕ, ◌+◌, ◌/◌, ◌%◌, ◌<◌, ◌≡◌, ◌∙◌, refl, Bool, true, false, some, List, length, get_elem?,
  get_last?, set, arith, ℕ_discrete, leb,
}
use gg_core.Prelude.HashMap.{get, modify}
use gg_core.Memory.Paged.{Page, page_tokens, word, write, read_keys, read_values}
use gg_core.Memory.KvCache.{
  KvCacheManager, KvCacheError, SequenceEntry, Run, Result, ok, err, panicked, proceed, find,
  accessed,
}
use gg_core.Memory.KvCache.Core.{last_page, put_page, write_to_page, finish_append}
use gg_core.Memory.KvCache.Ops.{locate, read_from_page_table}

module _ {F : Type 0} where
  pub bind_ok :
      {A B : Type 0} (f : A → Run F B) {r : Result A × KvCacheManager F} {a : A}
      {s : KvCacheManager F}
      → r ≡ (ok a, s)
      → proceed r.0 f r.1 ≡ f a s
  bind_ok f e = rw e

  pub bind_err :
      {A B : Type 0} (f : A → Run F B) (r : Result A × KvCacheManager F) (x : KvCacheError)
      → r.0 ≡ err x
      → (proceed r.0 f r.1).0 ≡ err x
  bind_err f (ok a, s) x e = cc
  bind_err f (err y, s) x e = ground arith
  bind_err f (panicked, s) x e = cc

  module _ (id : ℕ) (e : SequenceEntry) (s : KvCacheManager F)
      (here : get ℕ_discrete id s.entries ≡ some e) where
    pub find_some : find id s ≡ (ok e, s)
    unfolding find
    find_some = rw (here, find)

    pub last_page-some : (q : ℕ) → get_last? e.page_ids ≡ some q → last_page id s ≡ (ok q, s)
    unfolding last_page
    last_page-some q l = bind_ok _ find_some ∙ rw l

    pub finish_append_some : finish_append id s ≡ (
      ok tt,
      record s {
        entries =
            modify ℕ_discrete id (λ x. record x { seq_len = (x.seq_len + 1) % word }) s.entries;
      },
    )
    unfolding finish_append
    finish_append_some = bind_ok _ find_some

  pub write_to_page-some :
      (q slot : ℕ) (ks vs : List F) (page : Page F) (s : KvCacheManager F)
      → get_elem? s.page_table.pages q ≡ some page
      → (write page slot ks vs).0 ≡ true
      → write_to_page q slot ks vs s ≡ (
        ok tt,
        record s {
          page_table = record s.page_table {
            pages = set s.page_table.pages q (write page slot ks vs).1;
          };
        },
      )
  unfolding write_to_page
  write_to_page-some q slot ks vs page s at done =
      rw (at, write_to_page) (put (write page slot ks vs) done)
    where
      put :
          (r : Bool × Page F)
          → r.0 ≡ true
          → put_page r q s ≡ (
            ok tt,
            record s { page_table = record s.page_table { pages = set s.page_table.pages q r.1 } },
          )
      put (true, p) h = refl
      put (false, p) h = cc

  pub locate-some :
      (now id pos q : ℕ) (e : SequenceEntry) (s : KvCacheManager F)
      → pos < e.seq_len
      → get_elem? e.page_ids (pos / page_tokens) ≡ some q
      → locate now id pos e s
        ≡ (ok q, record s { entries = modify ℕ_discrete id (accessed now) s.entries })
  unfolding locate
  locate-some now id pos q e s h at =
      let within : leb e.seq_len pos ≡ false = ground arith in rw (within, at, locate)

  pub read_from_page_table-some :
      (q slot : ℕ) (page : Page F) (ks vs : List F) (s : KvCacheManager F)
      → get_elem? s.page_table.pages q ≡ some page
      → read_keys page slot ≡ some ks
      → read_values page slot ≡ some vs
      → read_from_page_table q slot (length ks) (length vs) s ≡ (ok (ks, vs), s)
  unfolding read_from_page_table
  read_from_page_table-some q slot page ks vs s at rk rv =
      rw (at, read_from_page_table) (rw (rk, rv) (ground arith))
