-- ===== src/Memory/Paged/Allocate.antt =====
-- What `PageTable::allocate_page` hands out (core-runtime/src/memory/paged.rs).
use gg_core.Prelude.{
  ℕ, ◌+◌, ◌%◌, ◌≤◌, ◌<◌, ◌≡◌, refl, sym, ◌∙◌, inl, inr, ◌⊎◌, Option, none, some, List, [], ◌∷◌,
  ◌++◌, length, get_elem?, arith, length-append, get_elem?-lt, get_elem?-append_left, subst,
  get_elem?-append_self, ℕ_discrete, dec_lt,
}
use gg_core.Prelude.Counts.{count, hit}
use gg_core.Memory.Paged.{
  Page, PageTable, word, new_page, allocate_page, get_or_create_page, create_page,
}
use gg_core.Memory.Paged.Slots.{IsPage, new_page-IsPage}
use gg_core.Memory.Paged.Table.{IsTable}

module _ {F : Type 0} (z : F) where
  pub hidden_dim-allocate_page : (t : PageTable F) → (allocate_page z t).0.hidden_dim ≡ t.hidden_dim
  unfolding allocate_page
  hidden_dim-allocate_page t = go t.free_pages
    where
      go : (ids : List ℕ) → (get_or_create_page z ids t).0.hidden_dim ≡ t.hidden_dim
      go [] = unfold get_or_create_page create_page in ground arith
      go (id ∷ rest) = unfold get_or_create_page in refl

  -- What an allocation of page `id` does to the table.
  pub record Allocated (t : PageTable F) (id : ℕ) (t' : PageTable F) : Type 0 where
    pub valid : IsTable z t'
    pub blank : get_elem? t'.pages id ≡ some (new_page z id t.hidden_dim)
    pub grew : length t.pages ≤ length t'.pages
    pub dim : t'.hidden_dim ≡ t.hidden_dim
    pub kept : (i : ℕ) → i < length t.pages → get_elem? t'.pages i ≡ get_elem? t.pages i
    pub taken :
        ((id ≡ length t.pages) × ((a : ℕ) → count a t'.free_pages ≡ count a t.free_pages))
        ⊎ ((id < length t.pages)
            × ((a : ℕ) → count a t'.free_pages + hit a id ≡ count a t.free_pages))

  recycled :
      {t : PageTable F} (id : ℕ) (rest : List ℕ)
      → IsTable z t
      → t.free_pages ≡ id ∷ rest
      → Allocated t id (record t { free_pages = rest })
  recycled {t} id rest v e = record {
    valid = record {
      numbered = v.numbered;
      capped = v.capped;
      word_sized = v.word_sized;
      shaped = v.shaped;
      free_in_range = λ i c. v.free_in_range i (ground arith);
      free_blank = λ i c. v.free_blank i (ground arith);
    };
    blank = v.free_blank id (ground arith);
    grew = omega arith;
    dim = refl;
    kept = λ i h. refl;
    taken = inr (v.free_in_range id (ground arith), λ a. ground arith);
  }

  module _ {t : PageTable F} (v : IsTable z t) (room : length t.pages < t.max_pages) where
    abbrev grown : PageTable F
    grown = record t {
      next_id = (t.next_id + 1) % word;
      pages = t.pages ++ new_page z t.next_id t.hidden_dim ∷ [];
    }

    grown_len : length grown.pages ≡ length t.pages + 1
    grown_len = omega (arith, length-append t.pages (new_page z t.next_id t.hidden_dim ∷ []))

    grown_self : get_elem? grown.pages t.next_id ≡ some (new_page z t.next_id t.hidden_dim)
    grown_self =
        subst (λ k. get_elem? grown.pages k ≡ some (new_page z t.next_id t.hidden_dim))
          (sym v.numbered) (get_elem?-append_self t.pages (new_page z t.next_id t.hidden_dim))

    grown_kept : (i : ℕ) → i < length t.pages → get_elem? grown.pages i ≡ get_elem? t.pages i
    grown_kept = get_elem?-append_left t.pages (new_page z t.next_id t.hidden_dim ∷ [])

    grown_shaped : (i : ℕ) (p : Page F) → get_elem? grown.pages i ≡ some p → IsPage i t.hidden_dim p
    grown_shaped i p q = elim (ℕ_discrete i t.next_id) [
      | yes same ↦
          let new : p ≡ new_page z i t.hidden_dim = cc (grown_self, same, q) in
          rw new (new_page-IsPage z i t.hidden_dim)
      | no other ↦ v.shaped i p (
          sym (grown_kept i (omega (arith, get_elem?-lt grown.pages i p q, grown_len, v.numbered)))
          ∙ q)
    ]

    created : Allocated t t.next_id grown
    created = record {
      valid = record {
        numbered = omega (arith, grown_len, v.numbered, v.capped, v.word_sized);
        capped = omega (arith, grown_len);
        word_sized = v.word_sized;
        shaped = grown_shaped;
        free_in_range = λ i c. omega (arith, grown_len, v.free_in_range i c);
        free_blank = λ i c. grown_kept i (v.free_in_range i c) ∙ v.free_blank i c;
      };
      blank = grown_self;
      grew = omega (arith, grown_len);
      dim = refl;
      kept = grown_kept;
      taken = inl (v.numbered, λ a. refl);
    }

  abbrev pub Allocates : PageTable F → PageTable F × Option ℕ → Type 0
  Allocates t r =
      ((t.free_pages ≡ []) × (t.max_pages ≤ length t.pages) × (r ≡ (t, none)))
      ⊎ ((id : ℕ) × (t' : PageTable F) × (r ≡ (t', some id)) × Allocated t id t')

  Allocates-from :
      (t : PageTable F) (ids : List ℕ)
      → t.free_pages ≡ ids
      → IsTable z t
      → Allocates t (get_or_create_page z ids t)
  unfolding get_or_create_page create_page
  Allocates-from t [] e v = elim (dec_lt (length t.pages) t.max_pages) [
    | yes room ↦ inr (t.next_id, grown v room, ground arith, created v room)
    | no full ↦ inl (e, omega arith, ground arith)
  ]
  Allocates-from t (id ∷ rest) e v =
      inr (id, record t { free_pages = rest }, refl, recycled id rest v e)

  -- An allocation fails only when no page is free and the table is at its limit, and then changes
  -- nothing; else it hands out a blank page, a free one or a new one, and keeps every other page.
  pub allocate_page-Allocates : (t : PageTable F) → IsTable z t → Allocates t (allocate_page z t)
  unfolding allocate_page
  allocate_page-Allocates t v = Allocates-from t t.free_pages refl v
