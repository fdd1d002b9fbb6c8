-- ===== src/Memory/Paged/Table.antt =====
-- `PageTable::allocate_page` and `free` of core-runtime/src/memory/paged.rs.
use gg_core.Prelude.{
  ℕ, ◌+◌, ◌≤◌, ◌<◌, ◌≡◌, refl, sym, ap, ◌∙◌, inl, inr, some, List, [], ◌∷◌, ◌++◌, length, get_elem?,
  set, arith, length-set, get_elem?-set_self, get_elem?-set_ne, get_elem?-lt, get_elem?-some,
  Option-cases, ℕ_discrete,
}
use gg_core.Prelude.Counts.{count, hit, count-append}
use gg_core.Memory.Paged.{Page, PageTable, word, new_page, reset, free_one, free}
use gg_core.Memory.Paged.Slots.{IsPage, reset-new_page, new_page-IsPage}

module _ {F : Type 0} (z : F) where
  -- Pages are numbered by their index, stay within the limit, and every free one is blank.
  pub record IsTable (t : PageTable F) : Type 0 where
    pub numbered : t.next_id ≡ length t.pages
    pub capped : length t.pages ≤ t.max_pages
    pub word_sized : t.max_pages < word
    pub shaped : (i : ℕ) (p : Page F) → get_elem? t.pages i ≡ some p → IsPage i t.hidden_dim p
    pub free_in_range : (i : ℕ) → 0 < count i t.free_pages → i < length t.pages
    pub free_blank :
        (i : ℕ) → 0 < count i t.free_pages → get_elem? t.pages i ≡ some (new_page z i t.hidden_dim)

  module _ {t : PageTable F} (v : IsTable t) (id : ℕ) (page : Page F)
      (e : get_elem? t.pages id ≡ some page) where
    reset_here : get_elem? (set t.pages id (reset z page)) id ≡ some (new_page z id t.hidden_dim)
    reset_here =
        get_elem?-set_self t.pages id (reset z page) (get_elem?-lt t.pages id page e)
        ∙ ap some (reset-new_page z (v.shaped id page e))

    shaped_after :
        (i : ℕ) (p : Page F)
        → get_elem? (set t.pages id (reset z page)) i ≡ some p
        → IsPage i t.hidden_dim p
    shaped_after i p q = elim (ℕ_discrete id i) [
      | yes same ↦
          let blank : p ≡ new_page z i t.hidden_dim = cc (reset_here, same, q) in
          rw blank (new_page-IsPage z i t.hidden_dim)
      | no other ↦ v.shaped i p (sym (get_elem?-set_ne t.pages id i (reset z page) other) ∙ q)
    ]

    blank_after :
        (i : ℕ)
        → 0 < count i (t.free_pages ++ id ∷ [])
        → get_elem? (set t.pages id (reset z page)) i ≡ some (new_page z i t.hidden_dim)
    blank_after i c = elim (ℕ_discrete id i) [
      | yes same ↦ rw (← same) reset_here
      | no other ↦
          get_elem?-set_ne t.pages id i (reset z page) other
          ∙ v.free_blank i (ground (arith, count-append i t.free_pages (id ∷ [])))
    ]

    in_range_after : (i : ℕ) → 0 < count i (t.free_pages ++ id ∷ []) → i < length t.pages
    in_range_after i c = ground (
      arith,
      count-append i t.free_pages (id ∷ []),
      v.free_in_range i,
      get_elem?-lt t.pages id page e,
    )

  free_one-IsTable : {t : PageTable F} (id : ℕ) → IsTable t → IsTable (free_one z t id)
  unfolding free_one
  free_one-IsTable {t} id v = elim (Option-cases (get_elem? t.pages id)) [
    | inl e ↦ rw (e, free_one) v
    | inr (page, e) ↦
        rw (e, free_one)
          (record {
            numbered = v.numbered ∙ sym (length-set t.pages id (reset z page));
            capped = rw (length-set t.pages id (reset z page)) v.capped;
            word_sized = v.word_sized;
            shaped = shaped_after v id page e;
            free_in_range =
                λ i c. rw (length-set t.pages id (reset z page)) (in_range_after v id page e i c);
            free_blank = blank_after v id page e;
          })
  ]

  pub free-IsTable : (ids : List ℕ) {t : PageTable F} → IsTable t → IsTable (free z t ids)
  unfolding free
  free-IsTable [] v = v
  free-IsTable (id ∷ ids) v = free-IsTable ids (free_one-IsTable id v)

  length-free_one : (id : ℕ) (t : PageTable F) → length (free_one z t id).pages ≡ length t.pages
  unfolding free_one
  length-free_one id t = elim (Option-cases (get_elem? t.pages id)) [
    | inl e ↦ rw (e, free_one)
    | inr (page, e) ↦ rw (e, free_one) (length-set t.pages id (reset z page))
  ]

  hidden_dim-free_one : (id : ℕ) (t : PageTable F) → (free_one z t id).hidden_dim ≡ t.hidden_dim
  unfolding free_one
  hidden_dim-free_one id t = elim (Option-cases (get_elem? t.pages id)) [
    | inl e ↦ rw (e, free_one)
    | inr (page, e) ↦ rw (e, free_one)
  ]

  pub hidden_dim-free : (ids : List ℕ) (t : PageTable F) → (free z t ids).hidden_dim ≡ t.hidden_dim
  unfolding free
  hidden_dim-free [] t = refl
  hidden_dim-free (id ∷ ids) t = hidden_dim-free ids (free_one z t id) ∙ hidden_dim-free_one id t

  pub length-free : (ids : List ℕ) (t : PageTable F) → length (free z t ids).pages ≡ length t.pages
  unfolding free
  length-free [] t = refl
  length-free (id ∷ ids) t = length-free ids (free_one z t id) ∙ length-free_one id t

  count-free_one :
      (a id : ℕ) (t : PageTable F)
      → id < length t.pages
      → count a (free_one z t id).free_pages ≡ count a t.free_pages + hit a id
  unfolding free_one
  count-free_one a id t h =
      let (page, e) = get_elem?-some t.pages id h in
      rw (e, free_one) (omega (arith, count-append a t.free_pages (id ∷ [])))

  -- Freeing pages of the table adds each of them to the free list as often as it is freed.
  pub count-free :
      (a : ℕ) (ids : List ℕ) (t : PageTable F)
      → ((i : ℕ) → 0 < count i ids → i < length t.pages)
      → count a (free z t ids).free_pages ≡ count a t.free_pages + count a ids
  unfolding free
  count-free a [] t h = omega arith
  count-free a (id ∷ ids) t h = omega (
    arith,
    count-free_one a id t (h id (ground arith)),
    count-free a ids (free_one z t id) λ i c. rw (length-free_one id t) (h i (ground arith)),
  )

  -- A page that is not freed keeps its contents.
  pub free_keeps :
      (i : ℕ) (ids : List ℕ) (t : PageTable F)
      → count i ids ≡ 0
      → get_elem? (free z t ids).pages i ≡ get_elem? t.pages i
  unfolding free
  free_keeps i [] t h = refl
  free_keeps i (id ∷ ids) t h = free_keeps i ids (free_one z t id) (ground arith) ∙ one
    where
      one : get_elem? (free_one z t id).pages i ≡ get_elem? t.pages i
      one = elim (Option-cases (get_elem? t.pages id)) [
        | inl e ↦ rw (e, free_one)
        | inr (page, e) ↦
            rw (e, free_one) (get_elem?-set_ne t.pages id i (reset z page) (ground arith))
      ]
