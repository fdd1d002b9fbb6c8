-- ===== src/Memory/Paged.antt =====
-- core-runtime/src/memory/paged.rs: pages of KV slots and the pool that hands them out.
-- Floats are a type parameter with its zero; a page is addressed by its index. A slice operation
-- that Rust refuses with a panic returns `none`.
pub mod Slices
pub mod Slots
pub mod Table
pub mod Allocate
use gg_core.Prelude.{
  ℕ, zero, suc, ◌+◌, ◌*◌, ◌%◌, ◌^◌, max, Bool, true, false, ◌&&◌, Option, none, some, List, [], ◌∷◌,
  ◌++◌, map, length, get_elem?, set, take, drop, replicate, leb, ◌==◌, if◌then◌else◌, ◌-◌,
}

abbrev pub page_tokens : ℕ
page_tokens = 16

-- usize and u64 are 64 bits wide.
abbrev pub word : ℕ
word = 2 ^ 64

pub record Page (F : Type 0) : Type 0 where
  pub id : ℕ
  pub keys : List F
  pub values : List F
  pub used_slots : ℕ
  pub hidden_dim : ℕ

pub record PageTable (F : Type 0) : Type 0 where
  pub free_pages : List ℕ
  pub pages : List (Page F)
  pub next_id : ℕ
  pub hidden_dim : ℕ
  pub max_pages : ℕ

module _ {F : Type 0} where
  -- &buf[offset..end]
  unfoldable pub slice : List F → ℕ → ℕ → Option (List F)
  slice buf offset end =
      if leb offset end && leb end (length buf)
      then some (take (end - offset) (drop offset buf))
      else none

  -- buf[offset..end].copy_from_slice(src)
  unfoldable pub copy_from_slice : List F → ℕ → ℕ → List F → Option (List F)
  copy_from_slice buf offset end src =
      if leb offset end && leb end (length buf) && (length src == end - offset)
      then some (take offset buf ++ (src ++ drop end buf))
      else none

  -- The flag is false where a copy panicked; the page is what that leaves behind.
  unfoldable pub write : Page F → ℕ → List F → List F → Bool × Page F
  unfolding copy_from_slice
  write p slot keys values =
      let offset = slot * p.hidden_dim in
      let end = offset + p.hidden_dim in
      elim (copy_from_slice p.keys offset end keys) [
        | none ↦ (false, p)
        | some ks ↦ elim (copy_from_slice p.values offset end values) [
          | none ↦ (false, record p { keys = ks })
          | some vs ↦
              (true, record p { keys = ks; values = vs; used_slots = max p.used_slots (slot + 1) })
        ]
      ]

  unfoldable pub read_keys : Page F → ℕ → Option (List F)
  unfolding slice
  read_keys p slot = slice p.keys (slot * p.hidden_dim) (slot * p.hidden_dim + p.hidden_dim)

  unfoldable pub read_values : Page F → ℕ → Option (List F)
  unfolding slice
  read_values p slot = slice p.values (slot * p.hidden_dim) (slot * p.hidden_dim + p.hidden_dim)

  unfoldable pub is_full : Page F → Bool
  is_full p = leb page_tokens p.used_slots

  unfoldable pub new_table : ℕ → ℕ → PageTable F
  new_table hidden_dim max_pages = record {
    free_pages = [];
    pages = [];
    next_id = 0;
    hidden_dim = hidden_dim;
    max_pages = max_pages;
  }

unfoldable pub slot_in_page : ℕ → ℕ
slot_in_page seq_pos = seq_pos % page_tokens

module _ {F : Type 0} (zero_f : F) where
  unfoldable pub new_page : ℕ → ℕ → Page F
  new_page id hidden_dim = record {
    id = id;
    keys = replicate (page_tokens * hidden_dim) zero_f;
    values = replicate (page_tokens * hidden_dim) zero_f;
    used_slots = 0;
    hidden_dim = hidden_dim;
  }

  unfoldable pub reset : Page F → Page F
  reset p = record p {
    used_slots = 0;
    keys = map (λ _. zero_f) p.keys;
    values = map (λ _. zero_f) p.values;
  }

  -- One round of the loop in `PageTable::free`.
  unfoldable pub free_one : PageTable F → ℕ → PageTable F
  unfolding reset
  free_one t id = elim (get_elem? t.pages id) [
    | none ↦ t
    | some page ↦ record t {
      pages = set t.pages id (reset page);
      free_pages = t.free_pages ++ id ∷ [];
    }
  ]

  unfoldable pub free : PageTable F → List ℕ → PageTable F
  unfolding free_one
  free t [] = t
  free t (id ∷ ids) = free (free_one t id) ids

  create_page : PageTable F → PageTable F × Option ℕ
  unfolding new_page
  create_page t = if leb t.max_pages (length t.pages) then (t, none) else (
    record t {
      next_id = (t.next_id + 1) % word;
      pages = t.pages ++ new_page t.next_id t.hidden_dim ∷ [];
    },
    some t.next_id,
  )

  get_or_create_page : List ℕ → PageTable F → PageTable F × Option ℕ
  unfolding create_page
  get_or_create_page [] t = create_page t
  get_or_create_page (id ∷ rest) t = (record t { free_pages = rest }, some id)

  unfoldable pub allocate_page : PageTable F → PageTable F × Option ℕ
  unfolding get_or_create_page
  allocate_page t = get_or_create_page t.free_pages t
