-- ===== src/Memory/Paged/Slots.antt =====
-- `Page::write`, `read_keys`, `read_values` and `reset` of core-runtime/src/memory/paged.rs.
use gg_core.Prelude.{
  ℕ, ◌+◌, ◌*◌, ◌-◌, ◌≤◌, ◌<◌, ◌≡◌, ◌≢◌, refl, sym, dec_lt, ap, ◌∙◌, max, true, some, Option-cases,
  inl, inr, List, replicate, length, length-replicate, arith, take, drop,
}
use gg_core.Memory.Paged.{
  Page, page_tokens, slice, copy_from_slice, write, read_keys, read_values, new_page, reset,
}
use gg_core.Memory.Paged.Slices.{
  splice, length-splice, splice_self, splice_before, splice_after, map_const-replicate,
  drop-replicate, take-replicate,
}

-- The shape of a page of the table: its index and room for `page_tokens` vectors of each kind.
pub record IsPage {F : Type 0} (i hidden_dim : ℕ) (p : Page F) : Type 0 where
  pub id_eq : p.id ≡ i
  pub dim : p.hidden_dim ≡ hidden_dim
  pub keys_len : length p.keys ≡ page_tokens * hidden_dim
  pub values_len : length p.values ≡ page_tokens * hidden_dim

slot_end : (slot h : ℕ) → slot < page_tokens → slot * h + h ≤ page_tokens * h
slot_end slot h l = grind arith

slots_apart : (a b h : ℕ) → a < b → a * h + h ≤ b * h
slots_apart a b h l = grind arith

module _ {F : Type 0} where
  copies :
      (buf src : List F) (offset end n : ℕ)
      → end ≤ length buf
      → end ≡ offset + n
      → length src ≡ n
      → copy_from_slice buf offset end src ≡ some (splice buf offset end src)
  unfolding copy_from_slice
  copies buf src offset end n h e l = ground arith

  slices :
      (buf : List F) (offset end n : ℕ)
      → end ≤ length buf
      → end ≡ offset + n
      → slice buf offset end ≡ some (take n (drop offset buf))
  unfolding slice
  slices buf offset end n h e = let e' : end - offset ≡ n = omega arith in rw (← e') (ground arith)

  -- What a write of full vectors leaves behind.
  abbrev written : Page F → ℕ → List F → List F → Page F
  written p slot ks vs = record p {
    keys = splice p.keys (slot * p.hidden_dim) (slot * p.hidden_dim + p.hidden_dim) ks;
    values = splice p.values (slot * p.hidden_dim) (slot * p.hidden_dim + p.hidden_dim) vs;
    used_slots = max p.used_slots (slot + 1);
  }

  module _ {i h : ℕ} {p : Page F} (shape : IsPage i h p) (slot : ℕ) (room : slot < page_tokens)
      (ks vs : List F) (kl : length ks ≡ h) (vl : length vs ≡ h) where
    fits : slot * p.hidden_dim + p.hidden_dim ≤ page_tokens * h
    fits = let d = shape.dim in rw d (slot_end slot h room)

    write-written : write p slot ks vs ≡ (true, written p slot ks vs)
    unfolding write
    write-written =
        let d = shape.dim in
        ground (
          arith,
          copies p.keys ks (slot * p.hidden_dim) (slot * p.hidden_dim + p.hidden_dim) p.hidden_dim
              (omega (arith, fits, shape.keys_len)) refl (omega (arith, d)),
          copies p.values vs (slot * p.hidden_dim) (slot * p.hidden_dim + p.hidden_dim) p.hidden_dim
              (omega (arith, fits, shape.values_len)) refl (omega (arith, d)),
        )

    written-IsPage : IsPage i h (written p slot ks vs)
    written-IsPage = record {
      id_eq = shape.id_eq;
      dim = shape.dim;
      keys_len =
          length-splice p.keys ks (slot * p.hidden_dim) (slot * p.hidden_dim + p.hidden_dim)
            p.hidden_dim (omega (arith, fits, shape.keys_len)) refl (omega (arith, shape.dim))
          ∙ shape.keys_len;
      values_len =
          length-splice p.values vs (slot * p.hidden_dim) (slot * p.hidden_dim + p.hidden_dim)
            p.hidden_dim (omega (arith, fits, shape.values_len)) refl (omega (arith, shape.dim))
          ∙ shape.values_len;
    }

  -- One buffer of a page: the slot that was spliced in is read back, and no other slot moved.
  module _ (buf src : List F) (slot h : ℕ) (len : length buf ≡ page_tokens * h)
      (room : slot < page_tokens) (sl : length src ≡ h) where
    slice_self :
        slice (splice buf (slot * h) (slot * h + h) src) (slot * h) (slot * h + h) ≡ some src
    slice_self =
        let fit : slot * h + h ≤ length buf = omega (arith, slot_end slot h room, len) in
        slices (splice buf (slot * h) (slot * h + h) src) (slot * h) (slot * h + h) h
          (rw (length-splice buf src (slot * h) (slot * h + h) h fit refl sl) fit) refl
        ∙ ap some (splice_self buf src (slot * h) (slot * h + h) h fit refl sl)

    slice_other :
        (other : ℕ)
        → other < page_tokens
        → other ≢ slot
        → slice (splice buf (slot * h) (slot * h + h) src) (other * h) (other * h + h)
          ≡ slice buf (other * h) (other * h + h)
    slice_other other o ne =
        slices (splice buf (slot * h) (slot * h + h) src) (other * h) (other * h + h) h
          (rw (length-splice buf src (slot * h) (slot * h + h) h fit refl sl) fit') refl
        ∙ ap some (elim (dec_lt other slot) [
          | yes l ↦
              splice_before buf src (slot * h) (slot * h + h) h fit refl sl (other * h) h
                (slots_apart other slot h l)
          | no l ↦
              splice_after buf src (slot * h) (slot * h + h) h fit refl sl (other * h) h
                (slots_apart slot other h (omega arith))
        ])
        ∙ sym (slices buf (other * h) (other * h + h) h fit' refl)
      where
        fit : slot * h + h ≤ length buf
        fit = omega (arith, slot_end slot h room, len)

        fit' : other * h + h ≤ length buf
        fit' = omega (arith, slot_end other h o, len)

  -- A write of full vectors into a slot of a page succeeds, keeps the page's shape, is read back
  -- from that slot, marks the slot as used, and changes what no other slot holds.
  pub write_lem :
      {i h : ℕ} {p : Page F} (slot : ℕ) (ks vs : List F)
      → IsPage i h p
      → slot < page_tokens
      → length ks ≡ h
      → length vs ≡ h
      → let (done, q) = write p slot ks vs in
        (done ≡ true)
        × IsPage i h q
        × (read_keys q slot ≡ some ks)
        × (read_values q slot ≡ some vs)
        × (q.used_slots ≡ max p.used_slots (slot + 1))
        × ((other : ℕ)
            → other < page_tokens
            → other ≢ slot
            → (read_keys q other ≡ read_keys p other) × (read_values q other ≡ read_values p other))
  unfolding read_keys read_values
  write_lem {i} {h} {p} slot ks vs shape room kl vl =
      let d = shape.dim in
      rw (write-written shape slot room ks vs kl vl) (
        refl,
        written-IsPage shape slot room ks vs kl vl,
        slice_self p.keys ks slot p.hidden_dim (omega (arith, keys')) room (omega (arith, d)),
        slice_self p.values vs slot p.hidden_dim (omega (arith, values')) room (omega (arith, d)),
        refl,
        λ other o ne. (
          slice_other p.keys ks slot p.hidden_dim keys' room (omega (arith, d)) other o ne,
          slice_other p.values vs slot p.hidden_dim values' room (omega (arith, d)) other o ne,
        ),
      )
    where
      keys' : length p.keys ≡ page_tokens * p.hidden_dim
      keys' = let d = shape.dim in omega (arith, shape.keys_len, d)

      values' : length p.values ≡ page_tokens * p.hidden_dim
      values' = let d = shape.dim in omega (arith, shape.values_len, d)

  copy-length :
      (buf src : List F) (offset end : ℕ) {b : List F}
      → copy_from_slice buf offset end src ≡ some b
      → length b ≡ length buf
  unfolding copy_from_slice
  copy-length buf src offset end e = ground (
    arith,
    λ (f : end ≤ length buf) (l : offset ≤ end) (k : length src ≡ end - offset).
        length-splice buf src offset end (end - offset) f (omega arith) k,
  )

  -- Whatever the arguments, a write leaves the shape of a page, also where it panics half-way.
  pub write-IsPage :
      {i h : ℕ} {p : Page F} (slot : ℕ) (ks vs : List F)
      → IsPage i h p
      → IsPage i h (write p slot ks vs).1
  unfolding write
  write-IsPage {i} {h} {p} slot ks vs shape =
      elim (Option-cases (copy_from_slice p.keys offset end ks)) [
        | inl e ↦ rw (e, write) shape
        | inr (b, e) ↦ elim (Option-cases (copy_from_slice p.values offset end vs)) [
          | inl e' ↦ rw (e, e', write) (ground (arith, copy-length p.keys ks offset end e))
          | inr (c, e') ↦
              rw (e, e', write)
                (ground (
                  arith,
                  copy-length p.keys ks offset end e,
                  copy-length p.values vs offset end e',
                ))
        ]
      ]
    where
      offset : ℕ
      offset = slot * p.hidden_dim

      end : ℕ
      end = slot * p.hidden_dim + p.hidden_dim

module _ {F : Type 0} (z : F) where
  -- Resetting a page of a given shape gives the page that creation gives, whatever was written to it.
  pub reset-new_page : {i h : ℕ} {p : Page F} → IsPage i h p → reset z p ≡ new_page z i h
  unfolding reset new_page
  reset-new_page {i} {h} {p} shape = ground (
    arith,
    map_const-replicate z p.keys,
    map_const-replicate z p.values,
    ap (λ n. replicate n z) shape.keys_len,
    ap (λ n. replicate n z) shape.values_len,
  )

  pub new_page-IsPage : (i h : ℕ) → IsPage i h (new_page z i h)
  unfolding new_page
  new_page-IsPage i h = record {
    id_eq = refl;
    dim = refl;
    keys_len = length-replicate (page_tokens * h) z;
    values_len = length-replicate (page_tokens * h) z;
  }

  zeros :
      (slot h : ℕ)
      → slot < page_tokens
      → slice (replicate (page_tokens * h) z) (slot * h) (slot * h + h) ≡ some (replicate h z)
  zeros slot h l =
      slices (replicate (page_tokens * h) z) (slot * h) (slot * h + h) h
        (omega (arith, length-replicate (page_tokens * h) z, slot_end slot h l)) refl
      ∙ ap some (
          ap (take h) (drop-replicate (slot * h) (page_tokens * h) z)
          ∙ take-replicate h (page_tokens * h - slot * h) z (omega (arith, slot_end slot h l)))

  -- Every slot of a page that was reset reads as zeros, whatever the page held before.
  pub reset_zeroes :
      {i h : ℕ} {p : Page F} (slot : ℕ)
      → IsPage i h p
      → slot < page_tokens
      → (read_keys (reset z p) slot ≡ some (replicate h z))
        × (read_values (reset z p) slot ≡ some (replicate h z))
        × ((reset z p).used_slots ≡ 0)
  unfolding read_keys read_values
  reset_zeroes {h = h} slot shape l =
      rw (reset-new_page shape) (unfold new_page in (zeros slot h l, zeros slot h l, refl))
