-- ===== src/Security/Stream/Returns.antt =====
-- core-runtime/src/security/stream_sanitizer.rs: a rebase slices the text on its boundaries only.
use gg_core.Prelude.{
  ℕ, zero, suc, ◌-◌, ◌*◌, ◌≤◌, max, min, ◌≡◌, refl, ap, ◌∙◌, Bool, true, Option, none, some, List,
  ◌++◌, length, take, drop, ltb, leb, inl, inr, Option-cases, Bool-cases, arith,
}
use gg_core.Security.Stream.{
  StreamSanitizer, is_char_boundary, slice, slice_from, floor_char_boundary, floor_from, sanitized,
  splits_cleanly, eq_bytes, scan, clean_split_at_or_before, rebase_threshold, maybe_rebase,
}
use gg_core.Security.Stream.Rebase.{maybe_rebase-sanitized, maybe_rebase-emitted, scan-Splits}

slices :
    (full tail : List ℕ) (a p : ℕ)
    → slice_from full a ≡ some tail
    → a ≤ p
    → p ≤ length full
    → is_char_boundary full p ≡ true
    → (left : List ℕ) × (right : List ℕ) × (slice full a p ≡ some left)
      × (slice_from full p ≡ some right)
unfolding slice slice_from
slices full tail a p h order within boundary =
    (take (p - a) (drop a full), drop p full, ground arith, ground arith)

floor_from_le : (text : List ℕ) (i : ℕ) → floor_from text i ≤ i
unfolding floor_from
floor_from_le text zero = omega arith
floor_from_le text (suc i) = ground (arith, floor_from_le text i)

module _ (sanitize : List ℕ → List ℕ) where
  splits_cleanly-some :
      (full tail : List ℕ) (p : ℕ) (s : StreamSanitizer)
      → slice_from full s.stable_raw ≡ some tail
      → s.stable_raw ≤ p
      → p ≤ length full
      → is_char_boundary full p ≡ true
      → (b : Bool) × (splits_cleanly sanitize full p s ≡ some b)
  unfolding splits_cleanly
  splits_cleanly-some full tail p s h order within boundary =
      let (left, right, is_left, is_right) =
        slices full tail s.stable_raw p h order within boundary in
      (eq_bytes (sanitize tail) (sanitize left ++ sanitize right), ground arith)

  sanitized-slices :
      (full text : List ℕ) (s : StreamSanitizer)
      → sanitized sanitize full s ≡ some text
      → (tail : List ℕ) × (slice_from full s.stable_raw ≡ some tail)
  unfolding sanitized
  sanitized-slices full text s h = elim (Option-cases (slice_from full s.stable_raw)) [
    | inl none_here ↦ absurd (ground arith)
    | inr there ↦ there
  ]

  scan-some :
      (full tail : List ℕ) (limit : ℕ) (s : StreamSanitizer) (n : ℕ)
      → slice_from full s.stable_raw ≡ some tail
      → s.stable_raw ≤ limit
      → n ≤ length full
      → (r : Option ℕ) × (scan sanitize full limit s n ≡ some r)
  unfolding scan
  scan-some full tail limit s zero h order within = (none, refl)
  scan-some full tail limit s (suc n) h order within =
      let (r, rest) = scan-some full tail limit s n h order (omega arith) in
      elim (Bool-cases (ltb limit (suc n))) [
        | inr stop ↦ (none, ground arith)
        | inl more ↦ elim (Bool-cases (is_char_boundary full (suc n))) [
          | inr inside ↦ (r, ground arith)
          | inl boundary ↦
              let (b, e) =
                splits_cleanly-some full tail (suc n) s h (ground arith) within boundary in
              elim (Bool-cases b) [
                | inl clean ↦ (some (suc n), ground arith)
                | inr straddled ↦ (r, ground arith)
              ]
        ]
      ]

  maybe_rebase-some :
      (full tail : List ℕ) (s : StreamSanitizer)
      → slice_from full s.stable_raw ≡ some tail
      → (s' : StreamSanitizer) × (maybe_rebase sanitize full s ≡ some s')
  unfolding maybe_rebase clean_split_at_or_before floor_char_boundary
  maybe_rebase-some full tail s h =
      let target : ℕ = length full - 2 * s.holdback in
      let p : ℕ = floor_char_boundary full target in
      let limit : ℕ = max s.stable_raw (p - 2 * s.holdback) in
      let below : p ≤ length full = omega (arith, floor_from_le full (min target (length full))) in
      let (r, found) = scan-some full tail limit s p h (omega arith) below in
      elim (Bool-cases (leb (length full - s.stable_raw) rebase_threshold)) [
        | inl short ↦ (s, ground arith)
        | inr long ↦ elim (Option-cases r) [
          | inl no_split ↦ (s, ground arith)
          | inr (q, is_split) ↦
              let (_, left, _, _, is_left, _, _) =
                scan-Splits sanitize full limit s p q (found ∙ ap some is_split) in
              (
                record s { stable_raw = q; stable_san = s.stable_san ++ sanitize left },
                ground arith,
              )
        ]
      ]

  -- Where what is made of a text is known, a rebase of the cached prefix at it returns and keeps it:
  -- the longer prefix and the sanitized rest are the same text.
  pub maybe_rebase_lem :
      (full text : List ℕ) (s : StreamSanitizer)
      → sanitized sanitize full s ≡ some text
      → (s' : StreamSanitizer) × (maybe_rebase sanitize full s ≡ some s')
        × (sanitized sanitize full s' ≡ some text)
        × (s'.emitted ≡ s.emitted)
  maybe_rebase_lem full text s h =
      let (tail, is_tail) = sanitized-slices full text s h in
      let (s', returns) = maybe_rebase-some full tail s is_tail in
      (
        s',
        returns,
        maybe_rebase-sanitized sanitize full s s' returns ∙ h,
        maybe_rebase-emitted sanitize full s s' returns,
      )
