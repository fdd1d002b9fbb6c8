-- ===== src/Security/Stream/Rebase.antt =====
-- core-runtime/src/security/stream_sanitizer.rs: what a rebase of the cached prefix keeps.
use gg_core.Prelude.{
  ℕ, zero, suc, ◌-◌, ◌*◌, max, ◌≡◌, refl, ap, true, none, some, List, [], ◌∷◌, ◌++◌, append_assoc,
  length, leb, ◌⊎◌, inl, inr, Option-cases, Bool-cases, arith,
}
use gg_core.Security.Stream.{
  StreamSanitizer, slice, slice_from, eq_bytes, floor_char_boundary, sanitized, splits_cleanly,
  scan, clean_split_at_or_before, rebase_at, rebase_threshold, maybe_rebase,
}

eq_bytes_sound : (xs ys : List ℕ) → eq_bytes xs ys ≡ true → xs ≡ ys
unfolding eq_bytes
eq_bytes_sound [] [] h = refl
eq_bytes_sound [] (y ∷ ys) h = ground arith
eq_bytes_sound (x ∷ xs) [] h = ground arith
eq_bytes_sound (x ∷ xs) (y ∷ ys) h = ground (arith, eq_bytes_sound xs ys)

module _ (sanitize : List ℕ → List ℕ) where
  -- What a place where the text may be split gives.
  abbrev pub Splits : List ℕ → StreamSanitizer → ℕ → Type 0
  Splits full s p =
      (tail : List ℕ) × (left : List ℕ) × (right : List ℕ) × (slice_from full s.stable_raw
        ≡ some tail)
      × (slice full s.stable_raw p ≡ some left)
      × (slice_from full p ≡ some right)
      × (sanitize tail ≡ sanitize left ++ sanitize right)

  splits_cleanly-Splits :
      (full : List ℕ) (p : ℕ) (s : StreamSanitizer)
      → splits_cleanly sanitize full p s ≡ some true
      → Splits full s p
  unfolding splits_cleanly
  splits_cleanly-Splits full p s h = elim (Option-cases (slice_from full s.stable_raw)) [
    | inl none_here ↦ absurd (ground arith)
    | inr (tail, is_tail) ↦ elim (Option-cases (slice full s.stable_raw p)) [
      | inl none_here ↦ absurd (ground arith)
      | inr (left, is_left) ↦ elim (Option-cases (slice_from full p)) [
        | inl none_here ↦ absurd (ground arith)
        | inr (right, is_right) ↦ (
          tail,
          left,
          right,
          is_tail,
          is_left,
          is_right,
          eq_bytes_sound (sanitize tail) (sanitize left ++ sanitize right) (ground arith),
        )
      ]
    ]
  ]

  pub scan-Splits :
      (full : List ℕ) (limit : ℕ) (s : StreamSanitizer) (n p : ℕ)
      → scan sanitize full limit s n ≡ some (some p)
      → Splits full s p
  unfolding scan
  scan-Splits full limit s zero p h = ground arith
  scan-Splits full limit s (suc n) p h =
      ground (arith, splits_cleanly-Splits full (suc n) s, scan-Splits full limit s n p)

  sanitized-some :
      (full tail : List ℕ) (s : StreamSanitizer)
      → slice_from full s.stable_raw ≡ some tail
      → sanitized sanitize full s ≡ some (s.stable_san ++ sanitize tail)
  unfolding sanitized
  sanitized-some full tail s h = ground arith

  -- What a place where the text splits makes of the prefix.
  rebase_at-sanitized :
      (full : List ℕ) (p : ℕ) (s s' : StreamSanitizer)
      → Splits full s p
      → rebase_at sanitize full s (some p) ≡ some s'
      → sanitized sanitize full s' ≡ sanitized sanitize full s
  rebase_at-sanitized full p s s' (tail, left, right, is_tail, is_left, is_right, e) moved =
      let there : s' ≡ record s { stable_raw = p; stable_san = s.stable_san ++ sanitize left } =
        ground arith in
      rw
        (
          there,
          sanitized-some full tail s is_tail,
          e,
          ← append_assoc s.stable_san (sanitize left) (sanitize right),
        )
        (sanitized-some full right
          (record s { stable_raw = p; stable_san = s.stable_san ++ sanitize left }) is_right)

  maybe_rebase-at :
      (full : List ℕ) (s s' : StreamSanitizer)
      → maybe_rebase sanitize full s ≡ some s'
      → (s' ≡ s) ⊎ ((p : ℕ) × Splits full s p × (rebase_at sanitize full s (some p) ≡ some s'))
  unfolding maybe_rebase clean_split_at_or_before
  maybe_rebase-at full s s' h =
      elim (Bool-cases (leb (length full - s.stable_raw) rebase_threshold)) [
        | inl short ↦ inl (ground arith)
        | inr long ↦
            elim (Option-cases
              (clean_split_at_or_before sanitize full (length full - 2 * s.holdback) s)) [
                | inl none_here ↦ absurd (ground arith)
                | inr (none, found) ↦ inl (ground arith)
                | inr (some p, found) ↦ inr (
                  p,
                  scan-Splits full
                      (max s.stable_raw
                        (floor_char_boundary full (length full - 2 * s.holdback) - 2 * s.holdback))
                      s (floor_char_boundary full (length full - 2 * s.holdback)) p found,
                  ground arith,
                )
              ]
      ]

  -- A rebase keeps what is made of the text.
  pub maybe_rebase-sanitized :
      (full : List ℕ) (s s' : StreamSanitizer)
      → maybe_rebase sanitize full s ≡ some s'
      → sanitized sanitize full s' ≡ sanitized sanitize full s
  maybe_rebase-sanitized full s s' h = elim (maybe_rebase-at full s s' h) [
    | inl e ↦ ap (sanitized sanitize full) e
    | inr (p, splits, moved) ↦ rebase_at-sanitized full p s s' splits moved
  ]

  pub maybe_rebase-emitted :
      (full : List ℕ) (s s' : StreamSanitizer)
      → maybe_rebase sanitize full s ≡ some s'
      → s'.emitted ≡ s.emitted
  maybe_rebase-emitted full s s' h = elim (maybe_rebase-at full s s' h) [
    | inl e ↦ ap (λ t. t.emitted) e
    | inr (p, splits, moved) ↦ ground arith
  ]
