-- ===== src/Security/Stream/Whole.antt =====
-- core-runtime/src/security/stream_sanitizer.rs: what all the pushes and the flush release together.
use gg_core.Prelude.{
  ℕ, zero, suc, ◌-◌, ◌≤◌, ◌≡◌, refl, sym, ap, ◌∙◌, Bool, true, Option, none, some, List, [], ◌∷◌,
  ◌++◌, length, length-take, take, drop, ltb, leb, ◌⊎◌, inl, inr, Bool-cases, Option-cases, min,
  arith,
}
use gg_core.Security.Stream.{
  StreamSanitizer, new, is_char_boundary, slice, slice_from, release_cut, release, sanitized,
  maybe_rebase, flush, push,
}
use gg_core.Security.Stream.Rebase.{maybe_rebase-emitted}

abbrev pub text_of : Option (List ℕ) → List ℕ
text_of none = []
text_of (some text) = text

take_short : (n : ℕ) (xs : List ℕ) → length xs ≤ n → take n xs ≡ xs
take_short zero [] h = refl
take_short zero (x ∷ xs) h = absurd (omega arith)
take_short (suc n) [] h = refl
take_short (suc n) (x ∷ xs) h = ap (◌∷◌ x) (take_short n xs (omega arith))

drop_short : (n : ℕ) (xs : List ℕ) → length xs ≤ n → drop n xs ≡ []
drop_short zero [] h = refl
drop_short zero (x ∷ xs) h = absurd (omega arith)
drop_short (suc n) [] h = refl
drop_short (suc n) (x ∷ xs) h = drop_short n xs (omega arith)

take_split : (n m : ℕ) (xs : List ℕ) → n ≤ m → take n xs ++ take (m - n) (drop n xs) ≡ take m xs
take_split zero m xs h = ap (λ k. take k xs) (omega arith)
take_split (suc n) zero xs h = absurd (omega arith)
take_split (suc n) (suc m) [] h = take_short (suc m - suc n) [] (omega arith)
take_split (suc n) (suc m) (x ∷ xs) h =
    let e : suc m - suc n ≡ m - n = omega arith in
    ap (λ k. x ∷ (take n xs ++ take k (drop n xs))) e ∙ ap (◌∷◌ x) (take_split n m xs (omega arith))

take-take : (n m : ℕ) (xs : List ℕ) → n ≤ m → take n (take m xs) ≡ take n xs
take-take zero m xs h = refl
take-take (suc n) zero xs h = absurd (omega arith)
take-take (suc n) (suc m) [] h = refl
take-take (suc n) (suc m) (x ∷ xs) h = ap (◌∷◌ x) (take-take n m xs (omega arith))

take-drop : (n : ℕ) (xs : List ℕ) → take n xs ++ drop n xs ≡ xs
take-drop zero xs = refl
take-drop (suc n) [] = refl
take-drop (suc n) (x ∷ xs) = ap (◌∷◌ x) (take-drop n xs)

-- What release does, when it returns.
abbrev Releases : List ℕ → StreamSanitizer → Option (List ℕ) → StreamSanitizer → Type 0
Releases text s out s' =
    (text_of out ≡ take (s'.emitted - s.emitted) (drop s.emitted text))
    × (s.emitted ≤ s'.emitted)
    × ((s'.emitted ≡ s.emitted) ⊎ (s'.emitted ≤ length text))

slice-some :
    (text out : List ℕ) (a b : ℕ)
    → slice text a b ≡ some out
    → (out ≡ take (b - a) (drop a text)) × (b ≤ length text)
unfolding slice
slice-some text out a b h = (ground arith, ground arith)

slice_from-some :
    (text : List ℕ) (a : ℕ)
    → a ≤ length text
    → is_char_boundary text a ≡ true
    → slice_from text a ≡ some (drop a text)
unfolding slice_from
slice_from-some text a within boundary = ground arith

release-Releases :
    (text : List ℕ) (cut : ℕ) (s s' : StreamSanitizer) (out : Option (List ℕ))
    → release text cut s ≡ some (out, s')
    → Releases text s out s'
unfolding release
release-Releases text cut s s' out h = elim (Bool-cases (ltb s.emitted cut)) [
  | inl more ↦ elim (Option-cases (slice text s.emitted cut)) [
    | inl none_here ↦ absurd (ground arith)
    | inr (part, is_part) ↦
        let (e, within) = slice-some text part s.emitted cut is_part in
        let is_out : out ≡ some part = ground arith in
        let is_cut : s'.emitted ≡ cut = ground arith in
        rw (is_out, is_cut) (e, ground arith, inr within)
  ]
  | inr none_more ↦
      let is_out : out ≡ none = ground arith in
      let same : s'.emitted ≡ s.emitted = ground arith in
      let zero_more : 0 ≡ s.emitted - s.emitted = omega arith in
      rw (is_out, same) (ap (λ k. take k (drop s.emitted text)) zero_more, omega arith, inl refl)
]

module _ (sanitize : List ℕ → List ℕ) (is_alphanumeric : List ℕ → Bool) where
  -- Pushes from the start on, with what they release: what is released stays what it is in the whole.
  pub data Pushes (whole : List ℕ) : List ℕ → StreamSanitizer → Type 0 where
    start : Pushes whole [] new
    pushed :
        {out : List ℕ} {s s' : StreamSanitizer} (full text : List ℕ) (released : Option (List ℕ))
        → Pushes whole out s
        → sanitized sanitize full s ≡ some text
        → push sanitize is_alphanumeric full s ≡ some (released, s')
        → take s'.emitted text ≡ take s'.emitted whole
        → Pushes whole (out ++ text_of released) s'

  abbrev IsReleased : List ℕ → List ℕ → StreamSanitizer → Type 0
  IsReleased whole out s = (out ≡ take s.emitted whole) × (s.emitted ≤ length whole)

  push-Releases :
      (full text : List ℕ) (released : Option (List ℕ)) (s s' : StreamSanitizer)
      → sanitized sanitize full s ≡ some text
      → push sanitize is_alphanumeric full s ≡ some (released, s')
      → Releases text s released s'
  unfolding push
  push-Releases full text released s s' is_text h =
      elim (Option-cases (release_cut is_alphanumeric text s.holdback)) [
        | inl none_here ↦ absurd (ground arith)
        | inr (cut, is_cut) ↦ elim (Option-cases (release text cut s)) [
          | inl none_here ↦ absurd (ground arith)
          | inr ((out, s1), is_released) ↦ elim (Option-cases (maybe_rebase sanitize full s1)) [
            | inl none_here ↦ absurd (ground arith)
            | inr (s2, is_rebased) ↦
                let is_out : out ≡ released = ground arith in
                let is_s2 : s2 ≡ s' = ground arith in
                let (part, grows, ends) = release-Releases text cut s s1 out is_released in
                let e : s'.emitted ≡ s1.emitted =
                  ap (λ t. t.emitted) (sym is_s2)
                  ∙ maybe_rebase-emitted sanitize full s1 s2 is_rebased in
                rw (e, sym is_out) (part, grows, ends)
          ]
        ]
      ]

  Releases-IsReleased :
      (whole out text : List ℕ) (released : Option (List ℕ)) (s s' : StreamSanitizer)
      → IsReleased whole out s
      → Releases text s released s'
      → take s'.emitted text ≡ take s'.emitted whole
      → IsReleased whole (out ++ text_of released) s'
  Releases-IsReleased whole out text released s s' (so_far, within) (part, grows, ends) agree =
      let before : take s.emitted whole ≡ take s.emitted text =
        sym (take-take s.emitted s'.emitted whole grows)
        ∙ ap (take s.emitted) (sym agree)
        ∙ take-take s.emitted s'.emitted text grows in
      let lengths : min s'.emitted (length text) ≡ min s'.emitted (length whole) =
        sym (length-take s'.emitted text) ∙ ap length agree ∙ length-take s'.emitted whole in
      (
        ap (λ xs. xs ++ text_of released) so_far
            ∙ ap (λ xs. xs ++ text_of released) before
            ∙ ap (λ xs. take s.emitted text ++ xs) part
            ∙ take_split s.emitted s'.emitted text grows
            ∙ agree,
        elim ends [ inl same ↦ omega arith | inr shorter ↦ omega arith ],
      )

  Pushes-IsReleased :
      {whole out : List ℕ} {s : StreamSanitizer} → Pushes whole out s → IsReleased whole out s
  unfolding new
  Pushes-IsReleased start = (refl, omega arith)
  Pushes-IsReleased {whole}
        (pushed {out} {s} {s'} full text released before is_text is_push agree) =
      Releases-IsReleased whole out text released s s' (Pushes-IsReleased before)
        (push-Releases full text released s s' is_text is_push) agree

  flush-rest :
      (full whole : List ℕ) (s : StreamSanitizer)
      → sanitized sanitize full s ≡ some whole
      → s.emitted ≤ length whole
      → is_char_boundary whole s.emitted ≡ true
      → (rest : Option (List ℕ)) × (flush sanitize full s
          ≡ some (rest, record s { emitted = length whole }))
        × (text_of rest ≡ drop s.emitted whole)
  unfolding flush
  flush-rest full whole s is_whole within boundary =
      elim (Bool-cases (leb (length whole) s.emitted)) [
        | inl all ↦ (none, ground arith, sym (drop_short s.emitted whole (ground arith)))
        | inr more ↦
            let cut : slice_from whole s.emitted ≡ some (drop s.emitted whole) =
              slice_from-some whole s.emitted within boundary in
            (some (drop s.emitted whole), ground arith, refl)
      ]

  -- After pushes whose texts keep what they release in the whole text, and a release that ends on a
  -- char boundary of it, the flush returns, and what was released together with what it releases is
  -- the whole sanitized text.
  pub flush_lem :
      {whole out : List ℕ} {s : StreamSanitizer} (full : List ℕ)
      → Pushes whole out s
      → sanitized sanitize full s ≡ some whole
      → is_char_boundary whole s.emitted ≡ true
      → (rest : Option (List ℕ)) × (flush sanitize full s
          ≡ some (rest, record s { emitted = length whole }))
        × (out ++ text_of rest ≡ whole)
  flush_lem {whole} {out} {s} full pushes is_whole boundary =
      let (so_far, within) = Pushes-IsReleased pushes in
      let (rest, is_rest, e) = flush-rest full whole s is_whole within boundary in
      (
        rest,
        is_rest,
        ap (λ xs. xs ++ text_of rest) so_far
            ∙ ap (λ xs. take s.emitted whole ++ xs) e
            ∙ take-drop s.emitted whole,
      )
