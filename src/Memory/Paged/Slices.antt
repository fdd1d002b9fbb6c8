-- ===== src/Memory/Paged/Slices.antt =====
-- Taking a window of a buffer after a window of it was overwritten.
use gg_core.Prelude.{
  ℕ, zero, suc, ◌+◌, ◌-◌, ◌≤◌, ◌≡◌, refl, ap, ◌∙◌, List, [], ◌∷◌, ◌++◌, map, length, take, drop,
  replicate, arith, length-take, length-append, take-append, drop-append,
}

module _ {ℓ} {A : Type ℓ} where
  take-append_left : (n : ℕ) (xs ys : List A) → n ≤ length xs → take n (xs ++ ys) ≡ take n xs
  take-append_left zero xs ys h = refl
  take-append_left (suc n) [] ys h = absurd (omega arith)
  take-append_left (suc n) (x ∷ xs) ys h = ap (◌∷◌ x) (take-append_left n xs ys (omega arith))

  drop-append_left : (n : ℕ) (xs ys : List A) → n ≤ length xs → drop n (xs ++ ys) ≡ drop n xs ++ ys
  drop-append_left zero xs ys h = refl
  drop-append_left (suc n) [] ys h = absurd (omega arith)
  drop-append_left (suc n) (x ∷ xs) ys h = drop-append_left n xs ys (omega arith)

  drop-append_right : (n k : ℕ) (xs ys : List A) → n ≡ length xs + k → drop n (xs ++ ys) ≡ drop k ys
  drop-append_right n k [] ys e = let e' : n ≡ k = omega arith in rw e'
  drop-append_right zero k (x ∷ xs) ys e = absurd (omega arith)
  drop-append_right (suc n) k (x ∷ xs) ys e = drop-append_right n k xs ys (omega arith)

  drop-drop : (m n k : ℕ) (xs : List A) → n ≡ m + k → drop k (drop m xs) ≡ drop n xs
  drop-drop zero n k xs e = let e' : n ≡ k = omega arith in rw e'
  drop-drop (suc m) zero k xs e = absurd (omega arith)
  drop-drop (suc m) (suc n) zero [] e = refl
  drop-drop (suc m) (suc n) (suc k) [] e = refl
  drop-drop (suc m) (suc n) k (x ∷ xs) e = drop-drop m n k xs (omega arith)

  take-drop-take :
      (n o k : ℕ) (xs : List A) → o + n ≤ k → take n (drop o (take k xs)) ≡ take n (drop o xs)
  take-drop-take zero o k xs h = refl
  take-drop-take (suc n) zero zero xs h = absurd (omega arith)
  take-drop-take (suc n) zero (suc k) [] h = refl
  take-drop-take (suc n) zero (suc k) (x ∷ xs) h =
      ap (◌∷◌ x) (take-drop-take n zero k xs (omega arith))
  take-drop-take (suc n) (suc o) zero xs h = absurd (omega arith)
  take-drop-take (suc n) (suc o) (suc k) [] h = refl
  take-drop-take (suc n) (suc o) (suc k) (x ∷ xs) h = take-drop-take (suc n) o k xs (omega arith)

  abbrev pub splice : List A → ℕ → ℕ → List A → List A
  splice buf offset end src = take offset buf ++ (src ++ drop end buf)

  module _ (buf src : List A) (offset end n : ℕ) (fits : end ≤ length buf) (e : end ≡ offset + n)
      (len : length src ≡ n) where
    prefix_len : length (take offset buf) ≡ offset
    prefix_len = omega (arith, length-take offset buf)

    pub length-splice : length (splice buf offset end src) ≡ length buf
    length-splice = omega (
      arith,
      length-append (take offset buf) (src ++ drop end buf),
      length-append src (drop end buf),
      gg_core.Prelude.Lists.length-drop end buf,
      prefix_len,
    )

    -- The window that was written holds the source.
    pub splice_self : take n (drop offset (splice buf offset end src)) ≡ src
    splice_self =
        rw
          (drop-append_right offset 0 (take offset buf) (src ++ drop end buf)
            (omega (arith, prefix_len)))
          (rw (← len) (take-append src (drop end buf)))

    -- A window before it is untouched.
    pub splice_before :
        (o m : ℕ)
        → o + m ≤ offset
        → take m (drop o (splice buf offset end src)) ≡ take m (drop o buf)
    splice_before o m h =
        rw (drop-append_left o (take offset buf) (src ++ drop end buf) (omega (arith, prefix_len)))
          (take-append_left m (drop o (take offset buf)) (src ++ drop end buf)
              (omega (arith, prefix_len, gg_core.Prelude.Lists.length-drop o (take offset buf)))
            ∙ take-drop-take m o offset buf h)

    -- So is a window behind it.
    pub splice_after :
        (o m : ℕ) → end ≤ o → take m (drop o (splice buf offset end src)) ≡ take m (drop o buf)
    splice_after o m h = ap (take m) (
        drop-append_right o (o - offset) (take offset buf) (src ++ drop end buf)
          (omega (arith, prefix_len))
        ∙ drop-append_right (o - offset) (o - end) src (drop end buf) (omega arith)
        ∙ drop-drop end o (o - end) buf (omega arith))

  pub map_const-replicate {κ} :
      {B : Type κ} (z : A) (xs : List B) → map (λ _. z) xs ≡ replicate (length xs) z
  map_const-replicate z [] = refl
  map_const-replicate z (x ∷ xs) = ap (◌∷◌ z) (map_const-replicate z xs)

  pub drop-replicate : (n m : ℕ) (z : A) → drop n (replicate m z) ≡ replicate (m - n) z
  drop-replicate zero m z = let e : m ≡ m - 0 = omega arith in ap (λ k. replicate k z) e
  drop-replicate (suc n) zero z =
      let e : ◌≡◌ {A = ℕ} 0 (0 - suc n) = omega arith in ap (λ k. replicate k z) e
  drop-replicate (suc n) (suc m) z =
      let e : m - n ≡ suc m - suc n = omega arith in
      drop-replicate n m z ∙ ap (λ k. replicate k z) e

  pub take-replicate : (n m : ℕ) (z : A) → n ≤ m → take n (replicate m z) ≡ replicate n z
  take-replicate zero m z h = refl
  take-replicate (suc n) zero z h = absurd (omega arith)
  take-replicate (suc n) (suc m) z h = ap (◌∷◌ z) (take-replicate n m z (omega arith))
