-- ===== src/Models/Version/RoundTrip.antt =====
-- A version that is printed is parsed back (core-runtime/src/models/version.rs).
use gg_core.Prelude.{
  ℕ, ◌^◌, ◌<◌, ◌≡◌, refl, sym, ap, ◌∙◌, Option, none, some, List, [], ◌∷◌, ◌++◌, append_assoc,
  append-nil, All, arith,
}
use gg_core.Models.Version.{
  ModelVersion, ok, split, parse_part, parse_parts, parse, show_u32, suffix, fmt,
}
use gg_core.Models.Version.Digits.{
  IsDigit, show_u32-All, parse_u32-show_u32, Lacks, split_once-absent, split_once-append,
  split-absent, split-append,
}

-- The numbers of a version with the dots between them.
numbers : ModelVersion → List ℕ
numbers v = show_u32 v.major ++ (b'.' ∷ (show_u32 v.minor ++ (b'.' ∷ show_u32 v.patch)))

fmt-numbers : (v : ModelVersion) → fmt v ≡ numbers v ++ suffix v.prerelease
unfolding fmt numbers
fmt-numbers v =
    let tail = suffix v.prerelease in
    sym (
      append_assoc (show_u32 v.major) (b'.' ∷ (show_u32 v.minor ++ (b'.' ∷ show_u32 v.patch))) tail
      ∙ ap (λ xs. show_u32 v.major ++ (b'.' ∷ xs))
          (append_assoc (show_u32 v.minor) (b'.' ∷ show_u32 v.patch) tail))

Lacks-append : (sep : ℕ) (xs ys : List ℕ) → Lacks sep xs → Lacks sep ys → Lacks sep (xs ++ ys)
Lacks-append sep [] ys h k = k
Lacks-append sep (x ∷ xs) ys (ne, h) k = (ne, Lacks-append sep xs ys h k)

Lacks-digits : (sep : ℕ) (xs : List ℕ) → sep < 48 → All IsDigit xs → Lacks sep xs
Lacks-digits sep [] small h = tt
Lacks-digits sep (x ∷ xs) small ((lo, hi), h) =
    ((λ e. absurd (omega (arith, e, lo, small))), Lacks-digits sep xs small h)

Lacks-show_u32 : (sep n : ℕ) → sep < 48 → Lacks sep (show_u32 n)
Lacks-show_u32 sep n small = Lacks-digits sep (show_u32 n) small (show_u32-All n)

-- The numbers hold no dash.
numbers-Lacks : (v : ModelVersion) → Lacks b'-' (numbers v)
unfolding numbers
numbers-Lacks v =
    let dash = λ (n : ℕ). Lacks-show_u32 b'-' n (omega arith) in
    Lacks-append b'-' (show_u32 v.major) _ (dash v.major) (
      (λ (e : ◌≡◌ {A = ℕ} b'.' b'-'). absurd (omega arith)),
      Lacks-append b'-' (show_u32 v.minor) _ (dash v.minor)
          ((λ (e : ◌≡◌ {A = ℕ} b'.' b'-'). absurd (omega arith)), dash v.patch),
    )

split-numbers :
    (v : ModelVersion)
    → split b'.' (numbers v) ≡ show_u32 v.major ∷ show_u32 v.minor ∷ show_u32 v.patch ∷ []
unfolding numbers
split-numbers v =
    let dot = λ (n : ℕ). Lacks-show_u32 b'.' n (omega arith) in
    split-append b'.' (show_u32 v.major) _ (dot v.major)
    ∙ ap (λ ps. show_u32 v.major ∷ ps)
        (split-append b'.' (show_u32 v.minor) _ (dot v.minor)
          ∙ ap (λ ps. show_u32 v.minor ∷ ps) (split-absent b'.' (show_u32 v.patch) (dot v.patch)))

parse_part-show_u32 : (n : ℕ) → n < 2 ^ 32 → parse_part (show_u32 n) ≡ ok n
unfolding parse_part
parse_part-show_u32 n h = rw (parse_u32-show_u32 n h, parse_part) refl

-- The numbers of a version fit 32 bits.
abbrev pub IsU32 : ModelVersion → Type 0
IsU32 v = (v.major < 2 ^ 32) × (v.minor < 2 ^ 32) × (v.patch < 2 ^ 32)

parse_parts-numbers :
    (s : List ℕ) (pre : Option (List ℕ)) (v : ModelVersion)
    → IsU32 v
    → parse_parts s pre (split b'.' (numbers v)) ≡ ok (record v { prerelease = pre })
unfolding parse_parts
parse_parts-numbers s pre v (a, b, c) =
    rw
      (
        split-numbers v,
        parse_part-show_u32 v.major a,
        parse_part-show_u32 v.minor b,
        parse_part-show_u32 v.patch c,
      )
      refl

-- The numbers with a suffix.
parse-numbers :
    (v : ModelVersion) (pre : Option (List ℕ))
    → IsU32 v
    → parse (numbers v ++ suffix pre) ≡ ok (record v { prerelease = pre })
unfolding parse
parse-numbers v none fits =
    ap parse (append-nil (numbers v))
    ∙ rw (split_once-absent b'-' (numbers v) (numbers-Lacks v), parse)
        (parse_parts-numbers (numbers v) none v fits)
parse-numbers v (some pre) fits =
    rw (split_once-append b'-' (numbers v) pre (numbers-Lacks v), parse)
      (parse_parts-numbers (numbers v ++ b'-' ∷ pre) (some pre) v fits)

-- A version whose numbers fit 32 bits is parsed back from its text, with any prerelease.
pub parse-fmt : (v : ModelVersion) → IsU32 v → parse (fmt v) ≡ ok v
parse-fmt v fits = ap parse (fmt-numbers v) ∙ parse-numbers v v.prerelease fits
