-- ===== src/Security/Stream.antt =====
-- core-runtime/src/security/stream_sanitizer.rs: the sanitizer of a text that grows token by token. A
-- str is the list of its bytes, and none is a panic, which a slice off a char boundary is. What
-- sanitize_output makes of a text, and char::is_alphanumeric on the bytes of a char, are arguments.
pub mod Cut
pub mod Returns
pub mod Push
pub mod Rebase
pub mod Whole
pub mod Tests
use gg_core.Prelude.{
  ℕ, zero, suc, ◌+◌, ◌-◌, ◌*◌, max, min, Bool, true, false, ◌&&◌, ◌||◌, not, Option, none, some,
  List, [], ◌∷◌, ◌++◌, length, get_elem?, take, drop, ltb, leb, ◌==◌, if◌then◌else◌,
}

infixl 5 ◌>>=◌
abbrev pub ◌>>=◌ : {A B : Type 0} → Option A → (A → Option B) → Option B
none >>= f = none
some a >>= f = f a

abbrev pub holdback : ℕ
holdback = 128

abbrev pub rebase_threshold : ℕ
rebase_threshold = 4 * holdback

-- The second and later bytes of a char.
abbrev pub is_continuation : ℕ → Bool
is_continuation b = leb 128 b && ltb b 192

abbrev pub starts_char : Option ℕ → Bool
starts_char none = false
starts_char (some b) = not (is_continuation b)

unfoldable pub is_char_boundary : List ℕ → ℕ → Bool
is_char_boundary s i = i == 0 || (i == length s || starts_char (get_elem? s i))

-- &s[a..b]
unfoldable pub slice : List ℕ → ℕ → ℕ → Option (List ℕ)
unfolding is_char_boundary
slice s a b =
    if leb a b && (leb b (length s) && (is_char_boundary s a && is_char_boundary s b))
    then some (take (b - a) (drop a s))
    else none

-- &s[a..]
unfoldable pub slice_from : List ℕ → ℕ → Option (List ℕ)
unfolding is_char_boundary
slice_from s a = if leb a (length s) && is_char_boundary s a then some (drop a s) else none

-- How many bytes a char has, by its first.
abbrev pub width : ℕ → ℕ
width b = if ltb b 128 then 1 else if ltb b 224 then 2 else if ltb b 240 then 3 else 4

-- s.char_indices(), from a byte on that stands at i
unfoldable pub char_indices : ℕ → List ℕ → List (ℕ × List ℕ)
char_indices i [] = []
char_indices i (b ∷ bs) =
    let rest = char_indices (i + 1) bs in
    if is_continuation b then rest else (i, take (width b) (b ∷ bs)) ∷ rest

-- a == b on str
unfoldable pub eq_bytes : List ℕ → List ℕ → Bool
eq_bytes [] [] = true
eq_bytes [] (y ∷ ys) = false
eq_bytes (x ∷ xs) [] = false
eq_bytes (x ∷ xs) (y ∷ ys) = x == y && eq_bytes xs ys

unfoldable pub floor_from : List ℕ → ℕ → ℕ
unfolding is_char_boundary
floor_from s zero = zero
floor_from s (suc i) =
    let rest = floor_from s i in if is_char_boundary s (suc i) then suc i else rest

unfoldable pub floor_char_boundary : List ℕ → ℕ → ℕ
unfolding floor_from
floor_char_boundary s i = floor_from s (min i (length s))

module _ (is_alphanumeric : List ℕ → Bool) where
  abbrev pub alphanumeric_at : Option (ℕ × List ℕ) → Option Bool
  alphanumeric_at none = none
  alphanumeric_at (some (i, c)) = some (is_alphanumeric c)

  -- chars[i].1.is_alphanumeric() && chars[i + 1].1.is_alphanumeric()
  abbrev pub joins : List (ℕ × List ℕ) → ℕ → Option Bool
  joins chars i = elim (alphanumeric_at (get_elem? chars i)) [
    | none ↦ none
    | some false ↦ some false
    | some true ↦ alphanumeric_at (get_elem? chars (suc i))
  ]

  -- The loop that takes idx back to the start of a run.
  unfoldable pub back_up : List (ℕ × List ℕ) → ℕ → Option ℕ
  back_up chars zero = some zero
  back_up chars (suc i) =
      let rest = back_up chars i in
      elim (joins chars i) [ none ↦ none | some true ↦ rest | some false ↦ some (suc i) ]

  -- chars[idx].0
  abbrev pub offset_of : Option (ℕ × List ℕ) → Option ℕ
  offset_of none = none
  offset_of (some (i, c)) = some i

  abbrev pub cut_at : List (ℕ × List ℕ) → Option ℕ → Option ℕ
  cut_at chars none = none
  cut_at chars (some idx) = if idx == 0 then some 0 else offset_of (get_elem? chars idx)

  unfoldable pub release_cut : List ℕ → ℕ → Option ℕ
  unfolding char_indices back_up
  release_cut sanitized holdback =
      let chars = char_indices 0 sanitized in
      if leb (length chars) holdback
      then some 0
      else cut_at chars (back_up chars (length chars - holdback))

pub record StreamSanitizer : Type 0 where
  pub holdback : ℕ
  pub emitted : ℕ
  pub stable_raw : ℕ
  pub stable_san : List ℕ

unfoldable pub new : StreamSanitizer
new = record { holdback = holdback; emitted = 0; stable_raw = 0; stable_san = [] }

-- The part up to the cut that is not released yet.
unfoldable pub release : List ℕ → ℕ → StreamSanitizer → Option (Option (List ℕ) × StreamSanitizer)
unfolding slice
release text cut s =
    if ltb s.emitted cut
    then (slice text s.emitted cut >>= λ o. some (some o, record s { emitted = cut }))
    else some (none, s)

module _ (sanitize : List ℕ → List ℕ) where
  unfoldable pub sanitized : List ℕ → StreamSanitizer → Option (List ℕ)
  unfolding slice_from
  sanitized full_text s = do
    tail ← slice_from full_text s.stable_raw
    some (s.stable_san ++ sanitize tail)

  unfoldable pub splits_cleanly : List ℕ → ℕ → StreamSanitizer → Option Bool
  unfolding slice slice_from eq_bytes
  splits_cleanly full_text p s = do
    tail ← slice_from full_text s.stable_raw
    left ← slice full_text s.stable_raw p
    right ← slice_from full_text p
    some (eq_bytes (sanitize tail) (sanitize left ++ sanitize right))

  abbrev pub tried : ℕ → Option (Option ℕ) → Option Bool → Option (Option ℕ)
  tried p rest none = none
  tried p rest (some true) = some (some p)
  tried p rest (some false) = rest

  -- while p > limit
  unfoldable pub scan : List ℕ → ℕ → StreamSanitizer → ℕ → Option (Option ℕ)
  unfolding is_char_boundary splits_cleanly
  scan full_text limit s zero = some none
  scan full_text limit s (suc p) =
      let rest = scan full_text limit s p in
      if ltb limit (suc p)
      then if is_char_boundary full_text (suc p)
        then tried (suc p) rest (splits_cleanly full_text (suc p) s)
        else rest
      else some none

  unfoldable pub clean_split_at_or_before : List ℕ → ℕ → StreamSanitizer → Option (Option ℕ)
  unfolding floor_char_boundary scan
  clean_split_at_or_before full_text target s =
      let p = floor_char_boundary full_text target in
      scan full_text (max s.stable_raw (p - 2 * s.holdback)) s p

  abbrev pub rebase_at : List ℕ → StreamSanitizer → Option ℕ → Option StreamSanitizer
  rebase_at full_text s none = some s
  rebase_at full_text s (some p) = do
    left ← slice full_text s.stable_raw p
    some (record s { stable_raw = p; stable_san = s.stable_san ++ sanitize left })

  -- The differences do not underflow: the text is longer than the threshold.
  unfoldable pub maybe_rebase : List ℕ → StreamSanitizer → Option StreamSanitizer
  unfolding clean_split_at_or_before slice
  maybe_rebase full_text s =
      if leb (length full_text - s.stable_raw) rebase_threshold
      then some s
      else clean_split_at_or_before full_text (length full_text - 2 * s.holdback) s
        >>= rebase_at full_text s

  -- What is not released yet of the whole text.
  abbrev pub flushed : List ℕ → StreamSanitizer → Option (Option (List ℕ) × StreamSanitizer)
  flushed text s =
      if leb (length text) s.emitted
      then some (none, record s { emitted = length text })
      else slice_from text s.emitted >>= λ o. some (some o, record s { emitted = length text })

  unfoldable pub flush : List ℕ → StreamSanitizer → Option (Option (List ℕ) × StreamSanitizer)
  unfolding sanitized slice_from
  flush full_text s = do text ← sanitized full_text s; flushed text s

  unfoldable pub push :
      (List ℕ → Bool) → List ℕ → StreamSanitizer → Option (Option (List ℕ) × StreamSanitizer)
  unfolding sanitized release_cut release maybe_rebase
  push is_alphanumeric full_text s = do
    text ← sanitized full_text s
    cut ← release_cut is_alphanumeric text s.holdback
    released ← release text cut s
    s' ← maybe_rebase full_text released.1
    some (released.0, s')
