-- ===== src/Security/Stream/Tests.antt =====
-- A text whose at signs are redacted, pushed as it grows.
use gg_core.Prelude.{
  ℕ, ◌≡◌, refl, Bool, false, Option, none, some, List, [], ◌∷◌, ◌++◌, replicate, get_last?, drop,
  map, ◌==◌, if◌then◌else◌,
}
use gg_core.Security.Stream.{
  StreamSanitizer, new, is_char_boundary, sanitized, maybe_rebase, flush, push,
}
use gg_core.Security.Stream.Returns.{maybe_rebase_lem}
use gg_core.Security.Stream.Whole.{Pushes, text_of, flush_lem}

abbrev redact : List ℕ → List ℕ
redact text = map (λ b. if b == 64 then 42 else b) text

abbrev no_letters : List ℕ → Bool
no_letters c = false

abbrev first_text : List ℕ
first_text = replicate 130 64

abbrev last_text : List ℕ
last_text = replicate 131 64

abbrev after_push : StreamSanitizer
after_push = record { holdback = 128; emitted = 2; stable_raw = 0; stable_san = [] }

pushes_two : push redact no_letters first_text new ≡ some (some (42 ∷ 42 ∷ []), after_push)
unfolding push new
pushes_two = refl

one_push : Pushes redact no_letters (redact last_text) (42 ∷ 42 ∷ []) after_push
unfolding sanitized new
one_push =
    Pushes.pushed first_text (redact first_text) (some (42 ∷ 42 ∷ [])) Pushes.start refl pushes_two
      refl

flush_lem_example :
    (rest : Option (List ℕ)) × (flush redact last_text after_push
      ≡ some (rest, record after_push { emitted = 131 }))
    × ((42 ∷ 42 ∷ []) ++ text_of rest ≡ redact last_text)
unfolding sanitized is_char_boundary
flush_lem_example = flush_lem redact no_letters last_text one_push refl refl

abbrev long_text : List ℕ
long_text = replicate 520 64

-- The prefix is cached up to two times the holdback behind the end.
long_rebases :
    maybe_rebase redact long_text new
    ≡ some (record new { stable_raw = 264; stable_san = redact (replicate 264 64) })
unfolding maybe_rebase new
long_rebases = refl

maybe_rebase_lem_example :
    (s' : StreamSanitizer) × (maybe_rebase redact long_text new ≡ some s')
    × (sanitized redact long_text s' ≡ some (redact long_text))
    × (s'.emitted ≡ 0)
unfolding sanitized new
maybe_rebase_lem_example = maybe_rebase_lem redact long_text (redact long_text) new refl

-- A sanitizer that makes a text shorter at its start once an at sign ends it, as the normalization of
-- a whole text may.
abbrev shortens : List ℕ → List ℕ
shortens text = elim (get_last? text) [
  | none ↦ text
  | some b ↦ if b == 64 then drop 1 text else text
]

abbrev before : List ℕ
before = 65 ∷ 65 ∷ 195 ∷ 169 ∷ replicate 127 65

first_release :
    push shortens no_letters before new ≡ some (some (65 ∷ 65 ∷ []), record new { emitted = 2 })
unfolding push new
first_release = refl

-- What was released then ends inside a char, and the push panics.
then_panics : push shortens no_letters (before ++ 64 ∷ []) (record new { emitted = 2 }) ≡ none
unfolding push new
then_panics = refl
