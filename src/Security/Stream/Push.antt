-- ===== src/Security/Stream/Push.antt =====
-- core-runtime/src/security/stream_sanitizer.rs: a push returns, and what it holds back.
use gg_core.Prelude.{ℕ, ◌+◌, ◌-◌, ◌≤◌, ◌<◌, ◌≡◌, Bool, true, List, length, get_elem?, ◌⊎◌}
use gg_core.Security.Stream.{StreamSanitizer, starts_char, is_char_boundary, char_indices}
use gg_core.Security.Stream.Cut.{Cuts}

abbrev StartsAt : ℕ → List ℕ → ℕ → Type 0
StartsAt i text cut =
    (i ≤ cut) × (cut < i + length text) × (starts_char (get_elem? text (cut - i)) ≡ true)

abbrev Fits : List ℕ → ℕ → Type 0
Fits text cut = (cut ≤ length text) × (is_char_boundary text cut ≡ true)

module _ (is_alphanumeric : List ℕ → Bool) where
  -- Where a release leaves the state.
  abbrev pub Holds : List ℕ → StreamSanitizer → StreamSanitizer → Type 0
  Holds text s s' =
      (is_char_boundary text s'.emitted ≡ true)
      × ((s'.emitted ≡ s.emitted)
          ⊎ (s.emitted < s'.emitted)
            × Cuts is_alphanumeric (char_indices 0 text) s.holdback s'.emitted)

  abbrev Moves : ℕ → StreamSanitizer → StreamSanitizer → Type 0
  Moves cut s s' = (s' ≡ s) ⊎ (s.emitted < cut) × (s' ≡ record s { emitted = cut })
