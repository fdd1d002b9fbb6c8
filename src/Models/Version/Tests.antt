-- ===== src/Models/Version/Tests.antt =====
-- Versions 1.20.3-a.b and 1.20.3.
use gg_core.Prelude.{◌≡◌, refl, some, [], ◌∷◌, arith}
use gg_core.Models.Version.{ModelVersion, ok, err, invalid_format, invalid_component, parse, fmt}
use gg_core.Models.Version.RoundTrip.{parse-fmt}

abbrev tagged : ModelVersion
tagged = record { major = 1; minor = 20; patch = 3; prerelease = some (b'a' ∷ b'.' ∷ b'b' ∷ []) }

tagged_text : fmt tagged ≡ b'1' ∷ b'.' ∷ b'2' ∷ b'0' ∷ b'.' ∷ b'3' ∷ b'-' ∷ b'a' ∷ b'.' ∷ b'b' ∷ []
unfolding fmt
tagged_text = refl

two_parts : parse (b'1' ∷ b'.' ∷ b'2' ∷ []) ≡ err (invalid_format (b'1' ∷ b'.' ∷ b'2' ∷ []))
unfolding parse
two_parts = refl

no_number : parse (b'1' ∷ b'.' ∷ b'a' ∷ b'.' ∷ b'3' ∷ []) ≡ err (invalid_component (b'a' ∷ []))
unfolding parse
no_number = refl

parse-fmt_example : parse (fmt tagged) ≡ ok tagged
parse-fmt_example = parse-fmt tagged (omega arith)
