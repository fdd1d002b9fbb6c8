-- ===== src/Ipc/Encoding/Tests.antt =====
-- Two tokens in the packed encoding, and a header that promises more than follows.
use gg_core.Prelude.{ℕ, ◌≡◌, refl, List, [], ◌∷◌, arith}
use gg_core.Ipc.Encoding.{ok, err, wrong_length, encode, decode}
use gg_core.Ipc.Encoding.RoundTrip.{Fits, Decodes, decode-Decodes}

abbrev two_tokens : List ℕ
two_tokens = 2 ∷ 0 ∷ 0 ∷ 0 ∷ 2 ∷ 1 ∷ 0 ∷ 0 ∷ 7 ∷ 0 ∷ 0 ∷ 1 ∷ []

decode_two : decode two_tokens ≡ ok (258 ∷ 16777223 ∷ [])
unfolding decode
decode_two = refl

decode_missing : decode (1 ∷ 0 ∷ 0 ∷ 0 ∷ 5 ∷ []) ≡ err (wrong_length 8 5)
unfolding decode
decode_missing = refl

decode-Decodes_example :
    Decodes two_tokens (decode two_tokens)
    × ((tokens : List ℕ) → Fits tokens → encode tokens ≡ two_tokens → decode two_tokens ≡ ok tokens)
decode-Decodes_example = decode-Decodes two_tokens (omega arith)
