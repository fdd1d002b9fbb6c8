-- ===== src/Ipc/Encoding/RoundTrip.antt =====
-- The packed encoding and its decoder are inverse to each other (core-runtime/src/ipc/encoding.rs).
use gg_core.Prelude.{
  ℕ, ◌+◌, ◌*◌, ◌/◌, ◌%◌, ◌^◌, ◌<◌, ◌≡◌, ◌≢◌, refl, sym, ap, ◌∙◌, some, List, [], ◌∷◌, ◌++◌, length,
  All, arith, ℕ_discrete,
}
use gg_core.Ipc.Encoding.{
  Decoded, ok, err, panic, ProtocolError, too_short, wrong_length, to_le_bytes, from_le_bytes,
  encode, token_at, decode_loop, decode_body, decode,
}
use gg_core.Ipc.Encoding.Loops.{
  IsByte, IsU32, body, encode_loop-body, length-body, from-to_le, to-from_le, decode_loop-body,
  decode_loop-Reads,
}

-- Tokens that the format can hold.
abbrev pub Fits : List ℕ → Type 0
Fits tokens = (length tokens < 2 ^ 32) × All IsU32 tokens

encode-split :
    (tokens : List ℕ)
    → length tokens < 2 ^ 32
    → encode tokens ≡ to_le_bytes (length tokens) ++ body tokens
unfolding encode
encode-split tokens h =
    let small : length tokens % 2 ^ 32 ≡ length tokens = omega arith in
    rw small (encode_loop-body (to_le_bytes (length tokens)) tokens)

decode-header :
    (a b c d : ℕ) (rest : List ℕ)
    → decode (a ∷ b ∷ c ∷ d ∷ rest)
      ≡ decode_body (a ∷ b ∷ c ∷ d ∷ rest) (some (from_le_bytes a b c d))
unfolding decode token_at
decode-header a b c d rest = ground arith

decode_body-ok :
    (bytes tokens : List ℕ) (count : ℕ)
    → length bytes ≡ 4 + count * 4
    → decode_loop bytes count 0 ≡ some tokens
    → decode_body bytes (some count) ≡ ok tokens
unfolding decode_body
decode_body-ok bytes tokens count len reads = ground arith

decode-encode : (tokens : List ℕ) → Fits tokens → decode (encode tokens) ≡ ok tokens
decode-encode tokens (short, fit) =
    let n = length tokens in
    let a = n % 256 in
    let b = n / 256 % 256 in
    let c = n / 65536 % 256 in
    let d = n / 16777216 % 256 in
    rw (encode-split tokens short, decode-header a b c d (body tokens), from-to_le n short)
      (decode_body-ok (to_le_bytes n ++ body tokens) tokens n (omega (arith, length-body tokens))
        (decode_loop-body tokens (to_le_bytes n) 0 refl fit))

-- What decode returns for bytes: the tokens that they encode, or an error where they encode none.
abbrev pub Decodes : List ℕ → Decoded → Type 0
Decodes bytes (ok tokens) = Fits tokens × (encode tokens ≡ bytes)
Decodes bytes (err e) = (tokens : List ℕ) → Fits tokens → encode tokens ≢ bytes
Decodes bytes panic = ⊥

refused : (bytes : List ℕ) (e : ProtocolError) → decode bytes ≡ err e → Decodes bytes (decode bytes)
refused bytes e refusal =
    rw refusal (λ tokens fit same. cc (refusal, ap decode same, decode-encode tokens fit))

decode-short : (bytes : List ℕ) → length bytes < 4 → decode bytes ≡ err too_short
unfolding decode
decode-short bytes h = ground arith

decode_body-err :
    (bytes : List ℕ) (count : ℕ)
    → length bytes ≢ 4 + count * 4
    → decode_body bytes (some count) ≡ err (wrong_length (4 + count * 4) (length bytes))
unfolding decode_body
decode_body-err bytes count h = ground arith

-- A header whose count fits the length behind it.
accepted :
    (a b c d : ℕ) (rest : List ℕ)
    → All IsByte (a ∷ b ∷ c ∷ d ∷ rest)
    → length rest ≡ from_le_bytes a b c d * 4
    → (tokens : List ℕ) × (decode (a ∷ b ∷ c ∷ d ∷ rest) ≡ ok tokens)
      × Fits tokens
      × (encode tokens ≡ a ∷ b ∷ c ∷ d ∷ rest)
unfolding body
accepted a b c d rest (ha, (hb, (hc, (hd, all)))) len =
    let count = from_le_bytes a b c d in
    let header = a ∷ b ∷ c ∷ d ∷ [] in
    let (tokens, reads, same, many, fit) = decode_loop-Reads count 0 header rest refl len all in
    let short : length tokens < 2 ^ 32 = omega arith in
    (
      tokens,
      decode-header a b c d rest ∙ decode_body-ok (header ++ rest) tokens count (omega arith) reads,
      (short, fit),
      encode-split tokens short
          ∙ ap (λ n. to_le_bytes n ++ body tokens) many
          ∙ ap (λ bytes. bytes ++ body tokens) (to-from_le a b c d ha hb hc hd)
          ∙ ap (λ bs. header ++ bs) same,
    )

-- Decoding any bytes ends without a panic: it returns tokens exactly where the bytes are the encoding
-- of fewer than 2 ^ 32 tokens of 32 bits, and then these tokens, and an error elsewhere.
pub decode-Decodes :
    (bytes : List ℕ)
    → All IsByte bytes
    → Decodes bytes (decode bytes)
      × ((tokens : List ℕ) → Fits tokens → encode tokens ≡ bytes → decode bytes ≡ ok tokens)
decode-Decodes bytes all =
    (returns bytes all, λ tokens fit same. ap decode (sym same) ∙ decode-encode tokens fit)
  where
    returns : (bytes : List ℕ) → All IsByte bytes → Decodes bytes (decode bytes)
    returns [] all = refused [] too_short (decode-short [] (omega arith))
    returns (a ∷ []) all = refused (a ∷ []) too_short (decode-short _ (omega arith))
    returns (a ∷ b ∷ []) all = refused (a ∷ b ∷ []) too_short (decode-short _ (omega arith))
    returns (a ∷ b ∷ c ∷ []) all = refused (a ∷ b ∷ c ∷ []) too_short (decode-short _ (omega arith))
    returns (a ∷ b ∷ c ∷ d ∷ rest) all =
        let count = from_le_bytes a b c d in
        elim (ℕ_discrete (length rest) (count * 4)) [
          | yes len ↦
              let (tokens, done, fit, same) = accepted a b c d rest all len in rw done (fit, same)
          | no ne ↦
              refused (a ∷ b ∷ c ∷ d ∷ rest) _
                (decode-header a b c d rest ∙ decode_body-err _ count (λ e. ne (omega arith)))
        ]
