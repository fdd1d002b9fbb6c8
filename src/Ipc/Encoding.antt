-- ===== src/Ipc/Encoding.antt =====
-- core-runtime/src/ipc/encoding.rs: the packed encoding of token arrays (V2Encoder). A Vec<u8> is a
-- list of numbers below 256, a token a number below 2 ^ 32. The text of an error is kept as data.
pub mod Loops
pub mod RoundTrip
pub mod Tests
use gg_core.Prelude.{
  ℕ, zero, suc, ◌+◌, ◌*◌, ◌/◌, ◌%◌, ◌^◌, Option, none, some, List, [], ◌∷◌, ◌++◌, length, get_elem?,
  ltb, ◌==◌, if◌then◌else◌,
}
pub use gg_core.Prelude.Bytes.{to_le_bytes, from_le_bytes}

-- The cases of InvalidFormat that the packed encoding returns.
pub data ProtocolError : Type 0 where
  too_short : ProtocolError
  wrong_length : ℕ → ℕ → ProtocolError

-- What decode ends with; an index out of bounds is a panic.
pub data Decoded : Type 0 where
  ok : List ℕ → Decoded
  err : ProtocolError → Decoded
  panic : Decoded

-- The loop over the tokens, each appended to the buffer.
unfoldable pub encode_loop : List ℕ → List ℕ → List ℕ
encode_loop buf [] = buf
encode_loop buf (token ∷ tokens) = encode_loop (buf ++ to_le_bytes token) tokens

unfoldable pub encode : List ℕ → List ℕ
encode tokens = encode_loop (to_le_bytes (length tokens % 2 ^ 32)) tokens

infixl 5 ◌>>=◌
abbrev pub ◌>>=◌ : {A B : Type 0} → Option A → (A → Option B) → Option B
none >>= f = none
some a >>= f = f a

-- The four bytes from an offset on.
unfoldable pub token_at : List ℕ → ℕ → Option ℕ
token_at bytes offset = do
  a ← get_elem? bytes offset
  b ← get_elem? bytes (offset + 1)
  c ← get_elem? bytes (offset + 2)
  d ← get_elem? bytes (offset + 3)
  some (from_le_bytes a b c d)

-- for i in i..i + n, the tokens in order
unfoldable pub decode_loop : List ℕ → ℕ → ℕ → Option (List ℕ)
unfolding token_at
decode_loop bytes zero i = some []
decode_loop bytes (suc n) i = do
  token ← token_at bytes (4 + i * 4)
  tokens ← decode_loop bytes n (i + 1)
  some (token ∷ tokens)

abbrev pub finished : Option (List ℕ) → Decoded
finished none = panic
finished (some tokens) = ok tokens

-- The body behind the header, which holds the count.
unfoldable pub decode_body : List ℕ → Option ℕ → Decoded
unfolding decode_loop
decode_body bytes none = panic
decode_body bytes (some count) =
    let expected_len = 4 + count * 4 in
    if length bytes == expected_len
    then finished (decode_loop bytes count 0)
    else err (wrong_length expected_len (length bytes))

unfoldable pub decode : List ℕ → Decoded
unfolding decode_body token_at
decode bytes = if ltb (length bytes) 4 then err too_short else decode_body bytes (token_at bytes 0)
