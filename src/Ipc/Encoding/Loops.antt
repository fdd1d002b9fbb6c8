-- ===== src/Ipc/Encoding/Loops.antt =====
-- The loops of the packed encoding: what one appends the other reads
-- (core-runtime/src/ipc/encoding.rs).
use gg_core.Prelude.{
  ℕ, zero, suc, ◌+◌, ◌*◌, ◌/◌, ◌%◌, ◌^◌, ◌<◌, ◌≡◌, refl, sym, ap, ◌∙◌, subst, some, List, [], ◌∷◌,
  ◌++◌, length, get_elem?, All, length-append, append_assoc, append-nil, arith,
}
use gg_core.Ipc.Encoding.{to_le_bytes, from_le_bytes, encode_loop, token_at, decode_loop}

abbrev pub IsByte : ℕ → Type 0
IsByte b = b < 256

abbrev pub IsU32 : ℕ → Type 0
IsU32 n = n < 2 ^ 32

-- The bytes of tokens in a row.
unfoldable pub body : List ℕ → List ℕ
body [] = []
body (t ∷ ts) = to_le_bytes t ++ body ts

pub encode_loop-body : (buf tokens : List ℕ) → encode_loop buf tokens ≡ buf ++ body tokens
unfolding encode_loop body
encode_loop-body buf [] = sym (append-nil buf)
encode_loop-body buf (t ∷ ts) =
    encode_loop-body (buf ++ to_le_bytes t) ts ∙ append_assoc buf (to_le_bytes t) (body ts)

pub length-body : (tokens : List ℕ) → length (body tokens) ≡ length tokens * 4
unfolding body
length-body [] = refl
length-body (t ∷ ts) = omega (arith, length-body ts)

get_elem?-append_right :
    (xs ys : List ℕ) (i j : ℕ) → i ≡ length xs + j → get_elem? (xs ++ ys) i ≡ get_elem? ys j
get_elem?-append_right [] ys i j h = ap (get_elem? ys) (omega arith)
get_elem?-append_right (x ∷ xs) ys zero j h = absurd (omega arith)
get_elem?-append_right (x ∷ xs) ys (suc i) j h = get_elem?-append_right xs ys i j (omega arith)

-- Four bytes behind a front are read as a token.
pub token_at-append :
    (front rest : List ℕ) (a b c d offset : ℕ)
    → offset ≡ length front
    → token_at (front ++ a ∷ b ∷ c ∷ d ∷ rest) offset ≡ some (from_le_bytes a b c d)
unfolding token_at
token_at-append front rest a b c d offset h =
    let bytes = a ∷ b ∷ c ∷ d ∷ rest in
    rw (
      get_elem?-append_right front bytes offset 0 (omega arith),
      get_elem?-append_right front bytes (offset + 1) 1 (omega arith),
      get_elem?-append_right front bytes (offset + 2) 2 (omega arith),
      get_elem?-append_right front bytes (offset + 3) 3 (omega arith),
    )

pub from-to_le :
    (t : ℕ)
    → IsU32 t
    → from_le_bytes (t % 256) (t / 256 % 256) (t / 65536 % 256) (t / 16777216 % 256) ≡ t
from-to_le t h = omega arith

pub to-from_le :
    (a b c d : ℕ)
    → IsByte a
    → IsByte b
    → IsByte c
    → IsByte d
    → to_le_bytes (from_le_bytes a b c d) ≡ a ∷ b ∷ c ∷ d ∷ []
to-from_le a b c d ha hb hc hd = ground arith

decode_loop-suc :
    (bytes : List ℕ) (n i t : ℕ) (ts : List ℕ)
    → token_at bytes (4 + i * 4) ≡ some t
    → decode_loop bytes n (i + 1) ≡ some ts
    → decode_loop bytes (suc n) i ≡ some (t ∷ ts)
unfolding decode_loop
decode_loop-suc bytes n i t ts first rest = rw (first, rest) refl

-- The loop reads back the tokens that stand behind a front.
pub decode_loop-body :
    (tokens front : List ℕ) (i : ℕ)
    → 4 + i * 4 ≡ length front
    → All IsU32 tokens
    → decode_loop (front ++ body tokens) (length tokens) i ≡ some tokens
unfolding decode_loop body
decode_loop-body [] front i h all = refl
decode_loop-body (t ∷ ts) front i h (small, all) =
    let first =
      token_at-append front (body ts) (t % 256) (t / 256 % 256) (t / 65536 % 256)
        (t / 16777216 % 256) (4 + i * 4) h in
    let rest =
      decode_loop-body ts (front ++ to_le_bytes t) (i + 1)
        (omega (arith, length-append front (to_le_bytes t))) all in
    decode_loop-suc (front ++ body (t ∷ ts)) (length ts) i t ts
      (first ∙ ap some (from-to_le t small))
      (subst (λ bytes. decode_loop bytes (length ts) (i + 1) ≡ some ts)
        (append_assoc front (to_le_bytes t) (body ts)) rest)

-- The bytes that a loop of n rounds read, and the tokens it made of them.
abbrev pub Reads : List ℕ → List ℕ → ℕ → ℕ → Type 0
Reads bytes rest n i =
    (tokens : List ℕ) × (decode_loop bytes n i ≡ some tokens)
    × (body tokens ≡ rest)
    × (length tokens ≡ n)
    × All IsU32 tokens

pub decode_loop-Reads :
    (n i : ℕ) (front rest : List ℕ)
    → 4 + i * 4 ≡ length front
    → length rest ≡ n * 4
    → All IsByte rest
    → Reads (front ++ rest) rest n i
unfolding decode_loop body
decode_loop-Reads zero i front [] h len all = ([], refl, refl, refl, tt)
decode_loop-Reads zero i front (x ∷ rest) h len all = absurd (omega arith)
decode_loop-Reads (suc n) i front (a ∷ b ∷ c ∷ d ∷ rest) h len (ha, (hb, (hc, (hd, all)))) =
    let (tokens, reads, same, count, fit) =
      decode_loop-Reads n (i + 1) (front ++ a ∷ b ∷ c ∷ d ∷ []) rest
        (omega (arith, length-append front (a ∷ b ∷ c ∷ d ∷ []))) (omega arith) all in
    let first = token_at-append front rest a b c d (4 + i * 4) h in
    (
      from_le_bytes a b c d ∷ tokens,
      decode_loop-suc _ n i _ tokens first (
          subst (λ bytes. decode_loop bytes n (i + 1) ≡ some tokens)
            (append_assoc front (a ∷ b ∷ c ∷ d ∷ []) rest) reads),
      ap (λ bytes. bytes ++ body tokens) (to-from_le a b c d ha hb hc hd)
          ∙ ap (λ bs. a ∷ b ∷ c ∷ d ∷ bs) same,
      ap suc count,
      (omega arith, fit),
    )
decode_loop-Reads (suc n) i front [] h len all = absurd (omega arith)
decode_loop-Reads (suc n) i front (a ∷ []) h len all = absurd (omega arith)
decode_loop-Reads (suc n) i front (a ∷ b ∷ []) h len all = absurd (omega arith)
decode_loop-Reads (suc n) i front (a ∷ b ∷ c ∷ []) h len all = absurd (omega arith)
