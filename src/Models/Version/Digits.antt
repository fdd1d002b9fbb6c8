-- ===== src/Models/Version/Digits.antt =====
-- Decimal numbers are read back, and texts are split where they were joined
-- (core-runtime/src/models/version.rs).
use native.Mathlib.Nat.{pow-suc}
use gg_core.Prelude.{
  ℕ, zero, suc, ◌+◌, ◌-◌, ◌*◌, ◌/◌, ◌%◌, ◌^◌, ◌≤◌, ◌<◌, ◌≡◌, ◌≢◌, refl, sym, ap, subst, ◌∙◌, inl,
  inr, none, some, List, [], ◌∷◌, ◌++◌, All, Bool-cases, ◌==◌, arith,
}
use gg_core.Models.Version.{split_once, split, parse_digits, parse_u32, show_fuel, show_u32}

abbrev pub IsDigit : ℕ → Type 0
IsDigit c = (48 ≤ c) × (c ≤ 57)

show-All : (fuel n : ℕ) (rest : List ℕ) → All IsDigit rest → All IsDigit (show_fuel fuel n rest)
unfolding show_fuel
show-All zero n rest h = h
show-All (suc fuel) n rest h = elim (Bool-cases (n / 10 == 0)) [
  | inl last ↦ rw last ((omega arith, omega arith), h)
  | inr more ↦
      rw more (show-All fuel (n / 10) ((b'0' + n % 10) ∷ rest) ((omega arith, omega arith), h))
]

-- The text of a number is not empty.
show-cons :
    (fuel n : ℕ) (rest : List ℕ) → (c : ℕ) × (s : List ℕ) × (show_fuel (suc fuel) n rest ≡ c ∷ s)
unfolding show_fuel
show-cons zero n rest = elim (Bool-cases (n / 10 == 0)) [
  | inl last ↦ (b'0' + n % 10, rest, rw last refl)
  | inr more ↦ (b'0' + n % 10, rest, rw more refl)
]
show-cons (suc fuel) n rest = elim (Bool-cases (n / 10 == 0)) [
  | inl last ↦ (b'0' + n % 10, rest, rw last refl)
  | inr more ↦ let (c, s, e) = show-cons fuel (n / 10) ((b'0' + n % 10) ∷ rest) in (c, s, rw more e)
]

-- The digits of a number are read as the number, whatever follows.
parse-show :
    (fuel n : ℕ) (rest : List ℕ)
    → n < 10 ^ fuel
    → n < 2 ^ 32
    → parse_digits 0 (show_fuel fuel n rest) ≡ parse_digits n rest
unfolding parse_digits show_fuel
parse-show zero n rest h small = ap (λ (k : ℕ). parse_digits k rest) (omega arith)
parse-show (suc fuel) n rest h small = elim (Bool-cases (n / 10 == 0)) [
  | inl last ↦ rw last (ground arith)
  | inr more ↦
      let part =
        parse-show fuel (n / 10) ((b'0' + n % 10) ∷ rest) (omega (arith, pow-suc 10 fuel))
          (omega arith) in
      rw more (part ∙ next n rest small)
]
  where
    next :
        (n : ℕ) (rest : List ℕ)
        → n < 2 ^ 32
        → parse_digits (n / 10) ((b'0' + n % 10) ∷ rest) ≡ parse_digits n rest
    next n rest small =
        let e : n / 10 * 10 + (b'0' + n % 10 - b'0') ≡ n = omega arith in ground (arith, e)

pub show_u32-All : (n : ℕ) → All IsDigit (show_u32 n)
unfolding show_u32
show_u32-All n = show-All 10 n [] tt

parse_u32-digits : (c : ℕ) (s : List ℕ) → IsDigit c → parse_u32 (c ∷ s) ≡ parse_digits 0 (c ∷ s)
unfolding parse_u32
parse_u32-digits c [] h = refl
parse_u32-digits c (d ∷ s) h = ground arith

pub parse_u32-show_u32 : (n : ℕ) → n < 2 ^ 32 → parse_u32 (show_u32 n) ≡ some n
unfolding show_u32
parse_u32-show_u32 n h =
    let (c, s, e) = show-cons 9 n [] in
    let (digit, rest) = subst (All IsDigit) e (show-All 10 n [] tt) in
    ap parse_u32 e
    ∙ parse_u32-digits c s digit
    ∙ ap (parse_digits 0) (sym e)
    ∙ parse-show 10 n [] (omega arith) h
    ∙ unfold parse_digits in refl

-- A text without the separator.
abbrev pub Lacks : ℕ → List ℕ → Type 0
Lacks sep = All (λ c. c ≢ sep)

pub split_once-absent : (sep : ℕ) (xs : List ℕ) → Lacks sep xs → split_once sep xs ≡ none
unfolding split_once
split_once-absent sep [] h = refl
split_once-absent sep (x ∷ xs) (ne, h) = ground (arith, split_once-absent sep xs h, ne)

pub split_once-append :
    (sep : ℕ) (xs ys : List ℕ) → Lacks sep xs → split_once sep (xs ++ sep ∷ ys) ≡ some (xs, ys)
unfolding split_once
split_once-append sep [] ys h = ground arith
split_once-append sep (x ∷ xs) ys (ne, h) = ground (arith, split_once-append sep xs ys h, ne)

pub split-absent : (sep : ℕ) (xs : List ℕ) → Lacks sep xs → split sep xs ≡ xs ∷ []
unfolding split
split-absent sep [] h = refl
split-absent sep (x ∷ xs) (ne, h) = ground (arith, split-absent sep xs h, ne)

pub split-append :
    (sep : ℕ) (xs ys : List ℕ) → Lacks sep xs → split sep (xs ++ sep ∷ ys) ≡ xs ∷ split sep ys
unfolding split
split-append sep [] ys h = ground arith
split-append sep (x ∷ xs) ys (ne, h) = ground (arith, split-append sep xs ys h, ne)
