-- ===== src/Ipc/Auth/Compare.antt =====
-- The comparison in constant time decides equality (core-runtime/src/ipc/auth_session.rs).
use Prim.Native.Nat.{bit_or, bit_xor}
use gg_core.Prelude.{
  ℕ, zero, suc, ◌<◌, ◌≡◌, ◌↔◌, refl, ap, Bool, true, ◌&&◌, not, List, [], ◌∷◌, length, All, ltb,
  ◌==◌, if◌then◌else◌, arith, ℕ_discrete,
}
use gg_core.Ipc.Auth.{difference, constant_time_compare}

-- Every value below a bound passes a test.
check_below : ℕ → (ℕ → Bool) → Bool
check_below zero test = true
check_below (suc n) test = test n && check_below n test

check_below_sound :
    (n : ℕ) (test : ℕ → Bool) (x : ℕ) → check_below n test ≡ true → x < n → test x ≡ true
unfolding check_below
check_below_sound zero test x h lt = elim lt [ ]
check_below_sound (suc n) test x h lt = ground (arith, check_below_sound n test x)

-- What the comparison uses of two bytes: a xor is zero only of equal ones, an or only of zeros.
byte_facts : ℕ → ℕ → Bool
byte_facts x y =
    (if x == y then bit_xor x y == 0 else not (bit_xor x y == 0))
    && (ltb (bit_xor x y) 256
        && (ltb (bit_or x y) 256
            && (if (x == 0) && (y == 0) then bit_or x y == 0 else not (bit_or x y == 0))))

byte_table : check_below 256 (λ x. check_below 256 (byte_facts x)) ≡ true
unfolding check_below byte_facts
byte_table = refl

bytes_at : (x y : ℕ) → x < 256 → y < 256 → byte_facts x y ≡ true
bytes_at x y hx hy =
    check_below_sound 256 (byte_facts x) y
      (check_below_sound 256 (λ a. check_below 256 (byte_facts a)) x byte_table hx) hy

xor_facts : (x y : ℕ) → x < 256 → y < 256 → ((bit_xor x y ≡ 0) ↔ (x ≡ y)) × (bit_xor x y < 256)
unfolding byte_facts
xor_facts x y hx hy =
    let h = bytes_at x y hx hy in
    (((λ e. ground (arith, h, e)), (λ e. ground (arith, h, e))), ground (arith, h))

or_facts :
    (x y : ℕ) → x < 256 → y < 256 → ((bit_or x y ≡ 0) ↔ ((x ≡ 0) × (y ≡ 0))) × (bit_or x y < 256)
unfolding byte_facts
or_facts x y hx hy =
    let h = bytes_at x y hx hy in
    (((λ e. ground (arith, h, e)), (λ e. ground (arith, h, e))), ground (arith, h))

abbrev pub IsByte : ℕ → Type 0
IsByte b = b < 256

difference-zero :
    (acc : ℕ) (xs ys : List ℕ)
    → acc < 256
    → length xs ≡ length ys
    → All IsByte xs
    → All IsByte ys
    → (difference acc xs ys ≡ 0) ↔ ((acc ≡ 0) × (xs ≡ ys))
unfolding difference
difference-zero acc [] [] small len bx by = ((λ h. (h, refl)), (λ h. h.0))
difference-zero acc [] (y ∷ ys) small len bx by = absurd (omega arith)
difference-zero acc (x ∷ xs) [] small len bx by = absurd (omega arith)
difference-zero acc (x ∷ xs) (y ∷ ys) small len (hx, bx) (hy, by) =
    let (xor_zero, xor_small) = xor_facts x y hx hy in
    let (or_zero, or_small) = or_facts acc (bit_xor x y) small xor_small in
    let rest = difference-zero (bit_or acc (bit_xor x y)) xs ys or_small (omega arith) bx by in
    (
      (λ h.
          let (e, same) = rest.0 h in
          let (a, d) = or_zero.0 e in let first = xor_zero.0 d in (a, cc (first, same))),
      (λ h.
          let first : x ≡ y = cc (h.1) in
          let others : xs ≡ ys = cc (h.1) in rest.1 (or_zero.1 (h.0, xor_zero.1 first), others)),
    )

-- Two arrays of bytes compare as equal exactly where they are.
pub constant_time_compare-equal :
    (a b : List ℕ) → All IsByte a → All IsByte b → (constant_time_compare a b ≡ true) ↔ (a ≡ b)
unfolding constant_time_compare
constant_time_compare-equal a b ba bb = elim (ℕ_discrete (length a) (length b)) [
  | yes len ↦
      let zero_iff = difference-zero 0 a b (omega arith) len ba bb in
      (
        (λ h. (zero_iff.0 (ground (arith, h, len))).1),
        (λ e. ground (arith, len, zero_iff.1 (refl, e))),
      )
  | no ne ↦ ((λ h. absurd (ground (arith, h, ne))), (λ e. absurd (ne (ap length e))))
]
