-- ===== src/Prelude/Masks.antt =====
-- `&` with a mask of the high bits of a word rounds down to a multiple of a power of two.
use Prim.Native.Nat.{
  ℕ, zero, suc, ◌+◌, ◌-◌, ◌*◌, ◌/◌, ◌%◌, ◌^◌, ◌≤◌, ◌<◌, min, bit_and, digits, bit_and-bitwise,
}
use mathlib.Core.Path.{◌≡◌, refl, ap, ◌∙◌}
use native.Mathlib.Nat.{pow-suc, one-le-pow}
use native.Mathlib.Omega.{arith}

-- The recursion over binary digits that `bit_and` stands for, on fuel.
abbrev meet : ℕ → ℕ → ℕ → ℕ
meet fuel x mask = digits (λ _. 0) min fuel x mask

-- Fuel beyond the number itself makes no difference.
meet_more : (fuel x mask : ℕ) → x ≤ fuel → meet (suc fuel) x mask ≡ meet fuel x mask
meet_more zero (suc x) mask le = elim le [ ]
meet_more zero zero mask le = refl
meet_more (suc fuel) zero mask le = refl
meet_more (suc fuel) (suc x) mask le =
    let rest = meet_more fuel (suc x / 2) (mask / 2) (omega arith) in omega (arith, rest)

meet_enough : (extra x mask : ℕ) → meet (extra + x) x mask ≡ meet x x mask
meet_enough zero x mask = ap (λ (n : ℕ). meet n x mask) (omega arith)
meet_enough (suc extra) x mask =
    ap (λ (n : ℕ). meet n x mask) {y = suc (extra + x)} (omega arith)
    ∙ meet_more (extra + x) x mask (omega arith)
    ∙ meet_enough extra x mask

halves_of_zero : (mask : ℕ) → bit_and 0 mask ≡ 0
halves_of_zero mask = bit_and-bitwise 0 mask

-- The lowest digit by itself, and the others by halves.
bit_and-halves :
    (x mask : ℕ) → bit_and x mask ≡ min (x % 2) (mask % 2) + bit_and (x / 2) (mask / 2) * 2
bit_and-halves zero mask = omega (arith, halves_of_zero mask, halves_of_zero (mask / 2))
bit_and-halves (suc x) mask =
    let half = suc x / 2 in
    let spare : x - half + half ≡ x = omega arith in
    let enough = ap (λ (n : ℕ). meet n half (mask / 2)) spare in
    omega (
      arith,
      bit_and-bitwise half (mask / 2),
      bit_and-bitwise (suc x) mask,
      enough,
      meet_enough (x - half) half (mask / 2),
    )

-- A mask of all ones keeps every bit of the word.
bit_and-ones : (w x m : ℕ) → m + 1 ≡ 2 ^ w → x < 2 ^ w → bit_and x m ≡ x
bit_and-ones zero zero m h lt = halves_of_zero m
bit_and-ones zero (suc x) m h lt = absurd (omega arith)
bit_and-ones (suc w) x m h lt =
    let small : x / 2 < 2 ^ w = omega (arith, pow-suc 2 w) in
    let ones : m / 2 + 1 ≡ 2 ^ w = omega (arith, pow-suc 2 w, one-le-pow w 2) in
    omega (arith, bit_and-halves x m, bit_and-ones w (x / 2) (m / 2) ones small, pow-suc 2 w)

-- The multiple of 2 ^ k that a mask without the lowest k bits leaves.
pub bit_and-high :
    (k w x m : ℕ)
    → m + 2 ^ k ≡ 2 ^ w
    → x < 2 ^ w
    → (c : ℕ) × (bit_and x m ≡ c * 2 ^ k) × (bit_and x m ≤ x) × (x < bit_and x m + 2 ^ k)
bit_and-high zero w x m h lt =
    let all = bit_and-ones w x m (omega arith) lt in
    (x, omega (arith, all), omega (arith, all), omega (arith, all))
bit_and-high (suc k) zero x m h lt = absurd (omega (arith, pow-suc 2 k, one-le-pow k 2))
bit_and-high (suc k) (suc w) x m h lt =
    let small : x / 2 < 2 ^ w = omega (arith, pow-suc 2 w) in
    let half : m / 2 + 2 ^ k ≡ 2 ^ w = omega (arith, pow-suc 2 w, pow-suc 2 k) in
    let even : m % 2 ≡ 0 = omega (arith, pow-suc 2 w, pow-suc 2 k) in
    let (c, e, le, gt) = bit_and-high k w (x / 2) (m / 2) half small in
    let step = bit_and-halves x m in
    (
      c,
      omega (arith, step, even, e, ap (λ (t : ℕ). c * t) (pow-suc 2 k)),
      omega (arith, step, even, le),
      omega (arith, step, even, gt, pow-suc 2 k),
    )
