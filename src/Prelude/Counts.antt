-- ===== src/Prelude/Counts.antt =====
-- How often a number occurs in a list, and the removal of every occurrence.
use Prim.Native.Nat.{ℕ, ◌+◌}
use mathlib.Core.Path.{◌≡◌}
use mathlib.Core.List.{List, [], ◌∷◌, ◌++◌}
use native.Mathlib.Omega.{arith}
use gg_core.Prelude.Tests.{◌==◌, if◌then◌else◌}
use gg_core.Prelude.Lists.{take, drop}

-- 1 where the two numbers agree, and 0 elsewhere.
abbrev pub hit : ℕ → ℕ → ℕ
hit a x = if a == x then 1 else 0

abbrev pub count : ℕ → List ℕ → ℕ
count a [] = 0
count a (x ∷ xs) = hit a x + count a xs

-- VecDeque::retain(|&id| id != a)
abbrev pub without : ℕ → List ℕ → List ℕ
without a [] = []
without a (x ∷ xs) = let rest = without a xs in if a == x then rest else x ∷ rest

pub count-append :
    (n : ℕ) (front back : List ℕ) → count n (front ++ back) ≡ count n front + count n back
count-append n [] back = omega arith
count-append n (x ∷ front) back = omega (arith, count-append n front back)

pub count-take-drop :
    (a n : ℕ) (xs : List ℕ) → count a (take n xs) + count a (drop n xs) ≡ count a xs
count-take-drop a ℕ.zero xs = omega arith
count-take-drop a (ℕ.suc n) [] = omega arith
count-take-drop a (ℕ.suc n) (x ∷ xs) = omega (arith, count-take-drop a n xs)

pub count-without :
    (a b : ℕ) (xs : List ℕ) → count b (without a xs) ≡ (if a == b then 0 else count b xs)
count-without a b [] = ground arith
count-without a b (x ∷ xs) = ground (arith, count-without a b xs)
