-- ===== src/Models/Version/Order.antt =====
-- The order of versions is total (core-runtime/src/models/version.rs).
use Prim.Native.Nat.{compare, Ordering}
use gg_core.Prelude.{
  ℕ, ◌≡◌, refl, sym, ap, ◌↔◌, ◌⊎◌, inl, inr, true, false, Option, none, some, List, [], ◌∷◌, arith,
}
use gg_core.Models.Version.{
  ModelVersion, or_else, cmp_bytes, cmp_prerelease, cmp, satisfies, below, is_some, with_prerelease,
  new,
}

-- The order seen from the other side.
abbrev pub flip : Ordering → Ordering
flip Ordering.lt = Ordering.gt
flip Ordering.eq = Ordering.eq
flip Ordering.gt = Ordering.lt

-- A comparison is the order of a total order.
pub record IsTotal {A : Type 0} (c : A → A → Ordering) : Type 0 where
  pub same : (a : A) → c a a ≡ Ordering.eq
  pub equal : (a b : A) → c a b ≡ Ordering.eq → a ≡ b
  pub turned : (a b : A) → c a b ≡ flip (c b a)
  pub chain : (a b d : A) → c a b ≡ Ordering.lt → c b d ≡ Ordering.lt → c a d ≡ Ordering.lt

-- Numbers that decide first, and what decides where they agree.
first-equal :
    (x y : ℕ) (p : Ordering) → or_else (compare x y) p ≡ Ordering.eq → (x ≡ y) × (p ≡ Ordering.eq)
first-equal x y p h = ground arith

first-turned :
    (x y : ℕ) (p q : Ordering)
    → p ≡ flip q
    → or_else (compare x y) p ≡ flip (or_else (compare y x) q)
first-turned x y p q h = ground arith

first-chain :
    (x y z : ℕ) (p q r : Ordering)
    → (p ≡ Ordering.lt → q ≡ Ordering.lt → r ≡ Ordering.lt)
    → or_else (compare x y) p ≡ Ordering.lt
    → or_else (compare y z) q ≡ Ordering.lt
    → or_else (compare x z) r ≡ Ordering.lt
first-chain x y z p q r h a b = ground arith

bytes_same : (xs : List ℕ) → cmp_bytes xs xs ≡ Ordering.eq
unfolding cmp_bytes
bytes_same [] = refl
bytes_same (x ∷ xs) = ground (arith, bytes_same xs)

bytes_equal : (xs ys : List ℕ) → cmp_bytes xs ys ≡ Ordering.eq → xs ≡ ys
unfolding cmp_bytes
bytes_equal [] [] h = refl
bytes_equal [] (y ∷ ys) h = absurd (cc)
bytes_equal (x ∷ xs) [] h = absurd (cc)
bytes_equal (x ∷ xs) (y ∷ ys) h =
    let (e, rest) = first-equal x y (cmp_bytes xs ys) h in cc (e, bytes_equal xs ys rest)

bytes_turned : (xs ys : List ℕ) → cmp_bytes xs ys ≡ flip (cmp_bytes ys xs)
unfolding cmp_bytes
bytes_turned [] [] = refl
bytes_turned [] (y ∷ ys) = refl
bytes_turned (x ∷ xs) [] = refl
bytes_turned (x ∷ xs) (y ∷ ys) = first-turned x y _ _ (bytes_turned xs ys)

bytes_chain :
    (xs ys zs : List ℕ)
    → cmp_bytes xs ys ≡ Ordering.lt
    → cmp_bytes ys zs ≡ Ordering.lt
    → cmp_bytes xs zs ≡ Ordering.lt
unfolding cmp_bytes
bytes_chain [] [] zs h k = absurd (cc)
bytes_chain [] (y ∷ ys) [] h k = absurd (cc)
bytes_chain [] (y ∷ ys) (z ∷ zs) h k = refl
bytes_chain (x ∷ xs) [] zs h k = absurd (cc)
bytes_chain (x ∷ xs) (y ∷ ys) [] h k = absurd (cc)
bytes_chain (x ∷ xs) (y ∷ ys) (z ∷ zs) h k = first-chain x y z _ _ _ (bytes_chain xs ys zs) h k

pre_same : (a : Option (List ℕ)) → cmp_prerelease a a ≡ Ordering.eq
unfolding cmp_prerelease
pre_same none = refl
pre_same (some a) = bytes_same a

pre_equal : (a b : Option (List ℕ)) → cmp_prerelease a b ≡ Ordering.eq → a ≡ b
unfolding cmp_prerelease
pre_equal none none h = refl
pre_equal none (some b) h = absurd (cc)
pre_equal (some a) none h = absurd (cc)
pre_equal (some a) (some b) h = ap some (bytes_equal a b h)

pre_turned : (a b : Option (List ℕ)) → cmp_prerelease a b ≡ flip (cmp_prerelease b a)
unfolding cmp_prerelease
pre_turned none none = refl
pre_turned none (some b) = refl
pre_turned (some a) none = refl
pre_turned (some a) (some b) = bytes_turned a b

pre_chain :
    (a b d : Option (List ℕ))
    → cmp_prerelease a b ≡ Ordering.lt
    → cmp_prerelease b d ≡ Ordering.lt
    → cmp_prerelease a d ≡ Ordering.lt
unfolding cmp_prerelease
pre_chain none none d h k = absurd (cc)
pre_chain none (some b) none h k = absurd (cc)
pre_chain none (some b) (some d) h k = absurd (cc)
pre_chain (some a) none none h k = absurd (cc)
pre_chain (some a) none (some d) h k = absurd (cc)
pre_chain (some a) (some b) none h k = refl
pre_chain (some a) (some b) (some d) h k = bytes_chain a b d h k

versions_equal : (a b : ModelVersion) → cmp a b ≡ Ordering.eq → a ≡ b
unfolding cmp
versions_equal a b h =
    let (e, h1) = first-equal a.major b.major _ h in
    let (f, h2) = first-equal a.minor b.minor _ h1 in
    let (g, h3) = first-equal a.patch b.patch _ h2 in
    ground (arith, e, f, g, pre_equal a.prerelease b.prerelease h3)

-- The comparison of versions is a total order: a version compares as equal with itself and no other,
-- comparing from the other side turns the result round, and what is less than something less is less.
-- At equal numbers a version with a prerelease is less than the one without.
pub cmp-IsTotal :
    IsTotal cmp
    × ((a b c : ℕ) (pre : List ℕ) → cmp (with_prerelease a b c pre) (new a b c) ≡ Ordering.lt)
unfolding cmp with_prerelease new
cmp-IsTotal = (
  record {
    same = λ a. ground (arith, pre_same a.prerelease);
    equal = versions_equal;
    turned = λ a b. first-turned a.major b.major _ _ (
        first-turned a.minor b.minor _ _
          (first-turned a.patch b.patch _ _ (pre_turned a.prerelease b.prerelease)));
    chain = λ a b d. first-chain a.major b.major d.major _ _ _ (
        first-chain a.minor b.minor d.minor _ _ _ (
          first-chain a.patch b.patch d.patch _ _ _
            (pre_chain a.prerelease b.prerelease d.prerelease)));
  },
  λ a b c pre. ground (arith, cmp_prerelease),
)

Ordering-cases : (o : Ordering) → (o ≡ Ordering.lt) ⊎ ((o ≡ Ordering.eq) ⊎ (o ≡ Ordering.gt))
Ordering-cases Ordering.lt = inl refl
Ordering-cases Ordering.eq = inr (inl refl)
Ordering-cases Ordering.gt = inr (inr refl)

-- A version satisfies the range below a maximum exactly where it has no prerelease and is at most the
-- maximum, the maximum itself included.
pub satisfies-below :
    (v m : ModelVersion)
    → (satisfies v (below m) ≡ true)
      ↔ ((is_some v.prerelease ≡ false) × ((cmp v m ≡ Ordering.lt) ⊎ (v ≡ m)))
unfolding satisfies below
satisfies-below v m = elim (Ordering-cases (cmp v m)) [
  | inl less ↦ ((λ h. (ground (arith, h), inl less)), (λ h. ground (arith, less, h.0)))
  | inr (inl same) ↦
      ((λ h. (ground (arith, h), inr (versions_equal v m same))), (λ h. ground (arith, same, h.0)))
  | inr (inr more) ↦ (
    (λ h. absurd (ground (arith, more, h))),
    (λ h. elim h.1 [
      | inl less ↦ absurd (cc (less, more))
      | inr e ↦ absurd (cc (more, ap (cmp v) (sym e), itself v))
    ]),
  )
]
  where
    itself : (a : ModelVersion) → cmp a a ≡ Ordering.eq
    itself a = cmp-IsTotal.0.same a
