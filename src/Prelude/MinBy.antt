-- ===== src/Prelude/MinBy.antt =====
-- Iterator::min_by_key over the entries of a map: the first entry of the least key.
use Prim.Native.Nat.{ℕ, ◌≤◌, ◌+◌}
use mathlib.Core.Path.{◌≡◌, refl, sym, ap, subst, ◌∙◌}
use mathlib.Core.Logic.{◌⊎◌, inl, inr}
use mathlib.Core.List.{List, [], ◌∷◌}
use mathlib.Core.Option.{Option, none, some}
use native.Mathlib.Omega.{arith}
use gg_core.Prelude.Tests.{ltb, if◌then◌else◌, Bool-cases}
use gg_core.Prelude.Lists.{All, length}
use gg_core.Prelude.HashMap as HashMap

module _ {K V : Type 0} (key : V → ℕ) where
  -- The first of the two entries unless the second is less.
  abbrev pub earlier : K × V → K × V → K × V
  earlier best x = if ltb (key x.1) (key best.1) then x else best

  unfoldable pub min_from : K × V → List (K × V) → K × V
  min_from best [] = best
  min_from best (x ∷ xs) = min_from (earlier best x) xs

  unfoldable pub min_by_key : List (K × V) → Option (K × V)
  unfolding min_from
  min_by_key [] = none
  min_by_key (x ∷ xs) = some (min_from x xs)

  earlier_cases : (best x : K × V) → (earlier best x ≡ x) ⊎ (earlier best x ≡ best)
  earlier_cases best x = elim (Bool-cases (ltb (key x.1) (key best.1))) [
    | inl e ↦ inl (rw e)
    | inr e ↦ inr (rw e)
  ]

  earlier-le :
      (best x : K × V) → (key (earlier best x).1 ≤ key best.1) × (key (earlier best x).1 ≤ key x.1)
  earlier-le best x = ground arith

  min_from-le : (best : K × V) (xs : List (K × V)) → key (min_from best xs).1 ≤ key best.1
  unfolding min_from
  min_from-le best [] = omega arith
  min_from-le best (x ∷ xs) = omega (arith, min_from-le (earlier best x) xs, earlier-le best x)

  -- Every entry's key is at least that of the least one.
  pub min_from-least :
      (best : K × V) (xs : List (K × V)) → All (λ x. key (min_from best xs).1 ≤ key x.1) xs
  unfolding min_from
  min_from-least best [] = tt
  min_from-least best (x ∷ xs) = (
    omega (arith, min_from-le (earlier best x) xs, earlier-le best x),
    min_from-least (earlier best x) xs,
  )

  pub min_by_key-least :
      (xs : List (K × V)) (x : K × V) → min_by_key xs ≡ some x → All (λ y. key x.1 ≤ key y.1) xs
  unfolding min_by_key
  min_by_key-least [] x h = absurd (cc)
  min_by_key-least (y ∷ xs) x h =
      subst (λ z. All (λ e. key z.1 ≤ key e.1) (y ∷ xs)) (some_inj h)
        (min_from-le y xs, min_from-least y xs)
    where
      some_inj : {a b : K × V} → some a ≡ some b → a ≡ b
      some_inj e = cc

module _ {K V : Type 0} (dec : Discrete K) (key : V → ℕ) where
  -- A key that is the first or has an entry in the rest has an entry.
  pub found_in :
      (q : K) (x : K × V) (xs : List (K × V))
      → (q ≡ x.0) ⊎ ((v : V) × (HashMap.get dec q xs ≡ some v))
      → (v : V) × (HashMap.get dec q (x ∷ xs) ≡ some v)
  unfolding HashMap.get
  found_in q x xs h = elim (dec x.0 q) [
    | yes e ↦ (x.1, ground (arith, e))
    | no ne ↦ elim h [ inl e ↦ absurd (ne (sym e)) | inr (v, e) ↦ (v, ground (arith, ne, e)) ]
  ]

  -- The least entry is the first one or its key is among the rest.
  min_from-found :
      (best : K × V) (xs : List (K × V))
      → ((min_from key best xs).0 ≡ best.0)
        ⊎ ((v : V) × (HashMap.get dec (min_from key best xs).0 xs ≡ some v))
  unfolding min_from
  min_from-found best [] = inl refl
  min_from-found best (x ∷ xs) = elim (min_from-found (earlier key best x) xs) [
    | inr later ↦ inr (found_in _ x xs (inr later))
    | inl first ↦ elim (earlier_cases key best x) [
      | inl e ↦ inr (found_in _ x xs (inl (first ∙ ap (λ y. y.0) e)))
      | inr e ↦ inl (first ∙ ap (λ y. y.0) e)
    ]
  ]

  -- The key of the least entry has an entry in the map.
  pub min_by_key-found :
      (xs : List (K × V)) (x : K × V)
      → min_by_key key xs ≡ some x
      → (v : V) × (HashMap.get dec x.0 xs ≡ some v)
  unfolding min_by_key
  min_by_key-found [] x h = absurd (cc)
  min_by_key-found (y ∷ xs) x h =
      let e : min_from key y xs ≡ x = cc in
      subst (λ z. (v : V) × (HashMap.get dec z.0 (y ∷ xs) ≡ some v)) e
        (found_in (min_from key y xs).0 y xs (min_from-found y xs))

  -- Removing the least entry's key leaves at least one entry fewer.
  pub length-remove-min :
      (xs : List (K × V)) (x : K × V)
      → min_by_key key xs ≡ some x
      → length (HashMap.remove dec x.0 xs) + 1 ≤ length xs
  length-remove-min xs x h =
      let (v, found) = min_by_key-found xs x h in HashMap.length-remove-lt dec x.0 xs v found

  pub min_by_key-none : (xs : List (K × V)) → min_by_key key xs ≡ none → xs ≡ []
  unfolding min_by_key
  min_by_key-none [] h = refl
  min_by_key-none (x ∷ xs) h = absurd (cc)
