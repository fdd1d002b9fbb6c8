-- ===== src/Prelude/HashMap.antt =====
-- std::collections::HashMap as an association list with a decision of equality on the keys. The
-- order of the entries stands for the unspecified iteration order of the hash map.
use mathlib.Core.Path.{◌≡◌, refl}
use mathlib.Core.Logic.{◌≢◌, ite}
use mathlib.Core.List.{List, [], ◌∷◌}
use mathlib.Core.Option.{Option, none, some}
use mathlib.Core.Bool.{Bool, true, false}
use native.Mathlib.Omega.{arith}
use Prim.Native.Nat.{◌+◌, ◌≤◌}
use gg_core.Prelude.Lists.{length}

module _ {ℓ} {K V : Type ℓ} (dec : Discrete K) where
  -- map.get(&k)
  unfoldable pub get : K → List (K × V) → Option V
  get k [] = none
  get k ((j, v) ∷ m) = ite (dec k j) (some v) (get k m)

  -- map.contains_key(&k)
  unfoldable pub contains_key : K → List (K × V) → Bool
  contains_key k m = elim (get k m) [ none ↦ false | some _ ↦ true ]

  -- map.remove(&k), without its result
  unfoldable pub remove : K → List (K × V) → List (K × V)
  remove k [] = []
  remove k ((j, v) ∷ m) = let rest = remove k m in ite (dec k j) rest ((j, v) ∷ rest)

  -- map.insert(k, v), without its result
  unfoldable pub insert : K → V → List (K × V) → List (K × V)
  unfolding remove
  insert k v m = (k, v) ∷ remove k m

  -- *map.get_mut(&k) = f(..): a key that is not there changes nothing
  unfoldable pub modify : K → (V → V) → List (K × V) → List (K × V)
  modify k f [] = []
  modify k f ((j, v) ∷ m) = ite (dec k j) ((j, f v) ∷ m) ((j, v) ∷ modify k f m)

  pub get-remove : (k q : K) (m : List (K × V)) → get q (remove k m) ≡ ite (dec k q) none (get q m)
  unfolding get remove
  get-remove k q [] = ground arith
  get-remove k q ((j, v) ∷ m) = ground (arith, get-remove k q m)

  pub get-insert :
      (k q : K) (v : V) (m : List (K × V)) → get q (insert k v m) ≡ ite (dec k q) (some v) (get q m)
  unfolding insert get
  get-insert k q v m = ground (arith, get-remove k q m)

  pub get-modify_ne :
      (k q : K) (f : V → V) (m : List (K × V)) → k ≢ q → get q (modify k f m) ≡ get q m
  unfolding get modify
  get-modify_ne k q f [] h = refl
  get-modify_ne k q f ((j, v) ∷ m) h = ground (arith, get-modify_ne k q f m)

  pub get-modify_self :
      (k : K) (f : V → V) (m : List (K × V)) (v : V)
      → get k m ≡ some v
      → get k (modify k f m) ≡ some (f v)
  unfolding get modify
  get-modify_self k f [] v h = cc
  get-modify_self k f ((j, w) ∷ m) v h = ground (arith, get-modify_self k f m v)

  pub get-modify-none :
      (k q : K) (f : V → V) (m : List (K × V)) → get q m ≡ none → get q (modify k f m) ≡ none
  unfolding get modify
  get-modify-none k q f [] h = refl
  get-modify-none k q f ((j, v) ∷ m) h = ground (arith, get-modify-none k q f m)

  pub contains_key-get : (k : K) (m : List (K × V)) → contains_key k m ≡ false → get k m ≡ none
  unfolding contains_key
  contains_key-get k m h = ground arith

  pub remove_absent : (k : K) (m : List (K × V)) → get k m ≡ none → remove k m ≡ m
  unfolding get remove
  remove_absent k [] h = refl
  remove_absent k ((j, v) ∷ m) h = ground (arith, remove_absent k m)

  pub length-remove-le : (k : K) (m : List (K × V)) → length (remove k m) ≤ length m
  unfolding remove
  length-remove-le k [] = omega arith
  length-remove-le k ((j, v) ∷ m) = ground (arith, length-remove-le k m)

  pub length-remove-lt :
      (k : K) (m : List (K × V)) (v : V) → get k m ≡ some v → length (remove k m) + 1 ≤ length m
  unfolding get remove
  length-remove-lt k [] v h = cc
  length-remove-lt k ((j, w) ∷ m) v h = ground (arith, length-remove-lt k m v, length-remove-le k m)

  pub get-insert_self : (k : K) (v : V) (m : List (K × V)) → get k (insert k v m) ≡ some v
  get-insert_self k v m = ground (arith, get-insert k k v m)

  pub get-insert_ne : (k q : K) (v : V) (m : List (K × V)) → k ≢ q → get q (insert k v m) ≡ get q m
  get-insert_ne k q v m ne = ground (arith, get-insert k q v m)

  pub get-remove_self : (k : K) (m : List (K × V)) → get k (remove k m) ≡ none
  get-remove_self k m = ground (arith, get-remove k k m)

  pub get-remove_ne : (k q : K) (m : List (K × V)) → k ≢ q → get q (remove k m) ≡ get q m
  get-remove_ne k q m ne = ground (arith, get-remove k q m)

  pub contains_key-none : (k : K) (m : List (K × V)) → get k m ≡ none → contains_key k m ≡ false
  unfolding contains_key
  contains_key-none k m h = ground (arith, h)

  pub contains_key-some :
      (k : K) (m : List (K × V)) (v : V) → get k m ≡ some v → contains_key k m ≡ true
  unfolding contains_key
  contains_key-some k m v h = ground (arith, h)
