-- ===== src/Scheduler/Priority/Order.antt =====
-- The order of the priority queue (core-runtime/src/scheduler/priority.rs): sorting by insertion, and
-- the sequence numbers of a heap.
use gg_core.Prelude.{
  ℕ, ◌+◌, ◌≤◌, ◌≡◌, ◌≢◌, refl, ap, ◌∙◌, true, false, List, [], ◌∷◌, arith, if◌then◌else◌,
  Bool-cases, inl, inr,
}
use gg_core.Prelude.Counts.{hit}
use gg_core.Scheduler.Priority.{PrioritizedItem, outranks, keep, select}

module _ {T : Type 0} where
  -- Insertion behind the items that are not outranked.
  abbrev pub insert_by : PrioritizedItem T → List (PrioritizedItem T) → List (PrioritizedItem T)
  insert_by x [] = x ∷ []
  insert_by x (y ∷ ys) = let rest = insert_by x ys in if outranks x y then x ∷ y ∷ ys else y ∷ rest

  abbrev pub sort : List (PrioritizedItem T) → List (PrioritizedItem T)
  sort [] = []
  sort (x ∷ xs) = insert_by x (sort xs)

  -- How many items have a sequence number.
  abbrev pub uses : ℕ → List (PrioritizedItem T) → ℕ
  uses n [] = 0
  uses n (x ∷ xs) = hit n x.sequence + uses n xs

  pub outranks-total :
      (a b : PrioritizedItem T)
      → a.sequence ≢ b.sequence
      → outranks a b ≡ false
      → outranks b a ≡ true
  unfolding outranks
  outranks-total a b ne h = ground arith

  pub outranks-asym : (a b : PrioritizedItem T) → outranks a b ≡ true → outranks b a ≡ false
  unfolding outranks
  outranks-asym a b h = ground arith

  pub outranks_trans :
      (a b c : PrioritizedItem T) → outranks a b ≡ true → outranks b c ≡ true → outranks a c ≡ true
  unfolding outranks
  outranks_trans a b c h k = ground arith

  insert_by_comm :
      (a b : PrioritizedItem T) (ys : List (PrioritizedItem T))
      → a.sequence ≢ b.sequence
      → insert_by a (insert_by b ys) ≡ insert_by b (insert_by a ys)
  insert_by_comm a b [] ne = ground (arith, outranks-total a b ne, outranks-asym a b)
  insert_by_comm a b (y ∷ ys) ne = ground (
    arith,
    insert_by_comm a b ys ne,
    outranks-total a b ne,
    outranks-asym a b,
    outranks_trans a b y,
    outranks_trans b a y,
  )

  -- Whether no two items of a heap share a sequence number.
  abbrev pub AreDistinct : List (PrioritizedItem T) → Type 0
  AreDistinct xs = (n : ℕ) → uses n xs ≤ 1

  uses-select :
      (n : ℕ) (best : PrioritizedItem T) (xs : List (PrioritizedItem T))
      → let (top, rest) = select best xs in
        hit n top.sequence + uses n rest ≡ hit n best.sequence + uses n xs
  unfolding select
  uses-select n best [] = refl
  uses-select n best (x ∷ xs) = ground (arith, uses-select n best xs, uses-select n x xs)

  -- What does not outrank an item does not outrank the greatest one.
  select-above :
      (l best : PrioritizedItem T) (xs : List (PrioritizedItem T))
      → outranks l best ≡ false
      → outranks l (select best xs).0 ≡ false
  unfolding select
  select-above l best [] h = h
  select-above l best (x ∷ xs) h =
      ground (arith, select-above l best xs, select-above l x xs, outranks_trans l x best)

  insert_by-keep :
      (best x : PrioritizedItem T) (ys : List (PrioritizedItem T))
      → best.sequence ≢ x.sequence
      → let (winner, other) = keep best x in
        (insert_by best (insert_by x ys) ≡ insert_by other (insert_by winner ys))
        × (outranks other winner ≡ false)
  insert_by-keep best x ys ne = elim (Bool-cases (outranks x best)) [
    | inl e ↦ rw e (refl, outranks-asym x best e)
    | inr e ↦ rw e (insert_by_comm best x ys ne, e)
  ]

  -- Sorting a heap puts the item that is selected in front of the sorted rest.
  pub sort-select :
      (best : PrioritizedItem T) (xs : List (PrioritizedItem T))
      → AreDistinct (best ∷ xs)
      → sort (best ∷ xs) ≡ (select best xs).0 ∷ sort (select best xs).1
  unfolding select
  sort-select best [] d = refl
  sort-select best (x ∷ xs) d =
      let (winner, other) = keep best x in
      let (swap, below) = insert_by-keep best x (sort xs) ne in
      swap
      ∙ ap (insert_by other) (sort-select winner xs fewer)
      ∙ rw (select-above other winner xs below)
    where
      ne : best.sequence ≢ x.sequence
      ne = let e = d x.sequence in ground arith

      fewer : AreDistinct ((keep best x).0 ∷ xs)
      fewer n = elim (Bool-cases (outranks x best)) [
        | inl e ↦ let h = d n in rw e (omega arith)
        | inr e ↦ let h = d n in rw e (omega arith)
      ]

  pub AreDistinct-select :
      (best : PrioritizedItem T) (xs : List (PrioritizedItem T)) (n : ℕ)
      → uses n (select best xs).1 ≤ uses n (best ∷ xs)
  AreDistinct-select best xs n = omega (arith, uses-select n best xs)

  uses-insert_by :
      (n : ℕ) (x : PrioritizedItem T) (ys : List (PrioritizedItem T))
      → uses n (insert_by x ys) ≡ uses n (x ∷ ys)
  uses-insert_by n x [] = refl
  uses-insert_by n x (y ∷ ys) = ground (arith, uses-insert_by n x ys)

  pub uses-sort : (n : ℕ) (xs : List (PrioritizedItem T)) → uses n (sort xs) ≡ uses n xs
  uses-sort n [] = refl
  uses-sort n (x ∷ xs) = omega (arith, uses-insert_by n x (sort xs), uses-sort n xs)
