-- ===== src/Memory/KvCache/Held.antt =====
-- How many of the sequences' page lists name a page.
use gg_core.Prelude.{
  ℕ, ◌+◌, ◌≤◌, ◌<◌, ◌≡◌, some, List, [], ◌∷◌, ◌++◌, take, drop, get_last?, arith, ℕ_discrete,
}
use gg_core.Prelude.Counts.{count, hit, count-append, count-take-drop}
use gg_core.Prelude.HashMap.{get, remove, modify}
use gg_core.Memory.KvCache.{SequenceEntry}

abbrev pub Entries : Type 0
Entries = List (ℕ × SequenceEntry)

abbrev pub held : ℕ → Entries → ℕ
held p [] = 0
held p ((k, e) ∷ m) = count p e.page_ids + held p m

module _ (p k : ℕ) where
  pub held-remove-le : (m : Entries) → held p (remove ℕ_discrete k m) ≤ held p m
  unfolding remove
  held-remove-le [] = omega arith
  held-remove-le ((j, e) ∷ m) = ground (arith, held-remove-le m)

  pub held-remove :
      (m : Entries) (e : SequenceEntry)
      → get ℕ_discrete k m ≡ some e
      → held p (remove ℕ_discrete k m) + count p e.page_ids ≤ held p m
  unfolding get remove
  held-remove [] e h = cc
  held-remove ((j, x) ∷ m) e h = ground (arith, held-remove m e, held-remove-le m)

  pub count-le-held :
      (m : Entries) (e : SequenceEntry)
      → get ℕ_discrete k m ≡ some e
      → count p e.page_ids ≤ held p m
  unfolding get
  count-le-held [] e h = cc
  count-le-held ((j, x) ∷ m) e h = ground (arith, count-le-held m e)

  pub held-modify_same :
      (f : SequenceEntry → SequenceEntry) (m : Entries)
      → ((e : SequenceEntry) → (f e).page_ids ≡ e.page_ids)
      → held p (modify ℕ_discrete k f m) ≡ held p m
  unfolding modify
  held-modify_same f [] h = omega arith
  held-modify_same f ((j, x) ∷ m) h = ground (arith, held-modify_same f m h, h x)

  pub held-modify_push :
      (q : ℕ) (m : Entries)
      → held p (modify ℕ_discrete k (λ e. record e { page_ids = e.page_ids ++ q ∷ [] }) m)
        ≤ held p m + hit p q
  unfolding modify
  held-modify_push q [] = omega arith
  held-modify_push q ((j, x) ∷ m) =
      ground (arith, held-modify_push q m, count-append p x.page_ids (q ∷ []))

  pub held-modify-drop :
      (n : ℕ) (m : Entries) (e : SequenceEntry)
      → get ℕ_discrete k m ≡ some e
      → held p (modify ℕ_discrete k (λ x. record x { page_ids = drop n x.page_ids }) m)
          + count p (take n e.page_ids)
        ≡ held p m
  unfolding get modify
  held-modify-drop n [] e h = cc
  held-modify-drop n ((j, x) ∷ m) e h =
      ground (arith, held-modify-drop n m e, count-take-drop p n x.page_ids)

pub count-get_last? : (p : ℕ) (xs : List ℕ) → get_last? xs ≡ some p → 0 < count p xs
count-get_last? p [] h = cc
count-get_last? p (x ∷ []) h = ground arith
count-get_last? p (x ∷ y ∷ xs) h = ground (arith, count-get_last? p (y ∷ xs))
