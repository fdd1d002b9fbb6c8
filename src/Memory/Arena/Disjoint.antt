-- ===== src/Memory/Arena/Disjoint.antt =====
-- The ranges of an arena do not overlap, in any interleaving (core-runtime/src/memory/arena.rs).
use gg_core.Prelude.{
  ℕ, zero, suc, ◌+◌, ◌≤◌, ◌<◌, ◌≡◌, subst, some, List, [], ◌∷◌, get_elem?, All, arith,
}
use gg_core.Memory.Arena.{Range, start, Event, run}
use gg_core.Memory.Arena.Packed.{
  Stacked, IsAligned, All-get_elem?, Asks, run-IsPacked, start-IsPacked,
}

Stacked-get_elem? :
    (bound i : ℕ) (rs : List Range) (a : Range)
    → Stacked bound rs
    → get_elem? rs i ≡ some a
    → a.first + a.size ≤ bound
Stacked-get_elem? bound i [] a s h = absurd (cc)
Stacked-get_elem? bound zero (r ∷ rs) a (e, s) h =
    subst (λ x. x.first + x.size ≤ bound) (some_inj h) e
  where
    some_inj : {x y : Range} → some x ≡ some y → x ≡ y
    some_inj p = cc
Stacked-get_elem? bound (suc i) (r ∷ rs) a (e, s) h =
    omega (arith, e, Stacked-get_elem? r.first i rs a s h)

Stacked-apart :
    (bound i j : ℕ) (rs : List Range) (a b : Range)
    → Stacked bound rs
    → i < j
    → get_elem? rs i ≡ some a
    → get_elem? rs j ≡ some b
    → b.first + b.size ≤ a.first
Stacked-apart bound i j [] a b s lt h k = absurd (cc)
Stacked-apart bound i zero (r ∷ rs) a b s lt h k = absurd (omega arith)
Stacked-apart bound zero (suc j) (r ∷ rs) a b (e, s) lt h k =
    subst (λ x. b.first + b.size ≤ x.first) (some_inj h) (Stacked-get_elem? r.first j rs b s k)
  where
    some_inj : {x y : Range} → some x ≡ some y → x ≡ y
    some_inj p = cc
Stacked-apart bound (suc i) (suc j) (r ∷ rs) a b (e, s) lt h k =
    Stacked-apart r.first i j rs a b s (omega arith) h k

-- In every interleaving of loads, exchanges and resets of tasks on a new arena, where each request has a
-- power of two as its alignment and no sum of the arena's capacity with it exceeds a machine word, the
-- ranges handed out since the last reset lie within the capacity, start at a multiple of their alignment,
-- and no two of them overlap: an earlier one ends where a later one starts or before.
pub ranges_disjoint :
    (capacity : ℕ) (es : List Event)
    → All (Asks capacity) es
    → let ranges = (run es (start capacity)).ranges in
      ((i : ℕ) (a : Range)
        → get_elem? ranges i ≡ some a
        → (a.first + a.size ≤ capacity) × IsAligned a)
      × ((i j : ℕ) (a b : Range)
          → i < j
          → get_elem? ranges i ≡ some a
          → get_elem? ranges j ≡ some b
          → b.first + b.size ≤ a.first)
ranges_disjoint capacity es asks =
    let p = run-IsPacked capacity es (start capacity) asks (start-IsPacked capacity) in
    let t = run es (start capacity) in
    (
      λ i a h. (
        omega (arith, p.within, Stacked-get_elem? t.arena.offset i t.ranges a p.stacked h),
        All-get_elem? IsAligned t.ranges i a p.aligned h,
      ),
      λ i j a b lt h k. Stacked-apart t.arena.offset i j t.ranges a b p.stacked lt h k,
    )
