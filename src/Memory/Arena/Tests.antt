-- ===== src/Memory/Arena/Tests.antt =====
-- Two tasks that load the offset 0 of an arena of 32 bytes: one exchange succeeds, the other is retried.
use gg_core.Prelude.{
  ℕ, ◌+◌, ◌-◌, ◌^◌, ◌≤◌, ◌<◌, ◌≡◌, refl, some, List, [], ◌∷◌, false, get_elem?, replicate, arith,
}
use gg_core.Memory.Arena.{Arena, Range, Request, Event, load, exchange, start, run, pointer, alloc}
use gg_core.Memory.Arena.Packed.{IsAligned}
use gg_core.Memory.Arena.Disjoint.{ranges_disjoint}
use gg_core.Memory.Arena.Overflow.{alloc_wraps}

abbrev small : Request
small = record { size = 5; align = 1 }

abbrev wide : Request
wide = record { size = 8; align = 8 }

abbrev race : List Event
race = load small ∷ load wide ∷ exchange false 1 ∷ exchange false 0 ∷ exchange false 0 ∷ []

both_ranges :
    (run race (start 32)).ranges
    ≡ (record { first = 8; size = 8; align = 8 }) ∷ (record { first = 0; size = 5; align = 1 }) ∷ []
unfolding run start
both_ranges = refl

ranges_disjoint_example :
    let ranges = (run race (start 32)).ranges in
    ((i : ℕ) (a : Range) → get_elem? ranges i ≡ some a → (a.first + a.size ≤ 32) × IsAligned a)
    × ((i j : ℕ) (a b : Range)
        → i < j
        → get_elem? ranges i ≡ some a
        → get_elem? ranges j ≡ some b
        → b.first + b.size ≤ a.first)
ranges_disjoint_example =
    ranges_disjoint 32 race
      (((0, refl, omega arith)), (((3, refl, omega arith)), (tt, (tt, (tt, tt)))))

abbrev in_use : Arena
in_use = record { buffer = replicate 4 0; offset = 2; capacity = 4 }

alloc_wraps_example :
    alloc (record { size = 2 ^ 64 - 2; align = 1 }) in_use
    ≡ (pointer 2, record in_use { offset = 0 })
alloc_wraps_example = alloc_wraps in_use (omega arith) (omega arith) refl (omega arith)
