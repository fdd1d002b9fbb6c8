-- ===== src/Memory/Arena/Rounds.antt =====
-- One round of an allocation (core-runtime/src/memory/arena.rs): the offset that it aligns to and what
-- the exchange leaves.
use native.Mathlib.Nat.{one-le-pow}
use gg_core.Prelude.{
  ℕ, ◌+◌, ◌-◌, ◌*◌, ◌%◌, ◌^◌, ◌≤◌, ◌<◌, ◌≡◌, refl, sym, ap, ◌∙◌, ◌⊎◌, inl, inr, Bool, ◌||◌, not,
  ltb, ◌==◌, Bool-cases, arith,
}
use gg_core.Prelude.Masks.{bit_and-high}
use gg_core.Memory.Arena.{
  word, Arena, low_bits, align_up, Request, new_offset, Round, exhausted, retry, point_to, attempt,
}

-- A request with a power of two as its alignment, and small enough for sums of machine words.
abbrev pub IsFair : ℕ → Request → Type 0
IsFair capacity r = (k : ℕ) × (r.align ≡ 2 ^ k) × (capacity + r.align + r.size ≤ 2 ^ 64)

-- The offset that an alignment gives: the next multiple.
pub align_up-bounds :
    (capacity current : ℕ) (r : Request)
    → current ≤ capacity
    → IsFair capacity r
    → (c : ℕ) × (align_up current r.align ≡ c * r.align)
      × (current ≤ align_up current r.align)
      × (align_up current r.align < current + r.align)
unfolding align_up
align_up-bounds capacity current r h (k, e, fits) =
    let one = one-le-pow k 2 in
    let x = ((current + r.align) % word + (word - 1)) % word in
    let m = word - 1 - low_bits r.align in
    let sum : x + 1 ≡ current + r.align = omega (arith, e, one, fits, h) in
    let mask : m + 2 ^ k ≡ 2 ^ 64 = omega (arith, e, one, fits) in
    let (c, eq, le, gt) = bit_and-high k 64 x m mask (omega (arith, sum, fits, h)) in
    (c, eq ∙ ap (λ (t : ℕ). c * t) (sym e), omega (arith, gt, sum, e), omega (arith, le, sum))

-- A round changes nothing, or takes the next aligned range behind the offset it has loaded.
abbrev pub Attempted : ℕ → Request → Arena → Round × Arena → Type 0
Attempted current r a o =
    ((o ≡ (exhausted, a)) ⊎ (o ≡ (retry, a)))
    ⊎ ((a.offset ≡ current)
        × (new_offset current r ≤ a.capacity)
        × (o ≡ (point_to a (align_up current r.align), record a { offset = new_offset current r })))

pub attempt-Attempted :
    (spurious : Bool) (current : ℕ) (r : Request) (a : Arena)
    → Attempted current r a (attempt spurious current r a)
unfolding attempt
attempt-Attempted spurious current r a = elim (Bool-cases (ltb a.capacity (new_offset current r))) [
  | inl full ↦ inl (inl (rw (full, attempt) refl))
  | inr room ↦ elim (Bool-cases (spurious || not (a.offset == current))) [
    | inl lost ↦ inl (inr (rw (room, lost, attempt) refl))
    | inr won ↦ inr (ground (arith, won), ground (arith, room), rw (room, won, attempt) refl)
  ]
]
