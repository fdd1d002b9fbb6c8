-- ===== src/Memory/Arena/Packed.antt =====
-- What holds between the steps of tasks on an arena (core-runtime/src/memory/arena.rs).
use gg_core.Prelude.{
  ℕ, zero, suc, ◌+◌, ◌*◌, ◌≤◌, ◌≡◌, refl, sym, subst, inl, inr, some, List, [], ◌∷◌, length,
  get_elem?, length-replicate, All, Option-cases, arith,
}
use gg_core.Memory.Arena.{
  Arena, new, align_up, Request, new_offset, Round, exhausted, retry, point_to, attempt, reset,
  Range, Tasks, start, Event, load, exchange, reset_all, remove_at, with_range, still_loaded, step,
  run,
}
use gg_core.Memory.Arena.Rounds.{IsFair, align_up-bounds, Attempted, attempt-Attempted}

-- Ranges, the latest first, each of which ends where the one before it starts or earlier.
abbrev pub Stacked : ℕ → List Range → Type 0
Stacked bound [] = Unit
Stacked bound (r ∷ rs) = (r.first + r.size ≤ bound) × Stacked r.first rs

abbrev pub IsAligned : Range → Type 0
IsAligned r = (c : ℕ) × (r.first ≡ c * r.align)

pub record IsPacked (capacity : ℕ) (t : Tasks) : Type 0 where
  pub same_capacity : t.arena.capacity ≡ capacity
  pub same_buffer : length t.arena.buffer ≡ capacity
  pub within : t.arena.offset ≤ capacity
  pub stacked : Stacked t.arena.offset t.ranges
  pub aligned : All IsAligned t.ranges
  pub fair : All (λ x. IsFair capacity x.1) t.loaded

Stacked-le : (a b : ℕ) (rs : List Range) → a ≤ b → Stacked a rs → Stacked b rs
Stacked-le a b [] h s = tt
Stacked-le a b (r ∷ rs) h (e, s) = (omega (arith, e, h), s)

pub All-get_elem? {ℓ} :
    {A : Type ℓ} (P : A → Type 0) (xs : List A) (i : ℕ) (x : A)
    → All P xs
    → get_elem? xs i ≡ some x
    → P x
All-get_elem? P [] i x all h = absurd (cc)
All-get_elem? {A = A} P (y ∷ xs) zero x (p, all) h = subst P (some_inj h) p
  where
    some_inj : {a b : A} → some a ≡ some b → a ≡ b
    some_inj e = cc
All-get_elem? P (y ∷ xs) (suc i) x (p, all) h = All-get_elem? P xs i x all h

All-remove_at {ℓ} :
    {A : Type ℓ} (P : A → Type 0) (i : ℕ) (xs : List A) → All P xs → All P (remove_at i xs)
All-remove_at P i [] all = tt
All-remove_at P zero (x ∷ xs) (p, all) = all
All-remove_at P (suc i) (x ∷ xs) (p, all) = (p, All-remove_at P i xs all)

-- The tasks after a round of a request.
abbrev after_round : ℕ → Request → Tasks → Round × Arena → Tasks
after_round i r t (round, arena) = record {
  arena = arena;
  loaded = still_loaded arena.offset r round (remove_at i t.loaded);
  ranges = with_range r round t.ranges;
}

-- The range that a successful exchange takes, whether the index is in bounds or not.
taken-IsPacked :
    (capacity i : ℕ) (r : Request) (t : Tasks)
    → IsPacked capacity t
    → IsFair capacity r
    → new_offset t.arena.offset r ≤ t.arena.capacity
    → IsPacked capacity (
        after_round i r t (
          point_to t.arena (align_up t.arena.offset r.align),
          record t.arena { offset = new_offset t.arena.offset r },
        ))
taken-IsPacked capacity i r t p (k, e, fits) room =
    let at = align_up t.arena.offset r.align in
    let (c, multiple, above, below) =
      align_up-bounds capacity t.arena.offset r p.within (k, e, fits) in
    let sum : new_offset t.arena.offset r ≡ at + r.size = omega (arith, below, fits, p.within) in
    let rest = All-remove_at (λ x. IsFair capacity x.1) i t.loaded p.fair in
    let ends : new_offset t.arena.offset r ≤ capacity = omega (arith, room, p.same_capacity) in
    elim (Option-cases (get_elem? t.arena.buffer at)) [
      | inl out ↦
          rw (out, point_to)
            (record {
              same_capacity = p.same_capacity;
              same_buffer = p.same_buffer;
              within = ends;
              stacked = Stacked-le _ _ t.ranges (omega (arith, above, sum)) p.stacked;
              aligned = p.aligned;
              fair = rest;
            })
      | inr (b, there) ↦
          rw (there, point_to)
            (record {
              same_capacity = p.same_capacity;
              same_buffer = p.same_buffer;
              within = ends;
              stacked = (omega (arith, sum), Stacked-le _ _ t.ranges above p.stacked);
              aligned = ((c, multiple), p.aligned);
              fair = rest;
            })
    ]

round-IsPacked :
    (capacity i current : ℕ) (r : Request) (t : Tasks) (o : Round × Arena)
    → IsPacked capacity t
    → IsFair capacity r
    → Attempted current r t.arena o
    → IsPacked capacity (after_round i r t o)
round-IsPacked capacity i current r t o p fair h =
    let rest = All-remove_at (λ x. IsFair capacity x.1) i t.loaded p.fair in
    let same = λ (q : Round × Arena) (e : o ≡ q) (w : IsPacked capacity (after_round i r t q)).
      subst (λ z. IsPacked capacity (after_round i r t z)) (sym e) w in
    elim h [
      | inl (inl e) ↦
          same (exhausted, t.arena) e
            (record {
              same_capacity = p.same_capacity;
              same_buffer = p.same_buffer;
              within = p.within;
              stacked = p.stacked;
              aligned = p.aligned;
              fair = rest;
            })
      | inl (inr e) ↦
          same (retry, t.arena) e
            (record {
              same_capacity = p.same_capacity;
              same_buffer = p.same_buffer;
              within = p.within;
              stacked = p.stacked;
              aligned = p.aligned;
              fair = (fair, rest);
            })
      | inr (now, room, e) ↦
          let e' : o ≡ (
            point_to t.arena (align_up t.arena.offset r.align),
            record t.arena { offset = new_offset t.arena.offset r },
          ) =
            rw now e in
          same _ e' (taken-IsPacked capacity i r t p fair (rw now room))
    ]

-- What an event asks for is fair.
abbrev pub Asks : ℕ → Event → Type 0
Asks capacity (load r) = IsFair capacity r
Asks capacity (exchange spurious i) = Unit
Asks capacity reset_all = Unit

step-IsPacked :
    (capacity : ℕ) (e : Event) (t : Tasks)
    → Asks capacity e
    → IsPacked capacity t
    → IsPacked capacity (step e t)
unfolding step reset
step-IsPacked capacity (load r) t ask p = record {
  same_capacity = p.same_capacity;
  same_buffer = p.same_buffer;
  within = p.within;
  stacked = p.stacked;
  aligned = p.aligned;
  fair = (ask, p.fair);
}
step-IsPacked capacity reset_all t ask p = record {
  same_capacity = p.same_capacity;
  same_buffer = p.same_buffer;
  within = omega arith;
  stacked = tt;
  aligned = tt;
  fair = p.fair;
}
step-IsPacked capacity (exchange spurious i) t ask p = elim (Option-cases (get_elem? t.loaded i)) [
  | inl e ↦ rw (e, step) p
  | inr ((current, r), e) ↦
      let fair = All-get_elem? (λ x. IsFair capacity x.1) t.loaded i (current, r) p.fair e in
      rw (e, step)
        (round-IsPacked capacity i current r t (attempt spurious current r t.arena) p fair
          (attempt-Attempted spurious current r t.arena))
]

pub run-IsPacked :
    (capacity : ℕ) (es : List Event) (t : Tasks)
    → All (Asks capacity) es
    → IsPacked capacity t
    → IsPacked capacity (run es t)
unfolding run
run-IsPacked capacity [] t ask p = p
run-IsPacked capacity (e ∷ es) t (ask, asks) p =
    run-IsPacked capacity es (step e t) asks (step-IsPacked capacity e t ask p)

pub start-IsPacked : (capacity : ℕ) → IsPacked capacity (start capacity)
unfolding start new
start-IsPacked capacity = record {
  same_capacity = refl;
  same_buffer = length-replicate capacity 0;
  within = omega arith;
  stacked = tt;
  aligned = tt;
  fair = tt;
}
