-- ===== src/Models/Drain/Flight.antt =====
-- Tracking and draining (core-runtime/src/models/drain.rs).
use gg_core.Prelude.{
  ℕ, ◌+◌, ◌%◌, ◌≤◌, ◌<◌, ◌≡◌, refl, ap, ◌∙◌, ◌⊎◌, inl, inr, Option, none, some, List, [], ◌∷◌, ◌++◌,
  length, set, arith, ℕ_discrete, Option-cases, Bool-cases, get_elem?-set_self, length-set,
  length-append, get_elem?-append_self, leb, ◌==◌,
}
use gg_core.Prelude.HashMap.{get, get-insert_self}
use gg_core.Models.Drain.{
  FlightTracker, DrainError, timeout, u32, load, entry, fetch_add, fetch_sub, track,
  in_flight_count, drain_round, drain,
}

load-set_self :
    (c n : ℕ) (t : FlightTracker)
    → c < length t.counters
    → load c (record t { counters = set t.counters c n }) ≡ n
load-set_self c n t h = rw (get_elem?-set_self t.counters c n h, load)

-- The handle has a counter of the heap.
abbrev pub HasCounter : ℕ → ℕ → FlightTracker → Type 0
HasCounter handle c t = (get ℕ_discrete handle t.in_flight ≡ some c) × (c < length t.counters)

count-load :
    (handle c : ℕ) (t : FlightTracker)
    → get ℕ_discrete handle t.in_flight ≡ some c
    → in_flight_count handle t ≡ load c t
unfolding in_flight_count
count-load handle c t e = rw (e, in_flight_count)

added :
    (c : ℕ) (t : FlightTracker)
    → c < length t.counters
    → load c t + 1 < u32
    → (load c (fetch_add c t) ≡ load c t + 1) × (load c (fetch_sub c (fetch_add c t)) ≡ load c t)
unfolding fetch_add fetch_sub
added c t h room = (up, down)
  where
    up : load c (fetch_add c t) ≡ load c t + 1
    up = load-set_self c _ t h ∙ omega (arith, room)

    down : load c (fetch_sub c (fetch_add c t)) ≡ load c t
    down =
        load-set_self c _ (fetch_add c t)
          (omega (arith, length-set t.counters c ((load c t + 1) % u32), h))
        ∙ omega (arith, up, room)

entry-HasCounter :
    (handle : ℕ) (t : FlightTracker)
    → (get ℕ_discrete handle t.in_flight ≡ none) ⊎ ((c : ℕ) × HasCounter handle c t)
    → let (c, t') = entry handle t in
      HasCounter handle c t' × (load c t' ≡ in_flight_count handle t)
unfolding entry in_flight_count
entry-HasCounter handle t (inl e) =
    rw (e, entry, in_flight_count)
      (
        (
          get-insert_self ℕ_discrete handle (length t.counters) t.in_flight,
          omega (arith, length-append t.counters (0 ∷ [])),
        ),
        rw (get_elem?-append_self t.counters 0, load),
      )
entry-HasCounter handle t (inr (c, (e, h))) = rw (e, entry, in_flight_count) ((e, h), refl)

-- Tracking a request whose handle has no counter or one of its own adds one to the handle's count,
-- below the limit of the counter, and dropping the guard takes it off again.
pub fetch_sub-track :
    (handle : ℕ) (t : FlightTracker)
    → (get ℕ_discrete handle t.in_flight ≡ none) ⊎ ((c : ℕ) × HasCounter handle c t)
    → in_flight_count handle t + 1 < u32
    → let (guard, after) = track handle t in
      (in_flight_count handle after ≡ in_flight_count handle t + 1)
      × (in_flight_count handle (fetch_sub guard after) ≡ in_flight_count handle t)
unfolding track
fetch_sub-track handle t known room =
    let ((found, inside), now) = entry-HasCounter handle t known in
    let (c, t') = entry handle t in
    let (up, down) = added c t' inside (omega (arith, now, room)) in
    (
      count-load handle c (fetch_add c t') (unfold fetch_add in found) ∙ omega (arith, up, now),
      count-load handle c (fetch_sub c (fetch_add c t')) (unfold fetch_add fetch_sub in found)
          ∙ down
          ∙ now,
    )

decided :
    (handle deadline now : ℕ) (t : FlightTracker) (r : Option DrainError)
    → drain_round handle deadline now t ≡ some r
    → ((r ≡ none) × (in_flight_count handle t ≡ 0))
      ⊎ ((r ≡ some timeout) × (0 < in_flight_count handle t) × (deadline ≤ now))
unfolding drain_round
decided handle deadline now t r e = elim (Bool-cases (in_flight_count handle t == 0)) [
  | inl idle ↦ inl (ground arith)
  | inr busy ↦ elim (Bool-cases (leb deadline now)) [
    | inl late ↦ inr (ground arith)
    | inr early ↦ absurd (ground arith)
  ]
]

abbrev pub Decides : ℕ → ℕ → List (ℕ × FlightTracker) → Option (Option DrainError) → Type 0
Decides handle deadline rounds result =
    (passed : List (ℕ × FlightTracker)) × (now : ℕ) × (t : FlightTracker) × (rest : List
      (ℕ × FlightTracker))
    × (rounds ≡ passed ++ (now, t) ∷ rest)
    × (((result ≡ some none) × (in_flight_count handle t ≡ 0))
        ⊎ ((result ≡ some (some timeout)) × (0 < in_flight_count handle t) × (deadline ≤ now)))

-- Draining ends only at a round that decides it: with success where it sees no request in flight,
-- with a timeout where it sees some at or after the deadline.
pub drain_lem :
    (handle deadline : ℕ) (rounds : List (ℕ × FlightTracker))
    → let result = drain handle deadline rounds in
      (result ≡ none) ⊎ Decides handle deadline rounds result
unfolding drain
drain_lem handle deadline [] = inl refl
drain_lem handle deadline ((now, t) ∷ rounds) =
    elim (Option-cases (drain_round handle deadline now t)) [
      | inl e ↦
          rw (e, drain)
            (elim (drain_lem handle deadline rounds) [
              | inl n ↦ inl n
              | inr (passed, now', t', rest, split, why) ↦
                  inr ((now, t) ∷ passed, now', t', rest, ap (◌∷◌ (now, t)) split, why)
            ])
      | inr (r, e) ↦ rw (e, drain) (inr ([], now, t, rounds, refl, why r e))
    ]
  where
    why :
        (r : Option DrainError)
        → drain_round handle deadline now t ≡ some r
        → ((some r ≡ some none) × (in_flight_count handle t ≡ 0))
          ⊎ ((some r ≡ some (some timeout)) × (0 < in_flight_count handle t) × (deadline ≤ now))
    why r e = elim (decided handle deadline now t r e) [
      | inl (q, idle) ↦ inl (ap some q, idle)
      | inr (q, busy, late) ↦ inr (ap some q, busy, late)
    ]
