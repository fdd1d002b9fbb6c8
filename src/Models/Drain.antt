-- ===== src/Models/Drain.antt =====
-- core-runtime/src/models/drain.rs: counters of the requests in flight. An Arc<AtomicU32> is an index
-- into `counters`; a FlightGuard is that index.
pub mod Flight
use gg_core.Prelude.{
  ℕ, suc, ◌+◌, ◌-◌, ◌%◌, ◌^◌, Bool, true, false, Option, none, some, List, [], ◌∷◌, ◌++◌, length,
  get_elem?, set, leb, ◌==◌, if◌then◌else◌, ℕ_discrete,
}
use gg_core.Prelude.HashMap.{get, insert, remove}

abbrev pub u32 : ℕ
u32 = 2 ^ 32

pub data DrainError : Type 0 where
  timeout : DrainError

pub record FlightTracker : Type 0 where
  pub in_flight : List (ℕ × ℕ)
  pub counters : List ℕ

unfoldable pub new : FlightTracker
new = record { in_flight = []; counters = [] }

-- counter.load
abbrev pub load : ℕ → FlightTracker → ℕ
load c t = elim (get_elem? t.counters c) [ none ↦ 0 | some n ↦ n ]

-- map.entry(handle).or_insert_with(..).clone()
unfoldable pub entry : ℕ → FlightTracker → ℕ × FlightTracker
entry handle t = elim (get ℕ_discrete handle t.in_flight) [
  | none ↦ (
    length t.counters,
    record {
      in_flight = insert ℕ_discrete handle (length t.counters) t.in_flight;
      counters = t.counters ++ 0 ∷ [];
    },
  )
  | some counter ↦ (counter, t)
]

-- counter.fetch_add(1)
unfoldable pub fetch_add : ℕ → FlightTracker → FlightTracker
fetch_add c t = record t { counters = set t.counters c ((load c t + 1) % u32) }

-- counter.fetch_sub(1), the drop of a guard
unfoldable pub fetch_sub : ℕ → FlightTracker → FlightTracker
fetch_sub c t = record t { counters = set t.counters c ((load c t + (u32 - 1)) % u32) }

-- The guard is the counter.
unfoldable pub track : ℕ → FlightTracker → ℕ × FlightTracker
track handle t = let (counter, t') = entry handle t in (counter, fetch_add counter t')

unfoldable pub in_flight_count : ℕ → FlightTracker → ℕ
in_flight_count handle t = elim (get ℕ_discrete handle t.in_flight) [ none ↦ 0 | some c ↦ load c t ]

unfoldable pub forget : ℕ → FlightTracker → FlightTracker
forget handle t = record t { in_flight = remove ℕ_discrete handle t.in_flight }

-- One round of the loop of `drain`: its result, or none where it sleeps.
unfoldable pub drain_round : ℕ → ℕ → ℕ → FlightTracker → Option (Option DrainError)
drain_round handle deadline now t =
    if in_flight_count handle t == 0
    then some none
    else if leb deadline now
    then some (some timeout)
    else none

-- The loop over what its rounds see, the time and the tracker; none if it still sleeps at the end.
unfoldable pub drain : ℕ → ℕ → List (ℕ × FlightTracker) → Option (Option DrainError)
drain handle deadline [] = none
drain handle deadline ((now, t) ∷ rounds) =
    let later = drain handle deadline rounds in
    elim (drain_round handle deadline now t) [ none ↦ later | some r ↦ some r ]
