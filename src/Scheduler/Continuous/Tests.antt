-- ===== src/Scheduler/Continuous/Tests.antt =====
-- A batcher of three slots, of which the first is complete.
use gg_core.Prelude.{ℕ, ◌+◌, ◌≡◌, ◌⊎◌, [], ◌∷◌, ◌++◌, All, none, some, length, get_elem?}
use gg_core.Scheduler.Continuous.{
  BatchSlot, PendingRequest, ContinuousBatcher, complete, decode, admit_pending, evict_completed,
  active_in,
}
use gg_core.Scheduler.Continuous.Admission.{requests, Joins, admit_pending_lem, evict_completed_lem}

abbrev done : BatchSlot
done = record {
  request_id = 4;
  phase = complete;
  tokens_generated = 2;
  max_tokens = 9;
  prompt_len = 1;
}

abbrev running : BatchSlot
running = record {
  request_id = 5;
  phase = decode;
  tokens_generated = 2;
  max_tokens = 9;
  prompt_len = 1;
}

abbrev request : ℕ → PendingRequest
request id = record { request_id = id; prompt_tokens = 1 ∷ []; max_tokens = 3 }

abbrev three_slots : ContinuousBatcher
three_slots = record {
  slots = some done ∷ none ∷ some running ∷ [];
  pending = request 6 ∷ request 7 ∷ [];
}

admit_pending_lem_example :
    let (admitted, b') = admit_pending three_slots in
    (requests admitted ++ b'.pending ≡ request 6 ∷ request 7 ∷ [])
    × All (Joins three_slots.slots b'.slots 0) admitted
    × ((k : ℕ) (s : BatchSlot)
        → get_elem? three_slots.slots k ≡ some (some s)
        → get_elem? b'.slots k ≡ some (some s))
    × (active_in b'.slots ≡ 2 + length admitted)
    × (length b'.slots ≡ 3)
    × ((b'.pending ≡ []) ⊎ (active_in b'.slots ≡ 3))
admit_pending_lem_example = admit_pending_lem three_slots

evict_completed_lem_example :
    let (evicted, b') = evict_completed three_slots in
    (b'.slots ≡ none ∷ none ∷ some running ∷ [])
    × (evicted ≡ 4 ∷ [])
    × (b'.pending ≡ three_slots.pending)
    × (2 ≡ active_in b'.slots + length evicted)
evict_completed_lem_example = evict_completed_lem three_slots
