-- ===== src/Scheduler/Continuous.antt =====
-- core-runtime/src/scheduler/continuous.rs: slots that requests join and leave between tokens.
pub mod Admission
pub mod Tests
use gg_core.Prelude.{
  ℕ, suc, ◌+◌, Bool, true, false, Option, none, some, List, [], ◌∷◌, ◌++◌, length, get_elem?,
  replicate, ◌==◌, ◌&&◌, if◌then◌else◌,
}

pub data RequestPhase : Type 0 where
  prefill decode complete : RequestPhase

pub record BatchSlot : Type 0 where
  pub request_id : ℕ
  pub phase : RequestPhase
  pub tokens_generated : ℕ
  pub max_tokens : ℕ
  pub prompt_len : ℕ

pub record PendingRequest : Type 0 where
  pub request_id : ℕ
  pub prompt_tokens : List ℕ
  pub max_tokens : ℕ

pub record ContinuousBatcher : Type 0 where
  pub slots : List (Option BatchSlot)
  pub pending : List PendingRequest

unfoldable pub new_slot : ℕ → ℕ → ℕ → BatchSlot
new_slot request_id prompt_len max_tokens = record {
  request_id = request_id;
  phase = prefill;
  tokens_generated = 0;
  max_tokens = max_tokens;
  prompt_len = prompt_len;
}

abbrev pub finish_prefill : BatchSlot → BatchSlot
finish_prefill s = record s { phase = decode }

abbrev pub record_token : BatchSlot → BatchSlot
record_token s = record s { tokens_generated = s.tokens_generated + 1 }

abbrev pub mark_complete : BatchSlot → BatchSlot
mark_complete s = record s { phase = complete }

abbrev pub is_complete_phase : RequestPhase → Bool
is_complete_phase prefill = false
is_complete_phase decode = false
is_complete_phase complete = true

abbrev pub is_complete : BatchSlot → Bool
is_complete s = is_complete_phase s.phase

unfoldable pub new : ℕ → ContinuousBatcher
new max_slots = record { slots = replicate max_slots none; pending = [] }

unfoldable pub enqueue : PendingRequest → ContinuousBatcher → ContinuousBatcher
enqueue request b = record b { pending = b.pending ++ request ∷ [] }

-- `BatchSlot::new` with the data of a pending request.
abbrev pub slot_for : PendingRequest → BatchSlot
slot_for req = new_slot req.request_id (length req.prompt_tokens) req.max_tokens

-- What the loop over the slots from `idx` on leaves: the slots, the admitted requests, those pending.
abbrev pub Pass : Type 0
Pass = List (Option BatchSlot) × (List (ℕ × PendingRequest) × List PendingRequest)

unfoldable pub admit_slots : ℕ → List (Option BatchSlot) → List PendingRequest → Pass
admit_slots idx [] pending = ([], ([], pending))
admit_slots idx (some slot ∷ slots) pending =
    let (slots', (admitted, left)) = admit_slots (idx + 1) slots pending in
    (some slot ∷ slots', (admitted, left))
admit_slots idx (none ∷ slots) [] =
    let (slots', (admitted, left)) = admit_slots (idx + 1) slots [] in
    (none ∷ slots', (admitted, left))
admit_slots idx (none ∷ slots) (req ∷ pending) =
    let (slots', (admitted, left)) = admit_slots (idx + 1) slots pending in
    (some (slot_for req) ∷ slots', ((idx, req) ∷ admitted, left))

unfoldable pub admit_pending : ContinuousBatcher → List (ℕ × PendingRequest) × ContinuousBatcher
unfolding admit_slots
admit_pending b =
    let (slots, (admitted, pending)) = admit_slots 0 b.slots b.pending in
    (admitted, record { slots = slots; pending = pending })

unfoldable pub evict_slots : List (Option BatchSlot) → List (Option BatchSlot) × List ℕ
evict_slots [] = ([], [])
evict_slots (none ∷ slots) = let (slots', evicted) = evict_slots slots in (none ∷ slots', evicted)
evict_slots (some s ∷ slots) =
    let (slots', evicted) = evict_slots slots in
    if is_complete s then (none ∷ slots', s.request_id ∷ evicted) else (some s ∷ slots', evicted)

unfoldable pub evict_completed : ContinuousBatcher → List ℕ × ContinuousBatcher
unfolding evict_slots
evict_completed b =
    let (slots, evicted) = evict_slots b.slots in (evicted, record b { slots = slots })

abbrev pub active_in : List (Option BatchSlot) → ℕ
active_in [] = 0
active_in (none ∷ slots) = active_in slots
active_in (some s ∷ slots) = suc (active_in slots)

unfoldable pub active_count : ContinuousBatcher → ℕ
active_count b = active_in b.slots

unfoldable pub pending_count : ContinuousBatcher → ℕ
pending_count b = length b.pending

unfoldable pub is_empty : ContinuousBatcher → Bool
unfolding active_count
is_empty b = (active_count b == 0) && (length b.pending == 0)
