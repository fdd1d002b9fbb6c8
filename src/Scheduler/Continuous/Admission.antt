-- ===== src/Scheduler/Continuous/Admission.antt =====
-- Joining and leaving the continuous batch (core-runtime/src/scheduler/continuous.rs).
use gg_core.Prelude.{
  ℕ, zero, suc, ◌+◌, ◌≡◌, refl, ap, ◌⊎◌, inl, inr, Option, none, some, List, [], ◌∷◌, ◌++◌, map,
  length, get_elem?, arith, All, Bool-cases, if◌then◌else◌,
}
use gg_core.Scheduler.Continuous.{
  BatchSlot, PendingRequest, ContinuousBatcher, Pass, slot_for, is_complete, admit_slots,
  admit_pending, evict_slots, evict_completed, active_in,
}

abbrev pub requests : List (ℕ × PendingRequest) → List PendingRequest
requests [] = []
requests ((i, r) ∷ xs) = r ∷ requests xs

-- An admitted request sat in no slot before and has a new slot now.
abbrev pub Joins :
    List (Option BatchSlot) → List (Option BatchSlot) → ℕ → ℕ × PendingRequest → Type 0
Joins before after base (i, r) =
    (k : ℕ) × (i ≡ base + k)
    × (get_elem? before k ≡ some none)
    × (get_elem? after k ≡ some (some (slot_for r)))

record Admits (idx : ℕ) (slots : List (Option BatchSlot)) (pending : List PendingRequest) (p : Pass)
    : Type 0 where
  in_order : requests p.1.0 ++ p.1.1 ≡ pending
  joined : All (Joins slots p.0 idx) p.1.0
  kept :
      (k : ℕ) (s : BatchSlot) → get_elem? slots k ≡ some (some s) → get_elem? p.0 k ≡ some (some s)
  counted : active_in p.0 ≡ active_in slots + length p.1.0
  same_length : length p.0 ≡ length slots
  full : (p.1.1 ≡ []) ⊎ (active_in p.0 ≡ length slots)

All-shift :
    (before after : List (Option BatchSlot)) (a b : Option BatchSlot) (idx : ℕ)
    (admitted : List (ℕ × PendingRequest))
    → All (Joins before after (idx + 1)) admitted
    → All (Joins (a ∷ before) (b ∷ after) idx) admitted
All-shift before after a b idx [] all = tt
All-shift before after a b idx ((i, r) ∷ xs) ((k, e, was, now), all) =
    ((suc k, omega arith, was, now), All-shift before after a b idx xs all)

kept_front :
    (a b : Option BatchSlot) (before after : List (Option BatchSlot))
    → ((s : BatchSlot) → a ≡ some s → b ≡ some s)
    → ((k : ℕ) (s : BatchSlot)
        → get_elem? before k ≡ some (some s)
        → get_elem? after k ≡ some (some s))
    → (k : ℕ) (s : BatchSlot) → get_elem? (a ∷ before) k ≡ some (some s)
    → get_elem? (b ∷ after) k ≡ some (some s)
kept_front a b before after here rest zero s e = ap some (here s (cc e))
kept_front a b before after here rest (suc k) s e = rest k s e

-- A slot that stays as it is, in front of a pass over the rest.
passed :
    (idx : ℕ) (slot : Option BatchSlot) (slots : List (Option BatchSlot))
    (pending : List PendingRequest) (p : Pass)
    → (slot ≡ none → p.1.1 ≡ [])
    → Admits (idx + 1) slots pending p
    → Admits idx (slot ∷ slots) pending (slot ∷ p.0, p.1)
passed idx none slots pending p stuck a = record {
  in_order = a.in_order;
  joined = All-shift slots p.0 none none idx p.1.0 a.joined;
  kept = kept_front none none slots p.0 (λ s e. e) a.kept;
  counted = a.counted;
  same_length = omega (arith, a.same_length);
  full = inl (stuck refl);
}
passed idx (some x) slots pending p stuck a = record {
  in_order = a.in_order;
  joined = All-shift slots p.0 (some x) (some x) idx p.1.0 a.joined;
  kept = kept_front (some x) (some x) slots p.0 (λ s e. e) a.kept;
  counted = omega (arith, a.counted);
  same_length = omega (arith, a.same_length);
  full = let f = a.full in ground arith;
}

left_empty : (xs ys : List PendingRequest) → xs ++ ys ≡ [] → ys ≡ []
left_empty [] ys h = h
left_empty (x ∷ xs) ys h = cc h

filled :
    (idx : ℕ) (slots : List (Option BatchSlot)) (req : PendingRequest)
    (pending : List PendingRequest) (p : Pass)
    → Admits (idx + 1) slots pending p
    → Admits idx
        (none ∷ slots)
        (req ∷ pending)
        (some (slot_for req) ∷ p.0, ((idx, req) ∷ p.1.0, p.1.1))
filled idx slots req pending p a = record {
  in_order = ap (◌∷◌ req) a.in_order;
  joined = (
    (0, omega arith, refl, refl),
    All-shift slots p.0 none (some (slot_for req)) idx p.1.0 a.joined,
  );
  kept = kept_front none (some (slot_for req)) slots p.0 (λ s e. cc e) a.kept;
  counted = omega (arith, a.counted);
  same_length = omega (arith, a.same_length);
  full = let f = a.full in ground arith;
}

admit_slots-Admits :
    (idx : ℕ) (slots : List (Option BatchSlot)) (pending : List PendingRequest)
    → Admits idx slots pending (admit_slots idx slots pending)
unfolding admit_slots
admit_slots-Admits idx [] pending = record {
  in_order = refl;
  joined = tt;
  kept = λ k s e. e;
  counted = refl;
  same_length = refl;
  full = inr refl;
}
admit_slots-Admits idx (some x ∷ slots) pending =
    passed idx (some x) slots pending _ (λ e. cc e) (admit_slots-Admits (idx + 1) slots pending)
admit_slots-Admits idx (none ∷ slots) [] =
    let a = admit_slots-Admits (idx + 1) slots [] in
    passed idx none slots [] _
      (λ e. left_empty (requests (admit_slots (idx + 1) slots []).1.0) _ a.in_order) a
admit_slots-Admits idx (none ∷ slots) (req ∷ pending) =
    filled idx slots req pending _ (admit_slots-Admits (idx + 1) slots pending)

-- Admission takes requests from the front of the queue in order, each into a slot that was free and
-- is set up for it; occupied slots keep their requests, the count of active slots grows by the
-- number admitted, and at the end no request is pending or every slot is occupied.
pub admit_pending_lem :
    (b : ContinuousBatcher)
    → let (admitted, b') = admit_pending b in
      (requests admitted ++ b'.pending ≡ b.pending)
      × All (Joins b.slots b'.slots 0) admitted
      × ((k : ℕ) (s : BatchSlot)
          → get_elem? b.slots k ≡ some (some s)
          → get_elem? b'.slots k ≡ some (some s))
      × (active_in b'.slots ≡ active_in b.slots + length admitted)
      × (length b'.slots ≡ length b.slots)
      × ((b'.pending ≡ []) ⊎ (active_in b'.slots ≡ length b.slots))
unfolding admit_pending
admit_pending_lem b =
    let a = admit_slots-Admits 0 b.slots b.pending in
    (a.in_order, a.joined, a.kept, a.counted, a.same_length, a.full)

-- A slot after eviction: emptied where its request is complete, else as it was.
abbrev pub evicted_slot : Option BatchSlot → Option BatchSlot
evicted_slot none = none
evicted_slot (some s) = if is_complete s then none else some s

abbrev pub complete_ids : List (Option BatchSlot) → List ℕ
complete_ids [] = []
complete_ids (none ∷ slots) = complete_ids slots
complete_ids (some s ∷ slots) =
    let rest = complete_ids slots in if is_complete s then s.request_id ∷ rest else rest

evict_slots_lem :
    (slots : List (Option BatchSlot))
    → let (slots', evicted) = evict_slots slots in
      (slots' ≡ map evicted_slot slots)
      × (evicted ≡ complete_ids slots)
      × (active_in slots ≡ active_in slots' + length evicted)
unfolding evict_slots
evict_slots_lem [] = (refl, refl, refl)
evict_slots_lem (none ∷ slots) = let (a, b, c) = evict_slots_lem slots in (ap (◌∷◌ none) a, b, c)
evict_slots_lem (some s ∷ slots) =
    let (a, b, c) = evict_slots_lem slots in
    elim (Bool-cases (is_complete s)) [
      | inl e ↦ rw e (ap (◌∷◌ none) a, ap (◌∷◌ s.request_id) b, omega (arith, c))
      | inr e ↦ rw e (ap (◌∷◌ (some s)) a, b, omega (arith, c))
    ]

-- Eviction empties exactly the slots whose request is complete, returns their ids in the order of the
-- slots, leaves the pending requests, and the active slots are those left and those evicted.
pub evict_completed_lem :
    (b : ContinuousBatcher)
    → let (evicted, b') = evict_completed b in
      (b'.slots ≡ map evicted_slot b.slots)
      × (evicted ≡ complete_ids b.slots)
      × (b'.pending ≡ b.pending)
      × (active_in b.slots ≡ active_in b'.slots + length evicted)
unfolding evict_completed
evict_completed_lem b = let (a, c, d) = evict_slots_lem b.slots in (a, c, refl, d)
