-- ===== src/Memory/Limits/Safety.antt =====
-- The limits hold in every interleaving (core-runtime/src/memory/limits.rs).
use gg_core.Prelude.{
  ℕ, ◌+◌, ◌≤◌, ◌<◌, ◌≡◌, refl, ap, ◌∙◌, false, List, [], ◌∷◌, ◌++◌, length, arith, length-append,
}
use gg_core.Memory.Paged.{word}
use gg_core.Memory.Limits.{
  ResourceLimitsConfig, ResourceLimits, Calls, Step, Steps, start, new, exceeds_total, is_full,
  add_memory, sub_memory, add_slot, sub_slot,
}

abbrev pub sum : List ℕ → ℕ
sum [] = 0
sum (x ∷ xs) = x + sum xs

sum-append : (xs ys : List ℕ) → sum (xs ++ ys) ≡ sum xs + sum ys
sum-append [] ys = omega arith
sum-append (x ∷ xs) ys = omega (arith, sum-append xs ys)

-- Taking one element out.
sum-taken :
    {xs : List ℕ} (before after : List ℕ) (m : ℕ)
    → xs ≡ before ++ m ∷ after
    → sum xs ≡ sum (before ++ after) + m
sum-taken before after m e =
    ap sum e ∙ omega (arith, sum-append before (m ∷ after), sum-append before after)

length-taken :
    {xs : List ℕ} (before after : List ℕ) (m : ℕ)
    → xs ≡ before ++ m ∷ after
    → length xs ≡ length (before ++ after) + 1
length-taken before after m e =
    ap length e ∙ omega (arith, length-append before (m ∷ after), length-append before after)

pub record IsTracked (config : ResourceLimitsConfig) (c : Calls) : Type 0 where
  pub same_config : c.limits.config ≡ config
  pub memory :
      c.limits.current_memory
      ≡ sum c.reserved + sum c.giving_back + sum c.giving_slot_back + sum c.guards
  pub slots : c.limits.current_concurrent ≡ length c.giving_slot_back + length c.guards + c.leaving
  pub memory_word : c.limits.current_memory < word
  pub slots_word : c.limits.current_concurrent < word
  pub within : sum c.reserved + sum c.guards ≤ config.max_total_memory
  pub few : length c.guards + c.leaving ≤ config.max_concurrent

total_left :
    (m : ℕ) (l : ResourceLimits)
    → exceeds_total m l ≡ false
    → l.current_memory + m < word
    → l.current_memory + m ≤ l.config.max_total_memory
unfolding exceeds_total
total_left m l h room = ground arith

slot_left :
    (l : ResourceLimits) → is_full l ≡ false → l.current_concurrent < l.config.max_concurrent
unfolding is_full
slot_left l h = ground arith

module _ (config : ResourceLimitsConfig) where
  Step-IsTracked : {c d : Calls} → Step c d → IsTracked config c → IsTracked config d
  unfolding add_memory sub_memory add_slot sub_slot
  Step-IsTracked (Step.reserve {c} m small fits room) v =
      let left = total_left m c.limits fits room in
      let cap = ap (λ k. k.max_total_memory) v.same_config in
      record {
        same_config = v.same_config;
        memory = omega (arith, v.memory, room);
        slots = v.slots;
        memory_word = omega (arith, room);
        slots_word = v.slots_word;
        within = omega (arith, left, cap, v.memory);
        few = v.few;
      }
  Step-IsTracked (Step.exceed m small over room) v = record {
    same_config = v.same_config;
    memory = omega (arith, v.memory, room);
    slots = v.slots;
    memory_word = omega (arith, room);
    slots_word = v.slots_word;
    within = v.within;
    few = v.few;
  }
  Step-IsTracked (Step.give_back before after m e) v =
      let taken = sum-taken before after m e in
      record {
        same_config = v.same_config;
        memory = omega (arith, v.memory, taken, v.memory_word);
        slots = v.slots;
        memory_word = omega arith;
        slots_word = v.slots_word;
        within = v.within;
        few = v.few;
      }
  Step-IsTracked (Step.take_slot {c} before after m e free room) v =
      let taken = sum-taken before after m e in
      let left = slot_left c.limits free in
      let cap = ap (λ k. k.max_concurrent) v.same_config in
      record {
        same_config = v.same_config;
        memory = omega (arith, v.memory, taken);
        slots = omega (arith, v.slots, room);
        memory_word = v.memory_word;
        slots_word = omega arith;
        within = omega (arith, v.within, taken);
        few = omega (arith, left, cap, v.slots);
      }
  Step-IsTracked (Step.miss_slot before after m e full room) v =
      let taken = sum-taken before after m e in
      record {
        same_config = v.same_config;
        memory = omega (arith, v.memory, taken);
        slots = omega (arith, v.slots, room);
        memory_word = v.memory_word;
        slots_word = omega arith;
        within = omega (arith, v.within, taken);
        few = v.few;
      }
  Step-IsTracked (Step.give_slot_back before after m e) v =
      let taken = sum-taken before after m e in
      let one = length-taken before after m e in
      record {
        same_config = v.same_config;
        memory = omega (arith, v.memory, taken);
        slots = omega (arith, v.slots, one, v.slots_word);
        memory_word = v.memory_word;
        slots_word = omega arith;
        within = v.within;
        few = v.few;
      }
  Step-IsTracked (Step.drop_memory before after m e) v =
      let taken = sum-taken before after m e in
      let one = length-taken before after m e in
      record {
        same_config = v.same_config;
        memory = omega (arith, v.memory, taken, v.memory_word);
        slots = omega (arith, v.slots, one);
        memory_word = omega arith;
        slots_word = v.slots_word;
        within = omega (arith, v.within, taken);
        few = omega (arith, v.few, one);
      }
  Step-IsTracked (Step.drop_slot n e) v = record {
    same_config = v.same_config;
    memory = v.memory;
    slots = omega (arith, v.slots, e, v.slots_word);
    memory_word = v.memory_word;
    slots_word = omega arith;
    within = v.within;
    few = omega (arith, v.few, e);
  }

  pub steps-IsTracked : {c : Calls} → Steps (start config) c → IsTracked config c
  unfolding new
  steps-IsTracked Steps.done = record {
    same_config = refl;
    memory = refl;
    slots = refl;
    memory_word = omega arith;
    slots_word = omega arith;
    within = omega arith;
    few = omega arith;
  }
  steps-IsTracked (Steps.next path step) = Step-IsTracked step (steps-IsTracked path)

  -- In every interleaving of the steps of calls and drops, the guards hold at most the total memory
  -- and are at most the allowed number; and when no call is under way, the counters are exactly what
  -- the guards hold.
  pub limits_hold :
      {c : Calls}
      → Steps (start config) c
      → (sum c.guards ≤ config.max_total_memory)
        × (length c.guards ≤ config.max_concurrent)
        × (c.reserved ≡ []
            → c.giving_back ≡ []
            → c.giving_slot_back ≡ []
            → c.leaving ≡ 0
            → (c.limits.current_memory ≡ sum c.guards)
              × (c.limits.current_concurrent ≡ length c.guards))
  limits_hold path =
      let v = steps-IsTracked path in
      (
        omega (arith, v.within),
        omega (arith, v.few),
        λ a b d e. (
          omega (arith, v.memory, ap sum a, ap sum b, ap sum d),
          omega (arith, v.slots, ap length d, e),
        ),
      )
