-- ===== src/Memory/Limits/Tests.antt =====
-- Two calls under limits that leave room for one.
use gg_core.Prelude.{◌≤◌, ◌≡◌, refl, [], ◌∷◌, length, arith}
use gg_core.Memory.Limits.{
  ResourceLimits, ResourceLimitsConfig, Calls, Step, Steps, start, new, is_too_large, exceeds_total,
  is_full, add_memory, add_slot,
}
use gg_core.Memory.Limits.Safety.{sum, limits_hold}

abbrev tight : ResourceLimitsConfig
tight = record { max_memory_per_call = 10; max_total_memory = 12; max_concurrent = 1 }

abbrev one_call : Calls
one_call = record {
  limits = add_slot (add_memory 8 (new tight));
  reserved = [];
  giving_back = [];
  giving_slot_back = [];
  guards = 8 ∷ [];
  leaving = 0;
}

path : Steps (start tight) one_call
unfolding is_too_large exceeds_total is_full new add_memory
path =
    Steps.next (Steps.next Steps.done (Step.reserve 8 refl refl (omega arith)))
      (Step.take_slot [] [] 8 refl refl (omega arith))

limits_hold_example :
    (sum one_call.guards ≤ 12)
    × (length one_call.guards ≤ 1)
    × (one_call.reserved ≡ []
        → one_call.giving_back ≡ []
        → one_call.giving_slot_back ≡ []
        → one_call.leaving ≡ 0
        → (one_call.limits.current_memory ≡ sum one_call.guards)
          × (one_call.limits.current_concurrent ≡ length one_call.guards))
limits_hold_example = limits_hold tight path

abbrev used : ResourceLimits
used = record { config = tight; current_memory = 8; current_concurrent = 1 }
