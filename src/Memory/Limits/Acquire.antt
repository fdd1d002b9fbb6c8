-- ===== src/Memory/Limits/Acquire.antt =====
-- One `try_acquire` without another call between its steps (core-runtime/src/memory/limits.rs).
use gg_core.Prelude.{ℕ, ◌+◌, ◌≤◌, ◌<◌, ◌≡◌, ◌⊎◌, refl, inl, inr, arith, Bool-cases}
use gg_core.Memory.Paged.{word}
use gg_core.Memory.Limits.{
  ResourceLimits, InferenceError, ok, err, try_acquire, acquire_slot, is_too_large, exceeds_total,
  is_full, add_memory, sub_memory, add_slot, sub_slot,
}

abbrev pub Grants : ℕ → ResourceLimits → ResourceLimits → Type 0
Grants m l l' =
    (m ≤ l.config.max_memory_per_call)
    × (l.current_memory + m ≤ l.config.max_total_memory)
    × (l.current_concurrent < l.config.max_concurrent)
    × (l'.current_memory ≡ l.current_memory + m)
    × (l'.current_concurrent ≡ l.current_concurrent + 1)

abbrev pub Refuses : ResourceLimits → ResourceLimits → Type 0
Refuses l l' =
    (l'.config ≡ l.config)
    × (l'.current_memory ≡ l.current_memory)
    × (l'.current_concurrent ≡ l.current_concurrent)

-- A request that no counter overflows for gets its memory and a slot where all three limits leave
-- room for it; else it gets an error, and the counters are as before.
pub try_acquire_lem :
    (m : ℕ) (l : ResourceLimits)
    → l.current_memory + m < word
    → l.current_concurrent + 1 < word
    → let (r, l') = try_acquire m l in
      ((r ≡ ok m) × Grants m l l') ⊎ ((e : InferenceError) × (r ≡ err e) × Refuses l l')
unfolding try_acquire acquire_slot is_too_large exceeds_total is_full add_memory sub_memory add_slot
    sub_slot
try_acquire_lem m l room slot_room = elim (Bool-cases (is_too_large m l)) [
  | inl large ↦ rw (large, try_acquire) (inr (_, refl, (refl, refl, refl)))
  | inr small ↦ elim (Bool-cases (exceeds_total m l)) [
    | inl over ↦ rw (small, over, try_acquire) (inr (_, refl, (refl, omega (arith, room), refl)))
    | inr within ↦ elim (Bool-cases (is_full (add_memory m l))) [
      | inl full ↦
          rw (small, within, full, try_acquire, acquire_slot)
            (inr (_, refl, (refl, omega (arith, room), omega (arith, slot_room))))
      | inr free ↦
          rw (small, within, free, try_acquire, acquire_slot)
            (inl (
              refl,
              (
                ground (arith, small),
                ground (arith, within),
                ground (arith, free),
                omega (arith, room),
                omega (arith, slot_room),
              ),
            ))
    ]
  ]
]
