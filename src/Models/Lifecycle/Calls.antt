-- ===== src/Models/Lifecycle/Calls.antt =====
-- Sequences of loads and unloads (core-runtime/src/models/lifecycle.rs).
use gg_core.Prelude.{
  ℕ, ◌+◌, ◌≤◌, ◌<◌, ◌≡◌, ◌↔◌, true, some, List, [], ◌∷◌, length, String, string_discrete,
  ℕ_discrete, arith, inl, inr, Option-cases, Bool-cases,
}
use gg_core.Prelude.HashMap.{get, contains_key-some}
use gg_core.Models.Registry.{ModelMetadata, LoadedModel, register, unregister, contains, u64}
use gg_core.Models.Lifecycle.{
  ModelLifecycle, new_lifecycle, get_handle, get_model_id, validate_handle, unload_handle, unload,
  load_new, load, contains_id,
}
use gg_core.Models.Lifecycle.Coherence.{
  IsCoherent, Serves, new-IsCoherent, load-IsCoherent, unload-IsCoherent,
}

-- The calls that change the state.
pub data Call (M : Type 0) : Type 0 where
  load_model : ℕ → String → ModelMetadata → M → Call M
  unload_model : String → Call M

module _ {F M : Type 0} (zero_f : F) (usage : M → ℕ) where
  abbrev pub step : ModelLifecycle F M → Call M → ModelLifecycle F M
  step s (load_model now id metadata model) = (load zero_f usage now id metadata model s).1
  step s (unload_model id) = (unload id s).1

  abbrev pub run : ModelLifecycle F M → List (Call M) → ModelLifecycle F M
  run s [] = s
  run s (c ∷ cs) = run (step s c) cs

  next_id-step :
      (c : Call M) (s : ModelLifecycle F M)
      → s.registry.next_id + 1 < u64
      → (step s c).registry.next_id ≤ s.registry.next_id + 1
  unfolding load load_new register unload unload_handle unregister get_handle
  next_id-step (load_model now id metadata model) s room =
      elim (Bool-cases (contains_id id s.index)) [
        | inl e ↦ rw (e, step, load) (omega arith)
        | inr e ↦ rw (e, step, load) (omega (arith, room))
      ]
  next_id-step (unload_model id) s room =
      elim (Option-cases (get string_discrete id s.index.id_to_handle)) [
        | inl e ↦ rw (e, step, unload) (omega arith)
        | inr (h, e) ↦ rw (e, step, unload) (omega arith)
      ]

  step-IsCoherent :
      (c : Call M) (s : ModelLifecycle F M)
      → s.registry.next_id + 1 < u64
      → IsCoherent s
      → IsCoherent (step s c)
  step-IsCoherent (load_model now id metadata model) s room v =
      load-IsCoherent zero_f usage now id metadata model s room v
  step-IsCoherent (unload_model id) s room v = unload-IsCoherent id s v

  run-IsCoherent :
      (cs : List (Call M)) (s : ModelLifecycle F M)
      → s.registry.next_id + length cs < u64
      → IsCoherent s
      → IsCoherent (run s cs)
  run-IsCoherent [] s room v = v
  run-IsCoherent (c ∷ cs) s room v =
      run-IsCoherent cs (step s c) (omega (arith, room, next_id-step c s (omega (arith, room))))
        (step-IsCoherent c s (omega (arith, room)) v)

  validate_handle-known :
      (h : ℕ) (id : String) (m : LoadedModel F) (s : ModelLifecycle F M)
      → get ℕ_discrete h s.index.handle_to_id ≡ some id
      → get ℕ_discrete h s.registry.models ≡ some m
      → validate_handle h s ≡ true
  unfolding validate_handle contains
  validate_handle-known h id m s back kept =
      rw (contains_key-some ℕ_discrete h s.index.handle_to_id id back)
        (contains_key-some ℕ_discrete h s.registry.models m kept)

  -- After fewer than 2^64 - 1 loads and unloads, whatever they return, an id has a handle exactly
  -- where the handle has the id, and then the handle is valid and the engine has a model for the id.
  pub lookups_agree :
      (cs : List (Call M)) (id : String) (h : ℕ)
      → length cs + 1 < u64
      → let s = run new_lifecycle cs in
        ((get_handle id s ≡ some h) ↔ (get_model_id h s ≡ some id))
        × (get_handle id s ≡ some h
            → (validate_handle h s ≡ true) × ((m : M) × (get string_discrete id s.engine ≡ some m)))
  unfolding get_handle get_model_id
  lookups_agree cs id h room =
      ((λ e. (v.forward id h e).0, v.backward h id), λ e. valid (v.forward id h e))
    where
      v : IsCoherent (run new_lifecycle cs)
      v =
          run-IsCoherent cs new_lifecycle (unfold new_lifecycle in omega (arith, room))
            new-IsCoherent

      valid :
          Serves (run new_lifecycle cs) id h
          → (validate_handle h (run new_lifecycle cs) ≡ true)
            × ((m : M) × (get string_discrete id (run new_lifecycle cs).engine ≡ some m))
      valid (back, below, (m, kept), served) =
          (validate_handle-known h id m (run new_lifecycle cs) back kept, served)
