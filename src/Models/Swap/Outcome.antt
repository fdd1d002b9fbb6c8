-- ===== src/Models/Swap/Outcome.antt =====
-- How a swap ends (core-runtime/src/models/swap.rs).
use gg_core.Prelude.{
  ℕ, ◌≡◌, ◌≢◌, refl, sym, ◌∙◌, true, false, Option, none, some, List, String, string_discrete,
  ℕ_discrete, Option-cases, Bool-cases, inl, inr, arith,
}
use gg_core.Prelude.HashMap.{
  get, insert, remove, get-insert_self, get-remove_self, get-remove_ne, contains_key-none,
  contains_key-some, contains_key-get, remove_absent,
}
use gg_core.Models.Registry.{LoadedModel, register, register_with_format, unregister, contains}
use gg_core.Models.Router.{resolve, swap_route}
use gg_core.Models.Drain.{FlightTracker, DrainError, timeout, drain}
use gg_core.Models.Swap.{
  ModelManifest, SwapManager, SwapState, Result, SwapResult, ok, err, idle, preparing, draining,
  swapping, validate_manifest, preload_valid, finish_swap, still_draining, swap_from, is_idle_state,
  execute_swap,
}

idle_state : (state : SwapState) → is_idle_state state ≡ true → state ≡ idle
idle_state idle h = refl
idle_state preparing h = cc h
idle_state draining h = cc h
idle_state swapping h = cc h

module _ {F : Type 0} (model_id : String) (s : SwapManager F) where
  -- A swap that gave up: nothing is routed or loaded that was not before.
  abbrev pub GivesUp : SwapManager F → Type 0
  GivesUp s' =
      (s'.router ≡ s.router) × (s'.registry.models ≡ s.registry.models) × (s'.state ≡ s.state)

  abbrev pub Ends : Option (Result SwapResult) → SwapManager F → Type 0
  Ends none s' = (s'.router ≡ s.router) × (s'.state ≡ draining)
  Ends (some (err e)) s' = GivesUp s'
  Ends (some (ok (old, new))) s' =
      (resolve model_id s.router ≡ some old)
      × (resolve model_id s'.router ≡ some new)
      × (contains new s'.registry ≡ true)
      × (contains old s'.registry ≡ false)
      × (s'.state ≡ idle)

  module _ (old new next : ℕ) (m : LoadedModel F) (t : FlightTracker)
      (routed : resolve model_id s.router ≡ some old) (calm : s.state ≡ idle) (apart : old ≢ new)
      (free : get ℕ_discrete new s.registry.models ≡ none) where
    abbrev loaded : SwapManager F
    loaded = record s {
      registry = record { models = insert ℕ_discrete new m s.registry.models; next_id = next };
      flight_tracker = t;
    }

    given_up : remove ℕ_discrete new (insert ℕ_discrete new m s.registry.models) ≡ s.registry.models
    unfolding insert remove
    given_up = ground (
      arith,
      remove_absent ℕ_discrete new s.registry.models free,
      remove_absent ℕ_discrete new (remove ℕ_discrete new s.registry.models)
          (get-remove_self ℕ_discrete new s.registry.models),
    )

    kept :
        get ℕ_discrete new (remove ℕ_discrete old (insert ℕ_discrete new m s.registry.models))
        ≡ some m
    kept =
        get-remove_ne ℕ_discrete old new (insert ℕ_discrete new m s.registry.models) apart
        ∙ get-insert_self ℕ_discrete new m s.registry.models

    still_draining-Ends :
        (e : Option (Option DrainError))
        → let (r, s') = still_draining model_id old new e loaded in Ends r s'
    unfolding finish_swap unregister swap_route resolve contains
    still_draining-Ends none = (refl, refl)
    still_draining-Ends (some (some timeout)) = (refl, given_up, sym calm)
    still_draining-Ends (some none) = (
      routed,
      get-insert_self string_discrete model_id new s.router,
      contains_key-some ℕ_discrete new _ m kept,
      contains_key-none ℕ_discrete old _ (get-remove_self ℕ_discrete old _),
      refl,
    )

module _ {F C : Type 0} (zero_f : F) (now : ℕ) (model_id : String) (manifest : ModelManifest C)
    (deadline : ℕ) (rounds : List (ℕ × FlightTracker)) where
  swap_from-Ends :
      (old : ℕ) (s : SwapManager F)
      → contains s.registry.next_id s.registry ≡ false
      → contains old s.registry ≡ true
      → resolve model_id s.router ≡ some old
      → s.state ≡ idle
      → let (r, s') = swap_from zero_f now model_id manifest deadline rounds old s in
        Ends model_id s r s'
  unfolding swap_from preload_valid register register_with_format contains
  swap_from-Ends old s free known routed calm = elim (Option-cases (validate_manifest manifest)) [
    | inr (e, invalid) ↦ rw (invalid, swap_from) (refl, refl, refl)
    | inl valid ↦
        rw (valid, swap_from)
          (still_draining-Ends model_id s old s.registry.next_id _ _ _ routed calm
            (λ same. cc (same, free, known))
            (contains_key-get ℕ_discrete s.registry.next_id s.registry.models free)
            (drain old deadline rounds))
  ]

  -- A swap on a registry whose next handle is free, for an id whose route leads to a loaded model,
  -- ends in one of three ways. On success the id is routed from the old handle to the new one, which
  -- is loaded, and the old one is not. On an error the routes, the loaded models and the state are
  -- as before. Else it still drains, with the routes as before.
  pub execute_swap-Ends :
      (s : SwapManager F)
      → contains s.registry.next_id s.registry ≡ false
      → ((h : ℕ) → resolve model_id s.router ≡ some h → contains h s.registry ≡ true)
      → let (r, s') = execute_swap zero_f now model_id manifest deadline rounds s in
        Ends model_id s r s'
  unfolding execute_swap
  execute_swap-Ends s free routed = elim (Bool-cases (is_idle_state s.state)) [
    | inr taken ↦ rw (taken, execute_swap) (refl, refl, refl)
    | inl calm ↦ elim (Option-cases (resolve model_id s.router)) [
      | inl missing ↦ rw (calm, missing, execute_swap) (refl, refl, refl)
      | inr (old, found) ↦
          rw (calm, found, execute_swap)
            (swap_from-Ends old s free (routed old found) found (idle_state s.state calm))
    ]
  ]
