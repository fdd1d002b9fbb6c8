-- ===== src/Models/Swap/Reasons.antt =====
-- Why a swap ends as it does (core-runtime/src/models/swap.rs).
use gg_core.Prelude.{
  ℕ, ◌≡◌, refl, true, false, Option, none, some, List, String, Option-cases, Bool-cases, inl, inr,
}
use gg_core.Models.Router.{resolve}
use gg_core.Models.Drain.{FlightTracker, DrainError, timeout, drain}
use gg_core.Models.Swap.{
  ModelManifest, SwapManager, Result, SwapResult, ok, err, swap_in_progress, drain_timeout,
  route_not_found, preload_failed, validate_manifest, finish_swap, still_draining, swap_from,
  is_idle_state, execute_swap,
}

module _ {F C : Type 0} (zero_f : F) (now : ℕ) (model_id : String) (manifest : ModelManifest C)
    (deadline : ℕ) (rounds : List (ℕ × FlightTracker)) (s : SwapManager F) where
  -- The old handle, on a manager at rest and for a valid manifest, and how its drain ended.
  abbrev Drains : ℕ → Option (Option DrainError) → Type 0
  Drains old outcome =
      (is_idle_state s.state ≡ true)
      × (resolve model_id s.router ≡ some old)
      × (validate_manifest manifest ≡ none)
      × (drain old deadline rounds ≡ outcome)

  abbrev pub Because : Option (Result SwapResult) → Type 0
  Because none = (old : ℕ) × Drains old none
  Because (some (ok (old, new))) = Drains old (some none)
  Because (some (err swap_in_progress)) = is_idle_state s.state ≡ false
  Because (some (err drain_timeout)) = (old : ℕ) × Drains old (some (some timeout))
  Because (some (err (route_not_found id))) =
      (is_idle_state s.state ≡ true) × (id ≡ model_id) × (resolve model_id s.router ≡ none)
  Because (some (err (preload_failed e))) =
      (is_idle_state s.state ≡ true) × (validate_manifest manifest ≡ some e)

  drain-Because :
      (old new : ℕ) (loaded : SwapManager F) (outcome : Option (Option DrainError))
      → Drains old outcome
      → Because (still_draining model_id old new outcome loaded).0
  unfolding finish_swap
  drain-Because old new loaded none d = (old, d)
  drain-Because old new loaded (some none) d = d
  drain-Because old new loaded (some (some timeout)) d = (old, d)

  swap_from-Because :
      (old : ℕ)
      → is_idle_state s.state ≡ true
      → resolve model_id s.router ≡ some old
      → Because (swap_from zero_f now model_id manifest deadline rounds old s).0
  unfolding swap_from
  swap_from-Because old calm found = elim (Option-cases (validate_manifest manifest)) [
    | inr (e, invalid) ↦ rw (invalid, swap_from) (calm, invalid)
    | inl valid ↦
        rw (valid, swap_from)
          (drain-Because old _ _ (drain old deadline rounds) (calm, found, valid, refl))
  ]

  -- The result of a swap tells what happened: it is in progress elsewhere, the id has no route, the
  -- manifest is invalid, the drain of the old handle timed out, or that drain succeeded, and then
  -- the swap does; without a result the drain has not ended. One of these is always the case.
  pub execute_swap-Because : Because (execute_swap zero_f now model_id manifest deadline rounds s).0
  unfolding execute_swap
  execute_swap-Because = elim (Bool-cases (is_idle_state s.state)) [
    | inr taken ↦ rw (taken, execute_swap) taken
    | inl calm ↦ elim (Option-cases (resolve model_id s.router)) [
      | inl missing ↦ rw (calm, missing, execute_swap) (calm, refl, missing)
      | inr (old, found) ↦ rw (calm, found, execute_swap) (swap_from-Because old calm found)
    ]
  ]
