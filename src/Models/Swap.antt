-- ===== src/Models/Swap.antt =====
-- core-runtime/src/models/preload.rs and swap.rs: a model is loaded beside the one it replaces, the
-- requests of the old one are drained, and the route is switched. `C` stands for capabilities, and
-- the SHA-256 text is its bytes. What other tasks do to the counters while a swap drains is in the
-- rounds that the drain sees; the registry and the routes change in no other way meanwhile.
pub mod Outcome
pub mod Reasons
use gg_core.Prelude.{
  ℕ, ◌+◌, Bool, true, false, Option, none, some, List, [], ◌∷◌, length, String, string_discrete,
  ◌==◌, if◌then◌else◌,
}
use gg_core.Models.Registry.{ModelRegistry, ModelMetadata, register, unregister}
use gg_core.Models.Router.{resolve, swap_route}
use gg_core.Models.Drain.{FlightTracker, DrainError, timeout, drain, forget}

-- The fields that the preloader reads.
pub record ModelManifest (C : Type 0) : Type 0 where
  pub model_id : String
  pub name : String
  pub capabilities : List C
  pub sha256 : List ℕ
  pub size_bytes : ℕ

-- The messages are those of the source.
pub data PreloadError : Type 0 where
  manifest_invalid : String → PreloadError

pub data SwapError : Type 0 where
  route_not_found : String → SwapError
  swap_in_progress drain_timeout : SwapError
  preload_failed : PreloadError → SwapError

pub data SwapState : Type 0 where
  idle preparing draining swapping : SwapState

pub data Result (A : Type 0) : Type 0 where
  ok : A → Result A
  err : SwapError → Result A

abbrev pub is_empty_text : String → Bool
is_empty_text s = elim (string_discrete s "") [ yes _ ↦ true | no _ ↦ false ]

module _ {C : Type 0} where
  -- The error, if there is one.
  unfoldable pub validate_manifest : ModelManifest C → Option PreloadError
  validate_manifest manifest =
      if is_empty_text manifest.model_id
      then some (manifest_invalid "model_id cannot be empty")
      else if length manifest.sha256 == 64
      then (if length manifest.capabilities == 0
          then some (manifest_invalid "capabilities cannot be empty")
          else none)
      else some (manifest_invalid "sha256 must be 64 hex characters")

pub record SwapManager (F : Type 0) : Type 0 where
  pub state : SwapState
  pub registry : ModelRegistry F
  pub router : List (String × ℕ)
  pub flight_tracker : FlightTracker

-- The old and the new handle.
abbrev pub SwapResult : Type 0
SwapResult = ℕ × ℕ

abbrev pub is_idle_state : SwapState → Bool
is_idle_state idle = true
is_idle_state _ = false

-- The tracker at the last round that a drain sees.
abbrev pub last_seen : List (ℕ × FlightTracker) → FlightTracker → FlightTracker
last_seen [] t = t
last_seen ((now, t') ∷ rounds) t = last_seen rounds t'

module _ {F : Type 0} where
  -- The end of a drain: switch the route and clear up, or give the new model up.
  unfoldable pub finish_swap :
      String → ℕ → ℕ → Option DrainError → SwapManager F → Result SwapResult × SwapManager F
  finish_swap model_id old new (some timeout) s =
      (err drain_timeout, record s { state = idle; registry = (unregister new s.registry).1 })
  finish_swap model_id old new none s = (
    ok (old, new),
    record {
      state = idle;
      registry = (unregister old s.registry).1;
      router = (swap_route model_id new s.router).1;
      flight_tracker = forget old s.flight_tracker;
    },
  )

  abbrev pub still_draining :
      String
      → ℕ
      → ℕ
      → Option (Option DrainError)
      → SwapManager F
      → Option (Result SwapResult) × SwapManager F
  still_draining model_id old new none s = (none, record s { state = draining })
  still_draining model_id old new (some e) s =
      let (r, s') = finish_swap model_id old new e s in (some r, s')

module _ {F C : Type 0} (zero_f : F) where
  -- What `preload` registers once the manifest is valid.
  unfoldable pub preload_valid : ℕ → ModelManifest C → ModelRegistry F → ℕ × ModelRegistry F
  preload_valid now manifest registry =
      register zero_f now (record { name = manifest.name; size_bytes = manifest.size_bytes })
        manifest.size_bytes registry

  unfoldable pub swap_from :
      ℕ
      → String
      → ModelManifest C
      → ℕ
      → List (ℕ × FlightTracker)
      → ℕ
      → SwapManager F
      → Option (Result SwapResult) × SwapManager F
  unfolding finish_swap
  swap_from now model_id manifest deadline rounds old s = elim (validate_manifest manifest) [
    | some e ↦ (some (err (preload_failed e)), s)
    | none ↦
        let (new, registry) = preload_valid now manifest s.registry in
        still_draining model_id old new (drain old deadline rounds)
          (record s { registry = registry; flight_tracker = last_seen rounds s.flight_tracker })
  ]

  -- The result, or none while the swap still drains after the rounds.
  unfoldable pub execute_swap :
      ℕ
      → String
      → ModelManifest C
      → ℕ
      → List (ℕ × FlightTracker)
      → SwapManager F
      → Option (Result SwapResult) × SwapManager F
  unfolding swap_from
  execute_swap now model_id manifest deadline rounds s =
      if is_idle_state s.state
      then elim (resolve model_id s.router) [
        | none ↦ (some (err (route_not_found model_id)), s)
        | some old ↦ swap_from now model_id manifest deadline rounds old s
      ]
      else (some (err swap_in_progress), s)
