-- ===== src/Models/Registry.antt =====
-- core-runtime/src/models/registry.rs, and preload.rs on top of it. `F` stands for the floating point
-- numbers of the latencies, with zero and addition. A handle is its number.
pub mod Registered
use gg_core.Prelude.{
  ℕ, zero, suc, ◌+◌, ◌%◌, ◌^◌, Bool, true, false, Option, none, some, List, [], ◌∷◌, map, length,
  ℕ_discrete, String, ◌==◌, if◌then◌else◌,
}
use gg_core.Prelude.HashMap.{get, contains_key, insert, remove, modify}

abbrev pub u64 : ℕ
u64 = 2 ^ 64

pub data LoadedModelState : Type 0 where
  loading is_ready unloading failed : LoadedModelState

unfoldable pub as_str : LoadedModelState → String
as_str loading = "loading"
as_str is_ready = "ready"
as_str unloading = "unloading"
as_str failed = "error"

pub record ModelMetadata : Type 0 where
  pub name : String
  pub size_bytes : ℕ

pub record LoadedModel (F : Type 0) : Type 0 where
  pub metadata : ModelMetadata
  pub memory_bytes : ℕ
  pub format : String
  pub state : LoadedModelState
  pub request_count : ℕ
  pub total_latency_ms : F
  pub loaded_at : ℕ

pub record LoadedModelInfo (F : Type 0) : Type 0 where
  pub handle_id : ℕ
  pub name : String
  pub format : String
  pub size_bytes : ℕ
  pub memory_bytes : ℕ
  pub state : LoadedModelState
  pub request_count : ℕ
  pub total_latency_ms : F
  pub loaded_at : ℕ

pub record ModelRegistry (F : Type 0) : Type 0 where
  pub models : List (ℕ × LoadedModel F)
  pub next_id : ℕ

module _ {F : Type 0} where
  unfoldable pub new : ModelRegistry F
  new = record { models = []; next_id = 1 }

  unfoldable pub contains : ℕ → ModelRegistry F → Bool
  contains handle r = contains_key ℕ_discrete handle r.models

  unfoldable pub get_metadata : ℕ → ModelRegistry F → Option ModelMetadata
  get_metadata handle r = elim (get ℕ_discrete handle r.models) [
    | none ↦ none
    | some m ↦ some m.metadata
  ]

  unfoldable pub unregister : ℕ → ModelRegistry F → Option ℕ × ModelRegistry F
  unregister handle r = (
    elim (get ℕ_discrete handle r.models) [ none ↦ none | some m ↦ some m.memory_bytes ],
    record r { models = remove ℕ_discrete handle r.models },
  )

  abbrev pub memory_of : List (ℕ × LoadedModel F) → ℕ
  memory_of [] = 0
  memory_of ((h, m) ∷ ms) = m.memory_bytes + memory_of ms

  unfoldable pub total_memory : ModelRegistry F → ℕ
  total_memory r = memory_of r.models

  unfoldable pub count : ModelRegistry F → ℕ
  count r = length r.models

  abbrev pub info : ℕ × LoadedModel F → LoadedModelInfo F
  info (handle, model) = record {
    handle_id = handle;
    name = model.metadata.name;
    format = model.format;
    size_bytes = model.metadata.size_bytes;
    memory_bytes = model.memory_bytes;
    state = model.state;
    request_count = model.request_count;
    total_latency_ms = model.total_latency_ms;
    loaded_at = model.loaded_at;
  }

  unfoldable pub list_models : ModelRegistry F → List (LoadedModelInfo F)
  list_models r = map info r.models

  unfoldable pub set_state : ℕ → LoadedModelState → ModelRegistry F → ModelRegistry F
  set_state handle state r = record r {
    models = modify ℕ_discrete handle (λ m. record m { state = state }) r.models;
  }

module _ {F : Type 0} (add : F → F → F) where
  -- The loop around the compare-and-exchange ends with the sum.
  unfoldable pub record_request : ℕ → F → ModelRegistry F → ModelRegistry F
  record_request handle latency_ms r = record r {
    models = modify ℕ_discrete handle counted r.models;
  }
    where
      counted : LoadedModel F → LoadedModel F
      counted m = record m {
        request_count = (m.request_count + 1) % u64;
        total_latency_ms = add m.total_latency_ms latency_ms;
      }

module _ {F : Type 0} (zero_f : F) where
  unfoldable pub register_with_format :
      ℕ → ModelMetadata → ℕ → String → ModelRegistry F → ℕ × ModelRegistry F
  register_with_format now metadata memory_bytes format r = (
    r.next_id,
    record { models = insert ℕ_discrete r.next_id model r.models; next_id = (r.next_id + 1) % u64 },
  )
    where
      model : LoadedModel F
      model = record {
        metadata = metadata;
        memory_bytes = memory_bytes;
        format = format;
        state = is_ready;
        request_count = 0;
        total_latency_ms = zero_f;
        loaded_at = now;
      }

  unfoldable pub register : ℕ → ModelMetadata → ℕ → ModelRegistry F → ℕ × ModelRegistry F
  unfolding register_with_format
  register now metadata memory_bytes r = register_with_format now metadata memory_bytes "unknown" r
