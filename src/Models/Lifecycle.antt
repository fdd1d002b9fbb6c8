-- ===== src/Models/Lifecycle.antt =====
-- core-runtime/src/models/lifecycle.rs: loading and unloading of models in the registry, the engine
-- (the model table of engine/inference.rs) and the index in both directions. A loaded model is of
-- any type `M`; the calls hold the lock of the index throughout.
pub mod Coherence
pub mod Calls
pub mod Tests
use gg_core.Prelude.{
  ℕ, Bool, true, false, ◌&&◌, Option, none, some, List, [], ◌∷◌, length, String, string_discrete,
  ℕ_discrete, if◌then◌else◌,
}
use gg_core.Prelude.HashMap.{get, contains_key, insert, remove}
use gg_core.Models.Registry.{ModelRegistry, ModelMetadata, register, unregister, contains, new}

pub data LifecycleError : Type 0 where
  already_loaded not_loaded : String → LifecycleError

pub data Result (A : Type 0) : Type 0 where
  ok : A → Result A
  err : LifecycleError → Result A

pub record LookupIndex : Type 0 where
  pub id_to_handle : List (String × ℕ)
  pub handle_to_id : List (ℕ × String)

unfoldable pub index_insert : String → ℕ → LookupIndex → LookupIndex
index_insert model_id handle index = record {
  id_to_handle = insert string_discrete model_id handle index.id_to_handle;
  handle_to_id = insert ℕ_discrete handle model_id index.handle_to_id;
}

unfoldable pub remove_by_id : String → LookupIndex → Option ℕ × LookupIndex
remove_by_id model_id index = elim (get string_discrete model_id index.id_to_handle) [
  | none ↦ (none, index)
  | some handle ↦ (
    some handle,
    record {
      id_to_handle = remove string_discrete model_id index.id_to_handle;
      handle_to_id = remove ℕ_discrete handle index.handle_to_id;
    },
  )
]

unfoldable pub contains_id : String → LookupIndex → Bool
contains_id model_id index = contains_key string_discrete model_id index.id_to_handle

pub record ModelLifecycle (F M : Type 0) : Type 0 where
  pub registry : ModelRegistry F
  pub engine : List (String × M)
  pub index : LookupIndex

module _ {F M : Type 0} where
  unfoldable pub new_lifecycle : ModelLifecycle F M
  unfolding new
  new_lifecycle = record {
    registry = new;
    engine = [];
    index = record { id_to_handle = []; handle_to_id = [] };
  }

  unfoldable pub get_handle : String → ModelLifecycle F M → Option ℕ
  get_handle model_id s = get string_discrete model_id s.index.id_to_handle

  unfoldable pub get_model_id : ℕ → ModelLifecycle F M → Option String
  get_model_id handle_id s = get ℕ_discrete handle_id s.index.handle_to_id

  unfoldable pub is_loaded : String → ModelLifecycle F M → Bool
  unfolding contains_id
  is_loaded model_id s = contains_id model_id s.index

  unfoldable pub loaded_count : ModelLifecycle F M → ℕ
  loaded_count s = length s.index.id_to_handle

  unfoldable pub validate_handle : ℕ → ModelLifecycle F M → Bool
  unfolding contains
  validate_handle handle s =
      contains_key ℕ_discrete handle s.index.handle_to_id && contains handle s.registry

  -- `ModelRegistry::unregister`, `unregister_model` and `remove_by_id`.
  unfoldable pub unload_handle : String → ℕ → ModelLifecycle F M → ModelLifecycle F M
  unfolding unregister remove_by_id
  unload_handle model_id handle s = record {
    registry = (unregister handle s.registry).1;
    engine = remove string_discrete model_id s.engine;
    index = (remove_by_id model_id s.index).1;
  }

  unfoldable pub unload : String → ModelLifecycle F M → Result ℕ × ModelLifecycle F M
  unfolding unload_handle get_handle
  unload model_id s = elim (get_handle model_id s) [
    | none ↦ (err (not_loaded model_id), s)
    | some handle ↦ (ok handle, unload_handle model_id handle s)
  ]

module _ {F M : Type 0} (zero_f : F) (memory_usage : M → ℕ) where
  -- `register`, `register_model` and `LookupIndex::insert`.
  unfoldable pub load_new :
      ℕ → String → ModelMetadata → M → ModelLifecycle F M → Result ℕ × ModelLifecycle F M
  unfolding register index_insert
  load_new now model_id metadata model s =
      let (handle, registry) = register zero_f now metadata (memory_usage model) s.registry in
      (
        ok handle,
        record {
          registry = registry;
          engine = insert string_discrete model_id model s.engine;
          index = index_insert model_id handle s.index;
        },
      )

  unfoldable pub load :
      ℕ → String → ModelMetadata → M → ModelLifecycle F M → Result ℕ × ModelLifecycle F M
  unfolding load_new contains_id
  load now model_id metadata model s =
      if contains_id model_id s.index
      then (err (already_loaded model_id), s)
      else load_new now model_id metadata model s
