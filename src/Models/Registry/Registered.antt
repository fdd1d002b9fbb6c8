-- ===== src/Models/Registry/Registered.antt =====
-- Registering a model and giving it back (core-runtime/src/models/registry.rs).
use gg_core.Prelude.{
  ℕ, suc, ◌+◌, ◌≡◌, ◌∙◌, ap, false, none, some, List, length, ℕ_discrete, String, arith,
}
use gg_core.Prelude.HashMap.{
  remove, insert, get-insert_self, contains_key-get, remove_absent, get-remove_self,
}
use gg_core.Models.Registry.{
  ModelRegistry, ModelMetadata, register_with_format, unregister, contains, get_metadata,
  total_memory, count, memory_of, LoadedModel,
}

module _ {F : Type 0} (zero_f : F) where
  remove-insert :
      (k : ℕ) (m : LoadedModel F) (ms : List (ℕ × LoadedModel F))
      → remove ℕ_discrete k (insert ℕ_discrete k m ms) ≡ remove ℕ_discrete k ms
  unfolding insert remove
  remove-insert k m ms =
      ground (
        arith,
        remove_absent ℕ_discrete k (remove ℕ_discrete k ms) (get-remove_self ℕ_discrete k ms),
      )

  -- A model that is registered under a free handle is found there with its metadata, adds its memory
  -- to the total and one to the count; unregistering it returns its memory and leaves the models
  -- that were there before.
  pub register-unregister :
      (now memory_bytes : ℕ) (metadata : ModelMetadata) (format : String) (r : ModelRegistry F)
      → contains r.next_id r ≡ false
      → let (h, after) = register_with_format zero_f now metadata memory_bytes format r in
        let (bytes, left) = unregister h after in
        (get_metadata h after ≡ some metadata)
        × (total_memory after ≡ memory_bytes + total_memory r)
        × (count after ≡ count r + 1)
        × (bytes ≡ some memory_bytes)
        × (left.models ≡ r.models)
  unfolding register_with_format unregister contains get_metadata total_memory count insert
  register-unregister now memory_bytes metadata format r free =
      let absent = contains_key-get ℕ_discrete r.next_id r.models free in
      let same = remove_absent ℕ_discrete r.next_id r.models absent in
      let k = r.next_id in
      let found = get-insert_self ℕ_discrete k _ r.models in
      (
        ap (λ o. elim o [ none ↦ none | some m ↦ some m.metadata ]) found,
        ap (λ ms. memory_bytes + memory_of ms) same,
        length_more (ap length same),
        ap (λ o. elim o [ none ↦ none | some m ↦ some m.memory_bytes ]) found,
        remove-insert k _ r.models ∙ same,
      )
    where
      length_more : {a b : ℕ} → a ≡ b → suc a ≡ b + 1
      length_more e = omega (arith, e)
