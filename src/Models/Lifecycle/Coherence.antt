-- ===== src/Models/Lifecycle/Coherence.antt =====
-- The index, the registry and the engine agree (core-runtime/src/models/lifecycle.rs).
use gg_core.Prelude.{
  ℕ, ◌+◌, ◌%◌, ◌<◌, ◌≡◌, ◌≢◌, refl, sym, subst, ◌∙◌, none, some, String, string_discrete,
  ℕ_discrete, arith, inl, inr, Option-cases,
}
use gg_core.Prelude.HashMap.{
  get, insert, remove, get-insert_self, get-insert_ne, get-remove_self, get-remove_ne,
  contains_key-none, contains_key-some,
}
use gg_core.Models.Registry.{LoadedModel, ModelMetadata, register, unregister, u64}
use gg_core.Models.Lifecycle.{
  ModelLifecycle, new_lifecycle, get_handle, unload_handle, unload, load_new, load, index_insert,
  remove_by_id, contains_id,
}

module _ {F M : Type 0} where
  -- What an id with a handle has: the handle leads back, the registry and the engine have the model.
  abbrev pub Serves : ModelLifecycle F M → String → ℕ → Type 0
  Serves s id h =
      (get ℕ_discrete h s.index.handle_to_id ≡ some id)
      × (h < s.registry.next_id)
      × ((m : LoadedModel F) × (get ℕ_discrete h s.registry.models ≡ some m))
      × ((m : M) × (get string_discrete id s.engine ≡ some m))

  pub record IsCoherent (s : ModelLifecycle F M) : Type 0 where
    pub forward :
        (id : String) (h : ℕ) → get string_discrete id s.index.id_to_handle ≡ some h → Serves s id h
    pub backward :
        (h : ℕ) (id : String)
        → get ℕ_discrete h s.index.handle_to_id ≡ some id
        → get string_discrete id s.index.id_to_handle ≡ some h

  pub new-IsCoherent : IsCoherent new_lifecycle
  unfolding new_lifecycle get
  new-IsCoherent = record { forward = λ id h e. cc e; backward = λ h id e. cc e }

  -- The state without a model.
  abbrev without : String → ℕ → ModelLifecycle F M → ModelLifecycle F M
  without id h s = record {
    registry = record s.registry { models = remove ℕ_discrete h s.registry.models };
    engine = remove string_discrete id s.engine;
    index = record {
      id_to_handle = remove string_discrete id s.index.id_to_handle;
      handle_to_id = remove ℕ_discrete h s.index.handle_to_id;
    };
  }

  -- The state with a model more.
  abbrev extended : String → ℕ → LoadedModel F → M → ℕ → ModelLifecycle F M → ModelLifecycle F M
  extended id h m model next s = record {
    registry = record { models = insert ℕ_discrete h m s.registry.models; next_id = next };
    engine = insert string_discrete id model s.engine;
    index = record {
      id_to_handle = insert string_discrete id h s.index.id_to_handle;
      handle_to_id = insert ℕ_discrete h id s.index.handle_to_id;
    };
  }

  module _ (id : String) (h : ℕ) (s : ModelLifecycle F M) (v : IsCoherent s) where
    without_forward :
        get string_discrete id s.index.id_to_handle ≡ some h
        → (q : String) (k : ℕ)
        → get string_discrete q (remove string_discrete id s.index.id_to_handle) ≡ some k
        → Serves (without id h s) q k
    without_forward here q k e = elim (string_discrete id q) [
      | yes same ↦ absurd (cc (same, e, get-remove_self string_discrete id s.index.id_to_handle))
      | no other ↦
          let old = sym (get-remove_ne string_discrete id q s.index.id_to_handle other) ∙ e in
          let (back, below, (m, kept), (model, served)) = v.forward q k old in
          let (mine, _, _, _) = v.forward id h here in
          let apart : h ≢ k = λ same. other (cc (same, mine, back)) in
          (
            get-remove_ne ℕ_discrete h k s.index.handle_to_id apart ∙ back,
            below,
            (m, get-remove_ne ℕ_discrete h k s.registry.models apart ∙ kept),
            (model, get-remove_ne string_discrete id q s.engine other ∙ served),
          )
    ]

    without_backward :
        get string_discrete id s.index.id_to_handle ≡ some h
        → (k : ℕ) (q : String)
        → get ℕ_discrete k (remove ℕ_discrete h s.index.handle_to_id) ≡ some q
        → get string_discrete q (remove string_discrete id s.index.id_to_handle) ≡ some k
    without_backward here k q e = elim (ℕ_discrete h k) [
      | yes same ↦ absurd (cc (same, e, get-remove_self ℕ_discrete h s.index.handle_to_id))
      | no other ↦
          let old = sym (get-remove_ne ℕ_discrete h k s.index.handle_to_id other) ∙ e in
          let found = v.backward k q old in
          get-remove_ne string_discrete id q s.index.id_to_handle
            (λ same. other (cc (same, here, found)))
          ∙ found
    ]

    extended_forward :
        (m : LoadedModel F) (model : M)
        → h ≡ s.registry.next_id
        → (q : String) (k : ℕ)
        → get string_discrete q (insert string_discrete id h s.index.id_to_handle) ≡ some k
        → Serves (extended id h m model (h + 1) s) q k
    extended_forward m model next q k e = elim (string_discrete id q) [
      | yes same ↦
          let mine : h ≡ k =
            cc (same, e, get-insert_self string_discrete id h s.index.id_to_handle) in
          rw⁻¹ (same, mine)
            (
              get-insert_self ℕ_discrete h id s.index.handle_to_id,
              omega arith,
              (m, get-insert_self ℕ_discrete h m s.registry.models),
              (model, get-insert_self string_discrete id model s.engine),
            )
      | no other ↦
          let old = sym (get-insert_ne string_discrete id q h s.index.id_to_handle other) ∙ e in
          let (back, below, (m', kept), (model', served)) = v.forward q k old in
          let apart : h ≢ k = λ same. omega (arith, same, next, below) in
          (
            get-insert_ne ℕ_discrete h k id s.index.handle_to_id apart ∙ back,
            omega (arith, next, below),
            (m', get-insert_ne ℕ_discrete h k m s.registry.models apart ∙ kept),
            (model', get-insert_ne string_discrete id q model s.engine other ∙ served),
          )
    ]

    extended_backward :
        get string_discrete id s.index.id_to_handle ≡ none
        → (k : ℕ) (q : String)
        → get ℕ_discrete k (insert ℕ_discrete h id s.index.handle_to_id) ≡ some q
        → get string_discrete q (insert string_discrete id h s.index.id_to_handle) ≡ some k
    extended_backward free k q e = elim (ℕ_discrete h k) [
      | yes same ↦
          let mine : id ≡ q = cc (same, e, get-insert_self ℕ_discrete h id s.index.handle_to_id) in
          rw⁻¹ (mine, same) (get-insert_self string_discrete id h s.index.id_to_handle)
      | no other ↦
          let old = sym (get-insert_ne ℕ_discrete h k id s.index.handle_to_id other) ∙ e in
          let found = v.backward k q old in
          get-insert_ne string_discrete id q h s.index.id_to_handle (λ same. cc (same, free, found))
          ∙ found
    ]

  unload_handle-without :
      (id : String) (h : ℕ) (s : ModelLifecycle F M)
      → get string_discrete id s.index.id_to_handle ≡ some h
      → unload_handle id h s ≡ without id h s
  unfolding unload_handle unregister remove_by_id
  unload_handle-without id h s e = rw (e, remove_by_id, unload_handle)

  pub unload-IsCoherent :
      (id : String) (s : ModelLifecycle F M) → IsCoherent s → IsCoherent (unload id s).1
  unfolding unload get_handle
  unload-IsCoherent id s v = elim (Option-cases (get string_discrete id s.index.id_to_handle)) [
    | inl e ↦ rw (e, unload) v
    | inr (h, e) ↦
        rw (e, unload)
          (subst IsCoherent (sym (unload_handle-without id h s e)) (record {
            forward = without_forward id h s v e;
            backward = without_backward id h s v e;
          }))
  ]

module _ {F M : Type 0} (zero_f : F) (usage : M → ℕ) where
  pub load-IsCoherent :
      (now : ℕ) (id : String) (metadata : ModelMetadata) (model : M) (s : ModelLifecycle F M)
      → s.registry.next_id + 1 < u64
      → IsCoherent s
      → IsCoherent (load zero_f usage now id metadata model s).1
  unfolding load load_new register contains_id index_insert
  load-IsCoherent now id metadata model s room v =
      elim (Option-cases (get string_discrete id s.index.id_to_handle)) [
        | inr (h, e) ↦ rw (contains_key-some string_discrete id s.index.id_to_handle h e, load) v
        | inl e ↦
            rw (contains_key-none string_discrete id s.index.id_to_handle e, load)
              (rw next (record {
                forward = extended_forward id s.registry.next_id s v _ model refl;
                backward = extended_backward id s.registry.next_id s v e;
              }))
      ]
    where
      next : (s.registry.next_id + 1) % u64 ≡ s.registry.next_id + 1
      next = omega (arith, room)
