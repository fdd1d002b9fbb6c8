-- ===== src/Models/Lifecycle/Tests.antt =====
-- Loading and unloading of two models.
use gg_core.Prelude.{ℕ, ◌≡◌, ◌↔◌, true, some, List, [], ◌∷◌, string_discrete, arith}
use gg_core.Prelude.HashMap.{get}
use gg_core.Models.Lifecycle.{new_lifecycle, get_handle, get_model_id, validate_handle}
use gg_core.Models.Lifecycle.Calls.{Call, load_model, unload_model, run, lookups_agree}

abbrev two_models : List (Call ℕ)
two_models =
    load_model 0 "a" (record { name = "A"; size_bytes = 3 }) 7
    ∷ load_model 1 "b" (record { name = "B"; size_bytes = 3 }) 8
    ∷ unload_model "a"
    ∷ load_model 2 "a" (record { name = "A"; size_bytes = 4 }) 9
    ∷ []

lookups_agree_example :
    let s = run {F = ℕ} {M = ℕ} 0 (λ m. m) new_lifecycle two_models in
    ((get_handle "a" s ≡ some 3) ↔ (get_model_id 3 s ≡ some "a"))
    × (get_handle "a" s ≡ some 3
        → (validate_handle 3 s ≡ true) × ((m : ℕ) × (get string_discrete "a" s.engine ≡ some m)))
lookups_agree_example = lookups_agree 0 (λ m. m) two_models "a" 3 (omega arith)
