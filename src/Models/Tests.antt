-- ===== src/Models/Tests.antt =====
-- Routes, registered models and requests in flight.
use gg_core.Prelude.{
  ℕ, ◌≡◌, ◌⊎◌, refl, subst, none, some, List, [], ◌∷◌, ℕ_discrete, String, true, replicate,
  string_discrete,
}
use gg_core.Prelude.HashMap.{get, insert, contains_key, get-insert_self}
use gg_core.Models.Registry.{ModelRegistry, ModelMetadata, register_with_format, contains, new}
use gg_core.Models.Router.{resolve}
use gg_core.Models.Swap.{SwapManager, ModelManifest, execute_swap, idle as at_rest}
use gg_core.Models.Swap.Reasons.{Because, execute_swap-Because}
use gg_core.Models.Swap.Outcome.{Ends, execute_swap-Ends}
use gg_core.Models.Drain.{FlightTracker, drain}
use gg_core.Models.Drain.Flight.{drain_lem, Decides}

abbrev routes : List (String × ℕ)
routes = ("a", 1) ∷ []

abbrev name_a : String
name_a = "a"

abbrev email : ModelMetadata
email = record { name = "email"; size_bytes = 9 }

abbrev one_model : ModelRegistry ℕ
one_model = (register_with_format 0 3 email 40 "gguf" new).1

abbrev busy : FlightTracker
busy = record { in_flight = (1, 0) ∷ []; counters = 2 ∷ [] }

abbrev idle : FlightTracker
idle = record { in_flight = (1, 0) ∷ []; counters = 0 ∷ [] }

drain_lem_example :
    let result = drain 1 50 ((10, busy) ∷ (20, idle) ∷ []) in
    (result ≡ none) ⊎ Decides 1 50 ((10, busy) ∷ (20, idle) ∷ []) result
drain_lem_example = drain_lem 1 50 ((10, busy) ∷ (20, idle) ∷ [])

abbrev manager : SwapManager ℕ
manager = record {
  state = at_rest;
  registry = one_model;
  router = insert string_discrete "email" 1 [];
  flight_tracker = busy;
}

abbrev second_version : ModelManifest ℕ
second_version = record {
  model_id = "email-2";
  name = "email";
  capabilities = 0 ∷ [];
  sha256 = replicate 64 97;
  size_bytes = 8;
}

one_is_loaded : contains 1 one_model ≡ true
unfolding contains contains_key get register_with_format new insert ℕ_discrete
one_is_loaded = refl

email_route : (h : ℕ) → resolve "email" manager.router ≡ some h → contains h manager.registry ≡ true
unfolding resolve
email_route h e =
    let one : 1 ≡ h = cc (e, get-insert_self {V = ℕ} string_discrete "email" 1 []) in
    subst (λ k. contains k one_model ≡ true) one one_is_loaded

execute_swap-Ends_example :
    let (r, s') =
      execute_swap 0 2 "email" second_version 50 ((10, busy) ∷ (20, idle) ∷ []) manager in
    Ends "email" manager r s'
unfolding contains contains_key get register_with_format new insert ℕ_discrete
execute_swap-Ends_example =
    execute_swap-Ends 0 2 "email" second_version 50 ((10, busy) ∷ (20, idle) ∷ []) manager refl
      email_route

execute_swap-Because_example :
    Because 0 2 "email" second_version 50
      ((10, busy) ∷ (20, idle) ∷ [])
      manager
      (execute_swap 0 2 "email" second_version 50 ((10, busy) ∷ (20, idle) ∷ []) manager).0
execute_swap-Because_example =
    execute_swap-Because 0 2 "email" second_version 50 ((10, busy) ∷ (20, idle) ∷ []) manager
