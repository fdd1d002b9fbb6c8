-- ===== src/Models/Router.antt =====
-- core-runtime/src/models/router.rs: the routes from model ids to handles.
use gg_core.Prelude.{
  ℕ, ◌≡◌, ◌≢◌, refl, Bool, Option, none, some, List, [], length, String, string_discrete,
  if◌then◌else◌, Bool-cases, Option-cases, inl, inr, ◌⊎◌,
}
use gg_core.Prelude.HashMap.{
  get, contains_key, insert, remove, get-insert_self, get-insert_ne, get-remove_self, get-remove_ne,
  contains_key-none, contains_key-some,
}

pub data RouterError : Type 0 where
  route_exists : String → RouterError

abbrev pub Routes : Type 0
Routes = List (String × ℕ)

unfoldable pub new : Routes
new = []

unfoldable pub resolve : String → Routes → Option ℕ
resolve model_id routes = get string_discrete model_id routes

-- The error, if there is one.
unfoldable pub add_route : String → ℕ → Routes → Option RouterError × Routes
add_route model_id handle routes =
    if contains_key string_discrete model_id routes
    then (some (route_exists model_id), routes)
    else (none, insert string_discrete model_id handle routes)

unfoldable pub swap_route : String → ℕ → Routes → Option ℕ × Routes
swap_route model_id new_handle routes =
    (get string_discrete model_id routes, insert string_discrete model_id new_handle routes)

unfoldable pub remove_route : String → Routes → Option ℕ × Routes
remove_route model_id routes =
    (get string_discrete model_id routes, remove string_discrete model_id routes)

abbrev pub list_routes : Routes → Routes
list_routes routes = routes

unfoldable pub has_route : String → Routes → Bool
has_route model_id routes = contains_key string_discrete model_id routes

unfoldable pub route_count : Routes → ℕ
route_count routes = length routes

added :
    (id : String) (h : ℕ) (routes : Routes)
    → let (error, after) = add_route id h routes in
      ((error ≡ none) × (resolve id routes ≡ none) × (resolve id after ≡ some h))
      ⊎ ((error ≡ some (route_exists id)) × (resolve id routes ≢ none) × (after ≡ routes))
unfolding resolve add_route
added id h routes = elim (Option-cases (get string_discrete id routes)) [
  | inl e ↦
      rw (contains_key-none string_discrete id routes e, add_route)
        (inl (refl, e, get-insert_self string_discrete id h routes))
  | inr (old, e) ↦
      rw (contains_key-some string_discrete id routes old e, add_route)
        (inr (refl, λ f. cc (e, f), refl))
]

added_other :
    (id other : String) (h : ℕ) (routes : Routes)
    → id ≢ other
    → resolve other (add_route id h routes).1 ≡ resolve other routes
unfolding resolve add_route
added_other id other h routes ne = elim (Bool-cases (contains_key string_discrete id routes)) [
  | inl e ↦ rw (e, add_route)
  | inr e ↦ rw (e, add_route) (get-insert_ne string_discrete id other h routes ne)
]

-- Resolving an id after the routes of another id, or of the same, changed: an added route resolves
-- unless there was one, which then stays; a swap always takes hold and returns the handle before it;
-- a removed route resolves no more; other ids resolve as before.
pub resolve_lem :
    (id other : String) (h : ℕ) (routes : Routes)
    → let (error, added) = add_route id h routes in
      let (before, swapped) = swap_route id h routes in
      let (gone, left) = remove_route id routes in
      (((error ≡ none) × (resolve id routes ≡ none) × (resolve id added ≡ some h))
        ⊎ ((error ≡ some (route_exists id)) × (resolve id routes ≢ none) × (added ≡ routes)))
      × (before ≡ resolve id routes)
      × (resolve id swapped ≡ some h)
      × (gone ≡ resolve id routes)
      × (resolve id left ≡ none)
      × (id ≢ other
          → (resolve other added ≡ resolve other routes)
            × (resolve other swapped ≡ resolve other routes)
            × (resolve other left ≡ resolve other routes))
unfolding resolve swap_route remove_route
resolve_lem id other h routes = (
  added id h routes,
  refl,
  get-insert_self string_discrete id h routes,
  refl,
  get-remove_self string_discrete id routes,
  λ ne. (
    added_other id other h routes ne,
    get-insert_ne string_discrete id other h routes ne,
    get-remove_ne string_discrete id other routes ne,
  ),
)
