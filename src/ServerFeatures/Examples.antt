-- ===== src/ServerFeatures/Examples.antt =====
-- Policies of the local viewer.
use tokeninsights.Prelude.{String, ◌≡◌, refl, ◌↔◌, true, false, List, [], ◌∷◌, none, some}
use tokeninsights.ServerFeatures.{
  personal, is_known, has, first_unknown, check_dependencies, validate_policy, offered, without,
  disable, new_policy, new_local_viewer, new, known_from, known_capabilities, dashboards_alone,
}
use tokeninsights.ServerFeatures.Granted.{all_known, leaves_needed, new_policy_granted_lem}

functions : Unit {0}
unfolding is_known has first_unknown check_dependencies validate_policy offered without disable
    new_policy new_local_viewer new known_from known_capabilities
functions = tt

abbrev no_reload : List String
no_reload = "dashboard-reload" ∷ []

runs :
    ((new_local_viewer true no_reload).1 ≡ none)
    × ((new personal false ("usage" ∷ [])).1 ≡ some dashboards_alone)
    × (known_capabilities ("usage" ∷ "future" ∷ "usage" ∷ []) ≡ "usage" ∷ [])
unfolding functions
runs = (refl, refl, refl)

new_policy_granted_example :
    ((new_policy personal true true no_reload).1 ≡ none)
    ↔ ((personal ≡ personal) × (all_known no_reload ≡ true) × (leaves_needed true no_reload ≡ true))
new_policy_granted_example = new_policy_granted_lem personal true true no_reload
