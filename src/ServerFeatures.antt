-- ===== src/ServerFeatures.antt =====
-- packages/core/serverfeatures/features.go: the capabilities that a server grants.
pub mod Granted
pub mod Known
mod Examples
use tokeninsights.Prelude.{
  String, Bool, true, false, not, ◌&&◌, ◌||◌, List, [], ◌∷◌, ◌++◌, Option, none, some, ◌==◌,
  string_eq, one_of, if◌then◌else◌,
}
use tokeninsights.Prelude.Results.{Result, ok, err}

abbrev pub personal : String
personal = "personal"

pub data PolicyError : Type 0 where
  unsupported_kind dashboards_alone reload_alone : PolicyError
  unknown_capability unknown_disabled : String → PolicyError

pub record Policy : Type 0 where
  pub kind : String
  pub capabilities : List String

abbrev pub capability_names : List String
capability_names =
    "usage" ∷ "facets" ∷ "web-dashboard" ∷ "dashboard-reload" ∷ "terminal-dashboard"
    ∷ "collector-progress" ∷ []

-- `Capability.Known`
unfoldable pub is_known : String → Bool
is_known c = one_of capability_names c

-- `Capabilities.Has` and `Permissions.Has`
unfoldable pub has : List String → String → Bool
has [] want = false
has (c ∷ cs) want = let rest = has cs want in if c == want then true else rest

-- The loop of `Capabilities.Known`.
unfoldable pub known_from : List String → List String → List String
known_from result [] = result
known_from result (c ∷ cs) =
    known_from (if is_known c && not (has result c) then result ++ c ∷ [] else result) cs

unfoldable pub known_capabilities : List String → List String
known_capabilities cs = known_from [] cs

-- The loop of `Policy.Validate`.
unfoldable pub first_unknown : List String → Option String
first_unknown [] = none
first_unknown (c ∷ cs) = let rest = first_unknown cs in if is_known c then rest else some c

unfoldable pub check_dependencies : List String → Option PolicyError
check_dependencies cs =
    if (has cs "terminal-dashboard" || has cs "web-dashboard")
      && (not (has cs "usage") || not (has cs "facets"))
    then some dashboards_alone
    else if has cs "dashboard-reload" && (not (has cs "web-dashboard") || not (has cs "usage"))
    then some reload_alone
    else none

-- `Policy.Validate`; none for nil.
unfoldable pub validate_policy : Policy → Option PolicyError
validate_policy p =
    if not (p.kind == personal)
    then some unsupported_kind
    else elim (first_unknown p.capabilities) [
      | some c ↦ some (unknown_capability c)
      | none ↦ check_dependencies p.capabilities
    ]

-- The capabilities of a kind before any is disabled.
unfoldable pub offered : String → Bool → Bool → List String
offered kind collector_progress dashboard_reload =
    ("usage" ∷ "facets" ∷ "web-dashboard" ∷ [])
    ++ ((if dashboard_reload then "dashboard-reload" ∷ [] else [])
        ++ (if kind == personal
            then "terminal-dashboard"
              ∷ (if collector_progress then "collector-progress" ∷ [] else [])
            else []))

unfoldable pub without : String → List String → List String
without c [] = []
without c (existing ∷ rest) =
    let kept = without c rest in if not (existing == c) then existing ∷ kept else kept

unfoldable pub disable : List String → List String → Result PolicyError (List String)
disable cs [] = ok cs
disable cs (c ∷ more) =
    let rest = disable (without c cs) more in
    if not (is_known c) then err (unknown_disabled c) else rest

abbrev pub validated : Policy → Policy × Option PolicyError
validated p = (p, validate_policy p)

-- What `newPolicy` returns of the capabilities left.
abbrev pub completed : String → Result PolicyError (List String) → Policy × Option PolicyError
completed kind (err e) = (record { kind = ""; capabilities = [] }, some e)
completed kind (ok cs) = validated (record { kind = kind; capabilities = cs })

-- `newPolicy`: the policy stands beside the error of its validation.
unfoldable pub new_policy : String → Bool → Bool → List String → Policy × Option PolicyError
new_policy kind collector_progress dashboard_reload disabled =
    completed kind (disable (offered kind collector_progress dashboard_reload) disabled)

-- `New`
unfoldable pub new : String → Bool → List String → Policy × Option PolicyError
new kind collector_progress disabled = new_policy kind collector_progress false disabled

unfoldable pub new_local_viewer : Bool → List String → Policy × Option PolicyError
new_local_viewer collector_progress disabled = new_policy personal collector_progress true disabled
