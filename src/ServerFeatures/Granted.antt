-- ===== src/ServerFeatures/Granted.antt =====
-- `newPolicy`: which requests are granted, and with what.
use tokeninsights.Prelude.{
  String, ◌≡◌, refl, ◌↔◌, Bool, true, false, not, ◌&&◌, ◌||◌, List, [], ◌∷◌, ◌==◌, arith, eq_iff,
  Option, none, inl, inr, Bool-cases, string_eq,
}
use tokeninsights.Prelude.Results.{ok, err}
use tokeninsights.ServerFeatures.{
  Policy, PolicyError, personal, is_known, has, first_unknown, check_dependencies, validate_policy,
  offered, completed, without, disable, new_policy,
}

has-without :
    (c : String) (cs : List String) (w : String) → has (without c cs) w ≡ has cs w && not (c == w)
unfolding has without
has-without c [] w = refl
has-without c (x ∷ xs) w = ground (arith, has-without c xs w, eq_iff x c, eq_iff x w, eq_iff c w)

first_unknown-without :
    (c : String) (cs : List String) → first_unknown cs ≡ none → first_unknown (without c cs) ≡ none
unfolding first_unknown without
first_unknown-without c [] h = refl
first_unknown-without c (x ∷ xs) h = ground (arith, first_unknown-without c xs)

abbrev pub all_known : List String → Bool
all_known [] = true
all_known (c ∷ cs) = is_known c && all_known cs

-- The capabilities that are left of `cs` when `ds` are disabled.
record IsLeft (cs ds kept : List String) : Type 0 where
  members : (w : String) → has kept w ≡ has cs w && not (has ds w)
  known : first_unknown cs ≡ none → first_unknown kept ≡ none

IsLeft-cons :
    (cs : List String) (c : String) (ds kept : List String)
    → IsLeft (without c cs) ds kept
    → IsLeft cs (c ∷ ds) kept
unfolding has
IsLeft-cons cs c ds kept l = record {
  members = λ w. ground (arith, l.members w, has-without c cs w);
  known = λ h. l.known (first_unknown-without c cs h);
}

disable-IsLeft :
    (cs ds : List String)
    → all_known ds ≡ true
    → (kept : List String) × (disable cs ds ≡ ok kept) × IsLeft cs ds kept
unfolding disable has
disable-IsLeft cs [] h = (cs, refl, record { members = λ w. ground arith; known = λ k. k })
disable-IsLeft cs (c ∷ ds) h =
    let (kept, e, l) = disable-IsLeft (without c cs) ds (ground arith) in
    (kept, ground arith, IsLeft-cons cs c ds kept l)

disable-unknown : (cs ds : List String) → all_known ds ≡ false → (e : _) × (disable cs ds ≡ err e)
unfolding disable
disable-unknown cs [] h = cc
disable-unknown cs (c ∷ ds) h = elim (Bool-cases (is_known c)) [
  | inl k ↦ rw k (disable-unknown (without c cs) ds (ground arith))
  | inr k ↦ rw k (_, refl)
]

-- Whether what is disabled leaves every dashboard and reload with what it needs.
abbrev pub leaves_needed : Bool → List String → Bool
leaves_needed reload ds =
    (has ds "terminal-dashboard" && has ds "web-dashboard"
      || not (has ds "usage") && not (has ds "facets"))
    && (not reload
        || has ds "dashboard-reload"
        || not (has ds "web-dashboard") && not (has ds "usage"))

offered-known :
    (kind : String) (progress reload : Bool) → first_unknown (offered kind progress reload) ≡ none
unfolding first_unknown offered is_known
offered-known kind progress true = elim (Bool-cases (kind == personal)) [
  | inl e ↦ rw e (progress_known progress)
  | inr e ↦ rw e
]
  where
    progress_known : (p : Bool) → first_unknown (offered personal p true) ≡ none
    progress_known true = refl
    progress_known false = refl
offered-known kind progress false = elim (Bool-cases (kind == personal)) [
  | inl e ↦ rw e (progress_known progress)
  | inr e ↦ rw e
]
  where
    progress_known : (p : Bool) → first_unknown (offered personal p false) ≡ none
    progress_known true = refl
    progress_known false = refl

record IsOffered (cs : List String) (reload : Bool) : Type 0 where
  always :
      (has cs "usage" ≡ true)
      × (has cs "facets" ≡ true)
      × (has cs "web-dashboard" ≡ true)
      × (has cs "terminal-dashboard" ≡ true)
  reloads : has cs "dashboard-reload" ≡ reload

offered-IsOffered : (progress reload : Bool) → IsOffered (offered personal progress reload) reload
unfolding offered has
offered-IsOffered true true = record { always = (refl, refl, refl, refl); reloads = refl }
offered-IsOffered true false = record { always = (refl, refl, refl, refl); reloads = refl }
offered-IsOffered false true = record { always = (refl, refl, refl, refl); reloads = refl }
offered-IsOffered false false = record { always = (refl, refl, refl, refl); reloads = refl }

dependencies_lem :
    (cs : List String) (reload : Bool) (ds kept : List String)
    → IsOffered cs reload
    → IsLeft cs ds kept
    → (check_dependencies kept ≡ none) ↔ (leaves_needed reload ds ≡ true)
unfolding check_dependencies
dependencies_lem cs reload ds kept o l = ground (
  arith,
  o.always,
  o.reloads,
  l.members "terminal-dashboard",
  l.members "web-dashboard",
  l.members "usage",
  l.members "facets",
  l.members "dashboard-reload",
)

validate_policy_lem :
    (kind : String) (cs : List String)
    → first_unknown cs ≡ none
    → (validate_policy (record { kind = kind; capabilities = cs }) ≡ none)
      ↔ ((kind ≡ personal) × (check_dependencies cs ≡ none))
unfolding validate_policy
validate_policy_lem kind cs h = ground (arith, h, eq_iff kind personal)

abbrev AreGranted : String → Bool → Bool → List String → Policy × Option PolicyError → Type 0
AreGranted kind progress reload ds (p, e) =
    ((e ≡ none) ↔ ((kind ≡ personal) × (all_known ds ≡ true) × (leaves_needed reload ds ≡ true)))
    × (e ≡ none
        → (w : String)
        → has p.capabilities w ≡ has (offered kind progress reload) w && not (has ds w))

completed-AreGranted :
    (kind : String) (progress reload : Bool) (ds kept : List String)
    → all_known ds ≡ true
    → IsLeft (offered kind progress reload) ds kept
    → AreGranted kind progress reload ds (completed kind (ok kept))
completed-AreGranted kind progress reload ds kept known l =
    let valid = validate_policy_lem kind kept (l.known (offered-known kind progress reload)) in
    (
      (
        λ h.
            let (is_personal, fits) = valid.0 h in
            (is_personal, known, (leaves is_personal).0 fits),
        λ (is_personal, _, fits). valid.1 (is_personal, (leaves is_personal).1 fits),
      ),
      λ h w. l.members w,
    )
  where
    leaves : kind ≡ personal → (check_dependencies kept ≡ none) ↔ (leaves_needed reload ds ≡ true)
    leaves is_personal =
        dependencies_lem (offered kind progress reload) reload ds kept
          (rw is_personal (offered-IsOffered progress reload)) l

new_policy-AreGranted :
    (kind : String) (progress reload : Bool) (ds : List String)
    → AreGranted kind progress reload ds (new_policy kind progress reload ds)
unfolding new_policy
new_policy-AreGranted kind progress reload ds = elim (Bool-cases (all_known ds)) [
  | inr unknown ↦
      let (e, refused) = disable-unknown (offered kind progress reload) ds unknown in
      rw refused ((λ h. cc, λ h. cc), λ h w. cc)
  | inl known ↦
      let (kept, e, l) = disable-IsLeft (offered kind progress reload) ds known in
      rw e (completed-AreGranted kind progress reload ds kept known l)
]

-- A request is granted exactly if its kind is personal, what it disables is known, and what it
-- leaves has what it needs: with a dashboard usage and facets, with reload the web dashboard and
-- usage.
pub new_policy_granted_lem :
    (kind : String) (progress reload : Bool) (ds : List String)
    → ((new_policy kind progress reload ds).1 ≡ none)
      ↔ ((kind ≡ personal) × (all_known ds ≡ true) × (leaves_needed reload ds ≡ true))
new_policy_granted_lem kind progress reload ds = (new_policy-AreGranted kind progress reload ds).0

-- A policy granted has the capabilities offered to its kind but for those that the request
-- disables.
pub new_policy_capabilities_lem :
    (kind : String) (progress reload : Bool) (ds : List String) (w : String)
    → (new_policy kind progress reload ds).1 ≡ none
    → has (new_policy kind progress reload ds).0.capabilities w
      ≡ has (offered kind progress reload) w && not (has ds w)
new_policy_capabilities_lem kind progress reload ds w h =
    (new_policy-AreGranted kind progress reload ds).1 h w
