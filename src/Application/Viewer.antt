-- ===== src/Application/Viewer.antt =====
-- packages/core/application/query.go: the operations of a viewer on one dataset. The repository
-- is a parameter, with the types of what it answers and of its errors. A context is the error
-- that it has, if it is done; the time of a call is an argument.
pub mod Answers
pub mod Asked
use tokeninsights.Prelude.{
  ℕ, String, Bool, true, false, not, ◌&&◌, ◌||◌, List, [], ◌∷◌, ◌++◌, Option, none, some, ◌==◌,
  string_eq, if◌then◌else◌,
}
use tokeninsights.Prelude.Int.{ℤ, pos, ltb_ℤ}
use tokeninsights.Prelude.Results.{Result, ok, err, ◌>>=◌, ◌>>◌, guard}
use tokeninsights.ServerFeatures.{Policy, PolicyError, personal, has, validate_policy}
use tokeninsights.Application.Selection.{Selection}
use tokeninsights.Application.Normalize.{Query, InvalidRequest, normalize_query, bad_row_limit}

-- dataengine.Metadata, as far as it is passed on.
pub record Publication : Type 0 where
  pub database_id : String
  pub dataset_id : String
  pub revision : ℤ
  pub generation : ℤ
  pub target_generation : ℤ
  pub input_revision : ℤ

pub record ProcessingStatus : Type 0 where
  pub metadata : Publication
  pub pending : ℤ
  pub failed : ℤ
  pub failed_retry_at_ms : ℤ
  pub hostname : String

-- analytics.Repository
pub record Repository (Dashboard FacetChoices SourceError : Type 0) : Type 0 where
  pub dashboard : Query → ℕ → Result SourceError Dashboard
  pub all_dashboard : Query → ℕ → ℤ → Result SourceError Dashboard
  pub facets : Query → String → ℕ → Result SourceError FacetChoices
  pub status : Result SourceError ProcessingStatus

pub record Instance : Type 0 where
  pub instance_id : String
  pub database_id : String
  pub dataset_id : String
  pub readiness : String
  pub kind : String
  pub capabilities : List String
  pub permissions : List String
  pub server_version : String
  pub hostname : String
  pub timezone : String
  pub defaults : Selection

pub record Usage (Dashboard : Type 0) : Type 0 where
  pub dashboard : Dashboard
  pub instance_id : String

pub record FacetRequest : Type 0 where
  pub query : Query
  pub search : String

pub record Facets (FacetChoices : Type 0) : Type 0 where
  pub choices : FacetChoices
  pub instance_id : String

-- The usage of the process is filled in elsewhere.
pub record Status : Type 0 where
  pub metadata : Publication
  pub pending : ℤ
  pub failed : ℤ
  pub failed_retry_at_ms : ℤ
  pub instance_id : String
  pub readiness : String

-- The queries of an instance, but for their source.
pub record Queries : Type 0 where
  pub policy : Policy
  pub instance_id : String
  pub hostname : String
  pub defaults : Selection
  pub permissions : List String

-- The errors: of the context, a context's error of the source, `ErrUnavailable` with what it wraps,
-- `ErrForbidden`, and an `InvalidRequest`.
pub data Failure (ContextError SourceError : Type 0) : Type 0 where
  done : ContextError → Failure ContextError SourceError
  cancelled : SourceError → Failure ContextError SourceError
  unavailable : Option SourceError → Failure ContextError SourceError
  forbidden : Failure ContextError SourceError
  invalid : InvalidRequest → Failure ContextError SourceError

abbrev pub no_selection : Selection
no_selection = record {
  period = "month";
  bucket = "day";
  from = "";
  to = "";
  providers = [];
  models = [];
  harnesses = [];
  sessions = [];
}

unfoldable pub clone_selection : Selection → Selection
clone_selection s = record s {
  providers = [] ++ s.providers;
  models = [] ++ s.models;
  harnesses = [] ++ s.harnesses;
  sessions = [] ++ s.sessions;
}

unfoldable pub new_queries : Policy → String → String → Queries
new_queries policy instance_id hostname = record {
  policy = policy;
  instance_id = instance_id;
  hostname = hostname;
  defaults = no_selection;
  permissions = "read" ∷ [];
}

-- `WithPresentation`
unfoldable pub with_presentation : Selection → List String → Queries → Queries
with_presentation defaults permissions q = record q {
  defaults = clone_selection defaults;
  permissions = [] ++ permissions;
}

unfoldable pub describe :
    String
    → String
    → Policy
    → List String
    → ProcessingStatus
    → String
    → String
    → Selection
    → Instance
describe version timezone policy permissions status instance_id hostname defaults = record {
  instance_id = instance_id;
  database_id = status.metadata.database_id;
  dataset_id = status.metadata.dataset_id;
  readiness = "ready";
  kind = policy.kind;
  capabilities = [] ++ policy.capabilities;
  permissions = [] ++ permissions;
  server_version = version;
  hostname = hostname;
  timezone = timezone;
  defaults = clone_selection defaults;
}

-- Whether the permissions and the policy allow an operation that needs the capability, `""` for
-- none.
unfoldable pub allows : Queries → String → Bool
allows q capability =
    has q.permissions "read" && (capability == "" || has q.policy.capabilities capability)

module _ {ContextError SourceError : Type 0} where
  abbrev pub live : Option ContextError → Result (Failure ContextError SourceError) (Unit {0})
  live none = ok tt
  live (some e) = err (done e)

  abbrev pub policy_checked :
      Option PolicyError → Result (Failure ContextError SourceError) (Unit {0})
  policy_checked none = ok tt
  policy_checked (some _) = err (unavailable none)

  abbrev pub normalized :
      Result InvalidRequest Query → Result (Failure ContextError SourceError) Query
  normalized (ok q) = ok q
  normalized (err e) = err (invalid e)

  unfoldable pub check :
      Queries → Option ContextError → String → Result (Failure ContextError SourceError) (Unit {0})
  check q ctx capability = do
    live ctx
    policy_checked (validate_policy q.policy)
    guard (allows q capability) forbidden

  -- `queryFailure`
  unfoldable pub query_failure :
      (SourceError → Bool) → SourceError → Failure ContextError SourceError
  query_failure is_context_error e =
      if is_context_error e then cancelled e else unavailable (some e)

  abbrev pub answered {ℓ} :
      {A : Type ℓ}
      → (SourceError → Bool)
      → Result SourceError A
      → Result (Failure ContextError SourceError) A
  answered is_context_error (ok a) = ok a
  answered is_context_error (err e) = err (query_failure is_context_error e)

module _ {Dashboard FacetChoices ContextError SourceError : Type 0}
    (is_context_error : SourceError → Bool)
    (source : Repository Dashboard FacetChoices SourceError) where
  -- `Instance`
  unfoldable pub instance_of :
      String
      → String
      → Queries
      → Option ContextError
      → Result (Failure ContextError SourceError) Instance
  instance_of version timezone q ctx = do
    live ctx
    policy_checked (validate_policy q.policy)
    status ← answered is_context_error source.status
    let hostname =
        if not (q.hostname == "") && q.policy.kind == personal then q.hostname else status.hostname
    ok (describe version timezone q.policy q.permissions status q.instance_id hostname q.defaults)

  unfoldable pub usage :
      Queries
      → Option ContextError
      → Query
      → ℤ
      → ℕ
      → Result (Failure ContextError SourceError) (Usage Dashboard)
  usage q ctx request max_rows now = do
    check q ctx "usage"
    normal ← normalized (normalize_query request)
    answer ← answered is_context_error (
        if ltb_ℤ (pos 0) max_rows
        then source.all_dashboard normal now max_rows
        else source.dashboard normal now)
    ok (record { dashboard = answer; instance_id = q.instance_id })

  -- `Usage`
  unfoldable pub page_usage :
      Queries
      → Option ContextError
      → Query
      → ℕ
      → Result (Failure ContextError SourceError) (Usage Dashboard)
  page_usage q ctx request now = usage q ctx request (pos 0) now

  unfoldable pub all_usage :
      Queries
      → Option ContextError
      → Query
      → ℤ
      → ℕ
      → Result (Failure ContextError SourceError) (Usage Dashboard)
  all_usage q ctx request max_rows now =
      if ltb_ℤ max_rows (pos 1)
      then err (invalid bad_row_limit)
      else usage q ctx request max_rows now

  -- `Facets`
  unfoldable pub facets_of :
      Queries
      → Option ContextError
      → FacetRequest
      → ℕ
      → Result (Failure ContextError SourceError) (Facets FacetChoices)
  facets_of q ctx request now = do
    check q ctx "facets"
    normal ← normalized (normalize_query request.query)
    answer ← answered is_context_error (source.facets normal request.search now)
    ok (record { choices = answer; instance_id = q.instance_id })

  -- `Status`
  unfoldable pub status_of :
      Queries → Option ContextError → Result (Failure ContextError SourceError) Status
  status_of q ctx = do
    check q ctx ""
    status ← answered is_context_error source.status
    ok (record {
      metadata = status.metadata;
      pending = status.pending;
      failed = status.failed;
      failed_retry_at_ms = status.failed_retry_at_ms;
      instance_id = q.instance_id;
      readiness = "ready";
    })
