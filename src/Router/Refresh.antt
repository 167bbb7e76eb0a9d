-- ===== src/Router/Refresh.antt =====
-- internal/router/router.go, Refresh: which EndpointCheck is routed to. It reads the API server three
-- times, so there are three answers: of the first list and what belongs to it, of the Secret and the
-- second look at the Endpoint, and of the second list.
pub mod Admission
use Prim.Native.Nat.{Ordering}
use Prim.Native.String.{compare}
use provider_runpod.Base.{
  String, Bool, true, false, not, ◌||◌, List, [], ◌∷◌, Option, none, some, Result, ok, err, Error,
  failure, is_ok, is_not_found, str_eq, has_string, lookup, select, if◌then◌else◌,
}
use provider_runpod.Apis.{EndpointCheck, Time}
use provider_runpod.Apis.Crossplane.{Crossplane}
use provider_runpod.Apis.Reader.{Reader}
use provider_runpod.Credentials.{Secret, require_purpose, purpose_inference}
use provider_runpod.Janitor.{remove}
use provider_runpod.Router.Lease.{Target}
use provider_runpod.Router.Eligible.{
  eligible, endpoint_revision_matches, is_eligible, router_drain_finalizer, token_fits, token_of,
}

pub data Choice : Type 0 where
  admit : Target → Choice
  refuse : String → Choice

abbrev pub target_of : EndpointCheck → String → Target
target_of check token = record {
  namespace = check.metadata.namespace;
  check_name = check.metadata.name;
  endpoint_id = check.at_provider.endpoint_id;
  expected_model_id = check.spec.expected_model_id;
  token = token;
}

module _ (x : Crossplane) (namespace : String) where
  -- The Secret of the one check that is eligible, and a second look at its Endpoint.
  unfoldable pub with_secret : Reader → Time → EndpointCheck → Result Secret → Choice
  unfolding require_purpose endpoint_revision_matches lookup
  with_secret reader now check (err e) = refuse "cannot read inference credential"
  with_secret reader now check (ok secret) =
      let recorded = check.at_provider.credentials_secret_resource_version in
      if not (is_ok (require_purpose (some secret) purpose_inference))
      then refuse "inference credential has the wrong purpose"
      else if str_eq recorded "" || not (str_eq secret.resource_version recorded)
      then refuse "inference credential changed since verification"
      else if not (token_fits (token_of secret check))
      then refuse "inference credential is absent or malformed"
      else if not (endpoint_revision_matches x reader check now)
      then refuse "referenced Endpoint changed since verification"
      else admit (target_of check (token_of secret check))

  unfoldable pub choose : Reader → Time → List EndpointCheck → Choice
  unfolding with_secret
  choose reader now [] = refuse "no admitted EndpointCheck"
  choose reader now (check ∷ []) =
      with_secret reader now check
        (reader.get_secret namespace check.spec.inference_credentials_secret_ref.name)
  choose reader now (check ∷ other ∷ rest) =
      refuse "multiple admitted EndpointChecks; single-route policy failed closed"

-- An order of names: the bytes of UTF-8 compare like the code points.
abbrev text_before : String → String → Bool
text_before a b = elim (compare a b) [ Ordering.lt ↦ true | _ ↦ false ]

abbrev stands_before : EndpointCheck → EndpointCheck → Bool
stands_before a b =
    if str_eq a.metadata.namespace b.metadata.namespace
    then text_before a.metadata.name b.metadata.name
    else text_before a.metadata.namespace b.metadata.namespace

abbrev place : EndpointCheck → List EndpointCheck → List EndpointCheck
place c [] = c ∷ []
place c (d ∷ ds) = if stands_before d c then d ∷ place c ds else c ∷ d ∷ ds

abbrev pub sorted : List EndpointCheck → List EndpointCheck
sorted [] = []
sorted (c ∷ cs) = place c (sorted cs)

-- What a pass does: the route that it hands to `replace`, with the reason, the checks that it updates
-- after that, in order, and what it returns.
pub record Refreshed : Type 0 where
  pub next : Option Target
  pub state_error : String
  pub updates : List EndpointCheck
  pub result : Result (Unit {0})

abbrev withdrawn : String → Error → Refreshed
withdrawn reason e = record { next = none; state_error = reason; updates = []; result = err e }

abbrev pub undrained : EndpointCheck → EndpointCheck
undrained check = record check {
  metadata = record check.metadata {
    finalizers = remove check.metadata.finalizers router_drain_finalizer;
  };
}

abbrev pub is_deleting : EndpointCheck → Bool
is_deleting check = check.metadata.is_deleting

abbrev pub failed_update : Result (Unit {0}) → Option Error
failed_update (ok tt) = none
failed_update (err e) = if is_not_found e then none else some e

abbrev pub updated :
    EndpointCheck
    → Option Error
    → List EndpointCheck × Result (Unit {0})
    → List EndpointCheck × Result (Unit {0})
updated check none rest = (check ∷ rest.0, rest.1)
updated check (some e) rest = (check ∷ [], err e)

-- `answer` is what the API server says to an update, `done` what the pass returns if none fails.
unfoldable pub drain_checks :
    (EndpointCheck → Result (Unit {0}))
    → Result (Unit {0})
    → List EndpointCheck
    → List EndpointCheck × Result (Unit {0})
drain_checks answer done [] = ([], done)
drain_checks answer done (check ∷ checks) =
    let rest = drain_checks answer done checks in
    if has_string check.metadata.finalizers router_drain_finalizer
    then updated (undrained check) (failed_update (answer (undrained check))) rest
    else rest

module _ (x : Crossplane) (namespace : String) (marshal : List EndpointCheck → Option String)
    (answer : EndpointCheck → Result (Unit {0})) (first second third : Reader)
    (now later : Time) where
  -- `endpointCheckRevision`, whose encoding is an argument.
  abbrev pub endpoint_check_revision : List EndpointCheck → Option String
  endpoint_check_revision checks = marshal (sorted checks)

  -- The route is replaced before the finalizers of the deleting checks are released.
  abbrev pub committed : List EndpointCheck → Choice → Refreshed
  committed checks (admit target) =
      let drained = drain_checks answer (ok tt) (select is_deleting checks) in
      record { next = some target; state_error = ""; updates = drained.0; result = drained.1 }
  committed checks (refuse reason) =
      let drained = drain_checks answer (err (failure reason)) (select is_deleting checks) in
      record { next = none; state_error = reason; updates = drained.0; result = drained.1 }

  abbrev pub compared : List EndpointCheck → String → Choice → Option String → Refreshed
  compared checks revision choice none =
      withdrawn "cannot validate EndpointCheck snapshot" (failure "encode EndpointCheck revision")
  compared checks revision choice (some current) =
      if not (str_eq current revision)
      then withdrawn "EndpointChecks changed during route refresh"
          (failure "EndpointChecks changed during route refresh")
      else committed checks choice

  abbrev pub revalidated :
      List EndpointCheck → String → Choice → Result (List EndpointCheck) → Refreshed
  revalidated checks revision choice (err e) = withdrawn "cannot revalidate EndpointChecks" e
  revalidated checks revision choice (ok current) =
      compared checks revision choice (endpoint_check_revision current)

  abbrev pub with_revision : List EndpointCheck → Option String → Refreshed
  with_revision checks none =
      withdrawn "cannot validate EndpointCheck snapshot" (failure "encode EndpointCheck revision")
  with_revision checks (some revision) =
      revalidated checks revision (choose x namespace second later (eligible x first now checks))
        (third.list_checks namespace)

  abbrev pub with_checks : Result (List EndpointCheck) → Refreshed
  with_checks (err e) = withdrawn "cannot read EndpointChecks" e
  with_checks (ok checks) = with_revision checks (endpoint_check_revision checks)

  unfoldable pub refresh : Refreshed
  unfolding is_eligible choose drain_checks
  refresh = with_checks (first.list_checks namespace)
