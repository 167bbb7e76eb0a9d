-- ===== src/Endpoint/Handlers.antt =====
-- internal/controller/endpoint/endpoint.go: what the handlers Observe, Create, Update and Delete share. A
-- handler gives its result, the object as it leaves it (also on an error) and the calls that it made of
-- RunPod, in order. It makes each call at most once, so the service is the answer to each call.
pub mod Observe
pub mod Create
pub mod Change
pub mod Calls
pub mod Absence
pub mod Proven
pub mod Ready
pub mod Recovery
use provider_runpod.Base.{
  String, Bool, not, ◌&&◌, ◌∷◌, Option, is_empty, str_eq, Result, if◌then◌else◌, lookup_or,
  value_or_nil, same_name,
}
use provider_runpod.Identifier.{is_runpod_id}
use provider_runpod.Client.Types.{Endpoint, EndpointInput}
use provider_runpod.Apis.{EndpointResource, EndpointCheck, Time, Condition, available}
use provider_runpod.Apis.Crossplane.{Crossplane}
use provider_runpod.Apis.Reader.{Reader}
use provider_runpod.Managed.{Pass, endpoint_keys}
use provider_runpod.Endpoint.Settings.{TemplateBinding, endpoint_name}
use provider_runpod.Endpoint.Matching.{
  endpoint_matches_input, endpoint_template_matches, endpoint_workers_match,
}

pub record Service : Type 0 where
  pub get_endpoint : String → Result (Option Endpoint)
  pub find_endpoint_by_name : String → Result Endpoint
  pub create_endpoint : EndpointInput → Result Endpoint
  pub update_endpoint : String → EndpointInput → Result Endpoint
  pub delete_endpoint : String → Result (Unit {0})

pub data Call : Type 0 where
  get find delete : String → Call
  create : EndpointInput → Call
  update : String → EndpointInput → Call

-- A pass of the Endpoint reconciler.
abbrev pub Run : Type 0 → Type 0
Run A = Pass Call EndpointResource A

abbrev set_condition : EndpointResource → Condition → EndpointResource
set_condition cr c = record cr { conditions = c ∷ cr.conditions }

abbrev withdraw : EndpointResource → EndpointResource
withdraw cr = record cr { observed_generation = 0 }

-- `Status.ObservedGeneration = Generation` and `SetConditions(Available())`
abbrev announce : EndpointResource → EndpointResource
announce cr = record cr {
  observed_generation = cr.metadata.generation;
  conditions = available ∷ cr.conditions;
}

-- The three tests on an external Endpoint.
abbrev pub conforms : EndpointResource → TemplateBinding → EndpointInput → Endpoint → Bool
conforms cr template desired got =
    endpoint_matches_input desired got
    && endpoint_template_matches got template
    && endpoint_workers_match desired got template cr.spec.max_worker_cost_milli_usd_per_hour

abbrev pub has_workers : Endpoint → Bool
has_workers got = not (is_empty (value_or_nil got.workers))

-- The ID is controller-observed: it validates and is the one in the status.
abbrev is_bound : EndpointResource → String → Bool
is_bound cr id = is_runpod_id id && str_eq cr.at_provider.id id

-- `p.EndpointIDRef != nil && p.EndpointIDRef.Name == name`
abbrev pub refers_to : String → EndpointCheck → Bool
refers_to name check = same_name name check.spec.endpoint_id_ref

module _ (x : Crossplane) (reader : Reader) (svc : Service) (template : TemplateBinding)
    (now : Time) where
  abbrev pub external_id : EndpointResource → String
  external_id cr = x.external_name cr.metadata.annotations

  abbrev pub pending_name : EndpointResource → String
  pending_name cr =
      if x.create_incomplete cr.metadata.annotations
      then endpoint_name cr
      else lookup_or "" endpoint_keys.ambiguous_create_name cr.metadata.annotations
