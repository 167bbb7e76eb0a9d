-- ===== src/Tests/Router.antt =====
-- The model router's theorems at concrete inputs.
use provider_runpod.Base.{
  String, ◌≡◌, refl, true, false, List, [], ◌∷◌, Option, none, some, pos, Result, ok, all, arith,
  lookup,
}
use provider_runpod.Apis.{
  EndpointCheck, EndpointResource, TemplateResource, Time, seconds, available, reconcile_success,
}
use provider_runpod.Apis.Reader.{Reader}
use provider_runpod.Credentials.{Secret, purpose_label}
use provider_runpod.Request.Arguments.{Codec}
use provider_runpod.Router.Copy.{Chunk, more, eof, copy_bounded_and_flush}
use provider_runpod.Router.Copy.Bounds.{content, IsCopy, copy_bounded_and_flush-IsCopy}
use provider_runpod.Router.Lease.{
  Target, Route, Router, Reach, start, later, replaces, acquires, releases, clears, new_router,
  new_route, replace, acquire, return_lease, clear_token,
}
use provider_runpod.Router.Lease.Reachable.{IsSound, Reach-IsSound}
use provider_runpod.Router.Refresh.{refresh, sorted, is_deleting}
use provider_runpod.Router.Eligible.{router_drain_finalizer}
use provider_runpod.Router.Refresh.Admission.{IsAdmitted, refresh-IsAdmitted, refresh_releases}
use provider_runpod.Router.Proxy.{
  HttpRequest, Upstream, UpstreamResponse, serve_http, refuses, upstream_call,
}
use provider_runpod.Router.Proxy.Guards.{IsForwarded, serve_http-IsForwarded}
use provider_runpod.Tests.Fixtures.{bound_object, meta_with}
use provider_runpod.Tests.Janitor.{check_of, old_template}
use provider_runpod.Tests.Platform.{runtime, empty_namespace}
use provider_runpod.Tests.Request.{codec, given_request, sent_request}

abbrev two_chunks : List Chunk
two_chunks =
    (record { bytes = 1 ∷ 2 ∷ 3 ∷ []; ending = more })
    ∷ (record { bytes = 4 ∷ []; ending = eof })
    ∷ []

copy_bounded_and_flush-IsCopy_example :
    IsCopy (content two_chunks) 3 (copy_bounded_and_flush two_chunks [] 3)
copy_bounded_and_flush-IsCopy_example = copy_bounded_and_flush-IsCopy two_chunks [] 3 (omega arith)

abbrev target : Target
target = record {
  namespace = "ns";
  check_name = "model";
  endpoint_id = "ep1";
  expected_model_id = "m";
  token = "rpa";
}

-- A request leases the route, which is then withdrawn; the token is erased once the lease is returned.
abbrev routed : Router
routed = replace (some target) "" new_router

abbrev leased : Router
leased = acquire routed

abbrev withdrawn : Router
withdrawn = replace none "no admitted EndpointCheck" leased

abbrev returned : Router
returned = return_lease 0 withdrawn

abbrev erased : Router
erased = clear_token 0 returned

erased-Reach : Reach erased
unfolding replace
erased-Reach =
    later
      (later
        (later (later (later start (replaces (some target) "")) acquires)
          (replaces none "no admitted EndpointCheck"))
        (releases 0 (omega arith)))
      (clears 0 refl refl)

Reach-IsSound_example : IsSound erased
Reach-IsSound_example = Reach-IsSound erased-Reach

abbrev ready_endpoint : EndpointResource
ready_endpoint = record bound_object {
  observed_generation = 2;
  conditions = available ∷ reconcile_success ∷ [];
  at_provider = record (bound_object.at_provider) {
    template_id = "tpl1";
    worker_security_validated = true;
    worker_security_proof_version = some (pos 7);
    worker_security_observed_at = seconds 1250;
  };
}

abbrev ready_template : TemplateResource
ready_template = record old_template {
  metadata = record (meta_with (("crossplane.io/external-name", "tpl1") ∷ [])) {
    uid = "t-uid";
    generation = 3;
  };
  spec = record (old_template.spec) { image_name = "img@sha256:0" };
  observed_generation = 3;
  conditions = available ∷ reconcile_success ∷ [];
  at_provider = record (old_template.at_provider) { id = "tpl1" };
}

abbrev pub verified_check : EndpointCheck
verified_check = record (check_of "model") {
  metadata = record (meta_with []) { finalizers = router_drain_finalizer ∷ [] };
  observed_generation = 2;
  conditions = available ∷ [];
  at_provider = record ((check_of "model").at_provider) {
    endpoint_id = "ep1";
    endpoint_resource_uid = "U1";
    endpoint_resource_generation = 2;
    endpoint_version = some (pos 7);
    template_resource_uid = "t-uid";
    template_resource_generation = 3;
    template_image_digest = "img@sha256:0";
    healthy = true;
    model_verified = true;
    tool_call_verified = true;
    credentials_secret_resource_version = "9";
    last_checked_at = seconds 1290;
    last_verified_at = seconds 1290;
  };
}

abbrev doomed_check : EndpointCheck
doomed_check = record verified_check {
  metadata = record (meta_with []) {
    name = "old";
    is_deleting = true;
    finalizers = router_drain_finalizer ∷ [];
  };
}

abbrev inference_secret : Secret
inference_secret = record {
  labels = (purpose_label, "inference") ∷ [];
  entries = ("k", "rpa") ∷ [];
  resource_version = "9";
}

abbrev pub cluster : Reader
cluster = record empty_namespace {
  get_endpoint = λ _ _. ok ready_endpoint;
  get_template = λ _ _. ok ready_template;
  get_secret = λ _ _. ok inference_secret;
  list_checks = λ _. ok (doomed_check ∷ verified_check ∷ []);
}

abbrev pub now : Time
now = seconds 1300

abbrev one_text : List EndpointCheck → Option String
one_text _ = some "checks"

abbrev works : EndpointCheck → Result (Unit {0})
works _ = ok tt

refresh-IsAdmitted_example :
    IsAdmitted runtime "ns" one_text works cluster cluster cluster now now target
unfolding refresh lookup
refresh-IsAdmitted_example =
    refresh-IsAdmitted runtime "ns" one_text works cluster cluster cluster now now target refl

refresh_releases_example :
    (checks current : List EndpointCheck) × (cluster.list_checks "ns" ≡ ok checks)
    × (cluster.list_checks "ns" ≡ ok current)
    × (one_text (sorted current) ≡ one_text (sorted checks))
    × (all is_deleting (refresh runtime "ns" one_text works cluster cluster cluster now now).updates
        ≡ true)
unfolding refresh lookup
refresh_releases_example =
    refresh_releases runtime "ns" one_text works cluster cluster cluster now now refl

abbrev chat : HttpRequest
chat = record {
  method = "POST";
  path = "/v1/chat/completions";
  raw_query = "";
  authorization = "";
  x_api_key = "";
  body = some "{}";
}

abbrev reading : Codec
reading = record codec { unmarshal = λ _. some given_request }

abbrev silent : Upstream → Option UpstreamResponse
silent _ = none

serve_http-IsForwarded_example :
    (refuses chat ≡ false)
    × (◌≡◌ {A = Result (Unit {0})} (ok tt) (ok tt))
    × ((route : Route) × (some (new_route target) ≡ some route)
        × (chat.method ≡ "POST")
        × (chat.path ≡ "/v1/chat/completions")
        × IsForwarded reading route true chat
            (upstream_call reading (new_route target) sent_request))
unfolding serve_http lookup
serve_http-IsForwarded_example =
    serve_http-IsForwarded reading silent [] true "" chat (ok tt) (some (new_route target)) refl
