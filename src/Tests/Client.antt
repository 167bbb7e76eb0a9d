-- ===== src/Tests/Client.antt =====
-- The client's theorems at concrete inputs.
use provider_runpod.Base.{
  ℕ, ◌≤◌, ◌<◌, String, len, negsuc, int_leb, ◌≡◌, refl, inl, true, false, [], ◌∷◌, Option, none,
  some, All, codes, ok, api_error, arith,
}
use provider_runpod.Credentials.{Secret, purpose_label}
use provider_runpod.Identifier.{validate_runpod_id, safe_id}
use provider_runpod.Identifier.Escape.{safe_id_sound, IsInert}
use provider_runpod.Client.Transport.{
  Method, get, post, no_body, Request, Exchange, replied, do_json, attempts, backoff, atoi, is_get,
  request_id,
}
use provider_runpod.Client.Transport.Sends.{Decides, do_json-Decides}
use provider_runpod.Client.Transport.Ambiguity.{Refuses, do_json-IsRefused}
use provider_runpod.Client.Transport.Backoff.{backoff_wraps}
use provider_runpod.Client.Validation.{validate_endpoint_observation, normalize_endpoint_input}
use provider_runpod.Client.Validation.Observed.{
  IsObserved, validate_endpoint_observation-IsObserved,
}
use provider_runpod.Client.Methods.{
  Server, request, continue, list_endpoints, find_endpoint_by_name, create_endpoint,
  delete_endpoint,
}
use provider_runpod.Client.Methods.Lookup.{find_by_name_unique}
use provider_runpod.Client.Methods.Create.{create_endpoint_safe}
use provider_runpod.Client.Methods.Endpoints.{delete_endpoint_order, removal}
use provider_runpod.Tests.Fixtures.{endpoint, wanted, template}

abbrev reply : {A : Type 0} → ℕ → Option A → Exchange A
reply status decoded = replied (record {
  status = status;
  header = λ _. "";
  read_failed = false;
  close_failed = false;
  size = 10;
  blank = false;
  decoded = decoded;
})

-- A server with one Endpoint, which is busy at the first attempt of every GET.
abbrev busy_once : {A : Type 0} → Method → A → ℕ → Exchange A
busy_once get a ℕ.zero = reply 503 none
busy_once m a k = reply 200 (some a)

abbrev server : Server
server = record {
  interrupted = λ _ _. false;
  template = λ r. busy_once r.method template;
  templates = λ r. busy_once r.method (template ∷ []);
  endpoint = λ r. busy_once r.method endpoint;
  endpoints = λ r. busy_once r.method (endpoint ∷ []);
  nothing = λ _ _. reply 204 (some tt);
}

-- A server that knows nothing.
abbrev empty_server : Server
empty_server = record {
  interrupted = λ _ _. false;
  template = λ _ _. reply 404 none;
  templates = λ _ _. reply 404 none;
  endpoint = λ _ _. reply 404 none;
  endpoints = λ _ _. reply 404 none;
  nothing = λ _ _. reply 404 none;
}

abbrev post_request : Request
post_request = request post "/endpoints" no_body

abbrev get_request : Request
get_request = request get "/endpoints/ep1" no_body

safe_id_sound_example :
    (0 < len "ep1") × (len "ep1" ≤ 191) × All IsInert (codes "ep1") × (safe_id "ep1" ≡ ok "ep1")
unfolding validate_runpod_id
safe_id_sound_example = safe_id_sound "ep1" refl

abbrev management_secret : Secret
management_secret = record {
  labels = (purpose_label, "management") ∷ [];
  entries = [];
  resource_version = "1";
}

backoff_wraps_example : int_leb (backoff 0 "9223372037") (negsuc 0) ≡ true
unfolding atoi
backoff_wraps_example = backoff_wraps 0 9223372036 "9223372037" refl (omega arith) (omega arith)

do_json-Decides_example :
    (k : ℕ) × Decides {A = String} "" true
      (λ _. false)
      (busy_once get "done")
      get_request
      0
      (do_json {A = String} "" true (λ _. false) (busy_once get "done") get_request)
      k
    × (is_get get ≡ false → k ≡ 0)
do_json-Decides_example =
    do_json-Decides {A = String} "" true (λ _. false) (busy_once get "done") get_request

do_json-IsRefused_example : Refuses {A = String} (record {
  status = 400;
  header = λ _. "";
  read_failed = false;
  close_failed = false;
  size = 10;
  blank = false;
  decoded = none;
})
unfolding do_json attempts
do_json-IsRefused_example =
    do_json-IsRefused {A = String} "" true (λ _. false) (λ _. reply 400 none) post_request
      {e = api_error 400 (request_id (λ _. ""))} refl refl refl

validate_endpoint_observation-IsObserved_example : IsObserved endpoint
unfolding validate_endpoint_observation validate_runpod_id
validate_endpoint_observation-IsObserved_example =
    validate_endpoint_observation-IsObserved endpoint refl

find_by_name_unique_example : (find_endpoint_by_name server "model-xp-u1").result ≡ ok endpoint
unfolding list_endpoints continue do_json attempts validate_endpoint_observation validate_runpod_id
find_by_name_unique_example = (find_by_name_unique server "model-xp-u1").0 (endpoint ∷ []) refl

create_endpoint_safe_example :
    IsObserved endpoint
    × (endpoint.name ≡ wanted.name)
    × (endpoint.template_id ≡ wanted.template_id)
unfolding create_endpoint continue do_json attempts validate_endpoint_observation validate_runpod_id
    normalize_endpoint_input
create_endpoint_safe_example = (create_endpoint_safe server wanted).1 endpoint refl

delete_endpoint_order_example :
    (delete_endpoint server "ep1").result ≡ (removal server "ep1").result
unfolding do_json attempts validate_runpod_id
delete_endpoint_order_example = ((delete_endpoint_order server "ep1").1 refl (inl refl)).1
