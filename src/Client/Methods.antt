-- ===== src/Client/Methods.antt =====
-- internal/client/runpod/client.go: the calls that the controllers make, over a server that answers
-- each attempt of each request.
pub mod Lookup
pub mod Create
pub mod Endpoints
use Prim.Native.String.{◌++◌}
use mathlib.Core.List
use provider_runpod.Base.{
  ℕ, String, Bool, true, false, not, ◌&&◌, ◌||◌, List, [], ◌∷◌, Option, none, some, is_some, ℤ,
  str_eq, Result, ok, err, not_found, ambiguous, create_ambiguous, failure, is_ok, if◌then◌else◌,
}
use provider_runpod.Identifier.{validate_runpod_id, safe_id}
use provider_runpod.Client.Types.{Template, TemplateInput, Endpoint, EndpointInput, NullableString}
use provider_runpod.Client.Transport.{
  Method, get, post, patch, delete, Body, no_body, zero_workers, template_input, template_update,
  endpoint_input, endpoint_update, Request, Exchange, Outcome, do_json,
}
use provider_runpod.Client.Validation.{
  validate_template_response, validate_endpoint_observation, normalize_template_input,
  template_update_input, normalize_endpoint_input, endpoint_update_input,
}

-- What the network answers to each attempt of a request, by the type that the caller decodes.
pub record Server : Type 0 where
  pub interrupted : Request → ℕ → Bool
  pub template : Request → ℕ → Exchange Template
  pub templates : Request → ℕ → Exchange (List Template)
  pub endpoint : Request → ℕ → Exchange Endpoint
  pub endpoints : Request → ℕ → Exchange (List Endpoint)
  pub nothing : Request → ℕ → Exchange (Unit {0})

abbrev absent : NullableString
absent = record { present = false; null = false; value = "" }

-- The zero values that a blank response leaves in place.
abbrev pub blank_template : Template
blank_template = record {
  id = "";
  name = "";
  category = "";
  image_name = "";
  is_public = none;
  is_runpod = none;
  is_serverless = none;
  container_disk_in_gb = none;
  docker_entrypoint = none;
  docker_start_cmd = none;
  ports = none;
  readme = absent;
  volume_in_gb = none;
  volume_mount_path = absent;
  env = none;
  container_registry_auth_id = absent;
}

abbrev pub blank_endpoint : Endpoint
blank_endpoint = record {
  id = "";
  name = "";
  template_id = "";
  compute_type = "";
  gpu_count = ℤ.pos 0;
  gpu_type_ids = [];
  allowed_cuda_versions = none;
  data_center_ids = [];
  workers_min = none;
  workers_max = none;
  idle_timeout = ℤ.pos 0;
  scaler_type = "";
  scaler_value = ℤ.pos 0;
  execution_timeout_ms = ℤ.pos 0;
  flash_boot = none;
  network_volume_id = absent;
  network_volume_ids = none;
  min_cuda_version = absent;
  env = none;
  instance_ids = [];
  version = none;
  workers = none;
  template = none;
}

abbrev pub settled : {A : Type 0} → Result A → Outcome A
settled r = record { result = r; sent = []; slept = [] }

-- One call after another: what the second sends comes after what the first sent.
infixl 5 ◌>>=◌ ◌>>◌
unfoldable pub continue : {A B : Type 0} → Outcome A → Result A → (A → Outcome B) → Outcome B
continue o (ok a) f =
    let p = f a in
    record { result = p.result; sent = List.◌++◌ o.sent p.sent; slept = List.◌++◌ o.slept p.slept }
continue o (err e) f = record { result = err e; sent = o.sent; slept = o.slept }

abbrev pub ◌>>=◌ : {A B : Type 0} → Outcome A → (A → Outcome B) → Outcome B
o >>= f = continue o o.result f

abbrev pub ◌>>◌ : {A B : Type 0} → Outcome A → Outcome B → Outcome B
o >> p = o >>= λ _. p

abbrev forgiven : Result (Unit {0}) → Result (Unit {0})
forgiven (err not_found) = ok tt
forgiven r = r

-- `errors.Is(err, ErrNotFound)` is let pass.
abbrev pub forgive_not_found : Outcome (Unit {0}) → Outcome (Unit {0})
forgive_not_found o = record o { result = forgiven o.result }

-- The loop of `FindTemplateByName` and `FindEndpointByName`, which differ in the type alone.
pub find_loop : {A : Type 0} → (A → String) → String → Option A → List A → Result A
find_loop name_of name none [] = err not_found
find_loop name_of name (some x) [] = ok x
find_loop name_of name found (x ∷ xs) = elim (str_eq (name_of x) name) [
  | false ↦ find_loop name_of name found xs
  | true ↦ elim found [ none ↦ find_loop name_of name (some x) xs | some _ ↦ err ambiguous ]
]

-- The loops that validate each listed item.
abbrev pub validate_all : {A : Type 0} → (A → Result (Unit {0})) → List A → Result (Unit {0})
validate_all check [] = ok tt
validate_all check (x ∷ xs) = elim (check x) [ err e ↦ err e | ok _ ↦ validate_all check xs ]

abbrev pub request : Method → String → Body → Request
request method path body = record { method = method; path = path; body = body }

abbrev accept_created_template : TemplateInput → Template → Result Template
accept_created_template input out =
    if str_eq out.id ""
    then err (create_ambiguous "")
    else if not (is_ok (validate_template_response out)) || not (str_eq out.name input.name)
    then err (create_ambiguous "RunPod Template success response has an invalid resource ID")
    else ok out

abbrev accept_created_endpoint : EndpointInput → Endpoint → Result Endpoint
accept_created_endpoint input out =
    if str_eq out.id ""
    then err (create_ambiguous "")
    else if not (is_ok (validate_endpoint_observation out))
        || not (str_eq out.name input.name)
        || not (str_eq out.template_id input.template_id)
    then err (create_ambiguous "RunPod Endpoint success response has an invalid resource ID")
    else ok out

abbrev omits_evidence : Endpoint → Bool
omits_evidence out =
    str_eq out.id ""
    || str_eq out.template_id ""
    || not (is_some out.workers_min)
    || not (is_some out.workers_max)
    || not (is_some out.version)
    || not (is_some out.workers)
    || not (is_some out.template)

module _ (server : Server) where
  abbrev pub call_template : Request → Outcome Template
  call_template r = do_json blank_template true (server.interrupted r) (server.template r) r

  abbrev call_templates : Request → Outcome (List Template)
  call_templates r = do_json [] true (server.interrupted r) (server.templates r) r

  abbrev pub call_endpoint : Request → Outcome Endpoint
  call_endpoint r = do_json blank_endpoint true (server.interrupted r) (server.endpoint r) r

  abbrev pub call_endpoints : Request → Outcome (List Endpoint)
  call_endpoints r = do_json [] true (server.interrupted r) (server.endpoints r) r

  abbrev pub call : Request → Outcome (Unit {0})
  call r = do_json tt false (server.interrupted r) (server.nothing r) r

  unfoldable pub get_template : String → Outcome Template
  get_template id = do
    escaped ← settled (safe_id id)
    out ←
        call_template
          (request get ("/templates/" ++ escaped ++ "?includeEndpointBoundTemplates=true") no_body)
    settled (
        if is_ok (validate_template_response out) && str_eq out.id id
        then ok out
        else err (failure "RunPod Template response has an invalid resource ID"))

  unfoldable pub list_templates : Outcome (List Template)
  list_templates = do
    out ← call_templates (request get "/templates?includeEndpointBoundTemplates=true" no_body)
    settled (validate_all validate_template_response out)
    settled (ok out)

  unfoldable pub find_template_by_name : String → Outcome Template
  unfolding find_loop
  find_template_by_name name = do
    all ← list_templates
    settled (find_loop Template.name name none all)

  unfoldable pub create_template : TemplateInput → Outcome Template
  create_template given = do
    let input = normalize_template_input given
    out ← call_template (request post "/templates" (template_input input))
    settled (accept_created_template input out)

  unfoldable pub update_template : String → TemplateInput → Outcome Template
  unfolding get_template
  update_template id given = do
    escaped ← settled (safe_id id)
    let input = normalize_template_input (record given { is_serverless = false })
    out ←
        call_template
          (request patch ("/templates/" ++ escaped) (template_update (template_update_input input)))
    if str_eq out.id ""
        then get_template id
        else settled (
            if is_ok (validate_template_response out)
              && str_eq out.id id
              && str_eq out.name input.name
            then ok out
            else err (failure "RunPod Template update response has an invalid resource ID"))

  unfoldable pub delete_template : String → Outcome (Unit {0})
  delete_template id = do
    escaped ← settled (safe_id id)
    call (request delete ("/templates/" ++ escaped) no_body)

  unfoldable pub get_endpoint : String → Outcome Endpoint
  get_endpoint id = do
    escaped ← settled (safe_id id)
    out ← call_endpoint (
        request get ("/endpoints/" ++ escaped ++ "?includeTemplate=true&includeWorkers=true")
          no_body)
    settled (
        if is_ok (validate_endpoint_observation out) && str_eq out.id id
        then ok out
        else err (failure "RunPod Endpoint response has an invalid resource ID"))

  unfoldable pub list_endpoints : Outcome (List Endpoint)
  list_endpoints = do
    out ← call_endpoints (request get "/endpoints?includeTemplate=true&includeWorkers=true" no_body)
    settled (validate_all validate_endpoint_observation out)
    settled (ok out)

  unfoldable pub find_endpoint_by_name : String → Outcome Endpoint
  unfolding find_loop
  find_endpoint_by_name name = do
    all ← list_endpoints
    settled (find_loop Endpoint.name name none all)

  unfoldable pub create_endpoint : EndpointInput → Outcome Endpoint
  create_endpoint given = do
    settled (validate_runpod_id given.template_id)
    let input = normalize_endpoint_input given
    out ← call_endpoint (request post "/endpoints" (endpoint_input input))
    settled (accept_created_endpoint input out)

  unfoldable pub update_endpoint : String → EndpointInput → Outcome Endpoint
  unfolding get_endpoint
  update_endpoint id given = do
    escaped ← settled (safe_id id)
    settled (validate_runpod_id given.template_id)
    let input = normalize_endpoint_input given
    out ←
        call_endpoint
          (request patch ("/endpoints/" ++ escaped) (endpoint_update (endpoint_update_input input)))
    if omits_evidence out
        then get_endpoint id
        else settled (
            if is_ok (validate_endpoint_observation out)
              && str_eq out.id id
              && str_eq out.name input.name
              && str_eq out.template_id input.template_id
            then ok out
            else err (failure "RunPod Endpoint update response has an invalid resource ID"))

  -- Both worker bounds go to zero before the deletion.
  unfoldable pub delete_endpoint : String → Outcome (Unit {0})
  delete_endpoint id = do
    escaped ← settled (safe_id id)
    forgive_not_found (call (request patch ("/endpoints/" ++ escaped) zero_workers))
    call (request delete ("/endpoints/" ++ escaped) no_body)
