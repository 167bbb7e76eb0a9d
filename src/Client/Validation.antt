-- ===== src/Client/Validation.antt =====
-- internal/client/runpod/client.go: what a response must hold before the controllers see it, and the
-- inputs as they are sent.
pub mod Observed
use provider_runpod.Base.{
  String, pos, int_eq, Bool, true, not, ◌&&◌, ◌||◌, List, [], ◌∷◌, Option, none, some, is_some,
  str_eq, Result, ok, err, failure, if◌then◌else◌, and_then, require,
}
use provider_runpod.Identifier.{validate_runpod_id, is_runpod_id}
use provider_runpod.Client.Types.{
  NullableString, Template, TemplateInput, TemplateUpdateInput, Endpoint, EndpointInput,
  EndpointUpdateInput, EndpointWorker,
}

unfoldable pub validate_template_response : Template → Result (Unit {0})
validate_template_response template = validate_runpod_id template.id

-- `!p || (!n && v != expected)`, the identity test that an explicit null passes.
abbrev pub mismatched : NullableString → String → Bool
mismatched s expected = not s.present || (not s.null && not (str_eq s.value expected))

unfoldable pub validate_endpoint_response : Endpoint → Result (Unit {0})
validate_endpoint_response endpoint = and_then (validate_runpod_id endpoint.id) λ _.
    require (is_runpod_id endpoint.template_id)
      (failure "RunPod Endpoint response omitted or returned an invalid templateId")

unfoldable pub worker_identity_broken : Endpoint → EndpointWorker → Bool
worker_identity_broken endpoint worker =
    not worker.id.present
    || worker.id.null
    || not (is_runpod_id worker.id.value)
    || mismatched worker.endpoint_id endpoint.id
    || mismatched worker.template_id endpoint.template_id
    || not (is_some worker.sls_version)

unfoldable pub check_workers : Endpoint → List EndpointWorker → Result (Unit {0})
check_workers endpoint [] = ok tt
check_workers endpoint (worker ∷ workers) =
    if worker_identity_broken endpoint worker
    then err
        (failure "RunPod Endpoint worker response omitted or returned an invalid identity binding")
    else check_workers endpoint workers

abbrev check_bound_template : Endpoint → Option Template → Result (Unit {0})
check_bound_template endpoint none = err (
    failure
      "RunPod Endpoint response omitted or mismatched the bound Template after includeTemplate=true")
check_bound_template endpoint (some template) =
    if not (str_eq template.id endpoint.template_id)
    then err (
        failure
          "RunPod Endpoint response omitted or mismatched the bound Template after includeTemplate=true")
    else require (is_runpod_id template.id)
        (failure "RunPod Endpoint response returned an invalid bound Template ID")

abbrev check_listed_workers : Endpoint → Option (List EndpointWorker) → Result (Unit {0})
check_listed_workers endpoint none =
    err (failure "RunPod Endpoint response omitted workers after includeWorkers=true")
check_listed_workers endpoint (some workers) =
    and_then (check_bound_template endpoint endpoint.template) λ _. check_workers endpoint workers

unfoldable pub validate_endpoint_observation : Endpoint → Result (Unit {0})
unfolding validate_endpoint_response check_workers worker_identity_broken
validate_endpoint_observation endpoint = and_then (validate_endpoint_response endpoint) λ _.
    if not
      (is_some endpoint.workers_min && is_some endpoint.workers_max && is_some endpoint.version)
    then err (failure "RunPod Endpoint response omitted workersMin, workersMax, or version")
    else check_listed_workers endpoint endpoint.workers

abbrev or_default {ℓ} : {A : Type ℓ} → A → Option A → Option A
or_default d none = some d
or_default d (some v) = some v

unfoldable pub normalize_template_input : TemplateInput → TemplateInput
normalize_template_input t = record t {
  category = if str_eq t.category "" then "NVIDIA" else t.category;
  container_disk_in_gb =
      if int_eq t.container_disk_in_gb (pos 0) then pos 50 else t.container_disk_in_gb;
  docker_entrypoint = or_default [] t.docker_entrypoint;
  docker_start_cmd = or_default [] t.docker_start_cmd;
  env = or_default [] t.env;
}

unfoldable pub template_update_input : TemplateInput → TemplateUpdateInput
unfolding normalize_template_input
template_update_input t =
    let n = normalize_template_input t in
    record {
      name = n.name;
      image_name = n.image_name;
      is_public = n.is_public;
      container_disk_in_gb = n.container_disk_in_gb;
      docker_entrypoint = n.docker_entrypoint;
      docker_start_cmd = n.docker_start_cmd;
      ports = n.ports;
      readme = n.readme;
      volume_in_gb = n.volume_in_gb;
      volume_mount_path = n.volume_mount_path;
      env = n.env;
      container_registry_auth_id = n.container_registry_auth_id;
    }

unfoldable pub normalize_endpoint_input : EndpointInput → EndpointInput
normalize_endpoint_input e = record e {
  allowed_cuda_versions = or_default [] e.allowed_cuda_versions;
  network_volume_ids = or_default [] e.network_volume_ids;
}

unfoldable pub endpoint_update_input : EndpointInput → EndpointUpdateInput
unfolding normalize_endpoint_input
endpoint_update_input e =
    let n = normalize_endpoint_input e in
    record {
      name = n.name;
      template_id = n.template_id;
      gpu_count = n.gpu_count;
      gpu_type_ids = n.gpu_type_ids;
      allowed_cuda_versions = n.allowed_cuda_versions;
      data_center_ids = n.data_center_ids;
      workers_min = n.workers_min;
      workers_max = n.workers_max;
      idle_timeout = n.idle_timeout;
      scaler_type = n.scaler_type;
      scaler_value = n.scaler_value;
      execution_timeout_ms = n.execution_timeout_ms;
      flash_boot = n.flash_boot;
      network_volume_id = n.network_volume_id;
      network_volume_ids = n.network_volume_ids;
      min_cuda_version = n.min_cuda_version;
    }
