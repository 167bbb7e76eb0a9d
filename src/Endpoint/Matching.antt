-- ===== src/Endpoint/Matching.antt =====
-- internal/controller/endpoint/endpoint.go: when an external Endpoint is the one that the spec asks
-- for, on the bound Template, with workers inside the bounds on image, storage, placement and cost.
pub mod Workers
use provider_runpod.Base.{
  String, ℤ, pos, int_eq, int_leb, Bool, true, false, not, ◌&&◌, ◌||◌, List, Option, none, some,
  is_some, length, is_empty, str_eq, strings_eq, has_string, all, Result, ok, err, failure,
  if◌then◌else◌, has_bool, has_int, has_strings, has_empty, value_or_nil,
}
use provider_runpod.Apis.{same_version}
use provider_runpod.Float.{Float64, fin, is_finite, float_leb, milli_to_float}
use provider_runpod.Json.{Json, Items, Members}
use provider_runpod.Client.Types.{
  NullableString, NullableDecimal, Template, Endpoint, EndpointInput, EndpointWorker,
  EndpointWorkerGpu, EndpointWorkerMachine,
}
use provider_runpod.Endpoint.Settings.{TemplateBinding}

-- `s.Present && (s.Null || s.Value == "")`
abbrev pub is_blank : NullableString → Bool
is_blank s = s.present && (s.null || str_eq s.value "")

-- `s.Present && !s.Null && s.Value == v`
abbrev pub is_text : NullableString → String → Bool
is_text s v = s.present && not s.null && str_eq s.value v

-- `s.Present && (s.Null || s.Value == v)`
abbrev pub is_null_or : NullableString → String → Bool
is_null_or s v = s.present && (s.null || str_eq s.value v)

unfoldable pub endpoint_matches_input : EndpointInput → Endpoint → Bool
endpoint_matches_input want got =
    str_eq got.name want.name
    && str_eq got.template_id want.template_id
    && str_eq got.compute_type "GPU"
    && int_eq got.gpu_count (pos 1)
    && has_int got.workers_min want.workers_min
    && has_int got.workers_max want.workers_max
    && is_some got.version
    && int_eq got.idle_timeout want.idle_timeout
    && str_eq got.scaler_type want.scaler_type
    && int_eq got.scaler_value want.scaler_value
    && int_eq got.execution_timeout_ms want.execution_timeout_ms
    && (not (is_some got.flash_boot) || has_bool got.flash_boot want.flash_boot)
    && is_blank got.network_volume_id
    && has_empty got.network_volume_ids
    && is_blank got.min_cuda_version
    && has_empty got.env
    && is_empty got.instance_ids
    && strings_eq got.gpu_type_ids want.gpu_type_ids
    && has_strings got.allowed_cuda_versions (value_or_nil want.allowed_cuda_versions)
    && strings_eq got.data_center_ids want.data_center_ids

abbrev template_matches : Template → TemplateBinding → Bool
template_matches t binding =
    str_eq t.id binding.id
    && str_eq t.name binding.name
    && str_eq t.category "NVIDIA"
    && str_eq t.image_name binding.image
    && has_bool t.is_public false
    && has_bool t.is_runpod false
    && has_bool t.is_serverless true
    && has_int t.container_disk_in_gb binding.container_disk_gb
    && has_int t.volume_in_gb (pos 0)
    && has_empty t.env
    && is_blank t.container_registry_auth_id
    && is_text t.readme ""
    && is_text t.volume_mount_path ""
    && has_strings t.docker_entrypoint binding.entrypoint
    && has_strings t.docker_start_cmd binding.start_cmd
    && has_strings t.ports binding.ports

abbrev of_template : Option Template → TemplateBinding → Bool
of_template none binding = false
of_template (some t) binding = template_matches t binding

unfoldable pub endpoint_template_matches : Endpoint → TemplateBinding → Bool
endpoint_template_matches got binding = of_template got.template binding

unfoldable pub bounded_cost : NullableDecimal → Float64 → Bool
bounded_cost value maximum =
    value.present
    && not value.null
    && is_finite value.value
    && float_leb (fin (pos 0) 0) value.value
    && float_leb value.value maximum

-- A raw field that was sent, as null or as an empty array or object.
abbrev pub empty_container_or_null : Option Json → Bool
empty_container_or_null none = false
empty_container_or_null (some Json.null) = true
empty_container_or_null (some (Json.arr Items.nil)) = true
empty_container_or_null (some (Json.obj Members.end)) = true
empty_container_or_null (some _) = false

abbrev pub is_json_null : Option Json → Bool
is_json_null (some Json.null) = true
is_json_null _ = false

abbrev is_one_gpu : Option EndpointWorkerGpu → Bool
is_one_gpu none = false
is_one_gpu (some gpu) = has_int gpu.count (pos 1)

abbrev pub listed : List String → Option String → Bool
listed allowed none = false
listed allowed (some v) = has_string allowed v

-- The part of the worker test that is about the machine.
unfoldable pub machine_matches : EndpointInput → Float64 → Option EndpointWorkerMachine → Bool
unfolding bounded_cost
machine_matches want max_cost none = false
machine_matches want max_cost (some m) =
    listed want.gpu_type_ids m.gpu_type_id
    && listed want.data_center_ids m.data_center_id
    && has_bool m.secure_cloud true
    && bounded_cost m.cost_per_hr max_cost
    && bounded_cost m.current_price_per_gpu max_cost

-- The body of the loop of `endpointWorkersMatch`, as the conjunction of what it does not reject.
unfoldable pub worker_matches :
    EndpointInput → Endpoint → TemplateBinding → Float64 → EndpointWorker → Bool
worker_matches want got template max_cost worker =
    worker.id.present
    && not worker.id.null
    && is_null_or worker.endpoint_id got.id
    && is_null_or worker.template_id got.template_id
    && same_version worker.sls_version got.version
    && is_text worker.image template.image
    && has_int worker.container_disk_in_gb template.container_disk_gb
    && is_blank worker.container_registry_auth_id
    && has_strings worker.docker_entrypoint template.entrypoint
    && has_strings worker.docker_start_cmd template.start_cmd
    && has_strings worker.ports template.ports
    && has_empty worker.env
    && has_int worker.volume_in_gb (pos 0)
    && is_blank worker.volume_mount_path
    && is_some worker.volume_encrypted
    && is_json_null worker.network_volume
    && is_blank worker.public_ip
    && empty_container_or_null worker.port_mappings
    && empty_container_or_null worker.savings_plans
    && is_text worker.desired_status "RUNNING"
    && has_bool worker.interruptible false
    && bounded_cost worker.adjusted_cost_per_hr max_cost
    && bounded_cost worker.cost_per_hr max_cost
    && has_bool worker.locked false
    && is_one_gpu worker.gpu
    && machine_matches want max_cost worker.machine

abbrev workers_listed_match :
    EndpointInput → Endpoint → TemplateBinding → ℤ → Option (List EndpointWorker) → Option ℤ → Bool
workers_listed_match want got template max_cost none most = false
workers_listed_match want got template max_cost (some workers) none = false
workers_listed_match want got template max_cost (some workers) (some most) =
    int_leb (pos (length workers)) most
    && int_leb (pos (length workers)) want.workers_max
    && all (worker_matches want got template (milli_to_float max_cost)) workers

unfoldable pub endpoint_workers_match : EndpointInput → Endpoint → TemplateBinding → ℤ → Bool
endpoint_workers_match want got template max_cost =
    workers_listed_match want got template max_cost got.workers got.workers_max

unfoldable pub unrepairable_external_state : Endpoint → EndpointInput → Result (Unit {0})
unrepairable_external_state got want =
    if not (str_eq got.compute_type "GPU")
    then err (
        failure
          "RunPod Endpoint computeType is not GPU and the official update API cannot change it")
    else if not (is_some got.env)
    then err (
        failure
          "RunPod Endpoint response omitted environment evidence that the official update API cannot establish")
    else if not (has_empty got.env)
    then err (
        failure
          "RunPod Endpoint has unmanaged environment variables that the official update API cannot clear")
    else if str_eq got.compute_type "GPU" && not (is_empty got.instance_ids)
    then err (
        failure
          "RunPod GPU Endpoint has CPU-only instanceIds that the official update API cannot clear")
    else if not got.network_volume_id.present
        || not (is_some got.network_volume_ids)
        || not got.min_cuda_version.present
        || not (is_some got.allowed_cuda_versions)
    then err (
        failure
          "RunPod Endpoint response omitted bounded storage or CUDA evidence; refusing a rolling PATCH loop")
    else if (not got.network_volume_id.null && not (str_eq got.network_volume_id.value ""))
        || not (has_empty got.network_volume_ids)
    then err (
        failure
          "RunPod Endpoint has attached persistent network storage and the official update API documents no safe clear sentinel")
    else if not got.min_cuda_version.null && not (str_eq got.min_cuda_version.value "")
    then err (
        failure
          "RunPod Endpoint has a minimum CUDA override and the official update API documents no safe clear sentinel")
    else if is_empty (value_or_nil want.allowed_cuda_versions)
        && not (has_empty got.allowed_cuda_versions)
    then err (
        failure
          "RunPod Endpoint has an allowed CUDA override and an empty-array clear is not part of the bounded wire contract")
    else ok tt
