-- ===== src/Tests/Fixtures.antt =====
-- An Endpoint object, the external Endpoint that conforms to it, and the Template that it is bound to.
use provider_runpod.Base.{ℕ, pos, true, false, [], ◌∷◌, none, some, StringMap}
use provider_runpod.Float.{fin}
use provider_runpod.Json.{Json}
use provider_runpod.Client.Types.{
  Template, Endpoint, EndpointInput, EndpointWorker, EndpointWorkerMachine, string_value,
  null_string, decimal_value,
}
use provider_runpod.Apis.{
  ObjectMeta, EndpointResource, EndpointParameters, EndpointObservation, seconds,
}
use provider_runpod.Endpoint.Settings.{TemplateBinding}

abbrev pub binding : TemplateBinding
binding = record {
  id = "tpl1";
  uid = "t-uid";
  generation = 3;
  image = "img@sha256:0";
  name = "tpl-xp-t";
  container_disk_gb = pos 50;
  entrypoint = [];
  start_cmd = [];
  ports = [];
}

abbrev pub spec : EndpointParameters
spec = record {
  max_lifetime_seconds = 3600;
  delete_referenced_template_on_expiry = none;
  name = "model";
  template_id_ref = some "tpl";
  gpu_type_ids = "A100" ∷ [];
  allowed_cuda_versions = none;
  data_center_ids = "EU-1" ∷ [];
  workers_min = pos 1;
  workers_max = pos 1;
  max_worker_cost_milli_usd_per_hour = pos 2000;
  idle_timeout = pos 5;
  scaler_type = "QUEUE_DELAY";
  scaler_value = pos 4;
  execution_timeout_ms = pos 600000;
}

abbrev pub unobserved : EndpointObservation
unobserved = record {
  id = "";
  template_id = "";
  template_resource_uid = "";
  template_resource_generation = 0;
  template_image_digest = "";
  version = none;
  flash_boot_disabled = false;
  flash_boot_evidence_version = none;
  flash_boot_last_enforced_at = 0;
  worker_security_validated = false;
  worker_security_proof_version = none;
  worker_security_observed_at = 0;
  workers_min = pos 0;
  workers_max = pos 0;
  inference_url = "";
  last_observed_at = 0;
}

abbrev pub created_at : ℕ
created_at = seconds 1000

abbrev pub meta_with : StringMap → ObjectMeta
meta_with annotations = record {
  name = "model";
  namespace = "ns";
  uid = "U1";
  generation = 2;
  creation_timestamp = created_at;
  is_deleting = false;
  annotations = annotations;
  finalizers = [];
}

abbrev pub new_object : EndpointResource
new_object = record {
  metadata = meta_with [];
  spec = spec;
  observed_generation = 0;
  conditions = [];
  at_provider = unobserved;
}

-- The object after the binding of its Endpoint, with a write confirmed at the given time.
abbrev pub bound_object : EndpointResource
bound_object = record new_object {
  metadata = meta_with (
      ("crossplane.io/external-name", "ep1")
      ∷ ("endpoint.serverless.runpod.crossplane.io/external-id-bound", "true")
      ∷ []);
  at_provider = record unobserved {
    id = "ep1";
    template_resource_uid = "t-uid";
    template_resource_generation = 3;
    template_image_digest = "img@sha256:0";
    version = some (pos 7);
    flash_boot_disabled = true;
    flash_boot_evidence_version = some (pos 7);
    flash_boot_last_enforced_at = seconds 1200;
  };
}

abbrev pub machine : EndpointWorkerMachine
machine = record {
  gpu_type_id = some "A100";
  data_center_id = some "EU-1";
  secure_cloud = some true;
  cost_per_hr = decimal_value (fin (pos 3) 1);
  current_price_per_gpu = decimal_value (fin (pos 1) 0);
}

abbrev pub worker : EndpointWorker
worker = record {
  id = string_value "w1";
  endpoint_id = string_value "ep1";
  template_id = string_value "tpl1";
  adjusted_cost_per_hr = decimal_value (fin (pos 3) 1);
  cost_per_hr = decimal_value (fin (pos 3) 1);
  desired_status = string_value "RUNNING";
  interruptible = some false;
  public_ip = null_string;
  port_mappings = some Json.null;
  savings_plans = some Json.null;
  sls_version = some (pos 7);
  image = string_value "img@sha256:0";
  container_disk_in_gb = some (pos 50);
  container_registry_auth_id = null_string;
  docker_entrypoint = some [];
  docker_start_cmd = some [];
  ports = some [];
  env = some [];
  volume_in_gb = some (pos 0);
  volume_mount_path = string_value "";
  volume_encrypted = some false;
  network_volume = some Json.null;
  gpu = some (record { count = some (pos 1) });
  machine = some machine;
  locked = some false;
}

abbrev pub template : Template
template = record {
  id = "tpl1";
  name = "tpl-xp-t";
  category = "NVIDIA";
  image_name = "img@sha256:0";
  is_public = some false;
  is_runpod = some false;
  is_serverless = some true;
  container_disk_in_gb = some (pos 50);
  docker_entrypoint = some [];
  docker_start_cmd = some [];
  ports = some [];
  readme = string_value "";
  volume_in_gb = some (pos 0);
  volume_mount_path = string_value "";
  env = some [];
  container_registry_auth_id = null_string;
}

abbrev pub endpoint : Endpoint
endpoint = record {
  id = "ep1";
  name = "model-xp-u1";
  template_id = "tpl1";
  compute_type = "GPU";
  gpu_count = pos 1;
  gpu_type_ids = "A100" ∷ [];
  allowed_cuda_versions = some [];
  data_center_ids = "EU-1" ∷ [];
  workers_min = some (pos 1);
  workers_max = some (pos 1);
  idle_timeout = pos 5;
  scaler_type = "QUEUE_DELAY";
  scaler_value = pos 4;
  execution_timeout_ms = pos 600000;
  flash_boot = none;
  network_volume_id = null_string;
  network_volume_ids = some [];
  min_cuda_version = null_string;
  env = some [];
  instance_ids = [];
  version = some (pos 7);
  workers = some (worker ∷ []);
  template = some template;
}

-- The same Endpoint, with flashboot shown as off.
abbrev pub shown_endpoint : Endpoint
shown_endpoint = record endpoint { flash_boot = some false }

abbrev pub wanted : EndpointInput
wanted = record {
  name = "model-xp-u1";
  template_id = "tpl1";
  compute_type = "GPU";
  gpu_count = pos 1;
  gpu_type_ids = "A100" ∷ [];
  allowed_cuda_versions = none;
  data_center_ids = "EU-1" ∷ [];
  workers_min = pos 1;
  workers_max = pos 1;
  idle_timeout = pos 5;
  scaler_type = "QUEUE_DELAY";
  scaler_value = pos 4;
  execution_timeout_ms = pos 600000;
  flash_boot = false;
  network_volume_id = "";
  network_volume_ids = some [];
  min_cuda_version = "";
}
