-- ===== src/Client/Types.antt =====
-- internal/client/runpod/types.go: the wire records. A pointer, or a slice or map that the program
-- compares with nil, is an `Option`; a slice whose nil and empty values it treats alike is a `List`.
use provider_runpod.Base.{String, ℤ, Bool, true, false, List, Option, StringMap}
use provider_runpod.Float.{Float64}
use provider_runpod.Json.{Json}

pub record NullableString : Type 0 where
  pub present : Bool
  pub null : Bool
  pub value : String

abbrev pub string_value : String → NullableString
string_value v = record { present = true; null = false; value = v }

abbrev pub null_string : NullableString
null_string = record { present = true; null = true; value = "" }

pub record NullableDecimal : Type 0 where
  pub present : Bool
  pub null : Bool
  pub value : Float64

abbrev pub decimal_value : Float64 → NullableDecimal
decimal_value v = record { present = true; null = false; value = v }

pub record TemplateInput : Type 0 where
  pub name : String
  pub category : String
  pub image_name : String
  pub is_public : Bool
  pub is_serverless : Bool
  pub container_disk_in_gb : ℤ
  pub docker_entrypoint : Option (List String)
  pub docker_start_cmd : Option (List String)
  pub ports : List String
  pub readme : String
  pub volume_in_gb : ℤ
  pub volume_mount_path : String
  pub env : Option StringMap
  pub container_registry_auth_id : String

pub record TemplateUpdateInput : Type 0 where
  pub name : String
  pub image_name : String
  pub is_public : Bool
  pub container_disk_in_gb : ℤ
  pub docker_entrypoint : Option (List String)
  pub docker_start_cmd : Option (List String)
  pub ports : List String
  pub readme : String
  pub volume_in_gb : ℤ
  pub volume_mount_path : String
  pub env : Option StringMap
  pub container_registry_auth_id : String

pub record Template : Type 0 where
  pub id : String
  pub name : String
  pub category : String
  pub image_name : String
  pub is_public : Option Bool
  pub is_runpod : Option Bool
  pub is_serverless : Option Bool
  pub container_disk_in_gb : Option ℤ
  pub docker_entrypoint : Option (List String)
  pub docker_start_cmd : Option (List String)
  pub ports : Option (List String)
  pub readme : NullableString
  pub volume_in_gb : Option ℤ
  pub volume_mount_path : NullableString
  pub env : Option StringMap
  pub container_registry_auth_id : NullableString

pub record EndpointInput : Type 0 where
  pub name : String
  pub template_id : String
  pub compute_type : String
  pub gpu_count : ℤ
  pub gpu_type_ids : List String
  pub allowed_cuda_versions : Option (List String)
  pub data_center_ids : List String
  pub workers_min : ℤ
  pub workers_max : ℤ
  pub idle_timeout : ℤ
  pub scaler_type : String
  pub scaler_value : ℤ
  pub execution_timeout_ms : ℤ
  pub flash_boot : Bool
  pub network_volume_id : String
  pub network_volume_ids : Option (List String)
  pub min_cuda_version : String

pub record EndpointUpdateInput : Type 0 where
  pub name : String
  pub template_id : String
  pub gpu_count : ℤ
  pub gpu_type_ids : List String
  pub allowed_cuda_versions : Option (List String)
  pub data_center_ids : List String
  pub workers_min : ℤ
  pub workers_max : ℤ
  pub idle_timeout : ℤ
  pub scaler_type : String
  pub scaler_value : ℤ
  pub execution_timeout_ms : ℤ
  pub flash_boot : Bool
  pub network_volume_id : String
  pub network_volume_ids : Option (List String)
  pub min_cuda_version : String

pub record EndpointWorkerGpu : Type 0 where
  pub count : Option ℤ

pub record EndpointWorkerMachine : Type 0 where
  pub gpu_type_id : Option String
  pub data_center_id : Option String
  pub secure_cloud : Option Bool
  pub cost_per_hr : NullableDecimal
  pub current_price_per_gpu : NullableDecimal

-- A raw JSON field is `none` if the response omits it, and one JSON value otherwise.
pub record EndpointWorker : Type 0 where
  pub id : NullableString
  pub endpoint_id : NullableString
  pub template_id : NullableString
  pub adjusted_cost_per_hr : NullableDecimal
  pub cost_per_hr : NullableDecimal
  pub desired_status : NullableString
  pub interruptible : Option Bool
  pub public_ip : NullableString
  pub port_mappings : Option Json
  pub savings_plans : Option Json
  pub sls_version : Option ℤ
  pub image : NullableString
  pub container_disk_in_gb : Option ℤ
  pub container_registry_auth_id : NullableString
  pub docker_entrypoint : Option (List String)
  pub docker_start_cmd : Option (List String)
  pub ports : Option (List String)
  pub env : Option StringMap
  pub volume_in_gb : Option ℤ
  pub volume_mount_path : NullableString
  pub volume_encrypted : Option Bool
  pub network_volume : Option Json
  pub gpu : Option EndpointWorkerGpu
  pub machine : Option EndpointWorkerMachine
  pub locked : Option Bool

pub record Endpoint : Type 0 where
  pub id : String
  pub name : String
  pub template_id : String
  pub compute_type : String
  pub gpu_count : ℤ
  pub gpu_type_ids : List String
  pub allowed_cuda_versions : Option (List String)
  pub data_center_ids : List String
  pub workers_min : Option ℤ
  pub workers_max : Option ℤ
  pub idle_timeout : ℤ
  pub scaler_type : String
  pub scaler_value : ℤ
  pub execution_timeout_ms : ℤ
  pub flash_boot : Option Bool
  pub network_volume_id : NullableString
  pub network_volume_ids : Option (List String)
  pub min_cuda_version : NullableString
  pub env : Option StringMap
  pub instance_ids : List String
  pub version : Option ℤ
  pub workers : Option (List EndpointWorker)
  pub template : Option Template
