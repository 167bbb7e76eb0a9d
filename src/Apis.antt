-- ===== src/Apis.antt =====
-- apis/: the Kubernetes objects, as far as the controllers and the router read and write them, and
-- what the program takes from crossplane-runtime, as a parameter with its laws.
pub mod Crossplane
pub mod Reader
use provider_runpod.Base.{
  ℕ, ◌+◌, ◌*◌, String, ℤ, int_eq, Bool, false, not, ◌&&◌, List, Option, some, StringMap, ltb, leb,
  ◌==◌,
}

-- A time is its nanoseconds since the zero time of Go, the start of year 1, so the zero time is 0.
abbrev pub Time : Type 0
Time = ℕ

abbrev pub seconds : ℕ → ℕ
seconds n = n * 1000000000

abbrev pub is_zero : Time → Bool
is_zero t = t == 0

-- `t.Before(u)`
abbrev pub before : Time → Time → Bool
before t u = ltb t u

-- The conditions of crossplane's common API that the program sets.
pub data Condition : Type 0 where
  creating deleting available unavailable reconcile_success reconcile_error : Condition

pub record ObjectMeta : Type 0 where
  pub name : String
  pub namespace : String
  pub uid : String
  pub generation : ℕ
  pub creation_timestamp : Time
  pub is_deleting : Bool
  pub annotations : StringMap
  pub finalizers : List String

pub record EndpointParameters : Type 0 where
  pub max_lifetime_seconds : ℕ
  pub delete_referenced_template_on_expiry : Option Bool
  pub name : String
  pub template_id_ref : Option String
  pub gpu_type_ids : List String
  pub allowed_cuda_versions : Option (List String)
  pub data_center_ids : List String
  pub workers_min : ℤ
  pub workers_max : ℤ
  pub max_worker_cost_milli_usd_per_hour : ℤ
  pub idle_timeout : ℤ
  pub scaler_type : String
  pub scaler_value : ℤ
  pub execution_timeout_ms : ℤ

pub record EndpointObservation : Type 0 where
  pub id : String
  pub template_id : String
  pub template_resource_uid : String
  pub template_resource_generation : ℕ
  pub template_image_digest : String
  pub version : Option ℤ
  pub flash_boot_disabled : Bool
  pub flash_boot_evidence_version : Option ℤ
  pub flash_boot_last_enforced_at : Time
  pub worker_security_validated : Bool
  pub worker_security_proof_version : Option ℤ
  pub worker_security_observed_at : Time
  pub workers_min : ℤ
  pub workers_max : ℤ
  pub inference_url : String
  pub last_observed_at : Time

-- `conditions` is the list of those set, the latest first.
pub record EndpointResource : Type 0 where
  pub metadata : ObjectMeta
  pub spec : EndpointParameters
  pub observed_generation : ℕ
  pub conditions : List Condition
  pub at_provider : EndpointObservation

pub record TemplateParameters : Type 0 where
  pub max_lifetime_seconds : ℕ
  pub name : String
  pub image_name : String
  pub container_disk_in_gb : Option ℤ
  pub docker_entrypoint : List String
  pub docker_start_cmd : List String
  pub ports : List String
  pub volume_in_gb : ℤ

pub record TemplateObservation : Type 0 where
  pub id : String
  pub name : String
  pub image_name : String
  pub is_serverless : Bool
  pub last_observed_at : Time

pub record TemplateResource : Type 0 where
  pub metadata : ObjectMeta
  pub spec : TemplateParameters
  pub observed_generation : ℕ
  pub conditions : List Condition
  pub at_provider : TemplateObservation

pub record SecretKeySelector : Type 0 where
  pub name : String
  pub key : String

pub record EndpointCheckParameters : Type 0 where
  pub max_lifetime_seconds : ℕ
  pub endpoint_id_ref : Option String
  pub expected_model_id : String
  pub inference_credentials_secret_ref : SecretKeySelector
  pub verification_interval_seconds : ℕ
  pub timeout_seconds : ℕ

pub record EndpointCheckObservation : Type 0 where
  pub endpoint_id : String
  pub endpoint_resource_uid : String
  pub endpoint_resource_generation : ℕ
  pub endpoint_version : Option ℤ
  pub template_resource_uid : String
  pub template_resource_generation : ℕ
  pub template_image_digest : String
  pub healthy : Bool
  pub model_verified : Bool
  pub tool_call_verified : Bool
  pub inference_url : String
  pub credentials_secret_resource_version : String
  pub last_checked_at : Time
  pub last_verification_attempt_at : Time
  pub last_verified_at : Time

pub record EndpointCheck : Type 0 where
  pub metadata : ObjectMeta
  pub spec : EndpointCheckParameters
  pub observed_generation : ℕ
  pub conditions : List Condition
  pub at_provider : EndpointCheckObservation

-- `*a == *b` where both pointers are set.
abbrev pub same_version : Option ℤ → Option ℤ → Bool
same_version (some a) (some b) = int_eq a b
same_version _ _ = false

-- `CreationTimestamp.Add(MaxLifetimeSeconds * time.Second)`
abbrev pub deadline : ObjectMeta → ℕ → Time
deadline m lifetime = m.creation_timestamp + seconds lifetime

abbrev pub flash_boot_evidence_max_age : ℕ
flash_boot_evidence_max_age = seconds 300

-- The two bounds on the age, `age >= -30s && age <= FlashBootEvidenceMaxAge`, without a subtraction.
unfoldable pub flash_boot_evidence_current : EndpointObservation → Time → Bool
flash_boot_evidence_current o now =
    o.flash_boot_disabled
    && same_version o.flash_boot_evidence_version o.version
    && not (is_zero o.flash_boot_last_enforced_at)
    && leb o.flash_boot_last_enforced_at (now + seconds 30)
    && leb now (o.flash_boot_last_enforced_at + flash_boot_evidence_max_age)

unfoldable pub worker_security_evidence_current : EndpointObservation → Bool
worker_security_evidence_current o =
    o.worker_security_validated
    && same_version o.version o.worker_security_proof_version
    && not (is_zero o.worker_security_observed_at)
