-- ===== src/Verification.antt =====
-- internal/controller/endpointcheck/endpointcheck.go: the decisions of the EndpointCheck controller on
-- when to verify, when the result admits a route, and when to come again.
pub mod Due
pub mod Resolve
pub mod Reconcile
use Prim.Native.String.{◌++◌}
use provider_runpod.Base.{
  ℕ, ◌-◌, ◌+◌, String, ℤ, Bool, true, not, ◌&&◌, ◌||◌, some, ltb, leb, ◌==◌, str_eq, has_int,
  if◌then◌else◌,
}
use provider_runpod.Apis.{EndpointCheck, EndpointCheckObservation, Time, seconds, is_zero, before}

-- `endpointBinding`: the Endpoint and the Template that a check is about, and the proof of its workers.
pub record EndpointBinding : Type 0 where
  pub id : String
  pub resource_uid : String
  pub resource_generation : ℕ
  pub version : ℤ
  pub expires_at : Time
  pub template_uid : String
  pub template_generation : ℕ
  pub template_image : String
  pub worker_proven : Bool
  pub worker_observed_at : Time

-- `inference.Result`
pub record Result : Type 0 where
  pub healthy : Bool
  pub model_verified : Bool
  pub tool_call_verified : Bool

abbrev pub poll_interval : ℕ
poll_interval = seconds 30

abbrev pub default_verification_interval : ℕ
default_verification_interval = seconds 3600

abbrev pub inference_url : String → String
inference_url id = if str_eq id "" then "" else "https://api.runpod.ai/v2/" ++ id ++ "/openai/v1"

unfoldable pub next_poll : Time → Time → ℕ
next_poll expires_at now =
    if leb expires_at now
    then seconds 1
    else if ltb (expires_at - now) poll_interval
    then expires_at - now
    else poll_interval

unfoldable pub observation :
    EndpointBinding → Result → String → Time → Time → Time → EndpointCheckObservation
observation binding result secret_version checked_at attempted_at verified_at = record {
  endpoint_id = binding.id;
  endpoint_resource_uid = binding.resource_uid;
  endpoint_resource_generation = binding.resource_generation;
  endpoint_version = some binding.version;
  template_resource_uid = binding.template_uid;
  template_resource_generation = binding.template_generation;
  template_image_digest = binding.template_image;
  healthy = result.healthy;
  model_verified = result.model_verified;
  tool_call_verified = result.tool_call_verified;
  inference_url = inference_url binding.id;
  credentials_secret_resource_version = secret_version;
  last_checked_at = checked_at;
  last_verification_attempt_at = attempted_at;
  last_verified_at = verified_at;
}

-- What both decisions compare: the generation, the binding and the Secret of the last observation.
abbrev pub same_subject : EndpointCheck → EndpointBinding → String → Bool
same_subject check binding secret_version =
    let observed = check.at_provider in
    check.observed_generation == check.metadata.generation
    && str_eq observed.endpoint_id binding.id
    && str_eq observed.endpoint_resource_uid binding.resource_uid
    && observed.endpoint_resource_generation == binding.resource_generation
    && has_int observed.endpoint_version binding.version
    && str_eq observed.template_resource_uid binding.template_uid
    && observed.template_resource_generation == binding.template_generation
    && str_eq observed.template_image_digest binding.template_image
    && str_eq observed.credentials_secret_resource_version secret_version

abbrev pub interval : EndpointCheck → ℕ
interval check =
    if check.spec.verification_interval_seconds == 0
    then default_verification_interval
    else seconds check.spec.verification_interval_seconds

-- The age is compared without a subtraction, which may be negative.
unfoldable pub full_verification_due : EndpointCheck → EndpointBinding → String → Time → Bool
full_verification_due check binding secret_version now =
    let attempt = check.at_provider.last_verification_attempt_at in
    if not (same_subject check binding secret_version)
    then true
    else if is_zero attempt
    then true
    else before now attempt || leb (attempt + interval check) now

unfoldable pub verification_admitted : EndpointCheck → EndpointBinding → String → Bool
verification_admitted check binding secret_version =
    let observed = check.at_provider in
    same_subject check binding secret_version
    && observed.healthy
    && observed.model_verified
    && observed.tool_call_verified
    && not (is_zero observed.last_verified_at)
    && binding.worker_proven
    && not (is_zero observed.last_verification_attempt_at)
    && ltb observed.last_verification_attempt_at binding.worker_observed_at
