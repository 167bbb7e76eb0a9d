-- ===== src/Endpoint/Observation.antt =====
-- internal/controller/endpoint/endpoint.go: `setObservation`, which records the external state with
-- the evidence that later readers rely on.
pub mod Keeps
pub mod FlashBoot
pub mod Revision
pub mod Confirmed
use Prim.Native.String.{◌++◌}
use provider_runpod.Base.{
  ℤ, Bool, false, not, ◌&&◌, ◌||◌, Option, none, some, is_some, str_eq, ◌==◌, if◌then◌else◌,
  has_int,
}
use provider_runpod.Apis.{EndpointResource, EndpointObservation, Time, flash_boot_evidence_current}
use provider_runpod.Client.Types.{Endpoint}
use provider_runpod.Endpoint.Settings.{TemplateBinding}

-- The proof of an earlier write that still stands for this external ID and rollout version.
unfoldable pub evidence_carries : EndpointObservation → Endpoint → ℤ → Time → Bool
evidence_carries previous got version now =
    str_eq previous.id got.id
    && flash_boot_evidence_current previous now
    && has_int previous.flash_boot_evidence_version version

abbrev flash_boot_off : Option Bool → Bool → Bool → Bool
flash_boot_off (some on) write_confirmed carries = not on
flash_boot_off none write_confirmed carries = write_confirmed || carries

abbrev evidence_time : Bool → Bool → Option Bool → Bool → Time → Time → Time
evidence_time disabled write_confirmed reported carries last now =
    if disabled
    then (if not write_confirmed && not (is_some reported) && carries then last else now)
    else 0

unfoldable pub template_revision_proven : EndpointObservation → Bool → TemplateBinding → ℤ → Bool
template_revision_proven previous write_confirmed template version =
    (str_eq previous.template_resource_uid template.uid
      && previous.template_resource_generation == template.generation
      && str_eq previous.template_image_digest template.image)
    || (str_eq previous.template_resource_uid "" && write_confirmed)
    || (not (str_eq previous.template_resource_uid "")
        && is_some previous.version
        && not (has_int previous.version version))

-- The status that is written, and the two proofs that are returned.
pub record Recorded : Type 0 where
  pub cr : EndpointResource
  pub flash_boot_proven : Bool
  pub template_revision_proven : Bool

abbrev record_observation :
    EndpointResource
    → Endpoint
    → Bool
    → TemplateBinding
    → Bool
    → Time
    → Option ℤ
    → Option ℤ
    → Option ℤ
    → Recorded
record_observation cr got write_confirmed template workers_proven now (some low) (some high)
      (some version) =
    let previous = cr.at_provider in
    let carries = evidence_carries previous got version now in
    let disabled = flash_boot_off got.flash_boot write_confirmed carries in
    let proven = template_revision_proven previous write_confirmed template version in
    let status : EndpointObservation = record {
      id = got.id;
      template_id = got.template_id;
      template_resource_uid = if proven then template.uid else previous.template_resource_uid;
      template_resource_generation =
          if proven then template.generation else previous.template_resource_generation;
      template_image_digest = if proven then template.image else previous.template_image_digest;
      version = some version;
      flash_boot_disabled = disabled;
      flash_boot_evidence_version = if disabled then some version else none;
      flash_boot_last_enforced_at =
          evidence_time disabled write_confirmed got.flash_boot carries
            previous.flash_boot_last_enforced_at now;
      worker_security_validated = workers_proven;
      worker_security_proof_version = if workers_proven then some version else none;
      worker_security_observed_at = if workers_proven then now else 0;
      workers_min = low;
      workers_max = high;
      inference_url = "https://api.runpod.ai/v2/" ++ got.id ++ "/openai/v1";
      last_observed_at = now;
    } in
    record {
      cr = record cr { at_provider = status };
      flash_boot_proven = disabled;
      template_revision_proven = proven;
    }
record_observation cr got write_confirmed template workers_proven now _ _ _ = record {
  cr = record cr { observed_generation = 0 };
  flash_boot_proven = false;
  template_revision_proven = false;
}

unfoldable pub set_observation :
    EndpointResource → Endpoint → Bool → TemplateBinding → Bool → Time → Recorded
set_observation cr got write_confirmed template workers_proven now =
    record_observation cr got write_confirmed template workers_proven now got.workers_min
      got.workers_max got.version
