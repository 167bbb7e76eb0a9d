-- ===== src/Endpoint/Observation/Confirmed.antt =====
-- internal/controller/endpoint/endpoint.go, setObservation: what the answer to a write proves.
use provider_runpod.Base.{◌≡◌, Bool, true, false, eq_iff, arith}
use provider_runpod.Apis.{EndpointResource, Time}
use provider_runpod.Client.Types.{Endpoint, EndpointInput}
use provider_runpod.Endpoint.Settings.{TemplateBinding}
use provider_runpod.Endpoint.Matching.{endpoint_matches_input}
use provider_runpod.Endpoint.Observation.{set_observation, template_revision_proven}

-- An answer to a write of flashboot=false that matches what was written proves the setting, and the
-- Template revision too if none was recorded.
pub set_observation-confirmed :
    (cr : EndpointResource) (got : Endpoint) (t : TemplateBinding) (w : Bool) (now : Time)
    (desired : EndpointInput)
    → desired.flash_boot ≡ false
    → endpoint_matches_input desired got ≡ true
    → ((set_observation cr got true t w now).flash_boot_proven ≡ true)
      × (cr.at_provider.template_resource_uid ≡ ""
          → (set_observation cr got true t w now).template_revision_proven ≡ true)
unfolding set_observation endpoint_matches_input template_revision_proven
set_observation-confirmed cr got t w now desired off h =
    (ground arith, λ e. ground (arith, (eq_iff cr.at_provider.template_resource_uid "").1 e))
