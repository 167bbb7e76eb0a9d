-- ===== src/Endpoint/Observation/Keeps.antt =====
-- What recording an observation leaves alone.
use provider_runpod.Base.{◌≡◌, refl, Bool, Option, some, ℤ}
use provider_runpod.Apis.{EndpointResource, Time}
use provider_runpod.Client.Types.{Endpoint}
use provider_runpod.Endpoint.Settings.{TemplateBinding}
use provider_runpod.Endpoint.Observation.{set_observation, record_observation}

-- The parts of the object that recording an observation leaves alone.
pub record Keeps (cr cr' : EndpointResource) : Type 0 where
  pub metadata : cr'.metadata ≡ cr.metadata
  pub conditions : cr'.conditions ≡ cr.conditions
  pub spec : cr'.spec ≡ cr.spec

recorded-Keeps :
    (cr : EndpointResource) (got : Endpoint) (c : Bool) (t : TemplateBinding) (w : Bool)
    (now : Time) (low high version : Option ℤ)
    → Keeps cr (record_observation cr got c t w now low high version).cr
recorded-Keeps cr got c t w now (some low) (some high) (some version) = record {
  metadata = refl;
  conditions = refl;
  spec = refl;
}
recorded-Keeps cr got c t w now _ _ _ = record { metadata = refl; conditions = refl; spec = refl }

pub set_observation-Keeps :
    (cr : EndpointResource) (got : Endpoint) (c : Bool) (t : TemplateBinding) (w : Bool)
    (now : Time)
    → Keeps cr (set_observation cr got c t w now).cr
unfolding set_observation
set_observation-Keeps cr got c t w now =
    recorded-Keeps cr got c t w now got.workers_min got.workers_max got.version
