-- ===== src/Tests/Verification.antt =====
-- The EndpointCheck controller's theorems at concrete inputs.
use provider_runpod.Base.{
  ◌<◌, ◌≢◌, String, pos, ◌≡◌, refl, true, false, [], ◌∷◌, some, Result as Answer, ok, arith, lookup,
  length,
}
use provider_runpod.Apis.{EndpointCheck, Time, seconds}
use provider_runpod.Inference.{Client, Call, Response, answered, Reading, ToolCall, verify}
use provider_runpod.Inference.Evidence.{IsVerified, verify-IsVerified}
use provider_runpod.Request.Arguments.{Token}
use provider_runpod.Verification.Reconcile.{Event, Pass, reconcile}
use provider_runpod.Verification.Reconcile.Quiet.{IsQuietUnless, verifications}
use provider_runpod.Verification.Reconcile.Billing.{IsBillable, reconcile_billing}
use provider_runpod.Verification.Reconcile.Silent.{announced, IsAnnounced}
use provider_runpod.Verification.Reconcile.Ready.{IsAdmitted, reconcile_ready}
use provider_runpod.Tests.Platform.{runtime}
use provider_runpod.Tests.Router.{verified_check, cluster, now}
use provider_runpod.Verification.{
  EndpointBinding, Result, observation, full_verification_due, verification_admitted,
}
use provider_runpod.Verification.Due.{
  observed, IsSame, full_verification_due_lem, verification_admitted_sound,
}
use provider_runpod.Tests.Janitor.{check_of}

abbrev verified_binding : EndpointBinding
verified_binding = record {
  id = "ep1";
  resource_uid = "U1";
  resource_generation = 2;
  version = pos 7;
  expires_at = seconds 9000;
  template_uid = "t-uid";
  template_generation = 3;
  template_image = "img";
  worker_proven = true;
  worker_observed_at = seconds 1300;
}

abbrev key : String
key = "1"

abbrev passed : Result
passed = record { healthy = true; model_verified = true; tool_call_verified = true }

full_verification_due_lem_example :
    full_verification_due
      (observed
        (check_of "model")
        verified_binding
        passed
        "1"
        (seconds 1200)
        (seconds 1200)
        (seconds 1200))
      verified_binding
      "1"
      (seconds 1230)
    ≡ false
full_verification_due_lem_example =
    (full_verification_due_lem (check_of "model") verified_binding passed "1" (seconds 1200)
        (seconds 1200) (seconds 1200) verified_binding "1" (seconds 1230)).1
      (λ e. ground arith) (omega arith) (omega arith)

verification_admitted_sound_example :
    IsSame verified_binding verified_binding
    × (key ≡ key)
    × (passed.healthy ≡ true)
    × (passed.model_verified ≡ true)
    × (passed.tool_call_verified ≡ true)
    × (seconds 1200 ≢ 0)
    × (verified_binding.worker_proven ≡ true)
    × (seconds 1200 < verified_binding.worker_observed_at)
unfolding verification_admitted observation
verification_admitted_sound_example =
    verification_admitted_sound (check_of "model") verified_binding passed key (seconds 1200)
      (seconds 1200) (seconds 1200) verified_binding key refl

-- A namespace with a held check of an Endpoint that was never verified.
abbrev fresh_check : EndpointCheck
fresh_check = record verified_check {
  conditions = [];
  at_provider = (check_of "model").at_provider;
}

abbrev network : Client → Call → Response
network c call = answered 200 call.path

abbrev probe_call : ToolCall
probe_call = record {
  id = "call_1";
  kind = "function";
  name = "readiness_probe";
  arguments = "ready";
}

abbrev reading : Reading
reading = record {
  models = λ _. some ("m" ∷ []);
  choices = λ _. some (record { finish_reason = "tool_calls"; tool_calls = probe_call ∷ [] } ∷ []);
  tokens =
      λ _. Token.open_object ∷ Token.text "token" ∷ Token.text "ready" ∷ Token.close_object ∷ [];
}

abbrev inference_client : Client
inference_client = record { endpoint_id = "ep1"; token = "rpa"; timeout = seconds 10 }

verify-IsVerified_example :
    IsVerified reading
      (network inference_client)
      inference_client
      "m"
      (verify reading (network inference_client) inference_client "m")
verify-IsVerified_example =
    verify-IsVerified reading (network inference_client) inference_client "m"

abbrev format : Time → String
format _ = "now"

abbrev answer : Event → Answer (Unit {0})
answer _ = ok tt

abbrev first_pass : Pass
first_pass = reconcile runtime cluster reading network format answer now (ok fresh_check)

-- The first pass over the check verifies it, and admits it.
first_pass_verifies : verifications first_pass.events ≡ 1
unfolding reconcile lookup
first_pass_verifies = refl

reconcile_billing_example :
    IsQuietUnless
      (IsBillable runtime cluster reading network format answer now (ok fresh_check))
      first_pass
reconcile_billing_example =
    reconcile_billing runtime cluster reading network format answer now (ok fresh_check)

-- The first pass makes the check Ready.
first_pass_announces : length (announced first_pass.events) ≡ 1
unfolding reconcile lookup
first_pass_announces = refl

reconcile_ready_example :
    IsAnnounced
      (IsAdmitted runtime cluster reading network format answer now (ok fresh_check))
      first_pass
reconcile_ready_example =
    reconcile_ready runtime cluster reading network format answer now (ok fresh_check)
