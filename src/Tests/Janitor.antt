-- ===== src/Tests/Janitor.antt =====
-- The janitor's theorems at concrete inputs.
use provider_runpod.Base.{
  String, pos, ◌≡◌, refl, ◌⊎◌, ◌≤◌, true, false, List, [], ◌∷◌, none, some, lookup, Result, ok, any,
}
use provider_runpod.Apis.{EndpointResource, TemplateResource, EndpointCheck, Time, seconds}
use provider_runpod.Apis.Reader.{Reader}
use provider_runpod.Endpoint.Handlers.{refers_to}
use provider_runpod.Template.Handlers.{refers_to_template}
use provider_runpod.Janitor.{
  Write, delete_check, cleanup_poll, delete_matching, sweep_endpoint, sweep_template,
  reconcile_endpoint, reconcile_template, expires_at, template_expires_at, reap_requested,
  has_lifetime, lifetime_finalizer,
}
use provider_runpod.Janitor.Order.{
  reconcile_endpoint_order, reconcile_template_unreferenced, reconcile_endpoint_drains,
}
use provider_runpod.Tests.Platform.{empty_namespace}
use provider_runpod.Tests.Fixtures.{bound_object, meta_with}

abbrev held_object : EndpointResource
held_object = record bound_object {
  metadata = record (bound_object.metadata) { finalizers = lifetime_finalizer ∷ [] };
}

abbrev pub check_of : String → EndpointCheck
check_of name = record {
  metadata = meta_with [];
  spec = record {
    max_lifetime_seconds = 3600;
    endpoint_id_ref = some name;
    expected_model_id = "m";
    inference_credentials_secret_ref = record { name = "s"; key = "k" };
    verification_interval_seconds = 60;
    timeout_seconds = 10;
  };
  observed_generation = 0;
  conditions = [];
  at_provider = record {
    endpoint_id = "";
    endpoint_resource_uid = "";
    endpoint_resource_generation = 0;
    endpoint_version = none;
    template_resource_uid = "";
    template_resource_generation = 0;
    template_image_digest = "";
    healthy = false;
    model_verified = false;
    tool_call_verified = false;
    inference_url = "";
    credentials_secret_resource_version = "";
    last_checked_at = 0;
    last_verification_attempt_at = 0;
    last_verified_at = 0;
  };
}

abbrev pub old_template : TemplateResource
old_template = record {
  metadata = meta_with [];
  spec = record {
    max_lifetime_seconds = 3600;
    name = "model";
    image_name = "img";
    container_disk_in_gb = none;
    docker_entrypoint = [];
    docker_start_cmd = [];
    ports = [];
    volume_in_gb = pos 0;
  };
  observed_generation = 0;
  conditions = [];
  at_provider = record {
    id = "";
    name = "";
    image_name = "";
    is_serverless = false;
    last_observed_at = 0;
  };
}

abbrev drained_namespace : Reader
drained_namespace = record empty_namespace {
  get_endpoint = λ _ _. ok held_object;
  get_template = λ _ _. ok old_template;
  list_checks = λ _. ok (check_of "other" ∷ []);
}

abbrev used_namespace : Reader
used_namespace = record drained_namespace {
  list_checks = λ _. ok (check_of "other" ∷ check_of "model" ∷ []);
}

abbrev works : Write → Result (Unit {0})
works _ = ok tt

abbrev later : Time
later = seconds 9000

reconcile_endpoint_order_example :
    ((held_object.metadata.is_deleting ≡ true)
      ⊎ (expires_at drained_namespace works later held_object ≤ later))
    × ((checks : List EndpointCheck) × (drained_namespace.list_checks "ns" ≡ ok checks)
        × (any (refers_to "model") checks ≡ false))
unfolding reconcile_endpoint sweep_endpoint delete_matching lookup
reconcile_endpoint_order_example =
    reconcile_endpoint_order drained_namespace works later "ns" "model" held_object refl refl

reconcile_template_unreferenced_example :
    (old_template.metadata.is_deleting ≡ false)
    × ((reap_requested drained_namespace works later old_template ≡ true)
        ⊎ ((has_lifetime drained_namespace works later old_template ≡ true)
            × (template_expires_at drained_namespace works later old_template ≤ later)))
    × ((endpoints : List EndpointResource) × (drained_namespace.list_endpoints "ns" ≡ ok endpoints)
        × (any (refers_to_template "model") endpoints ≡ false))
unfolding reconcile_template sweep_template lookup
reconcile_template_unreferenced_example =
    reconcile_template_unreferenced drained_namespace works later "ns" "model" old_template refl
      refl

reconcile_endpoint_drains_example :
    ((reconcile_endpoint used_namespace works later "ns" "model").writes
      ≡ delete_check (check_of "model") ∷ [])
    × ((reconcile_endpoint used_namespace works later "ns" "model").result ≡ ok (some cleanup_poll))
reconcile_endpoint_drains_example =
    reconcile_endpoint_drains used_namespace works later "ns" "model" held_object
      (check_of "other" ∷ check_of "model" ∷ []) refl refl refl refl (λ c. refl)
