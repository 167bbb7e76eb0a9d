-- ===== src/Tests/Templates.antt =====
-- The Template controller's theorems at concrete inputs.
use provider_runpod.Base.{
  String, pos, ◌≡◌, refl, ◌⊎◌, Bool, true, false, [], ◌∷◌, none, some, lookup, insert, ok, err,
  not_found, failure, create_ambiguous,
}
use provider_runpod.Identifier.{validate_runpod_id, is_runpod_id}
use provider_runpod.Client.Types.{Template, Endpoint}
use provider_runpod.Apis.{TemplateResource, seconds, available}
use provider_runpod.Managed.{ExternalObservation, bind_annotations, mark_ambiguous_create}
use provider_runpod.Endpoint.Settings.{effective_name, to_lower, ensure_lifetime_active}
use provider_runpod.Template.Settings.{
  template_name, template_input, template_matches_input, unrepairable_template,
  set_template_observation, check_template, validate_ports,
}
use provider_runpod.Template.Handlers.{
  TemplateService, get, delete, list, template_id, bind_template_id,
}
use provider_runpod.Template.Handlers.Observe.{
  observe_template, observe_bound_template, on_found_template,
}
use provider_runpod.Template.Handlers.Create.{create_external_template, recover_ambiguous_template}
use provider_runpod.Template.Handlers.Change.{delete_external_template}
use provider_runpod.Template.Handlers.Calls.{IsUnbound, delete_template_guards}
use provider_runpod.Template.Handlers.Ready.{found_matches, read_matches, observe_template_matches}
use provider_runpod.Template.Handlers.Recovery.{IsNaming, create_then_observe_template}
use provider_runpod.Tests.Platform.{runtime, runtime-IsCrossplane, empty_namespace}
use provider_runpod.Tests.Fixtures.{template, endpoint, meta_with}

abbrev image : String
image = "img@sha256:0000000000000000000000000000000000000000000000000000000000000000"

abbrev new_template : TemplateResource
new_template = record {
  metadata = meta_with [];
  spec = record {
    max_lifetime_seconds = 3600;
    name = "model";
    image_name = image;
    container_disk_in_gb = none;
    docker_entrypoint = [];
    docker_start_cmd = [];
    ports = "8000/http" ∷ [];
    volume_in_gb = pos 0;
  };
  observed_generation = 0;
  conditions = [];
  at_provider = record {
    id = "";
    name = "";
    image_name = "";
    is_serverless = false;
    last_observed_at = 0;
  };
}

abbrev bound_template : TemplateResource
bound_template = record new_template {
  metadata = meta_with (
      ("crossplane.io/external-name", "tpl1")
      ∷ ("template.serverless.runpod.crossplane.io/external-id-bound", "true")
      ∷ []);
  at_provider = record (new_template.at_provider) { id = "tpl1" };
}

abbrev external : Template
external = record template {
  name = "model-xp-u1";
  image_name = image;
  ports = some ("8000/http" ∷ []);
}

abbrev other_endpoint : Endpoint
other_endpoint = record endpoint { template_id = "tpl2" }

abbrev present : TemplateService
present = record {
  get_template = λ _. ok (some external);
  find_template_by_name = λ _. ok external;
  create_template = λ _. ok external;
  update_template = λ _ _. ok external;
  delete_template = λ _. ok tt;
  list_endpoints = ok (other_endpoint ∷ []);
}

-- RunPod, when the answer to a create is lost and nothing can be found yet.
abbrev lost : TemplateService
lost = record {
  get_template = λ _. err not_found;
  find_template_by_name = λ _. err not_found;
  create_template = λ _. err (create_ambiguous "call RunPod API");
  update_template = λ _ _. err (failure "call RunPod API");
  delete_template = λ _. err not_found;
  list_endpoints = ok [];
}

lost-IsNaming : IsNaming lost
lost-IsNaming = record { created = λ d got h. cc; found = λ n got h. cc }

abbrev report : Bool → Bool → Bool → ExternalObservation
report there current late = record {
  resource_exists = there;
  resource_up_to_date = current;
  resource_late_initialized = late;
}

create_then_observe_template_example : (report true true true).resource_exists ≡ true
unfolding create_external_template recover_ambiguous_template observe_template on_found_template
    lookup insert mark_ambiguous_create bind_template_id bind_annotations check_template
    validate_ports ensure_lifetime_active template_input effective_name to_lower
    template_matches_input validate_runpod_id set_template_observation
create_then_observe_template_example =
    create_then_observe_template runtime empty_namespace lost (seconds 1100) new_template
      runtime-IsCrossplane lost-IsNaming refl refl refl empty_namespace present (seconds 1200)
      (report true true true) refl

observe_template_matches_example :
    ((found_matches
          (template_input bound_template)
          (present.find_template_by_name (template_name bound_template))
        ≡ true)
      ⊎ (read_matches (template_input bound_template) (present.get_template "tpl1") ≡ true))
    × ((observe_template runtime empty_namespace present 0 bound_template).cr.observed_generation
        ≡ 2)
    × ((observe_template runtime empty_namespace present 0 bound_template).cr.conditions
        ≡ available ∷ [])
unfolding observe_template observe_bound_template lookup template_input effective_name to_lower
    template_matches_input validate_runpod_id unrepairable_template set_template_observation
observe_template_matches_example =
    observe_template_matches runtime empty_namespace present 0 bound_template
      (report true true false) refl refl

delete_template_guards_example :
    (is_runpod_id "tpl1" ≡ true)
    × (bound_template.at_provider.id ≡ template_id runtime empty_namespace present 0 bound_template)
    × IsUnbound empty_namespace present "ns" "model"
        (template_id runtime empty_namespace present 0 bound_template)
    × ((delete_external_template runtime empty_namespace present 0 bound_template).calls
        ≡ list ∷ get "tpl1" ∷ delete "tpl1" ∷ [])
unfolding delete_external_template lookup validate_runpod_id
delete_template_guards_example =
    delete_template_guards runtime empty_namespace present 0 bound_template refl
