-- ===== src/Template/Handlers.antt =====
-- internal/controller/template/template.go: what the handlers share, in the form of the Endpoint controller.
pub mod Observe
pub mod Create
pub mod Change
pub mod Calls
pub mod Absence
pub mod Ready
pub mod Recovery
use provider_runpod.Base.{
  String, Bool, not, ◌&&◌, List, [], ◌∷◌, Option, str_eq, Result, ok, err, failure, if◌then◌else◌,
  lookup_or, same_name,
}
use provider_runpod.Identifier.{is_runpod_id}
use provider_runpod.Client.Types.{Template, TemplateInput, Endpoint}
use provider_runpod.Apis.{TemplateResource, EndpointResource, Time, available}
use provider_runpod.Apis.Crossplane.{Crossplane}
use provider_runpod.Apis.Reader.{Reader}
use provider_runpod.Managed.{template_keys, bind_annotations, Pass}
use provider_runpod.Template.Settings.{template_name}

pub record TemplateService : Type 0 where
  pub get_template : String → Result (Option Template)
  pub find_template_by_name : String → Result Template
  pub create_template : TemplateInput → Result Template
  pub update_template : String → TemplateInput → Result Template
  pub delete_template : String → Result (Unit {0})
  pub list_endpoints : Result (List Endpoint)

pub data TemplateCall : Type 0 where
  get find delete : String → TemplateCall
  create : TemplateInput → TemplateCall
  update : String → TemplateInput → TemplateCall
  list : TemplateCall

-- A pass of the Template reconciler.
abbrev pub TemplateRun : Type 0 → Type 0
TemplateRun A = Pass TemplateCall TemplateResource A

abbrev with_template_annotations : TemplateResource → List (String × String) → TemplateResource
with_template_annotations cr m = record cr { metadata = record (cr.metadata) { annotations = m } }

unfoldable pub bind_template_id : Crossplane → TemplateResource → String → Time → TemplateResource
bind_template_id x cr id now =
    record (with_template_annotations cr
      (bind_annotations x template_keys id now cr.metadata.annotations)) {
        at_provider = record (cr.at_provider) { id = id };
      }

abbrev announce : TemplateResource → TemplateResource
announce cr = record cr {
  observed_generation = cr.metadata.generation;
  conditions = available ∷ cr.conditions;
}

abbrev withdraw : TemplateResource → TemplateResource
withdraw cr = record cr { observed_generation = 0 }

abbrev with_status_id : TemplateResource → String → TemplateResource
with_status_id cr id = record cr { at_provider = record (cr.at_provider) { id = id } }

-- An Endpoint object that refers to the Template.
abbrev pub refers_to_template : String → EndpointResource → Bool
refers_to_template name endpoint = same_name name endpoint.spec.template_id_ref

-- The loop over the external Endpoints before a deletion.
abbrev pub check_unbound : String → List Endpoint → Result (Unit {0})
check_unbound id [] = ok tt
check_unbound id (endpoint ∷ endpoints) =
    if not (is_runpod_id endpoint.template_id)
    then err (
        failure
          "RunPod Endpoint list omitted or returned an invalid templateId; refusing Template deletion")
    else if str_eq endpoint.template_id id
    then err (failure "RunPod Endpoint must be deleted before its Template")
    else check_unbound id endpoints

module _ (x : Crossplane) (reader : Reader) (svc : TemplateService) (now : Time) where
  abbrev pub template_id : TemplateResource → String
  template_id cr = x.external_name cr.metadata.annotations

  abbrev pub pending_template_name : TemplateResource → String
  pending_template_name cr =
      if x.create_incomplete cr.metadata.annotations
      then template_name cr
      else lookup_or "" template_keys.ambiguous_create_name cr.metadata.annotations

  -- The external name validates and is the ID in the status.
  abbrev is_bound_template : TemplateResource → Bool
  is_bound_template cr = is_runpod_id (template_id cr) && str_eq cr.at_provider.id (template_id cr)
