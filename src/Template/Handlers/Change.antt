-- ===== src/Template/Handlers/Change.antt =====
-- internal/controller/template/template.go: Update and Delete.
use provider_runpod.Base.{
  String, not, List, [], ◌∷◌, Option, none, some, any, Result, ok, err, not_found, failure,
  if◌then◌else◌,
}
use provider_runpod.Client.Types.{Template, Endpoint}
use provider_runpod.Apis.{TemplateResource, EndpointResource, Time, deleting}
use provider_runpod.Apis.Crossplane.{Crossplane}
use provider_runpod.Apis.Reader.{Reader}
use provider_runpod.Managed.{stop, finish}
use provider_runpod.Template.Settings.{template_input, set_template_observation, check_template}
use provider_runpod.Template.Handlers.{
  TemplateService, TemplateCall, TemplateRun, refers_to_template, check_unbound, get, delete,
  update, list, template_id, is_bound_template,
}

module _ (x : Crossplane) (reader : Reader) (svc : TemplateService) (now : Time) where
  abbrev pub on_updated_template :
      TemplateResource → List TemplateCall → Result Template → TemplateRun (Unit {0})
  on_updated_template cr calls (err e) = stop cr calls e
  on_updated_template cr calls (ok got) = finish (set_template_observation cr got now) calls tt

  abbrev pub on_current_template :
      TemplateResource → String → Result (Option Template) → TemplateRun (Unit {0})
  on_current_template cr id (err e) = stop cr (get id ∷ []) e
  on_current_template cr id (ok none) =
      stop cr (get id ∷ []) (failure "RunPod Template GET returned no object before update")
  on_current_template cr id (ok (some _)) =
      on_updated_template cr (get id ∷ update id (template_input cr) ∷ [])
        (svc.update_template id (template_input cr))

  unfoldable pub update_external_template : TemplateResource → TemplateRun (Unit {0})
  update_external_template cr = elim (check_template cr now) [
    | err e ↦ stop cr [] e
    | ok _ ↦
        if not (is_bound_template x reader svc now cr)
        then stop cr [] (
            failure
              "refusing to update a Template without a persisted controller-observed ID binding")
        else on_current_template cr (template_id x reader svc now cr)
            (svc.get_template (template_id x reader svc now cr))
  ]

  abbrev pub forgiven : Result (Unit {0}) → Result (Unit {0})
  forgiven (err not_found) = ok tt
  forgiven r = r

  abbrev pub on_doomed_template :
      TemplateResource → String → Result (Option Template) → TemplateRun (Unit {0})
  on_doomed_template cr id (err not_found) = finish cr (list ∷ get id ∷ []) tt
  on_doomed_template cr id (err e) = stop cr (list ∷ get id ∷ []) e
  on_doomed_template cr id (ok none) =
      stop cr (list ∷ get id ∷ [])
        (failure "RunPod Template GET returned no object before deletion")
  on_doomed_template cr id (ok (some _)) = record {
    result = forgiven (svc.delete_template id);
    cr = cr;
    calls = list ∷ get id ∷ delete id ∷ [];
  }

  abbrev pub on_external_endpoints :
      TemplateResource → String → Result (List Endpoint) → TemplateRun (Unit {0})
  on_external_endpoints cr id (err e) = stop cr (list ∷ []) e
  on_external_endpoints cr id (ok endpoints) = elim (check_unbound id endpoints) [
    | err e ↦ stop cr (list ∷ []) e
    | ok _ ↦ on_doomed_template cr id (svc.get_template id)
  ]

  abbrev pub on_referring :
      TemplateResource → String → Result (List EndpointResource) → TemplateRun (Unit {0})
  on_referring cr id (err e) = stop cr [] e
  on_referring cr id (ok endpoints) =
      if any (refers_to_template cr.metadata.name) endpoints
      then stop cr [] (failure "Endpoint must be deleted before its Template")
      else on_external_endpoints cr id svc.list_endpoints

  unfoldable pub delete_external_template : TemplateResource → TemplateRun (Unit {0})
  delete_external_template given =
      let cr = record given { conditions = deleting ∷ given.conditions } in
      if not (is_bound_template x reader svc now cr)
      then stop cr [] (
          failure
            "refusing to delete a Template without a persisted controller-observed ID binding")
      else on_referring cr (template_id x reader svc now cr)
          (reader.list_endpoints cr.metadata.namespace)
