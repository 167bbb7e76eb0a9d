-- ===== src/Template/Handlers/Create.antt =====
-- internal/controller/template/template.go: Create, and the recovery of an ambiguous create.
use provider_runpod.Base.{
  String, not, List, [], ◌∷◌, ◌++◌, str_eq, Result, ok, err, failure, is_create_ambiguous,
  if◌then◌else◌, lookup_or,
}
use provider_runpod.Client.Types.{Template, TemplateInput}
use provider_runpod.Apis.{TemplateResource, Time, creating}
use provider_runpod.Apis.Crossplane.{Crossplane}
use provider_runpod.Apis.Reader.{Reader}
use provider_runpod.Managed.{
  template_keys, ambiguous_absence_confirmed, mark_ambiguous_create, stop, finish,
}
use provider_runpod.Template.Settings.{
  template_input, template_matches_input, set_template_observation, check_template,
}
use provider_runpod.Template.Handlers.{
  TemplateService, TemplateCall, TemplateRun, with_template_annotations, bind_template_id, find,
  create,
}

module _ (x : Crossplane) (reader : Reader) (svc : TemplateService) (now : Time) where
  abbrev pub on_recovered_template :
      TemplateResource
      → TemplateInput
      → List TemplateCall
      → Result Template
      → TemplateRun (Unit {0})
  on_recovered_template cr desired calls (err _) = finish cr calls tt
  on_recovered_template cr desired calls (ok got) =
      if not (template_matches_input desired got)
      then finish cr calls tt
      else finish (set_template_observation (bind_template_id x cr got.id now) got now) calls tt

  unfoldable pub recover_ambiguous_template :
      TemplateResource → TemplateInput → String → List TemplateCall → TemplateRun (Unit {0})
  recover_ambiguous_template cr given name calls =
      on_recovered_template cr (record given { name = name }) (calls ++ find name ∷ [])
        (svc.find_template_by_name name)

  abbrev pub on_created_template :
      TemplateResource → TemplateInput → Result Template → TemplateRun (Unit {0})
  on_created_template cr desired (ok got) =
      finish (set_template_observation (bind_template_id x cr got.id now) got now)
        (create desired ∷ []) tt
  on_created_template cr desired (err e) =
      if is_create_ambiguous e
      then recover_ambiguous_template
          (with_template_annotations cr
            (mark_ambiguous_create template_keys desired.name cr.metadata.annotations))
          desired desired.name (create desired ∷ [])
      else stop cr (create desired ∷ []) e

  unfoldable pub create_external_template : TemplateResource → TemplateRun (Unit {0})
  unfolding recover_ambiguous_template
  create_external_template given =
      let cr = record given { conditions = creating ∷ given.conditions } in
      let marked = lookup_or "" template_keys.ambiguous_create_name cr.metadata.annotations in
      if not (str_eq (lookup_or "" ambiguous_absence_confirmed cr.metadata.annotations) "")
      then stop cr [] (
          failure
            "ambiguous Template absence acknowledgement forbids external creation; delete the CR to finalize")
      else if str_eq cr.metadata.uid ""
      then stop cr [] (failure "Kubernetes UID is required before creating a RunPod Template")
      else elim (check_template cr now) [
        | err e ↦ stop cr [] e
        | ok _ ↦
            if not (str_eq marked "")
            then recover_ambiguous_template cr (template_input cr) marked []
            else on_created_template cr (template_input cr)
                (svc.create_template (template_input cr))
      ]
