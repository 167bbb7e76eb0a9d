-- ===== src/Template/Handlers/Observe.antt =====
-- internal/controller/template/template.go: Observe, case by case on what RunPod answers.
use provider_runpod.Base.{
  String, true, false, not, ◌&&◌, ◌||◌, List, [], ◌∷◌, Option, none, some, str_eq, Result, ok, err,
  not_found, ambiguous, failure, is_not_found, if◌then◌else◌, lookup_or,
}
use provider_runpod.Identifier.{is_runpod_id}
use provider_runpod.Client.Types.{Template}
use provider_runpod.Apis.{TemplateResource, Time}
use provider_runpod.Apis.Crossplane.{Crossplane}
use provider_runpod.Apis.Reader.{Reader}
use provider_runpod.Managed.{
  template_keys, ambiguous_absence_confirmed, ambiguous_absence_acknowledged, ExternalObservation,
  absent, stop, finish,
}
use provider_runpod.Template.Settings.{
  template_name, template_input, template_matches_input, unrepairable_template,
  set_template_observation,
}
use provider_runpod.Template.Handlers.{
  TemplateService, TemplateCall, TemplateRun, bind_template_id, announce, withdraw, with_status_id,
  get, find, template_id, pending_template_name,
}

module _ (x : Crossplane) (reader : Reader) (svc : TemplateService) (now : Time) where
  unfoldable pub on_found_template :
      TemplateResource → String → Result Template → TemplateRun ExternalObservation
  on_found_template cr pending (err e) =
      if cr.metadata.is_deleting && is_not_found e
      then (if ambiguous_absence_acknowledged cr.metadata.annotations
          then finish cr (find pending ∷ []) absent
          else stop cr (find pending ∷ []) (
              failure
                "ambiguous Template create absence is unproven; an exact pending-token operator acknowledgement is required before deletion can complete"))
      else stop cr (find pending ∷ [])
          (failure "ambiguous Template create recovery is pending; no new create is permitted")
  on_found_template cr pending (ok got) =
      if not (str_eq got.name pending) || not (is_runpod_id got.id)
      then stop cr (find pending ∷ [])
          (failure "Template recovery returned an invalid external identity")
      else if cr.metadata.is_deleting
      then (let bound = bind_template_id x cr got.id now in
          finish
            (record bound {
              at_provider = record (bound.at_provider) { id = got.id; name = got.name };
            })
            (find pending ∷ [])
            (record {
              resource_exists = true;
              resource_up_to_date = false;
              resource_late_initialized = true;
            }))
      else if not (template_matches_input (record (template_input cr) { name = pending }) got)
      then stop cr (find pending ∷ []) ambiguous
      else finish (announce (set_template_observation (bind_template_id x cr got.id now) got now))
          (find pending ∷ [])
          (record {
            resource_exists = true;
            resource_up_to_date = true;
            resource_late_initialized = true;
          })

  abbrev pub judge_template :
      TemplateResource → List TemplateCall → Template → TemplateRun ExternalObservation
  judge_template given calls got =
      let cr = set_template_observation given got now in
      elim (unrepairable_template got) [
        | err e ↦ stop (withdraw cr) calls e
        | ok _ ↦
            let up_to_date = template_matches_input (template_input cr) got in
            finish (if up_to_date then announce cr else withdraw cr) calls (record {
              resource_exists = true;
              resource_up_to_date = up_to_date;
              resource_late_initialized = false;
            })
      ]

  abbrev pub on_read_template :
      TemplateResource → String → Result (Option Template) → TemplateRun ExternalObservation
  on_read_template cr id (err not_found) =
      if cr.metadata.is_deleting
      then finish cr (get id ∷ []) absent
      else stop cr (get id ∷ []) (
          failure
            "bound RunPod Template is missing; refusing to create a replacement under an immutable external-name")
  on_read_template cr id (err e) = stop cr (get id ∷ []) e
  on_read_template cr id (ok none) =
      stop cr (get id ∷ []) (failure "RunPod Template GET returned no object")
  on_read_template cr id (ok (some got)) =
      if str_eq cr.at_provider.id ""
      then (if not (str_eq got.name (template_name cr))
          then stop cr (get id ∷ []) (
              failure
                "Template binding marker did not resolve to the controller-owned UID-scoped name")
          else judge_template (with_status_id cr id) (get id ∷ []) got)
      else judge_template cr (get id ∷ []) got

  unfoldable pub observe_bound_template :
      TemplateResource → String → TemplateRun ExternalObservation
  observe_bound_template cr id =
      if str_eq id ""
      then finish cr [] absent
      else if not
          (str_eq (lookup_or "" template_keys.external_id_bound cr.metadata.annotations) "true")
      then stop cr [] (
          failure
            "v0.1 does not adopt an unverified external-name; only provider create or UID-scoped recovery may bind an ID")
      else if not (is_runpod_id id)
      then stop cr [] (failure "Template external-name is invalid")
      else if not (str_eq cr.at_provider.id "") && not (str_eq cr.at_provider.id id)
      then stop cr []
          (failure "Template external-name differs from its persisted controller-observed ID")
      else on_read_template cr id (svc.get_template id)

  unfoldable pub observe_template : TemplateResource → TemplateRun ExternalObservation
  observe_template cr =
      if not cr.metadata.is_deleting
        && not (str_eq (lookup_or "" ambiguous_absence_confirmed cr.metadata.annotations) "")
      then stop cr [] (
          failure
            "ambiguous Template absence is acknowledged; delete the CR to finalize cleanup; recreation is disabled")
      else if not (str_eq (pending_template_name x reader svc now cr) "")
      then (if not (str_eq (pending_template_name x reader svc now cr) (template_name cr))
          then stop cr []
              (failure "Template recovery marker is not the controller-owned UID-scoped name")
          else on_found_template cr (pending_template_name x reader svc now cr)
              (svc.find_template_by_name (pending_template_name x reader svc now cr)))
      else observe_bound_template cr (template_id x reader svc now cr)
