-- ===== src/Endpoint/Handlers/Observe.antt =====
-- internal/controller/endpoint/endpoint.go: Observe, case by case on what RunPod answers.
use provider_runpod.Base.{
  String, true, false, not, ◌&&◌, ◌||◌, List, [], ◌∷◌, Option, none, some, str_eq, Result, ok, err,
  not_found, ambiguous, failure, is_not_found, if◌then◌else◌, lookup_or,
}
use provider_runpod.Identifier.{is_runpod_id}
use provider_runpod.Client.Types.{Endpoint, EndpointInput}
use provider_runpod.Apis.{EndpointResource, Time}
use provider_runpod.Apis.Crossplane.{Crossplane}
use provider_runpod.Apis.Reader.{Reader}
use provider_runpod.Managed.{
  ExternalObservation, absent, stop, finish, endpoint_keys, ambiguous_absence_confirmed,
  ambiguous_absence_acknowledged,
}
use provider_runpod.Endpoint.Settings.{TemplateBinding, endpoint_name, endpoint_input}
use provider_runpod.Endpoint.Matching.{
  endpoint_matches_input, endpoint_template_matches, endpoint_workers_match,
  unrepairable_external_state,
}
use provider_runpod.Endpoint.Observation.{set_observation}
use provider_runpod.Endpoint.Binding.{bind_external_id, expected_template_id_for_cleanup}
use provider_runpod.Endpoint.Handlers.{
  Service, Call, Run, withdraw, announce, conforms, has_workers, get, find, update, external_id,
  pending_name,
}

module _ (x : Crossplane) (reader : Reader) (svc : Service) (template : TemplateBinding)
    (now : Time) where
  abbrev pub on_cleanup :
      EndpointResource → Endpoint → List Call → Result String → Run ExternalObservation
  on_cleanup cr got calls (err e) = stop cr calls e
  on_cleanup cr got calls (ok expected) =
      if not (str_eq expected "") && not (str_eq got.template_id expected)
      then stop cr calls
          (failure "Endpoint cleanup recovery did not match the referenced Template ID")
      else let bound = bind_external_id x cr got.id now in
        finish
          (record bound {
            at_provider = record (bound.at_provider) { id = got.id; template_id = got.template_id };
          })
          calls
          (record {
            resource_exists = true;
            resource_up_to_date = false;
            resource_late_initialized = true;
          })

  abbrev pub on_reasserted :
      EndpointResource → EndpointInput → List Call → Result Endpoint → Run ExternalObservation
  on_reasserted cr desired calls (err _) =
      stop cr calls
        (failure "ambiguous Endpoint create recovery could not reassert bounded settings")
  on_reasserted cr desired calls (ok got) =
      if not (conforms cr template desired got)
      then stop cr calls
          (failure "ambiguous Endpoint create recovery could not reassert bounded settings")
      else finish
          (announce
            (set_observation (bind_external_id x cr got.id now) got true template (has_workers got)
              now).cr)
          calls
          (record {
            resource_exists = true;
            resource_up_to_date = true;
            resource_late_initialized = true;
          })

  unfoldable pub on_found : EndpointResource → String → Result Endpoint → Run ExternalObservation
  on_found cr pending (err e) =
      if cr.metadata.is_deleting && is_not_found e
      then (if ambiguous_absence_acknowledged cr.metadata.annotations
          then finish cr (find pending ∷ []) absent
          else stop cr (find pending ∷ []) (
              failure
                "ambiguous Endpoint create absence is unproven; an exact pending-token operator acknowledgement is required before deletion can complete"))
      else stop cr (find pending ∷ [])
          (failure "ambiguous Endpoint create recovery is pending; no new create is permitted")
  on_found cr pending (ok got) =
      if not (str_eq got.name pending) || not (is_runpod_id got.id)
      then stop cr (find pending ∷ [])
          (failure "Endpoint recovery returned an invalid external identity")
      else if cr.metadata.is_deleting
      then on_cleanup cr got (find pending ∷ []) (expected_template_id_for_cleanup x reader cr)
      else let desired = record (endpoint_input cr template.id) { name = pending } in
        if not (conforms cr template desired got)
        then stop cr (find pending ∷ []) ambiguous
        else on_reasserted cr desired (find pending ∷ update got.id desired ∷ [])
            (svc.update_endpoint got.id desired)

  abbrev pub judge : EndpointResource → List Call → Endpoint → Run ExternalObservation
  judge cr calls got =
      let desired = endpoint_input cr template.id in
      elim (unrepairable_external_state got desired) [
        | err e ↦ stop (withdraw cr) calls e
        | ok _ ↦
            if not (endpoint_template_matches got template)
            then stop (withdraw cr) calls (
                failure
                  "RunPod Endpoint omitted or mismatched its contemporaneous managed Template proof")
            else if not (
                endpoint_workers_match desired got template
                  cr.spec.max_worker_cost_milli_usd_per_hour)
            then stop (withdraw cr) calls (
                failure
                  "RunPod Endpoint active worker proof violated the bounded image, storage, placement, or Secure Cloud contract")
            else let seen = set_observation cr got false template (has_workers got) now in
              let up_to_date =
                endpoint_matches_input desired got
                && seen.flash_boot_proven
                && seen.template_revision_proven in
              finish (if up_to_date then announce seen.cr else withdraw seen.cr) calls (record {
                resource_exists = true;
                resource_up_to_date = up_to_date;
                resource_late_initialized = false;
              })
      ]

  abbrev pub on_read :
      EndpointResource → String → Result (Option Endpoint) → Run ExternalObservation
  on_read cr id (err not_found) =
      if cr.metadata.is_deleting
      then finish cr (get id ∷ []) absent
      else stop cr (get id ∷ []) (
          failure
            "bound RunPod Endpoint is missing; refusing to create a replacement under an immutable external-name")
  on_read cr id (err e) = stop cr (get id ∷ []) e
  on_read cr id (ok none) = stop cr (get id ∷ []) (failure "RunPod Endpoint GET returned no object")
  on_read cr id (ok (some got)) =
      if str_eq cr.at_provider.id ""
      then (if not (str_eq got.name (endpoint_name cr))
          then stop cr (get id ∷ []) (
              failure
                "Endpoint binding marker did not resolve to the controller-owned UID-scoped name")
          else judge (record cr { at_provider = record (cr.at_provider) { id = id } }) (get id ∷ [])
              got)
      else judge cr (get id ∷ []) got

  unfoldable pub observe_bound : EndpointResource → String → Run ExternalObservation
  observe_bound cr id =
      if str_eq id ""
      then finish cr [] absent
      else if not
          (str_eq (lookup_or "" endpoint_keys.external_id_bound cr.metadata.annotations) "true")
      then stop cr [] (
          failure
            "v0.1 does not adopt an unverified external-name; only provider create or UID-scoped recovery may bind an ID")
      else if not (is_runpod_id id)
      then stop cr [] (failure "Endpoint external-name is invalid")
      else if not (str_eq cr.at_provider.id "") && not (str_eq cr.at_provider.id id)
      then stop cr []
          (failure "Endpoint external-name differs from its persisted controller-observed ID")
      else on_read cr id (svc.get_endpoint id)

  unfoldable pub observe : EndpointResource → Run ExternalObservation
  observe cr =
      if not cr.metadata.is_deleting
        && not (str_eq (lookup_or "" ambiguous_absence_confirmed cr.metadata.annotations) "")
      then stop cr [] (
          failure
            "ambiguous Endpoint absence is acknowledged; delete the CR to finalize cleanup; recreation is disabled")
      else if not (str_eq (pending_name x reader svc template now cr) "")
      then (if not (str_eq (pending_name x reader svc template now cr) (endpoint_name cr))
          then stop cr []
              (failure "Endpoint recovery marker is not the controller-owned UID-scoped name")
          else on_found cr (pending_name x reader svc template now cr)
              (svc.find_endpoint_by_name (pending_name x reader svc template now cr)))
      else observe_bound cr (external_id x reader svc template now cr)
