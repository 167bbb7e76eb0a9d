-- ===== src/Endpoint/Handlers/Change.antt =====
-- internal/controller/endpoint/endpoint.go: Update and Delete.
use provider_runpod.Base.{
  String, true, false, not, List, [], ◌∷◌, Option, none, some, Result, ok, err, not_found, failure,
  if◌then◌else◌, any,
}
use provider_runpod.Client.Types.{Endpoint}
use provider_runpod.Apis.{EndpointResource, EndpointCheck, Time, deleting}
use provider_runpod.Apis.Crossplane.{Crossplane}
use provider_runpod.Apis.Reader.{Reader}
use provider_runpod.Managed.{stop, finish}
use provider_runpod.Endpoint.Settings.{
  TemplateBinding, endpoint_input, validate, ensure_lifetime_active,
}
use provider_runpod.Endpoint.Observation.{set_observation}
use provider_runpod.Endpoint.Handlers.{
  Service, Call, Run, set_condition, is_bound, refers_to, get, delete, update, external_id,
}

module _ (x : Crossplane) (reader : Reader) (svc : Service) (template : TemplateBinding)
    (now : Time) where
  abbrev pub on_updated : EndpointResource → List Call → Result Endpoint → Run (Unit {0})
  on_updated cr calls (err e) = stop cr calls e
  on_updated cr calls (ok got) = finish (set_observation cr got true template false now).cr calls tt

  abbrev pub on_current : EndpointResource → String → Result (Option Endpoint) → Run (Unit {0})
  on_current cr id (err e) = stop cr (get id ∷ []) e
  on_current cr id (ok none) =
      stop cr (get id ∷ []) (failure "RunPod Endpoint GET returned no object before update")
  on_current cr id (ok (some _)) =
      let desired = endpoint_input cr template.id in
      on_updated cr (get id ∷ update id desired ∷ []) (svc.update_endpoint id desired)

  abbrev pub update_active : EndpointResource → Run (Unit {0})
  update_active cr =
      if not (is_bound cr (external_id x reader svc template now cr))
      then stop cr [] (
          failure
            "refusing to update an Endpoint without a persisted controller-observed ID binding")
      else on_current cr (external_id x reader svc template now cr)
          (svc.get_endpoint (external_id x reader svc template now cr))

  unfoldable pub update_external : EndpointResource → Run (Unit {0})
  update_external cr = elim (validate cr template.id) [
    | err e ↦ stop cr [] e
    | ok _ ↦ elim (ensure_lifetime_active cr.metadata cr.spec.max_lifetime_seconds now) [
      | err e ↦ stop cr [] e
      | ok _ ↦ update_active cr
    ]
  ]

  abbrev pub forgiven : Result (Unit {0}) → Result (Unit {0})
  forgiven (err not_found) = ok tt
  forgiven r = r

  abbrev pub on_doomed : EndpointResource → String → Result (Option Endpoint) → Run (Unit {0})
  on_doomed cr id (err not_found) = finish cr (get id ∷ []) tt
  on_doomed cr id (err e) = stop cr (get id ∷ []) e
  on_doomed cr id (ok none) =
      stop cr (get id ∷ []) (failure "RunPod Endpoint GET returned no object before deletion")
  on_doomed cr id (ok (some _)) = record {
    result = forgiven (svc.delete_endpoint id);
    cr = cr;
    calls = get id ∷ delete id ∷ [];
  }

  abbrev pub on_checks : EndpointResource → String → Result (List EndpointCheck) → Run (Unit {0})
  on_checks cr id (err e) = stop cr [] e
  on_checks cr id (ok checks) =
      if any (refers_to cr.metadata.name) checks
      then stop cr [] (
          failure "EndpointCheck must be deleted before Endpoint so model-router removes the route")
      else on_doomed cr id (svc.get_endpoint id)

  unfoldable pub delete_external : EndpointResource → Run (Unit {0})
  delete_external given =
      let cr = set_condition given deleting in
      if not (is_bound cr (external_id x reader svc template now cr))
      then stop cr [] (
          failure
            "refusing to delete an Endpoint without a persisted controller-observed ID binding")
      else on_checks cr (external_id x reader svc template now cr)
          (reader.list_checks cr.metadata.namespace)
