-- ===== src/Endpoint/Handlers/Create.antt =====
-- internal/controller/endpoint/endpoint.go: Create, and the recovery of an ambiguous create.
use provider_runpod.Base.{
  String, true, false, not, List, [], ◌∷◌, ◌++◌, str_eq, Result, ok, err, failure,
  is_create_ambiguous, if◌then◌else◌, lookup_or,
}
use provider_runpod.Client.Types.{Endpoint, EndpointInput}
use provider_runpod.Apis.{EndpointResource, Time, creating}
use provider_runpod.Apis.Crossplane.{Crossplane}
use provider_runpod.Apis.Reader.{Reader}
use provider_runpod.Managed.{
  stop, finish, endpoint_keys, ambiguous_absence_confirmed, mark_ambiguous_create,
}
use provider_runpod.Endpoint.Settings.{
  TemplateBinding, endpoint_input, validate, ensure_lifetime_active,
}
use provider_runpod.Endpoint.Observation.{set_observation}
use provider_runpod.Endpoint.Binding.{bind_external_id, with_annotations}
use provider_runpod.Endpoint.Handlers.{
  Service, Call, Run, set_condition, conforms, has_workers, find, create, update,
}

module _ (x : Crossplane) (reader : Reader) (svc : Service) (template : TemplateBinding)
    (now : Time) where
  -- What recovery leaves: the object, bound if the Endpoint was found, conforms and was reasserted.
  abbrev pub on_recovered :
      EndpointResource → EndpointInput → List Call → Result Endpoint → Run (Unit {0})
  on_recovered cr desired calls (err _) = finish cr calls tt
  on_recovered cr desired calls (ok got) =
      if not (conforms cr template desired got)
      then finish cr calls tt
      else finish
          (set_observation (bind_external_id x cr got.id now) got true template (has_workers got)
            now).cr
          calls tt

  abbrev pub on_candidate :
      EndpointResource → EndpointInput → List Call → Result Endpoint → Run (Unit {0})
  on_candidate cr desired calls (err _) = finish cr calls tt
  on_candidate cr desired calls (ok got) =
      if not (conforms cr template desired got)
      then finish cr calls tt
      else on_recovered cr desired (calls ++ update got.id desired ∷ [])
          (svc.update_endpoint got.id desired)

  unfoldable pub recover_ambiguous_create :
      EndpointResource → EndpointInput → String → List Call → Run (Unit {0})
  recover_ambiguous_create cr given name calls =
      on_candidate cr (record given { name = name }) (calls ++ find name ∷ [])
        (svc.find_endpoint_by_name name)

  abbrev pub on_created : EndpointResource → EndpointInput → Result Endpoint → Run (Unit {0})
  on_created cr desired (ok got) =
      finish (set_observation (bind_external_id x cr got.id now) got true template false now).cr
        (create desired ∷ []) tt
  on_created cr desired (err e) =
      if is_create_ambiguous e
      then recover_ambiguous_create
          (with_annotations cr
            (mark_ambiguous_create endpoint_keys desired.name cr.metadata.annotations))
          desired desired.name (create desired ∷ [])
      else stop cr (create desired ∷ []) e

  abbrev pub create_allowed : EndpointResource → Run (Unit {0})
  create_allowed cr =
      let desired = endpoint_input cr template.id in
      let marked = lookup_or "" endpoint_keys.ambiguous_create_name cr.metadata.annotations in
      if not (str_eq marked "")
      then recover_ambiguous_create cr desired marked []
      else elim (ensure_lifetime_active cr.metadata cr.spec.max_lifetime_seconds now) [
        | err e ↦ stop cr [] e
        | ok _ ↦ on_created cr desired (svc.create_endpoint desired)
      ]

  unfoldable pub create_external : EndpointResource → Run (Unit {0})
  unfolding recover_ambiguous_create
  create_external given =
      let cr = set_condition given creating in
      if not (str_eq (lookup_or "" ambiguous_absence_confirmed cr.metadata.annotations) "")
      then stop cr [] (
          failure
            "ambiguous Endpoint absence acknowledgement forbids external creation; delete the CR to finalize")
      else if str_eq cr.metadata.uid ""
      then stop cr [] (failure "Kubernetes UID is required before creating a RunPod Endpoint")
      else elim (validate cr template.id) [ err e ↦ stop cr [] e | ok _ ↦ create_allowed cr ]
