-- ===== src/Endpoint/Handlers/Absence.antt =====
-- When Observe reports that no external Endpoint exists, which is what lets a create happen.
use provider_runpod.Base.{
  String, ◌≡◌, true, false, List, [], Option, none, some, Result, ok, err, arith, eq_iff, not_found,
  str_eq, Bool-cases, inl, inr, lookup_or,
}
use provider_runpod.Client.Types.{Endpoint, EndpointInput}
use provider_runpod.Apis.{EndpointResource, Time}
use provider_runpod.Apis.Crossplane.{Crossplane}
use provider_runpod.Apis.Reader.{Reader}
use provider_runpod.Managed.{ExternalObservation, ambiguous_absence_confirmed}
use provider_runpod.Endpoint.Settings.{TemplateBinding, endpoint_name, endpoint_input}
use provider_runpod.Endpoint.Handlers.{Service, Call, Run, external_id, pending_name}
use provider_runpod.Endpoint.Handlers.Observe.{
  observe, on_found, on_reasserted, on_read, judge, observe_bound,
}

-- A run that, if it succeeds, reports an external object.
abbrev Reports : Run ExternalObservation → Type 0
Reports r = (o : ExternalObservation) → r.result ≡ ok o → o.resource_exists ≡ true

module _ (x : Crossplane) (reader : Reader) (svc : Service) (t : TemplateBinding) (now : Time)
    (cr : EndpointResource) (alive : cr.metadata.is_deleting ≡ false) where
  reasserted-Reports :
      (desired : EndpointInput) (calls : List Call) (r : Result Endpoint)
      → Reports (on_reasserted x reader svc t now cr desired calls r)
  reasserted-Reports desired calls (err e) o h = cc
  reasserted-Reports desired calls (ok got) o h = ground arith

  found-Reports :
      (name : String) (r : Result Endpoint) → Reports (on_found x reader svc t now cr name r)
  unfolding on_found
  found-Reports name (err e) o h = ground arith
  found-Reports name (ok got) o h = ground (
    arith,
    reasserted-Reports (record (endpoint_input cr t.id) { name = name }) _
        (svc.update_endpoint got.id (record (endpoint_input cr t.id) { name = name })) o,
  )

module _ (x : Crossplane) (reader : Reader) (svc : Service) (t : TemplateBinding) (now : Time) where
  judge-Reports :
      (cr : EndpointResource) (calls : List Call) (got : Endpoint)
      → Reports (judge x reader svc t now cr calls got)
  judge-Reports cr calls got o h = ground arith

  module _ (cr : EndpointResource) (alive : cr.metadata.is_deleting ≡ false) where
    read-Reports :
        (id : String) (r : Result (Option Endpoint)) → Reports (on_read x reader svc t now cr id r)
    read-Reports id (ok none) o h = cc
    read-Reports id (ok (some got)) o h = elim (Bool-cases (str_eq cr.at_provider.id "")) [
      | inl unbound ↦ elim (Bool-cases (str_eq got.name (endpoint_name cr))) [
        | inl named ↦
            judge-Reports (record cr { at_provider = record (cr.at_provider) { id = id } }) _ got o
              (rw (unbound, named) at h)
        | inr other ↦ cc (rw (unbound, other) at h)
      ]
      | inr bound ↦ judge-Reports cr _ got o (rw bound at h)
    ]
    read-Reports id (err not_found) o h = ground arith
    read-Reports id (err _) o h = cc

    bound-Reports :
        (id : String) (o : ExternalObservation)
        → (observe_bound x reader svc t now cr id).result ≡ ok o
        → o.resource_exists ≡ false
        → (id ≡ "") × ((observe_bound x reader svc t now cr id).calls ≡ [])
    unfolding observe_bound
    bound-Reports id o h n = ground (arith, eq_iff id "", read-Reports id (svc.get_endpoint id) o)

-- For an Endpoint object that is not being deleted, Observe reports that nothing exists only if the
-- object has no external name, carries no mark of a pending create, and no absence was acknowledged;
-- it then asked RunPod for nothing, so this holds whatever RunPod answers, a 404 included.
pub observe_absent :
    (x : Crossplane) (reader : Reader) (svc : Service) (t : TemplateBinding) (now : Time)
    (cr : EndpointResource) (o : ExternalObservation)
    → cr.metadata.is_deleting ≡ false
    → (observe x reader svc t now cr).result ≡ ok o
    → o.resource_exists ≡ false
    → (external_id x reader svc t now cr ≡ "")
      × (pending_name x reader svc t now cr ≡ "")
      × (lookup_or "" ambiguous_absence_confirmed cr.metadata.annotations ≡ "")
      × ((observe x reader svc t now cr).calls ≡ [])
unfolding observe
observe_absent x reader svc t now cr o alive h n = ground (
  arith,
  eq_iff (lookup_or "" ambiguous_absence_confirmed cr.metadata.annotations) "",
  eq_iff (pending_name x reader svc t now cr) "",
  found-Reports x reader svc t now cr alive (pending_name x reader svc t now cr)
      (svc.find_endpoint_by_name (pending_name x reader svc t now cr)) o,
  bound-Reports x reader svc t now cr alive (external_id x reader svc t now cr) o,
)
