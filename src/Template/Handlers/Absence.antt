-- ===== src/Template/Handlers/Absence.antt =====
-- When Observe reports that no external Template exists, and when it reports one up to date.
use provider_runpod.Base.{
  String, ◌≡◌, true, false, [], Option, none, some, Result, ok, err, arith, eq_iff, not_found,
  lookup_or,
}
use provider_runpod.Client.Types.{Template}
use provider_runpod.Apis.{TemplateResource, Time}
use provider_runpod.Apis.Crossplane.{Crossplane}
use provider_runpod.Apis.Reader.{Reader}
use provider_runpod.Managed.{ExternalObservation, ambiguous_absence_confirmed}
use provider_runpod.Template.Handlers.{TemplateService, template_id, pending_template_name}
use provider_runpod.Template.Handlers.Observe.{
  observe_template, observe_bound_template, on_found_template, on_read_template,
}

module _ (x : Crossplane) (reader : Reader) (svc : TemplateService) (now : Time) where
  read-absent :
      (cr : TemplateResource) (id : String) (r : Result (Option Template)) (o : ExternalObservation)
      → cr.metadata.is_deleting ≡ false
      → (on_read_template x reader svc now cr id r).result ≡ ok o
      → o.resource_exists ≡ true
  read-absent cr id (ok none) o alive h = cc
  read-absent cr id (ok (some got)) o alive h = ground arith
  read-absent cr id (err not_found) o alive h = ground arith
  read-absent cr id (err _) o alive h = cc

  found-absent :
      (cr : TemplateResource) (name : String) (r : Result Template) (o : ExternalObservation)
      → cr.metadata.is_deleting ≡ false
      → (on_found_template x reader svc now cr name r).result ≡ ok o
      → o.resource_exists ≡ true
  unfolding on_found_template
  found-absent cr name (err e) o alive h = ground arith
  found-absent cr name (ok got) o alive h = ground arith

  bound-absent :
      (cr : TemplateResource) (id : String) (o : ExternalObservation)
      → cr.metadata.is_deleting ≡ false
      → (observe_bound_template x reader svc now cr id).result ≡ ok o
      → o.resource_exists ≡ false
      → (id ≡ "") × ((observe_bound_template x reader svc now cr id).calls ≡ [])
  unfolding observe_bound_template
  bound-absent cr id o alive h n =
      ground (arith, eq_iff id "", read-absent cr id (svc.get_template id) o)

-- For a Template object that is not being deleted, Observe reports that nothing exists only if the
-- object has no external name, carries no mark of a pending create, and no absence was acknowledged;
-- it then asked RunPod for nothing, so this holds whatever RunPod answers, a 404 included.
pub observe_template_absent :
    (x : Crossplane) (reader : Reader) (svc : TemplateService) (now : Time) (cr : TemplateResource)
    (o : ExternalObservation)
    → cr.metadata.is_deleting ≡ false
    → (observe_template x reader svc now cr).result ≡ ok o
    → o.resource_exists ≡ false
    → (template_id x reader svc now cr ≡ "")
      × (pending_template_name x reader svc now cr ≡ "")
      × (lookup_or "" ambiguous_absence_confirmed cr.metadata.annotations ≡ "")
      × ((observe_template x reader svc now cr).calls ≡ [])
unfolding observe_template
observe_template_absent x reader svc now cr o alive h n = ground (
  arith,
  eq_iff (lookup_or "" ambiguous_absence_confirmed cr.metadata.annotations) "",
  eq_iff (pending_template_name x reader svc now cr) "",
  found-absent x reader svc now cr (pending_template_name x reader svc now cr)
      (svc.find_template_by_name (pending_template_name x reader svc now cr)) o,
  bound-absent x reader svc now cr (template_id x reader svc now cr) o,
)
