-- ===== src/Endpoint/Handlers/Ready.antt =====
-- When Observe reports an Endpoint up to date, which is what makes it Ready and routable.
use provider_runpod.Base.{
  String, ◌≡◌, refl, ◌⊎◌, inl, inr, true, false, List, [], ◌∷◌, Option, none, some, Result, ok, err,
  Error, arith, eq_iff, not_found, str_eq, Bool-cases,
}
use provider_runpod.Client.Types.{Endpoint}
use provider_runpod.Apis.{EndpointResource, EndpointObservation, Time}
use provider_runpod.Apis.Crossplane.{Crossplane}
use provider_runpod.Apis.Reader.{Reader}
use provider_runpod.Managed.{ExternalObservation}
use provider_runpod.Endpoint.Settings.{TemplateBinding, endpoint_name, endpoint_input}
use provider_runpod.Endpoint.Handlers.{Service, Call, external_id, pending_name}
use provider_runpod.Endpoint.Handlers.Observe.{
  observe, on_found, on_reasserted, on_read, judge, observe_bound,
}
use provider_runpod.Endpoint.Handlers.Proven.{
  remembered, IsReady, read, judge-IsJudged, conforms_parts, reasserted-IsReady,
}

module _ (x : Crossplane) (reader : Reader) (svc : Service) (t : TemplateBinding) (now : Time) where
  -- The recovery that reports "up to date" ended in a conforming answer to the reassertion.
  found-reasserted :
      (cr : EndpointResource) (got : Endpoint) (o : ExternalObservation)
      → (on_found x reader svc t now cr (endpoint_name cr) (ok got)).result ≡ ok o
      → o.resource_up_to_date ≡ true
      → on_found x reader svc t now cr (endpoint_name cr) (ok got)
        ≡ on_reasserted x reader svc t now cr
            (endpoint_input cr t.id)
            (Call.find (endpoint_name cr) ∷ Call.update got.id (endpoint_input cr t.id) ∷ [])
            (svc.update_endpoint got.id (endpoint_input cr t.id))
  unfolding on_found endpoint_input
  found-reasserted cr got o h u = ground arith

  failed-blocked :
      (cr : EndpointResource) (e : Error) (o : ExternalObservation)
      → (on_found x reader svc t now cr (endpoint_name cr) (err e)).result ≡ ok o
      → o.resource_up_to_date ≡ false
  unfolding on_found
  failed-blocked cr e o h = ground arith

  found-IsReady :
      (cr : EndpointResource) (id : String) (r : Result Endpoint) (o : ExternalObservation)
      → (on_found x reader svc t now cr (endpoint_name cr) r).result ≡ ok o
      → o.resource_up_to_date ≡ true
      → IsReady svc t id cr now (on_found x reader svc t now cr (endpoint_name cr) r)
  found-IsReady cr id (err e) o h u = ground (arith, failed-blocked cr e o h)
  found-IsReady cr id (ok got) o h u =
      let e = found-reasserted cr got o h u in
      rw e (reasserted-IsReady x reader svc t now cr id got.id _ o (rw e at h) u)

  input-rebound :
      (cr : EndpointResource) (p : EndpointObservation) (id : String)
      → endpoint_input (record cr { at_provider = p }) id ≡ endpoint_input cr id
  unfolding endpoint_input
  input-rebound cr p id = refl

  judged-IsReady :
      (cr : EndpointResource) (p : EndpointObservation) (id : String) (calls : List Call)
      (got : Endpoint) (o : ExternalObservation)
      → remembered cr id ≡ p
      → svc.get_endpoint id ≡ ok (some got)
      → (judge x reader svc t now (record cr { at_provider = p }) calls got).result ≡ ok o
      → o.resource_up_to_date ≡ true
      → IsReady svc t id cr now (judge x reader svc t now (record cr { at_provider = p }) calls got)
  judged-IsReady cr p id calls got o is e h u =
      let j = judge-IsJudged x reader svc t now (record cr { at_provider = p }) calls got o h u in
      let (a, b, c) =
        conforms_parts x reader svc t now (record cr { at_provider = p }) _ got j.fits in
      record {
        got = got;
        settings = rw (input-rebound cr p t.id) at a;
        template = b;
        workers = rw (input-rebound cr p t.id) at c;
        proven = read e (rw is j.off) (rw is j.revised) j.revision;
        generation = j.generation;
        condition = j.condition;
      }

  read-IsReady :
      (cr : EndpointResource) (id : String) (r : Result (Option Endpoint)) (o : ExternalObservation)
      → svc.get_endpoint id ≡ r
      → (on_read x reader svc t now cr id r).result ≡ ok o
      → o.resource_up_to_date ≡ true
      → IsReady svc t id cr now (on_read x reader svc t now cr id r)
  read-IsReady cr id (ok (some got)) o e h u = elim (Bool-cases (str_eq cr.at_provider.id "")) [
    | inl unbound ↦ elim (Bool-cases (str_eq got.name (endpoint_name cr))) [
      | inl named ↦
          rw (unbound, named)
            (judged-IsReady cr (record (cr.at_provider) { id = id }) id _ got o (rw unbound refl) e
              (rw (unbound, named) at h) u)
      | inr other ↦ cc (rw (unbound, other) at h)
    ]
    | inr bound ↦
        rw bound (judged-IsReady cr cr.at_provider id _ got o (rw bound refl) e (rw bound at h) u)
  ]
  read-IsReady cr id (ok none) o e h u = cc
  read-IsReady cr id (err not_found) o e h u = ground arith
  read-IsReady cr id (err _) o e h u = cc

  bound-read :
      (cr : EndpointResource) (id : String) (o : ExternalObservation)
      → (observe_bound x reader svc t now cr id).result ≡ ok o
      → o.resource_up_to_date ≡ true
      → observe_bound x reader svc t now cr id
        ≡ on_read x reader svc t now cr id (svc.get_endpoint id)
  unfolding observe_bound
  bound-read cr id o h u = ground arith

  bound-IsReady :
      (cr : EndpointResource) (id : String) (o : ExternalObservation)
      → (observe_bound x reader svc t now cr id).result ≡ ok o
      → o.resource_up_to_date ≡ true
      → IsReady svc t id cr now (observe_bound x reader svc t now cr id)
  bound-IsReady cr id o h u =
      let e = bound-read cr id o h u in
      rw e (read-IsReady cr id (svc.get_endpoint id) o refl (rw e at h) u)

  observed :
      (cr : EndpointResource) (o : ExternalObservation)
      → (observe x reader svc t now cr).result ≡ ok o
      → (observe x reader svc t now cr
          ≡ on_found x reader svc t now cr
              (endpoint_name cr)
              (svc.find_endpoint_by_name (endpoint_name cr)))
        ⊎ (observe x reader svc t now cr
            ≡ observe_bound x reader svc t now cr (external_id x reader svc t now cr))
  unfolding observe
  observed cr o h = ground (arith, eq_iff (pending_name x reader svc t now cr) (endpoint_name cr))

-- When Observe succeeds and reports an Endpoint object up to date, then in that very pass RunPod
-- answered with an Endpoint that matches the desired settings, the managed Template and, worker by
-- worker, the bounds, and the object leaves announced available, for its current generation. Its new
-- status claims flashboot=false for the rollout of the answer. If that answers the GET of the bound
-- ID, the claim counts from this pass, as the answer reports the setting, or it is standing evidence
-- of the same Endpoint and rollout, at most five minutes old, carried over with its instant; and the
-- status records the managed Template's UID, generation and image, which it recorded before, or
-- replaces by them another revision under another rollout version. If it answers the update that
-- reasserts the bounded settings, the claim counts from this pass, and the status records the
-- Template's revision if it recorded none before.
pub observe-IsReady :
    (x : Crossplane) (reader : Reader) (svc : Service) (t : TemplateBinding) (now : Time)
    (cr : EndpointResource) (o : ExternalObservation)
    → (observe x reader svc t now cr).result ≡ ok o
    → o.resource_up_to_date ≡ true
    → IsReady svc t (external_id x reader svc t now cr) cr now (observe x reader svc t now cr)
observe-IsReady x reader svc t now cr o h u = elim (observed x reader svc t now cr o h) [
  | inl e ↦ rw e (
      found-IsReady x reader svc t now cr _ (svc.find_endpoint_by_name (endpoint_name cr)) o
        (rw e at h) u)
  | inr e ↦ rw e (bound-IsReady x reader svc t now cr _ o (rw e at h) u)
]
