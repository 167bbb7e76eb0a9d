-- ===== src/Endpoint/Handlers/Recovery.antt =====
-- internal/controller/endpoint/endpoint.go: what Create leaves on the object, and what the next
-- Observe makes of it.
use provider_runpod.Base.{
  String, ◌≡◌, ◌≢◌, refl, ap, sym, ◌∙◌, ◌⊎◌, inl, inr, Bool, true, false, List, ◌∷◌, Result, ok,
  err, arith, eq_iff, lookup_or, any, Bool-cases, is_create_ambiguous, not_true-false,
}
use provider_runpod.Identifier.{is_runpod_id, validate_runpod_id}
use provider_runpod.Client.Types.{Endpoint, EndpointInput}
use provider_runpod.Apis.{EndpointResource, Time, creating}
use provider_runpod.Apis.Crossplane.{Crossplane, IsCrossplane}
use provider_runpod.Apis.Reader.{Reader}
use provider_runpod.Managed.{ExternalObservation, endpoint_keys, mark_ambiguous_create}
use provider_runpod.Managed.Marks.{
  AreOwn, bind_annotations-external_name, mark_ambiguous_create-lookup,
}
use provider_runpod.Endpoint.Settings.{TemplateBinding, endpoint_name, endpoint_input}
use provider_runpod.Endpoint.Settings.Name.{effective_name-nonempty}
use provider_runpod.Endpoint.Binding.{bind_external_id, with_annotations}
use provider_runpod.Endpoint.Observation.{set_observation}
use provider_runpod.Endpoint.Observation.Keeps.{set_observation-Keeps}
use provider_runpod.Endpoint.Handlers.{Service, Call, pending_name, conforms, has_workers}
use provider_runpod.Endpoint.Handlers.Observe.{observe}
use provider_runpod.Endpoint.Handlers.Create.{
  create_external, recover_ambiguous_create, on_created, on_candidate, on_recovered,
}
use provider_runpod.Endpoint.Handlers.Calls.{is_create}
use provider_runpod.Endpoint.Handlers.Absence.{observe_absent}

-- The annotations of the Endpoint controller are not crossplane's.
own_keys : AreOwn endpoint_keys
own_keys = record {
  create = λ e. ground (arith, (eq_iff _ _).1 e);
  bound = λ e. ground (arith, (eq_iff _ _).1 e);
}

module _ (x : Crossplane) (laws : IsCrossplane x) (reader : Reader) (svc : Service)
    (t : TemplateBinding) (now : Time) where
  -- The object is bound to an Endpoint that RunPod answered with, or marked with the name to look for.
  abbrev IsTraceable : String → EndpointResource → Type 0
  IsTraceable name cr =
      ((got : Endpoint) × (((d : EndpointInput) × (svc.create_endpoint d ≡ ok got))
          ⊎ ((e : String) × (d : EndpointInput) × (svc.update_endpoint e d ≡ ok got)))
        × (x.external_name cr.metadata.annotations ≡ got.id))
      ⊎ (lookup_or "" endpoint_keys.ambiguous_create_name cr.metadata.annotations ≡ name)

  observed-bound :
      (cr : EndpointResource) (got : Endpoint) (c w : Bool)
      → x.external_name
          (set_observation (bind_external_id x cr got.id now) got c t w now).cr.metadata.annotations
        ≡ got.id
  unfolding bind_external_id
  observed-bound cr got c w =
      ap (λ m. x.external_name m.annotations) (set_observation-Keeps _ got c t w now).metadata
      ∙ bind_annotations-external_name x laws endpoint_keys own_keys got.id now
          cr.metadata.annotations

  recovered-IsTraceable :
      (name : String) (cr : EndpointResource) (desired : EndpointInput) (calls : List Call)
      (e : String) (r : Result Endpoint)
      → svc.update_endpoint e desired ≡ r
      → lookup_or "" endpoint_keys.ambiguous_create_name cr.metadata.annotations ≡ name
      → IsTraceable name (on_recovered x reader svc t now cr desired calls r).cr
  recovered-IsTraceable name cr desired calls e (err _) a m = inr m
  recovered-IsTraceable name cr desired calls e (ok got) a m =
      elim (Bool-cases (conforms cr t desired got)) [
        | inl fits ↦
            rw fits (inl (got, inr (e, desired, a), observed-bound cr got true (has_workers got)))
        | inr misses ↦ rw misses (inr m)
      ]

  candidate-IsTraceable :
      (name : String) (cr : EndpointResource) (desired : EndpointInput) (calls : List Call)
      (r : Result Endpoint)
      → lookup_or "" endpoint_keys.ambiguous_create_name cr.metadata.annotations ≡ name
      → IsTraceable name (on_candidate x reader svc t now cr desired calls r).cr
  candidate-IsTraceable name cr desired calls (err _) m = inr m
  candidate-IsTraceable name cr desired calls (ok got) m =
      elim (Bool-cases (conforms cr t desired got)) [
        | inl fits ↦ rw fits (
            recovered-IsTraceable name cr desired _ got.id (svc.update_endpoint got.id desired) refl
              m)
        | inr misses ↦ rw misses (inr m)
      ]

  created-IsTraceable :
      (cr : EndpointResource) (desired : EndpointInput) (r : Result Endpoint)
      → svc.create_endpoint desired ≡ r
      → (on_created x reader svc t now cr desired r).result ≡ ok tt
      → IsTraceable desired.name (on_created x reader svc t now cr desired r).cr
  unfolding recover_ambiguous_create
  created-IsTraceable cr desired (ok got) a h =
      inl (got, inl (desired, a), observed-bound cr got true false)
  created-IsTraceable cr desired (err e) a h = elim (Bool-cases (is_create_ambiguous e)) [
    | inl unsure ↦ rw unsure (
        candidate-IsTraceable desired.name
          (with_annotations cr
            (mark_ambiguous_create endpoint_keys desired.name cr.metadata.annotations))
          _ _ _ (mark_ambiguous_create-lookup endpoint_keys desired.name cr.metadata.annotations))
    | inr sure ↦ cc
  ]

  creation-created :
      (cr : EndpointResource)
      → any is_create (create_external x reader svc t now cr).calls ≡ true
      → create_external x reader svc t now cr
        ≡ on_created x reader svc t now
            (record cr { conditions = creating ∷ cr.conditions })
            (endpoint_input (record cr { conditions = creating ∷ cr.conditions }) t.id)
            (svc.create_endpoint
              (endpoint_input (record cr { conditions = creating ∷ cr.conditions }) t.id))
  unfolding create_external recover_ambiguous_create
  creation-created cr h = ground arith

  creation-IsTraceable :
      (cr : EndpointResource)
      → any is_create (create_external x reader svc t now cr).calls ≡ true
      → (create_external x reader svc t now cr).result ≡ ok tt
      → IsTraceable (endpoint_name cr) (create_external x reader svc t now cr).cr
  unfolding endpoint_input
  creation-IsTraceable cr c h =
      let e = creation-created cr c in
      rw e (created-IsTraceable _ _ (svc.create_endpoint _) refl (rw e at h))

-- The client gives out only Endpoints with a valid ID.
pub record IsIdentifying (svc : Service) : Type 0 where
  pub created :
      (d : EndpointInput) (got : Endpoint)
      → svc.create_endpoint d ≡ ok got
      → is_runpod_id got.id ≡ true
  pub updated :
      (e : String) (d : EndpointInput) (got : Endpoint)
      → svc.update_endpoint e d ≡ ok got
      → is_runpod_id got.id ≡ true

valid-nonempty : (id : String) → is_runpod_id id ≡ true → id ≢ ""
unfolding validate_runpod_id
valid-nonempty id h e = not_true-false _ h (ap is_runpod_id e)

pending-nonempty :
    (x : Crossplane) (reader : Reader) (svc : Service) (t : TemplateBinding) (now : Time)
    (cr : EndpointResource)
    → pending_name x reader svc t now cr ≡ ""
    → lookup_or "" endpoint_keys.ambiguous_create_name cr.metadata.annotations ≡ ""
pending-nonempty x reader svc t now cr h =
    ground (arith, effective_name-nonempty cr.spec.name cr.metadata.uid)

-- When Create has made a create call and succeeds, ambiguous or not, the object that it leaves can
-- be traced: if it is not being deleted, the next Observe, whatever RunPod and the API server answer
-- by then, does not report that the Endpoint is absent. It is supposed that the client's answers
-- carry valid IDs.
pub create_then_observe :
    (x : Crossplane) (reader : Reader) (svc : Service) (t : TemplateBinding) (now : Time)
    (cr : EndpointResource)
    → IsCrossplane x
    → IsIdentifying svc
    → any is_create (create_external x reader svc t now cr).calls ≡ true
    → (create_external x reader svc t now cr).result ≡ ok tt
    → (create_external x reader svc t now cr).cr.metadata.is_deleting ≡ false
    → (reader' : Reader) (svc' : Service) (t' : TemplateBinding) (now' : Time)
      (o : ExternalObservation)
    → (observe x reader' svc' t' now' (create_external x reader svc t now cr).cr).result ≡ ok o
    → o.resource_exists ≡ true
create_then_observe x reader svc t now cr laws ids c h alive reader' svc' t' now' o told =
    elim (Bool-cases o.resource_exists) [
      | inl there ↦ there
      | inr gone ↦
          let left = (create_external x reader svc t now cr).cr in
          let (unnamed, unmarked, _, _) =
            observe_absent x reader' svc' t' now' left o alive told gone in
          elim (creation-IsTraceable x laws reader svc t now cr c h) [
            | inl (got, inl (d, a), named) ↦
                absurd (valid-nonempty got.id (ids.created d got a) (sym named ∙ unnamed))
            | inl (got, inr (e, d, a), named) ↦
                absurd (valid-nonempty got.id (ids.updated e d got a) (sym named ∙ unnamed))
            | inr marked ↦ absurd (
                effective_name-nonempty cr.spec.name cr.metadata.uid
                  (sym marked ∙ pending-nonempty x reader' svc' t' now' left unmarked))
          ]
    ]
