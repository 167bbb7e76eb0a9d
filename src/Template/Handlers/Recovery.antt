-- ===== src/Template/Handlers/Recovery.antt =====
-- internal/controller/template/template.go: what Create leaves on the object, and what the next Observe
-- makes of it.
use provider_runpod.Base.{
  String, ◌≡◌, ◌≢◌, refl, sym, ap, ◌∙◌, ◌⊎◌, inl, inr, true, false, List, ◌∷◌, Result, ok, err,
  eq_iff, Bool-cases, lookup_or, any, is_create_ambiguous, not_true-false, arith,
}
use provider_runpod.Identifier.{is_runpod_id, validate_runpod_id}
use provider_runpod.Client.Types.{Template, TemplateInput}
use provider_runpod.Apis.{TemplateResource, Time, creating}
use provider_runpod.Apis.Crossplane.{Crossplane, IsCrossplane}
use provider_runpod.Apis.Reader.{Reader}
use provider_runpod.Managed.{ExternalObservation, template_keys, mark_ambiguous_create}
use provider_runpod.Template.Settings.{
  template_name, template_input, template_matches_input, set_template_observation,
}
use provider_runpod.Template.Handlers.{
  TemplateService, TemplateCall, with_template_annotations, pending_template_name, bind_template_id,
}
use provider_runpod.Template.Handlers.Observe.{observe_template}
use provider_runpod.Template.Handlers.Create.{
  create_external_template, recover_ambiguous_template, on_recovered_template, on_created_template,
}
use provider_runpod.Managed.Marks.{
  AreOwn, bind_annotations-external_name, mark_ambiguous_create-lookup,
}
use provider_runpod.Endpoint.Settings.Name.{effective_name-nonempty}
use provider_runpod.Template.Handlers.Calls.{creates}
use provider_runpod.Template.Handlers.Absence.{observe_template_absent}

-- The annotations of the Template controller are not crossplane's.
own_keys : AreOwn template_keys
own_keys = record {
  create = λ e. ground (arith, (eq_iff _ _).1 e);
  bound = λ e. ground (arith, (eq_iff _ _).1 e);
}

module _ (x : Crossplane) (laws : IsCrossplane x) (reader : Reader) (svc : TemplateService)
    (now : Time) where
  -- The object is bound to a Template that RunPod answered with, or marked with the name to look for.
  abbrev IsTraceable : String → TemplateResource → Type 0
  IsTraceable name cr =
      ((got : Template) × (((d : TemplateInput) × (svc.create_template d ≡ ok got))
          ⊎ (svc.find_template_by_name name ≡ ok got))
        × (x.external_name cr.metadata.annotations ≡ got.id))
      ⊎ (lookup_or "" template_keys.ambiguous_create_name cr.metadata.annotations ≡ name)

  named-bound :
      (cr : TemplateResource) (got : Template)
      → x.external_name
          (set_template_observation (bind_template_id x cr got.id now) got now).metadata.annotations
        ≡ got.id
  unfolding bind_template_id set_template_observation
  named-bound cr got =
      bind_annotations-external_name x laws template_keys own_keys got.id now
        cr.metadata.annotations

  recovered-IsTraceable :
      (name : String) (cr : TemplateResource) (desired : TemplateInput) (calls : List TemplateCall)
      (r : Result Template)
      → svc.find_template_by_name name ≡ r
      → lookup_or "" template_keys.ambiguous_create_name cr.metadata.annotations ≡ name
      → IsTraceable name (on_recovered_template x reader svc now cr desired calls r).cr
  recovered-IsTraceable name cr desired calls (err _) a m = inr m
  recovered-IsTraceable name cr desired calls (ok got) a m =
      elim (Bool-cases (template_matches_input desired got)) [
        | inl fits ↦ rw fits (inl (got, inr a, named-bound cr got))
        | inr misses ↦ rw misses (inr m)
      ]

  created-IsTraceable :
      (cr : TemplateResource) (desired : TemplateInput) (r : Result Template)
      → svc.create_template desired ≡ r
      → (on_created_template x reader svc now cr desired r).result ≡ ok tt
      → IsTraceable desired.name (on_created_template x reader svc now cr desired r).cr
  unfolding recover_ambiguous_template
  created-IsTraceable cr desired (ok got) a h = inl (got, inl (desired, a), named-bound cr got)
  created-IsTraceable cr desired (err e) a h = elim (Bool-cases (is_create_ambiguous e)) [
    | inl unsure ↦ rw unsure (
        recovered-IsTraceable desired.name
          (with_template_annotations cr
            (mark_ambiguous_create template_keys desired.name cr.metadata.annotations))
          _ _ _ refl
          (mark_ambiguous_create-lookup template_keys desired.name cr.metadata.annotations))
    | inr sure ↦ cc
  ]

  creation-created :
      (cr : TemplateResource)
      → any creates (create_external_template x reader svc now cr).calls ≡ true
      → create_external_template x reader svc now cr
        ≡ on_created_template x reader svc now
            (record cr { conditions = creating ∷ cr.conditions })
            (template_input (record cr { conditions = creating ∷ cr.conditions }))
            (svc.create_template
              (template_input (record cr { conditions = creating ∷ cr.conditions })))
  unfolding create_external_template recover_ambiguous_template
  creation-created cr h = ground arith

  creation-IsTraceable :
      (cr : TemplateResource)
      → any creates (create_external_template x reader svc now cr).calls ≡ true
      → (create_external_template x reader svc now cr).result ≡ ok tt
      → IsTraceable (template_name cr) (create_external_template x reader svc now cr).cr
  unfolding template_input
  creation-IsTraceable cr c h =
      let e = creation-created cr c in
      rw e (created-IsTraceable _ _ (svc.create_template _) refl (rw e at h))

-- The client gives out only Templates with a valid ID.
pub record IsNaming (svc : TemplateService) : Type 0 where
  pub created :
      (d : TemplateInput) (got : Template)
      → svc.create_template d ≡ ok got
      → is_runpod_id got.id ≡ true
  pub found :
      (n : String) (got : Template)
      → svc.find_template_by_name n ≡ ok got
      → is_runpod_id got.id ≡ true

valid-nonempty : (id : String) → is_runpod_id id ≡ true → id ≢ ""
unfolding validate_runpod_id
valid-nonempty id h e = not_true-false _ h (ap is_runpod_id e)

pending-nonempty :
    (x : Crossplane) (reader : Reader) (svc : TemplateService) (now : Time) (cr : TemplateResource)
    → pending_template_name x reader svc now cr ≡ ""
    → lookup_or "" template_keys.ambiguous_create_name cr.metadata.annotations ≡ ""
pending-nonempty x reader svc now cr h =
    ground (arith, effective_name-nonempty cr.spec.name cr.metadata.uid)

-- When Create has made a create call and succeeds, ambiguous or not, the object that it leaves can
-- be traced: if it is not being deleted, the next Observe, whatever RunPod and the API server answer
-- by then, does not report that the Template is absent. It is supposed that the client's answers
-- carry valid IDs.
pub create_then_observe_template :
    (x : Crossplane) (reader : Reader) (svc : TemplateService) (now : Time) (cr : TemplateResource)
    → IsCrossplane x
    → IsNaming svc
    → any creates (create_external_template x reader svc now cr).calls ≡ true
    → (create_external_template x reader svc now cr).result ≡ ok tt
    → (create_external_template x reader svc now cr).cr.metadata.is_deleting ≡ false
    → (reader' : Reader) (svc' : TemplateService) (now' : Time) (o : ExternalObservation)
    → (observe_template x reader' svc' now'
        (create_external_template x reader svc now cr).cr).result
      ≡ ok o
    → o.resource_exists ≡ true
create_then_observe_template x reader svc now cr laws ids c h alive reader' svc' now' o told =
    elim (Bool-cases o.resource_exists) [
      | inl there ↦ there
      | inr gone ↦
          let left = (create_external_template x reader svc now cr).cr in
          let (unnamed, unmarked, _, _) =
            observe_template_absent x reader' svc' now' left o alive told gone in
          elim (creation-IsTraceable x laws reader svc now cr c h) [
            | inl (got, inl (d, a), named) ↦
                absurd (valid-nonempty got.id (ids.created d got a) (sym named ∙ unnamed))
            | inl (got, inr a, named) ↦
                absurd (valid-nonempty got.id (ids.found _ got a) (sym named ∙ unnamed))
            | inr marked ↦ absurd (
                effective_name-nonempty cr.spec.name cr.metadata.uid
                  (sym marked ∙ pending-nonempty x reader' svc' now' left unmarked))
          ]
    ]
