-- ===== src/Template/Handlers/Ready.antt =====
-- When Observe reports a Template up to date, which is what lets an Endpoint be bound to it.
use provider_runpod.Base.{
  String, ◌≡◌, refl, ◌⊎◌, inl, inr, Bool, true, false, List, ◌∷◌, Option, none, some, Result, ok,
  err, arith, eq_iff, not_found, str_eq, Bool-cases,
}
use provider_runpod.Client.Types.{Template, TemplateInput}
use provider_runpod.Apis.{TemplateResource, TemplateObservation, Time, available}
use provider_runpod.Apis.Crossplane.{Crossplane}
use provider_runpod.Apis.Reader.{Reader}
use provider_runpod.Managed.{ExternalObservation}
use provider_runpod.Template.Settings.{
  template_name, template_input, template_matches_input, set_template_observation,
}
use provider_runpod.Template.Handlers.{
  TemplateService, TemplateCall, TemplateRun, template_id, pending_template_name, bind_template_id,
}
use provider_runpod.Template.Handlers.Observe.{
  observe_template, observe_bound_template, on_found_template, on_read_template, judge_template,
}

-- An answer of RunPod that matches the desired settings.
abbrev pub found_matches : TemplateInput → Result Template → Bool
found_matches desired (ok got) = template_matches_input desired got
found_matches desired (err _) = false

abbrev pub read_matches : TemplateInput → Result (Option Template) → Bool
read_matches desired (ok (some got)) = template_matches_input desired got
read_matches desired _ = false

module _ (x : Crossplane) (reader : Reader) (svc : TemplateService) (now : Time) where
  abbrev IsAnnounced : TemplateResource → TemplateRun ExternalObservation → Type 0
  IsAnnounced cr r =
      (r.cr.observed_generation ≡ cr.metadata.generation)
      × (r.cr.conditions ≡ available ∷ cr.conditions)

  judge-matches :
      (cr : TemplateResource) (calls : List TemplateCall) (got : Template) (o : ExternalObservation)
      → (judge_template x reader svc now cr calls got).result ≡ ok o
      → o.resource_up_to_date ≡ true
      → (template_matches_input (template_input cr) got ≡ true)
        × IsAnnounced cr (judge_template x reader svc now cr calls got)
  unfolding set_template_observation template_input
  judge-matches cr calls got o h u = ground arith

  found-matches :
      (cr : TemplateResource) (r : Result Template) (o : ExternalObservation)
      → (on_found_template x reader svc now cr (template_name cr) r).result ≡ ok o
      → o.resource_up_to_date ≡ true
      → (found_matches (template_input cr) r ≡ true)
        × IsAnnounced cr (on_found_template x reader svc now cr (template_name cr) r)
  unfolding on_found_template set_template_observation template_input bind_template_id
  found-matches cr (err e) o h u = ground arith
  found-matches cr (ok got) o h u = ground arith

  input-rebound :
      (cr : TemplateResource) (p : TemplateObservation)
      → template_input (record cr { at_provider = p }) ≡ template_input cr
  unfolding template_input
  input-rebound cr p = refl

  read-matches :
      (cr : TemplateResource) (id : String) (r : Result (Option Template)) (o : ExternalObservation)
      → (on_read_template x reader svc now cr id r).result ≡ ok o
      → o.resource_up_to_date ≡ true
      → (read_matches (template_input cr) r ≡ true)
        × IsAnnounced cr (on_read_template x reader svc now cr id r)
  read-matches cr id (ok (some got)) o h u = elim (Bool-cases (str_eq cr.at_provider.id "")) [
    | inl unbound ↦ elim (Bool-cases (str_eq got.name (template_name cr))) [
      | inl named ↦
          let bound : TemplateObservation = record (cr.at_provider) { id = id } in
          let (fits, told) =
            judge-matches (record cr { at_provider = bound }) _ got o (rw (unbound, named) at h)
              u in
          (rw (input-rebound cr bound) at fits, rw (unbound, named) told)
      | inr other ↦ cc (rw (unbound, other) at h)
    ]
    | inr bound ↦
        let (fits, told) = judge-matches cr _ got o (rw bound at h) u in (fits, rw bound told)
  ]
  read-matches cr id (ok none) o h u = cc
  read-matches cr id (err not_found) o h u = ground arith
  read-matches cr id (err _) o h u = cc

  observed :
      (cr : TemplateResource) (o : ExternalObservation)
      → (observe_template x reader svc now cr).result ≡ ok o
      → o.resource_up_to_date ≡ true
      → (observe_template x reader svc now cr
          ≡ on_found_template x reader svc now cr
              (template_name cr)
              (svc.find_template_by_name (template_name cr)))
        ⊎ (observe_template x reader svc now cr
            ≡ on_read_template x reader svc now cr
                (template_id x reader svc now cr)
                (svc.get_template (template_id x reader svc now cr)))
  unfolding observe_template observe_bound_template
  observed cr o h u =
      ground (arith, eq_iff (pending_template_name x reader svc now cr) (template_name cr))

-- When Observe succeeds and reports a Template object up to date, then RunPod answered in that very
-- pass, to the lookup by the object's own name or to the GET of its ID, with a Template that matches
-- the desired settings; and the object leaves announced available, for its current generation.
pub observe_template_matches :
    (x : Crossplane) (reader : Reader) (svc : TemplateService) (now : Time) (cr : TemplateResource)
    (o : ExternalObservation)
    → (observe_template x reader svc now cr).result ≡ ok o
    → o.resource_up_to_date ≡ true
    → ((found_matches (template_input cr) (svc.find_template_by_name (template_name cr)) ≡ true)
        ⊎ (read_matches (template_input cr) (svc.get_template (template_id x reader svc now cr))
            ≡ true))
      × ((observe_template x reader svc now cr).cr.observed_generation ≡ cr.metadata.generation)
      × ((observe_template x reader svc now cr).cr.conditions ≡ available ∷ cr.conditions)
observe_template_matches x reader svc now cr o h u = elim (observed x reader svc now cr o h u) [
  | inl e ↦
      let (fits, (generation, condition)) =
        found-matches x reader svc now cr (svc.find_template_by_name (template_name cr)) o
          (rw e at h) u in
      (inl fits, rw e generation, rw e condition)
  | inr e ↦
      let (fits, (generation, condition)) =
        read-matches x reader svc now cr _ (svc.get_template (template_id x reader svc now cr)) o
          (rw e at h) u in
      (inr fits, rw e generation, rw e condition)
]
