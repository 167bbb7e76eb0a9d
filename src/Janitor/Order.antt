-- ===== src/Janitor/Order.antt =====
-- internal/controller/janitor/janitor.go: in which order the janitor takes things down.
use provider_runpod.Base.{
  ◌≤◌, String, ◌≡◌, refl, ap, ◌∙◌, ◌⊎◌, Bool, true, false, not, ◌&&◌, ◌||◌, List, [], ◌∷◌, map,
  some, any, any-append, append_nil, select, Result, ok, err, arith,
}
use provider_runpod.Apis.{EndpointResource, TemplateResource, EndpointCheck, Time, before}
use provider_runpod.Apis.Reader.{Reader}
use provider_runpod.Endpoint.Handlers.{refers_to}
use provider_runpod.Template.Handlers.{refers_to_template}
use provider_runpod.Janitor.{
  Write, update_endpoint, delete_endpoint, delete_template, delete_check, Sweep, forgive_missing,
  has_finalizer, delete_matching, delete_checks, drain, sweep_endpoint, sweep_template,
  reconcile_endpoint, reconcile_template, expires_at, template_expires_at, reap_requested,
  has_lifetime, reap, after, cleanup_poll, then_do,
}

-- A write that lets the external Endpoint be deleted: of the object, or of the finalizer that holds it.
abbrev pub releases : Write → Bool
releases (delete_endpoint _) = true
releases (update_endpoint ep) = ep.metadata.is_deleting
releases _ = false

abbrev pub reaps : Write → Bool
reaps (delete_template _) = true
reaps _ = false

module _ (reader : Reader) (answer : Write → Result (Unit {0})) (now : Time) where
  -- The loop over the checks deletes those that refer to the Endpoint, in order, and says whether
  -- there were any.
  delete_matching_lem :
      (name : String) (checks : List EndpointCheck) (found : Bool)
      → ((c : EndpointCheck) → forgive_missing (answer (delete_check c)) ≡ ok tt)
      → ((delete_matching reader answer now name checks found).result
          ≡ ok (found || any (refers_to name) checks))
        × ((delete_matching reader answer now name checks found).writes
            ≡ map delete_check (select (refers_to name) checks))
  unfolding delete_matching
  delete_matching_lem name [] found works = ground arith
  delete_matching_lem name (c ∷ cs) found works = ground (
    arith,
    works c,
    delete_matching_lem name cs found works,
    delete_matching_lem name cs true works,
  )

  delete_matching-none :
      (name : String) (checks : List EndpointCheck) (found : Bool)
      → (delete_matching reader answer now name checks found).result ≡ ok false
      → (any (refers_to name) checks ≡ false) × (found ≡ false)
  unfolding delete_matching
  delete_matching-none name [] found h = ground arith
  delete_matching-none name (c ∷ cs) found h =
      ground (arith, delete_matching-none name cs found, delete_matching-none name cs true)

  delete_matching-releases :
      (name : String) (checks : List EndpointCheck) (found : Bool)
      → any releases (delete_matching reader answer now name checks found).writes ≡ false
  unfolding delete_matching
  delete_matching-releases name [] found = refl
  delete_matching-releases name (c ∷ cs) found =
      ground (arith, delete_matching-releases name cs found, delete_matching-releases name cs true)

  drained :
      (ep : EndpointResource) (s : Sweep Bool) (v : Result Bool)
      → s.result ≡ v
      → any releases s.writes ≡ false
      → any releases (after s v (drain reader answer now ep)).writes ≡ true
      → s.result ≡ ok false
  drained ep s (err e) told quiet h = cc
  drained ep s (ok false) told quiet h = told
  drained ep s (ok true) told quiet h = ground (arith, any-append releases s.writes [])

  checks-drained :
      (ep : EndpointResource) (r : Result (List EndpointCheck))
      → any releases
          (then_do (delete_checks reader answer now ep r) (drain reader answer now ep)).writes
        ≡ true
      → (checks : List EndpointCheck) × (r ≡ ok checks)
        × (any (refers_to ep.metadata.name) checks ≡ false)
  checks-drained ep (err e) h = cc
  checks-drained ep (ok checks) h = (
    checks,
    refl,
    (delete_matching-none ep.metadata.name checks false
        (drained ep _ _ refl (delete_matching-releases ep.metadata.name checks false) h)).0,
  )

  swept :
      (ep : EndpointResource)
      → any releases (sweep_endpoint reader answer now ep).writes ≡ true
      → ((ep.metadata.is_deleting || not (before now (expires_at reader answer now ep))) ≡ true)
        × (sweep_endpoint reader answer now ep
            ≡ then_do
                (delete_checks reader answer now ep (reader.list_checks ep.metadata.namespace))
                (drain reader answer now ep))
  unfolding sweep_endpoint
  swept ep h = ground arith

  -- A pass over an Endpoint lets it go, by deleting the object or by taking off the finalizer that
  -- holds it back, only if the object is being deleted or its lifetime has elapsed, and only if the
  -- EndpointChecks of its namespace were listed in that very pass and none of them refers to it.
  pub reconcile_endpoint_order :
      (namespace name : String) (ep : EndpointResource)
      → reader.get_endpoint namespace name ≡ ok ep
      → any releases (reconcile_endpoint reader answer now namespace name).writes ≡ true
      → ((ep.metadata.is_deleting ≡ true) ⊎ (expires_at reader answer now ep ≤ now))
        × ((checks : List EndpointCheck) × (reader.list_checks ep.metadata.namespace ≡ ok checks)
            × (any (refers_to ep.metadata.name) checks ≡ false))
  unfolding reconcile_endpoint
  reconcile_endpoint_order namespace name ep told h =
      let (due, e) = swept ep (rw told at h) in
      (
        ground (arith, due),
        checks-drained ep (reader.list_checks ep.metadata.namespace) (rw (told, e) at h),
      )

  reaped :
      (template : TemplateResource) (r : Result (List EndpointResource))
      → any reaps (reap reader answer now template r).writes ≡ true
      → (es : List EndpointResource) × (r ≡ ok es)
        × (any (refers_to_template template.metadata.name) es ≡ false)
  reaped template (err e) h = cc
  reaped template (ok es) h = (es, refl, ground arith)

  asked :
      (template : TemplateResource)
      → any reaps (sweep_template reader answer now template).writes ≡ true
      → (template.metadata.is_deleting ≡ false)
        × ((reap_requested reader answer now template ≡ true)
            ⊎ ((has_lifetime reader answer now template ≡ true)
                × (template_expires_at reader answer now template ≤ now)))
        × (any reaps
              (reap reader answer now template
                (reader.list_endpoints template.metadata.namespace)).writes
            ≡ true)
  unfolding sweep_template
  asked template h = ground arith

  -- A pass over a Template deletes it only if it is not being deleted yet, its deletion was asked for
  -- by the mark of an expired Endpoint or by its own elapsed lifetime, and the Endpoints of its
  -- namespace were listed in that very pass and none of them refers to it.
  pub reconcile_template_unreferenced :
      (namespace name : String) (template : TemplateResource)
      → reader.get_template namespace name ≡ ok template
      → any reaps (reconcile_template reader answer now namespace name).writes ≡ true
      → (template.metadata.is_deleting ≡ false)
        × ((reap_requested reader answer now template ≡ true)
            ⊎ ((has_lifetime reader answer now template ≡ true)
                × (template_expires_at reader answer now template ≤ now)))
        × ((endpoints : List EndpointResource) × (reader.list_endpoints template.metadata.namespace
              ≡ ok endpoints)
            × (any (refers_to_template template.metadata.name) endpoints ≡ false))
  unfolding reconcile_template
  reconcile_template_unreferenced namespace name template told h =
      let (alive, due, asks) = asked template (rw told at h) in
      (alive, due, reaped template (reader.list_endpoints template.metadata.namespace) asks)

  due_sweep :
      (ep : EndpointResource)
      → (ep.metadata.is_deleting
          || (has_finalizer ep && not (before now (expires_at reader answer now ep))))
        ≡ true
      → sweep_endpoint reader answer now ep
        ≡ then_do
            (delete_checks reader answer now ep (reader.list_checks ep.metadata.namespace))
            (drain reader answer now ep)
  unfolding sweep_endpoint
  due_sweep ep due = ground arith

  drain_again :
      (ep : EndpointResource) (s : Sweep Bool) {ws : List Write}
      → s.result ≡ ok true
      → s.writes ≡ ws
      → ((then_do s (drain reader answer now ep)).writes ≡ ws)
        × ((then_do s (drain reader answer now ep)).result ≡ ok (some cleanup_poll))
  drain_again ep s r w = rw r (append_nil s.writes ∙ w, refl)

  -- If every deletion of a check succeeds or finds the check gone, the pass over an Endpoint that is
  -- being deleted, or that is expired and carries the janitor's finalizer, asks for the deletion of exactly those checks of the namespace that
  -- refer to it, in the order of the list, and while there are any it does nothing else and comes
  -- again.
  pub reconcile_endpoint_drains :
      (namespace name : String) (ep : EndpointResource) (checks : List EndpointCheck)
      → reader.get_endpoint namespace name ≡ ok ep
      → (ep.metadata.is_deleting
          || (has_finalizer ep && not (before now (expires_at reader answer now ep))))
        ≡ true
      → reader.list_checks ep.metadata.namespace ≡ ok checks
      → any (refers_to ep.metadata.name) checks ≡ true
      → ((c : EndpointCheck) → forgive_missing (answer (delete_check c)) ≡ ok tt)
      → ((reconcile_endpoint reader answer now namespace name).writes
          ≡ map delete_check (select (refers_to ep.metadata.name) checks))
        × ((reconcile_endpoint reader answer now namespace name).result ≡ ok (some cleanup_poll))
  unfolding reconcile_endpoint
  reconcile_endpoint_drains namespace name ep checks told due listed used works =
      let (found, wrote) = delete_matching_lem ep.metadata.name checks false works in
      rw (told, due_sweep ep due, listed) (drain_again ep _ (found ∙ ap ok used) wrote)
