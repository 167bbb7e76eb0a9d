-- ===== src/Janitor.antt =====
-- internal/controller/janitor/janitor.go: the end of an Endpoint's lifetime, and of a Template's. A pass
-- gives its result and the calls that it made of the API server, in order. The answers to the calls
-- that change something are an argument.
pub mod Order
use Prim.Native.String.{◌++◌}
use provider_runpod.Base.{
  ℕ, ◌-◌, String, Bool, true, false, not, ◌&&◌, ◌||◌, List, [], ◌∷◌, Option, none, some, is_some,
  ltb, any, str_eq, has_string, Result, ok, err, is_not_found, if◌then◌else◌, lookup, insert,
  lookup_or,
}
use mathlib.Core.List
use provider_runpod.Apis.{
  EndpointResource, TemplateResource, EndpointCheck, Time, seconds, is_zero, before, deadline,
}
use provider_runpod.Endpoint.Handlers.{refers_to}
use provider_runpod.Template.Handlers.{refers_to_template}
use provider_runpod.Apis.Reader.{Reader}

abbrev pub lifetime_finalizer : String
lifetime_finalizer = "janitor.runpod.crossplane.io/lifetime"

abbrev pub template_reap_annotation : String
template_reap_annotation = "janitor.runpod.crossplane.io/delete-when-unreferenced"

abbrev pub cleanup_poll : ℕ
cleanup_poll = seconds 2

-- What a pass asks of the API server.
pub data Write : Type 0 where
  update_endpoint delete_endpoint : EndpointResource → Write
  update_template delete_template : TemplateResource → Write
  delete_check : EndpointCheck → Write

-- When to come again, if at all.
abbrev pub Requeue : Type 0
Requeue = Option ℕ

pub record Sweep (A : Type 0) : Type 0 where
  pub result : Result A
  pub writes : List Write

abbrev end : {A : Type 0} → Result A → Sweep A
end r = record { result = r; writes = [] }

-- One write, and what follows if it succeeds.
abbrev after : {A B : Type 0} → Sweep A → Result A → (A → Sweep B) → Sweep B
after s (err e) f = record { result = err e; writes = s.writes }
after s (ok a) f = let t = f a in record { result = t.result; writes = List.◌++◌ s.writes t.writes }

abbrev pub then_do : {A B : Type 0} → Sweep A → (A → Sweep B) → Sweep B
then_do s f = after s s.result f

-- `err != nil && !apierrors.IsNotFound(err)`
abbrev pub forgive_missing : Result (Unit {0}) → Result (Unit {0})
forgive_missing (ok _) = ok tt
forgive_missing (err e) = if is_not_found e then ok tt else err e

abbrev pub has_finalizer : EndpointResource → Bool
has_finalizer ep = has_string ep.metadata.finalizers lifetime_finalizer

abbrev pub with_finalizers : EndpointResource → List String → EndpointResource
with_finalizers ep fs = record ep { metadata = record (ep.metadata) { finalizers = fs } }

-- The first occurrence goes.
abbrev pub remove : List String → String → List String
remove [] target = []
remove (v ∷ vs) target = if str_eq v target then vs else v ∷ remove vs target

abbrev pub should_delete_template : Option Bool → Bool
should_delete_template none = true
should_delete_template (some b) = b

module _ (reader : Reader) (answer : Write → Result (Unit {0})) (now : Time) where
  -- A write whose every error counts, and one whose object may be gone already.
  abbrev pub write : Write → Sweep (Unit {0})
  write w = record { result = answer w; writes = w ∷ [] }

  abbrev pub write_if_present : Write → Sweep (Unit {0})
  write_if_present w = record { result = forgive_missing (answer w); writes = w ∷ [] }

  -- The loop of `deleteChecks`.
  unfoldable pub delete_matching : String → List EndpointCheck → Bool → Sweep Bool
  delete_matching name [] found = end (ok found)
  delete_matching name (check ∷ checks) found = elim (refers_to name check) [
    | true ↦ then_do (write_if_present (delete_check check)) (λ _. delete_matching name checks true)
    | false ↦ delete_matching name checks found
  ]

  abbrev pub delete_checks : EndpointResource → Result (List EndpointCheck) → Sweep Bool
  delete_checks ep (err e) = end (err e)
  delete_checks ep (ok checks) = delete_matching ep.metadata.name checks false

  abbrev pub mark_template : EndpointResource → Result TemplateResource → Sweep (Unit {0})
  mark_template ep (err e) = end (forgive_missing (err e))
  mark_template ep (ok template) =
      if is_some (lookup template_reap_annotation template.metadata.annotations)
      then end (ok tt)
      else let marker =
          if str_eq ep.metadata.uid ""
          then ep.metadata.namespace ++ "/" ++ ep.metadata.name
          else ep.metadata.uid in
        write (
          update_template (record template {
            metadata = record (template.metadata) {
              annotations = insert template_reap_annotation marker template.metadata.annotations;
            };
          }))

  abbrev pub mark_template_for_reaping : EndpointResource → Option String → Sweep (Unit {0})
  mark_template_for_reaping ep none = end (ok tt)
  mark_template_for_reaping ep (some name) =
      mark_template ep (reader.get_template ep.metadata.namespace name)

  -- What follows once no check is left and the Template is marked.
  abbrev pub release : EndpointResource → Sweep Requeue
  release ep =
      if not ep.metadata.is_deleting
      then then_do (write_if_present (delete_endpoint ep)) (λ _. end (ok (some cleanup_poll)))
      else if has_finalizer ep
      then then_do
          (write_if_present (
            update_endpoint
              (with_finalizers ep (remove ep.metadata.finalizers lifetime_finalizer))))
          (λ _. end (ok none))
      else end (ok none)

  abbrev pub expires_at : EndpointResource → Time
  expires_at ep = deadline ep.metadata ep.spec.max_lifetime_seconds

  abbrev pub drain : EndpointResource → Bool → Sweep Requeue
  drain ep true = end (ok (some cleanup_poll))
  drain ep false =
      if not (before now (expires_at ep))
        && should_delete_template ep.spec.delete_referenced_template_on_expiry
      then then_do (mark_template_for_reaping ep ep.spec.template_id_ref) (λ _. release ep)
      else release ep

  unfoldable pub sweep_endpoint : EndpointResource → Sweep Requeue
  unfolding delete_matching
  sweep_endpoint ep =
      if not ep.metadata.is_deleting && not (has_finalizer ep)
      then then_do
          (write (
            update_endpoint
              (with_finalizers ep (List.◌++◌ ep.metadata.finalizers (lifetime_finalizer ∷ [])))))
          (λ _. end (ok none))
      else if not ep.metadata.is_deleting && before now (expires_at ep)
      then end (ok (some (expires_at ep - now)))
      else then_do (delete_checks ep (reader.list_checks ep.metadata.namespace)) (drain ep)

  abbrev on_endpoint : Result EndpointResource → Sweep Requeue
  on_endpoint (err e) = if is_not_found e then end (ok none) else end (err e)
  on_endpoint (ok ep) = sweep_endpoint ep

  -- `reconciler.Reconcile`
  unfoldable pub reconcile_endpoint : String → String → Sweep Requeue
  reconcile_endpoint namespace name = on_endpoint (reader.get_endpoint namespace name)

  abbrev reap : TemplateResource → Result (List EndpointResource) → Sweep Requeue
  reap template (err e) = end (err e)
  reap template (ok endpoints) =
      if any (refers_to_template template.metadata.name) endpoints
      then end (ok (some cleanup_poll))
      else then_do (write_if_present (delete_template template)) (λ _. end (ok none))

  abbrev pub reap_requested : TemplateResource → Bool
  reap_requested template =
      not (str_eq (lookup_or "" template_reap_annotation template.metadata.annotations) "")

  abbrev pub template_expires_at : TemplateResource → Time
  template_expires_at template = deadline template.metadata template.spec.max_lifetime_seconds

  abbrev pub has_lifetime : TemplateResource → Bool
  has_lifetime template =
      ltb 0 template.spec.max_lifetime_seconds && not (is_zero template.metadata.creation_timestamp)

  unfoldable pub sweep_template : TemplateResource → Sweep Requeue
  sweep_template template =
      let alive = before now (template_expires_at template) in
      if template.metadata.is_deleting
      then end (ok none)
      else if has_lifetime template && alive && not (reap_requested template)
      then end (ok (some (template_expires_at template - now)))
      else if not (reap_requested template || (has_lifetime template && not alive))
      then end (ok none)
      else reap template (reader.list_endpoints template.metadata.namespace)

  abbrev on_template : Result TemplateResource → Sweep Requeue
  on_template (err e) = if is_not_found e then end (ok none) else end (err e)
  on_template (ok template) = sweep_template template

  -- `templateReconciler.Reconcile`
  unfoldable pub reconcile_template : String → String → Sweep Requeue
  reconcile_template namespace name = on_template (reader.get_template namespace name)
