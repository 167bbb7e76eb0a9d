-- ===== src/Client/Validation/Observed.antt =====
-- What a validated Endpoint response is.
use provider_runpod.Base.{
  String, ◌≡◌, refl, ◌⊎◌, inl, inr, true, false, List, [], ◌∷◌, Option, none, some, ok, All, arith,
  eq_iff, Bool-cases, is_some, and_then-eq-ok,
}
use provider_runpod.Identifier.{is_runpod_id}
use provider_runpod.Client.Types.{NullableString, Template, Endpoint, EndpointWorker}
use provider_runpod.Client.Validation.{
  validate_endpoint_observation, worker_identity_broken, check_workers, check_listed_workers,
  check_bound_template,
}

-- A field that is an explicit null, or the expected identity.
abbrev pub Agrees : NullableString → String → Type 0
Agrees s expected = (s.present ≡ true) × ((s.null ≡ true) ⊎ (s.value ≡ expected))

pub record IsBoundWorker (e : Endpoint) (w : EndpointWorker) : Type 0 where
  pub named : (w.id.present ≡ true) × (w.id.null ≡ false)
  pub valid : is_runpod_id w.id.value ≡ true
  pub endpoint : Agrees w.endpoint_id e.id
  pub template : Agrees w.template_id e.template_id
  pub versioned : is_some w.sls_version ≡ true

pub record IsObserved (e : Endpoint) : Type 0 where
  pub valid : is_runpod_id e.id ≡ true
  pub template_valid : is_runpod_id e.template_id ≡ true
  pub workers_min : is_some e.workers_min ≡ true
  pub workers_max : is_some e.workers_max ≡ true
  pub version : is_some e.version ≡ true
  pub bound : (t : Template) × (e.template ≡ some t) × (t.id ≡ e.template_id)
  pub workers : (ws : List EndpointWorker) × (e.workers ≡ some ws) × All (IsBoundWorker e) ws

worker_sound :
    (e : Endpoint) (w : EndpointWorker) → worker_identity_broken e w ≡ false → IsBoundWorker e w
unfolding worker_identity_broken
worker_sound e w h =
    ground (arith, eq_iff w.endpoint_id.value e.id, eq_iff w.template_id.value e.template_id)

check_workers_sound :
    (e : Endpoint) (ws : List EndpointWorker)
    → check_workers e ws ≡ ok tt
    → All (IsBoundWorker e) ws
unfolding check_workers
check_workers_sound e [] h = tt
check_workers_sound e (w ∷ ws) h = elim (Bool-cases (worker_identity_broken e w)) [
  | inl broken ↦ cc (rw (broken) at h)
  | inr sound ↦ (worker_sound e w sound, check_workers_sound e ws (rw sound at h))
]

record Parts (e : Endpoint) : Type 0 where
  valid : is_runpod_id e.id ≡ true
  template_valid : is_runpod_id e.template_id ≡ true
  workers_min : is_some e.workers_min ≡ true
  workers_max : is_some e.workers_max ≡ true
  version : is_some e.version ≡ true
  listed : check_listed_workers e e.workers ≡ ok tt

validated-Parts : (e : Endpoint) → validate_endpoint_observation e ≡ ok tt → Parts e
unfolding validate_endpoint_observation
validated-Parts e h = ground arith

bound_template :
    (e : Endpoint) (o : Option Template)
    → check_bound_template e o ≡ ok tt
    → (t : Template) × (o ≡ some t) × (t.id ≡ e.template_id)
bound_template e none h = cc
bound_template e (some t) h = (t, refl, ground (arith, eq_iff t.id e.template_id))

listed_workers :
    (e : Endpoint) (o : Option (List EndpointWorker))
    → check_listed_workers e o ≡ ok tt
    → (check_bound_template e e.template ≡ ok tt)
      × ((ws : List EndpointWorker) × (o ≡ some ws) × All (IsBoundWorker e) ws)
listed_workers e none h = cc
listed_workers e (some ws) h =
    let (_, bound, checked) = and_then-eq-ok (check_bound_template e e.template) _ h in
    (bound, (ws, refl, check_workers_sound e ws checked))

-- A response that validates has a usable ID and template ID, its worker bounds and its version, the
-- bound Template under the same template ID, and only workers that name themselves and agree with
-- the Endpoint on both identities.
pub validate_endpoint_observation-IsObserved :
    (e : Endpoint) → validate_endpoint_observation e ≡ ok tt → IsObserved e
validate_endpoint_observation-IsObserved e h =
    let p = validated-Parts e h in
    let (bound, workers) = listed_workers e e.workers p.listed in
    record {
      valid = p.valid;
      template_valid = p.template_valid;
      workers_min = p.workers_min;
      workers_max = p.workers_max;
      version = p.version;
      bound = bound_template e e.template bound;
      workers = workers;
    }
