-- ===== src/Tests/Handlers.antt =====
-- The Endpoint controller's theorems at concrete inputs.
use provider_runpod.Base.{
  ◌≤◌, len, pos, int_leb, ◌≡◌, ◌≢◌, refl, Bool, true, false, List, [], ◌∷◌, some, lookup, insert,
  length, All, ok, err, not_found, failure, create_ambiguous, arith, any, lookup_or,
}
use provider_runpod.Identifier.{validate_runpod_id, is_runpod_id}
use provider_runpod.Float.{milli_to_float}
use provider_runpod.Client.Types.{EndpointWorker}
use provider_runpod.Apis.{EndpointResource, EndpointCheck, seconds, flash_boot_evidence_current}
use provider_runpod.Managed.{
  ExternalObservation, ambiguous_absence_confirmed, endpoint_keys, bind_annotations,
  mark_ambiguous_create,
}
use provider_runpod.Endpoint.Settings.{
  endpoint_name, effective_name, to_lower, validate, ensure_lifetime_active, endpoint_input,
  max_name_bytes,
}
use provider_runpod.Endpoint.Settings.Name.{effective_name_sound}
use provider_runpod.Endpoint.Matching.{
  endpoint_matches_input, endpoint_template_matches, endpoint_workers_match, worker_matches,
  bounded_cost, machine_matches, unrepairable_external_state,
}
use provider_runpod.Endpoint.Matching.Workers.{endpoint_workers_match_sound, IsBoundedWorker}
use provider_runpod.Endpoint.Observation.{
  set_observation, evidence_carries, template_revision_proven,
}
use provider_runpod.Endpoint.Observation.FlashBoot.{
  Observed, here, next, IsStanding, IsBacked, enforced_at, Observed-IsBacked,
}
use provider_runpod.Endpoint.Observation.Revision.{IsRecorded, set_observation-IsRecorded}
use provider_runpod.Endpoint.Binding.{bind_external_id}
use provider_runpod.Endpoint.Handlers.{
  Service, get, delete, update, external_id, pending_name, refers_to,
}
use provider_runpod.Endpoint.Handlers.Change.{update_external, delete_external}
use provider_runpod.Endpoint.Handlers.Observe.{observe, observe_bound, on_found}
use provider_runpod.Endpoint.Handlers.Create.{create_external, recover_ambiguous_create}
use provider_runpod.Endpoint.Handlers.Calls.{
  is_own, create_external_guards, delete_external_guards, observe_guards, update_external_guards,
  is_present,
}
use provider_runpod.Endpoint.Handlers.Absence.{observe_absent}
use provider_runpod.Endpoint.Handlers.Proven.{IsReady}
use provider_runpod.Endpoint.Handlers.Ready.{observe-IsReady}
use provider_runpod.Endpoint.Handlers.Recovery.{IsIdentifying, create_then_observe}
use provider_runpod.Tests.Platform.{runtime, runtime-IsCrossplane, empty_namespace}
use provider_runpod.Tests.Fixtures.{binding, endpoint, new_object, bound_object, wanted}

abbrev running : Service
running = record {
  get_endpoint = λ _. ok (some endpoint);
  find_endpoint_by_name = λ _. ok endpoint;
  create_endpoint = λ _. ok endpoint;
  update_endpoint = λ _ _. ok endpoint;
  delete_endpoint = λ _. ok tt;
}

-- RunPod, when the answer to a create is lost and nothing can be found yet.
abbrev lost : Service
lost = record {
  get_endpoint = λ _. err not_found;
  find_endpoint_by_name = λ _. err not_found;
  create_endpoint = λ _. err (create_ambiguous "call RunPod API");
  update_endpoint = λ _ _. err (failure "call RunPod API");
  delete_endpoint = λ _. err not_found;
}

lost-IsIdentifying : IsIdentifying lost
lost-IsIdentifying = record { created = λ d got h. cc; updated = λ e d got h. cc }

abbrev report : Bool → Bool → Bool → ExternalObservation
report there current late = record {
  resource_exists = there;
  resource_up_to_date = current;
  resource_late_initialized = late;
}

create_then_observe_example : (report true true true).resource_exists ≡ true
unfolding create_external recover_ambiguous_create observe on_found lookup insert
    mark_ambiguous_create bind_external_id bind_annotations validate ensure_lifetime_active
    endpoint_input effective_name to_lower endpoint_matches_input endpoint_template_matches
    endpoint_workers_match worker_matches bounded_cost machine_matches validate_runpod_id
    milli_to_float
create_then_observe_example =
    create_then_observe runtime empty_namespace lost binding (seconds 1100) new_object
      runtime-IsCrossplane lost-IsIdentifying refl refl refl empty_namespace running binding
      (seconds 1200) (report true true true) refl

observe_absent_example :
    (external_id runtime empty_namespace running binding 0 new_object ≡ "")
    × (pending_name runtime empty_namespace running binding 0 new_object ≡ "")
    × (lookup_or "" ambiguous_absence_confirmed new_object.metadata.annotations ≡ "")
    × ((observe runtime empty_namespace running binding 0 new_object).calls ≡ [])
unfolding observe observe_bound lookup
observe_absent_example =
    observe_absent runtime empty_namespace running binding 0 new_object (report false false false)
      refl refl refl

observe-IsReady_example :
    IsReady running binding "ep1" bound_object
      (seconds 1300)
      (observe runtime empty_namespace running binding (seconds 1300) bound_object)
unfolding observe observe_bound lookup endpoint_input effective_name to_lower endpoint_matches_input
    endpoint_template_matches endpoint_workers_match worker_matches bounded_cost machine_matches
    validate_runpod_id unrepairable_external_state set_observation evidence_carries
    flash_boot_evidence_current template_revision_proven milli_to_float
observe-IsReady_example =
    observe-IsReady runtime empty_namespace running binding (seconds 1300) bound_object
      (report true true false) refl refl

create_external_guards_example :
    (lookup_or "" ambiguous_absence_confirmed new_object.metadata.annotations ≡ "")
    × (new_object.metadata.uid ≢ "")
    × (validate new_object binding.id ≡ ok tt)
    × (ensure_lifetime_active new_object.metadata 3600 (seconds 1100) ≡ ok tt)
    × (lookup_or "" endpoint_keys.ambiguous_create_name new_object.metadata.annotations ≡ "")
unfolding create_external recover_ambiguous_create lookup validate ensure_lifetime_active
create_external_guards_example =
    (create_external_guards runtime empty_namespace running binding (seconds 1100) new_object).1
      refl

delete_external_guards_example :
    (is_runpod_id "ep1" ≡ true)
    × (bound_object.at_provider.id
        ≡ external_id runtime empty_namespace running binding 0 bound_object)
    × ((checks : List EndpointCheck) × (empty_namespace.list_checks "ns" ≡ ok checks)
        × (any (refers_to "model") checks ≡ false))
    × ((delete_external runtime empty_namespace running binding 0 bound_object).calls
        ≡ get "ep1" ∷ delete "ep1" ∷ [])
unfolding delete_external lookup validate_runpod_id
delete_external_guards_example =
    delete_external_guards runtime empty_namespace running binding 0 bound_object refl

-- The object after a create whose answer was lost.
abbrev marked_object : EndpointResource
marked_object = record new_object {
  metadata = record (new_object.metadata) {
    annotations = (endpoint_keys.ambiguous_create_name, "model-xp-u1") ∷ [];
  };
}

observe_guards_example :
    (marked_object.metadata.is_deleting ≡ false)
    × (pending_name runtime empty_namespace running binding 0 marked_object
        ≡ endpoint_name marked_object)
    × (is_own
          (endpoint_name marked_object)
          (running.find_endpoint_by_name (endpoint_name marked_object))
        ≡ true)
unfolding observe on_found lookup endpoint_input effective_name to_lower endpoint_matches_input
    endpoint_template_matches endpoint_workers_match worker_matches bounded_cost machine_matches
    validate_runpod_id milli_to_float
observe_guards_example =
    (observe_guards runtime empty_namespace running binding 0 marked_object).2 refl

endpoint_workers_match_sound_example :
    (ws : List EndpointWorker) × (endpoint.workers ≡ some ws)
    × (int_leb (pos (length ws)) wanted.workers_max ≡ true)
    × All (IsBoundedWorker wanted endpoint binding (milli_to_float (pos 2000))) ws
unfolding endpoint_workers_match worker_matches bounded_cost machine_matches milli_to_float
endpoint_workers_match_sound_example =
    endpoint_workers_match_sound wanted endpoint binding (pos 2000) refl

set_observation-IsRecorded_example :
    IsRecorded bound_object binding true
      (pos 7)
      (set_observation bound_object endpoint false binding true (seconds 1300))
set_observation-IsRecorded_example =
    set_observation-IsRecorded bound_object endpoint false binding true (seconds 1300) (pos 1)
      (pos 1) (pos 7) refl refl refl (λ e. ground arith)

read_object : EndpointResource
read_object = (set_observation bound_object endpoint false binding true (seconds 1300)).cr

once : Observed bound_object read_object
unfolding read_object
once = next endpoint false binding true (seconds 1300) here

Observed-IsBacked_example :
    IsStanding read_object.at_provider endpoint endpoint.version (seconds 1400)
    × IsBacked (enforced_at read_object) read_object once
    × (enforced_at (set_observation read_object endpoint false binding true (seconds 1400)).cr
        ≡ enforced_at read_object)
unfolding set_observation read_object evidence_carries flash_boot_evidence_current
Observed-IsBacked_example =
    (Observed-IsBacked once).1 endpoint binding true (seconds 1400) refl refl

effective_name_sound_example : len (effective_name "model" "U1") ≤ max_name_bytes
unfolding to_lower
effective_name_sound_example = (effective_name_sound "model" "other" "U1" "U2").0 (omega arith)

update_external_guards_example :
    (validate bound_object binding.id ≡ ok tt)
    × (ensure_lifetime_active bound_object.metadata 3600 (seconds 1300) ≡ ok tt)
    × (is_runpod_id "ep1" ≡ true)
    × (bound_object.at_provider.id
        ≡ external_id runtime empty_namespace running binding (seconds 1300) bound_object)
    × (is_present (running.get_endpoint "ep1") ≡ true)
    × ((update_external runtime empty_namespace running binding (seconds 1300) bound_object).calls
        ≡ get "ep1" ∷ update "ep1" (endpoint_input bound_object binding.id) ∷ [])
unfolding update_external lookup validate_runpod_id validate ensure_lifetime_active
update_external_guards_example =
    update_external_guards runtime empty_namespace running binding (seconds 1300) bound_object refl
